-- ===== src/Network/Api/Handlers/Lists.antt =====
-- lib/network/api: the lists that the server answers with.
use chat_up.Base.{◌≡◌, refl, ap₂, ◌<◌, ◌^◌, List, [], ◌∷◌, map, String}
use chat_up.Core.User.{UserData, new_handle}
use chat_up.Core.Message.{MessageData}
use chat_up.Core.Participate.{ParticipateData, new_participate}
use chat_up.Network.Json.{Json}
use chat_up.Network.Api.Data.{Texts}
use chat_up.Network.Api.Data.Read.{
  found, user_members, participate_members, message_members, user_from_json-object,
  participate_from_json-object, message_from_json-object,
}
use chat_up.Network.Api.Handlers.{users_of, participants_of, messages_of}

-- Every item of a list satisfies a predicate.
abbrev pub All : {A : Type 0} → (A → Type 0) → List A → Type 0
All P [] = Unit
All P (x ∷ xs) = P x × All P xs

map-inverse :
    {A B : Type 0} (P : A → Type 0) (f : A → B) (g : B → A)
    → ((x : A) → P x → g (f x) ≡ x)
    → (xs : List A) → All P xs
    → map g (map f xs) ≡ xs
map-inverse P f g h [] all = refl
map-inverse P f g h (x ∷ xs) all = ap₂ (λ y ys. y ∷ ys) (h x all.0) (map-inverse P f g h xs all.1)

All-trivial : {A : Type 0} (xs : List A) → All (λ x. Unit) xs
All-trivial [] = tt
All-trivial (x ∷ xs) = (tt, All-trivial xs)

module _ (json : Json) where
  open json use {J}

  users_of-array :
      (us : List UserData)
      → users_of json (json.array (map (λ p. json.object (user_members json p)) us)) ≡ us
  unfolding users_of
  users_of-array us = rw (json.items-array _) (
      map-inverse (λ p. Unit) _ _ (λ p u. user_from_json-object json p new_handle) us
        (All-trivial us))

  participants_of-array :
      (ps : List ParticipateData)
      → participants_of json (
          json.object (
            ("participants", json.array (map (λ p. json.object (participate_members json p)) ps))
            ∷ []))
        ≡ ps
  unfolding participants_of
  participants_of-array ps =
      rw (participants_of, found json (("participants", json.array _) ∷ []) "participants" _ refl)
        (rw (json.items-array _) (
          map-inverse (λ p. Unit) _ _ (λ p u. participate_from_json-object json p new_participate)
            ps (All-trivial ps)))

  module _ {Time Bytes : Type 0} (texts : Texts Time Bytes) (iso : Time → String)
      (raw : Bytes → String) (iso_lem : (t : Time) → texts.time_of_text (iso t) ≡ t)
      (raw_lem : (b : Bytes) → texts.bytes_of_text (raw b) ≡ b) where
    messages_of-array :
        (fresh : MessageData Time Bytes) (ms : List (MessageData Time Bytes))
        → All (λ m. m.message_index < 2 ^ 32) ms
        → messages_of json texts fresh (
            json.array
              (map (λ m. json.object (message_members json texts m (iso m.time) (raw m.body))) ms))
          ≡ ms
    unfolding messages_of
    messages_of-array fresh ms small = rw (json.items-array _) (
        map-inverse (λ m. m.message_index < 2 ^ 32) _ _
          (λ m s.
            message_from_json-object json texts m fresh (iso m.time) (raw m.body) s (iso_lem m.time)
              (raw_lem m.body))
          ms small)

    -- Where the texts of times and bodies read back, and message indices are below 2 ^ 32: the answers
    -- that list users, the participants of a call and messages, one object with all its members for
    -- each, are read as these users, participants and messages, in order.
    pub answers-array :
        (us : List UserData) (ps : List ParticipateData) (fresh : MessageData Time Bytes)
        (ms : List (MessageData Time Bytes))
        → All (λ m. m.message_index < 2 ^ 32) ms
        → (users_of json (json.array (map (λ p. json.object (user_members json p)) us)) ≡ us)
          × (participants_of json (
                json.object (
                  (
                    "participants",
                    json.array (map (λ p. json.object (participate_members json p)) ps),
                  )
                  ∷ []))
              ≡ ps)
          × (messages_of json texts fresh (
                json.array (
                  map
                    (λ m. json.object (message_members json texts m (iso m.time) (raw m.body)))
                    ms))
              ≡ ms)
    answers-array us ps fresh ms small =
        (users_of-array us, participants_of-array ps, messages_of-array fresh ms small)
