-- ===== src/Network/Api/Data/Unread.antt =====
-- lib/core/data.cpp: what `to_json` writes is not what `from_json` reads.
use chat_up.Base.{◌≡◌, refl, false, List, ◌∷◌, Option, String}
use chat_up.Core.User.{UserData}
use chat_up.Core.Group.{ExtendedData}
use chat_up.Core.Message.{MessageData}
use chat_up.Core.Participate.{ParticipateData}
use chat_up.Network.Json.{Json}
use chat_up.Network.Api.{run, read_value}
use chat_up.Network.Api.Data.{
  GroupData, Texts, data_of, user_to_json, user_from_json, group_to_json, group_from_json,
  extended_to_json, extended_from_json, message_to_json, message_from_json, participate_to_json,
  participate_from_json,
}

module _ (json : Json) where
  -- The first member of an array is asked for by its key, which throws: nothing is stored.
  run-no_object :
      {A T : Type 0} (get : json.J → Option A) (j : json.J) (fs : List (T → Option T)) (k : String)
      (a : A) (put : A → T → T) (t : T)
      → json.is_object j ≡ false
      → run (read_value json get j k a put ∷ fs) t ≡ t
  unfolding run read_value
  run-no_object get j fs k a put t e = rw (run, e) refl

  -- What to_json writes of the data of a user, a group, a group with its readings, a message and a
  -- participant is read back by from_json as nothing: the target stays as it was.
  pub from_json-to_json :
      {Time Bytes : Type 0} (texts : Texts Time Bytes) (u v : UserData) (g h : GroupData)
      (x y : ExtendedData Time) (m n : MessageData Time Bytes) (p q : ParticipateData)
      → (user_from_json json (user_to_json json u) v ≡ v)
        × (group_from_json json (group_to_json json g) h ≡ h)
        × (extended_from_json json texts (extended_to_json json texts x) y ≡ y)
        × (message_from_json json texts (message_to_json json texts m) n ≡ n)
        × (participate_from_json json (participate_to_json json p) q ≡ q)
  unfolding user_to_json group_to_json extended_to_json message_to_json participate_to_json
      user_from_json group_from_json extended_from_json message_from_json participate_from_json
      data_of
  from_json-to_json texts u v g h x y m n p q = (
    run-no_object _ _ _ _ _ _ v (json.is_object-array _),
    run-no_object _ _ _ _ _ _ h (json.is_object-array _),
    run-no_object _ _ _ _ _ _ y (json.is_object-array _),
    run-no_object _ _ _ _ _ _ n (json.is_object-array _),
    run-no_object _ _ _ _ _ _ q json.is_object-null,
  )
