-- ===== src/Network/Api.antt =====
-- lib/network/api and the `from_json` and `to_json` of lib/core/data.cpp: what the calls of the server
-- send and what is read of their answers. Here the ways in which a value is read; an exception of
-- nlohmann::json is `none`.
pub mod Data
pub mod Requests
pub mod Handlers
mod Tests
use chat_up.Base.{Bool, true, false, Option, none, some, List, [], ◌∷◌, String, ℤ, if◌then◌else◌}
use chat_up.Network.Json.{Json}

-- The statements of a `try` block on the object that is read: the first one that throws ends it, and
-- what the ones before have stored stays.
unfoldable pub run : {T : Type 0} → List (T → Option T) → T → T
run [] t = t
run (f ∷ fs) t = elim (f t) [ none ↦ t | some u ↦ run fs u ]

-- The same without a `catch`: the exception leaves the function.
unfoldable pub run_all : {T : Type 0} → List (T → Option T) → T → Option T
run_all [] t = some t
run_all (f ∷ fs) t = elim (f t) [ none ↦ none | some u ↦ run_all fs u ]

module _ (json : Json) where
  open json use {J}

  -- `get` is the conversion to the type of the member, `put` stores it.
  module _ {A T : Type 0} (get : J → Option A) (j : J) (key : String) where
    unfoldable pub stored : (A → T → T) → T → Option A → Option T
    stored put t none = none
    stored put t (some a) = some (put a t)

    -- p.x = j.value(key, other), which throws if j is no object
    unfoldable pub read_value : A → (A → T → T) → T → Option T
    unfolding stored
    read_value other put t =
        if json.is_object j
        then elim (json.at j key) [ none ↦ some (put other t) | some v ↦ stored put t (get v) ]
        else none

    -- if (j.contains(key)) j.at(key).get_to(p.x)
    unfoldable pub read_present : (A → T → T) → T → Option T
    unfolding stored
    read_present put t = elim (json.at j key) [ none ↦ some t | some v ↦ stored put t (get v) ]

    -- the same where a null is passed over
    unfoldable pub read_non_null : (A → T → T) → T → Option T
    unfolding stored
    read_non_null put t = elim (json.at j key) [
      | none ↦ some t
      | some v ↦ if json.is_null v then some t else stored put t (get v)
    ]

    -- p.x = j[key]; a missing key reads as null, which no conversion takes
    unfoldable pub read_needed : (A → T → T) → T → Option T
    unfolding stored
    read_needed put t = elim (json.at j key) [ none ↦ none | some v ↦ stored put t (get v) ]
