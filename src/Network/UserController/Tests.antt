-- ===== src/Network/UserController/Tests.antt =====
-- The theorems on the handles of users at the controller's first state
-- (lib/network/controllers/usercontroller.cpp).
use chat_up.Base.{◌≡◌, refl, true, false, some, [], ◌∷◌, pos, int_eq, arith}
use chat_up.Base.Map
use chat_up.Base.Map.{Map, lookup-empty, lookup-insert}
use chat_up.Core.User.{UserData, online, new_handle}
use chat_up.Network.UserController.{UserController, handles_of}
use chat_up.Network.UserController.Shown.{Shows, handles_of-Shows}
use chat_up.Network.UserController.Search.{parse_search_string}
use chat_up.Network.Api.Requests.{new_find}

abbrev two_free : UserController
two_free = record {
  handles = new_handle ∷ new_handle ∷ [];
  user_handlers = Map.empty;
  pending_requests = Map.empty;
  next_future = 3;
  free_handle_pool = 1 ∷ 0 ∷ [];
  users_in_rooms = Map.empty;
}

abbrev alice : UserData
alice = record { status = online; name = "Alice"; tag = "al"; id = pos 5 }

abbrev bob : UserData
bob = record { status = online; name = "Bob"; tag = "bo"; id = pos 6 }

handles_of-Shows_example :
    (v : UserController) × (handles_of true (alice ∷ bob ∷ []) two_free ≡ some (1 ∷ 0 ∷ [], v))
    × (v.free_handle_pool ≡ [])
    × Shows (alice ∷ bob ∷ []) (1 ∷ 0 ∷ []) v
handles_of-Shows_example =
    handles_of-Shows true (alice ∷ bob ∷ []) (1 ∷ 0 ∷ []) [] two_free refl refl
      (lookup-empty (pos 5), (refl, tt), (lookup-empty (pos 6), tt, tt))
      (omega arith, (refl, tt), (omega arith, tt, tt))

-- A pattern with @ is for the tag, any other one for the name, and an empty one for neither.
searches :
    (parse_search_string "@al" new_find ≡ (record new_find { tag = some "^al" }, true))
    × (parse_search_string "al" new_find ≡ (record new_find { name = some "^al" }, true))
    × (parse_search_string "" new_find ≡ (new_find, false))
unfolding parse_search_string
searches = (refl, refl, refl)
