-- ===== src/Network/UserController/Search.antt =====
-- lib/network/controllers/usercontroller.cpp: the search for users, and users who are added to a room.
use Prim.Native.Char.{code}
use Prim.Native.String
use chat_up.Base.{
  ℕ, Bool, true, false, Option, none, some, List, [], ◌∷◌, ◌++◌, String, ℤ, int_eq, nat_beq,
  if◌then◌else◌,
}
use chat_up.Base.Map
use chat_up.Core.User.{UserData}
use chat_up.Network.Json.{Json}
use chat_up.Network.Api.Requests.{Request, Find, new_find, find_users}
use chat_up.Network.UserController.{UserController, Got, get, handles_of}

-- parseSearchString(pattern, req)
unfoldable pub parse_search_string : String → Find → Find × Bool
parse_search_string String.[] req = (req, false)
parse_search_string (String.◌∷◌ c s) req =
    if nat_beq (code c) b'@'
    then (record req { tag = some (String.◌++◌ "^" s) }, true)
    else (record req { name = some (String.◌++◌ "^" (String.◌∷◌ c s)) }, true)

-- The call of find(pattern, limit); an empty pattern is sent as well.
pub find : (json : Json) → String → ℤ → Request json.J
unfolding parse_search_string
find json pattern limit =
    find_users json
      (record (parse_search_string pattern new_find).0 { limit = some limit; use_regexp = true })

-- The continuation of `find`
pub found : List UserData → UserController → Option (List ℕ × UserController)
found users c = handles_of false users c

-- The handler of addUserToRoom, with the future that the model of the room then waits for, if any.
pub on_added : ℤ → ℤ → UserController → UserController × Option Got
on_added room user c = elim (Map.lookup room c.users_in_rooms) [
  | none ↦ (c, none)
  | some model ↦ elim (Map.lookup user c.user_handlers) [
    | some h ↦
        (record c { users_in_rooms = Map.insert room (model ++ h ∷ []) c.users_in_rooms }, none)
    | none ↦ let (v, answer) = get user c in (v, some answer)
  ]
]
