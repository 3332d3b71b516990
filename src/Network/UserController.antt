-- ===== src/Network/UserController.antt =====
-- lib/network/controllers/usercontroller.cpp: the handles of the users, their pool, and the calls of
-- `get` that wait. A handle is a number in `handles`, a future one of its own kind; signals are left
-- out. Where the code locks `_handleMutex` while it holds it, it blocks for ever, and the result is
-- `none`.
pub mod Lookup
pub mod Search
pub mod Known
pub mod Shown
mod Tests
use chat_up.Base.{
  ℕ, zero, suc, ◌+◌, max, Bool, true, false, Option, none, some, List, [], ◌∷◌, ◌++◌, String, ℤ,
  int_eq, length, get_elem?, set, if◌then◌else◌,
}
use chat_up.Base.Map
use chat_up.Base.Map.{Map}
use chat_up.Core.User.{
  UserData, Status, offline, new_handle, invalid_id, set_name, set_tag, set_status,
  extract_from_data,
}

pub record UserController : Type 0 where
  pub handles : List UserData
  pub user_handlers : Map ℤ ℕ
  pub pending_requests : Map ℤ ℕ
  pub next_future : ℕ
  pub free_handle_pool : List ℕ
  pub users_in_rooms : Map ℤ (List ℕ)

-- What `get(userID)` returns: a ready future, one that waits already, or that of a new call.
pub data Got : Type 0 where
  ready : ℕ → Got
  waiting asked : ℕ → Got

-- Api::Update::UserUpdate
pub record UserUpdate : Type 0 where
  pub id : ℤ
  pub name : Option String
  pub tag : Option String
  pub status : Option Status

-- growHandlePool(size), where the mutex is free
pub grow_handle_pool : ℕ → UserController → UserController
grow_handle_pool zero c = c
grow_handle_pool (suc n) c = grow_handle_pool n (record c {
  handles = c.handles ++ new_handle ∷ [];
  free_handle_pool = length c.handles ∷ c.free_handle_pool;
})

take_free_handle : List ℕ → UserController → Option (ℕ × UserController)
take_free_handle [] c = none
take_free_handle (h ∷ hs) c = some (h, record c { free_handle_pool = hs })

-- getFreeHandle: with the mutex held, growing an empty pool blocks
pub get_free_handle : Bool → UserController → Option (ℕ × UserController)
unfolding grow_handle_pool take_free_handle
get_free_handle locked c = elim c.free_handle_pool [
  | h ∷ hs ↦ take_free_handle (h ∷ hs) c
  | [] ↦
      let grown = grow_handle_pool (max 64 (Map.size c.user_handlers)) c in
      if locked then none else take_free_handle grown.free_handle_pool grown
]

-- Controller(manager): the empty handle is the first, and the pool has 256 more
unfoldable pub init : UserController
init = grow_handle_pool 256 (record {
  handles = record { status = offline; name = "null"; tag = "null"; id = invalid_id } ∷ [];
  user_handlers = Map.empty;
  pending_requests = Map.empty;
  next_future = 0;
  free_handle_pool = [];
  users_in_rooms = Map.empty;
})

-- handle->extractFromData(data)
pub fill : ℕ → UserData → UserController → UserController
fill h d c = elim (get_elem? c.handles h) [
  | none ↦ c
  | some old ↦ record c { handles = set c.handles h (extract_from_data d old).0 }
]

-- get(userID)
pub get : ℤ → UserController → UserController × Got
get user c = elim (Map.lookup user c.user_handlers) [
  | some h ↦ (c, ready h)
  | none ↦ elim (Map.lookup user c.pending_requests) [
    | some f ↦ (c, waiting f)
    | none ↦
        let f = c.next_future in
        (
          record c { pending_requests = Map.insert user f c.pending_requests; next_future = suc f },
          asked f,
        )
  ]
]

-- The continuation of `get(userID)`.
pub got : ℤ → UserData → UserController → Option (ℕ × UserController)
unfolding get_free_handle fill
got user d c = elim (get_free_handle true c) [
  | none ↦ none
  | some (h, v) ↦
      let filled = fill h d v in
      some (
        h,
        record filled {
          user_handlers = Map.emplace user h filled.user_handlers;
          pending_requests = Map.erase user filled.pending_requests;
        },
      )
]

-- The continuation of `get()`, whose handle is not kept for later.
pub got_current : UserData → UserController → Option (ℕ × UserController)
unfolding get_free_handle fill
got_current d c = elim (get_free_handle true c) [ none ↦ none | some (h, v) ↦ some (h, fill h d v) ]

-- The loop over the users that the server gives, in `getGroupUsers` and in `find`, with whether the thread
-- holds the mutex. `getGroupUsers` attaches its continuation with the mutex held: an answer that is there
-- by then is treated at once under it, and a later one without it.
pub handles_of : Bool → List UserData → UserController → Option (List ℕ × UserController)
unfolding get_free_handle fill
handles_of locked [] c = some ([], c)
handles_of locked (d ∷ ds) c = elim (Map.lookup d.id c.user_handlers) [
  | some h ↦ elim (handles_of locked ds c) [ none ↦ none | some (hs, v) ↦ some (h ∷ hs, v) ]
  | none ↦ elim (get_free_handle locked c) [
    | none ↦ none
    | some (h, v) ↦
        let filled = fill h d v in
        let kept = record filled { user_handlers = Map.insert d.id h filled.user_handlers } in
        elim (handles_of locked ds kept) [ none ↦ none | some (hs, w) ↦ some (h ∷ hs, w) ]
  ]
]

-- The continuation of `getGroupUsers`.
pub group_users : Bool → ℤ → List UserData → UserController → Option (List ℕ × UserController)
unfolding handles_of
group_users locked room ds c = elim (handles_of locked ds c) [
  | none ↦ none
  | some (hs, v) ↦ some (hs, record v { users_in_rooms = Map.insert room hs v.users_in_rooms })
]

update_name : Option String → UserData → UserData
unfolding set_name
update_name none d = d
update_name (some s) d = (set_name s d).0

-- setTag is given the name of the update; without a name that is undefined behaviour
update_tag : Option String → Option String → UserData → Option UserData
unfolding set_tag
update_tag none name d = some d
update_tag (some t) none d = none
update_tag (some t) (some s) d = some (set_tag s d).0

update_status : Option Status → UserData → UserData
unfolding set_status
update_status none d = d
update_status (some s) d = (set_status s d).0

pub update_data : UserUpdate → UserData → Option UserData
unfolding update_name update_tag update_status
update_data upd d = elim (update_tag upd.tag upd.name (update_name upd.name d)) [
  | none ↦ none
  | some e ↦ some (update_status upd.status e)
]

-- The handler of the update of a user.
pub on_update : UserUpdate → UserController → Option UserController
unfolding update_data
on_update upd c = elim (Map.lookup upd.id c.user_handlers) [
  | none ↦ some c
  | some h ↦ elim (get_elem? c.handles h) [
    | none ↦ some c
    | some d ↦ elim (update_data upd d) [
      | none ↦ none
      | some e ↦ some (record c { handles = set c.handles h e })
    ]
  ]
]

pub reset : UserController → UserController
reset c = record c { user_handlers = Map.empty; users_in_rooms = Map.empty }
