-- ===== src/Network/UserController/Lookup.antt =====
-- How many calls the server gets for a user, and what the handle then shows
-- (lib/network/controllers/usercontroller.cpp).
use chat_up.Base.{
  get_elem?-set, Bool, ℕ, ◌≡◌, refl, ap, ◌∙◌, true, Option, none, some, List, ◌∷◌, String, ℤ,
  int_eq, int_beq_iff, string_eq, get_elem?, set, arith,
}
use text.Mathlib.TextEquality.{eq_iff}
use chat_up.Base.Map
use chat_up.Base.Map.{Map, lookup-insert, lookup-erase, lookup-emplace, contains_lem}
use chat_up.Core.User.{
  UserData, Status, offline, online, set_id, set_tag, set_name, set_status, same_status,
  extract_from_data,
}
use chat_up.Network.UserController.{
  UserController, UserUpdate, ready, waiting, asked, get, got, fill, get_free_handle,
  take_free_handle, on_update, update_data, update_name, update_tag, update_status,
}

named_lem : (s : String) (d : UserData) → (set_name s d).0 ≡ record d { name = s }
unfolding set_name
named_lem s d = ground (arith, eq_iff d.name s)

tagged_lem : (s : String) (d : UserData) → (set_tag s d).0 ≡ record d { tag = s }
unfolding set_tag
tagged_lem s d = ground (arith, eq_iff d.tag s)

numbered_lem : (i : ℤ) (d : UserData) → (set_id i d).0 ≡ record d { id = i }
unfolding set_id
numbered_lem i d = ground (arith, int_beq_iff d.id i)

same_status_eq : (s t : Status) → same_status s t ≡ true → s ≡ t
same_status_eq offline offline e = refl
same_status_eq online online e = refl
same_status_eq offline online e = cc
same_status_eq online offline e = cc

shown_lem : (s : Status) (d : UserData) → (set_status s d).0 ≡ record d { status = s }
unfolding set_status
shown_lem s d = ground (arith, same_status_eq d.status s)

-- A handle that is filled with the data of a user shows exactly that data, whatever it showed before.
pub extract_from_data_lem : (d old : UserData) → (extract_from_data d old).0 ≡ d
unfolding extract_from_data
extract_from_data_lem d old = rw (
  named_lem d.name old,
  tagged_lem d.tag (record old { name = d.name }),
  numbered_lem d.id (record old { name = d.name; tag = d.tag }),
  shown_lem d.status (record old { name = d.name; tag = d.tag; id = d.id }),
)

-- For a user who has no handle and for whom no call waits, `get` asks the server and its future
-- waits; a second `get` before the answer waits for the same future and changes nothing.
pub get-get :
    (c : UserController) (user : ℤ)
    → Map.lookup user c.user_handlers ≡ none
    → Map.lookup user c.pending_requests ≡ none
    → let (d, answer) = get user c in
      (answer ≡ asked c.next_future) × (get user d ≡ (d, waiting c.next_future))
unfolding get
get-get c user h p =
    ground
      (arith, h, p, lookup-insert user user c.next_future c.pending_requests, int_beq_iff user user)

pub free_top :
    (locked : Bool) (c : UserController) (h : ℕ) (hs : List ℕ)
    → c.free_handle_pool ≡ h ∷ hs
    → get_free_handle locked c ≡ some (h, record c { free_handle_pool = hs })
unfolding get_free_handle take_free_handle
free_top locked c h hs pool = simp (pool, get_free_handle)

pub filled_lem :
    (c : UserController) (h : ℕ) (d old : UserData)
    → get_elem? c.handles h ≡ some old
    → fill h d c ≡ record c { handles = set c.handles h d }
unfolding fill
filled_lem c h d old e =
    rw (e, fill)
      (ap (λ q. let v : UserController = record c { handles = set c.handles h q } in v)
        (extract_from_data_lem d old))

-- The state after the answer for a user.
abbrev pub answered : ℤ → UserData → ℕ → List ℕ → UserController → UserController
answered user d h hs c = record c {
  handles = set c.handles h d;
  free_handle_pool = hs;
  user_handlers = Map.emplace user h c.user_handlers;
  pending_requests = Map.erase user c.pending_requests;
}

got_lem :
    (c : UserController) (user : ℤ) (d old : UserData) (h : ℕ) (hs : List ℕ)
    → c.free_handle_pool ≡ h ∷ hs
    → get_elem? c.handles h ≡ some old
    → got user d c ≡ some (h, answered user d h hs c)
unfolding got
got_lem c user d old h hs pool e =
    rw (free_top true c h hs pool, got)
      (rw (filled_lem (record c { free_handle_pool = hs }) h d old e))

pub get_known :
    (c : UserController) (user : ℤ) (h : ℕ)
    → Map.lookup user c.user_handlers ≡ some h
    → get user c ≡ (c, ready h)
unfolding get
get_known c user h e = rw (e, get)

-- When the server answers for a user who has no handle, and the pool is not empty, the user has the
-- top handle of the pool, which shows the data of the answer; `get` returns that handle then and
-- changes nothing, and the request is not pending any more.
pub get-got :
    (c : UserController) (user : ℤ) (d old : UserData) (h : ℕ) (hs : List ℕ)
    → Map.lookup user c.user_handlers ≡ none
    → c.free_handle_pool ≡ h ∷ hs
    → get_elem? c.handles h ≡ some old
    → (v : UserController) × (got user d c ≡ some (h, v))
      × (get user v ≡ (v, ready h))
      × (get_elem? v.handles h ≡ some d)
      × (Map.lookup user v.pending_requests ≡ none)
get-got c user d old h hs n pool e =
    let v = answered user d h hs c in
    let kept : Map.lookup user v.user_handlers ≡ some h = ground (
      arith,
      n,
      lookup-emplace user user h c.user_handlers,
      contains_lem user c.user_handlers,
      int_beq_iff user user,
    ) in
    let done : Map.lookup user v.pending_requests ≡ none =
      ground (arith, lookup-erase user user c.pending_requests, int_beq_iff user user) in
    (
      v,
      got_lem c user d old h hs pool e,
      get_known v user h kept,
      get_elem?-set c.handles h old d e,
      done,
    )

updated :
    (c : UserController) (upd : UserUpdate) (h : ℕ) (d : UserData)
    → Map.lookup upd.id c.user_handlers ≡ some h
    → get_elem? c.handles h ≡ some d
    → on_update upd c ≡ elim (update_data upd d) [
      | none ↦ none
      | some e ↦ some (record c { handles = set c.handles h e })
    ]
unfolding on_update
updated c upd h d k e = rw (k, on_update) (rw e)

abbrev pub tag_update : ℤ → Option String → String → UserUpdate
tag_update i name t = record { id = i; name = name; tag = some t; status = none }

-- An update with a tag and no status, for a user with a handle, gives the handle the name of the
-- update as its name and as its tag, whatever the tag of the update is; without a name it is
-- undefined behaviour.
pub on_update-tag :
    (c : UserController) (i : ℤ) (name : Option String) (t : String) (h : ℕ) (d : UserData)
    → Map.lookup i c.user_handlers ≡ some h
    → get_elem? c.handles h ≡ some d
    → on_update (tag_update i name t) c ≡ elim name [
      | none ↦ none
      | some s ↦ some (record c { handles = set c.handles h (record d { name = s; tag = s }) })
    ]
unfolding update_data update_name update_tag update_status
on_update-tag c i none t h d k e = updated c (tag_update i none t) h d k e
on_update-tag c i (some s) t h d k e =
    updated c (tag_update i (some s) t) h d k e
    ∙ ap (λ q. let v : UserController = record c { handles = set c.handles h q } in some v)
        (tagged_lem s (set_name s d).0
          ∙ ap (λ q. let r : UserData = record q { tag = s } in r) (named_lem s d))
