-- ===== src/Network/UserController/Shown.antt =====
-- lib/network/controllers/usercontroller.cpp: what the handles of the users of an answer show.
use chat_up.Base.{
  Bool, ℕ, ◌<◌, ◌≡◌, ◌∙◌, refl, sym, ap, subst, false, none, some, List, [], ◌∷◌, ◌++◌, ℤ, int_eq,
  int_beq_iff, ◌==◌, nat_beq, length, length-set, get_elem?, get_elem?-lt, get_elem?-set,
  get_elem?-set_other, set, arith,
}
use chat_up.Base.Map
use chat_up.Base.Map.{Map, lookup-insert}
use chat_up.Core.User.{UserData}
use chat_up.Network.UserController.{UserController, ready, get, handles_of}
use chat_up.Network.UserController.Lookup.{get_known, free_top, filled_lem}
use chat_up.Network.UserController.Known.{Keeps, kept-Keeps}

abbrev Apart : ℤ → List UserData → Type 0
Apart i [] = Unit
Apart i (d ∷ ds) = ((i == d.id) ≡ false) × Apart i ds

-- Users who are different and have no handle.
abbrev pub New : List UserData → UserController → Type 0
New [] c = Unit
New (d ∷ ds) c = (Map.lookup d.id c.user_handlers ≡ none) × Apart d.id ds × New ds c

abbrev pub Missing : ℕ → List ℕ → Type 0
Missing h [] = Unit
Missing h (k ∷ ks) = (nat_beq h k ≡ false) × Missing h ks

-- Different handles below a number.
abbrev pub Places : List ℕ → ℕ → Type 0
Places [] n = Unit
Places (h ∷ hs) n = (h < n) × Missing h hs × Places hs n

-- Each user has the handle at the same place, which shows the data of the user.
abbrev pub Shows : List UserData → List ℕ → UserController → Type 0
Shows [] [] v = Unit
Shows [] (h ∷ hs) v = ¬ Unit
Shows (d ∷ ds) [] v = ¬ Unit
Shows (d ∷ ds) (h ∷ hs) v =
    (get d.id v ≡ (v, ready h)) × (get_elem? v.handles h ≡ some d) × Shows ds hs v

-- The state after one more user of an answer.
abbrev taken : UserData → ℕ → List ℕ → UserController → UserController
taken d h pool c = record c {
  handles = set c.handles h d;
  free_handle_pool = pool;
  user_handlers = Map.insert d.id h c.user_handlers;
}

New-taken :
    (ds : List UserData) (d : UserData) (h : ℕ) (pool : List ℕ) (c : UserController)
    → Apart d.id ds
    → New ds c
    → New ds (taken d h pool c)
New-taken [] d h pool c a n = tt
New-taken (e ∷ ds) d h pool c (apart, a) (none_yet, b, n) = (
  ground (arith, lookup-insert d.id e.id h c.user_handlers, none_yet, apart),
  b,
  New-taken ds d h pool c a n,
)

handles_of-taken :
    (locked : Bool) (ds : List UserData) (d old : UserData) (h : ℕ) (pool : List ℕ)
    (c : UserController)
    → Map.lookup d.id c.user_handlers ≡ none
    → c.free_handle_pool ≡ h ∷ pool
    → get_elem? c.handles h ≡ some old
    → handles_of locked (d ∷ ds) c ≡ elim (handles_of locked ds (taken d h pool c)) [
      | none ↦ none
      | some (hs, v) ↦ some (h ∷ hs, v)
    ]
unfolding handles_of
handles_of-taken locked ds d old h pool c n free e =
    rw
      (
        handles_of,
        n,
        free_top locked c h pool free,
        filled_lem (record c { free_handle_pool = pool }) h d old e,
      )
      refl

-- A run of the loop on users who are new, with a handle of the pool for each.
abbrev Ran : Bool → List UserData → List ℕ → List ℕ → UserController → UserController → Type 0
Ran locked ds hs rest c v =
    (handles_of locked ds c ≡ some (hs, v))
    × (v.free_handle_pool ≡ rest)
    × Shows ds hs v
    × ((j : ℕ) → Missing j hs → get_elem? v.handles j ≡ get_elem? c.handles j)
    × Keeps c v

run-Ran :
    (locked : Bool) (ds : List UserData) (hs rest : List ℕ) (c : UserController)
    → length hs ≡ length ds
    → c.free_handle_pool ≡ hs ++ rest
    → New ds c
    → Places hs (length c.handles)
    → (v : UserController) × Ran locked ds hs rest c v
unfolding handles_of
run-Ran locked [] [] rest c same pool n p = (c, (refl, pool, tt, λ j m. refl, λ i h e. e))
run-Ran locked [] (h ∷ hs) rest c same pool n p = absurd (omega (arith, same))
run-Ran locked (d ∷ ds) [] rest c same pool n p = absurd (omega (arith, same))
run-Ran locked (d ∷ ds) (h ∷ hs) rest c same pool (none_yet, apart, n) (lt, missing, p) =
    let (old, got) = get_elem?-lt c.handles h lt in
    let w = taken d h (hs ++ rest) c in
    let (v, (run, left, shows, frame, keeps)) =
      run-Ran locked ds hs rest w (omega (arith, same)) refl
        (New-taken ds d h (hs ++ rest) c apart n)
        (subst (Places hs) (sym (length-set c.handles h d)) p) in
    let has : Map.lookup d.id w.user_handlers ≡ some h =
      ground (arith, lookup-insert d.id d.id h c.user_handlers, int_beq_iff d.id d.id) in
    (
      v,
      (
        handles_of-taken locked ds d old h (hs ++ rest) c none_yet pool got
            ∙ ap (λ o. elim o [ none ↦ none | some (is, u) ↦ some (h ∷ is, u) ]) run,
        left,
        (
          get_known v d.id h (keeps d.id h has),
          frame h missing ∙ get_elem?-set c.handles h old d got,
          shows,
        ),
        λ j (other, m). frame j m ∙ get_elem?-set_other c.handles j h d other,
        λ i k e. keeps i k (kept-Keeps c d.id h c.user_handlers none_yet refl i k e),
      ),
    )

-- An answer with different users who have no handle yet, where the pool has a handle for each, different
-- ones that are there: whether or not the thread holds the mutex, the loop ends with the handles of the
-- pool, in its order; they are taken out of it,
-- `get` is ready for each user with the handle at the same place and changes nothing, and that handle shows
-- the data of that user.
pub handles_of-Shows :
    (locked : Bool) (ds : List UserData) (hs rest : List ℕ) (c : UserController)
    → length hs ≡ length ds
    → c.free_handle_pool ≡ hs ++ rest
    → New ds c
    → Places hs (length c.handles)
    → (v : UserController) × (handles_of locked ds c ≡ some (hs, v))
      × (v.free_handle_pool ≡ rest)
      × Shows ds hs v
handles_of-Shows locked ds hs rest c same pool n p =
    let (v, (run, left, shows, frame, keeps)) = run-Ran locked ds hs rest c same pool n p in
    (v, run, left, shows)
