-- ===== src/Network/UserController/Known.antt =====
-- lib/network/controllers/usercontroller.cpp: the users of an answer have their handles afterwards.
use chat_up.Base.{
  ℕ, zero, suc, ◌-◌, max, ◌≡◌, ◌∙◌, refl, ap, ap₂, false, none, some, Option-cases, inl, inr, List,
  [], ◌∷◌, map, ℤ, int_eq, int_beq_iff, get_elem?, arith,
}
use chat_up.Base.Map
use chat_up.Base.Map.{Map, lookup-insert}
use chat_up.Core.User.{UserData}
use chat_up.Network.UserController.Lookup.{get_known}
use chat_up.Network.UserController.{
  UserController, ready, get, grow_handle_pool, get_free_handle, take_free_handle, fill, handles_of,
}

grow_handle_pool-free :
    (n h : ℕ) (hs : List ℕ) (c : UserController)
    → c.free_handle_pool ≡ h ∷ hs
    → (i : ℕ) × (is : List ℕ) × ((grow_handle_pool n c).free_handle_pool ≡ i ∷ is)
      × ((grow_handle_pool n c).user_handlers ≡ c.user_handlers)
unfolding grow_handle_pool
grow_handle_pool-free zero h hs c e = (h, hs, e, refl)
grow_handle_pool-free (suc n) h hs c e = grow_handle_pool-free n _ _ _ refl

grown-free :
    (n : ℕ) (c : UserController)
    → (i : ℕ) × (is : List ℕ) × ((grow_handle_pool (suc n) c).free_handle_pool ≡ i ∷ is)
      × ((grow_handle_pool (suc n) c).user_handlers ≡ c.user_handlers)
unfolding grow_handle_pool
grown-free n c = grow_handle_pool-free n _ _ _ refl

free-grown :
    (c : UserController) (n i : ℕ) (is : List ℕ)
    → c.free_handle_pool ≡ []
    → max 64 (Map.size c.user_handlers) ≡ n
    → (grow_handle_pool n c).free_handle_pool ≡ i ∷ is
    → get_free_handle false c ≡ some (i, record (grow_handle_pool n c) { free_handle_pool = is })
unfolding get_free_handle take_free_handle
free-grown c n i is e size free = simp (get_free_handle, e, size, free)

-- A handle is always there, where the mutex is free.
get_free_handle-some :
    (c : UserController) (pool : List ℕ)
    → c.free_handle_pool ≡ pool
    → (h : ℕ) × (v : UserController) × (get_free_handle false c ≡ some (h, v))
      × (v.user_handlers ≡ c.user_handlers)
unfolding get_free_handle take_free_handle
get_free_handle-some c (h ∷ hs) e =
    (h, record c { free_handle_pool = hs }, simp (get_free_handle, e), refl)
get_free_handle-some c [] e =
    let n = max 64 (Map.size c.user_handlers) - 1 in
    let (i, is, free, same) = grown-free n c in
    let size : max 64 (Map.size c.user_handlers) ≡ suc n = omega arith in
    (
      i,
      record (grow_handle_pool (suc n) c) { free_handle_pool = is },
      free-grown c (suc n) i is e size free,
      same,
    )

fill-handlers :
    (h : ℕ) (d : UserData) (c : UserController) → (fill h d c).user_handlers ≡ c.user_handlers
unfolding fill
fill-handlers h d c = elim (Option-cases (get_elem? c.handles h)) [
  | inl e ↦ rw (fill, e) refl
  | inr (old, e) ↦ rw (fill, e) refl
]

-- What the map of the handles gave, it still gives.
abbrev pub Keeps : UserController → UserController → Type 0
Keeps c v =
    (i : ℤ) (h : ℕ) → Map.lookup i c.user_handlers ≡ some h → Map.lookup i v.user_handlers ≡ some h

pub kept-Keeps :
    (c : UserController) (id : ℤ) (h : ℕ) (m : Map ℤ ℕ)
    → Map.lookup id c.user_handlers ≡ none
    → m ≡ c.user_handlers
    → Keeps c (record c { user_handlers = Map.insert id h m })
kept-Keeps c id h m n same i k e =
    let e' : Map.lookup i m ≡ some k = rw same e in
    let n' : Map.lookup id m ≡ none = rw same n in
    ground (arith, lookup-insert id i h m, int_beq_iff id i)

handles_of-ready :
    (ds : List UserData) (c : UserController)
    → (hs : List ℕ) × (v : UserController) × (handles_of false ds c ≡ some (hs, v))
      × (map (λ (d : UserData). (get d.id v).1) ds ≡ map (λ (h : ℕ). ready h) hs)
      × Keeps c v
unfolding handles_of
handles_of-ready [] c = ([], c, refl, refl, λ i h e. e)
handles_of-ready (d ∷ ds) c = elim (Option-cases (Map.lookup d.id c.user_handlers)) [
  | inr (h, e) ↦
      let (hs, v, run, all, keeps) = handles_of-ready ds c in
      (
        h ∷ hs,
        v,
        rw (handles_of, e, run) refl,
        ap₂ (λ x xs. x ∷ xs) (ap (λ q. q.1) (get_known v d.id h (keeps d.id h e))) all,
        keeps,
      )
  | inl e ↦
      let (h, u, free, same) = get_free_handle-some c c.free_handle_pool refl in
      let filled = fill h d u in
      let w : UserController = record filled {
        user_handlers = Map.insert d.id h filled.user_handlers;
      } in
      let (hs, v, run, all, keeps) = handles_of-ready ds w in
      let has : Map.lookup d.id w.user_handlers ≡ some h =
        ground (arith, lookup-insert d.id d.id h filled.user_handlers, int_beq_iff d.id d.id) in
      (
        h ∷ hs,
        v,
        rw (handles_of, e, free, run) refl,
        ap₂ (λ x xs. x ∷ xs) (ap (λ q. q.1) (get_known v d.id h (keeps d.id h has))) all,
        λ i k f.
            keeps i k
              (kept-Keeps c d.id h filled.user_handlers e (fill-handlers h d u ∙ same) i k f),
      )
]

-- The loop over the users of an answer ends with a list of handles, also where the pool is empty. After
-- it `get` is ready for each of the users with the handle that the list has at their place, and for a user
-- who had a handle before it is ready with that handle and changes nothing.
pub handles_of-get :
    (ds : List UserData) (c : UserController) (i : ℤ) (k : ℕ)
    → Map.lookup i c.user_handlers ≡ some k
    → (hs : List ℕ) × (v : UserController) × (handles_of false ds c ≡ some (hs, v))
      × (map (λ (d : UserData). (get d.id v).1) ds ≡ map (λ (h : ℕ). ready h) hs)
      × (get i v ≡ (v, ready k))
handles_of-get ds c i k e =
    let (hs, v, run, all, keeps) = handles_of-ready ds c in
    (hs, v, run, all, get_known v i k (keeps i k e))
