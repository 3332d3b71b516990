-- ===== src/Media/DataPipe/Quiet.antt =====
-- A DataPipe (lib/media/datapipe.h) that nobody listens to.
use chat_up.Base.{
  ℕ, suc, ◌+◌, ◌≡◌, refl, sym, ap, Bool, true, false, Option, none, some, List, [], ◌∷◌, get_elem?,
  set, if◌then◌else◌,
}
use chat_up.Media.DataPipe.{
  SubPipe, DataPipe, held, take_free, unmap_writing, publish, drain, drain_added, drain_removed,
  try_hold_for_writing, acquire, get_free,
}

-- Nobody listens, and nobody has subscribed or unsubscribed since the last write.
abbrev pub quiet : {T C : Type 0} → ℕ → List (SubPipe T) → DataPipe T C
quiet n ss = record {
  listeners = [];
  sem = n;
  subpipes = ss;
  remove_listener_queue = [];
  add_listener_queue = [];
}

module _ {T : Type 0} where
  -- A buffer that was taken from the list: to free it again restores the list.
  abbrev Undone : List (SubPipe T) → Option (T × ℕ × List (SubPipe T)) → Type 0
  Undone ss none = Unit
  Undone ss (some (t, i, rs)) =
      (s : SubPipe T) × (get_elem? rs i ≡ some s) × (set rs i (record s { is_free = true }) ≡ ss)

  Undone-next :
      (x : SubPipe T) (xs : List (SubPipe T)) (o : Option (T × ℕ × List (SubPipe T)))
      → Undone xs o
      → Undone (x ∷ xs) (elim o [ none ↦ none | some (t, i, rs) ↦ some (t, suc i, x ∷ rs) ])
  Undone-next x xs none h = tt
  Undone-next x xs (some (t, i, rs)) (s, got, back) = (s, got, ap (λ ys. x ∷ ys) back)

  take_free-Undone-cons :
      (x : SubPipe T) (xs : List (SubPipe T)) (b : Bool)
      → x.is_free ≡ b
      → Undone xs (take_free xs)
      → Undone (x ∷ xs) (
          if b
          then some (x.ptr, 0, record x { is_free = false } ∷ xs)
          else elim (take_free xs) [ none ↦ none | some (t, i, rs) ↦ some (t, suc i, x ∷ rs) ])
  take_free-Undone-cons x xs true f h =
      (record x { is_free = false }, refl, ap (λ b. record x { is_free = b } ∷ xs) (sym f))
  take_free-Undone-cons x xs false f h = Undone-next x xs (take_free xs) h

  take_free-Undone : (ss : List (SubPipe T)) → Undone ss (take_free ss)
  unfolding take_free
  take_free-Undone [] = tt
  take_free-Undone (x ∷ xs) = take_free-Undone-cons x xs x.is_free refl (take_free-Undone xs)

  pub take_free-undo :
      (ss rs : List (SubPipe T)) (t : T) (i : ℕ)
      → take_free ss ≡ some (t, i, rs)
      → (s : SubPipe T) × (get_elem? rs i ≡ some s) × (set rs i (record s { is_free = true }) ≡ ss)
  take_free-undo ss rs t i e = rw e at (take_free-Undone ss)

module _ {T C : Type 0} where
  -- A write frees the buffer and releases the semaphore, whoever has it.
  pub unmap_writing-quiet :
      (i n : ℕ) (b : Bool) (ss : List (SubPipe T)) (s : SubPipe T)
      → get_elem? ss i ≡ some s
      → unmap_writing {C = C} i b (quiet n ss)
        ≡ (quiet (n + 1) (set ss i (record s { is_free = true })), [])
  unfolding unmap_writing drain drain_added drain_removed publish
  unmap_writing-quiet i n true ss s e = rw (unmap_writing, e) refl
  unmap_writing-quiet i n false ss s e = rw (unmap_writing, e) refl

  pub try_hold_for_writing-quiet :
      (i n : ℕ) (ss rs : List (SubPipe T)) (t : T)
      → take_free ss ≡ some (t, i, rs)
      → try_hold_for_writing {C = C} (quiet (suc n) ss) ≡ held t i (quiet n rs)
  unfolding try_hold_for_writing acquire get_free
  try_hold_for_writing-quiet i n ss rs t e = rw (try_hold_for_writing, get_free, e) refl
