-- ===== src/Media/DataPipe/Slots.antt =====
-- The buffers of a DataPipe (lib/media/datapipe.h) beside the phases that the threads give them.
use chat_up.Base.{
  ℕ, zero, suc, ◌+◌, ◌≡◌, refl, sym, ap, Bool, Bool-cases, nat_beq, not, ◌||◌, inl, inr, true,
  false, Option, none, some, List, [], ◌∷◌, length, get_elem?, set, replicate, arith,
}
use chat_up.Media.DataPipe.{
  SubPipe, DataPipe, held, take_free, fresh, init, get_free, acquire, drain, publish, settle, calls,
  unmap_writing, unmap_reading, pred_word,
}
use chat_up.Media.DataPipe.System.{
  Phase, idle, writing, reading, System, after_write, after_read, boot,
}

module _ {T : Type 0} where
  abbrev pub Slot : SubPipe T → Phase → Type 0
  Slot s idle = (s.is_free ≡ true) × (s.readings ≡ 0)
  Slot s writing = (s.is_free ≡ false) × (s.readings ≡ 0)
  Slot s (reading n) = (s.is_free ≡ false) × (s.readings ≡ suc n)

  abbrev pub Slots : List (SubPipe T) → List Phase → Type 0
  Slots [] [] = Unit
  Slots [] (p ∷ ps) = ⊥
  Slots (s ∷ ss) [] = ⊥
  Slots (s ∷ ss) (p ∷ ps) = Slot s p × Slots ss ps

nat_beq-suc : (n : ℕ) → nat_beq (suc n) 0 ≡ false
nat_beq-suc n = ground arith

abbrev pub idle_one : Phase → ℕ
idle_one idle = 1
idle_one _ = 0

abbrev pub idle_count : List Phase → ℕ
idle_count [] = 0
idle_count (p ∷ ps) = idle_one p + idle_count ps

module _ {T : Type 0} where
  -- What the search of `getFree` gives, beside the phases: the buffer was idle, and is a writer's.
  abbrev pub Taken : List Phase → Option (T × ℕ × List (SubPipe T)) → Type 0
  Taken ps none = idle_count ps ≡ 0
  Taken ps (some (t, i, rs)) =
      (get_elem? ps i ≡ some idle)
      × Slots rs (set ps i writing)
      × (idle_count ps ≡ suc (idle_count (set ps i writing)))

  Taken-shift :
      (s : SubPipe T) (p : Phase) (ps : List Phase) (r : Option (T × ℕ × List (SubPipe T)))
      → idle_one p ≡ 0
      → Slot s p
      → Taken ps r
      → Taken (p ∷ ps) (elim r [ none ↦ none | some (t, i, rs) ↦ some (t, suc i, s ∷ rs) ])
  Taken-shift s p ps none z h k = omega arith
  Taken-shift s p ps (some (t, i, rs)) z h k = (k.0, (h, k.1), omega arith)

  pub take_free-Taken :
      (ss : List (SubPipe T)) (ps : List Phase) → Slots ss ps → Taken ps (take_free ss)
  unfolding take_free
  take_free-Taken [] [] h = refl
  take_free-Taken [] (p ∷ ps) h = elim h [ ]
  take_free-Taken (s ∷ ss) [] h = elim h [ ]
  take_free-Taken (s ∷ ss) (idle ∷ ps) h = rw (h.0.0) (refl, ((refl, h.0.1), h.1), omega arith)
  take_free-Taken (s ∷ ss) (writing ∷ ps) h =
      rw (h.0.0) (Taken-shift s writing ps (take_free ss) refl h.0 (take_free-Taken ss ps h.1))
  take_free-Taken (s ∷ ss) (reading n ∷ ps) h =
      rw (h.0.0) (Taken-shift s (reading n) ps (take_free ss) refl h.0 (take_free-Taken ss ps h.1))

  pub Slots-get :
      (ss : List (SubPipe T)) (ps : List Phase) (i : ℕ) (p : Phase)
      → Slots ss ps
      → get_elem? ps i ≡ some p
      → (s : SubPipe T) × (get_elem? ss i ≡ some s) × Slot s p
  Slots-get [] [] i p h e = cc
  Slots-get [] (q ∷ ps) i p h e = elim h [ ]
  Slots-get (s ∷ ss) [] i p h e = elim h [ ]
  Slots-get (s ∷ ss) (q ∷ ps) zero p h e = (s, refl, ground arith)
  Slots-get (s ∷ ss) (q ∷ ps) (suc i) p h e = Slots-get ss ps i p h.1 e

  Slots-set :
      (ss : List (SubPipe T)) (ps : List Phase) (i : ℕ) (s : SubPipe T) (p : Phase)
      → Slots ss ps
      → Slot s p
      → Slots (set ss i s) (set ps i p)
  Slots-set [] [] i s p h k = tt
  Slots-set [] (q ∷ ps) i s p h k = elim h [ ]
  Slots-set (t ∷ ss) [] i s p h k = elim h [ ]
  Slots-set (t ∷ ss) (q ∷ ps) zero s p h k = (k, h.1)
  Slots-set (t ∷ ss) (q ∷ ps) (suc i) s p h k = (h.0, Slots-set ss ps i s p h.1 k)

idle_count-set :
    (ps : List Phase) (i : ℕ) (p q : Phase)
    → get_elem? ps i ≡ some p
    → idle_count (set ps i q) + idle_one p ≡ idle_count ps + idle_one q
idle_count-set [] i p q e = cc
idle_count-set (r ∷ ps) zero p q e = ground arith
idle_count-set (r ∷ ps) (suc i) p q e = omega (arith, idle_count-set ps i p q e)

idle_count-replicate : (n : ℕ) → idle_count (replicate n idle) ≡ n
idle_count-replicate zero = refl
idle_count-replicate (suc n) = omega (arith, idle_count-replicate n)

module _ {T : Type 0} where
  fresh-Slots : (objects : List T) → Slots (fresh objects) (replicate (length objects) idle)
  unfolding fresh
  fresh-Slots [] = tt
  fresh-Slots (t ∷ ts) = ((refl, refl), fresh-Slots ts)

module _ {T C : Type 0} where
  -- Permits and buffers agree: a free buffer for every permit, taken from the semaphore or not.
  pub record IsSafe (s : System T C) : Type 0 where
    pub slots : Slots s.pipe.subpipes s.phases
    pub permits : s.pipe.sem + s.pending ≡ idle_count s.phases

  pub boot-IsSafe : (objects : List T) (k : ℕ) → IsSafe (boot objects k)
  unfolding boot init
  boot-IsSafe objects k = record {
    slots = fresh-Slots objects;
    permits = omega (arith, idle_count-replicate (length objects));
  }

  pub acquire_lem :
      (p q : DataPipe T C) → acquire p ≡ some q → (q.subpipes ≡ p.subpipes) × (p.sem ≡ suc q.sem)
  unfolding acquire
  acquire_lem p q e = ground arith

  pub get_free_lem :
      (p q : DataPipe T C) (t : T) (i : ℕ)
      → get_free p ≡ held t i q
      → (take_free p.subpipes ≡ some (t, i, q.subpipes)) × (q.sem ≡ p.sem)
  unfolding get_free
  get_free_lem p q t i e = ground arith

  pub calls-length : (t : T) (i : ℕ) (ls : List (ℕ × C)) → length (calls t i ls) ≡ length ls
  unfolding calls
  calls-length t i [] = refl
  calls-length t i (l ∷ ls) = ap suc (calls-length t i ls)

  calls-Slot :
      (s : SubPipe T) (t : T) (i : ℕ) (ls : List (ℕ × C))
      → s.is_free ≡ false
      → nat_beq (length ls) 0 ≡ false
      → Slot (record s { readings = length ls }) (after_write (calls t i ls))
  unfolding calls
  calls-Slot s t i [] h e = cc
  calls-Slot s t i (l ∷ ls) h e = (h, ap suc (sym (calls-length t i ls)))

  calls-busy :
      (t : T) (i : ℕ) (ls : List (ℕ × C))
      → nat_beq (length ls) 0 ≡ false
      → idle_one (after_write (calls t i ls)) ≡ 0
  unfolding calls
  calls-busy t i [] e = cc
  calls-busy t i (l ∷ ls) e = refl

  -- The two ways out of `unmapWriting`: the buffer is free at once, or counted for its readers.
  pub publish-Slots :
      (p : DataPipe T C) (ps : List Phase) (i : ℕ) (b : Bool) (s : SubPipe T)
      → Slots p.subpipes ps
      → get_elem? ps i ≡ some writing
      → Slot s writing
      → let r = publish i b s p in
        Slots r.0.subpipes (set ps i (after_write r.1))
        × (r.0.sem + idle_count ps ≡ p.sem + idle_count (set ps i (after_write r.1)))
  unfolding publish
  publish-Slots p ps i b s h e k = elim (Bool-cases (not b || nat_beq (length p.listeners) 0)) [
    | inl t ↦ rw t (
      Slots-set p.subpipes ps i _ idle h (refl, k.1),
      omega (arith, idle_count-set ps i writing idle e),
    )
    | inr f ↦
        let busy : nat_beq (length p.listeners) 0 ≡ false = ground arith in
        rw f (
          Slots-set p.subpipes ps i _ _ h (calls-Slot s s.ptr i p.listeners k.0 busy),
          omega (
            arith,
            idle_count-set ps i writing (after_write (calls s.ptr i p.listeners)) e,
            calls-busy s.ptr i p.listeners busy,
          ),
        )
  ]

  pub unmap_writing_lem :
      (p : DataPipe T C) (i : ℕ) (b : Bool) (s : SubPipe T)
      → get_elem? p.subpipes i ≡ some s
      → unmap_writing i b p ≡ publish i b s (drain p)
  unfolding unmap_writing drain
  unmap_writing_lem p i b s e = rw (e, unmap_writing)

  pub unmap_reading_lem :
      (p : DataPipe T C) (i : ℕ) (s : SubPipe T)
      → get_elem? p.subpipes i ≡ some s
      → unmap_reading i p ≡ settle i (record s { readings = pred_word s.readings }) p
  unfolding unmap_reading
  unmap_reading_lem p i s e = rw (e, unmap_reading)

  -- The last reader frees the buffer, and no other does.
  pub settle-Slots :
      (p : DataPipe T C) (ps : List Phase) (i n : ℕ) (s : SubPipe T)
      → Slots p.subpipes ps
      → get_elem? ps i ≡ some (reading n)
      → Slot s (reading n)
      → let q = settle i (record s { readings = pred_word s.readings }) p in
        Slots q.subpipes (set ps i (after_read n))
        × (q.sem + idle_count ps ≡ p.sem + idle_count (set ps i (after_read n)))
  unfolding settle pred_word
  settle-Slots p ps i zero s h e k =
      rw (k.0, k.1)
        (
          Slots-set p.subpipes ps i _ idle h (refl, refl),
          omega (arith, idle_count-set ps i (reading 0) idle e),
        )
  settle-Slots p ps i (suc n) s h e k =
      rw (k.0, k.1, nat_beq-suc n)
        (
          Slots-set p.subpipes ps i _ (reading n) h (refl, refl),
          omega (arith, idle_count-set ps i (reading (suc n)) (reading n) e),
        )
