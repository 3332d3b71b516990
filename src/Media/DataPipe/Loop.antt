-- ===== src/Media/DataPipe/Loop.antt =====
-- The loop of `unmapWriting` over the listeners (lib/media/datapipe.h), in every state that the threads
-- can reach.
use chat_up.Base.{
  ℕ, zero, suc, ◌+◌, ◌-◌, ◌<◌, ◌≤◌, ◌≡◌, ◌≢◌, ◌∙◌, refl, sym, ap, Bool, false, Bool-cases, ◌⊎◌, not,
  ◌||◌, nat_beq, nat_beq_iff, inl, inr, Option, none, some, List, [], ◌∷◌, length, get_elem?, set,
  get_elem?-set, get_elem?-set_other, arith,
}
use chat_up.Media.DataPipe.{
  SubPipe, DataPipe, Call, held, get_free, acquire, on_data_changed, remove_listener, drain,
  publish, unmap_reading, settle,
}
use chat_up.Media.DataPipe.System.{
  Phase, idle, writing, reading, System, boot, Step, permit, pick, written, called, loop_end, read,
  listen, unlisten, Reach, here, next, uncalled, after_read, after_write, loop_of,
}
use chat_up.Media.DataPipe.Slots.{
  Taken, IsSafe, boot-IsSafe, take_free-Taken, Slots-get, calls-length, get_free_lem,
  unmap_writing_lem,
}
use chat_up.Media.DataPipe.Safety.{Reach-IsSafe}

pair_eq : (i k j m : ℕ) → ◌≡◌ {A = Option (ℕ × ℕ)} (some (i, k)) (some (j, m)) → (i ≡ j) × (k ≡ m)
pair_eq i k j m e = (
  ap (λ (o : Option (ℕ × ℕ)). elim o [ none ↦ i | some (x, y) ↦ x ]) e,
  ap (λ (o : Option (ℕ × ℕ)). elim o [ none ↦ k | some (x, y) ↦ y ]) e,
)

apart :
    (ps : List Phase) (i j n : ℕ) (p : Phase)
    → get_elem? ps i ≡ some p
    → get_elem? ps j ≡ some (reading n)
    → p ≢ reading n
    → nat_beq j i ≡ false
apart ps i j n p at_i at_j ne = elim (Bool-cases (nat_beq j i)) [
  | inr f ↦ f
  | inl t ↦
      absurd (ne (phase_eq (sym at_i ∙ ap (get_elem? ps) (sym ((nat_beq_iff j i).0 t)) ∙ at_j)))
]
  where
    phase_eq : {p q : Phase} → some p ≡ some q → p ≡ q
    phase_eq {p} e = ap (λ (o : Option Phase). elim o [ none ↦ p | some x ↦ x ]) e

-- One of its readers unmaps a buffer of which not all listeners have been called.
after_read-counted :
    (ps : List Phase) (i n k len : ℕ)
    → get_elem? ps i ≡ some (reading n)
    → k < len
    → len ≤ suc n + k
    → len - k ≤ n
    → (m : ℕ) × (get_elem? (set ps i (after_read n)) i ≡ some (reading m)) × (len ≤ suc m + k)
after_read-counted ps i zero k len e lt le f = absurd (omega (arith, lt, f))
after_read-counted ps i (suc n) k len e lt le f =
    (n, get_elem?-set ps i (reading (suc n)) (reading n) e, omega (arith, lt, f))

none-some : {q : ℕ × ℕ} → ¬ (none ≡ some q)
none-some e = cc

reading_eq : {m n : ℕ} → some (reading m) ≡ some (reading n) → m ≡ n
reading_eq {m} e =
    ap (λ (o : Option Phase). elim o [ none ↦ m | some x ↦ elim x [ reading k ↦ k | _ ↦ m ] ]) e

idle-reading : (n : ℕ) → idle ≢ reading n
idle-reading n e = cc

module _ {T C : Type 0} where
  -- The listeners that are still to be called with a buffer are counted among its readers.
  abbrev pub Counts : System T C → Type 0
  Counts s =
      (i k : ℕ)
      → s.calling ≡ some (i, k)
      → k < length s.pipe.listeners
      → (n : ℕ) × (get_elem? s.phases i ≡ some (reading n)) × (length s.pipe.listeners ≤ suc n + k)

  acquire-listeners : (p q : DataPipe T C) → acquire p ≡ some q → q.listeners ≡ p.listeners
  unfolding acquire
  acquire-listeners p q e = ground arith

  get_free-listeners :
      (p q : DataPipe T C) (t : T) (i : ℕ) → get_free p ≡ held t i q → q.listeners ≡ p.listeners
  unfolding get_free
  get_free-listeners p q t i e = ground arith

  unmap_reading-listeners : (i : ℕ) (p : DataPipe T C) → (unmap_reading i p).listeners ≡ p.listeners
  unfolding unmap_reading settle
  unmap_reading-listeners i p = ground arith

  loop_of-counted :
      (ps : List Phase) (i len : ℕ) (cs : List (Call T C))
      → get_elem? ps i ≡ some writing
      → (cs ≡ []) ⊎ (length cs ≡ len)
      → (j k : ℕ) → loop_of i cs ≡ some (j, k)
      → (n : ℕ) × (get_elem? (set ps i (after_write cs)) j ≡ some (reading n)) × (len ≤ suc n + k)
  loop_of-counted ps i len [] e o j k c = absurd (none-some c)
  loop_of-counted ps i len (x ∷ cs) e (inl o) j k c = cc
  loop_of-counted ps i len (x ∷ cs) e (inr o) j k c =
      let (same, at_k) = pair_eq i 0 j k c in
      (
        length cs,
        ap (get_elem? (set ps i (reading (length cs)))) (sym same)
            ∙ get_elem?-set ps i writing (reading (length cs)) e,
        omega (arith, o),
      )

  publish-listeners :
      (i : ℕ) (b : Bool) (s : SubPipe T) (p : DataPipe T C)
      → (publish i b s p).0.listeners ≡ p.listeners
  unfolding publish
  publish-listeners i b s p = ground arith

  publish-calls :
      (i : ℕ) (b : Bool) (s : SubPipe T) (p : DataPipe T C)
      → ((publish i b s p).1 ≡ []) ⊎ (length (publish i b s p).1 ≡ length p.listeners)
  unfolding publish
  publish-calls i b s p = elim (Bool-cases (not b || nat_beq (length p.listeners) 0)) [
    | inl t ↦ inl (rw t refl)
    | inr f ↦ inr (rw f (calls-length s.ptr i p.listeners))
  ]

  uncalled-minus :
      (s : System T C) (i j k : ℕ)
      → s.calling ≡ some (j, k)
      → i ≡ j
      → uncalled s i ≡ length s.pipe.listeners - k
  uncalled-minus s i j k c e = let b = (nat_beq_iff i j).1 e in rw (c, b) refl

  Step-Counts : {s t : System T C} → Step s t → IsSafe s → Counts s → Counts t
  unfolding on_data_changed remove_listener
  Step-Counts {s} (permit {q} e) v h = λ j k c lt.
      let same = acquire-listeners s.pipe q e in
      let (n, at_j, le) = h j k c (omega (arith, ap length same, lt)) in
      (n, at_j, omega (arith, ap length same, le))
  Step-Counts {s} (pick {n} {i} {t} {q} e f) v h = λ j k c lt.
      let same = get_free-listeners s.pipe q t i f in
      let (m, at_j, le) = h j k c (omega (arith, ap length same, lt)) in
      let (found, sem) = get_free_lem s.pipe q t i f in
      let taken : Taken s.phases (some (t, i, q.subpipes)) =
        rw found at (take_free-Taken s.pipe.subpipes s.phases v.slots) in
      (
        m,
        get_elem?-set_other s.phases j i writing
              (apart s.phases i j m idle taken.0 at_j (idle-reading m))
            ∙ at_j,
        omega (arith, ap length same, le),
      )
  Step-Counts {s} (written i b e f) v h =
      let (x, got, k) = Slots-get s.pipe.subpipes s.phases i writing v.slots e in
      let p = drain s.pipe in
      let same = publish-listeners i b x p in
      rw (unmap_writing_lem s.pipe i b x got) (λ j m c lt.
        let (n, at_j, le) =
          loop_of-counted s.phases i (length p.listeners) (publish i b x p).1 e
            (publish-calls i b x p) j m c in
        (n, at_j, omega (arith, ap length same, le)))
  Step-Counts {s} (called {i} {k} {l} e f) v h = λ j m c lt.
      let (same, at_m) = pair_eq i (suc k) j m c in
      let (n, at_i, le) = h i k e (omega (arith, at_m, lt)) in
      (n, ap (get_elem? s.phases) (sym same) ∙ at_i, omega (arith, at_m, le))
  Step-Counts {s} (loop_end e f) v h = λ j k c lt. absurd (none-some c)
  Step-Counts {s} (read i n e f) v h = λ j k c lt.
      let same = unmap_reading-listeners i s.pipe in
      let (m, at_j, le) = h j k c (omega (arith, ap length same, lt)) in
      elim (Bool-cases (nat_beq j i)) [
        | inr g ↦ (
          m,
          get_elem?-set_other s.phases j i (after_read n) g ∙ at_j,
          omega (arith, ap length same, le),
        )
        | inl g ↦
            let j_i = (nat_beq_iff j i).0 g in
            let at_i = ap (get_elem? s.phases) (sym j_i) ∙ at_j in
            let m_n = reading_eq (sym at_i ∙ e) in
            let left = uncalled-minus s i j k c (sym j_i) in
            let (p, at_p, lep) =
              after_read-counted s.phases i n k (length s.pipe.listeners) e
                (omega (arith, ap length same, lt)) (omega (arith, m_n, le))
                (omega (arith, left, f)) in
            (
              p,
              ap (get_elem? (set s.phases i (after_read n))) j_i ∙ at_p,
              omega (arith, ap length same, lep),
            )
      ]
  Step-Counts {s} (listen c) v h = h
  Step-Counts {s} (unlisten i) v h = h

  Reach-Counts : {s t : System T C} → IsSafe s → Counts s → Reach s t → Counts t
  Reach-Counts v h here = h
  Reach-Counts v h (next r st) = Step-Counts st (Reach-IsSafe v r) (Reach-Counts v h r)

  -- In every state that the threads can reach, where one thread writes at a time, each writer unmaps its
  -- buffer once and each listener that is called unmaps its reading once: a listener that the loop of
  -- `unmapWriting` calls next finds the buffer in use, with a count of readings that is not 0 and has
  -- room for it and all listeners behind it.
  pub Reach-called :
      (objects : List T) (f : ℕ) (t : System T C) (i k : ℕ)
      → Reach (boot objects f) t
      → t.calling ≡ some (i, k)
      → k < length t.pipe.listeners
      → (x : SubPipe T) × (get_elem? t.pipe.subpipes i ≡ some x)
        × (x.is_free ≡ false)
        × (length t.pipe.listeners ≤ x.readings + k)
  unfolding boot
  Reach-called objects f t i k r c lt =
      let v = Reach-IsSafe (boot-IsSafe objects f) r in
      let (n, at_i, le) =
        Reach-Counts (boot-IsSafe objects f) (λ j m c. absurd (none-some c)) r i k c lt in
      let (x, got, slot) = Slots-get t.pipe.subpipes t.phases i (reading n) v.slots at_i in
      (x, got, slot.0, omega (arith, slot.1, le))
