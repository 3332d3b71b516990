-- ===== src/Media/DataPipe/Safety.antt =====
-- What holds of a DataPipe (lib/media/datapipe.h) in every state that its threads can reach.
use chat_up.Base.{
  ℕ, suc, ◌+◌, ◌<◌, ◌≡◌, refl, Option, none, some, List, [], ◌∷◌, ◌∙◌, length, length-set,
  length-replicate, get_elem?, arith,
}
use chat_up.Media.DataPipe.{
  SubPipe, DataPipe, held, take_free, get_free, on_data_changed, remove_listener, drain,
}
use chat_up.Media.DataPipe.System.{
  Phase, idle, writing, reading, System, boot, Step, permit, pick, written, called, loop_end, read,
  listen, unlisten, Reach, here, next,
}
use chat_up.Media.DataPipe.Slots.{
  Taken, IsSafe, idle_count, boot-IsSafe, take_free-Taken, Slots-get, acquire_lem, get_free_lem,
  publish-Slots, unmap_writing_lem, unmap_reading_lem, settle-Slots,
}

module _ {T C : Type 0} where
  -- One step from a safe state leads to a safe state.
  pub Step-IsSafe : {s t : System T C} → Step s t → IsSafe s → IsSafe t
  unfolding on_data_changed remove_listener drain
  Step-IsSafe {s} (permit {q} e) v =
      let (same, less) = acquire_lem s.pipe q e in
      record { slots = rw same v.slots; permits = omega (arith, v.permits) }
  Step-IsSafe {s} (pick {n} {i} {t} {q} e f) v =
      let (found, same) = get_free_lem s.pipe q t i f in
      let taken : Taken s.phases (some (t, i, q.subpipes)) =
        rw found at (take_free-Taken s.pipe.subpipes s.phases v.slots) in
      record { slots = taken.1; permits = omega (arith, v.permits, taken.2) }
  Step-IsSafe {s} (written i b e f) v =
      let (x, got, k) = Slots-get s.pipe.subpipes s.phases i writing v.slots e in
      let r = publish-Slots (drain s.pipe) s.phases i b x v.slots e k in
      rw (unmap_writing_lem s.pipe i b x got)
        (record { slots = r.0; permits = omega (arith, v.permits, r.1) })
  Step-IsSafe {s} (read i n e f) v =
      let (x, got, k) = Slots-get s.pipe.subpipes s.phases i (reading n) v.slots e in
      let r = settle-Slots s.pipe s.phases i n x v.slots e k in
      rw (unmap_reading_lem s.pipe i x got)
        (record { slots = r.0; permits = omega (arith, v.permits, r.1) })
  Step-IsSafe {s} (called e f) v = record { slots = v.slots; permits = v.permits }
  Step-IsSafe {s} (loop_end e f) v = record { slots = v.slots; permits = v.permits }
  Step-IsSafe {s} (listen c) v = record { slots = v.slots; permits = v.permits }
  Step-IsSafe {s} (unlisten i) v = record { slots = v.slots; permits = v.permits }

  Step-length : {s t : System T C} → Step s t → length t.phases ≡ length s.phases
  Step-length (permit e) = refl
  Step-length {s} (pick {i} e f) = length-set s.phases i writing
  Step-length {s} (written i b e f) = length-set s.phases i _
  Step-length {s} (read i n e f) = length-set s.phases i _
  Step-length (called e f) = refl
  Step-length (loop_end e f) = refl
  Step-length (listen c) = refl
  Step-length (unlisten i) = refl

  Reach-length : {s t : System T C} → Reach s t → length t.phases ≡ length s.phases
  Reach-length here = refl
  Reach-length (next r st) = Step-length st ∙ Reach-length r

  pub Reach-IsSafe : {s t : System T C} → IsSafe s → Reach s t → IsSafe t
  Reach-IsSafe v here = v
  Reach-IsSafe v (next r st) = Step-IsSafe st (Reach-IsSafe v r)

abbrev pub busy_count : List Phase → ℕ
busy_count [] = 0
busy_count (idle ∷ ps) = busy_count ps
busy_count (p ∷ ps) = suc (busy_count ps)

idle-busy : (ps : List Phase) → idle_count ps + busy_count ps ≡ length ps
idle-busy [] = refl
idle-busy (idle ∷ ps) = omega (arith, idle-busy ps)
idle-busy (writing ∷ ps) = omega (arith, idle-busy ps)
idle-busy (reading n ∷ ps) = omega (arith, idle-busy ps)

module _ {T C : Type 0} (objects : List T) (k : ℕ) {t : System T C}
    (r : Reach (boot objects k) t) where
  safe : IsSafe t
  safe = Reach-IsSafe (boot-IsSafe objects k) r

  -- In every state that the threads can reach, where one thread writes at a time, each writer unmaps its
  -- buffer once and each listener that is called unmaps its reading once: a writer that has its permit
  -- finds a buffer, and the buffer is one that no writer and no reader has. The `std::logic_error` of `getFree` is never
  -- thrown, and no buffer is handed out twice.
  pub Reach-get_free :
      0 < t.pending
      → (x : T) × (i : ℕ) × (q : DataPipe T C) × (get_free t.pipe ≡ held x i q)
        × (get_elem? t.phases i ≡ some idle)
  unfolding get_free
  Reach-get_free h =
      found (take_free t.pipe.subpipes) refl (take_free-Taken t.pipe.subpipes t.phases safe.slots)
    where
      found :
          (o : Option (T × ℕ × List (SubPipe T)))
          → take_free t.pipe.subpipes ≡ o
          → Taken t.phases o
          → (x : T) × (i : ℕ) × (q : DataPipe T C) × (get_free t.pipe ≡ held x i q)
            × (get_elem? t.phases i ≡ some idle)
      found none e k = absurd (omega (arith, safe.permits))
      found (some (x, i, rs)) e k = (x, i, record t.pipe { subpipes = rs }, rw (e, get_free), k.0)

  -- In every state that the threads can reach, where one thread writes at a time, each writer unmaps its
  -- buffer once and each listener that is called unmaps its reading once: the permits of the semaphore,
  -- the writers between their permit and their buffer, and the buffers in use add up to the size of the pipe: no permit
  -- is lost and none is released twice, so the semaphore never passes its maximum.
  pub Reach-permits : t.pipe.sem + t.pending + busy_count t.phases ≡ length objects
  unfolding boot
  Reach-permits = omega (
    arith,
    safe.permits,
    idle-busy t.phases,
    Reach-length r,
    length-replicate (length objects) idle,
  )
