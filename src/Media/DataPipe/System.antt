-- ===== src/Media/DataPipe/System.antt =====
-- The threads around a DataPipe (lib/media/datapipe.h) as a step relation, where every user of the pipe
-- does its part: a writer takes a permit, then a buffer, and unmaps it once; a listener that is called
-- unmaps its reading once, not before. `unmapWriting` is two parts, one under the mutex and its loop over
-- the listeners behind it, between whose calls other steps come. One thread writes to the pipe at a time:
-- no `unmapWriting` begins while another is in its loop.
use chat_up.Base.{
  ℕ, zero, suc, ◌≡◌, ◌≤◌, ◌-◌, Bool, Option, none, some, nat_beq, if◌then◌else◌, List, [], ◌∷◌,
  length, get_elem?, set, replicate,
}
use chat_up.Media.DataPipe.{
  DataPipe, held, Call, init, get_free, acquire, on_data_changed, remove_listener, unmap_writing,
  unmap_reading,
}

-- Who has a buffer: nobody, a writer, or `n + 1` listeners that have still to unmap it.
pub data Phase : Type 0 where
  idle writing : Phase
  reading : ℕ → Phase

pub record System (T C : Type 0) : Type 0 where
  pub pipe : DataPipe T C
  -- writers with a permit that have not taken their buffer yet
  pub pending : ℕ
  pub phases : List Phase
  -- the static counter of listener indices
  pub free_index : ℕ
  -- the buffer that a writer hands to the listeners, and how many it has called
  pub calling : Option (ℕ × ℕ)

abbrev pub after_write : {T C : Type 0} → List (Call T C) → Phase
after_write [] = idle
after_write (c ∷ cs) = reading (length cs)

abbrev pub loop_of : {T C : Type 0} → ℕ → List (Call T C) → Option (ℕ × ℕ)
loop_of i [] = none
loop_of i (c ∷ cs) = some (i, 0)

abbrev pub after_read : ℕ → Phase
after_read zero = idle
after_read (suc n) = reading n

module _ {T C : Type 0} where
  unfoldable pub boot : List T → ℕ → System T C
  boot objects free_index = record {
    pipe = init objects;
    pending = 0;
    phases = replicate (length objects) idle;
    free_index = free_index;
    calling = none;
  }

  -- The listeners that the loop has still to call with a buffer.
  abbrev pub uncalled : System T C → ℕ → ℕ
  uncalled s i = elim s.calling [
    | none ↦ 0
    | some (j, k) ↦ if nat_beq i j then length s.pipe.listeners - k else 0
  ]

  pub data Step (s : System T C) : System T C → Type 0 where
    permit :
        {q : DataPipe T C}
        → acquire s.pipe ≡ some q
        → Step s (record s { pipe = q; pending = suc s.pending })
    pick :
        {n i : ℕ} {t : T} {q : DataPipe T C}
        → s.pending ≡ suc n
        → get_free s.pipe ≡ held t i q
        → Step s (record s { pipe = q; pending = n; phases = set s.phases i writing })
    written :
        (i : ℕ) (notify_readers : Bool)
        → get_elem? s.phases i ≡ some writing
        → s.calling ≡ none
        → Step s (record s {
          pipe = (unmap_writing i notify_readers s.pipe).0;
          phases = set s.phases i (after_write (unmap_writing i notify_readers s.pipe).1);
          calling = loop_of i (unmap_writing i notify_readers s.pipe).1;
        })
    called :
        {i k : ℕ} {l : ℕ × C}
        → s.calling ≡ some (i, k)
        → get_elem? s.pipe.listeners k ≡ some l
        → Step s (record s { calling = some (i, suc k) })
    loop_end :
        {i k : ℕ}
        → s.calling ≡ some (i, k)
        → get_elem? s.pipe.listeners k ≡ none
        → Step s (record s { calling = none })
    read :
        (i n : ℕ)
        → get_elem? s.phases i ≡ some (reading n)
        → uncalled s i ≤ n
        → Step s
            (record s { pipe = unmap_reading i s.pipe; phases = set s.phases i (after_read n) })
    listen :
        (c : C)
        → Step s (record s {
          pipe = (on_data_changed c s.free_index s.pipe).0;
          free_index = (on_data_changed c s.free_index s.pipe).1;
        })
    unlisten : (i : ℕ) → Step s (record s { pipe = remove_listener i s.pipe })

  pub data Reach (s : System T C) : System T C → Type 0 where
    here : Reach s s
    next : {t u : System T C} → Reach s t → Step t u → Reach s u
