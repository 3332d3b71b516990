-- ===== src/Media/DataPipe/Tests.antt =====
-- The theorems of DataPipe (lib/media/datapipe.h) at a pipe of two buffers, along a run in which a
-- listener subscribes, a writer fills a buffer, and a second writer takes its permit.
use chat_up.Base.{
  ℕ, ◌+◌, ◌≡◌, refl, true, false, some, [], ◌∷◌, String, get_elem?, set, length, ◌≤◌, arith,
}
use chat_up.Media.DataPipe.{
  SubPipe, DataPipe, held, init, get_free, acquire, take_free, on_data_changed, drain,
  unmap_writing, fresh, publish, emplace_listener, calls,
}
use chat_up.Media.DataPipe.System.{
  idle, writing, System, boot, permit, pick, written, listen, Reach, here, next, after_write,
  loop_of,
}
use chat_up.Media.DataPipe.Safety.{Reach-get_free, Reach-permits, busy_count}
use chat_up.Media.DataPipe.Loop.{Reach-called}
use chat_up.Media.DataPipe.Listeners.{IsSettled}

-- A buffer and a callback are given by their names.
abbrev first : System String String
first = boot ("a" ∷ "b" ∷ []) 0

abbrev listening : System String String
listening = record first {
  pipe = (on_data_changed "sink" 0 first.pipe).0;
  free_index = (on_data_changed "sink" 0 first.pipe).1;
}

abbrev permitted : System String String
permitted = record listening { pipe = record listening.pipe { sem = 1 }; pending = 1 }

abbrev filling : System String String
filling = record listening {
  pipe = record listening.pipe {
    sem = 1;
    subpipes =
        record { is_free = false; ptr = "a"; readings = 0 }
        ∷ record { is_free = true; ptr = "b"; readings = 0 }
        ∷ [];
  };
  phases = writing ∷ idle ∷ [];
}

to_filling : Reach first filling
unfolding boot init on_data_changed acquire get_free take_free fresh
to_filling =
    next (next (next here (listen "sink")) (permit refl)) (pick {n = 0} {i = 0} {t = "a"} refl refl)

abbrev filled : System String String
filled = record filling {
  pipe = (unmap_writing 0 true filling.pipe).0;
  phases = set filling.phases 0 (after_write (unmap_writing 0 true filling.pipe).1);
  calling = loop_of 0 (unmap_writing 0 true filling.pipe).1;
}

to_filled : Reach first filled
unfolding boot
to_filled = next to_filling (written 0 true refl refl)

abbrev second : System String String
second = record filled { pipe = record filled.pipe { sem = 0 }; pending = 1 }

to_second : Reach first second
unfolding boot init on_data_changed acquire unmap_writing drain publish emplace_listener
to_second = next to_filled (permit refl)

Reach-get_free_example :
    (x : String) × (i : ℕ) × (q : DataPipe String String) × (get_free second.pipe ≡ held x i q)
    × (get_elem? second.phases i ≡ some idle)
Reach-get_free_example = Reach-get_free ("a" ∷ "b" ∷ []) 0 to_second (omega arith)

Reach-permits_example : second.pipe.sem + second.pending + busy_count second.phases ≡ 2
Reach-permits_example = Reach-permits ("a" ∷ "b" ∷ []) 0 to_second

abbrev settled : DataPipe String String
settled = record {
  listeners = (3, "sink") ∷ [];
  sem = 0;
  subpipes = record { is_free = false; ptr = "a"; readings = 0 } ∷ [];
  remove_listener_queue = [];
  add_listener_queue = [];
}

settled-IsSettled : IsSettled 4 settled
settled-IsSettled = record { none_to_add = refl; none_to_remove = refl; keys = (omega arith, tt) }

-- The listener is called with the buffer that was written.
Reach-called_example :
    (x : SubPipe String) × (get_elem? filled.pipe.subpipes 0 ≡ some x)
    × (x.is_free ≡ false)
    × (length filled.pipe.listeners ≤ x.readings + 0)
unfolding init on_data_changed unmap_writing drain publish emplace_listener boot calls
Reach-called_example = Reach-called ("a" ∷ "b" ∷ []) 0 filled 0 0 to_filled refl (omega arith)
