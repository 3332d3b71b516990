-- ===== src/Media/DataPipe/Listeners.antt =====
-- Which listeners `unmapWriting` calls (lib/media/datapipe.h): subscriptions take effect there.
use chat_up.Base.{
  ℕ, suc, ◌≤◌, ◌≡◌, refl, sym, ap, ◌∙◌, none, Bool, true, some, List, [], ◌∷◌, ◌++◌, length,
  length-append, get_elem?, arith,
}
use chat_up.Media.DataPipe.{
  SubPipe, DataPipe, Call, emplace_listener, erase_listener, drain_added, drain_removed, drain,
  on_data_changed, remove_listener, publish, calls, unmap_writing,
}
use chat_up.Media.DataPipe.Slots.{unmap_writing_lem}

module _ {C : Type 0} where
  -- Every key of the map is at most `n`, as those that the counter has given out are.
  abbrev pub Below : ℕ → List (ℕ × C) → Type 0
  Below n [] = Unit
  Below n ((k, c) ∷ ls) = (k ≤ n) × Below n ls

  emplace_fresh :
      (n : ℕ) (c : C) (ls : List (ℕ × C))
      → Below n ls
      → emplace_listener (suc n) c ls ≡ ls ++ (suc n, c) ∷ []
  unfolding emplace_listener
  emplace_fresh n c [] h = refl
  emplace_fresh n c ((k, d) ∷ ls) h = ground (arith, emplace_fresh n c ls h.1)

  erase_fresh :
      (n : ℕ) (c : C) (ls : List (ℕ × C))
      → Below n ls
      → erase_listener (suc n) (ls ++ (suc n, c) ∷ []) ≡ ls
  unfolding erase_listener
  erase_fresh n c [] h = ground arith
  erase_fresh n c ((k, d) ∷ ls) h = ground (arith, erase_fresh n c ls h.1)

module _ {T C : Type 0} where
  -- A pipe whose queues are empty, with its keys below the counter.
  pub record IsSettled (n : ℕ) (p : DataPipe T C) : Type 0 where
    pub none_to_add : p.add_listener_queue ≡ []
    pub none_to_remove : p.remove_listener_queue ≡ []
    pub keys : Below n p.listeners

  drain_added_lem :
      (n : ℕ) (c : C) (p : DataPipe T C)
      → IsSettled n p
      → drain (on_data_changed c n p).0 ≡ record p { listeners = p.listeners ++ (suc n, c) ∷ [] }
  unfolding drain drain_added drain_removed on_data_changed
  drain_added_lem n c p v = ground (arith, emplace_fresh n c p.listeners v.keys)

  drain_removed_lem :
      (n : ℕ) (c : C) (p : DataPipe T C)
      → IsSettled n p
      → drain (remove_listener (suc n) (on_data_changed c n p).0) ≡ p
  unfolding drain drain_added drain_removed on_data_changed remove_listener
  drain_removed_lem n c p v =
      ground (arith, emplace_fresh n c p.listeners v.keys, erase_fresh n c p.listeners v.keys)

  drain_settled : (n : ℕ) (p : DataPipe T C) → IsSettled n p → drain p ≡ p
  unfolding drain drain_added drain_removed
  drain_settled n p v = ground arith

  calls-append :
      (t : T) (i : ℕ) (ls ks : List (ℕ × C)) → calls t i (ls ++ ks) ≡ calls t i ls ++ calls t i ks
  unfolding calls
  calls-append t i [] ks = refl
  calls-append t i (l ∷ ls) ks = rw (calls-append t i ls ks)

  publish-notify :
      (i : ℕ) (s : SubPipe T) (p : DataPipe T C) (l : ℕ × C) (ls : List (ℕ × C))
      → p.listeners ≡ ls ++ l ∷ []
      → (publish i true s p).1 ≡ calls s.ptr i (ls ++ l ∷ [])
  unfolding publish
  publish-notify i s p l ls e = ground (arith, ap length e, length-append ls (l ∷ []))

  -- A listener that subscribes is called from the next notified write on: that write calls those that
  -- were there, in their order, and then the new one, each with the written data and its index.
  pub on_data_changed-calls :
      (n i : ℕ) (c : C) (s : SubPipe T) (p : DataPipe T C)
      → IsSettled n p
      → get_elem? p.subpipes i ≡ some s
      → (unmap_writing i true (on_data_changed c n p).0).1
        ≡ calls s.ptr i p.listeners ++ record { callback = c; ptr = s.ptr; index = i } ∷ []
  unfolding on_data_changed calls
  on_data_changed-calls n i c s p v e =
      rw (unmap_writing_lem (on_data_changed c n p).0 i true s e, drain_added_lem n c p v)
        (publish-notify i s _ (suc n, c) p.listeners refl ∙ calls-append s.ptr i p.listeners _)

  -- A listener that unsubscribes before the next write is never called: the write does what it would
  -- have done without the listener, to the pipe and in its calls, notified or not.
  pub unmap_writing-remove_listener :
      (n i : ℕ) (b : Bool) (c : C) (p : DataPipe T C)
      → IsSettled n p
      → unmap_writing i b (remove_listener (suc n) (on_data_changed c n p).0) ≡ unmap_writing i b p
  unfolding unmap_writing
  unmap_writing-remove_listener n i b c p v =
      ap unmap (drain_removed_lem n c p v ∙ sym (drain_settled n p v))
    where
      unmap : DataPipe T C → DataPipe T C × List (Call T C)
      unmap q = elim (get_elem? q.subpipes i) [ none ↦ (q, []) | some s ↦ publish i b s q ]
