-- ===== src/Core/TaskQueue/Rounds.antt =====
-- The rounds of a worker until the queue is empty (lib/core/taskqueue.cpp).
use chat_up.Base.{
  ℕ, zero, suc, ◌≤◌, ◌≡◌, refl, ap, inl, inr, Bool-cases, true, false, List, [], ◌∷◌, map, leb,
  length, arith,
}
use mathlib.Core.List.{Perm}
use mathlib.Core.List.Perm
use chat_up.Core.TaskQueue.{
  Task, TaskQueue, returned, greater, take_top, run_top, dequeue_from, dequeue, thread_func,
}

module _ {F : Type 0} where
  -- Every task has come due.
  abbrev pub Due : ℕ → List (Task F) → Type 0
  Due now [] = Unit
  Due now (t ∷ ts) = (t.time ≤ now) × Due now ts

  abbrev pub funcs : List (Task F) → List F
  funcs = map (λ (t : Task F). t.func)

  record IsTop (now : ℕ) (t m : Task F) (ts rest : List (Task F)) : Type 0 where
    funcs_perm : Perm (m.func ∷ funcs rest) (t.func ∷ funcs ts)
    all : Due now (m ∷ rest)
    count : length rest ≡ length ts

  take_top-IsTop :
      (now : ℕ) (t : Task F) (ts : List (Task F))
      → Due now (t ∷ ts)
      → let (m, rest) = take_top t ts in IsTop now t m ts rest
  unfolding take_top
  take_top-IsTop now t [] d = record { funcs_perm = Perm.rfl; all = d; count = refl }
  take_top-IsTop now t (u ∷ us) d =
      let v = take_top-IsTop now u us d.1 in
      elim (Bool-cases (greater t (take_top u us).0)) [
        | inl h ↦ rw h (record {
          funcs_perm =
              Perm.trans (Perm.swap t.func (take_top u us).0.func (funcs (take_top u us).1))
                (Perm.cons t.func v.funcs_perm);
          all = (v.all.0, (d.0, v.all.1));
          count = ap suc v.count;
        })
        | inr h ↦ rw h (record { funcs_perm = Perm.rfl; all = d; count = refl })
      ]

  dequeue-due :
      (now : ℕ) (t : Task F) (ts : List (Task F)) (q : TaskQueue F)
      → q.joining ≡ false
      → q.tasks ≡ t ∷ ts
      → (take_top t ts).0.time ≤ now
      → dequeue now q ≡ returned (take_top t ts).0.func (record q { tasks = (take_top t ts).1 })
  unfolding dequeue dequeue_from run_top
  dequeue-due now t ts q j e le =
      let due : leb (take_top t ts).0.time now ≡ true = ground arith in rw (j, e, due)

  rounds-from :
      (n now : ℕ) (ts : List (Task F)) (q : TaskQueue F)
      → q.joining ≡ false
      → q.tasks ≡ ts
      → length ts ≡ n
      → Due now ts
      → let (ran, end) = thread_func n now q in Perm ran (funcs ts) × (end.tasks ≡ [])
  unfolding thread_func
  rounds-from zero now [] q j e l d = (Perm.rfl, e)
  rounds-from zero now (t ∷ ts) q j e l d = absurd (omega arith)
  rounds-from (suc n) now [] q j e l d = absurd (omega arith)
  rounds-from (suc n) now (t ∷ ts) q j e l d =
      let (m, rest) = take_top t ts in
      let v = take_top-IsTop now t ts d in
      let r : TaskQueue F = record q { tasks = rest } in
      let count : length rest ≡ n = omega (arith, v.count, l) in
      let (p, done) = rounds-from n now rest r j refl count v.all.1 in
      rw (dequeue-due now t ts q j e v.all.0, thread_func)
        (Perm.trans (Perm.cons m.func p) v.funcs_perm, done)

  -- When every task has come due and the queue is not joining, as many rounds of a worker as there are
  -- tasks run each task once, in some order, and leave the queue empty.
  pub thread_func-all :
      (n now : ℕ) (q : TaskQueue F)
      → q.joining ≡ false
      → length q.tasks ≡ n
      → Due now q.tasks
      → let (ran, end) = thread_func n now q in Perm ran (funcs q.tasks) × (end.tasks ≡ [])
  thread_func-all n now q j l d = rounds-from n now q.tasks q j refl l d
