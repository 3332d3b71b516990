-- ===== src/Core/TaskQueue/Order.antt =====
-- Which task a worker takes (lib/core/taskqueue.h).
use chat_up.Base.{
  ℕ, zero, suc, ◌+◌, ◌≤◌, ◌<◌, ◌≡◌, refl, sym, inl, inr, true, false, List, [], ◌∷◌, some,
  get_elem?, leb, Bool-cases, arith,
}
use chat_up.Core.TaskQueue.{
  Task, TaskQueue, wait_until, greater, schedule_at, schedule, enqueue, take_top, run_top,
  dequeue_from, dequeue,
}

module _ {F : Type 0} where
  -- Every task has the default priority and a time before `now`.
  abbrev pub Plain : ℕ → List (Task F) → Type 0
  Plain now [] = Unit
  Plain now (t ∷ ts) = (t.priority ≡ 0) × (t.time < now) × Plain now ts

  greater_trans : (s t u : Task F) → greater s t ≡ false → greater t u ≡ false → greater s u ≡ false
  unfolding greater
  greater_trans s t u h k = ground arith

  greater_asym : (s t : Task F) → greater s t ≡ true → greater t s ≡ false
  unfolding greater
  greater_asym s t h = ground arith

  greater_irrefl : (t : Task F) → greater t t ≡ false
  unfolding greater
  greater_irrefl t = ground arith

  later_first :
      (s t : Task F) → s.priority ≡ 0 → t.priority ≡ 0 → t.time ≤ s.time → greater s t ≡ false
  unfolding greater
  later_first s t p q le = ground arith

  some_eq : {s t : Task F} → some s ≡ some t → s ≡ t
  some_eq e = cc

  top_self : (t : Task F) (ts : List (Task F)) → greater (take_top t ts).0 t ≡ false
  unfolding take_top
  top_self t [] = greater_irrefl t
  top_self t (v ∷ ts) = elim (Bool-cases (greater t (take_top v ts).0)) [
    | inl h ↦ rw h (greater_asym t (take_top v ts).0 h)
    | inr h ↦ rw h (greater_irrefl t)
  ]

  -- The top of tasks that are all plain.
  top-Plain :
      (n : ℕ) (t : Task F) (ts : List (Task F))
      → Plain n (t ∷ ts)
      → ((take_top t ts).0.priority ≡ 0) × ((take_top t ts).0.time < n)
  unfolding take_top
  top-Plain n t [] (p, lt, h) = (p, lt)
  top-Plain n t (v ∷ ts) (p, lt, h) = elim (Bool-cases (greater t (take_top v ts).0)) [
    | inl e ↦ rw e (top-Plain n v ts h)
    | inr e ↦ rw e (p, lt)
  ]

  top-latest :
      (n : ℕ) (t : Task F) (ts : List (Task F))
      → t.priority ≡ 0
      → n ≤ t.time
      → Plain n ts
      → take_top t ts ≡ (t, ts)
  unfolding take_top
  top-latest n t [] p le h = refl
  top-latest n t (v ∷ ts) p le h =
      let (q, lt) = top-Plain n v ts h in
      let apart : greater t (take_top v ts).0 ≡ false =
        later_first t (take_top v ts).0 p q (omega arith) in
      rw apart

  -- The top that a worker takes is least in the order of the heap: the comparison puts it behind no
  -- other of the tasks.
  pub take_top-least :
      (t u : Task F) (ts : List (Task F)) (i : ℕ)
      → get_elem? (t ∷ ts) i ≡ some u
      → greater (take_top t ts).0 u ≡ false
  unfolding take_top
  take_top-least t u ts zero e = rw (sym (some_eq e)) (top_self t ts)
  take_top-least t u [] (suc i) e = cc
  take_top-least t u (v ∷ ts) (suc i) e =
      let least = take_top-least v u ts i e in
      elim (Bool-cases (greater t (take_top v ts).0)) [
        | inl h ↦ rw h least
        | inr h ↦ rw h (greater_trans t (take_top v ts).0 u h least)
      ]

  -- In a queue that is not joining, where a task is scheduled for later and all others have the
  -- default priority and a time before its own, no worker takes any task until that task is due,
  -- whether or not the others have been due for long: each waits for the time of that task.
  pub dequeue-schedule :
      (now delay later : ℕ) (func : F) (q : TaskQueue F)
      → q.joining ≡ false
      → Plain (now + delay) q.tasks
      → later < now + delay
      → dequeue later (schedule now delay func q) ≡ wait_until (now + delay)
  unfolding dequeue dequeue_from run_top schedule enqueue schedule_at
  dequeue-schedule now delay later func q j p lt =
      let t : Task F = record { time = now + delay; func = func; priority = 0 } in
      let early : leb (now + delay) later ≡ false = ground arith in
      rw (j, top-latest (now + delay) t q.tasks refl (omega arith) p, early)
