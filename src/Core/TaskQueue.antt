-- ===== src/Core/TaskQueue.antt =====
-- lib/core/taskqueue.h and taskqueue.cpp: tasks with a time and a priority, and the round of a worker
-- that takes one. Times are ticks of the clock, and `now` is what the clock says. The heap is a list
-- in no order; the standard does not say which of equal tasks is its top, here it is the first.
pub mod Order
pub mod Rounds
mod Tests
use chat_up.Base.{
  ℕ, zero, suc, ◌+◌, Bool, true, false, List, [], ◌∷◌, nat_beq, ltb, leb, if◌then◌else◌,
}

pub record Task (F : Type 0) : Type 0 where
  pub time : ℕ
  pub func : F
  pub priority : ℕ

pub record TaskQueue (F : Type 0) : Type 0 where
  pub tasks : List (Task F)
  pub joining : Bool

-- What a round of `dequeue` comes to: a wait for a task, a wait until a time, the function of a task
-- and the queue without it, or the null function.
pub data Dequeued (F : Type 0) : Type 0 where
  waits joined : Dequeued F
  wait_until : ℕ → Dequeued F
  returned : F → TaskQueue F → Dequeued F

module _ {F : Type 0} where
  -- operator> and operator<
  pub greater : Task F → Task F → Bool
  greater s t =
      if nat_beq s.priority t.priority then ltb s.time t.time else ltb t.priority s.priority

  pub less : Task F → Task F → Bool
  less s t = if nat_beq s.priority t.priority then ltb t.time s.time else ltb s.priority t.priority

  pub empty : TaskQueue F
  empty = record { tasks = []; joining = false }

  -- schedule(time, f, args, priority): the task is pushed
  pub schedule_at : ℕ → F → ℕ → TaskQueue F → TaskQueue F
  schedule_at time func priority q = record q {
    tasks = record { time = time; func = func; priority = priority } ∷ q.tasks;
  }

  -- schedule(delay, f, args) and enqueue(f, args); the priority is the default
  pub schedule : ℕ → ℕ → F → TaskQueue F → TaskQueue F
  unfolding schedule_at
  schedule now delay func q = schedule_at (now + delay) func 0 q

  pub enqueue : ℕ → F → TaskQueue F → TaskQueue F
  unfolding schedule_at
  enqueue now func q = schedule_at now func 0 q

  -- The destructor's first part.
  pub join : TaskQueue F → TaskQueue F
  join q = record q { joining = true }

  -- top() and pop() of a heap with `std::greater`: no task is less than its top
  pub take_top : Task F → List (Task F) → Task F × List (Task F)
  unfolding greater
  take_top t [] = (t, [])
  take_top t (u ∷ us) =
      let (m, rest) = take_top u us in if greater t m then (m, t ∷ rest) else (t, u ∷ us)

  run_top : ℕ → Task F × List (Task F) → TaskQueue F → Dequeued F
  run_top now (t, rest) q =
      if leb t.time now then returned t.func (record q { tasks = rest }) else wait_until t.time

  dequeue_from : ℕ → List (Task F) → TaskQueue F → Dequeued F
  unfolding take_top run_top
  dequeue_from now [] q = waits
  dequeue_from now (t ∷ ts) q = run_top now (take_top t ts) q

  -- One round of the loop in `dequeue`, with the mutex held.
  pub dequeue : ℕ → TaskQueue F → Dequeued F
  unfolding dequeue_from
  dequeue now q = if q.joining then joined else dequeue_from now q.tasks q

  -- runOne, and whether the loop of `threadFunc` goes on
  pub run_one : Dequeued F → Bool
  run_one joined = false
  run_one _ = true

  -- The loop of `threadFunc` for a number of rounds, all at one time: the functions that it runs, and
  -- the queue when the rounds are over, the queue is joined or the worker has to wait.
  pub thread_func : ℕ → ℕ → TaskQueue F → List F × TaskQueue F
  thread_func zero now q = ([], q)
  thread_func (suc n) now q = elim (dequeue now q) [
    | waits ↦ ([], q)
    | joined ↦ ([], q)
    | wait_until time ↦ ([], q)
    | returned func r ↦ let (ran, end) = thread_func n now r in (func ∷ ran, end)
  ]
