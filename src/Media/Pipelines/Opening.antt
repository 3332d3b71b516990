-- ===== src/Media/Pipelines/Opening.antt =====
-- lib/media/pipelines.cpp: `open` of a pipeline on its thread, beside the task that it runs on another,
-- as a step relation. What the task opens is left out here; at its end the guard resets _openingFuture.
use chat_up.Base.{ℕ, suc, ◌≡◌, Option, none, some}

-- Where the caller of `open` is: before its test, with the future of the task that it has started, after
-- the assignment, with the future that it returns, or with the std::bad_optional_access of `value()`.
pub data Caller : Type 0 where
  testing assigned thrown : Caller
  launched returned : ℕ → Caller

pub data Worker : Type 0 where
  absent : Worker
  running ended : ℕ → Worker

pub record System : Type 0 where
  pub opening_future : Option ℕ
  pub caller : Caller
  pub worker : Worker
  -- the tasks that have been started
  pub tasks : ℕ

abbrev pub boot : System
boot = record { opening_future = none; caller = testing; worker = absent; tasks = 0 }

pub data Step (s : System) : System → Type 0 where
  find :
      {f : ℕ}
      → s.caller ≡ testing
      → s.opening_future ≡ some f
      → Step s (record s { caller = assigned })
  launch :
      s.caller ≡ testing
      → s.opening_future ≡ none
      → Step s
          (record s { caller = launched s.tasks; worker = running s.tasks; tasks = suc s.tasks })
  assign :
      {f : ℕ}
      → s.caller ≡ launched f
      → Step s (record s { opening_future = some f; caller = assigned })
  return :
      {f : ℕ}
      → s.caller ≡ assigned
      → s.opening_future ≡ some f
      → Step s (record s { caller = returned f })
  throw : s.caller ≡ assigned → s.opening_future ≡ none → Step s (record s { caller = thrown })
  end :
      {f : ℕ} → s.worker ≡ running f → Step s (record s { opening_future = none; worker = ended f })
  -- the next call of `open`
  again : {f : ℕ} → s.caller ≡ returned f → Step s (record s { caller = testing })

pub data Reach (s : System) : System → Type 0 where
  here : Reach s s
  next : {t u : System} → Reach s t → Step t u → Reach s u
