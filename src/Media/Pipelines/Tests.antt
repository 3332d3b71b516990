-- ===== src/Media/Pipelines/Tests.antt =====
-- The theorems on the pipelines (lib/media/pipelines.cpp) at a fast task.
use chat_up.Base.{◌≡◌, refl, true, false, some, none, List, [], ◌∷◌, String, string_eq, ◌==◌}
use chat_up.Media.Pipelines.Opening.{
  System, boot, launched, returned, ended, launch, end, return, again, find, Reach, here, next,
}
use chat_up.Media.Pipelines.Stuck.{Reach-assign}

-- The task has ended before its future is stored.
abbrev ended_first : System
ended_first = record { opening_future = none; caller = launched 0; worker = ended 0; tasks = 1 }

ended_first_reached : Reach boot ended_first
ended_first_reached = next (next here (launch refl refl)) (end refl)

-- A second call of `open` that returns.
abbrev opened_again : System
opened_again = record { opening_future = some 0; caller = returned 0; worker = ended 0; tasks = 1 }

Reach-assign_example :
    (◌≡◌ {A = chat_up.Base.ℕ} 0 0)
    × (opened_again.opening_future ≡ some 0)
    × (opened_again.tasks ≡ ended_first.tasks)
Reach-assign_example =
    Reach-assign 0 0 ended_first opened_again refl refl
      (next (next (next (next here (return refl refl)) (again refl)) (find refl refl))
        (return refl refl))
      refl
