-- ===== src/Core/TaskQueue/Tests.antt =====
-- The theorems of TaskQueue at a queue of two tasks (lib/core/taskqueue.h).
use chat_up.Base.{◌≡◌, refl, [], ◌∷◌, String, arith}
use chat_up.Core.TaskQueue.{Task, TaskQueue, empty, schedule_at, enqueue, thread_func}
use chat_up.Core.TaskQueue.Rounds.{thread_func-all}
use mathlib.Core.List.{Perm}

-- A function is given by its name.
abbrev two : TaskQueue String
two = enqueue 8 "close" (enqueue 5 "error" empty)

abbrev error_task : Task String
error_task = record { time = 5; func = "error"; priority = 0 }

abbrev close_task : Task String
close_task = record { time = 8; func = "close"; priority = 1 }

thread_func-all_example :
    let (ran, end) = thread_func 2 12 two in Perm ran ("close" ∷ "error" ∷ []) × (end.tasks ≡ [])
unfolding enqueue schedule_at empty
thread_func-all_example = thread_func-all 2 12 two refl refl (omega arith, (omega arith, tt))
