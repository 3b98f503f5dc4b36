-- ===== src/TaskQueue/Examples.antt =====
-- A run of the queue of Orderbook Server/task_queue.h with one thread and one task, and instances of
-- the theorems.
use simple_orderbook_v.Common.{ℕ, ◌+◌, ◌≤◌, refl, true, List, [], ◌∷◌}
use simple_orderbook_v.TaskQueue.{
  Worker, waiting, stopped, TaskQueue, worker_at, set_worker, may_proceed, get_task, finish_task,
}
use simple_orderbook_v.TaskQueue.Runs.{Runs, gets, finishes}
use simple_orderbook_v.TaskQueue.Drain
use simple_orderbook_v.TaskQueue.Drain.{Steps, Step, work, Steps-work}

abbrev queue : List (Worker ℕ) → List ℕ → TaskQueue ℕ
queue workers tasks = record { workers = workers; task_queue = tasks; shutdown = true }

-- Task 7 waits in the queue that is shut down.
abbrev before : TaskQueue ℕ
before = queue (waiting ∷ []) (7 ∷ [])

abbrev after : TaskQueue ℕ
after = queue (stopped ∷ []) []

drain-Steps : Steps 3 before after
unfolding worker_at set_worker get_task may_proceed finish_task
drain-Steps =
    Drain.next (Drain.gets 0 refl refl)
      (Drain.next (Drain.finishes 0 7 refl) (Drain.next (Drain.gets 0 refl refl) Drain.done))

Steps-work_example : 3 + work after ≤ work before
Steps-work_example = Steps-work refl drain-Steps
