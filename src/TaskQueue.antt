-- ===== src/TaskQueue.antt =====
-- `class TaskQueue` of Orderbook Server/task_queue.h: a thread is what it does between two holds of
-- `queueMutex_`, and a task, a `std::function<void()>`, is a value of a type that is a parameter.
-- A notified thread takes the lock again and tests the predicate of `wait`: a thread that waits may
-- run `get_task` at any time, with no effect where the predicate is false. `notify_one`, `notify_all` and
-- the sleep of a thread that is not notified are not modelled.
mod Examples
pub mod Drain
pub mod Fifo
pub mod Runs
pub mod Threads
use simple_orderbook_v.Common.{
  ℕ, zero, suc, Bool, true, false, not, ◌&&◌, ◌||◌, Option, none, some, List, [], ◌∷◌, ◌++◌,
  if◌then◌else◌,
}
use simple_orderbook_v.Outcome.{Outcome, returned, undefined}

pub data Worker (Task : Type 0) : Type 0 where
  waiting : Worker Task
  running : Task → Worker Task
  stopped : Worker Task

pub record TaskQueue (Task : Type 0) : Type 0 where
  pub workers : List (Worker Task)
  pub task_queue : List Task
  pub shutdown : Bool

abbrev pub is_empty : {A : Type 0} → List A → Bool
is_empty [] = true
is_empty (x ∷ xs) = false

module _ {Task : Type 0} where
  -- The thread with index `i`, and the threads with that one replaced.

  unfoldable pub worker_at : ℕ → List (Worker Task) → Option (Worker Task)
  worker_at i [] = none
  worker_at zero (w ∷ ws) = some w
  worker_at (suc i) (w ∷ ws) = worker_at i ws

  unfoldable pub set_worker : ℕ → Worker Task → List (Worker Task) → List (Worker Task)
  set_worker i w [] = []
  set_worker zero w (v ∷ ws) = w ∷ ws
  set_worker (suc i) w (v ∷ ws) = v ∷ set_worker i w ws

  unfoldable pub start_workers : ℕ → List (Worker Task)
  start_workers zero = []
  start_workers (suc n) = waiting ∷ start_workers n

  unfoldable pub new_task_queue : ℕ → TaskQueue Task
  new_task_queue num_threads = record {
    workers = start_workers num_threads;
    task_queue = [];
    shutdown = false;
  }

  unfoldable pub enqueue : Task → TaskQueue Task → TaskQueue Task
  enqueue task q = if q.shutdown then q else record q { task_queue = q.task_queue ++ (task ∷ []) }

  -- The first block of the destructor.
  unfoldable pub shut_down : TaskQueue Task → TaskQueue Task
  shut_down q = record q { shutdown = true }

  -- The predicate of `condition_.wait`.
  unfoldable pub may_proceed : TaskQueue Task → Bool
  may_proceed q = q.shutdown || not (is_empty q.task_queue)

  -- The locked block of `workerThread` in the thread `i`; `front` of an empty queue is undefined.
  unfoldable pub get_task : ℕ → TaskQueue Task → Outcome (TaskQueue Task)
  unfolding may_proceed
  get_task i q =
      if not (may_proceed q)
      then returned q
      else if q.shutdown && is_empty q.task_queue
      then returned (record q { workers = set_worker i stopped q.workers })
      else elim q.task_queue [
        | [] ↦ undefined
        | task ∷ tasks ↦
            returned
              (record q { workers = set_worker i (running task) q.workers; task_queue = tasks })
      ]

  -- `task()` returns, and the thread is at the head of its loop.
  unfoldable pub finish_task : ℕ → TaskQueue Task → TaskQueue Task
  finish_task i q = record q { workers = set_worker i waiting q.workers }
