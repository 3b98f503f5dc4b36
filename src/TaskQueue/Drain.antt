-- ===== src/TaskQueue/Drain.antt =====
-- The destructor of Orderbook Server/task_queue.h: the threads that it joins come to their end.
use simple_orderbook_v.Common.{ℕ, suc, ◌+◌, ◌*◌, ◌<◌, ◌≤◌, ◌≡◌, true, some, length, arith}
use simple_orderbook_v.Outcome.{returned, Returns-returned}
use simple_orderbook_v.TaskQueue.{
  Worker, waiting, running, stopped, TaskQueue, worker_at, get_task, finish_task,
}
use simple_orderbook_v.TaskQueue.Threads.{weight, weight-set_worker}
use simple_orderbook_v.TaskQueue.Runs.{Gets, waits, stops, takes, get_task-Gets}

module _ {Task : Type 0} where
  -- A thread runs its locked block, or its task returns.
  pub data Step (q : TaskQueue Task) : TaskQueue Task → Type 0 where
    gets :
        (i : ℕ) {r : TaskQueue Task}
        → worker_at i q.workers ≡ some waiting
        → get_task i q ≡ returned r
        → Step q r
    finishes :
        (i : ℕ) (task : Task)
        → worker_at i q.workers ≡ some (running task)
        → Step q (finish_task i q)

  pub data Steps : ℕ → TaskQueue Task → TaskQueue Task → Type 0 where
    done : {q : TaskQueue Task} → Steps 0 q q
    next : {n : ℕ} {q r t : TaskQueue Task} → Step q r → Steps n r t → Steps (suc n) q t

  abbrev left : Worker Task → ℕ
  left waiting = 1
  left (running task) = 2
  left stopped = 0

  -- The steps that are left: two for each task, and those of the threads.
  abbrev pub work : TaskQueue Task → ℕ
  work q = 2 * length q.task_queue + weight left q.workers

  get_task_less :
      (i : ℕ) (q : TaskQueue Task) {r : TaskQueue Task}
      → q.shutdown ≡ true
      → worker_at i q.workers ≡ some waiting
      → Gets i q r
      → (work r < work q) × (r.shutdown ≡ true)
  get_task_less i q shut e (waits empty open_) = absurd (ground (arith, shut, open_))
  get_task_less i q shut e (stops empty _) =
      (ground (arith, weight-set_worker left i waiting stopped q.workers e), shut)
  get_task_less i q shut e (takes task tasks front) =
      (ground (arith, front, weight-set_worker left i waiting (running task) q.workers e), shut)

  Step-less :
      (q : TaskQueue Task) {r : TaskQueue Task}
      → q.shutdown ≡ true
      → Step q r
      → (work r < work q) × (r.shutdown ≡ true)
  unfolding finish_task
  Step-less q shut (gets i e got) =
      get_task_less i q shut e (Returns-returned got (get_task-Gets i q))
  Step-less q shut (finishes i task e) =
      (ground (arith, weight-set_worker left i (running task) waiting q.workers e), shut)

  -- After the shutdown the threads take at most two steps for each task in the queue, two for each
  -- task that is running and one for each thread that waits.
  pub Steps-work :
      {n : ℕ} {q r : TaskQueue Task} → q.shutdown ≡ true → Steps n q r → n + work r ≤ work q
  Steps-work shut done = omega arith
  Steps-work shut (next step steps) =
      ground (arith, Step-less _ shut step, Steps-work (Step-less _ shut step).1 steps)
