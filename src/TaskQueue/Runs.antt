-- ===== src/TaskQueue/Runs.antt =====
-- The runs of the queue of Orderbook Server/task_queue.h, from the constructor on.
use simple_orderbook_v.Common.{
  ℕ, suc, ◌≡◌, refl, Bool, true, false, some, List, [], ◌∷◌, ◌++◌, take, if◌then◌else◌,
}
use simple_orderbook_v.Outcome.{returned, Returns, returns}
use simple_orderbook_v.TaskQueue.{
  Worker, waiting, running, stopped, TaskQueue, worker_at, set_worker, new_task_queue, enqueue,
  shut_down, may_proceed, get_task, finish_task,
}

module _ {Task : Type 0} where
  abbrev accept : Bool → Task → List Task → List Task
  accept shutdown task accepted = if shutdown then accepted else accepted ++ (task ∷ [])

  -- `Runs n accepted started finished q`: the queue with `n` threads has come to `q`, the calls of
  -- `enqueue` before the shutdown had the tasks `accepted`, the threads took `started`, and
  -- `finished` of these have returned.
  pub data Runs (n : ℕ) : List Task → List Task → ℕ → TaskQueue Task → Type 0 where
    starts : Runs n [] [] 0 (new_task_queue n)
    enqueues :
        {accepted started : List Task} {finished : ℕ} {q : TaskQueue Task} (task : Task)
        → Runs n accepted started finished q
        → Runs n (accept q.shutdown task accepted) started finished (enqueue task q)
    shuts_down :
        {accepted started : List Task} {finished : ℕ} {q : TaskQueue Task}
        → Runs n accepted started finished q
        → Runs n accepted started finished (shut_down q)
    gets :
        {accepted started : List Task} {finished : ℕ} {q r : TaskQueue Task} (i : ℕ)
        → worker_at i q.workers ≡ some waiting
        → get_task i q ≡ returned r
        → Runs n accepted started finished q
        → Runs n accepted (started ++ take 1 q.task_queue) finished r
    finishes :
        {accepted started : List Task} {finished : ℕ} {q : TaskQueue Task} (i : ℕ) (task : Task)
        → worker_at i q.workers ≡ some (running task)
        → Runs n accepted started finished q
        → Runs n accepted started (suc finished) (finish_task i q)

  -- The effect of the locked block on a thread that waits.
  pub data Gets (i : ℕ) (q : TaskQueue Task) : TaskQueue Task → Type 0 where
    waits : q.task_queue ≡ [] → q.shutdown ≡ false → Gets i q q
    stops :
        q.task_queue ≡ []
        → q.shutdown ≡ true
        → Gets i q (record q { workers = set_worker i stopped q.workers })
    takes :
        (task : Task) (tasks : List Task)
        → q.task_queue ≡ task ∷ tasks
        → Gets i q
            (record q { workers = set_worker i (running task) q.workers; task_queue = tasks })

  Gets-on :
      (i : ℕ) (workers : List (Worker Task)) (tasks : List Task) (shutdown : Bool)
      → (let q : TaskQueue Task = record {
        workers = workers;
        task_queue = tasks;
        shutdown = shutdown;
      } in
          Returns (Gets i q) (get_task i q))
  unfolding get_task may_proceed
  Gets-on i workers [] true = returns (stops refl refl)
  Gets-on i workers [] false = returns (waits refl refl)
  Gets-on i workers (t ∷ ts) true = returns (takes t ts refl)
  Gets-on i workers (t ∷ ts) false = returns (takes t ts refl)

  -- The locked block always returns: it waits on an empty queue, stops the thread on an empty queue
  -- that is shut down, and takes the front of a queue with tasks, also after the shutdown.
  pub get_task-Gets : (i : ℕ) (q : TaskQueue Task) → Returns (Gets i q) (get_task i q)
  get_task-Gets i q = Gets-on i q.workers q.task_queue q.shutdown
