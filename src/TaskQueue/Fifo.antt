-- ===== src/TaskQueue/Fifo.antt =====
-- What the runs of the queue of Orderbook Server/task_queue.h keep.
use simple_orderbook_v.Common.{ℕ, ◌+◌, ◌<◌, ◌≡◌, true, List, [], ◌++◌, length}
use simple_orderbook_v.TaskQueue.{TaskQueue}
use simple_orderbook_v.TaskQueue.Threads.{weight, busy, ended}
use simple_orderbook_v.TaskQueue.Runs.{Runs}

module _ {Task : Type 0} where
  -- Tasks leave the queue in the order in which they came, each task that was taken is running or has
  -- returned, and no thread stops before the shutdown or leaves a task behind.
  pub record IsSound (n : ℕ) (accepted started : List Task) (finished : ℕ) (q : TaskQueue Task)
      : Type 0 where
    pub fifo : accepted ≡ started ++ q.task_queue
    pub counted : length started ≡ finished + weight busy q.workers
    pub threads : length q.workers ≡ n
    pub drained : 0 < weight ended q.workers → (q.shutdown ≡ true) × (q.task_queue ≡ [])
