-- ===== src/TaskQueue/Threads.antt =====
-- Counts over the threads of the queue of Orderbook Server/task_queue.h.
use simple_orderbook_v.Common.{
  ℕ, zero, suc, ◌+◌, ◌≡◌, refl, some, List, [], ◌∷◌, All, length, arith,
}
use simple_orderbook_v.TaskQueue.{
  Worker, waiting, running, stopped, worker_at, set_worker, start_workers,
}

module _ {Task : Type 0} where
  abbrev pub weight : (Worker Task → ℕ) → List (Worker Task) → ℕ
  weight f [] = 0
  weight f (w ∷ ws) = f w + weight f ws

  abbrev pub busy : Worker Task → ℕ
  busy waiting = 0
  busy (running task) = 1
  busy stopped = 0

  abbrev pub ended : Worker Task → ℕ
  ended waiting = 0
  ended (running task) = 0
  ended stopped = 1

  pub weight-set_worker :
      (f : Worker Task → ℕ) (i : ℕ) (v w : Worker Task) (ws : List (Worker Task))
      → worker_at i ws ≡ some v
      → weight f (set_worker i w ws) + f v ≡ weight f ws + f w
  unfolding worker_at set_worker
  weight-set_worker f i v w [] e = absurd (ground (arith, e))
  weight-set_worker f zero v w (x ∷ ws) e = ground (arith, e)
  weight-set_worker f (suc i) v w (x ∷ ws) e = ground (arith, weight-set_worker f i v w ws e)

  pub length-set_worker :
      (i : ℕ) (w : Worker Task) (ws : List (Worker Task)) → length (set_worker i w ws) ≡ length ws
  unfolding set_worker
  length-set_worker i w [] = refl
  length-set_worker zero w (x ∷ ws) = refl
  length-set_worker (suc i) w (x ∷ ws) = ground (arith, length-set_worker i w ws)

  pub All-stopped :
      (ws : List (Worker Task))
      → All (λ w. w ≡ stopped) ws
      → (weight busy ws ≡ 0) × (weight ended ws ≡ length ws)
  All-stopped [] all = (refl, refl)
  All-stopped (stopped ∷ ws) (e, all) = ground (arith, All-stopped ws all)
  All-stopped (waiting ∷ ws) (e, all) = absurd (ground (arith, e))
  All-stopped (running task ∷ ws) (e, all) = absurd (ground (arith, e))

module _ (Task : Type 0) where
  pub length-start_workers : (n : ℕ) → length (start_workers {Task = Task} n) ≡ n
  unfolding start_workers
  length-start_workers zero = refl
  length-start_workers (suc n) = ground (arith, length-start_workers n)

  pub start_workers_idle :
      (n : ℕ)
      → (weight busy (start_workers {Task = Task} n) ≡ 0)
        × (weight ended (start_workers {Task = Task} n) ≡ 0)
  unfolding start_workers
  start_workers_idle zero = (refl, refl)
  start_workers_idle (suc n) = ground (arith, start_workers_idle n)
