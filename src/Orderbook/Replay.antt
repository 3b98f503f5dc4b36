-- ===== src/Orderbook/Replay.antt =====
-- Sequences of calls of the book of Orderbook Server/orderbook.cpp, beside the same calls of its
-- specification.
mod Examples
use simple_orderbook_v.Common.{ℕ, suc, ◌≡◌, refl, Option, none, some, List, [], ◌∷◌, ◌++◌, arith}
use simple_orderbook_v.Outcome.{Outcome, returned, out_of_fuel, ◌>>=◌}
use simple_orderbook_v.Order.{Order, OrderId, OrderModify}
use simple_orderbook_v.Levels.{OrderPointer}
use simple_orderbook_v.Levels.Laws.{queue_at}
use simple_orderbook_v.Index.{Heap, lookup}
use simple_orderbook_v.Matching.{Trades}
use simple_orderbook_v.Orderbook.{Orderbook, add_order, cancel_order, modify_order, empty_orderbook}
use simple_orderbook_v.Orderbook.Modify.{store}
use simple_orderbook_v.Orderbook.Refinement.{
  Faithful, Refines, implements, diverges, add_order-Refines, cancel_order-Faithful,
  modify_order-Refines,
}
use simple_orderbook_v.Orderbook.Session.{levels_of-empty, empty_orderbook-IsValid, empty-IsUnused}
use simple_orderbook_v.Orderbook.Spec.{Resting, place, replace, without_id}

pub data Command : Type 0 where
  add : Order → Command
  cancel : OrderId → Command
  modify : OrderModify → Command

-- The calls, each new order at the next address, with their trades.
unfoldable pub run : ℕ → List Command → OrderPointer → Orderbook → Outcome (Trades × Orderbook)
run fuel [] p book = returned ([], book)
run fuel (add order ∷ commands) p book =
    add_order fuel p (store p order book.dangling_reads book) >>= λ (trades, next).
    run fuel commands (suc p) next >>= λ (more, last). returned (trades ++ more, last)
run fuel (cancel id ∷ commands) p book = cancel_order id book >>= λ next. run fuel commands p next
run fuel (modify change ∷ commands) p book = modify_order fuel p change book >>= λ (trades, next).
    run fuel commands (suc p) next >>= λ (more, last). returned (trades ++ more, last)

-- The same on the resting orders; none where some call does not end.
abbrev pub and_then : Option Resting → (Resting → Option Resting) → Option Resting
and_then none k = none
and_then (some resting) k = k resting

abbrev pub replay : List Command → Resting → Option Resting
replay [] resting = some resting
replay (add order ∷ commands) resting = and_then (place order resting) (replay commands)
replay (cancel id ∷ commands) resting = replay commands (without_id id resting)
replay (modify change ∷ commands) resting = and_then (replace change resting) (replay commands)

-- The book after the calls shows the orders after the calls, and no trade was reported; or both do not end.
pub data Replays (spec : Option Resting) (r : Outcome (Trades × Orderbook)) : Type 0 where
  replays :
      (n : OrderPointer) (next : Orderbook) (resting : Resting)
      → spec ≡ some resting
      → r ≡ returned ([], next)
      → Faithful n next resting
      → Replays spec r
  runs_on : spec ≡ none → r ≡ out_of_fuel → Replays spec r

after_call :
    {n : OrderPointer} {spec : Option Resting} {r : Outcome (Trades × Orderbook)}
    (k : Resting → Option Resting) (l : Orderbook → Outcome (Trades × Orderbook))
    → Refines n spec r
    → ((next : Orderbook) (resting : Resting)
        → Faithful n next resting
        → Replays (k resting) (l next))
    → Replays
        (and_then spec k)
        (r >>= λ (trades, next). l next >>= λ (more, last). returned (trades ++ more, last))
after_call k l (diverges e h) later = rw (e, h) (runs_on refl refl)
after_call k l (implements next resting e h f) later =
    rw (e, h)
      (elim (later next resting f) [
        | replays m last resting' e' h' f' ↦ rw (e', h') (replays m last resting' refl refl f')
        | runs_on e' h' ↦ rw (e', h') (runs_on refl refl)
      ])

-- From a valid book that shows some resting orders on, any sequence of calls returns, without a trade and
-- in a valid book that shows what the specification makes of the orders, or does not end where the
-- specification has none.
pub run-Replays :
    (fuel : ℕ) (commands : List Command) (p : OrderPointer) (book : Orderbook) (resting : Resting)
    → Faithful p book resting
    → Replays (replay commands resting) (run (suc fuel) commands p book)
unfolding run
run-Replays fuel [] p book resting f = replays p book resting refl refl f
run-Replays fuel (add order ∷ commands) p book resting f =
    after_call (replay commands) (run (suc fuel) commands (suc p))
      (add_order-Refines fuel p book resting f order book.dangling_reads)
      (run-Replays fuel commands (suc p))
run-Replays fuel (cancel id ∷ commands) p book resting f =
    let (next, r, g) = cancel_order-Faithful fuel p book resting f id in
    rw r (run-Replays fuel commands p next (without_id id resting) g)
run-Replays fuel (modify change ∷ commands) p book resting f =
    after_call (replay commands) (run (suc fuel) commands (suc p))
      (modify_order-Refines fuel p book resting f change) (run-Replays fuel commands (suc p))

-- The new book shows no orders.
pub empty_orderbook-Faithful :
    (heap : Heap) (p : OrderPointer) → Faithful p (empty_orderbook heap) []
unfolding empty_orderbook lookup queue_at
empty_orderbook-Faithful heap p = record {
  valid = empty_orderbook-IsValid heap;
  below = λ s r a m. absurd (ground (arith, m, empty-IsUnused heap a s r));
  shows = record {
    queues = λ s r. rw (levels_of-empty heap s) refl;
    index = λ id. refl;
    distinct = tt;
    counted = refl;
  };
}
