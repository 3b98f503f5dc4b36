-- ===== src/Orderbook/Examples.antt =====
-- Runs of the book of Orderbook Server/orderbook.cpp on small inputs, and instances of the theorems.
use simple_orderbook_v.Common.{ℕ, ◌≡◌, refl, [], ◌∷◌, some, pos, arith, ◌==◌, if◌then◌else◌}
use simple_orderbook_v.Outcome.{returned, out_of_fuel, Returns, ◌>>=◌}
use simple_orderbook_v.Order.{
  Order, OrderType, good_till_cancel, fill_and_kill, Side, buy, sell, OrderModify, fill, is_filled,
}
use simple_orderbook_v.Levels.{update, push_back, find, mem}
use simple_orderbook_v.Levels.Laws.{queue_at}
use simple_orderbook_v.Index.{Heap, entry, lookup, contains, insert, erase_key, write}
use simple_orderbook_v.Matching.{Matching, match_front, match_queues, fill_at}
use simple_orderbook_v.Matching.Loop.{Apart, IsDone}
use simple_orderbook_v.Matching.Volume.{Conserved, match_queues-Conserved}
use simple_orderbook_v.Matching.Priority.{Prioritised, match_queues-Prioritised}
use simple_orderbook_v.Matching.Fills.{Filled, match_queues-Filled}
use simple_orderbook_v.Orderbook.{
  Orderbook, can_match, match_levels, kill_front, match_orders, rest_order, add_order, cancel_order,
  modify_order, empty_orderbook, size,
}
use simple_orderbook_v.Orderbook.Invariant.{IsValid}
use simple_orderbook_v.Orderbook.Add.{Addition, add_order_cases, rest_order-IsValid}
use simple_orderbook_v.Orderbook.Crossing.{Crosses, match_levels-Crosses}
use simple_orderbook_v.Orderbook.RoundTrip.{IsWithout, cancel_order_removes, cancel_order-add_order}
use simple_orderbook_v.Orderbook.Modify.{IsUnused, store, Modification, modify_order_cases}
use simple_orderbook_v.Orderbook.Session.{
  start, call, adds, Call, Reach-IsValid, empty_orderbook-IsValid, empty-IsUnused,
}

abbrev order : OrderType → ℕ → Side → ℕ → ℕ → Order
order t id s price quantity = record {
  order_type = t;
  order_id = id;
  side = s;
  price = pos price;
  initial_quantity = quantity;
  remaining_quantity = quantity;
}

-- A bid at 100, an ask at 102, an ask at 99, and at each other address a fill-and-kill ask.
abbrev heap : Heap
heap p =
    if p == 1
    then order good_till_cancel 1 buy 100 10
    else if p == 2
    then order good_till_cancel 2 sell 102 5
    else if p == 3
    then order good_till_cancel 3 sell 99 4
    else order fill_and_kill p sell 105 7

abbrev empty : Orderbook
empty = empty_orderbook heap

abbrev with_bid : Orderbook
with_bid = rest_order 1 empty

with_bid-IsValid : IsValid with_bid
unfolding empty_orderbook contains lookup can_match
with_bid-IsValid = rest_order-IsValid 1 empty (empty_orderbook-IsValid heap) refl refl refl

-- The bid rests, and is counted.
size_example : size with_bid ≡ 1
unfolding size empty_orderbook rest_order insert contains lookup
size_example = refl

-- An ask at 102 rests beside the bid.
add_order_cases_example : Addition 2 with_bid with_bid-IsValid (add_order 1 2 with_bid)
add_order_cases_example = add_order_cases 2 with_bid with_bid-IsValid 0

add_order_rests_test : add_order 1 2 with_bid ≡ returned ([], rest_order 2 with_bid)
unfolding add_order match_orders match_levels kill_front can_match contains lookup rest_order insert
    update push_back empty_orderbook
add_order_rests_test = refl

-- An ask at 99 meets the bid: the loop is still running after a hundred passes.
add_order_endless_test : add_order 100 3 with_bid ≡ out_of_fuel
unfolding add_order match_orders match_levels match_queues match_front fill_at fill is_filled write
    erase_key kill_front can_match contains lookup rest_order insert update push_back
    empty_orderbook
add_order_endless_test = refl

cancel_order_removes_example : Returns (IsWithout 1 (entry 1) with_bid) (cancel_order 1 with_bid)
unfolding empty_orderbook rest_order insert contains lookup
cancel_order_removes_example = cancel_order_removes 1 (entry 1) with_bid with_bid-IsValid refl

cancel_order-add_order_example :
    (add_order 1 2 with_bid >>= λ (trades, b). cancel_order 2 b)
    ≡ returned (record with_bid { dangling_reads = 3 })
unfolding empty_orderbook rest_order insert contains lookup can_match update push_back
cancel_order-add_order_example = cancel_order-add_order 2 with_bid with_bid-IsValid refl 0 refl refl

abbrev cheaper : OrderModify
cheaper = record { order_id = 1; price = pos 98; side = buy; quantity = 3 }

bid_found : lookup 1 with_bid.orders ≡ some (entry 1)
unfolding empty_orderbook rest_order insert contains lookup
bid_found = refl

unused_9 : IsUnused 9 with_bid
unfolding empty_orderbook rest_order update push_back queue_at find mem
unused_9 buy r = ground arith
unused_9 sell r = refl

-- The modified order is put at address 9.
modify_order_cases_example :
    Modification 9 cheaper
      (entry 1)
      with_bid
      with_bid-IsValid
      bid_found
      unused_9
      (modify_order 1 9 cheaper with_bid)
modify_order_cases_example =
    modify_order_cases 9 cheaper (entry 1) with_bid with_bid-IsValid bid_found unused_9 0

-- Two bids at one price, against an ask at address 3.
abbrev crossed : Matching
crossed = record {
  heap = heap;
  orders = (1, entry 1) ∷ (3, entry 3) ∷ [];
  bids = 1 ∷ [];
  asks = 3 ∷ 5 ∷ [];
  trades = [];
}

crossed-Apart : Apart (1 ∷ []) (3 ∷ 5 ∷ [])
unfolding mem
crossed-Apart = record {
  bids_distinct = (refl, tt);
  asks_distinct = (refl, (refl, tt));
  no_common = (refl, tt);
}

match_queues-Conserved_example :
    Returns (λ m'. Conserved crossed m' × IsDone m') (match_queues 4 crossed)
match_queues-Conserved_example = match_queues-Conserved 4 crossed crossed-Apart (omega arith)

match_queues-Prioritised_example :
    Returns (λ m'. Prioritised crossed m' × IsDone m') (match_queues 4 crossed)
match_queues-Prioritised_example = match_queues-Prioritised 4 crossed crossed-Apart (omega arith)

-- The bid at 100 against the ask at 99 alone.
abbrev pair : Matching
pair = record crossed { asks = 3 ∷ [] }

pair-Apart : Apart (1 ∷ []) (3 ∷ [])
unfolding mem
pair-Apart = record {
  bids_distinct = (refl, tt);
  asks_distinct = (refl, tt);
  no_common = (refl, tt);
}

match_queues-Filled_example :
    Returns (λ m'. Filled (pos 100) (pos 99) pair m' × IsDone m') (match_queues 3 pair)
match_queues-Filled_example =
    match_queues-Filled (pos 100) (pos 99) 3 pair pair-Apart (omega arith) (refl, omega arith, tt)
      (refl, omega arith, tt)

abbrev crossed_book : Orderbook
crossed_book = record with_bid { asks = (pos 99, 3 ∷ []) ∷ [] }

crossed_book-Crosses : Crosses crossed_book
unfolding empty_orderbook rest_order update push_back
crossed_book-Crosses = record {
  bid_price = pos 100;
  ask_price = pos 99;
  best_bids = 1 ∷ [];
  best_asks = 3 ∷ [];
  more_bids = [];
  more_asks = [];
  bids = refl;
  asks = refl;
  crossed = refl;
  apart = pair-Apart;
}

match_levels-Crosses_example : match_levels 7 crossed_book [] ≡ out_of_fuel
match_levels-Crosses_example = match_levels-Crosses 7 crossed_book [] crossed_book-Crosses

abbrev first_store : Orderbook
first_store = store 1 (order good_till_cancel 1 buy 100 10) 0 empty

-- The bid is added at address 1.
first-Call : Call empty [] (rest_order 1 first_store)
unfolding add_order match_orders match_levels kill_front contains lookup rest_order insert update
    push_back empty_orderbook write
first-Call = adds 0 1 (order good_till_cancel 1 buy 100 10) (empty-IsUnused heap 1) refl

Reach-IsValid_example : IsValid (rest_order 1 first_store)
Reach-IsValid_example = Reach-IsValid (call [] start first-Call)
