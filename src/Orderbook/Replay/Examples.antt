-- ===== src/Orderbook/Replay/Examples.antt =====
-- The book of Orderbook Server/orderbook.cpp beside its specification on small inputs.
use simple_orderbook_v.Orderbook.Observed.{get_order_infos-level_infos}
use simple_orderbook_v.Orderbook.Spec.Depth.{level_infos}
use simple_orderbook_v.Orderbook.{get_order_infos}
use simple_orderbook_v.Common.{ℕ, ◌≡◌, refl, List, [], ◌∷◌, pos, some}
use simple_orderbook_v.Order.{Order, good_till_cancel, Side, buy, sell, to_order}
use simple_orderbook_v.Index.{Heap, lookup, contains}
use simple_orderbook_v.Orderbook.{Orderbook, can_match, rest_order, empty_orderbook}
use simple_orderbook_v.Orderbook.Add.{rest_order-IsValid}
use simple_orderbook_v.Orderbook.Invariant.{IsValid}
use simple_orderbook_v.Orderbook.Meets.{can_match-meets_any}
use simple_orderbook_v.Orderbook.Replay.{
  Command, add, cancel, modify, replay, run, Replays, run-Replays, empty_orderbook-Faithful,
}
use simple_orderbook_v.Orderbook.Session.{empty_orderbook-IsValid}
use simple_orderbook_v.Orderbook.Shows.{Shows}
use simple_orderbook_v.Orderbook.Shows.Rest.{rest_order-Shows}
use simple_orderbook_v.Orderbook.Spec.{meets_any}

abbrev order : ℕ → Side → ℕ → ℕ → Order
order id s price quantity = record {
  order_type = good_till_cancel;
  order_id = id;
  side = s;
  price = pos price;
  initial_quantity = quantity;
  remaining_quantity = quantity;
}

-- A bid at 100 at each address.
abbrev heap : Heap
heap p = order p buy 100 10

abbrev empty : Orderbook
empty = empty_orderbook heap

-- A bid, an ask above it, a cheaper bid in its place, and the end of the ask.
abbrev commands : List Command
commands =
    add (order 7 buy 100 10)
    ∷ add (order 8 sell 102 5)
    ∷ modify (record { order_id = 7; price = pos 98; side = buy; quantity = 3 })
    ∷ cancel 8
    ∷ []

replayed_test : replay commands [] ≡ some (order 7 buy 98 3 ∷ [])
unfolding to_order
replayed_test = refl

run-Replays_example : Replays (replay commands []) (run 1 commands 0 empty)
run-Replays_example = run-Replays 0 commands 0 empty [] (empty_orderbook-Faithful heap 0)

abbrev with_bid : Orderbook
with_bid = rest_order 1 empty

with_bid-IsValid : IsValid with_bid
unfolding empty_orderbook contains lookup can_match
with_bid-IsValid = rest_order-IsValid 1 empty (empty_orderbook-IsValid heap) refl refl refl

with_bid-Shows : Shows with_bid (order 1 buy 100 10 ∷ [])
unfolding empty_orderbook contains lookup
with_bid-Shows = rest_order-Shows 1 empty [] refl (empty_orderbook-Faithful heap 0).shows

can_match-meets_any_example :
    can_match with_bid sell (pos 99) ≡ meets_any sell (pos 99) (order 1 buy 100 10 ∷ [])
can_match-meets_any_example =
    can_match-meets_any with_bid (order 1 buy 100 10 ∷ []) with_bid-IsValid.indexed with_bid-Shows
      sell (pos 99)

get_order_infos-level_infos_example :
    get_order_infos with_bid ≡ level_infos (order 1 buy 100 10 ∷ [])
get_order_infos-level_infos_example =
    get_order_infos-level_infos with_bid (order 1 buy 100 10 ∷ []) with_bid-IsValid.indexed
      with_bid-Shows
