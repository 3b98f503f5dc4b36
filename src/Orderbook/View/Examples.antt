-- ===== src/Orderbook/View/Examples.antt =====
-- Two books of Orderbook Server/orderbook.cpp that look alike, and instances of the theorems.
use simple_orderbook_v.Common.{suc, refl, List, [], ◌∷◌, pos, arith}
use simple_orderbook_v.Order.{Order, good_till_cancel, buy, sell}
use simple_orderbook_v.Levels.{OrderPointer}
use simple_orderbook_v.Index.{Heap, lookup, contains}
use simple_orderbook_v.Orderbook.{Orderbook, can_match, rest_order, empty_orderbook}
use simple_orderbook_v.Orderbook.Add.{rest_order-IsValid}
use simple_orderbook_v.Orderbook.Addresses.{Below-rest_order}
use simple_orderbook_v.Orderbook.Refinement.{Faithful}
use simple_orderbook_v.Orderbook.Replay.{Command, add, cancel, run, empty_orderbook-Faithful}
use simple_orderbook_v.Orderbook.Session.{empty_orderbook-IsValid}
use simple_orderbook_v.Orderbook.Shows.Rest.{rest_order-Shows}
use simple_orderbook_v.Orderbook.View.{HasView, Alike, run-Alike}
use mathlib.Core.Quot

abbrev bid : Order
bid = record {
  order_type = good_till_cancel;
  order_id = 1;
  side = buy;
  price = pos 100;
  initial_quantity = 10;
  remaining_quantity = 10;
}

-- The bid, which is at each address, rests in a book.
abbrev heap : Heap
heap p = bid

abbrev with_bid : OrderPointer → Orderbook
with_bid p = rest_order p (empty_orderbook heap)

with_bid-Faithful : (p : OrderPointer) → Faithful (suc p) (with_bid p) (bid ∷ [])
unfolding empty_orderbook contains lookup can_match
with_bid-Faithful p = record {
  valid = rest_order-IsValid p (empty_orderbook heap) (empty_orderbook-IsValid heap) refl refl refl;
  below =
      Below-rest_order p (empty_orderbook heap) (omega arith)
        (λ s r a m. omega (arith, (empty_orderbook-Faithful heap 0).below s r a m));
  shows = rest_order-Shows p (empty_orderbook heap) [] refl (empty_orderbook-Faithful heap 0).shows;
}

with_bid-HasView : (p : OrderPointer) → HasView (suc p) (with_bid p) (Quot.mk (bid ∷ []))
with_bid-HasView p = record { resting = bid ∷ []; faithful = with_bid-Faithful p; viewed = refl }

-- An ask above the bid, and the end of the bid.
abbrev commands : List Command
commands = add (record bid { order_id = 2; side = sell; price = pos 102 }) ∷ cancel 1 ∷ []

-- The two books have the bid at different addresses.
run-Alike_example : Alike (run 1 commands 2 (with_bid 1)) (run 1 commands 6 (with_bid 5))
run-Alike_example =
    run-Alike 0 commands 2 6 (with_bid 1) (with_bid 5) (Quot.mk (bid ∷ [])) (with_bid-HasView 1)
      (with_bid-HasView 5)
