-- ===== src/Orderbook/Last.antt =====
-- Where `AddOrder` of Orderbook Server/orderbook.cpp puts an order: `push_back` of its level.
use simple_orderbook_v.Common.{◌≡◌, ◌≢◌, ◌∙◌, refl, ap, false, [], ◌∷◌, ◌++◌, some, arith}
use simple_orderbook_v.Order.{Order, OrderId, Side, Price}
use simple_orderbook_v.Levels.{OrderPointer, OrderPointers, push_back}
use simple_orderbook_v.Levels.Laws.{queue_at-update_self, queue_at-update_ne}
use simple_orderbook_v.Index.{entry, lookup, contains}
use simple_orderbook_v.Orderbook.{Orderbook, rest_order}
use simple_orderbook_v.Orderbook.Invariant.{StrictOrder_of, levels_of, queue_of}
use simple_orderbook_v.Orderbook.Rest.{
  levels_of-rest_order, levels_of-rest_order_ne, heap-rest_order, orders-rest_order,
}

-- The book `after` is `book` with the order, at the address, last in the queue at its price.
pub record IsLast (p : OrderPointer) (order : Order) (book after : Orderbook) : Type 0 where
  pub stored : after.heap p ≡ order
  pub indexed : lookup order.order_id after.orders ≡ some (entry p)
  pub kept : (j : OrderId) → j ≢ order.order_id → lookup j after.orders ≡ lookup j book.orders
  pub queue :
      queue_of after order.side order.price ≡ queue_of book order.side order.price ++ (p ∷ [])
  pub other_prices :
      (r : Price) → r ≢ order.price → queue_of after order.side r ≡ queue_of book order.side r
  pub other_side : (s : Side) → s ≢ order.side → levels_of after s ≡ levels_of book s

push_back-append : (p : OrderPointer) (ps : OrderPointers) → push_back p ps ≡ ps ++ (p ∷ [])
unfolding push_back
push_back-append p [] = refl
push_back-append p (x ∷ ps) = ap (λ l. x ∷ l) (push_back-append p ps)

pub rest_order-IsLast :
    (p : OrderPointer) (book : Orderbook)
    → contains (book.heap p).order_id book.orders ≡ false
    → IsLast p (book.heap p) book (rest_order p book)
unfolding lookup
rest_order-IsLast p book new = record {
  stored = rw (heap-rest_order p book) refl;
  indexed = rw (orders-rest_order p book new) (ground arith);
  kept = λ j ne. rw (orders-rest_order p book new) (ground arith);
  queue =
      rw (levels_of-rest_order p book)
        (queue_at-update_self (StrictOrder_of _) _ (push_back p) _ ∙ push_back-append p _);
  other_prices = λ r ne.
      rw (levels_of-rest_order p book)
        (queue_at-update_ne (StrictOrder_of _) r _ (push_back p) _ ne);
  other_side = λ s ne. levels_of-rest_order_ne p book s ne;
}
