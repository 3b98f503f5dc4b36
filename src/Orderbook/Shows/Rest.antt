-- ===== src/Orderbook/Shows/Rest.antt =====
-- An order that comes to rest in a level of the book of Orderbook Server/orderbook.cpp beside the resting orders that it shows.
use simple_orderbook_v.Common.{
  length-append, none, ◌≡◌, refl, sym, ap, ◌≢◌, inl, inr, true, false, Bool-cases, [], ◌∷◌, ◌++◌,
  map, eqb_ℤ, eqb_ℤ_refl, eqb_ℤ_eq, arith,
}
use simple_orderbook_v.Order.{Order, OrderId, Side, buy, sell, Price}
use simple_orderbook_v.Levels.{OrderPointer, OrderPointers, push_back}
use simple_orderbook_v.Levels.Laws.{queue_at-update_self, queue_at-update_ne}
use simple_orderbook_v.Levels.Members.{eq_or_ne}
use simple_orderbook_v.Index.{Heap, lookup, contains}
use simple_orderbook_v.Index.Laws.{contains-none}
use simple_orderbook_v.Orderbook.{Orderbook, rest_order}
use simple_orderbook_v.Orderbook.Invariant.{StrictOrder_of, levels_of, queue_of}
use simple_orderbook_v.Orderbook.Rest.{
  levels_of-rest_order, levels_of-rest_order_ne, heap-rest_order, orders-rest_order, side_cases,
}
use simple_orderbook_v.Orderbook.Spec.{
  append-DistinctIds, Resting, same_side, orders_at, with_id, orders_at-append, with_id-append,
}
use mathlib.Core.List.{append-nil}
use simple_orderbook_v.Orderbook.Shows.{order_of, Shows}

map-push_back :
    (heap : Heap) (p : OrderPointer) (q : OrderPointers)
    → map heap (push_back p q) ≡ map heap q ++ (heap p ∷ [])
unfolding push_back
map-push_back heap p [] = refl
map-push_back heap p (x ∷ q) = ap (λ l. heap x ∷ l) (map-push_back heap p q)

same_side_refl : (s : Side) → same_side s s ≡ true
same_side_refl buy = refl
same_side_refl sell = refl

same_side-ne : (s t : Side) → s ≢ t → same_side t s ≡ false
same_side-ne buy buy h = absurd (h refl)
same_side-ne buy sell h = refl
same_side-ne sell buy h = refl
same_side-ne sell sell h = absurd (h refl)

eqb_ℤ-ne : (a b : Price) → b ≢ a → eqb_ℤ a b ≡ false
eqb_ℤ-ne a b h = elim (Bool-cases (eqb_ℤ a b)) [
  | inl e ↦ absurd (h (sym (eqb_ℤ_eq a b e)))
  | inr e ↦ e
]

-- An order that comes to rest is the last to arrive.
module _ (p : OrderPointer) (book : Orderbook) (resting : Resting)
    (new : contains (book.heap p).order_id book.orders ≡ false) (shows : Shows book resting) where
  order : Order
  order = book.heap p

  rest-queue_here :
      map book.heap (queue_of (rest_order p book) order.side order.price)
      ≡ orders_at order.side order.price (resting ++ (order ∷ []))
  unfolding order
  rest-queue_here =
      rw
        (
          levels_of-rest_order p book,
          queue_at-update_self (StrictOrder_of order.side) order.price (push_back p)
              (levels_of book order.side),
          map-push_back book.heap p (queue_of book order.side order.price),
          shows.queues order.side order.price,
          orders_at-append order.side order.price resting (order ∷ []),
          same_side_refl order.side,
          eqb_ℤ_refl order.price,
        )
        refl

  rest-queue :
      (s : Side) (r : Price)
      → map book.heap (queue_of (rest_order p book) s r) ≡ orders_at s r (resting ++ (order ∷ []))
  unfolding order
  rest-queue s r = elim (side_cases s order.side) [
    | inl e ↦ elim (eq_or_ne (StrictOrder_of order.side) r order.price) [
      | inl k ↦ rw (e, k) rest-queue_here
      | inr ne ↦
          rw
            (
              e,
              levels_of-rest_order p book,
              queue_at-update_ne (StrictOrder_of order.side) r order.price (push_back p)
                  (levels_of book order.side) ne,
              shows.queues order.side r,
              orders_at-append order.side r resting (order ∷ []),
              same_side_refl order.side,
              eqb_ℤ-ne order.price r ne,
            )
            (sym (append-nil _))
    ]
    | inr ne ↦
        rw
          (
            levels_of-rest_order_ne p book s ne,
            shows.queues s r,
            orders_at-append s r resting (order ∷ []),
            same_side-ne s order.side ne,
          )
          (sym (append-nil _))
  ]

  rest-index :
      (id : OrderId)
      → order_of book.heap (lookup id (rest_order p book).orders)
        ≡ with_id id (resting ++ (order ∷ []))
  unfolding order lookup
  rest-index id =
      rw (orders-rest_order p book new, with_id-append id resting order)
        (ground (
          arith,
          shows.index id,
          shows.index order.order_id,
          contains-none order.order_id book.orders new,
        ))

  unknown : with_id order.order_id resting ≡ none
  unfolding order
  unknown = ground (arith, shows.index order.order_id, contains-none order.order_id book.orders new)

  pub rest_order-Shows : Shows (rest_order p book) (resting ++ (book.heap p ∷ []))
  unfolding order
  rest_order-Shows = record {
    queues = λ s r. rw (heap-rest_order p book) (rest-queue s r);
    index = λ id. rw (heap-rest_order p book) (rest-index id);
    distinct = append-DistinctIds order resting unknown shows.distinct;
    counted =
        rw (orders-rest_order p book new, length-append resting (order ∷ []))
          (omega (arith, shows.counted));
  }
