-- ===== src/Orderbook/Shows/Store.antt =====
-- A new order on the heap of the book of Orderbook Server/orderbook.cpp beside the resting orders that it shows.
use simple_orderbook_v.Common.{
  ◌≡◌, refl, ◌∙◌, inl, inr, false, [], ◌∷◌, map, ℕ, arith, Option-cases,
}
use simple_orderbook_v.Order.{Order, OrderId, Side, buy, sell, Price}
use simple_orderbook_v.Levels.{OrderPointer, OrderPointers, mem}
use simple_orderbook_v.Index.{Heap, lookup, write}
use simple_orderbook_v.Orderbook.{Orderbook}
use simple_orderbook_v.Orderbook.Invariant.{queue_of, IsIndexed}
use simple_orderbook_v.Orderbook.Modify.{IsUnused, store}
use simple_orderbook_v.Orderbook.Spec.{Resting, orders_at, with_id}
use simple_orderbook_v.Orderbook.Shows.{order_of, Shows}

map-write :
    (heap : Heap) (p : OrderPointer) (order : Order) (q : OrderPointers)
    → mem p q ≡ false
    → map (write heap p order) q ≡ map heap q
unfolding mem write
map-write heap p order [] h = refl
map-write heap p order (x ∷ q) h = ground (arith, h, map-write heap p order q)

-- An order that is new to the index and is put at an unused address.
module _ (p : OrderPointer) (order : Order) (reads : ℕ) (book : Orderbook) (resting : Resting)
    (v : IsIndexed book) (unused : IsUnused p book) (shows : Shows book resting) where
  stored : Orderbook
  stored = store p order reads book

  stored-queue :
      (s : Side) (r : Price) → map stored.heap (queue_of stored s r) ≡ orders_at s r resting
  unfolding stored
  stored-queue buy r = map-write book.heap p order _ (unused buy r) ∙ shows.queues buy r
  stored-queue sell r = map-write book.heap p order _ (unused sell r) ∙ shows.queues sell r

  stored-index : (id : OrderId) → order_of stored.heap (lookup id book.orders) ≡ with_id id resting
  unfolding stored write
  stored-index id = elim (Option-cases (lookup id book.orders)) [
    | inl none' ↦ rw none' (ground (arith, shows.index id, none'))
    | inr (e, found) ↦
        let rests = (v.entries id e found).rests in
        ground (
          arith,
          found,
          shows.index id,
          rests,
          unused (book.heap e.order).side (book.heap e.order).price,
        )
  ]

  pub store-Shows : Shows (store p order reads book) resting
  unfolding stored
  store-Shows = record {
    queues = stored-queue;
    index = stored-index;
    distinct = shows.distinct;
    counted = shows.counted;
  }
