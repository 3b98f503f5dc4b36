-- ===== src/Orderbook/Shows/Cancel.antt =====
-- The cancellation of an order of the book of Orderbook Server/orderbook.cpp beside the resting orders that it shows.
use simple_orderbook_v.Common.{
  ◌≡◌, refl, sym, ap, ◌∙◌, ◌≢◌, inl, inr, true, Bool-cases, some, [], ◌∷◌, map, ◌==◌, arith,
}
use simple_orderbook_v.Order.{OrderId, Side, Price}
use simple_orderbook_v.Levels.{OrderPointer, OrderPointers, mem, erase_node}
use simple_orderbook_v.Levels.Queue.{Distinct, queue_at-removed_self, queue_at-removed_ne}
use simple_orderbook_v.Levels.Members.{eq_or_ne}
use simple_orderbook_v.Index.{Heap, OrderEntry, lookup}
use simple_orderbook_v.Index.Laws.{length-erase_key, lookup-erase_key}
use simple_orderbook_v.Orderbook.{Orderbook}
use simple_orderbook_v.Orderbook.Invariant.{StrictOrder_of, levels_of, queue_of, IsIndexed}
use simple_orderbook_v.Orderbook.Rest.{side_cases}
use simple_orderbook_v.Orderbook.Cancel.{
  cancelled, levels_of-cancelled, levels_of-cancelled_ne, heap-cancelled, orders-cancelled,
}
use simple_orderbook_v.Orderbook.Spec.{
  without_id-DistinctIds, length-without_id, Resting, with_id, without_id, orders_at-without_id,
  with_id-without_id,
}
use simple_orderbook_v.Orderbook.Shows.{order_of, Shows}

map-without_id :
    (heap : Heap) (id : OrderId) (q : OrderPointers)
    → ((a : OrderPointer) → mem a q ≡ true → (heap a).order_id ≢ id)
    → without_id id (map heap q) ≡ map heap q
unfolding mem
map-without_id heap id [] h = refl
map-without_id heap id (x ∷ q) h =
    ground (arith, h x (ground arith), map-without_id heap id q (λ a m. h a (ground (arith, m))))

-- The node that is erased from a queue is that of the only order in it with the ID.
map-erase_node :
    (heap : Heap) (id : OrderId) (p : OrderPointer) (q : OrderPointers)
    → Distinct q
    → ((a : OrderPointer) → mem a q ≡ true → (heap a).order_id ≡ id → a ≡ p)
    → (heap p).order_id ≡ id
    → map heap (erase_node p q) ≡ without_id id (map heap q)
unfolding mem erase_node
map-erase_node heap id p [] d only has = refl
map-erase_node heap id p (x ∷ q) d only has =
    let later = map-erase_node heap id p q d.1 (λ a m k. only a (ground (arith, m)) k) has in
    elim (Bool-cases (p == x)) [
      | inl e ↦
          let gone =
            map-without_id heap id q
              (λ a m k. ground (arith, e, d.0, m, only a (ground (arith, m)) k)) in
          ground (arith, e, has, gone)
      | inr e ↦ ground (arith, e, later, only x (ground arith), has)
    ]

module _ (id : OrderId) (e : OrderEntry) (book : Orderbook) (resting : Resting) (v : IsIndexed book)
    (found : lookup id book.orders ≡ some e) (shows : Shows book resting) where
  p : OrderPointer
  p = e.order

  only :
      (s : Side) (r : Price) (a : OrderPointer)
      → mem a (queue_of book s r) ≡ true
      → (book.heap a).order_id ≡ id
      → a ≡ p
  unfolding p
  only s r a m k = ground (arith, (v.at s r a m).indexed, k, found)

  cancelled-queue_here :
      map book.heap (queue_of (cancelled id p book) (book.heap p).side (book.heap p).price)
      ≡ without_id id (map book.heap (queue_of book (book.heap p).side (book.heap p).price))
  unfolding p
  cancelled-queue_here =
      rw
        (
          levels_of-cancelled id p book,
          queue_at-removed_self (StrictOrder_of (book.heap p).side) (book.heap p).price p
              (levels_of book (book.heap p).side) (v.sorted (book.heap p).side),
        )
        (map-erase_node book.heap id p (queue_of book (book.heap p).side (book.heap p).price)
          (v.distinct (book.heap p).side (book.heap p).price)
          (only (book.heap p).side (book.heap p).price) (v.entries id e found).order_id)

  -- Elsewhere no order has the ID.
  elsewhere :
      (s : Side) (r : Price)
      → ((s ≡ (book.heap p).side) → (r ≡ (book.heap p).price) → ⊥)
      → without_id id (map book.heap (queue_of book s r)) ≡ map book.heap (queue_of book s r)
  unfolding p
  elsewhere s r apart = map-without_id book.heap id (queue_of book s r) (λ a m k.
      let same = only s r a m k in
      let at = v.at s r a m in apart (rw same at (sym at.side)) (rw same at (sym at.at_price)))

  cancelled-queue :
      (s : Side) (r : Price)
      → map book.heap (queue_of (cancelled id p book) s r)
        ≡ without_id id (map book.heap (queue_of book s r))
  unfolding p
  cancelled-queue s r = elim (side_cases s (book.heap p).side) [
    | inl k ↦ elim (eq_or_ne (StrictOrder_of (book.heap p).side) r (book.heap p).price) [
      | inl l ↦ rw (k, l) cancelled-queue_here
      | inr ne ↦
          let none_here = elsewhere s r (λ _ l. ne l) in
          rw
            (
              k,
              levels_of-cancelled id p book,
              queue_at-removed_ne (StrictOrder_of (book.heap p).side) (book.heap p).price p
                  (levels_of book (book.heap p).side) (v.sorted (book.heap p).side) r ne,
            )
            (rw k at (sym none_here))
    ]
    | inr ne ↦ rw (levels_of-cancelled_ne id p book s ne) (sym (elsewhere s r (λ k _. ne k)))
  ]

  cancelled-index :
      (j : OrderId)
      → order_of book.heap (lookup j (cancelled id p book).orders)
        ≡ with_id j (without_id id resting)
  cancelled-index j =
      rw
        (
          orders-cancelled id p book,
          lookup-erase_key j id book.orders v.keys,
          with_id-without_id j id resting,
        )
        (ground (arith, shows.index j))

  resting_one : with_id id resting ≡ some (book.heap e.order)
  resting_one = sym (shows.index id) ∙ ap (order_of book.heap) found

  pub cancelled-Shows : Shows (cancelled id e.order book) (without_id id resting)
  unfolding p
  cancelled-Shows = record {
    queues = λ s r.
        rw (heap-cancelled id p book, orders_at-without_id s r id resting, ← shows.queues s r)
          (cancelled-queue s r);
    index = λ j. rw (heap-cancelled id p book) (cancelled-index j);
    distinct = without_id-DistinctIds id resting shows.distinct;
    counted = rw (orders-cancelled id p book) (
        omega (
          arith,
          shows.counted,
          length-erase_key id book.orders e found,
          length-without_id id resting (book.heap e.order) shows.distinct resting_one,
        ));
  }
