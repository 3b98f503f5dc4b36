-- ===== src/Orderbook/Cancel.antt =====
-- `CancelOrder` of Orderbook Server/orderbook.cpp on a book whose index and levels agree.
use simple_orderbook_v.Common.{◌+◌, ◌≡◌, refl, sym, ap, ◌≢◌, inl, inr, true, none, some, arith}
use simple_orderbook_v.Outcome.{returned}
use simple_orderbook_v.Order.{Side, buy, sell, Price, OrderId}
use simple_orderbook_v.Levels.{OrderPointer, greater, less, mem}
use simple_orderbook_v.Levels.Laws.{IsSorted, NonEmpty}
use simple_orderbook_v.Levels.Queue.{
  Distinct, removed, remove_lem, removed-IsSorted, removed-NonEmpty,
}
use simple_orderbook_v.Levels.Members.{mem-removed, mem-removed_old, removed-Distinct}
use simple_orderbook_v.Index.{OrderEntry, lookup, erase_key}
use simple_orderbook_v.Index.Laws.{lookup-erase_key, erase_key-DistinctKeys}
use simple_orderbook_v.Orderbook.{Orderbook, cancel_order}
use simple_orderbook_v.Orderbook.Invariant.{
  before_of, StrictOrder_of, levels_of, queue_of, IsAt, IsEntry, IsIndexed,
}
use simple_orderbook_v.Orderbook.Rest.{side_cases}

-- The book without the order of an entry, after three reads of the erased entry.
unfoldable pub cancelled : OrderId → OrderPointer → Orderbook → Orderbook
cancelled id p book = elim (book.heap p).side [
  | buy ↦ record book {
    bids = removed greater (book.heap p).price p book.bids;
    orders = erase_key id book.orders;
    dangling_reads = book.dangling_reads + 3;
  }
  | sell ↦ record book {
    asks = removed less (book.heap p).price p book.asks;
    orders = erase_key id book.orders;
    dangling_reads = book.dangling_reads + 3;
  }
]

module _ (id : OrderId) (p : OrderPointer) (book : Orderbook) where
  pub levels_of-cancelled :
      levels_of (cancelled id p book) (book.heap p).side
      ≡ removed
          (before_of (book.heap p).side)
          (book.heap p).price
          p
          (levels_of book (book.heap p).side)
  unfolding cancelled
  levels_of-cancelled = ground arith

  pub levels_of-cancelled_ne :
      (s : Side) → s ≢ (book.heap p).side → levels_of (cancelled id p book) s ≡ levels_of book s
  unfolding cancelled
  levels_of-cancelled_ne s h = ground arith

  pub heap-cancelled : (cancelled id p book).heap ≡ book.heap
  unfolding cancelled
  heap-cancelled = ground arith

  pub orders-cancelled : (cancelled id p book).orders ≡ erase_key id book.orders
  unfolding cancelled
  orders-cancelled = ground arith

  pub dangling_reads-cancelled : (cancelled id p book).dangling_reads ≡ book.dangling_reads + 3
  unfolding cancelled
  dangling_reads-cancelled = ground arith

-- An ID that is not in the index is ignored.
pub cancel_order-none :
    (id : OrderId) (book : Orderbook)
    → lookup id book.orders ≡ none
    → cancel_order id book ≡ returned book
unfolding cancel_order
cancel_order-none id book h = ground arith

module _ (id : OrderId) (e : OrderEntry) (book : Orderbook) (v : IsIndexed book)
    (found : lookup id book.orders ≡ some e) where
  here : IsEntry book id e
  here = v.entries id e found

  cancel_side :
      (s : Side)
      → (book.heap e.order).side ≡ s
      → mem e.order (queue_of book s (book.heap e.order).price) ≡ true
      → cancel_order id book ≡ returned (cancelled id e.order book)
  unfolding cancel_order cancelled
  cancel_side buy k m = ground (
    arith,
    found,
    here.location,
    k,
    remove_lem greater (book.heap e.order).price e.order book.bids m,
  )
  cancel_side sell k m = ground (
    arith,
    found,
    here.location,
    k,
    remove_lem less (book.heap e.order).price e.order book.asks m,
  )

  -- The entry leads to the order in its level, so the call returns.
  pub cancel_order-some : cancel_order id book ≡ returned (cancelled id e.order book)
  cancel_order-some = cancel_side (book.heap e.order).side refl here.rests

  -- The order is out of the levels, and no other.
  pub mem-cancelled :
      (s : Side) (r : Price) (a : OrderPointer)
      → mem a (queue_of (cancelled id e.order book) s r) ≡ true
      → (mem a (queue_of book s r) ≡ true) × (a ≢ e.order)
  mem-cancelled s r a = elim (side_cases s (book.heap e.order).side) [
    | inl k ↦
        rw (k, levels_of-cancelled id e.order book)
          (λ m.
            let (old, out) =
              mem-removed (StrictOrder_of _) e.order _ _ (v.sorted _) (v.distinct _ _) a r m in
            (old, λ x. out x (rw x at (sym (v.at _ r a old).at_price))))
    | inr ne ↦
        rw (levels_of-cancelled_ne id e.order book s ne)
          (λ m. (m, λ x. ne (rw x at (sym (v.at s r a m).side))))
  ]

  pub mem-cancelled_old :
      (s : Side) (r : Price) (a : OrderPointer)
      → mem a (queue_of book s r) ≡ true
      → a ≢ e.order
      → mem a (queue_of (cancelled id e.order book) s r) ≡ true
  mem-cancelled_old s r a = elim (side_cases s (book.heap e.order).side) [
    | inl k ↦
        rw (k, levels_of-cancelled id e.order book)
          (mem-removed_old (StrictOrder_of _) e.order _ _ (v.sorted _) (v.distinct _ _) a r)
    | inr ne ↦ rw (levels_of-cancelled_ne id e.order book s ne) (λ m _. m)
  ]

  cancel-IsSorted : (s : Side) → IsSorted (before_of s) (levels_of (cancelled id e.order book) s)
  cancel-IsSorted s = elim (side_cases s (book.heap e.order).side) [
    | inl k ↦
        rw (k, levels_of-cancelled id e.order book)
          (removed-IsSorted (StrictOrder_of _) _ e.order _ (v.sorted _))
    | inr ne ↦ rw (levels_of-cancelled_ne id e.order book s ne) (v.sorted s)
  ]

  cancel-NonEmpty : (s : Side) → NonEmpty (levels_of (cancelled id e.order book) s)
  cancel-NonEmpty s = elim (side_cases s (book.heap e.order).side) [
    | inl k ↦
        rw (k, levels_of-cancelled id e.order book)
          (removed-NonEmpty (StrictOrder_of _) _ e.order _ (v.sorted _) here.rests (v.full _))
    | inr ne ↦ rw (levels_of-cancelled_ne id e.order book s ne) (v.full s)
  ]

  cancel-Distinct : (s : Side) (r : Price) → Distinct (queue_of (cancelled id e.order book) s r)
  cancel-Distinct s r = elim (side_cases s (book.heap e.order).side) [
    | inl k ↦
        rw (k, levels_of-cancelled id e.order book)
          (removed-Distinct (StrictOrder_of _) e.order _ _ (v.sorted _) (v.distinct _ _) r
            (v.distinct _ _))
    | inr ne ↦ rw (levels_of-cancelled_ne id e.order book s ne) (v.distinct s r)
  ]

  cancel-IsAt :
      (s : Side) (r : Price) (a : OrderPointer)
      → mem a (queue_of (cancelled id e.order book) s r) ≡ true
      → IsAt (cancelled id e.order book) s r a
  cancel-IsAt s r a m =
      let (old, ne) = mem-cancelled s r a m in
      let b = v.at s r a old in
      record {
        side = rw (heap-cancelled id e.order book) b.side;
        at_price = rw (heap-cancelled id e.order book) b.at_price;
        indexed =
            rw (heap-cancelled id e.order book, orders-cancelled id e.order book)
              (ground (
                arith,
                b.indexed,
                found,
                ne,
                lookup-erase_key (book.heap a).order_id id book.orders v.keys,
              ));
      }

  cancel-IsEntry :
      (j : OrderId) (e' : OrderEntry)
      → lookup j (cancelled id e.order book).orders ≡ some e'
      → IsEntry (cancelled id e.order book) j e'
  cancel-IsEntry j e' h =
      let k = rw (orders-cancelled id e.order book) at h in
      let old : lookup j book.orders ≡ some e' =
        ground (arith, k, lookup-erase_key j id book.orders v.keys) in
      let b = v.entries j e' old in
      record {
        location = b.location;
        order_id = rw (heap-cancelled id e.order book) b.order_id;
        rests = rw (heap-cancelled id e.order book) (
            mem-cancelled_old _ _ e'.order b.rests (λ x. ground (
              arith,
              k,
              lookup-erase_key j id book.orders v.keys,
              ap (λ (q : OrderPointer). (book.heap q).order_id) x,
              b.order_id,
              here.order_id,
            )));
      }

  pub cancelled-IsIndexed : IsIndexed (cancelled id e.order book)
  cancelled-IsIndexed = record {
    sorted = cancel-IsSorted;
    full = cancel-NonEmpty;
    distinct = cancel-Distinct;
    keys = rw (orders-cancelled id e.order book) (erase_key-DistinctKeys id book.orders v.keys);
    at = cancel-IsAt;
    entries = cancel-IsEntry;
  }
