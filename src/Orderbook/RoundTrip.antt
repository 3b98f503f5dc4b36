-- ===== src/Orderbook/RoundTrip.antt =====
-- `CancelOrder` of Orderbook Server/orderbook.cpp: its effect on a valid book, and that it undoes
-- `AddOrder`.
use simple_orderbook_v.Common.{ℕ, suc, ◌+◌, ◌≡◌, ◌∙◌, ◌≢◌, inl, inr, false, none, some, arith}
use simple_orderbook_v.Outcome.{returned, Returns, returns, Returns-returned, ◌>>=◌}
use simple_orderbook_v.Order.{Side, buy, sell, Price, OrderId, is_fill_and_kill}
use simple_orderbook_v.Levels.{OrderPointer, erase_node}
use simple_orderbook_v.Levels.Queue.{queue_at-removed_self, queue_at-removed_ne, removed-update}
use simple_orderbook_v.Index.{OrderEntry, entry, lookup, contains, erase_key}
use simple_orderbook_v.Index.Laws.{lookup-erase_key, length-erase_key}
use simple_orderbook_v.Orderbook.{Orderbook, cancel_order, can_match, add_order, rest_order, size}
use simple_orderbook_v.Orderbook.Invariant.{StrictOrder_of, levels_of, queue_of, IsValid}
use simple_orderbook_v.Orderbook.Rest.{
  side_cases, rest_order-IsIndexed, not-mem_of_not_contained, heap-rest_order, orders-rest_order,
  levels_of-rest_order, levels_of-rest_order_ne,
}
use simple_orderbook_v.Orderbook.Cancel.{
  cancelled, levels_of-cancelled, levels_of-cancelled_ne, heap-cancelled, orders-cancelled,
  dangling_reads-cancelled, cancel_order-some,
}
use simple_orderbook_v.Orderbook.Withdraw.{cancelled-IsValid}
use simple_orderbook_v.Orderbook.Add.{add_order_rests}

-- The book `after` is `book` less the order with the ID.
pub record IsWithout (id : OrderId) (e : OrderEntry) (book after : Orderbook) : Type 0 where
  pub valid : IsValid after
  pub gone : lookup id after.orders ≡ none
  pub kept : (j : OrderId) → j ≢ id → lookup j after.orders ≡ lookup j book.orders
  pub queue :
      queue_of after (book.heap e.order).side (book.heap e.order).price
      ≡ erase_node e.order (queue_of book (book.heap e.order).side (book.heap e.order).price)
  pub other_prices :
      (r : Price)
      → r ≢ (book.heap e.order).price
      → queue_of after (book.heap e.order).side r ≡ queue_of book (book.heap e.order).side r
  pub other_side : (s : Side) → s ≢ (book.heap e.order).side → levels_of after s ≡ levels_of book s
  pub orders_same : after.heap ≡ book.heap
  pub smaller : size book ≡ suc (size after)
  pub dangling : after.dangling_reads ≡ book.dangling_reads + 3

-- On a valid book `CancelOrder` with an ID of the index returns the valid book without that order: its
-- level keeps the other orders in their order, no other level and no other entry changes. Three reads
-- go through the reference to the entry that was erased before.
pub cancel_order_removes :
    (id : OrderId) (e : OrderEntry) (book : Orderbook)
    → IsValid book
    → lookup id book.orders ≡ some e
    → Returns (IsWithout id e book) (cancel_order id book)
unfolding size
cancel_order_removes id e book v found = rw (cancel_order-some id e book v.indexed found) (
    returns (record {
      valid = cancelled-IsValid id e book v found;
      gone =
          rw (orders-cancelled id e.order book)
            (ground (arith, lookup-erase_key id id book.orders v.indexed.keys));
      kept = λ j ne.
          rw (orders-cancelled id e.order book)
            (ground (arith, lookup-erase_key j id book.orders v.indexed.keys));
      queue =
          rw (levels_of-cancelled id e.order book)
            (queue_at-removed_self (StrictOrder_of _) _ e.order _ (v.indexed.sorted _));
      other_prices = λ r ne.
          rw (levels_of-cancelled id e.order book)
            (queue_at-removed_ne (StrictOrder_of _) _ e.order _ (v.indexed.sorted _) r ne);
      other_side = λ s ne. levels_of-cancelled_ne id e.order book s ne;
      orders_same = heap-cancelled id e.order book;
      smaller = rw (orders-cancelled id e.order book) (length-erase_key id book.orders e found);
      dangling = dangling_reads-cancelled id e.order book;
    }))

pub cancelled-IsWithout :
    (id : OrderId) (e : OrderEntry) (book : Orderbook)
    → IsValid book
    → lookup id book.orders ≡ some e
    → IsWithout id e book (cancelled id e.order book)
cancelled-IsWithout id e book v found =
    Returns-returned (cancel_order-some id e book v.indexed found)
      (cancel_order_removes id e book v found)

module _ (p : OrderPointer) (book : Orderbook) (v : IsValid book)
    (new : contains (book.heap p).order_id book.orders ≡ false) where
  -- The levels of a side are back as they were.
  levels-undone :
      (s : Side)
      → levels_of (cancelled (book.heap p).order_id p (rest_order p book)) s ≡ levels_of book s
  unfolding rest_order cancelled
  levels-undone s = elim (side_cases s (book.heap p).side) [
    | inl e ↦ rw e (
        rw (heap-rest_order p book) at
          (levels_of-cancelled (book.heap p).order_id p (rest_order p book))
        ∙ rw (levels_of-rest_order p book) (
            removed-update (StrictOrder_of _) _ p _ (v.indexed.sorted _)
              (not-mem_of_not_contained p book v.indexed new _ _) (v.indexed.full _)))
    | inr ne ↦
        levels_of-cancelled_ne (book.heap p).order_id p (rest_order p book) s
          (rw (heap-rest_order p book) ne)
        ∙ levels_of-rest_order_ne p book s ne
  ]

  orders-undone : (cancelled (book.heap p).order_id p (rest_order p book)).orders ≡ book.orders
  unfolding erase_key
  orders-undone =
      orders-cancelled (book.heap p).order_id p (rest_order p book)
      ∙ rw (orders-rest_order p book new) (ground arith)

  reads-undone : (rest_order p book).dangling_reads ≡ book.dangling_reads
  unfolding rest_order
  reads-undone = ground arith

  book-undone :
      cancelled (book.heap p).order_id p (rest_order p book)
      ≡ record book { dangling_reads = book.dangling_reads + 3 }
  book-undone = ground (
    arith,
    levels-undone buy,
    levels-undone sell,
    orders-undone,
    reads-undone,
    dangling_reads-cancelled (book.heap p).order_id p (rest_order p book),
    heap-cancelled (book.heap p).order_id p (rest_order p book),
    heap-rest_order p book,
  )

  -- On a valid book, adding a good-till-cancel order with a new ID that cannot match and cancelling it
  -- gives the book back, but for the count of dangling reads.
  pub cancel_order-add_order :
      (fuel : ℕ)
      → is_fill_and_kill (book.heap p).order_type ≡ false
      → can_match book (book.heap p).side (book.heap p).price ≡ false
      → (add_order (suc fuel) p book >>= λ (trades, b). cancel_order (book.heap p).order_id b)
        ≡ returned (record book { dangling_reads = book.dangling_reads + 3 })
  unfolding lookup
  cancel_order-add_order fuel k c = rw (
    add_order_rests p book v fuel new k c,
    cancel_order-some (book.heap p).order_id (entry p) (rest_order p book)
        (rest_order-IsIndexed p book v.indexed new)
        (rw (orders-rest_order p book new) (ground arith)),
    book-undone,
  )
