-- ===== src/Orderbook/Modify.antt =====
-- `MatchOrder` of Orderbook Server/orderbook.cpp, which modifies an order: the order is cancelled, and
-- a new order with the old one's type is added.
use simple_orderbook_v.Common.{
  ℕ, suc, ◌+◌, ◌≡◌, ◌∙◌, refl, inl, inr, true, false, [], none, some, arith, Bool-cases,
}
use simple_orderbook_v.Outcome.{Outcome, returned, out_of_fuel}
use simple_orderbook_v.Order.{Order, OrderId, OrderModify, Side, Price, is_fill_and_kill, to_order}
use simple_orderbook_v.Levels.{OrderPointer, mem}
use simple_orderbook_v.Index.{OrderEntry, lookup, contains, write}
use simple_orderbook_v.Index.Laws.{lookup-erase_key}
use simple_orderbook_v.Matching.{Trades}
use simple_orderbook_v.Orderbook.{Orderbook, can_match, rest_order, add_order, modify_order}
use simple_orderbook_v.Orderbook.Invariant.{levels_of, queue_of, IsAt, IsEntry, IsIndexed, IsValid}
use simple_orderbook_v.Orderbook.Cancel.{
  cancelled, cancel_order-some, heap-cancelled, orders-cancelled, mem-cancelled,
}
use simple_orderbook_v.Orderbook.Withdraw.{cancelled-IsValid}
use simple_orderbook_v.Orderbook.Add.{Addition, add_order_cases}
use simple_orderbook_v.Orderbook.Last.{IsLast, rest_order-IsLast}
use simple_orderbook_v.Orderbook.RoundTrip.{IsWithout, cancelled-IsWithout}

-- No level holds the address.
abbrev pub IsUnused : OrderPointer → Orderbook → Type 0
IsUnused p book = (s : Side) (r : Price) → mem p (queue_of book s r) ≡ false

-- An order at an unused address leaves a valid book as it is.
abbrev pub store : OrderPointer → Order → ℕ → Orderbook → Orderbook
store p order reads book = record book { heap = write book.heap p order; dangling_reads = reads }

module _ (p : OrderPointer) (order : Order) (reads : ℕ) (book : Orderbook)
    (unused : IsUnused p book) where
  abbrev with_order : Orderbook
  with_order = store p order reads book

  same_order :
      (s : Side) (r : Price) (a : OrderPointer)
      → mem a (queue_of book s r) ≡ true
      → write book.heap p order a ≡ book.heap a
  unfolding write
  same_order s r a m = ground (arith, unused s r)

  pub levels_of-store : (s : Side) → levels_of (store p order reads book) s ≡ levels_of book s
  levels_of-store Side.buy = refl
  levels_of-store Side.sell = refl

  with_order-IsAt :
      IsIndexed book
      → (s : Side) (r : Price) (a : OrderPointer) → mem a (queue_of with_order s r) ≡ true
      → IsAt with_order s r a
  with_order-IsAt v s r a m =
      let m' = rw (levels_of-store s) at m in
      let b = v.at s r a m' in
      record {
        side = rw (same_order s r a m') b.side;
        at_price = rw (same_order s r a m') b.at_price;
        indexed = rw (same_order s r a m') b.indexed;
      }

  with_order-IsEntry :
      IsIndexed book
      → (id : OrderId) (e : OrderEntry) → lookup id book.orders ≡ some e
      → IsEntry with_order id e
  with_order-IsEntry v id e h =
      let b = v.entries id e h in
      let same = same_order _ _ e.order b.rests in
      record {
        location = b.location;
        order_id = rw same b.order_id;
        rests = rw (same, levels_of-store (book.heap e.order).side) b.rests;
      }

  with_order-IsIndexed : IsIndexed book → IsIndexed with_order
  with_order-IsIndexed v = record {
    sorted = λ s. rw (levels_of-store s) (v.sorted s);
    full = λ s. rw (levels_of-store s) (v.full s);
    distinct = λ s r. rw (levels_of-store s) (v.distinct s r);
    keys = v.keys;
    at = with_order-IsAt v;
    entries = with_order-IsEntry v;
  }

  -- The order then rests last in its queue.
  pub store-IsLast :
      contains order.order_id book.orders ≡ false
      → IsLast p order book (rest_order p (store p order reads book))
  unfolding write
  store-IsLast new =
      let same : with_order.heap p ≡ order = ground arith in
      let last = rw same at (rest_order-IsLast p with_order (rw same new)) in
      record {
        stored = last.stored;
        indexed = last.indexed;
        kept = last.kept;
        queue = rw (levels_of-store order.side) at last.queue;
        other_prices = rw (levels_of-store order.side) at last.other_prices;
        other_side = λ s ne. last.other_side s ne ∙ levels_of-store s;
      }

  pub store-IsValid : IsValid book → IsValid (store p order reads book)
  store-IsValid v = record {
    indexed = with_order-IsIndexed v.indexed;
    uncrossed = v.uncrossed;
    resting = λ s r a m.
        let m' = rw (levels_of-store s) at m in rw (same_order s r a m') (v.resting s r a m');
  }

module _ (fresh : OrderPointer) (modify : OrderModify) (e : OrderEntry) (book : Orderbook)
    (v : IsValid book) (found : lookup modify.order_id book.orders ≡ some e)
    (unused : IsUnused fresh book) where
  -- The book that the new order is added to: without the old one, after four dangling reads.
  abbrev pub prepared : Orderbook
  prepared =
      store fresh (to_order modify (book.heap e.order).order_type)
        ((cancelled modify.order_id e.order book).dangling_reads + 1)
        (cancelled modify.order_id e.order book)

  -- The new order: the modification's ID, side, price and quantity with the old order's type.
  abbrev pub replacement : Order
  replacement = record {
    order_type = (book.heap e.order).order_type;
    order_id = modify.order_id;
    side = modify.side;
    price = modify.price;
    initial_quantity = modify.quantity;
    remaining_quantity = modify.quantity;
  }

  -- What a call of `MatchOrder` comes to: the new order takes the last place in the queue at its price,
  -- in the book without the old one, or can match there and sets off a loop that does not end.
  pub data Modification (r : Outcome (Trades × Orderbook)) : Type 0 where
    replaced :
        can_match prepared modify.side modify.price ≡ false
        → r ≡ returned ([], rest_order fresh prepared)
        → IsValid (rest_order fresh prepared)
        → IsWithout modify.order_id e book (cancelled modify.order_id e.order book)
        → IsLast fresh replacement
            (cancelled modify.order_id e.order book)
            (rest_order fresh prepared)
        → Modification r
    endless : can_match prepared modify.side modify.price ≡ true → r ≡ out_of_fuel → Modification r

  pub prepared-fresh : prepared.heap fresh ≡ to_order modify (book.heap e.order).order_type
  unfolding write
  prepared-fresh = ground arith

  cancelled-unused : IsUnused fresh (cancelled modify.order_id e.order book)
  cancelled-unused s r =
      elim (Bool-cases (mem fresh (queue_of (cancelled modify.order_id e.order book) s r))) [
        | inl m ↦ ground (
          arith,
          (mem-cancelled modify.order_id e book v.indexed found s r fresh m).0,
          unused s r,
        )
        | inr m ↦ m
      ]

  pub prepared-IsValid : IsValid prepared
  prepared-IsValid =
      store-IsValid fresh _ _ (cancelled modify.order_id e.order book) cancelled-unused
        (cancelled-IsValid modify.order_id e book v found)

  pub prepared-new : contains modify.order_id prepared.orders ≡ false
  unfolding contains
  prepared-new =
      rw (orders-cancelled modify.order_id e.order book) (
        ground (arith, lookup-erase_key modify.order_id modify.order_id book.orders v.indexed.keys))

  prepared-keeps : is_fill_and_kill (book.heap e.order).order_type ≡ false
  prepared-keeps = v.resting _ _ e.order (v.indexed.entries modify.order_id e found).rests

  pub modify-add : (fuel : ℕ) → modify_order fuel fresh modify book ≡ add_order fuel fresh prepared
  unfolding modify_order
  modify-add fuel = ground (
    arith,
    found,
    cancel_order-some modify.order_id e book v.indexed found,
    heap-cancelled modify.order_id e.order book,
  )

  prepared-IsLast :
      IsLast fresh replacement (cancelled modify.order_id e.order book) (rest_order fresh prepared)
  unfolding to_order
  prepared-IsLast =
      store-IsLast fresh replacement ((cancelled modify.order_id e.order book).dangling_reads + 1)
        (cancelled modify.order_id e.order book) cancelled-unused prepared-new

  -- On a valid book with the ID in the index and an address that no level holds, when the reads through
  -- the erased entry give what it held: if the new order can match in the book without the old one, the
  -- call of `MatchOrder` runs out of its fuel, whatever that is. If it cannot, the call returns without a
  -- trade a valid book: the book without the old order, where the other orders, queues and entries are
  -- as they were, with the new order, which has the ID, side, price and quantity of the modification and
  -- the old order's type, at the address, in the index, and last in the queue at its price.
  pub modify_order_cases : (fuel : ℕ) → Modification (modify_order (suc fuel) fresh modify book)
  unfolding to_order
  modify_order_cases fuel =
      rw (modify-add (suc fuel)) (elim (add_order_cases fresh prepared prepared-IsValid fuel) [
        | Addition.duplicate c r ↦
            let c' = rw prepared-fresh at c in ground (arith, c', prepared-new)
        | Addition.killed k c r ↦
            let k' = rw prepared-fresh at k in ground (arith, k', prepared-keeps)
        | Addition.rested n c r w ↦
            replaced (rw prepared-fresh at c) r w
              (cancelled-IsWithout modify.order_id e book v found) prepared-IsLast
        | Addition.endless n c r ↦ endless (rw prepared-fresh at c) r
      ])

-- An ID that is not in the index changes nothing.
pub modify_order-none :
    (fuel : ℕ) (fresh : OrderPointer) (modify : OrderModify) (book : Orderbook)
    → lookup modify.order_id book.orders ≡ none
    → modify_order fuel fresh modify book ≡ returned ([], book)
unfolding modify_order
modify_order-none fuel fresh modify book h = ground arith
