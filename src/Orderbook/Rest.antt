-- ===== src/Orderbook/Rest.antt =====
-- `AddOrder` of Orderbook Server/orderbook.cpp up to the call of `MatchOrders`: the new order rests in
-- the book.
use simple_orderbook_v.Common.{
  ◌≡◌, refl, sym, ◌≢◌, ◌⊎◌, inl, inr, true, false, ◌∷◌, some, arith, Bool-cases,
}
use simple_orderbook_v.Order.{Side, buy, sell, Price, OrderId}
use simple_orderbook_v.Levels.{OrderPointer, update, mem, push_back}
use simple_orderbook_v.Levels.Laws.{IsSorted, NonEmpty, update-IsSorted, update-NonEmpty}
use simple_orderbook_v.Levels.Queue.{Distinct, push_back-ne_nil}
use simple_orderbook_v.Levels.Members.{mem-update, mem-update_new, mem-update_old, update-Distinct}
use simple_orderbook_v.Index.{OrderEntry, entry, lookup, contains}
use simple_orderbook_v.Index.Laws.{contains-none, insert_lem}
use simple_orderbook_v.Orderbook.{Orderbook, rest_order}
use simple_orderbook_v.Orderbook.Invariant.{
  before_of, StrictOrder_of, levels_of, queue_of, IsAt, IsEntry, IsIndexed,
}

module _ (p : OrderPointer) (book : Orderbook) where
  -- The levels of the order's side get it at the end of the queue at its price.
  pub levels_of-rest_order :
      levels_of (rest_order p book) (book.heap p).side
      ≡ update
          (before_of (book.heap p).side)
          (book.heap p).price
          (push_back p)
          (levels_of book (book.heap p).side)
  unfolding rest_order
  levels_of-rest_order = ground arith

  pub levels_of-rest_order_ne :
      (s : Side) → s ≢ (book.heap p).side → levels_of (rest_order p book) s ≡ levels_of book s
  unfolding rest_order
  levels_of-rest_order_ne s h = ground arith

  pub heap-rest_order : (rest_order p book).heap ≡ book.heap
  unfolding rest_order
  heap-rest_order = ground arith

  pub orders-rest_order :
      contains (book.heap p).order_id book.orders ≡ false
      → (rest_order p book).orders ≡ ((book.heap p).order_id, entry p) ∷ book.orders
  unfolding rest_order
  orders-rest_order h = ground (arith, insert_lem (book.heap p).order_id (entry p) book.orders h)

pub side_cases : (s t : Side) → (s ≡ t) ⊎ (s ≢ t)
side_cases buy buy = inl refl
side_cases buy sell = inr (λ e. cc)
side_cases sell buy = inr (λ e. cc)
side_cases sell sell = inl refl

module _ (p : OrderPointer) (book : Orderbook) where
  pub mem-rest_order :
      (s : Side) (r : Price) (a : OrderPointer)
      → mem a (queue_of (rest_order p book) s r) ≡ true
      → ((a ≡ p) × ((book.heap p).side ≡ s) × (r ≡ (book.heap p).price))
        ⊎ (mem a (queue_of book s r) ≡ true)
  mem-rest_order s r a = elim (side_cases s (book.heap p).side) [
    | inl e ↦
        rw (e, levels_of-rest_order p book)
          (λ h.
            elim (mem-update (StrictOrder_of (book.heap p).side) p (book.heap p).price
              (levels_of book (book.heap p).side) a r h) [
                | inl (x, y) ↦ inl (x, refl, y)
                | inr old ↦ inr old
              ])
    | inr ne ↦ rw (levels_of-rest_order_ne p book s ne) (λ h. inr h)
  ]

  pub mem-rest_order_old :
      (s : Side) (r : Price) (a : OrderPointer)
      → mem a (queue_of book s r) ≡ true
      → mem a (queue_of (rest_order p book) s r) ≡ true
  mem-rest_order_old s r a = elim (side_cases s (book.heap p).side) [
    | inl e ↦
        rw (e, levels_of-rest_order p book)
          (mem-update_old (StrictOrder_of (book.heap p).side) p (book.heap p).price
            (levels_of book (book.heap p).side) a r)
    | inr ne ↦ rw (levels_of-rest_order_ne p book s ne) (λ h. h)
  ]

  pub mem-rest_order_new :
      mem p (queue_of (rest_order p book) (book.heap p).side (book.heap p).price) ≡ true
  mem-rest_order_new =
      rw (levels_of-rest_order p book)
        (mem-update_new (StrictOrder_of (book.heap p).side) p (book.heap p).price _)

-- A resting order has its ID in the index, so an order whose ID is not there does not rest.
pub not-mem_of_not_contained :
    (p : OrderPointer) (book : Orderbook)
    → IsIndexed book
    → contains (book.heap p).order_id book.orders ≡ false
    → (s : Side) (r : Price) → mem p (queue_of book s r) ≡ false
not-mem_of_not_contained p book v h s r = elim (Bool-cases (mem p (queue_of book s r))) [
  | inl m ↦
      ground (arith, (v.at s r p m).indexed, contains-none (book.heap p).order_id book.orders h)
  | inr m ↦ m
]

module _ (p : OrderPointer) (book : Orderbook) (v : IsIndexed book)
    (new : contains (book.heap p).order_id book.orders ≡ false) where
  rest-IsSorted : (s : Side) → IsSorted (before_of s) (levels_of (rest_order p book) s)
  rest-IsSorted s = elim (side_cases s (book.heap p).side) [
    | inl e ↦
        rw (e, levels_of-rest_order p book)
          (update-IsSorted (StrictOrder_of (book.heap p).side) _ (push_back p) _ (v.sorted _))
    | inr ne ↦ rw (levels_of-rest_order_ne p book s ne) (v.sorted s)
  ]

  rest-NonEmpty : (s : Side) → NonEmpty (levels_of (rest_order p book) s)
  rest-NonEmpty s = elim (side_cases s (book.heap p).side) [
    | inl e ↦
        rw (e, levels_of-rest_order p book)
          (update-NonEmpty (StrictOrder_of (book.heap p).side) _ (push_back p) _
            (push_back-ne_nil p _) (v.full _))
    | inr ne ↦ rw (levels_of-rest_order_ne p book s ne) (v.full s)
  ]

  rest-Distinct : (s : Side) (r : Price) → Distinct (queue_of (rest_order p book) s r)
  rest-Distinct s r = elim (side_cases s (book.heap p).side) [
    | inl e ↦
        rw (e, levels_of-rest_order p book)
          (update-Distinct (StrictOrder_of (book.heap p).side) p _ _ r
            (not-mem_of_not_contained p book v new _ _) (v.distinct _ _) (v.distinct _ _))
    | inr ne ↦ rw (levels_of-rest_order_ne p book s ne) (v.distinct s r)
  ]

  -- An entry of the index before is one of the index after.
  lookup-rest_order_old :
      (id : OrderId) (e : OrderEntry)
      → lookup id book.orders ≡ some e
      → lookup id (rest_order p book).orders ≡ some e
  unfolding lookup
  lookup-rest_order_old id e h =
      rw (orders-rest_order p book new)
        (ground (arith, contains-none (book.heap p).order_id book.orders new))

  rest-IsAt :
      (s : Side) (r : Price) (a : OrderPointer)
      → mem a (queue_of (rest_order p book) s r) ≡ true
      → IsAt (rest_order p book) s r a
  unfolding lookup
  rest-IsAt s r a h = elim (mem-rest_order p book s r a h) [
    | inl (x, y, z) ↦ record {
      side = rw (x, heap-rest_order p book) y;
      at_price = rw (x, heap-rest_order p book) (sym z);
      indexed = rw (x, heap-rest_order p book, orders-rest_order p book new) (ground arith);
    }
    | inr old ↦
        let b = v.at s r a old in
        record {
          side = rw (heap-rest_order p book) b.side;
          at_price = rw (heap-rest_order p book) b.at_price;
          indexed = rw (heap-rest_order p book) (lookup-rest_order_old _ _ b.indexed);
        }
  ]

  rest-IsEntry :
      (id : OrderId) (e : OrderEntry)
      → lookup id (rest_order p book).orders ≡ some e
      → IsEntry (rest_order p book) id e
  unfolding lookup
  rest-IsEntry id e h = elim (lookup_new_or_old) [
    | inl (x, y) ↦ record {
      location = ground arith;
      order_id = rw (y, heap-rest_order p book) (sym x);
      rests = rw (y, heap-rest_order p book) (mem-rest_order_new p book);
    }
    | inr old ↦
        let b = v.entries id e old in
        record {
          location = b.location;
          order_id = rw (heap-rest_order p book) b.order_id;
          rests = rw (heap-rest_order p book) (mem-rest_order_old p book _ _ e.order b.rests);
        }
  ]
    where
      lookup_new_or_old :
          ((id ≡ (book.heap p).order_id) × (e ≡ entry p)) ⊎ (lookup id book.orders ≡ some e)
      lookup_new_or_old = let k = rw (orders-rest_order p book new) at h in ground arith

  -- An order that is new to the index rests in a book that stays as it should be.
  pub rest_order-IsIndexed : IsIndexed (rest_order p book)
  unfolding lookup
  rest_order-IsIndexed = record {
    sorted = rest-IsSorted;
    full = rest-NonEmpty;
    distinct = rest-Distinct;
    keys = rw (orders-rest_order p book new) (contains-none _ _ new, v.keys);
    at = rest-IsAt;
    entries = rest-IsEntry;
  }
