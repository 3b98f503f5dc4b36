-- ===== src/Orderbook/Invariant.antt =====
-- What holds of the book of Orderbook Server/orderbook.cpp between two calls.
use simple_orderbook_v.Common.{◌≡◌, true, false, [], ◌∷◌, some, ltb_ℤ}
use simple_orderbook_v.Order.{Side, buy, sell, Price, OrderId, is_fill_and_kill}
use simple_orderbook_v.Levels.{OrderPointer, OrderPointers, Levels, Compare, greater, less, mem}
use simple_orderbook_v.Levels.Laws.{
  StrictOrder, greater-StrictOrder, less-StrictOrder, IsSorted, NonEmpty, queue_at,
}
use simple_orderbook_v.Levels.Queue.{Distinct}
use simple_orderbook_v.Index.{OrderEntry, entry, lookup}
use simple_orderbook_v.Index.Laws.{DistinctKeys}
use simple_orderbook_v.Orderbook.{Orderbook}

abbrev pub before_of : Side → Compare
before_of buy = greater
before_of sell = less

abbrev pub StrictOrder_of : (s : Side) → StrictOrder (before_of s)
StrictOrder_of buy = greater-StrictOrder
StrictOrder_of sell = less-StrictOrder

abbrev pub levels_of : Orderbook → Side → Levels
levels_of book buy = book.bids
levels_of book sell = book.asks

-- The orders that rest on a side at a price, oldest first.
abbrev pub queue_of : Orderbook → Side → Price → OrderPointers
queue_of book s price = queue_at (before_of s) price (levels_of book s)

-- The order is of the side and at the price, and the index has its entry under its ID.
pub record IsAt (book : Orderbook) (s : Side) (price : Price) (p : OrderPointer) : Type 0 where
  pub side : (book.heap p).side ≡ s
  pub at_price : (book.heap p).price ≡ price
  pub indexed : lookup (book.heap p).order_id book.orders ≡ some (entry p)

-- The entry is of an order that has the ID, and that rests on its side at its price.
pub record IsEntry (book : Orderbook) (id : OrderId) (e : OrderEntry) : Type 0 where
  pub location : e.location ≡ e.order
  pub order_id : (book.heap e.order).order_id ≡ id
  pub rests : mem e.order (queue_of book (book.heap e.order).side (book.heap e.order).price) ≡ true

-- The levels of each side are sorted and not empty, no order stands twice, and the index and the
-- levels hold the same orders.
pub record IsIndexed (book : Orderbook) : Type 0 where
  pub sorted : (s : Side) → IsSorted (before_of s) (levels_of book s)
  pub full : (s : Side) → NonEmpty (levels_of book s)
  pub distinct : (s : Side) (price : Price) → Distinct (queue_of book s price)
  pub keys : DistinctKeys book.orders
  pub at :
      (s : Side) (price : Price) (p : OrderPointer)
      → mem p (queue_of book s price) ≡ true
      → IsAt book s price p
  pub entries : (id : OrderId) (e : OrderEntry) → lookup id book.orders ≡ some e → IsEntry book id e

-- The best bid is below the best ask.
abbrev pub Uncrossed : Levels → Levels → Type 0
Uncrossed [] asks = Unit
Uncrossed (b ∷ bids) [] = Unit
Uncrossed ((bid_price, _) ∷ bids) ((ask_price, _) ∷ asks) = ltb_ℤ bid_price ask_price ≡ true

-- Besides, the book is not crossed, and no fill-and-kill order rests in it.
pub record IsValid (book : Orderbook) : Type 0 where
  pub indexed : IsIndexed book
  pub uncrossed : Uncrossed book.bids book.asks
  pub resting :
      (s : Side) (price : Price) (p : OrderPointer)
      → mem p (queue_of book s price) ≡ true
      → is_fill_and_kill (book.heap p).order_type ≡ false
