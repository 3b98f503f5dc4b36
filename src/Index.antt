-- ===== src/Index.antt =====
-- What `class Orderbook` of Orderbook Server/orderbook.cpp keeps besides its price levels: the index
-- `orders_`, a `std::unordered_map<OrderID, OrderEntry>`, and the orders on the heap, which the index
-- and the levels share.
pub mod Laws
use simple_orderbook_v.Common.{
  Bool, true, false, List, [], ◌∷◌, Option, none, some, ◌==◌, if◌then◌else◌,
}
use simple_orderbook_v.Order.{Order, OrderId}
use simple_orderbook_v.Levels.{OrderPointer}

-- `location` is the node of the level's list, which is known by the pointer that it holds.
pub record OrderEntry : Type 0 where
  pub order : OrderPointer
  pub location : OrderPointer

abbrev pub entry : OrderPointer → OrderEntry
entry p = record { order = p; location = p }

-- `std::unordered_map<OrderID, OrderEntry>`
abbrev pub Orders : Type 0
Orders = List (OrderId × OrderEntry)

unfoldable pub lookup : OrderId → Orders → Option OrderEntry
lookup id [] = none
lookup id ((k, e) ∷ rest) = if k == id then some e else lookup id rest

unfoldable pub contains : OrderId → Orders → Bool
unfolding lookup
contains id orders = elim (lookup id orders) [ none ↦ false | some e ↦ true ]

unfoldable pub erase_key : OrderId → Orders → Orders
erase_key id [] = []
erase_key id ((k, e) ∷ rest) =
    let later = erase_key id rest in if k == id then rest else (k, e) ∷ later

-- `insert` leaves an entry that is there as it is.
unfoldable pub insert : OrderId → OrderEntry → Orders → Orders
unfolding contains
insert id e orders = if contains id orders then orders else (id, e) ∷ orders

abbrev pub Heap : Type 0
Heap = OrderPointer → Order

unfoldable pub write : Heap → OrderPointer → Order → Heap
write heap p order a = if a == p then order else heap a
