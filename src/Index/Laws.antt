-- ===== src/Index/Laws.antt =====
-- The laws of the index `orders_` of Orderbook Server/orderbook.cpp.
use simple_orderbook_v.Common.{
  ◌≡◌, false, [], ◌∷◌, none, some, arith, ◌==◌, if◌then◌else◌, length, suc,
}
use simple_orderbook_v.Order.{OrderId}
use simple_orderbook_v.Index.{OrderEntry, Orders, lookup, contains, erase_key, insert}

-- No key stands twice.
abbrev pub DistinctKeys : Orders → Type 0
DistinctKeys [] = Unit
DistinctKeys ((k, e) ∷ rest) = (lookup k rest ≡ none) × DistinctKeys rest

pub lookup-erase_key :
    (j id : OrderId) (orders : Orders)
    → DistinctKeys orders
    → lookup j (erase_key id orders) ≡ (if j == id then none else lookup j orders)
unfolding lookup erase_key
lookup-erase_key j id [] d = ground arith
lookup-erase_key j id ((k, e) ∷ rest) d = ground (arith, lookup-erase_key j id rest d.1)

pub erase_key-DistinctKeys :
    (id : OrderId) (orders : Orders) → DistinctKeys orders → DistinctKeys (erase_key id orders)
unfolding erase_key
erase_key-DistinctKeys id [] d = tt
erase_key-DistinctKeys id ((k, e) ∷ rest) d =
    ground (arith, erase_key-DistinctKeys id rest, lookup-erase_key k id rest)

pub length-erase_key :
    (id : OrderId) (orders : Orders) (e : OrderEntry)
    → lookup id orders ≡ some e
    → length orders ≡ suc (length (erase_key id orders))
unfolding lookup erase_key
length-erase_key id [] e h = cc
length-erase_key id ((k, f) ∷ rest) e h = ground (arith, length-erase_key id rest e)

pub contains-none :
    (id : OrderId) (orders : Orders) → contains id orders ≡ false → lookup id orders ≡ none
unfolding contains
contains-none id orders h = ground arith

pub insert_lem :
    (id : OrderId) (e : OrderEntry) (orders : Orders)
    → contains id orders ≡ false
    → insert id e orders ≡ (id, e) ∷ orders
unfolding insert
insert_lem id e orders h = rw h
