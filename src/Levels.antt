-- ===== src/Levels.antt =====
-- `std::map<Price, OrderPointers, Compare>`: the price levels of one side of the book, as the list
-- of its entries in the order of iteration. `Compare` is the argument `before`.
pub mod Laws
pub mod Members
pub mod Queue
use simple_orderbook_v.Common.{
  ℕ, Bool, true, false, List, [], ◌∷◌, Option, none, some, ltb_ℤ, ◌==◌, if◌then◌else◌,
}
use simple_orderbook_v.Outcome.{Outcome, returned, undefined, out_of_range, or_throw, ◌>>=◌}
use simple_orderbook_v.Order.{Price}

-- `std::shared_ptr<Order>`: the address of the order on the heap.
abbrev pub OrderPointer : Type 0
OrderPointer = ℕ

-- `std::list<OrderPointer>`
abbrev pub OrderPointers : Type 0
OrderPointers = List OrderPointer

abbrev pub Levels : Type 0
Levels = List (Price × OrderPointers)

abbrev pub Compare : Type 0
Compare = Price → Price → Bool

-- `std::greater<Price>`, the order of the bids.
abbrev pub greater : Compare
greater p q = ltb_ℤ q p

-- `std::less<Price>`, the order of the asks.
abbrev pub less : Compare
less p q = ltb_ℤ p q

-- `levels[price]`, which inserts an empty list if the key is missing, changed in place by `f`.
unfoldable pub update : Compare → Price → (OrderPointers → OrderPointers) → Levels → Levels
update before price f [] = (price, f []) ∷ []
update before price f ((p, os) ∷ rest) =
    let later = update before price f rest in
    if before price p
    then (price, f []) ∷ (p, os) ∷ rest
    else if before p price
    then (p, os) ∷ later
    else (p, f os) ∷ rest

-- The list at a key, if there is one.
unfoldable pub find : Compare → Price → Levels → Option OrderPointers
find before price [] = none
find before price ((p, os) ∷ rest) =
    let later = find before price rest in
    if before price p then none else if before p price then later else some os

-- `levels.erase(price)`
unfoldable pub erase : Compare → Price → Levels → Levels
erase before price [] = []
erase before price ((p, os) ∷ rest) =
    let later = erase before price rest in
    if before price p then (p, os) ∷ rest else if before p price then (p, os) ∷ later else rest

unfoldable pub mem : OrderPointer → OrderPointers → Bool
mem a [] = false
mem a (x ∷ xs) = if a == x then true else mem a xs

-- `orders.erase(iterator)`: the node that the iterator stands for is the one that holds the pointer.
unfoldable pub erase_node : OrderPointer → OrderPointers → OrderPointers
erase_node a [] = []
erase_node a (x ∷ xs) = let later = erase_node a xs in if a == x then xs else x ∷ later

unfoldable pub push_back : OrderPointer → OrderPointers → OrderPointers
push_back a [] = a ∷ []
push_back a (x ∷ xs) = x ∷ push_back a xs

abbrev pub is_empty : OrderPointers → Bool
is_empty [] = true
is_empty (x ∷ xs) = false

-- `auto& orders = levels.at(price); orders.erase(location); if (orders.empty()) levels.erase(price);`
-- `at` throws if there is no such level; an iterator that is not of the list is undefined.
unfoldable pub remove : Compare → Price → OrderPointer → Levels → Outcome Levels
unfolding find update erase mem erase_node
remove before price location levels = do
  orders ← or_throw (find before price levels) out_of_range
  if mem location orders
      then (if is_empty (erase_node location orders)
          then returned (erase before price levels)
          else returned (update before price (erase_node location) levels))
      else undefined
