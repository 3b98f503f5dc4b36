-- ===== src/Levels/Queue.antt =====
-- The operations of Orderbook Server/orderbook.cpp on the list of one level, and the removal of an
-- order from a level map.
use simple_orderbook_v.Common.{
  ◌≡◌, refl, ◌≢◌, true, false, [], ◌∷◌, arith, ◌==◌, if◌then◌else◌, inl, inr, Bool-cases, length,
  suc,
}
use simple_orderbook_v.Order.{Price}
use simple_orderbook_v.Outcome.{returned}
use simple_orderbook_v.Levels.{
  OrderPointer, OrderPointers, Levels, Compare, update, erase, mem, is_empty, erase_node, push_back,
  remove,
}
use simple_orderbook_v.Levels.Laws.{
  StrictOrder, queue_at, IsSorted, NonEmpty, queue_at-update_self, queue_at-update_ne,
  queue_at-erase_self, queue_at-erase_ne, update-IsSorted, erase-IsSorted, update-NonEmpty,
  erase-NonEmpty, erase-update, update-update_undo,
}

-- No pointer stands twice.
abbrev pub Distinct : OrderPointers → Type 0
Distinct [] = Unit
Distinct (x ∷ xs) = (mem x xs ≡ false) × Distinct xs

pub mem-push_back :
    (a x : OrderPointer) (xs : OrderPointers)
    → mem a (push_back x xs) ≡ (if a == x then true else mem a xs)
unfolding mem push_back
mem-push_back a x [] = refl
mem-push_back a x (y ∷ ys) = ground (arith, mem-push_back a x ys)

pub push_back-Distinct :
    (x : OrderPointer) (xs : OrderPointers)
    → mem x xs ≡ false
    → Distinct xs
    → Distinct (push_back x xs)
unfolding mem push_back
push_back-Distinct x [] h d = (refl, tt)
push_back-Distinct x (y ∷ ys) h d = ground (arith, push_back-Distinct x ys, mem-push_back y x ys)

pub push_back-ne_nil : (x : OrderPointer) (xs : OrderPointers) → is_empty (push_back x xs) ≡ false
unfolding push_back
push_back-ne_nil x [] = refl
push_back-ne_nil x (y ∷ ys) = refl

pub length-push_back :
    (x : OrderPointer) (xs : OrderPointers) → length (push_back x xs) ≡ suc (length xs)
unfolding push_back
length-push_back x [] = refl
length-push_back x (y ∷ ys) = omega (arith, length-push_back x ys)

pub mem-erase_node :
    (a x : OrderPointer) (xs : OrderPointers)
    → Distinct xs
    → mem a (erase_node x xs) ≡ (if a == x then false else mem a xs)
unfolding mem erase_node
mem-erase_node a x [] d = ground arith
mem-erase_node a x (y ∷ ys) d = ground (arith, mem-erase_node a x ys d.1)

pub erase_node-Distinct :
    (x : OrderPointer) (xs : OrderPointers) → Distinct xs → Distinct (erase_node x xs)
unfolding mem erase_node
erase_node-Distinct x [] d = tt
erase_node-Distinct x (y ∷ ys) d = ground (arith, erase_node-Distinct x ys, mem-erase_node y x ys)

pub erase_node-push_back :
    (x : OrderPointer) (xs : OrderPointers) → mem x xs ≡ false → erase_node x (push_back x xs) ≡ xs
unfolding mem erase_node push_back
erase_node-push_back x [] h = ground arith
erase_node-push_back x (y ∷ ys) h = ground (arith, erase_node-push_back x ys)

-- What `remove` returns when the order is in the level.
unfoldable pub removed : Compare → Price → OrderPointer → Levels → Levels
removed before price a levels =
    if is_empty (erase_node a (queue_at before price levels))
    then erase before price levels
    else update before price (erase_node a) levels

pub remove_lem :
    (before : Compare) (p : Price) (a : OrderPointer) (levels : Levels)
    → mem a (queue_at before p levels) ≡ true
    → remove before p a levels ≡ returned (removed before p a levels)
unfolding remove removed queue_at
remove_lem before p a levels h = ground arith

module _ {before : Compare} (o : StrictOrder before) (p : Price) (a : OrderPointer)
    (levels : Levels) (s : IsSorted before levels) where
  pub queue_at-removed_self :
      queue_at before p (removed before p a levels) ≡ erase_node a (queue_at before p levels)
  unfolding removed
  queue_at-removed_self =
      ground
        (arith, queue_at-erase_self o p levels s, queue_at-update_self o p (erase_node a) levels)

  pub queue_at-removed_ne :
      (r : Price) → r ≢ p → queue_at before r (removed before p a levels) ≡ queue_at before r levels
  unfolding removed
  queue_at-removed_ne r h =
      ground (
        arith,
        queue_at-erase_ne o r p levels s h,
        queue_at-update_ne o r p (erase_node a) levels h,
      )

  pub removed-IsSorted : IsSorted before (removed before p a levels)
  unfolding removed
  removed-IsSorted =
      ground (arith, erase-IsSorted o p levels s, update-IsSorted o p (erase_node a) levels s)

  pub removed-NonEmpty :
      mem a (queue_at before p levels) ≡ true
      → NonEmpty levels
      → NonEmpty (removed before p a levels)
  unfolding removed
  removed-NonEmpty h n =
      ground (arith, erase-NonEmpty o p levels, update-NonEmpty o p (erase_node a) levels)

  -- Taking out the order that was put in last leaves the map as it was.
  pub removed-update :
      mem a (queue_at before p levels) ≡ false
      → NonEmpty levels
      → removed before p a (update before p (push_back a) levels) ≡ levels
  unfolding removed
  removed-update h n =
      rw
        (
          queue_at-update_self o p (push_back a) levels,
          erase_node-push_back a (queue_at before p levels) h,
        )
        (elim (Bool-cases (is_empty (queue_at before p levels))) [
          | inl e ↦ rw e (erase-update o p (push_back a) levels (ground arith) n)
          | inr e ↦ rw e (
              update-update_undo o p (push_back a) (erase_node a) levels e
                (erase_node-push_back a _ h))
        ])
