-- ===== src/Orderbook/Spec.antt =====
-- What `class Orderbook` of Orderbook Server/orderbook.cpp promises, without levels, index or pointers:
-- the resting orders in the order of their arrival.
pub mod Depth
pub mod Met
pub mod View
use simple_orderbook_v.Common.{
  suc, length, ◌≡◌, refl, arith, Bool, true, false, Option, Option-cases, inl, inr, none, some,
  List, [], ◌∷◌, ◌++◌, eqb_ℤ, ltb_ℤ, not, ◌&&◌, ◌||◌, ◌==◌, if◌then◌else◌,
}
use simple_orderbook_v.Order.{
  Order, OrderId, OrderModify, Side, buy, sell, Price, is_fill_and_kill, to_order,
}

abbrev pub Resting : Type 0
Resting = List Order

abbrev pub same_side : Side → Side → Bool
same_side buy buy = true
same_side sell sell = true
same_side _ _ = false

abbrev pub stands_at : Side → Price → Order → Bool
stands_at s r o = same_side o.side s && eqb_ℤ o.price r

-- The orders of a side at a price, first come first.
abbrev pub orders_at : Side → Price → Resting → Resting
orders_at s r [] = []
orders_at s r (o ∷ rest) =
    let later = orders_at s r rest in if stands_at s r o then o ∷ later else later

abbrev pub with_id : OrderId → Resting → Option Order
with_id id [] = none
with_id id (o ∷ rest) = let later = with_id id rest in if o.order_id == id then some o else later

abbrev pub without_id : OrderId → Resting → Resting
without_id id [] = []
without_id id (o ∷ rest) =
    let later = without_id id rest in if o.order_id == id then later else o ∷ later

-- A resting order of the other side whose price an order at the price accepts.
abbrev pub meets : Side → Price → Order → Bool
meets buy price o = same_side o.side sell && not (ltb_ℤ price o.price)
meets sell price o = same_side o.side buy && not (ltb_ℤ o.price price)

abbrev pub meets_any : Side → Price → Resting → Bool
meets_any s price [] = false
meets_any s price (o ∷ rest) = let later = meets_any s price rest in meets s price o || later

-- The orders after a call, or none where the call does not end.

abbrev pub place : Order → Resting → Option Resting
place order resting = elim (with_id order.order_id resting) [
  | some _ ↦ some resting
  | none ↦
      if meets_any order.side order.price resting
      then none
      else if is_fill_and_kill order.order_type
      then some resting
      else some (resting ++ (order ∷ []))
]

abbrev pub replace : OrderModify → Resting → Option Resting
replace modify resting = elim (with_id modify.order_id resting) [
  | none ↦ some resting
  | some old ↦ place (to_order modify old.order_type) (without_id modify.order_id resting)
]

pub orders_at-append :
    (s : Side) (r : Price) (xs ys : Resting)
    → orders_at s r (xs ++ ys) ≡ orders_at s r xs ++ orders_at s r ys
orders_at-append s r [] ys = refl
orders_at-append s r (x ∷ xs) ys = ground (arith, orders_at-append s r xs ys)

pub with_id-append :
    (id : OrderId) (xs : Resting) (o : Order)
    → with_id id (xs ++ (o ∷ []))
      ≡ elim (with_id id xs) [ some x ↦ some x | none ↦ if o.order_id == id then some o else none ]
with_id-append id [] o = ground arith
with_id-append id (x ∷ xs) o = ground (arith, with_id-append id xs o)

pub orders_at-without_id :
    (s : Side) (r : Price) (id : OrderId) (xs : Resting)
    → orders_at s r (without_id id xs) ≡ without_id id (orders_at s r xs)
orders_at-without_id s r id [] = refl
orders_at-without_id s r id (x ∷ xs) = ground (arith, orders_at-without_id s r id xs)

pub with_id-without_id :
    (j id : OrderId) (xs : Resting)
    → with_id j (without_id id xs) ≡ (if j == id then none else with_id j xs)
with_id-without_id j id [] = ground arith
with_id-without_id j id (x ∷ xs) = ground (arith, with_id-without_id j id xs)

pub without_id-missing :
    (id : OrderId) (xs : Resting) → with_id id xs ≡ none → without_id id xs ≡ xs
without_id-missing id [] h = refl
without_id-missing id (x ∷ xs) h = ground (arith, h, without_id-missing id xs)

-- No ID rests twice.
abbrev pub DistinctIds : Resting → Type 0
DistinctIds [] = Unit
DistinctIds (o ∷ rest) = (with_id o.order_id rest ≡ none) × DistinctIds rest

pub append-DistinctIds :
    (o : Order) (xs : Resting)
    → with_id o.order_id xs ≡ none
    → DistinctIds xs
    → DistinctIds (xs ++ (o ∷ []))
append-DistinctIds o [] h d = (refl, tt)
append-DistinctIds o (x ∷ xs) h d =
    ground (arith, h, d.0, with_id-append x.order_id xs o, append-DistinctIds o xs, d.1)

pub without_id-DistinctIds :
    (id : OrderId) (xs : Resting) → DistinctIds xs → DistinctIds (without_id id xs)
without_id-DistinctIds id [] d = tt
without_id-DistinctIds id (x ∷ xs) d =
    ground (arith, d.0, with_id-without_id x.order_id id xs, without_id-DistinctIds id xs d.1)

pub length-without_id :
    (id : OrderId) (xs : Resting) (o : Order)
    → DistinctIds xs
    → with_id id xs ≡ some o
    → length xs ≡ suc (length (without_id id xs))
length-without_id id [] o d h = absurd (ground (arith, h))
length-without_id id (x ∷ xs) o d h =
    ground (arith, h, d.0, without_id-missing id xs, length-without_id id xs o d.1)

-- The branches of `place`.
module _ (o : Order) (resting : Resting) where
  pub place-known :
      (x : Order) → with_id o.order_id resting ≡ some x → place o resting ≡ some resting
  place-known x k = rw (k, place) refl

  pub place-killed :
      meets_any o.side o.price resting ≡ false
      → is_fill_and_kill o.order_type ≡ true
      → place o resting ≡ some resting
  place-killed m f = elim (Option-cases (with_id o.order_id resting)) [
    | inl k ↦ rw (k, m, f, place) refl
    | inr (x, k) ↦ place-known x k
  ]

  pub place-rested :
      with_id o.order_id resting ≡ none
      → meets_any o.side o.price resting ≡ false
      → is_fill_and_kill o.order_type ≡ false
      → place o resting ≡ some (resting ++ (o ∷ []))
  place-rested k m f = rw (k, m, f, place) refl

  pub place-endless :
      with_id o.order_id resting ≡ none
      → meets_any o.side o.price resting ≡ true
      → place o resting ≡ none
  place-endless k m = rw (k, m, place) refl
