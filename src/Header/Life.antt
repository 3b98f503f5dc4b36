-- ===== src/Header/Life.antt =====
-- The life of an order of Orderbook Server/orderbook.h: the calls of `Fill` and `ToGoodTillCancel`.
use simple_orderbook_v.Common.{
  ℕ, ◌+◌, ◌-◌, ◌^◌, ◌≤◌, ◌<◌, ◌≡◌, refl, ◌⊎◌, inl, inr, Bool-cases, List, [], ◌∷◌, if◌then◌else◌,
  ltb, ◌==◌, arith,
}
use simple_orderbook_v.Outcome.{Outcome, returned, threw, logic_error, ◌>>=◌}
use simple_orderbook_v.Order.{Price, Quantity, OrderId, Side}
use simple_orderbook_v.Header.{
  OrderType, good_till_cancel, is_market, Order, new_order, filled_quantity, is_filled, fill,
  to_good_till_cancel,
}

pub data Change : Type 0 where
  fills : Quantity → Change
  converts : Price → Change

abbrev pub apply : Change → Order → Outcome Order
apply (fills quantity) order = fill quantity order
apply (converts price) order = to_good_till_cancel price order

abbrev pub apply_all : List Change → Order → Outcome Order
apply_all [] order = returned order
apply_all (change ∷ changes) order = apply change order >>= apply_all changes

-- What the calls ask for: the quantity that they fill, and how often and to what price they convert.

abbrev pub total_filled : List Change → ℕ
total_filled [] = 0
total_filled (fills quantity ∷ changes) = quantity + total_filled changes
total_filled (converts price ∷ changes) = total_filled changes

abbrev pub conversions : List Change → ℕ
conversions [] = 0
conversions (fills quantity ∷ changes) = conversions changes
conversions (converts price ∷ changes) = 1 + conversions changes

-- The price and type after the calls, from the ones before.
abbrev pub last_price : List Change → Price → Price
last_price [] price = price
last_price (fills quantity ∷ changes) price = last_price changes price
last_price (converts next ∷ changes) price = last_price changes next

abbrev pub allowed : OrderType → ℕ
allowed order_type = if is_market order_type then 1 else 0

-- What a sequence of calls comes to.
pub data Lived (order : Order) (changes : List Change) (r : Outcome Order) : Type 0 where
  lived :
      total_filled changes ≤ order.remaining_quantity
      → conversions changes ≤ allowed order.order_type
      → r
        ≡ returned (record order {
          order_type = if ltb 0 (conversions changes) then good_till_cancel else order.order_type;
          price = last_price changes order.price;
          remaining_quantity = order.remaining_quantity - total_filled changes;
        })
      → Lived order changes r
  refused :
      (order.remaining_quantity < total_filled changes)
        ⊎ (allowed order.order_type < conversions changes)
      → r ≡ threw logic_error
      → Lived order changes r

-- A sequence of `Fill` and `ToGoodTillCancel` on an order returns if it fills no more than is open and
-- converts a market order only, and it once; then quantity, price and type are as the calls say. Else one
-- of the calls throws.
pub apply_all-Lived :
    (changes : List Change) (order : Order) → Lived order changes (apply_all changes order)
unfolding fill to_good_till_cancel
apply_all-Lived [] order = lived (omega arith) (omega arith) (ground arith)
apply_all-Lived (fills quantity ∷ changes) order =
    elim (Bool-cases (ltb order.remaining_quantity quantity)) [
      | inl h ↦ refused (inl (ground (arith, h))) (rw (h, apply) refl)
      | inr h ↦
          elim (apply_all-Lived changes
            (record order { remaining_quantity = order.remaining_quantity - quantity })) [
              | lived a b e ↦ lived (ground (arith, h, a)) b (ground (arith, h, e))
              | refused a e ↦ refused (ground (arith, h, a)) (ground (arith, h, e))
            ]
    ]
apply_all-Lived (converts price ∷ changes) order = elim (Bool-cases (is_market order.order_type)) [
  | inr h ↦ refused (inr (ground (arith, h))) (rw (h, apply) refl)
  | inl h ↦
      elim (apply_all-Lived changes
        (record order { price = price; order_type = good_till_cancel })) [
          | lived a b e ↦ lived a (ground (arith, h, b)) (ground (arith, h, e, b))
          | refused a e ↦ refused (ground (arith, h, a)) (ground (arith, h, e))
        ]
]

-- What a new order counts as filled is what the calls have filled.
pub filled_quantity-apply_all :
    (changes : List Change) (order_type : OrderType) (order_id : OrderId) (side : Side)
    (price : Price) (quantity : Quantity) (t : Order)
    → quantity < 2 ^ 32
    → apply_all changes (new_order order_type order_id side price quantity) ≡ returned t
    → (filled_quantity t ≡ total_filled changes)
      × (is_filled t ≡ (total_filled changes == quantity))
unfolding new_order filled_quantity is_filled
filled_quantity-apply_all changes order_type order_id side price quantity t fits e =
    elim (apply_all-Lived changes (new_order order_type order_id side price quantity)) [
      | lived a b r ↦
          let left : t.remaining_quantity ≡ quantity - total_filled changes =
            ground (arith, r, e) in
          let started : t.initial_quantity ≡ quantity = ground (arith, r, e) in
          ground (arith, left, started, a, fits)
      | refused a r ↦ absurd (ground (arith, r, e))
    ]
