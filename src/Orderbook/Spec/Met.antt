-- ===== src/Orderbook/Spec/Met.antt =====
-- The resting orders that an order can trade with, by the specification of the book of Orderbook
-- Server/orderbook.cpp.
use simple_orderbook_v.Common.{
  ◌≡◌, refl, inl, inr, Bool, true, Bool-cases, [], ◌∷◌, not, ◌&&◌, ltb_ℤ, eqb_ℤ_eq, eqb_ℤ_refl,
  arith,
}
use simple_orderbook_v.Order.{Order, Side, buy, sell, Price}
use simple_orderbook_v.Orderbook.Spec.{Resting, same_side, stands_at, orders_at, meets, meets_any}

abbrev pub other : Side → Side
other buy = sell
other sell = buy

-- An order of the side at the first price trades with one at the second.
abbrev pub accepts : Side → Price → Price → Bool
accepts buy price r = not (ltb_ℤ price r)
accepts sell price r = not (ltb_ℤ r price)

meets_lem :
    (s : Side) (price : Price) (o : Order)
    → meets s price o ≡ (same_side o.side (other s) && accepts s price o.price)
meets_lem buy price o = refl
meets_lem sell price o = refl

pub meets_any-orders_at :
    (s : Side) (price r : Price) (resting : Resting) (o : Order) (rest : Resting)
    → orders_at (other s) r resting ≡ o ∷ rest
    → accepts s price r ≡ true
    → meets_any s price resting ≡ true
meets_any-orders_at s price r [] o rest e a = absurd (ground (arith, e))
meets_any-orders_at s price r (x ∷ resting) o rest e a = ground (
  arith,
  e,
  a,
  meets_lem s price x,
  eqb_ℤ_eq x.price r,
  meets_any-orders_at s price r resting o rest,
)

-- What is met stands in a queue.
pub record Met (s : Side) (price : Price) (resting : Resting) : Type 0 where
  pub at : Price
  pub order : Order
  pub rest : Resting
  pub stands : orders_at (other s) at resting ≡ order ∷ rest
  pub accepted : accepts s price at ≡ true

pub meets_any-Met :
    (s : Side) (price : Price) (resting : Resting)
    → meets_any s price resting ≡ true
    → Met s price resting
meets_any-Met s price [] h = absurd (ground (arith, h))
meets_any-Met s price (x ∷ resting) h = elim (Bool-cases (meets s price x)) [
  | inl m ↦ record {
    at = x.price;
    order = x;
    rest = orders_at (other s) x.price resting;
    stands = ground (arith, m, meets_lem s price x, eqb_ℤ_refl x.price);
    accepted = ground (arith, m, meets_lem s price x);
  }
  | inr m ↦
      let later = meets_any-Met s price resting (ground (arith, h, m)) in
      elim (Bool-cases (stands_at (other s) later.at x)) [
        | inl k ↦ record {
          at = later.at;
          order = x;
          rest = orders_at (other s) later.at resting;
          stands = ground (arith, k);
          accepted = later.accepted;
        }
        | inr k ↦ record {
          at = later.at;
          order = later.order;
          rest = later.rest;
          stands = ground (arith, k, later.stands);
          accepted = later.accepted;
        }
      ]
]
