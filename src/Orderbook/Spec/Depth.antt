-- ===== src/Orderbook/Spec/Depth.antt =====
-- What `GetOrderInfos` of Orderbook Server/orderbook.cpp promises: for each side the prices of its
-- resting orders, best first, each with what is open there.
use simple_orderbook_v.Common.{
  ℕ, ◌+◌, ◌%◌, ◌^◌, ◌≡◌, ◌≢◌, refl, sym, ◌∙◌, inl, inr, Bool, true, false, Bool-cases, List, [],
  ◌∷◌, map, All, ◌||◌, eqb_ℤ, eqb_ℤ_eq, eqb_ℤ_refl, if◌then◌else◌, arith,
}
use simple_orderbook_v.Order.{Side, buy, sell, Price, LevelInfo, OrderbookLevelInfos}
use simple_orderbook_v.Levels.{Compare}
use simple_orderbook_v.Levels.Laws.{StrictOrder, price_cases}
use simple_orderbook_v.Orderbook.Invariant.{before_of, StrictOrder_of}
use simple_orderbook_v.Orderbook.Spec.{Resting, same_side, orders_at}

-- The price at its place in a sorted list that has each price once.
abbrev pub insert_price : Compare → Price → List Price → List Price
insert_price before p [] = p ∷ []
insert_price before p (q ∷ rest) =
    let later = insert_price before p rest in
    if before p q then p ∷ q ∷ rest else if before q p then q ∷ later else q ∷ rest

abbrev pub ranked_prices : Side → Resting → List Price
ranked_prices s [] = []
ranked_prices s (o ∷ rest) =
    let later = ranked_prices s rest in
    if same_side o.side s then insert_price (before_of s) o.price later else later

abbrev pub open_quantity : Resting → ℕ
open_quantity [] = 0
open_quantity (o ∷ rest) = o.remaining_quantity + open_quantity rest

abbrev pub level_info : Side → Resting → Price → LevelInfo
level_info s resting r = record {
  price = r;
  quantity = open_quantity (orders_at s r resting) % 2 ^ 32;
}

abbrev pub side_infos : Side → Resting → List LevelInfo
side_infos s resting = map (level_info s resting) (ranked_prices s resting)

abbrev pub level_infos : Resting → OrderbookLevelInfos
level_infos resting = record { bids = side_infos buy resting; asks = side_infos sell resting }

-- Sorted lists of prices.

abbrev pub has : Price → List Price → Bool
has r [] = false
has r (p ∷ rest) = eqb_ℤ p r || has r rest

abbrev pub Past : Compare → Price → List Price → Type 0
Past before p = All (λ q. before p q ≡ true)

abbrev pub IsRankedPrices : Compare → List Price → Type 0
IsRankedPrices before [] = Unit
IsRankedPrices before (p ∷ rest) = Past before p rest × IsRankedPrices before rest

abbrev pub any_order : Resting → Bool
any_order [] = false
any_order (o ∷ rest) = true

module _ {before : Compare} (o : StrictOrder before) where
  has-Past :
      (p r : Price) (xs : List Price) → Past before p xs → has r xs ≡ true → before p r ≡ true
  has-Past p r [] a h = absurd (ground (arith, h))
  has-Past p r (q ∷ xs) a h = elim (Bool-cases (eqb_ℤ q r)) [
    | inl e ↦ rw (sym (eqb_ℤ_eq q r e)) a.0
    | inr e ↦ has-Past p r xs a.1 (ground (arith, e, h))
  ]

  Past-trans :
      (p q : Price) (xs : List Price) → before p q ≡ true → Past before q xs → Past before p xs
  Past-trans p q [] h a = tt
  Past-trans p q (r ∷ xs) h a = (o.trans p q r h a.0, Past-trans p q xs h a.1)

  Past-insert_price :
      (r p : Price) (xs : List Price)
      → before r p ≡ true
      → Past before r xs
      → Past before r (insert_price before p xs)
  Past-insert_price r p [] h a = (h, tt)
  Past-insert_price r p (q ∷ xs) h a = ground (arith, h, a, Past-insert_price r p xs)

  insert_price-IsRankedPrices :
      (p : Price) (xs : List Price)
      → IsRankedPrices before xs
      → IsRankedPrices before (insert_price before p xs)
  insert_price-IsRankedPrices p [] s = (tt, tt)
  insert_price-IsRankedPrices p (q ∷ xs) s =
      ground
        (arith, s, Past-trans p q xs, Past-insert_price q p xs, insert_price-IsRankedPrices p xs)

  has-insert_price :
      (r p : Price) (xs : List Price) → has r (insert_price before p xs) ≡ (eqb_ℤ p r || has r xs)
  has-insert_price r p [] = refl
  has-insert_price r p (q ∷ xs) = elim (price_cases o p q) [
    | inl (a, b) ↦ rw (a) refl
    | inr (inl (a, b)) ↦ ground (arith, a, b, has-insert_price r p xs)
    | inr (inr e) ↦ rw (e, o.irrefl q) (ground arith)
  ]

  has_self : (x : Price) (xs : List Price) → Past before x xs → has x xs ≡ false
  has_self x xs a = elim (Bool-cases (has x xs)) [
    | inl e ↦ absurd (ground (arith, has-Past x x xs a e, o.irrefl x))
    | inr e ↦ e
  ]

  has-first : (x : Price) (xs : List Price) → has x (x ∷ xs) ≡ true
  has-first x xs = rw (eqb_ℤ_refl x) refl

  first_not_before :
      (x y : Price) (xs ys : List Price)
      → IsRankedPrices before (y ∷ ys)
      → has x (x ∷ xs) ≡ has x (y ∷ ys)
      → before x y ≢ true
  first_not_before x y xs ys t h a =
      let past = has-Past x x (y ∷ ys) (a, Past-trans x y ys a t.0) (sym h ∙ has-first x xs) in
      ground (arith, past, o.irrefl x)

  same_later :
      (x r : Price) (xs ys : List Price)
      → Past before x xs
      → Past before x ys
      → has r (x ∷ xs) ≡ has r (x ∷ ys)
      → has r xs ≡ has r ys
  same_later x r xs ys a b h = elim (Bool-cases (eqb_ℤ x r)) [
    | inl e ↦
        let same : x ≡ r = eqb_ℤ_eq x r e in rw same at (has_self x xs a ∙ sym (has_self x ys b))
    | inr e ↦ rw e at h
  ]

  -- A sorted list is determined by the prices that it has.
  pub same_prices :
      (xs ys : List Price)
      → IsRankedPrices before xs
      → IsRankedPrices before ys
      → ((r : Price) → has r xs ≡ has r ys)
      → xs ≡ ys
  same_prices [] [] s t h = refl
  same_prices [] (y ∷ ys) s t h = absurd (ground (arith, h y, eqb_ℤ_refl y))
  same_prices (x ∷ xs) [] s t h = absurd (ground (arith, h x, eqb_ℤ_refl x))
  same_prices (x ∷ xs) (y ∷ ys) s t h = elim (price_cases o x y) [
    | inl (a, b) ↦ absurd (first_not_before x y xs ys t (h x) a)
    | inr (inl (a, b)) ↦ absurd (first_not_before y x ys xs s (sym (h y)) b)
    | inr (inr e) ↦
        let past : Past before x ys = rw e t.0 in
        let first : (r : Price) → has r (x ∷ xs) ≡ has r (x ∷ ys) = λ r. rw e (rw e at (h r)) in
        rw (same_prices xs ys s.1 t.1 (λ r. same_later x r xs ys s.0 past (first r)), e) refl
  ]

pub ranked_prices-IsRankedPrices :
    (s : Side) (resting : Resting) → IsRankedPrices (before_of s) (ranked_prices s resting)
ranked_prices-IsRankedPrices s [] = tt
ranked_prices-IsRankedPrices s (o ∷ rest) = ground (
  arith,
  ranked_prices-IsRankedPrices s rest,
  insert_price-IsRankedPrices (StrictOrder_of s) o.price (ranked_prices s rest),
)

-- A price is ranked if an order rests there.
pub has-ranked_prices :
    (s : Side) (r : Price) (resting : Resting)
    → has r (ranked_prices s resting) ≡ any_order (orders_at s r resting)
has-ranked_prices s r [] = refl
has-ranked_prices s r (o ∷ rest) = ground (
  arith,
  has-ranked_prices s r rest,
  has-insert_price (StrictOrder_of s) r o.price (ranked_prices s rest),
)
