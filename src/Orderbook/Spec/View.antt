-- ===== src/Orderbook/Spec/View.antt =====
-- What users of the book of Orderbook Server/orderbook.cpp can see of its resting orders: the order of
-- arrival within a level, and not between levels.
use simple_orderbook_v.Common.{
  ◌≡◌, refl, sym, ap, ◌∙◌, inl, inr, Bool, true, Bool-cases, Option, Option-cases, none, some, List,
  [], ◌∷◌, ◌++◌, arith, if◌then◌else◌, ◌==◌, map,
}
use simple_orderbook_v.Order.{
  Order, OrderId, OrderModify, Side, buy, sell, Price, to_order, is_fill_and_kill,
  OrderbookLevelInfos,
}
use simple_orderbook_v.Orderbook.Invariant.{StrictOrder_of}
use simple_orderbook_v.Orderbook.Spec.{
  Resting, orders_at, with_id, without_id, meets_any, place, replace, place-known, place-killed,
  place-rested, place-endless, orders_at-append, with_id-append, orders_at-without_id,
  with_id-without_id,
}
use simple_orderbook_v.Orderbook.Spec.Depth.{
  ranked_prices, level_info, side_infos, level_infos, any_order, same_prices,
  ranked_prices-IsRankedPrices, has-ranked_prices,
}
use simple_orderbook_v.Orderbook.Spec.Met.{other, meets_any-orders_at, meets_any-Met}
use mathlib.Core.Quot
use mathlib.Core.Quot.{Quot, Quot-set}

pub record SameView (a b : Resting) : Type 0 where
  pub queues : (s : Side) (r : Price) → orders_at s r a ≡ orders_at s r b
  pub ids : (id : OrderId) → with_id id a ≡ with_id id b

pub SameView-sym : (a b : Resting) → SameView a b → SameView b a
SameView-sym a b v = record { queues = λ s r. sym (v.queues s r); ids = λ id. sym (v.ids id) }

SameView-meets_any :
    (a b : Resting) (s : Side) (price : Price)
    → SameView a b
    → meets_any s price a ≡ true
    → meets_any s price b ≡ true
SameView-meets_any a b s price v h =
    let m = meets_any-Met s price a h in
    meets_any-orders_at s price m.at b m.order m.rest (sym (v.queues (other s) m.at) ∙ m.stands)
      m.accepted

pub meets_any-SameView :
    (a b : Resting) (s : Side) (price : Price)
    → SameView a b
    → meets_any s price a ≡ meets_any s price b
meets_any-SameView a b s price v = elim (Bool-cases (meets_any s price a)) [
  | inl m ↦ m ∙ sym (SameView-meets_any a b s price v m)
  | inr m ↦ elim (Bool-cases (meets_any s price b)) [
    | inl n ↦ absurd (ground (arith, m, SameView-meets_any b a s price (SameView-sym a b v) n))
    | inr n ↦ m ∙ sym n
  ]
]

-- The levels, and what is open there, are the same.
pub level_infos-SameView : (a b : Resting) → SameView a b → level_infos a ≡ level_infos b
level_infos-SameView a b v = rw (same_side_infos buy, same_side_infos sell) refl
  where
    same_ranks : (s : Side) → ranked_prices s a ≡ ranked_prices s b
    same_ranks s =
        same_prices (StrictOrder_of s) (ranked_prices s a) (ranked_prices s b)
          (ranked_prices-IsRankedPrices s a) (ranked_prices-IsRankedPrices s b)
          (λ r.
            has-ranked_prices s r a ∙ ap any_order (v.queues s r) ∙ sym (has-ranked_prices s r b))

    same_infos :
        (s : Side) (prices : List Price) → map (level_info s a) prices ≡ map (level_info s b) prices
    same_infos s [] = refl
    same_infos s (p ∷ prices) = rw (v.queues s p, same_infos s prices) refl

    same_side_infos : (s : Side) → side_infos s a ≡ side_infos s b
    same_side_infos s = same_infos s (ranked_prices s a) ∙ ap (map (level_info s b)) (same_ranks s)

pub without_id-SameView :
    (id : OrderId) (a b : Resting) → SameView a b → SameView (without_id id a) (without_id id b)
without_id-SameView id a b v = record {
  queues = λ s r.
      orders_at-without_id s r id a
      ∙ ap (without_id id) (v.queues s r)
      ∙ sym (orders_at-without_id s r id b);
  ids = λ j.
      with_id-without_id j id a
      ∙ ap (λ o. if j == id then none else o) (v.ids j)
      ∙ sym (with_id-without_id j id b);
}

append-SameView :
    (o : Order) (a b : Resting) → SameView a b → SameView (a ++ (o ∷ [])) (b ++ (o ∷ []))
append-SameView o a b v = record {
  queues = λ s r.
      orders_at-append s r a (o ∷ [])
      ∙ ap (λ l. l ++ orders_at s r (o ∷ [])) (v.queues s r)
      ∙ sym (orders_at-append s r b (o ∷ []));
  ids = λ j. rw (with_id-append j a o, with_id-append j b o, v.ids j) refl;
}

-- The orders after a call, as far as can be seen.

abbrev pub View : Type 0
View = Quot SameView

abbrev pub seen : Option Resting → Option View
seen none = none
seen (some resting) = some (Quot.mk resting)

pub place-SameView :
    (o : Order) (a b : Resting) → SameView a b → seen (place o a) ≡ seen (place o b)
place-SameView o a b v = elim (Option-cases (with_id o.order_id a)) [
  | inr (x, k) ↦
      rw (place-known o a x k, place-known o b x (sym (v.ids o.order_id) ∙ k))
        (ap some (Quot.sound v))
  | inl k ↦
      let l = sym (v.ids o.order_id) ∙ k in
      elim (Bool-cases (meets_any o.side o.price a)) [
        | inl m ↦
            rw
              (
                place-endless o a k m,
                place-endless o b l (SameView-meets_any a b o.side o.price v m),
              )
              refl
        | inr m ↦
            let n = sym (meets_any-SameView a b o.side o.price v) ∙ m in
            elim (Bool-cases (is_fill_and_kill o.order_type)) [
              | inl f ↦ rw (place-killed o a m f, place-killed o b n f) (ap some (Quot.sound v))
              | inr f ↦
                  rw (place-rested o a k m f, place-rested o b l n f)
                    (ap some (Quot.sound (append-SameView o a b v)))
            ]
      ]
]

pub replace-SameView :
    (modify : OrderModify) (a b : Resting)
    → SameView a b
    → seen (replace modify a) ≡ seen (replace modify b)
replace-SameView modify a b v = elim (Option-cases (with_id modify.order_id a)) [
  | inl k ↦ rw (k, sym (v.ids modify.order_id) ∙ k, replace) (ap some (Quot.sound v))
  | inr (x, k) ↦
      rw (k, sym (v.ids modify.order_id) ∙ k, replace)
        (place-SameView (to_order modify x.order_type) (without_id modify.order_id a)
          (without_id modify.order_id b) (without_id-SameView modify.order_id a b v))
]

-- The calls on what can be seen.

unfoldable pub place_view : Order → View → Option View
place_view o = Quot.lift (hlevel (Quot-set)) (λ a. seen (place o a)) (place-SameView o)

unfoldable pub cancel_view : OrderId → View → View
cancel_view id =
    Quot.lift Quot-set (λ a. Quot.mk (without_id id a))
      (λ a b v. Quot.sound (without_id-SameView id a b v))

unfoldable pub replace_view : OrderModify → View → Option View
replace_view modify =
    Quot.lift (hlevel (Quot-set)) (λ a. seen (replace modify a)) (replace-SameView modify)

unfoldable pub meets_view : Side → Price → View → Bool
meets_view s price =
    Quot.lift (hlevel) (meets_any s price) (λ a b v. meets_any-SameView a b s price v)

unfoldable pub infos_view : View → OrderbookLevelInfos
infos_view = Quot.lift (hlevel) level_infos level_infos-SameView
