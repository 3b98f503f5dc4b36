-- ===== src/Orderbook/Observed.antt =====
-- `GetOrderInfos` of Orderbook Server/orderbook.cpp, which reads the levels, against the resting orders
-- alone.
use simple_orderbook_v.Common.{
  length, ℕ, ◌+◌, ◌%◌, ◌^◌, ◌≡◌, inl, inr, refl, sym, ap, ◌∙◌, List, [], ◌∷◌, map, All, All-map,
  arith,
}
use simple_orderbook_v.Order.{Side, buy, sell, Price, LevelInfo}
use simple_orderbook_v.Levels.{OrderPointers, Levels, Compare}
use simple_orderbook_v.Levels.Laws.{
  StrictOrder, price_cases, queue_at, Above, IsSorted, NonEmpty, queue_at-Above, Above-trans,
}
use simple_orderbook_v.Index.{Heap}
use simple_orderbook_v.Matching.Volume.{volume}
use simple_orderbook_v.Orderbook.{Orderbook, size, create_level_info, get_order_infos}
use simple_orderbook_v.Orderbook.Best.{queue_at-best}
use simple_orderbook_v.Orderbook.Infos.{infos_of, get_order_infos-IsDepth, IsDepth}
use simple_orderbook_v.Orderbook.Invariant.{
  before_of, StrictOrder_of, levels_of, queue_of, IsIndexed,
}
use simple_orderbook_v.Orderbook.Shows.{Shows}
use simple_orderbook_v.Orderbook.Spec.{Resting, orders_at}
use simple_orderbook_v.Orderbook.Spec.Depth.{
  open_quantity, level_info, side_infos, level_infos, ranked_prices, has, Past, IsRankedPrices,
  any_order, same_prices, ranked_prices-IsRankedPrices, has-ranked_prices,
}

abbrev prices_of : Levels → List Price
prices_of levels = map (λ (l : Price × OrderPointers). l.0) levels

prices_of-Past :
    (before : Compare) (p : Price) (levels : Levels)
    → Above before p levels
    → Past before p (prices_of levels)
prices_of-Past before p [] a = tt
prices_of-Past before p ((q, os) ∷ levels) a = (a.0, prices_of-Past before p levels a.1)

prices_of-IsRankedPrices :
    (before : Compare) (levels : Levels)
    → IsSorted before levels
    → IsRankedPrices before (prices_of levels)
prices_of-IsRankedPrices before [] s = tt
prices_of-IsRankedPrices before ((q, os) ∷ levels) s =
    (prices_of-Past before q levels s.0, prices_of-IsRankedPrices before levels s.1)

-- The levels are where orders are.
has-prices_of :
    {before : Compare} (o : StrictOrder before) (heap : Heap) (r : Price) (levels : Levels)
    → IsSorted before levels
    → NonEmpty levels
    → has r (prices_of levels) ≡ any_order (map heap (queue_at before r levels))
unfolding queue_at
has-prices_of o heap r [] s n = refl
has-prices_of {before} o heap r ((q, []) ∷ levels) s n = absurd (ground (arith, n.0))
has-prices_of {before} o heap r ((q, x ∷ os) ∷ levels) s n =
    let later = has-prices_of o heap r levels s.1 n.1 in
    elim (price_cases o r q) [
      | inl (a, b) ↦
          let none_there = queue_at-Above o r levels (Above-trans o r q levels a s.0) in
          ground (arith, a, none_there, later)
      | inr (inl (a, b)) ↦ ground (arith, a, b, later)
      | inr (inr e) ↦ rw (e, queue_at-best before o q (x ∷ os) levels) (ground arith)
    ]

open_quantity-volume :
    (heap : Heap) (q : OrderPointers) → open_quantity (map heap q) ≡ volume heap q
unfolding volume
open_quantity-volume heap [] = refl
open_quantity-volume heap (x ∷ q) =
    ap (λ (n : ℕ). (heap x).remaining_quantity + n) (open_quantity-volume heap q)

infos-prices :
    (heap : Heap) (g : Price → ℕ) (levels : Levels)
    → All (λ (i : LevelInfo). i.quantity ≡ g i.price) (map (create_level_info heap) levels)
    → map (create_level_info heap) levels
      ≡ map (λ r. record { price = r; quantity = g r }) (prices_of levels)
unfolding create_level_info
infos-prices heap g [] a = refl
infos-prices heap g ((q, os) ∷ levels) a = rw (a.0, infos-prices heap g levels a.1) refl

module _ (book : Orderbook) (resting : Resting) (v : IsIndexed book)
    (shows : Shows book resting) where
  same_ranks : (s : Side) → prices_of (levels_of book s) ≡ ranked_prices s resting
  same_ranks s =
      same_prices (StrictOrder_of s) (prices_of (levels_of book s)) (ranked_prices s resting)
        (prices_of-IsRankedPrices (before_of s) (levels_of book s) (v.sorted s))
        (ranked_prices-IsRankedPrices s resting)
        (λ r.
          has-prices_of (StrictOrder_of s) book.heap r (levels_of book s) (v.sorted s) (v.full s)
          ∙ ap any_order (shows.queues s r)
          ∙ sym (has-ranked_prices s r resting))

  same_quantity :
      (s : Side) (i : LevelInfo)
      → IsDepth book s i
      → i.quantity ≡ open_quantity (orders_at s i.price resting) % 2 ^ 32
  same_quantity s i d =
      d
      ∙ ap (λ (n : ℕ). n % 2 ^ 32)
          (sym (open_quantity-volume book.heap (queue_of book s i.price))
            ∙ ap open_quantity (shows.queues s i.price))

  infos_of_lem : (s : Side) → infos_of book s ≡ map (create_level_info book.heap) (levels_of book s)
  unfolding get_order_infos
  infos_of_lem buy = refl
  infos_of_lem sell = refl

  same_infos : (s : Side) → infos_of book s ≡ side_infos s resting
  same_infos s =
      let quantities =
        All-map (IsDepth book s)
          (λ (i : LevelInfo). i.quantity ≡ (level_info s resting i.price).quantity)
          (infos_of book s) (same_quantity s) (get_order_infos-IsDepth book s v).1 in
      infos_of_lem s
      ∙ infos-prices book.heap (λ r. (level_info s resting r).quantity) (levels_of book s)
          (rw (infos_of_lem s) at quantities)
      ∙ ap (map (level_info s resting)) (same_ranks s)

  -- The levels that `GetOrderInfos` returns are those of the resting orders, whatever the book's levels,
  -- index and addresses are.
  pub get_order_infos-level_infos : get_order_infos book ≡ level_infos resting
  get_order_infos-level_infos = rw (sym (same_infos buy), sym (same_infos sell)) refl

  -- The book's `Size` is the number of its resting orders.
  pub size-length : size book ≡ length resting
  unfolding size
  size-length = shows.counted
