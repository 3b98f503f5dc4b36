-- ===== src/Orderbook/Infos.antt =====
-- `GetOrderInfos` and `Size` of Orderbook Server/orderbook.cpp.
use simple_orderbook_v.Common.{
  ℕ, ◌+◌, ◌%◌, ◌^◌, ◌<◌, ◌≡◌, ap, ◌∙◌, true, List, [], ◌∷◌, map, arith, All,
}
use simple_orderbook_v.Order.{Price, LevelInfo, Side, buy, sell}
use simple_orderbook_v.Levels.{OrderPointers, Levels, Compare}
use simple_orderbook_v.Levels.Laws.{StrictOrder, IsSorted, Above, queue_at}
use simple_orderbook_v.Index.{Heap}
use simple_orderbook_v.Matching.Front.{remaining}
use simple_orderbook_v.Matching.Volume.{volume}
use simple_orderbook_v.Orderbook.{Orderbook, sum_remaining, create_level_info, get_order_infos}
use simple_orderbook_v.Orderbook.Invariant.{before_of, StrictOrder_of, queue_of, IsIndexed}
use simple_orderbook_v.Orderbook.Best.{queue_at-best}

-- `std::accumulate` gives the open quantity of the level modulo 2 ^ 32.
sum_remaining-volume :
    (heap : Heap) (acc : ℕ) (ps : OrderPointers)
    → acc < 2 ^ 32
    → sum_remaining heap acc ps ≡ (acc + volume heap ps) % 2 ^ 32
unfolding sum_remaining volume
sum_remaining-volume heap acc [] h = omega arith
sum_remaining-volume heap acc (p ∷ ps) h =
    omega (arith, sum_remaining-volume heap ((acc + remaining heap p) % 2 ^ 32) ps (omega arith))

-- The prices of the levels are strictly sorted.
abbrev pub IsRanked : Compare → List LevelInfo → Type 0
IsRanked before [] = Unit
IsRanked before (i ∷ infos) = All (λ j. before i.price j.price ≡ true) infos × IsRanked before infos

-- Each entry is of a level, with what is open there, modulo 2 ^ 32.
abbrev pub IsDepth : Orderbook → Side → LevelInfo → Type 0
IsDepth book s i = i.quantity ≡ volume book.heap (queue_of book s i.price) % 2 ^ 32

abbrev pub infos_of : Orderbook → Side → List LevelInfo
infos_of book buy = (get_order_infos book).bids
infos_of book sell = (get_order_infos book).asks

infos-Above :
    (before : Compare) (heap : Heap) (p : Price) (levels : Levels)
    → Above before p levels
    → All (λ (j : LevelInfo). before p j.price ≡ true) (map (create_level_info heap) levels)
unfolding create_level_info
infos-Above before heap p [] a = tt
infos-Above before heap p ((q, os) ∷ levels) a = (a.0, infos-Above before heap p levels a.1)

infos-IsRanked :
    (before : Compare) (heap : Heap) (levels : Levels)
    → IsSorted before levels
    → IsRanked before (map (create_level_info heap) levels)
unfolding create_level_info
infos-IsRanked before heap [] s = tt
infos-IsRanked before heap ((q, os) ∷ levels) s =
    (infos-Above before heap q levels s.0, infos-IsRanked before heap levels s.1)

-- In a sorted map the later levels are found behind the first.
queue_at-later :
    {before : Compare} (o : StrictOrder before) (r q : Price) (os : OrderPointers) (levels : Levels)
    → before q r ≡ true
    → queue_at before r ((q, os) ∷ levels) ≡ queue_at before r levels
unfolding queue_at
queue_at-later o r q os levels h = ground (arith, o.trans r q r, o.irrefl r)

All-both {ℓ κ μ ν} :
    {A : Type ℓ} (P : A → Type κ) (Q : A → Type μ) (R : A → Type ν) (xs : List A)
    → ((x : A) → P x → Q x → R x)
    → All P xs
    → All Q xs
    → All R xs
All-both P Q R [] f hp hq = tt
All-both P Q R (x ∷ xs) f hp hq = (f x hp.0 hq.0, All-both P Q R xs f hp.1 hq.1)

infos-IsDepth :
    {before : Compare} (o : StrictOrder before) (heap : Heap) (levels : Levels)
    → IsSorted before levels
    → All
        (λ (i : LevelInfo). i.quantity ≡ volume heap (queue_at before i.price levels) % 2 ^ 32)
        (map (create_level_info heap) levels)
unfolding create_level_info
infos-IsDepth o heap [] s = tt
infos-IsDepth {before} o heap ((q, os) ∷ levels) s = (
  rw (queue_at-best before o q os levels)
      (sum_remaining-volume heap 0 os (omega arith) ∙ ap (λ (n : ℕ). n % 2 ^ 32) (omega arith)),
  All-both (λ (j : LevelInfo). before q j.price ≡ true)
      (λ (i : LevelInfo). i.quantity ≡ volume heap (queue_at before i.price levels) % 2 ^ 32)
      (λ (i : LevelInfo).
        i.quantity ≡ volume heap (queue_at before i.price ((q, os) ∷ levels)) % 2 ^ 32)
      _ (λ i a d. rw (queue_at-later o i.price q os levels a) d)
      (infos-Above before heap q levels s.0) (infos-IsDepth o heap levels s.1),
)

-- `GetOrderInfos` gives the levels of each side from the best price on, each price once, each with
-- what is open there, modulo 2 ^ 32.
pub get_order_infos-IsDepth :
    (book : Orderbook) (s : Side)
    → IsIndexed book
    → IsRanked (before_of s) (infos_of book s) × All (IsDepth book s) (infos_of book s)
unfolding get_order_infos
get_order_infos-IsDepth book buy v = (
  infos-IsRanked (before_of buy) book.heap book.bids (v.sorted buy),
  infos-IsDepth (StrictOrder_of buy) book.heap book.bids (v.sorted buy),
)
get_order_infos-IsDepth book sell v = (
  infos-IsRanked (before_of sell) book.heap book.asks (v.sorted sell),
  infos-IsDepth (StrictOrder_of sell) book.heap book.asks (v.sorted sell),
)
