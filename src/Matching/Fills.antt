-- ===== src/Matching/Fills.antt =====
-- The trades that the inner loop of `MatchOrders`, Orderbook Server/orderbook.cpp, makes out of two
-- levels.
use mathlib.Core.List.{append-nil, append_assoc}
use simple_orderbook_v.Common.{
  ℕ, ◌<◌, ◌≡◌, refl, subst, sym, ap, [], ◌∷◌, ◌++◌, arith, leb, if◌then◌else◌, All, Bool-cases, inl,
  inr, ◌∙◌,
}
use simple_orderbook_v.Outcome.{Returns, Returns-mono}
use simple_orderbook_v.Order.{Price, Trade}
use simple_orderbook_v.Levels.{OrderPointer, OrderPointers}
use simple_orderbook_v.Index.{Heap, write}
use simple_orderbook_v.Matching.{Matching, Trades, match_queues, trade_of}
use simple_orderbook_v.Matching.Front.{remaining, traded, heap_after, after_front}
use simple_orderbook_v.Matching.Loop.{
  Apart, IsDone, Front, work, match_queues_rule, FrontApart, front-Apart,
}
use simple_orderbook_v.Matching.Volume.{bids-after_front, asks-after_front, heap-after_front}
use simple_orderbook_v.Matching.Priority.{Same, Same-heap_after}

-- The orders of a level: each has its price and is open.
abbrev pub IsLevel : Heap → Price → OrderPointers → Type 0
IsLevel h price [] = Unit
IsLevel h price (p ∷ ps) = ((h p).price ≡ price) × (0 < remaining h p) × IsLevel h price ps

-- A trade between the levels of two prices: a positive quantity, the same on both sides, at each
-- side's own price.
pub record IsFill (bid_price ask_price : Price) (t : Trade) : Type 0 where
  pub at_bid : t.bid_trade.price ≡ bid_price
  pub at_ask : t.ask_trade.price ≡ ask_price
  pub same_quantity : t.bid_trade.quantity ≡ t.ask_trade.quantity
  pub positive : 0 < t.bid_trade.quantity

IsLevel-Same :
    (h h' : Heap) (price : Price) (ps : OrderPointers)
    → Same h h' ps
    → IsLevel h price ps
    → IsLevel h' price ps
IsLevel-Same h h' price [] s l = tt
IsLevel-Same h h' price (p ∷ ps) s l =
    ground (arith, s.0, l.0, l.1, IsLevel-Same h h' price ps s.1 l.2)

trades-after_front :
    (b a : OrderPointer) (m : Matching)
    → (after_front b a m).trades
      ≡ m.trades ++ trade_of (m.heap b) (m.heap a) (traded m.heap b a) ∷ []
unfolding after_front
trades-after_front b a m = refl

module _ (bid_price ask_price : Price) where
  -- What the loop adds to the trades between two such levels, which stay such levels.
  pub record Filled (m m' : Matching) : Type 0 where
    pub fills : Trades
    pub added : m'.trades ≡ m.trades ++ fills
    pub each : All (IsFill bid_price ask_price) fills
    pub bids : IsLevel m'.heap bid_price m'.bids
    pub asks : IsLevel m'.heap ask_price m'.asks

  abbrev pub Filling : Matching → Matching → Type 0
  Filling m m' = IsLevel m.heap bid_price m.bids → IsLevel m.heap ask_price m.asks → Filled m m'

  module _ (h : Heap) (b a : OrderPointer) (bs xs : OrderPointers) (apart : FrontApart b a bs xs)
      (lb : IsLevel h bid_price (b ∷ bs)) (la : IsLevel h ask_price (a ∷ xs)) where
    bids_IsLevel :
        IsLevel
          (heap_after h b a)
          bid_price
          (if leb (remaining h b) (remaining h a) then bs else b ∷ bs)
    unfolding write
    bids_IsLevel =
        let rest =
          IsLevel-Same h (heap_after h b a) bid_price bs
            (Same-heap_after h b a bs apart.bid_bids apart.ask_bids) lb.2 in
        elim (Bool-cases (leb (remaining h b) (remaining h a))) [
          | inl e ↦ rw e rest
          | inr e ↦
              rw e
                (ground (arith, apart.differ, lb.0, la.0), ground (arith, apart.differ, lb.0), rest)
        ]

    asks_IsLevel :
        IsLevel
          (heap_after h b a)
          ask_price
          (if leb (remaining h a) (remaining h b) then xs else a ∷ xs)
    unfolding write
    asks_IsLevel =
        let rest =
          IsLevel-Same h (heap_after h b a) ask_price xs
            (Same-heap_after h b a xs apart.bid_asks apart.ask_asks) la.2 in
        elim (Bool-cases (leb (remaining h a) (remaining h b))) [
          | inl e ↦ rw e rest
          | inr e ↦
              rw e (ground (arith, apart.differ, la.0), ground (arith, apart.differ, la.0), rest)
        ]

    trade-IsFill : IsFill bid_price ask_price (trade_of (h b) (h a) (traded h b a))
    unfolding trade_of
    trade-IsFill = record {
      at_bid = lb.0;
      at_ask = la.0;
      same_quantity = refl;
      positive = omega (arith, lb.1, la.1);
    }

  fills-after_front :
      (b a : OrderPointer) (bs xs : OrderPointers) (m m' : Matching)
      → Front b a bs xs m
      → FrontApart b a bs xs
      → Filling (after_front b a m) m'
      → Filling m m'
  fills-after_front b a bs xs m m' f apart later lb la =
      let lb' = subst (λ l. IsLevel m.heap bid_price l) f.0 lb in
      let la' = subst (λ l. IsLevel m.heap ask_price l) f.1 la in
      let r =
        later
          (rw (bids-after_front b a bs xs m f, heap-after_front b a m)
            (bids_IsLevel m.heap b a bs xs apart lb' la'))
          (rw (asks-after_front b a bs xs m f, heap-after_front b a m)
            (asks_IsLevel m.heap b a bs xs apart lb' la')) in
      record {
        fills = trade_of (m.heap b) (m.heap a) (traded m.heap b a) ∷ r.fills;
        added =
            r.added
            ∙ ap (λ (ts : Trades). ts ++ r.fills) (trades-after_front b a m)
            ∙ append_assoc m.trades _ r.fills;
        each = (trade-IsFill m.heap b a bs xs apart lb' la', r.each);
        bids = r.bids;
        asks = r.asks;
      }

  -- Between two levels of open orders the loop makes trades of a positive quantity at the prices of
  -- the levels, and leaves such levels.
  pub match_queues-Filled :
      (fuel : ℕ) (m : Matching)
      → Apart m.bids m.asks
      → work m < fuel
      → IsLevel m.heap bid_price m.bids
      → IsLevel m.heap ask_price m.asks
      → Returns (λ m'. Filled m m' × IsDone m') (match_queues fuel m)
  match_queues-Filled fuel m apart w lb la =
      Returns-mono
        (match_queues_rule Filling
          (λ m lb la. record {
            fills = [];
            added = sym (append-nil m.trades);
            each = tt;
            bids = lb;
            asks = la;
          })
          (λ b a bs xs m m' f apart later.
            fills-after_front b a bs xs m m' f (front-Apart b a apart) later)
          fuel m apart w)
        λ m' (r, done). (r lb la, done)
