-- ===== src/Matching/Volume.antt =====
-- What the inner loop of `MatchOrders`, Orderbook Server/orderbook.cpp, does to quantities.
use simple_orderbook_v.Common.{
  ℕ, ◌+◌, ◌<◌, ◌≡◌, refl, ap, [], ◌∷◌, ◌++◌, arith, leb, if◌then◌else◌, false, ◌∙◌, ◌≢◌,
}
use simple_orderbook_v.Outcome.{Returns}
use simple_orderbook_v.Order.{Order}
use simple_orderbook_v.Levels.{OrderPointer, OrderPointers, mem}
use simple_orderbook_v.Index.{Heap, write}
use simple_orderbook_v.Matching.{Matching, Trades, match_queues, trade_of}
use simple_orderbook_v.Matching.Front.{remaining, reduced, traded, heap_after, after_front}
use simple_orderbook_v.Matching.Loop.{
  Apart, IsDone, Front, work, match_queues_rule, FrontApart, front-Apart,
}

-- The open quantity of a list of orders, and the quantity that trades give to either side.
unfoldable pub volume : Heap → OrderPointers → ℕ
volume heap [] = 0
volume heap (p ∷ ps) = remaining heap p + volume heap ps

unfoldable pub bought : Trades → ℕ
bought [] = 0
bought (t ∷ ts) = t.bid_trade.quantity + bought ts

unfoldable pub sold : Trades → ℕ
sold [] = 0
sold (t ∷ ts) = t.ask_trade.quantity + sold ts

bought-append : (ts us : Trades) → bought (ts ++ us) ≡ bought ts + bought us
unfolding bought
bought-append [] us = omega arith
bought-append (t ∷ ts) us = omega (arith, bought-append ts us)

sold-append : (ts us : Trades) → sold (ts ++ us) ≡ sold ts + sold us
unfolding sold
sold-append [] us = omega arith
sold-append (t ∷ ts) us = omega (arith, sold-append ts us)

pub volume-write :
    (heap : Heap) (p : OrderPointer) (order : Order) (ps : OrderPointers)
    → mem p ps ≡ false
    → volume (write heap p order) ps ≡ volume heap ps
unfolding volume write mem
volume-write heap p order [] h = refl
volume-write heap p order (q ∷ ps) h = ground (arith, volume-write heap p order ps)

module _ (heap : Heap) (b a : OrderPointer) where
  volume-heap_after :
      (ps : OrderPointers)
      → mem b ps ≡ false
      → mem a ps ≡ false
      → volume (heap_after heap b a) ps ≡ volume heap ps
  volume-heap_after ps hb ha =
      volume-write (write heap b (reduced (heap b) (traded heap b a))) a
        (reduced (heap a) (traded heap b a)) ps ha
      ∙ volume-write heap b (reduced (heap b) (traded heap b a)) ps hb

  -- The bids of a round, and then the asks, lose what is traded.
  bids_lose :
      (bs : OrderPointers)
      → b ≢ a
      → mem b bs ≡ false
      → mem a bs ≡ false
      → volume
            (heap_after heap b a)
            (if leb (remaining heap b) (remaining heap a) then bs else b ∷ bs)
          + traded heap b a
        ≡ remaining heap b + volume heap bs
  unfolding volume write
  bids_lose bs ne hb ha = ground (arith, volume-heap_after bs)

  asks_lose :
      (xs : OrderPointers)
      → b ≢ a
      → mem b xs ≡ false
      → mem a xs ≡ false
      → volume
            (heap_after heap b a)
            (if leb (remaining heap a) (remaining heap b) then xs else a ∷ xs)
          + traded heap b a
        ≡ remaining heap a + volume heap xs
  unfolding volume write
  asks_lose xs ne hb ha = ground (arith, volume-heap_after xs)

-- Quantities before and after: what left the lists is what the new trades moved.
pub record Conserved (m m' : Matching) : Type 0 where
  pub bids : volume m'.heap m'.bids + bought m'.trades ≡ volume m.heap m.bids + bought m.trades
  pub asks : volume m'.heap m'.asks + sold m'.trades ≡ volume m.heap m.asks + sold m.trades

pub heap-after_front :
    (b a : OrderPointer) (m : Matching) → (after_front b a m).heap ≡ heap_after m.heap b a
unfolding after_front
heap-after_front b a m = refl

volume-front :
    (heap : Heap) (ps : OrderPointers) (p : OrderPointer) (qs : OrderPointers)
    → ps ≡ p ∷ qs
    → volume heap ps ≡ remaining heap p + volume heap qs
unfolding volume
volume-front heap ps p qs e = ap (volume heap) e

-- The lists of a round, at the orders that it finds.
module _ (b a : OrderPointer) (bs xs : OrderPointers) (m : Matching) (f : Front b a bs xs m) where
  pub bids-after_front :
      (after_front b a m).bids
      ≡ (if leb (remaining m.heap b) (remaining m.heap a) then bs else b ∷ bs)
  unfolding after_front
  bids-after_front = ground (arith, f.0)

  pub asks-after_front :
      (after_front b a m).asks
      ≡ (if leb (remaining m.heap a) (remaining m.heap b) then xs else a ∷ xs)
  unfolding after_front
  asks-after_front = ground (arith, f.1)

  pub bought-after_front : bought (after_front b a m).trades ≡ bought m.trades + traded m.heap b a
  unfolding after_front bought
  bought-after_front =
      omega
        (arith, bought-append m.trades (trade_of (m.heap b) (m.heap a) (traded m.heap b a) ∷ []))

  pub sold-after_front : sold (after_front b a m).trades ≡ sold m.trades + traded m.heap b a
  unfolding after_front sold
  sold-after_front =
      omega (arith, sold-append m.trades (trade_of (m.heap b) (m.heap a) (traded m.heap b a) ∷ []))

  pub front-Conserved : FrontApart b a bs xs → Conserved m (after_front b a m)
  front-Conserved apart = record {
    bids =
        rw (bids-after_front, bought-after_front, heap-after_front b a m)
          (omega (
            arith,
            bids_lose m.heap b a bs apart.differ apart.bid_bids apart.ask_bids,
            volume-front m.heap m.bids b bs f.0,
          ));
    asks =
        rw (asks-after_front, sold-after_front, heap-after_front b a m)
          (omega (
            arith,
            asks_lose m.heap b a xs apart.differ apart.bid_asks apart.ask_asks,
            volume-front m.heap m.asks a xs f.1,
          ));
  }

Conserved-trans : {l m n : Matching} → Conserved l m → Conserved m n → Conserved l n
Conserved-trans c d = record { bids = omega arith; asks = omega arith }

-- The loop ends with one list used up, and what left each list is what its trades moved.
pub match_queues-Conserved :
    (fuel : ℕ) (m : Matching)
    → Apart m.bids m.asks
    → work m < fuel
    → Returns (λ m'. Conserved m m' × IsDone m') (match_queues fuel m)
match_queues-Conserved =
    match_queues_rule Conserved (λ m. record { bids = refl; asks = refl })
      λ b a bs xs m m' f apart c.
        Conserved-trans (front-Conserved b a bs xs m f (front-Apart b a apart)) c
