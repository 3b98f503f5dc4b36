-- ===== src/Orderbook/Crossing.antt =====
-- The outer loop of `MatchOrders`, Orderbook Server/orderbook.cpp: what it does to a book that is
-- crossed, and to one that is not.
use simple_orderbook_v.Common.{ℕ, zero, suc, ◌+◌, ◌<◌, ◌≡◌, refl, false, ◌∷◌, arith, ltb_ℤ, length}
use simple_orderbook_v.Outcome.{returned, out_of_fuel, Returns, Returns-mono, Returns-value, ◌>>=◌}
use simple_orderbook_v.Order.{Price}
use simple_orderbook_v.Levels.{OrderPointers, Levels}
use simple_orderbook_v.Matching.{Matching, Trades, match_queues}
use simple_orderbook_v.Matching.Loop.{Apart, work, match_queues_rule, after_front-Apart}
use simple_orderbook_v.Orderbook.{Orderbook, match_levels}
use simple_orderbook_v.Orderbook.Invariant.{Uncrossed}

-- The lists that the loop leaves share no order either.
pub match_queues-Apart :
    (fuel : ℕ) (m : Matching)
    → Apart m.bids m.asks
    → work m < fuel
    → Returns (λ m'. Apart m'.bids m'.asks) (match_queues fuel m)
match_queues-Apart fuel m apart w =
    Returns-mono
      (match_queues_rule (λ m m'. Apart m.bids m.asks → Apart m'.bids m'.asks) (λ m k. k)
        (λ b a bs xs m m' f front later _. later (after_front-Apart b a bs xs m f front).0) fuel m
        apart w)
      λ m' (r, done). r apart

-- The best levels of the two sides, whose prices cross.
pub record Crosses (book : Orderbook) : Type 0 where
  pub bid_price : Price
  pub ask_price : Price
  pub best_bids : OrderPointers
  pub best_asks : OrderPointers
  pub more_bids : Levels
  pub more_asks : Levels
  pub bids : book.bids ≡ (bid_price, best_bids) ∷ more_bids
  pub asks : book.asks ≡ (ask_price, best_asks) ∷ more_asks
  pub crossed : ltb_ℤ bid_price ask_price ≡ false
  pub apart : Apart best_bids best_asks

module _ (book : Orderbook) (c : Crosses book) where
  open c use {bid_price, ask_price, best_bids, best_asks, more_bids, more_asks}

  abbrev pub first_pass : Trades → Matching
  first_pass trades = record {
    heap = book.heap;
    orders = book.orders;
    bids = best_bids;
    asks = best_asks;
    trades = trades;
  }

  -- The book after a pass: the lists are shorter, but the two levels stay in their maps.
  abbrev pub after_pass : Matching → Orderbook
  after_pass m = record book {
    heap = m.heap;
    orders = m.orders;
    bids = (bid_price, m.bids) ∷ more_bids;
    asks = (ask_price, m.asks) ∷ more_asks;
  }

  pub after_pass-Crosses : (m : Matching) → Apart m.bids m.asks → Crosses (after_pass m)
  after_pass-Crosses m apart = record {
    bid_price = bid_price;
    ask_price = ask_price;
    best_bids = m.bids;
    best_asks = m.asks;
    more_bids = more_bids;
    more_asks = more_asks;
    bids = refl;
    asks = refl;
    crossed = c.crossed;
    apart = apart;
  }

  pub match_levels-pass :
      (fuel : ℕ) (trades : Trades)
      → match_levels (suc fuel) book trades ≡ (
          match_queues (suc (length best_bids + length best_asks)) (first_pass trades) >>= λ m.
          match_levels fuel (after_pass m) m.trades)
  unfolding match_levels
  match_levels-pass fuel trades = ground (arith, c.bids, c.asks, c.crossed)

-- On a book whose best prices cross, the loop does not end.
pub match_levels-Crosses :
    (fuel : ℕ) (book : Orderbook) (trades : Trades)
    → Crosses book
    → match_levels fuel book trades ≡ out_of_fuel
unfolding match_levels
match_levels-Crosses zero book trades c = refl
match_levels-Crosses (suc fuel) book trades c =
    let (m, e, apart) = Returns-value (
      match_queues-Apart (suc (length c.best_bids + length c.best_asks)) (first_pass book c trades)
        c.apart (omega arith)) in
    rw (match_levels-pass book c fuel trades, e)
      (match_levels-Crosses fuel (after_pass book c m) m.trades (after_pass-Crosses book c m apart))

-- On a book that is not crossed, the loop ends at once.
pub match_levels-Uncrossed :
    (fuel : ℕ) (book : Orderbook) (trades : Trades)
    → Uncrossed book.bids book.asks
    → match_levels (suc fuel) book trades ≡ returned (trades, book)
unfolding match_levels
match_levels-Uncrossed fuel book trades u = ground arith
