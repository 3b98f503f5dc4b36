-- ===== src/Matching/Loop.antt =====
-- The inner loop of `MatchOrders`, Orderbook Server/orderbook.cpp, over lists that share no order.
use simple_orderbook_v.Common.{
  ℕ, zero, suc, ◌+◌, ◌<◌, ◌≡◌, ◌≢◌, refl, ◌⊎◌, inl, inr, [], ◌∷◌, arith, false, length, All,
  All-map,
}
use simple_orderbook_v.Outcome.{returned, Returns, returns, Returns-mono, ◌>>=◌}
use simple_orderbook_v.Levels.{OrderPointer, OrderPointers, mem}
use simple_orderbook_v.Levels.Queue.{Distinct}
use simple_orderbook_v.Matching.{Matching, match_front, match_queues}
use simple_orderbook_v.Matching.Front.{after_front, match_front_lem}

-- No order stands twice in a list, or in both.
pub record Apart (bids asks : OrderPointers) : Type 0 where
  pub bids_distinct : Distinct bids
  pub asks_distinct : Distinct asks
  pub no_common : All (λ p. mem p asks ≡ false) bids

pub ne_of_Apart : (b a : OrderPointer) {bs xs : OrderPointers} → Apart (b ∷ bs) (a ∷ xs) → b ≢ a
unfolding mem
ne_of_Apart b a apart e = ground (arith, apart.no_common)

pub pop_bid-Apart : (b : OrderPointer) {bs xs : OrderPointers} → Apart (b ∷ bs) xs → Apart bs xs
pop_bid-Apart b apart = record {
  bids_distinct = apart.bids_distinct.1;
  asks_distinct = apart.asks_distinct;
  no_common = apart.no_common.1;
}

pub pop_ask-Apart : (a : OrderPointer) {bs xs : OrderPointers} → Apart bs (a ∷ xs) → Apart bs xs
unfolding mem
pop_ask-Apart a {bs} {xs} apart = record {
  bids_distinct = apart.bids_distinct;
  asks_distinct = apart.asks_distinct.1;
  no_common =
      All-map (λ p. mem p (a ∷ xs) ≡ false) (λ p. mem p xs ≡ false) bs (λ p h. ground arith)
        apart.no_common;
}

not-mem_of_no_common :
    (a : OrderPointer) (bs xs : OrderPointers)
    → All (λ p. mem p (a ∷ xs) ≡ false) bs
    → mem a bs ≡ false
unfolding mem
not-mem_of_no_common a [] xs h = refl
not-mem_of_no_common a (b ∷ bs) xs h = ground (arith, not-mem_of_no_common a bs xs h.1, h.0)

-- The two orders at the front are different, and neither stands behind the other.
pub record FrontApart (b a : OrderPointer) (bs xs : OrderPointers) : Type 0 where
  pub differ : b ≢ a
  pub bid_bids : mem b bs ≡ false
  pub bid_asks : mem b xs ≡ false
  pub ask_bids : mem a bs ≡ false
  pub ask_asks : mem a xs ≡ false

pub front-Apart :
    (b a : OrderPointer) {bs xs : OrderPointers} → Apart (b ∷ bs) (a ∷ xs) → FrontApart b a bs xs
unfolding mem
front-Apart b a {bs} {xs} apart = record {
  differ = ne_of_Apart b a apart;
  bid_bids = apart.bids_distinct.0;
  bid_asks = ground (arith, apart.no_common.0);
  ask_bids = not-mem_of_no_common a bs xs apart.no_common.1;
  ask_asks = apart.asks_distinct.0;
}

-- One of the two lists has been used up.
abbrev pub IsDone : Matching → Type 0
IsDone m = (m.bids ≡ []) ⊎ (m.asks ≡ [])

abbrev pub work : Matching → ℕ
work m = length m.bids + length m.asks

-- What the loop does to its lists in one round.
abbrev pub Front : OrderPointer → OrderPointer → OrderPointers → OrderPointers → Matching → Type 0
Front b a bs xs m = (m.bids ≡ b ∷ bs) × (m.asks ≡ a ∷ xs)

pub after_front-Apart :
    (b a : OrderPointer) (bs xs : OrderPointers) (m : Matching)
    → Front b a bs xs m
    → Apart (b ∷ bs) (a ∷ xs)
    → Apart (after_front b a m).bids (after_front b a m).asks × (work (after_front b a m) < work m)
unfolding after_front
after_front-Apart b a bs xs m f apart =
    let one = pop_bid-Apart b apart in
    let other = pop_ask-Apart a apart in
    let both = pop_ask-Apart a one in ground (arith, f.0, f.1, one, other, both)

module _ (fuel : ℕ) (m : Matching) where
  match_queues-no_bids : m.bids ≡ [] → match_queues (suc fuel) m ≡ returned m
  unfolding match_queues
  match_queues-no_bids e = ground arith

  match_queues-no_asks : m.asks ≡ [] → match_queues (suc fuel) m ≡ returned m
  unfolding match_queues
  match_queues-no_asks e = ground arith

  match_queues-Front :
      (b a : OrderPointer) (bs xs : OrderPointers)
      → Front b a bs xs m
      → match_queues (suc fuel) m ≡ (match_front b a m >>= match_queues fuel)
  unfolding match_queues
  match_queues-Front b a bs xs f = ground arith

-- The rule for the loop: a relation that holds of a state and itself, and that a round before keeps,
-- holds of the states before and after the loop. The loop ends within its fuel, with a list used up.
module _ {ℓ} (R : Matching → Matching → Type ℓ) (stop : (m : Matching) → R m m)
    (round : (b a : OrderPointer) (bs xs : OrderPointers) (m m' : Matching)
      → Front b a bs xs m
      → Apart (b ∷ bs) (a ∷ xs)
      → R (after_front b a m) m'
      → R m m') where
  abbrev pub Ends : ℕ → Type ℓ
  Ends fuel =
      (m : Matching)
      → Apart m.bids m.asks
      → work m < fuel
      → Returns (λ m'. R m m' × IsDone m') (match_queues fuel m)

  match_queues_step :
      (fuel : ℕ) (m : Matching) (bids asks : OrderPointers)
      → m.bids ≡ bids
      → m.asks ≡ asks
      → Apart bids asks
      → work m < suc fuel
      → Ends fuel
      → Returns (λ m'. R m m' × IsDone m') (match_queues (suc fuel) m)
  match_queues_step fuel m [] asks e f apart w ends =
      rw (match_queues-no_bids fuel m e) (returns (stop m, inl e))
  match_queues_step fuel m (b ∷ bs) [] e f apart w ends =
      rw (match_queues-no_asks fuel m f) (returns (stop m, inr f))
  match_queues_step fuel m (b ∷ bs) (a ∷ xs) e f apart w ends =
      let next = after_front-Apart b a bs xs m (e, f) apart in
      rw (match_queues-Front fuel m b a bs xs (e, f), match_front_lem b a m (ne_of_Apart b a apart))
        (Returns-mono (ends (after_front b a m) next.0 (omega arith))
          λ m' (r, done). (round b a bs xs m m' (e, f) apart r, done))

  pub match_queues_rule : (fuel : ℕ) → Ends fuel
  match_queues_rule zero m apart w = absurd (omega arith)
  match_queues_rule (suc fuel) m apart w =
      match_queues_step fuel m m.bids m.asks refl refl apart w (match_queues_rule fuel)
