-- ===== src/Orderbook/Best.antt =====
-- The best levels of the book of Orderbook Server/orderbook.cpp when a new order rests in it: they cross
-- if the order can match, and do not if it cannot.
use simple_orderbook_v.Common.{
  ◌≡◌, refl, ◌∙◌, ◌⊎◌, inl, inr, true, false, [], ◌∷◌, arith, Bool-cases, ltb_ℤ, ltb_ℤ_trans, All,
}
use simple_orderbook_v.Order.{Side, buy, sell, Price}
use simple_orderbook_v.Levels.{
  OrderPointer, OrderPointers, Levels, Compare, greater, less, mem, update, push_back,
}
use simple_orderbook_v.Levels.Laws.{StrictOrder, queue_at}
use simple_orderbook_v.Matching.Loop.{Apart}
use simple_orderbook_v.Index.{contains}
use simple_orderbook_v.Orderbook.{Orderbook, can_match, rest_order}
use simple_orderbook_v.Orderbook.Invariant.{StrictOrder_of, queue_of, IsIndexed, Uncrossed}
use simple_orderbook_v.Orderbook.Rest.{rest_order-IsIndexed}
use simple_orderbook_v.Orderbook.Crossing.{Crosses}

All-of_mem :
    (P : OrderPointer → Type 0) (ps : OrderPointers)
    → ((p : OrderPointer) → mem p ps ≡ true → P p)
    → All P ps
unfolding mem
All-of_mem P [] f = tt
All-of_mem P (p ∷ ps) f = (f p (ground arith), All-of_mem P ps (λ q h. f q (ground arith)))

pub queue_at-best :
    (before : Compare)
    → StrictOrder before
    → (price : Price) (os : OrderPointers) (rest : Levels)
    → queue_at before price ((price, os) ∷ rest) ≡ os
unfolding queue_at
queue_at-best before o price os rest = ground (arith, o.irrefl price)

-- The best levels of an indexed book share no order.
pub best-Apart :
    (book : Orderbook) (bid_price ask_price : Price) (bids asks : OrderPointers)
    (more_bids more_asks : Levels)
    → IsIndexed book
    → book.bids ≡ (bid_price, bids) ∷ more_bids
    → book.asks ≡ (ask_price, asks) ∷ more_asks
    → Apart bids asks
best-Apart book bid_price ask_price bids asks more_bids more_asks v e f = record {
  bids_distinct = rw bid_queue at (v.distinct buy bid_price);
  asks_distinct = rw ask_queue at (v.distinct sell ask_price);
  no_common =
      All-of_mem _ bids
        (λ p h. elim (Bool-cases (mem p asks)) [ inl k ↦ absurd (sides p h k) | inr k ↦ k ]);
}
  where
    bid_queue : queue_of book buy bid_price ≡ bids
    bid_queue = rw e (queue_at-best greater (StrictOrder_of buy) bid_price bids more_bids)

    ask_queue : queue_of book sell ask_price ≡ asks
    ask_queue = rw f (queue_at-best less (StrictOrder_of sell) ask_price asks more_asks)

    sides : (p : OrderPointer) → mem p bids ≡ true → mem p asks ≡ true → ⊥
    sides p h k =
        let b = (v.at buy bid_price p (rw bid_queue h)).side in
        let a = (v.at sell ask_price p (rw ask_queue k)).side in cc

-- The first level after an update is at the price, or the first level of before, which comes earlier.
best-update :
    (before : Compare)
    → StrictOrder before
    → (price : Price) (f : OrderPointers → OrderPointers) (levels : Levels)
    → (q : Price) × (os : OrderPointers) × (rest : Levels) × (update before price f levels
        ≡ (q, os) ∷ rest)
      × ((q ≡ price)
          ⊎ ((before q price ≡ true)
              × (os' : OrderPointers) × (rest' : Levels) × (levels ≡ (q, os') ∷ rest')))
unfolding update
best-update before o price f [] = (price, f [], [], refl, inl refl)
best-update before o price f ((p, os) ∷ rest) = elim (Bool-cases (before price p)) [
  | inl a ↦ (price, f [], (p, os) ∷ rest, rw a, inl refl)
  | inr a ↦ elim (Bool-cases (before p price)) [
    | inl b ↦ (p, os, update before price f rest, rw (a, b), inr (b, os, rest, refl))
    | inr b ↦ (p, f os, rest, rw (a, b), inl (o.connex p price b a))
  ]
]

module _ (p : OrderPointer) (book : Orderbook) where
  bids-rest_order :
      (book.heap p).side ≡ buy
      → ((rest_order p book).bids ≡ update greater (book.heap p).price (push_back p) book.bids)
        × ((rest_order p book).asks ≡ book.asks)
  unfolding rest_order
  bids-rest_order e = ground arith

  asks-rest_order :
      (book.heap p).side ≡ sell
      → ((rest_order p book).asks ≡ update less (book.heap p).price (push_back p) book.asks)
        × ((rest_order p book).bids ≡ book.bids)
  unfolding rest_order
  asks-rest_order e = ground arith

  rest_buy-Uncrossed :
      (book.heap p).side ≡ buy
      → Uncrossed book.bids book.asks
      → can_match book buy (book.heap p).price ≡ false
      → Uncrossed (rest_order p book).bids (rest_order p book).asks
  unfolding can_match
  rest_buy-Uncrossed e u c =
      let (q, os, rest, k, which) =
        best-update greater (StrictOrder_of buy) (book.heap p).price (push_back p) book.bids in
      let (i, j) = bids-rest_order e in
      rw (i, j, k)
        (elim which [ inl x ↦ rw x (ground arith) | inr (x, os', rest', y) ↦ ground arith ])

  rest_sell-Uncrossed :
      (book.heap p).side ≡ sell
      → Uncrossed book.bids book.asks
      → can_match book sell (book.heap p).price ≡ false
      → Uncrossed (rest_order p book).bids (rest_order p book).asks
  unfolding can_match
  rest_sell-Uncrossed e u c =
      let (q, os, rest, k, which) =
        best-update less (StrictOrder_of sell) (book.heap p).price (push_back p) book.asks in
      let (i, j) = asks-rest_order e in
      rw (i, j, k)
        (elim which [ inl x ↦ rw x (ground arith) | inr (x, os', rest', y) ↦ ground arith ])

-- What `CanMatch` found: the other side has a best level, which the price reaches.
buy_reaches :
    (book : Orderbook) (price : Price)
    → can_match book buy price ≡ true
    → (ask_price : Price) × (asks : OrderPointers) × (more_asks : Levels) × (book.asks
        ≡ (ask_price, asks) ∷ more_asks)
      × (ltb_ℤ price ask_price ≡ false)
unfolding can_match
buy_reaches book price c = go book.asks refl
  where
    go :
        (asks : Levels)
        → book.asks ≡ asks
        → (ask_price : Price) × (os : OrderPointers) × (more_asks : Levels) × (book.asks
            ≡ (ask_price, os) ∷ more_asks)
          × (ltb_ℤ price ask_price ≡ false)
    go [] e = ground arith
    go ((a, os) ∷ rest) e = (a, os, rest, e, ground arith)

sell_reaches :
    (book : Orderbook) (price : Price)
    → can_match book sell price ≡ true
    → (bid_price : Price) × (bids : OrderPointers) × (more_bids : Levels) × (book.bids
        ≡ (bid_price, bids) ∷ more_bids)
      × (ltb_ℤ bid_price price ≡ false)
unfolding can_match
sell_reaches book price c = go book.bids refl
  where
    go :
        (bids : Levels)
        → book.bids ≡ bids
        → (bid_price : Price) × (os : OrderPointers) × (more_bids : Levels) × (book.bids
            ≡ (bid_price, os) ∷ more_bids)
          × (ltb_ℤ bid_price price ≡ false)
    go [] e = ground arith
    go ((b, os) ∷ rest) e = (b, os, rest, e, ground arith)

module _ (p : OrderPointer) (book : Orderbook) (v : IsIndexed book)
    (new : contains (book.heap p).order_id book.orders ≡ false) where
  crosses :
      (bid_price ask_price : Price) (bids asks : OrderPointers) (more_bids more_asks : Levels)
      → (rest_order p book).bids ≡ (bid_price, bids) ∷ more_bids
      → (rest_order p book).asks ≡ (ask_price, asks) ∷ more_asks
      → ltb_ℤ bid_price ask_price ≡ false
      → Crosses (rest_order p book)
  crosses bid_price ask_price bids asks more_bids more_asks e f c = record {
    bid_price = bid_price;
    ask_price = ask_price;
    best_bids = bids;
    best_asks = asks;
    more_bids = more_bids;
    more_asks = more_asks;
    bids = e;
    asks = f;
    crossed = c;
    apart =
        best-Apart (rest_order p book) bid_price ask_price bids asks more_bids more_asks
          (rest_order-IsIndexed p book v new) e f;
  }

  rest_buy-Crosses :
      (book.heap p).side ≡ buy
      → can_match book buy (book.heap p).price ≡ true
      → Crosses (rest_order p book)
  rest_buy-Crosses e c =
      let (a, xs, ma, f, r) = buy_reaches book (book.heap p).price c in
      let (q, os, rest, k, which) =
        best-update greater (StrictOrder_of buy) (book.heap p).price (push_back p) book.bids in
      let (i, j) = bids-rest_order p book e in
      crosses q a os xs rest ma (i ∙ k) (j ∙ f) (elim which [
        | inl x ↦ rw x r
        | inr (x, _, _, _) ↦ ground (arith, ltb_ℤ_trans (book.heap p).price q a)
      ])

  rest_sell-Crosses :
      (book.heap p).side ≡ sell
      → can_match book sell (book.heap p).price ≡ true
      → Crosses (rest_order p book)
  rest_sell-Crosses e c =
      let (b, bs, mb, f, r) = sell_reaches book (book.heap p).price c in
      let (q, os, rest, k, which) =
        best-update less (StrictOrder_of sell) (book.heap p).price (push_back p) book.asks in
      let (i, j) = asks-rest_order p book e in
      crosses b q bs os mb rest (j ∙ f) (i ∙ k) (elim which [
        | inl x ↦ rw x r
        | inr (x, _, _, _) ↦ ground (arith, ltb_ℤ_trans b q (book.heap p).price)
      ])

-- An order that is new to the index crosses the book exactly if it can match.
pub rest-Uncrossed :
    (s : Side) (p : OrderPointer) (book : Orderbook)
    → (book.heap p).side ≡ s
    → Uncrossed book.bids book.asks
    → can_match book s (book.heap p).price ≡ false
    → Uncrossed (rest_order p book).bids (rest_order p book).asks
rest-Uncrossed buy p book e u c = rest_buy-Uncrossed p book e u c
rest-Uncrossed sell p book e u c = rest_sell-Uncrossed p book e u c

pub rest-Crosses :
    (s : Side) (p : OrderPointer) (book : Orderbook)
    → (book.heap p).side ≡ s
    → IsIndexed book
    → contains (book.heap p).order_id book.orders ≡ false
    → can_match book s (book.heap p).price ≡ true
    → Crosses (rest_order p book)
rest-Crosses buy p book e v new c = rest_buy-Crosses p book v new e c
rest-Crosses sell p book e v new c = rest_sell-Crosses p book v new e c
