-- ===== src/Matching/Priority.antt =====
-- In what order the inner loop of `MatchOrders`, Orderbook Server/orderbook.cpp, serves a list.
use simple_orderbook_v.Common.{
  ℕ, ◌≤◌, ◌≡◌, refl, sym, subst, ap, ◌<◌, [], ◌∷◌, arith, leb, if◌then◌else◌, true, false, All,
  Bool-cases, inl, inr, ◌⊎◌, ◌∙◌,
}
use simple_orderbook_v.Outcome.{Returns}
use simple_orderbook_v.Levels.{OrderPointer, OrderPointers, mem}
use simple_orderbook_v.Index.{Heap, write}
use simple_orderbook_v.Matching.{Matching, match_queues}
use simple_orderbook_v.Matching.Front.{remaining, heap_after, after_front}
use simple_orderbook_v.Matching.Loop.{
  Apart, IsDone, Front, work, match_queues_rule, FrontApart, front-Apart,
}
use simple_orderbook_v.Matching.Volume.{bids-after_front, asks-after_front, heap-after_front}

abbrev pub Same : Heap → Heap → OrderPointers → Type 0
Same h h' ps = All (λ p. h' p ≡ h p) ps

-- From the heap `h` to `h'` the orders of a list are served from its front: those that left it are
-- filled, and of those that stay only the first may have been filled in part.
abbrev pub Served : Heap → Heap → OrderPointers → OrderPointers → Type 0
Served h h' [] left = left ≡ []
Served h h' (p ∷ ps) left =
    ((remaining h' p ≡ 0) × Served h h' ps left)
    ⊎ ((left ≡ p ∷ ps) × (remaining h' p ≤ remaining h p) × Same h h' ps)

Same-refl : (h : Heap) (ps : OrderPointers) → Same h h ps
Same-refl h [] = tt
Same-refl h (p ∷ ps) = (refl, Same-refl h ps)

Same-trans : (h h1 h' : Heap) (ps : OrderPointers) → Same h h1 ps → Same h1 h' ps → Same h h' ps
Same-trans h h1 h' [] s t = tt
Same-trans h h1 h' (p ∷ ps) s t = (t.0 ∙ s.0, Same-trans h h1 h' ps s.1 t.1)

Served-refl : (h : Heap) (ps : OrderPointers) → Served h h ps ps
Served-refl h [] = refl
Served-refl h (p ∷ ps) = inr (refl, omega arith, Same-refl h ps)

module _ (h h1 h' : Heap) (left : OrderPointers) where
  Served-Same : (ps : OrderPointers) → Same h h1 ps → Served h1 h' ps left → Served h h' ps left
  Served-Same [] s v = v
  Served-Same (p ∷ ps) s (inl (e, v)) = inl (e, Served-Same ps s.1 v)
  Served-Same (p ∷ ps) s (inr (e, l, t)) = inr (e, ground (arith, s.0), Same-trans h h1 h' ps s.1 t)

  Served-front :
      (p : OrderPointer) (ps : OrderPointers)
      → remaining h1 p ≤ remaining h p
      → Same h h1 ps
      → Served h1 h' (p ∷ ps) left
      → Served h h' (p ∷ ps) left
  Served-front p ps l s (inl (e, v)) = inl (e, Served-Same ps s v)
  Served-front p ps l s (inr (e, k, t)) = inr (e, omega arith, Same-trans h h1 h' ps s t)

pub Same-heap_after :
    (h : Heap) (b a : OrderPointer) (ps : OrderPointers)
    → mem b ps ≡ false
    → mem a ps ≡ false
    → Same h (heap_after h b a) ps
unfolding write mem
Same-heap_after h b a [] hb ha = tt
Same-heap_after h b a (p ∷ ps) hb ha = ground (arith, Same-heap_after h b a ps)

module _ (h : Heap) (b a : OrderPointer) (bs xs : OrderPointers) (apart : FrontApart b a bs xs)
    (h' : Heap) (left : OrderPointers) where
  bids_round :
      (leb (remaining h b) (remaining h a) ≡ true → h' b ≡ heap_after h b a b)
      → Served
          (heap_after h b a)
          h'
          (if leb (remaining h b) (remaining h a) then bs else b ∷ bs)
          left
      → Served h h' (b ∷ bs) left
  unfolding write
  bids_round stays v = elim (Bool-cases (leb (remaining h b) (remaining h a))) [
    | inl e ↦ inl (bid_spent e, Served-Same h (heap_after h b a) h' left bs same (rw e at v))
    | inr e ↦ Served-front h (heap_after h b a) h' left b bs bid_less same (rw e at v)
  ]
    where
      same : Same h (heap_after h b a) bs
      same = Same-heap_after h b a bs apart.bid_bids apart.ask_bids

      bid_spent : leb (remaining h b) (remaining h a) ≡ true → remaining h' b ≡ 0
      bid_spent e = ground (arith, stays e, apart.differ)

      bid_less : remaining (heap_after h b a) b ≤ remaining h b
      bid_less = ground (arith, apart.differ)

  asks_round :
      (leb (remaining h a) (remaining h b) ≡ true → h' a ≡ heap_after h b a a)
      → Served
          (heap_after h b a)
          h'
          (if leb (remaining h a) (remaining h b) then xs else a ∷ xs)
          left
      → Served h h' (a ∷ xs) left
  unfolding write
  asks_round stays v = elim (Bool-cases (leb (remaining h a) (remaining h b))) [
    | inl e ↦ inl (ask_spent e, Served-Same h (heap_after h b a) h' left xs same (rw e at v))
    | inr e ↦ Served-front h (heap_after h b a) h' left a xs ask_less same (rw e at v)
  ]
    where
      same : Same h (heap_after h b a) xs
      same = Same-heap_after h b a xs apart.bid_asks apart.ask_asks

      ask_spent : leb (remaining h a) (remaining h b) ≡ true → remaining h' a ≡ 0
      ask_spent e = ground (arith, stays e, apart.differ)

      ask_less : remaining (heap_after h b a) a ≤ remaining h a
      ask_less = ground (arith, apart.differ)

-- The lists are served in order, and no other order is touched.
pub record Prioritised (m m' : Matching) : Type 0 where
  pub bids : Served m.heap m'.heap m.bids m'.bids
  pub asks : Served m.heap m'.heap m.asks m'.asks
  pub others :
      (p : OrderPointer) → mem p m.bids ≡ false → mem p m.asks ≡ false → m'.heap p ≡ m.heap p

module _ (b a : OrderPointer) (bs xs : OrderPointers) (m m' : Matching) (f : Front b a bs xs m)
    (apart : FrontApart b a bs xs) (later : Prioritised (after_front b a m) m') where
  -- An order that is not in the lists after the round is left alone from there on.
  rest_same :
      (p : OrderPointer)
      → mem p (if leb (remaining m.heap b) (remaining m.heap a) then bs else b ∷ bs) ≡ false
      → mem p (if leb (remaining m.heap a) (remaining m.heap b) then xs else a ∷ xs) ≡ false
      → m'.heap p ≡ heap_after m.heap b a p
  rest_same p hb ha =
      later.others p (rw (bids-after_front b a bs xs m f) hb)
        (rw (asks-after_front b a bs xs m f) ha)
      ∙ ap (λ (h : Heap). h p) (heap-after_front b a m)

  round-bids : Served m.heap m'.heap (b ∷ bs) m'.bids
  unfolding mem
  round-bids =
      bids_round m.heap b a bs xs apart m'.heap m'.bids
        (λ e. rest_same b (rw e apart.bid_bids) (ground (arith, apart.bid_asks, apart.differ)))
        (rw (bids-after_front b a bs xs m f, heap-after_front b a m) at later.bids)

  round-asks : Served m.heap m'.heap (a ∷ xs) m'.asks
  unfolding mem
  round-asks =
      asks_round m.heap b a bs xs apart m'.heap m'.asks
        (λ e. rest_same a (ground (arith, apart.ask_bids, apart.differ)) (rw e apart.ask_asks))
        (rw (asks-after_front b a bs xs m f, heap-after_front b a m) at later.asks)

  round-others :
      (p : OrderPointer) → mem p (b ∷ bs) ≡ false → mem p (a ∷ xs) ≡ false → m'.heap p ≡ m.heap p
  unfolding mem write
  round-others p hb ha = ground (arith, rest_same p)

  round-Prioritised : Prioritised m m'
  round-Prioritised = record {
    bids = subst (λ l. Served m.heap m'.heap l m'.bids) (sym f.0) round-bids;
    asks = subst (λ l. Served m.heap m'.heap l m'.asks) (sym f.1) round-asks;
    others = λ p hb ha.
        round-others p (subst (λ l. mem p l ≡ false) f.0 hb) (subst (λ l. mem p l ≡ false) f.1 ha);
  }

-- The loop serves both lists from the front and touches no other order.
pub match_queues-Prioritised :
    (fuel : ℕ) (m : Matching)
    → Apart m.bids m.asks
    → work m < fuel
    → Returns (λ m'. Prioritised m m' × IsDone m') (match_queues fuel m)
match_queues-Prioritised =
    match_queues_rule Prioritised
      (λ m. record {
        bids = Served-refl m.heap m.bids;
        asks = Served-refl m.heap m.asks;
        others = λ p hb ha. refl;
      })
      λ b a bs xs m m' f apart later.
        round-Prioritised b a bs xs m m' f (front-Apart b a apart) later
