-- ===== src/Levels/Laws.antt =====
-- The laws of the level maps of Orderbook Server/orderbook.cpp, for each comparator that is a strict
-- total order of the prices.
use simple_orderbook_v.Common.{
  ◌≡◌, refl, true, false, [], ◌∷◌, none, some, arith, ltb_ℤ_irrefl, ltb_ℤ_trans, ltb_ℤ_connex, ◌⊎◌,
  inl, inr, ◌≢◌,
}
use simple_orderbook_v.Order.{Price}
use simple_orderbook_v.Levels.{
  OrderPointers, Levels, Compare, greater, less, update, find, erase, is_empty,
}

pub record StrictOrder (before : Compare) : Type 0 where
  pub irrefl : (p : Price) → before p p ≡ false
  pub trans : (p q r : Price) → before p q ≡ true → before q r ≡ true → before p r ≡ true
  pub connex : (p q : Price) → before p q ≡ false → before q p ≡ false → p ≡ q

abbrev pub greater-StrictOrder : StrictOrder greater
greater-StrictOrder = record {
  irrefl = ltb_ℤ_irrefl;
  trans = λ p q r h k. ltb_ℤ_trans r q p k h;
  connex = λ p q h k. ltb_ℤ_connex p q k h;
}

abbrev pub less-StrictOrder : StrictOrder less
less-StrictOrder = record { irrefl = ltb_ℤ_irrefl; trans = ltb_ℤ_trans; connex = ltb_ℤ_connex }

-- The orders at a price, none if there is no such level.
unfoldable pub queue_at : Compare → Price → Levels → OrderPointers
unfolding find
queue_at before price levels = elim (find before price levels) [ none ↦ [] | some os ↦ os ]

-- Every level of `levels` comes after `price`.
abbrev pub Above : Compare → Price → Levels → Type 0
Above before price [] = Unit
Above before price ((p, os) ∷ rest) = (before price p ≡ true) × Above before price rest

abbrev pub IsSorted : Compare → Levels → Type 0
IsSorted before [] = Unit
IsSorted before ((p, os) ∷ rest) = Above before p rest × IsSorted before rest

abbrev pub NonEmpty : Levels → Type 0
NonEmpty [] = Unit
NonEmpty ((p, os) ∷ rest) = (is_empty os ≡ false) × NonEmpty rest

module _ {before : Compare} (o : StrictOrder before) where
  -- Two prices are in one of three relations, which a search tests in turn.
  pub price_cases :
      (p q : Price)
      → ((before p q ≡ true) × (before q p ≡ false))
        ⊎ (((before p q ≡ false) × (before q p ≡ true)) ⊎ (p ≡ q))
  price_cases p q = grind (arith, o.irrefl p, o.trans p q p, o.connex p q)

  pub Above-trans :
      (p q : Price) (levels : Levels)
      → before p q ≡ true
      → Above before q levels
      → Above before p levels
  Above-trans p q [] h a = tt
  Above-trans p q ((r, os) ∷ rest) h a = (o.trans p q r h a.0, Above-trans p q rest h a.1)

  pub queue_at-Above :
      (p : Price) (levels : Levels) → Above before p levels → queue_at before p levels ≡ []
  unfolding queue_at
  queue_at-Above p [] a = refl
  queue_at-Above p ((q, os) ∷ rest) a = ground arith

  pub queue_at-update_self :
      (p : Price) (f : OrderPointers → OrderPointers) (levels : Levels)
      → queue_at before p (update before p f levels) ≡ f (queue_at before p levels)
  unfolding queue_at update
  queue_at-update_self p f [] = ground (arith, o.irrefl p)
  queue_at-update_self p f ((q, os) ∷ rest) =
      ground (arith, o.irrefl p, queue_at-update_self p f rest)

  pub queue_at-update_ne :
      (r p : Price) (f : OrderPointers → OrderPointers) (levels : Levels)
      → r ≢ p
      → queue_at before r (update before p f levels) ≡ queue_at before r levels
  unfolding queue_at update
  queue_at-update_ne r p f [] h = ground (arith, o.connex r p)
  queue_at-update_ne r p f ((q, os) ∷ rest) h = ground (
    arith,
    o.connex r p,
    o.connex q p,
    o.trans r p q,
    o.trans q r p,
    queue_at-update_ne r p f rest h,
  )

  pub Above-update :
      (r p : Price) (f : OrderPointers → OrderPointers) (levels : Levels)
      → before r p ≡ true
      → Above before r levels
      → Above before r (update before p f levels)
  unfolding update
  Above-update r p f [] h a = (h, tt)
  Above-update r p f ((q, os) ∷ rest) h a = ground (arith, Above-update r p f rest)

  pub update-IsSorted :
      (p : Price) (f : OrderPointers → OrderPointers) (levels : Levels)
      → IsSorted before levels
      → IsSorted before (update before p f levels)
  unfolding update
  update-IsSorted p f [] s = (tt, tt)
  update-IsSorted p f ((q, os) ∷ rest) s =
      ground (arith, Above-trans p q rest, Above-update q p f rest, update-IsSorted p f rest)

  pub Above-erase :
      (r p : Price) (levels : Levels)
      → Above before r levels
      → Above before r (erase before p levels)
  unfolding erase
  Above-erase r p [] a = tt
  Above-erase r p ((q, os) ∷ rest) a = ground (arith, Above-erase r p rest)

  pub erase-IsSorted :
      (p : Price) (levels : Levels)
      → IsSorted before levels
      → IsSorted before (erase before p levels)
  unfolding erase
  erase-IsSorted p [] s = tt
  erase-IsSorted p ((q, os) ∷ rest) s = ground (arith, Above-erase q p rest, erase-IsSorted p rest)

  pub queue_at-erase_self :
      (p : Price) (levels : Levels)
      → IsSorted before levels
      → queue_at before p (erase before p levels) ≡ []
  unfolding queue_at erase
  queue_at-erase_self p [] s = refl
  queue_at-erase_self p ((q, os) ∷ rest) s = elim (price_cases p q) [
    | inl (a, b) ↦ ground arith
    | inr (inl (a, b)) ↦ ground (arith, queue_at-erase_self p rest)
    | inr (inr e) ↦ rw (e, o.irrefl q) (queue_at-Above q rest s.0)
  ]

  pub queue_at-erase_ne :
      (r p : Price) (levels : Levels)
      → IsSorted before levels
      → r ≢ p
      → queue_at before r (erase before p levels) ≡ queue_at before r levels
  unfolding queue_at erase
  queue_at-erase_ne r p [] s h = refl
  queue_at-erase_ne r p ((q, os) ∷ rest) s h = ground (
    arith,
    o.connex r p,
    o.connex q p,
    queue_at-Above r rest,
    Above-trans r q rest,
    queue_at-erase_ne r p rest s.1 h,
  )

  pub update-NonEmpty :
      (p : Price) (f : OrderPointers → OrderPointers) (levels : Levels)
      → is_empty (f (queue_at before p levels)) ≡ false
      → NonEmpty levels
      → NonEmpty (update before p f levels)
  unfolding update queue_at
  update-NonEmpty p f [] h n = (h, tt)
  update-NonEmpty p f ((q, os) ∷ rest) h n = ground (arith, update-NonEmpty p f rest)

  pub erase-NonEmpty :
      (p : Price) (levels : Levels) → NonEmpty levels → NonEmpty (erase before p levels)
  unfolding erase
  erase-NonEmpty p [] n = tt
  erase-NonEmpty p ((q, os) ∷ rest) n = ground (arith, erase-NonEmpty p rest)

  -- A level that an update made is gone when it is erased.
  pub erase-update :
      (p : Price) (f : OrderPointers → OrderPointers) (levels : Levels)
      → queue_at before p levels ≡ []
      → NonEmpty levels
      → erase before p (update before p f levels) ≡ levels
  unfolding queue_at erase update
  erase-update p f [] h n = ground (arith, o.irrefl p)
  erase-update p f ((q, os) ∷ rest) h n = ground (arith, o.irrefl p, erase-update p f rest)

  -- An update is undone by one that takes the level back to what it was.
  pub update-update_undo :
      (p : Price) (f g : OrderPointers → OrderPointers) (levels : Levels)
      → is_empty (queue_at before p levels) ≡ false
      → g (f (queue_at before p levels)) ≡ queue_at before p levels
      → update before p g (update before p f levels) ≡ levels
  unfolding queue_at update
  update-update_undo p f g [] e h = cc
  update-update_undo p f g ((q, os) ∷ rest) e h =
      ground (arith, o.irrefl p, update-update_undo p f g rest)
