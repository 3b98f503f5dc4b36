-- ===== src/Orderbook/Meets.antt =====
-- `CanMatch` of Orderbook Server/orderbook.cpp, which looks at the best price of the other side only,
-- against all the resting orders.
use simple_orderbook_v.Common.{
  ◌≡◌, refl, sym, ap, ◌∙◌, inl, inr, Bool, true, false, Bool-cases, [], ◌∷◌, map, arith,
}
use simple_orderbook_v.Order.{Side, buy, sell, Price}
use simple_orderbook_v.Levels.{OrderPointer, OrderPointers, Levels, Compare}
use simple_orderbook_v.Levels.Laws.{StrictOrder, queue_at, IsSorted, Above-trans, queue_at-Above}
use simple_orderbook_v.Orderbook.{Orderbook, can_match}
use simple_orderbook_v.Orderbook.Best.{queue_at-best}
use simple_orderbook_v.Orderbook.Invariant.{
  before_of, StrictOrder_of, levels_of, queue_of, IsIndexed,
}
use simple_orderbook_v.Orderbook.Spec.{Resting, meets_any}
use simple_orderbook_v.Orderbook.Shows.{Shows}
use simple_orderbook_v.Orderbook.Spec.Met.{other, accepts, Met, meets_any-orders_at, meets_any-Met}

accepts_best : Side → Price → Levels → Bool
accepts_best s price [] = false
accepts_best s price ((b, _) ∷ _) = accepts s price b

can_match_lem :
    (book : Orderbook) (s : Side) (price : Price)
    → can_match book s price ≡ accepts_best s price (levels_of book (other s))
unfolding can_match accepts_best
can_match_lem book buy price = ground arith
can_match_lem book sell price = ground arith

-- A price before the best one has no orders.
queue_at-before :
    (before : Compare) (o : StrictOrder before) (r b : Price) (os : OrderPointers) (more : Levels)
    → IsSorted before ((b, os) ∷ more)
    → before r b ≡ true
    → queue_at before r ((b, os) ∷ more) ≡ []
queue_at-before before o r b os more s h =
    queue_at-Above o r ((b, os) ∷ more) (h, Above-trans o r b more h s.0)

accepts_better :
    (s : Side) (price r b : Price)
    → accepts s price r ≡ true
    → before_of (other s) r b ≡ false
    → accepts s price b ≡ true
accepts_better buy price r b a h = ground (arith, a, h)
accepts_better sell price r b a h = ground (arith, a, h)

queue_at-nil : (before : Compare) (r : Price) → queue_at before r [] ≡ []
unfolding queue_at
queue_at-nil before r = refl

best-accepts :
    (s : Side) (price r : Price) (levels : Levels) (x : OrderPointer) (xs : OrderPointers)
    → IsSorted (before_of (other s)) levels
    → queue_at (before_of (other s)) r levels ≡ x ∷ xs
    → accepts s price r ≡ true
    → accepts_best s price levels ≡ true
unfolding accepts_best
best-accepts s price r [] x xs sorted e a =
    absurd (ground (arith, e, queue_at-nil (before_of (other s)) r))
best-accepts s price r ((b, os) ∷ more) x xs sorted e a =
    elim (Bool-cases (before_of (other s) r b)) [
      | inl h ↦ absurd (
          ground (
            arith,
            e,
            queue_at-before (before_of (other s)) (StrictOrder_of (other s)) r b os more sorted h,
          ))
      | inr h ↦ accepts_better s price r b a h
    ]

module _ (book : Orderbook) (resting : Resting) (v : IsIndexed book) (shows : Shows book resting)
    (s : Side) (price : Price) where
  best-meets :
      (levels : Levels)
      → levels_of book (other s) ≡ levels
      → accepts_best s price levels ≡ true
      → meets_any s price resting ≡ true
  unfolding accepts_best
  best-meets [] e a = absurd (ground (arith, a))
  best-meets ((b, []) ∷ more) e a = absurd (ground (arith, rw e at (v.full (other s))))
  best-meets ((b, x ∷ xs) ∷ more) e a =
      let front : queue_of book (other s) b ≡ x ∷ xs =
        rw e (queue_at-best (before_of (other s)) (StrictOrder_of (other s)) b (x ∷ xs) more) in
      meets_any-orders_at s price b resting (book.heap x) (map book.heap xs)
        (sym (shows.queues (other s) b) ∙ ap (λ q. map book.heap q) front) a

  Met-best : Met s price resting → accepts_best s price (levels_of book (other s)) ≡ true
  Met-best m = met-queue (queue_of book (other s) m.at) refl
    where
      met-queue :
          (q : OrderPointers)
          → queue_of book (other s) m.at ≡ q
          → accepts_best s price (levels_of book (other s)) ≡ true
      met-queue [] e =
          absurd
            (ground (arith, ap (λ q. map book.heap q) e, shows.queues (other s) m.at, m.stands))
      met-queue (x ∷ xs) e =
          best-accepts s price m.at (levels_of book (other s)) x xs (v.sorted (other s)) e
            m.accepted

  -- `CanMatch` finds a match exactly if some resting order of the other side accepts the price.
  pub can_match-meets_any : can_match book s price ≡ meets_any s price resting
  can_match-meets_any = can_match_lem book s price ∙ elim (Bool-cases (meets_any s price resting)) [
    | inl m ↦ Met-best (meets_any-Met s price resting m) ∙ sym m
    | inr m ↦ elim (Bool-cases (accepts_best s price (levels_of book (other s)))) [
      | inl a ↦ a ∙ sym (best-meets (levels_of book (other s)) refl a)
      | inr a ↦ a ∙ sym m
    ]
  ]
