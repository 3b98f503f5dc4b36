-- ===== src/Orderbook/View.antt =====
-- Books of Orderbook Server/orderbook.cpp that look alike from outside: their views are equal.
mod Examples
use simple_orderbook_v.Common.{
  ℕ, suc, ◌≡◌, refl, sym, ap, ◌∙◌, inl, inr, Option, Option-cases, none, some, List, [], ◌∷◌, arith,
}
use simple_orderbook_v.Outcome.{Outcome, returned, out_of_fuel}
use simple_orderbook_v.Order.{Order, Side, Price}
use simple_orderbook_v.Levels.{OrderPointer}
use simple_orderbook_v.Matching.{Trades}
use simple_orderbook_v.Orderbook.{Orderbook, can_match, get_order_infos}
use simple_orderbook_v.Orderbook.Meets.{can_match-meets_any}
use simple_orderbook_v.Orderbook.Observed.{get_order_infos-level_infos}
use simple_orderbook_v.Orderbook.Refinement.{Faithful}
use simple_orderbook_v.Orderbook.Replay.{
  Command, add, cancel, modify, run, replay, replays, runs_on, run-Replays,
}
use simple_orderbook_v.Orderbook.Spec.{Resting, place, replace}
use simple_orderbook_v.Orderbook.Spec.View.{
  View, SameView, seen, place_view, cancel_view, replace_view, meets_view, infos_view,
}
use mathlib.Core.Quot

-- A valid book with this view.
pub record HasView (n : OrderPointer) (book : Orderbook) (view : View) : Type 0 where
  pub resting : Resting
  pub faithful : Faithful n book resting
  pub viewed : Quot.mk resting ≡ view

abbrev pub see_then : Option View → (View → Option View) → Option View
see_then none k = none
see_then (some view) k = k view

-- Calls on the view alone.
abbrev pub replay_view : List Command → View → Option View
replay_view [] view = some view
replay_view (add order ∷ commands) view = see_then (place_view order view) (replay_view commands)
replay_view (cancel id ∷ commands) view = replay_view commands (cancel_view id view)
replay_view (modify change ∷ commands) view =
    see_then (replace_view change view) (replay_view commands)

seen-replay :
    (commands : List Command) (resting : Resting)
    → seen (replay commands resting) ≡ replay_view commands (Quot.mk resting)
unfolding place_view cancel_view replace_view
seen-replay [] resting = refl
seen-replay (add order ∷ commands) resting = elim (Option-cases (place order resting)) [
  | inl e ↦ rw e refl
  | inr (next, e) ↦ rw e (seen-replay commands next)
]
seen-replay (cancel id ∷ commands) resting = seen-replay commands _
seen-replay (modify change ∷ commands) resting = elim (Option-cases (replace change resting)) [
  | inl e ↦ rw e refl
  | inr (next, e) ↦ rw e (seen-replay commands next)
]

-- What a book answers is in its view.
module _ {n : OrderPointer} {book : Orderbook} {view : View} (h : HasView n book view) where
  pub get_order_infos-infos_view : get_order_infos book ≡ infos_view view
  unfolding infos_view
  get_order_infos-infos_view =
      get_order_infos-level_infos book h.resting h.faithful.valid.indexed h.faithful.shows
      ∙ ap infos_view h.viewed

  pub can_match-meets_view :
      (s : Side) (price : Price) → can_match book s price ≡ meets_view s price view
  unfolding meets_view
  can_match-meets_view s price =
      can_match-meets_any book h.resting h.faithful.valid.indexed h.faithful.shows s price
      ∙ ap (meets_view s price) h.viewed

-- Two runs of calls: both end in books of one view, without a trade and with the same answers, or neither
-- ends.
pub data Alike (q r : Outcome (Trades × Orderbook)) : Type 0 where
  alike :
      (m n : OrderPointer) (first second : Orderbook) (view : View)
      → q ≡ returned ([], first)
      → r ≡ returned ([], second)
      → HasView m first view
      → HasView n second view
      → get_order_infos first ≡ get_order_infos second
      → ((s : Side) (price : Price) → can_match first s price ≡ can_match second s price)
      → Alike q r
  neither : q ≡ out_of_fuel → r ≡ out_of_fuel → Alike q r

-- A run of calls does to the book's view what it does to the view alone.
data Views (spec : Option View) (r : Outcome (Trades × Orderbook)) : Type 0 where
  views :
      (n : OrderPointer) (next : Orderbook) (view : View)
      → spec ≡ some view
      → r ≡ returned ([], next)
      → HasView n next view
      → Views spec r
  goes_on : spec ≡ none → r ≡ out_of_fuel → Views spec r

run-Views :
    (fuel : ℕ) (commands : List Command) (p : OrderPointer) (book : Orderbook) (view : View)
    → HasView p book view
    → Views (replay_view commands view) (run (suc fuel) commands p book)
run-Views fuel commands p book view h =
    let same = seen-replay commands h.resting ∙ ap (replay_view commands) h.viewed in
    elim (run-Replays fuel commands p book h.resting h.faithful) [
      | replays n next resting e r f ↦
          views n next (Quot.mk resting) (sym same ∙ ap seen e) r
            (record { resting = resting; faithful = f; viewed = refl })
      | runs_on e r ↦ goes_on (sym same ∙ ap seen e) r
    ]

-- Any sequence of calls on two valid books of one view: neither ends, or both return without a trade in
-- books that have one view again and answer `GetOrderInfos` and `CanMatch` alike.
pub run-Alike :
    (fuel : ℕ) (commands : List Command) (p q : OrderPointer) (first second : Orderbook)
    (view : View)
    → HasView p first view
    → HasView q second view
    → Alike (run (suc fuel) commands p first) (run (suc fuel) commands q second)
run-Alike fuel commands p q first second view h k =
    both (run-Views fuel commands p first view h) (run-Views fuel commands q second view k)
  where
    both :
        {spec : Option View} {x y : Outcome (Trades × Orderbook)}
        → Views spec x
        → Views spec y
        → Alike x y
    both (views m a v e x f) (views n b w d y g) =
        let one : w ≡ v = ground (arith, e, d) in
        let g' : HasView n b v = rw one at g in
        alike m n a b v x y f g'
          (get_order_infos-infos_view f ∙ sym (get_order_infos-infos_view g'))
          (λ s price. can_match-meets_view f s price ∙ sym (can_match-meets_view g' s price))
    both (views m a v e x f) (goes_on d y) = absurd (ground (arith, e, d))
    both (goes_on e x) (views n b w d y g) = absurd (ground (arith, e, d))
    both (goes_on e x) (goes_on d y) = neither x y
