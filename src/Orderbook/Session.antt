-- ===== src/Orderbook/Session.antt =====
-- The calls that a user of `class Orderbook`, Orderbook Server/orderbook.cpp, makes one after another.
use simple_orderbook_v.Common.{ℕ, suc, ◌≡◌, refl, subst, inl, inr, [], some, arith, Option-cases}
use simple_orderbook_v.Outcome.{Outcome, returned, Returns-value}
use simple_orderbook_v.Order.{Order, OrderId, OrderModify, Side, buy, sell}
use simple_orderbook_v.Levels.{OrderPointer, mem}
use simple_orderbook_v.Levels.Laws.{queue_at}
use simple_orderbook_v.Index.{Heap, OrderEntry, lookup}
use simple_orderbook_v.Matching.{Trades}
use simple_orderbook_v.Orderbook.{Orderbook, add_order, cancel_order, modify_order, empty_orderbook}
use simple_orderbook_v.Orderbook.Invariant.{IsValid, levels_of}
use simple_orderbook_v.Orderbook.Add.{Addition, add_order_cases}
use simple_orderbook_v.Orderbook.Cancel.{cancel_order-none}
use simple_orderbook_v.Orderbook.RoundTrip.{cancel_order_removes}
use simple_orderbook_v.Orderbook.Modify.{
  IsUnused, store, store-IsValid, Modification, modify_order_cases, modify_order-none,
}

pub levels_of-empty : (heap : Heap) (s : Side) → levels_of (empty_orderbook heap) s ≡ []
unfolding empty_orderbook
levels_of-empty heap buy = refl
levels_of-empty heap sell = refl

pub empty-IsUnused : (heap : Heap) (p : OrderPointer) → IsUnused p (empty_orderbook heap)
unfolding queue_at mem
empty-IsUnused heap p s r = rw (levels_of-empty heap s)

pub empty_orderbook-IsValid : (heap : Heap) → IsValid (empty_orderbook heap)
unfolding empty_orderbook lookup queue_at
empty_orderbook-IsValid heap = record {
  indexed = record {
    sorted = λ s. rw (levels_of-empty heap s) tt;
    full = λ s. rw (levels_of-empty heap s) tt;
    distinct = λ s r. rw (levels_of-empty heap s) tt;
    keys = tt;
    at = λ s r p m. absurd (ground (arith, m, empty-IsUnused heap p s r));
    entries = λ id e h. cc;
  };
  uncrossed = tt;
  resting = λ s r p m. ground (arith, empty-IsUnused heap p s r);
}

-- A call that returns, from a book to the next one, with its trades. A new order is put at an address
-- that no level holds, as `make_shared` does.
pub data Call (book : Orderbook) (trades : Trades) (next : Orderbook) : Type 0 where
  adds :
      (fuel : ℕ) (p : OrderPointer) (order : Order)
      → IsUnused p book
      → add_order (suc fuel) p (store p order book.dangling_reads book) ≡ returned (trades, next)
      → Call book trades next
  cancels :
      (id : OrderId) → trades ≡ [] → cancel_order id book ≡ returned next → Call book trades next
  modifies :
      (fuel : ℕ) (p : OrderPointer) (modify : OrderModify)
      → IsUnused p book
      → modify_order (suc fuel) p modify book ≡ returned (trades, next)
      → Call book trades next

-- Books that calls lead to.
pub data Reach (heap : Heap) : Orderbook → Type 0 where
  start : Reach heap (empty_orderbook heap)
  call :
      {book next : Orderbook} (trades : Trades)
      → Reach heap book
      → Call book trades next
      → Reach heap next

module _ {book : Orderbook} {trades : Trades} {next : Orderbook} (v : IsValid book) where
  same_result :
      {r : Outcome (Trades × Orderbook)} (b : Orderbook)
      → IsValid b
      → r ≡ returned ([], b)
      → r ≡ returned (trades, next)
      → IsValid next × (trades ≡ [])
  same_result b w e h = (subst IsValid (ground arith) w, ground arith)

  add-IsValid :
      (p : OrderPointer) {r : Outcome (Trades × Orderbook)}
      → Addition p book v r
      → r ≡ returned (trades, next)
      → IsValid next × (trades ≡ [])
  add-IsValid p (Addition.duplicate c e) h = same_result book v e h
  add-IsValid p (Addition.killed k c e) h = same_result book v e h
  add-IsValid p (Addition.rested n c e w) h = same_result _ w e h
  add-IsValid p (Addition.endless n c e) h = ground arith

  modify-IsValid :
      {p : OrderPointer} {modify : OrderModify} {e : OrderEntry}
      {f : lookup modify.order_id book.orders ≡ some e} {unused : IsUnused p book}
      {r : Outcome (Trades × Orderbook)}
      → Modification p modify e book v f unused r
      → r ≡ returned (trades, next)
      → IsValid next × (trades ≡ [])
  modify-IsValid (Modification.replaced c e w _ _) h = same_result _ w e h
  modify-IsValid (Modification.endless c e) h = ground arith

-- A call that returns leads from a valid book to a valid book, and reports no trade.
pub Call-IsValid :
    {book : Orderbook} {trades : Trades} {next : Orderbook}
    → Call book trades next
    → IsValid book
    → IsValid next × (trades ≡ [])
Call-IsValid {book} (adds fuel p order unused h) v =
    let w = store-IsValid p order book.dangling_reads book unused v in
    add-IsValid w p (add_order_cases p _ w fuel) h
Call-IsValid {book} (cancels id t h) v = elim (Option-cases (lookup id book.orders)) [
  | inl none' ↦ (subst IsValid (ground (arith, cancel_order-none id book none')) v, t)
  | inr (e, found) ↦
      let (b, r, w) = Returns-value (cancel_order_removes id e book v found) in
      (subst IsValid (ground arith) w.valid, t)
]
Call-IsValid {book} (modifies fuel p modify unused h) v =
    elim (Option-cases (lookup modify.order_id book.orders)) [
      | inl none' ↦ same_result v book v (modify_order-none (suc fuel) p modify book none') h
      | inr (e, found) ↦ modify-IsValid v (modify_order_cases p modify e book v found unused fuel) h
    ]

-- So every book that calls lead to is valid, from the empty book on.
pub Reach-IsValid : {heap : Heap} {book : Orderbook} → Reach heap book → IsValid book
Reach-IsValid {heap} start = empty_orderbook-IsValid heap
Reach-IsValid (call trades r c) = (Call-IsValid c (Reach-IsValid r)).0
