-- ===== src/Orderbook/Refinement.antt =====
-- The calls of `class Orderbook`, Orderbook Server/orderbook.cpp, beside those of its specification.
use simple_orderbook_v.Common.{
  ℕ, suc, ◌+◌, ◌≡◌, refl, sym, ap, ◌∙◌, inl, inr, true, false, Option, Option-cases, none, some, [],
  ◌∷◌, ◌++◌, arith,
}
use simple_orderbook_v.Outcome.{Outcome, returned, out_of_fuel}
use simple_orderbook_v.Order.{Order, OrderId, OrderModify, to_order}
use simple_orderbook_v.Levels.{OrderPointer}
use simple_orderbook_v.Index.{Heap, OrderEntry, lookup, contains}
use simple_orderbook_v.Index.Laws.{contains-none}
use simple_orderbook_v.Matching.{Trades}
use simple_orderbook_v.Orderbook.{Orderbook, rest_order, add_order, cancel_order, modify_order}
use simple_orderbook_v.Orderbook.Invariant.{IsValid}
use simple_orderbook_v.Orderbook.Add.{Addition, add_order_cases}
use simple_orderbook_v.Orderbook.Addresses.{
  Below, Below-IsUnused, Below-mono, Below-store, Below-rest_order, Below-cancelled, stored_order,
}
use simple_orderbook_v.Orderbook.Cancel.{cancelled, cancel_order-some, cancel_order-none}
use simple_orderbook_v.Orderbook.Meets.{can_match-meets_any}
use simple_orderbook_v.Orderbook.Modify.{store, store-IsValid, modify-add, modify_order-none}
use simple_orderbook_v.Orderbook.Rest.{heap-rest_order, mem-rest_order_new}
use simple_orderbook_v.Orderbook.Shows.{Shows, order_of}
use simple_orderbook_v.Orderbook.Shows.Store.{store-Shows}
use simple_orderbook_v.Orderbook.Shows.Rest.{rest_order-Shows}
use simple_orderbook_v.Orderbook.Shows.Cancel.{cancelled-Shows}
use simple_orderbook_v.Orderbook.Spec.{
  Resting, with_id, without_id, place, replace, place-known, place-killed, place-rested,
  place-endless, without_id-missing,
}
use simple_orderbook_v.Orderbook.Withdraw.{cancelled-IsValid}

-- A valid book that shows the resting orders, with its orders at addresses below `n`.
pub record Faithful (n : OrderPointer) (book : Orderbook) (resting : Resting) : Type 0 where
  pub valid : IsValid book
  pub below : Below n book
  pub shows : Shows book resting

-- A call does what its specification says: it returns a book that shows the orders, without a trade, or
-- does not end.
pub data Refines (n : OrderPointer) (spec : Option Resting) (r : Outcome (Trades × Orderbook))
    : Type 0 where
  implements :
      (next : Orderbook) (resting : Resting)
      → spec ≡ some resting
      → r ≡ returned ([], next)
      → Faithful n next resting
      → Refines n spec r
  diverges : spec ≡ none → r ≡ out_of_fuel → Refines n spec r

with_id-contains :
    (heap : Heap) (id : OrderId) (book : Orderbook) (o : Option Order)
    → order_of heap (lookup id book.orders) ≡ o
    → contains id book.orders ≡ true
    → (x : Order) × (o ≡ some x)
unfolding contains
with_id-contains heap id book o e c = elim (Option-cases (lookup id book.orders)) [
  | inl n ↦ absurd (ground (arith, n, c))
  | inr (f, n) ↦ (heap f.order, ground (arith, n, e))
]

order_of-none :
    (heap : Heap) (id : OrderId) (book : Orderbook)
    → contains id book.orders ≡ false
    → order_of heap (lookup id book.orders) ≡ none
order_of-none heap id book c = ap (order_of heap) (contains-none id book.orders c)

module _ (fuel : ℕ) (p : OrderPointer) (book : Orderbook) (resting : Resting)
    (f : Faithful p book resting) where
  older : Below (suc p) book
  older = Below-mono book (omega arith) f.below

  -- On a stored order.
  added-Refines :
      (order : Order) (reads : ℕ)
      → Addition p
          (store p order reads book)
          (store-IsValid p order reads book (Below-IsUnused book f.below) f.valid)
          (add_order (suc fuel) p (store p order reads book))
      → Refines (suc p) (place order resting) (add_order (suc fuel) p (store p order reads book))
  added-Refines order reads added =
      let stored = store p order reads book in
      let unused = Below-IsUnused book f.below in
      let valid = store-IsValid p order reads book unused f.valid in
      let below = Below-store p order reads book older in
      let shows = store-Shows p order reads book resting f.valid.indexed unused f.shows in
      let same : stored.heap p ≡ order = stored_order p order book in
      let meets = can_match-meets_any stored resting valid.indexed shows order.side order.price in
      elim added [
        | Addition.duplicate c r ↦
            let (x, known) =
              with_id-contains stored.heap order.order_id book _ (shows.index order.order_id)
                (rw same at c) in
            implements stored resting (place-known order resting x known) r
              (record { valid = valid; below = below; shows = shows })
        | Addition.killed k c r ↦
            implements stored resting
              (place-killed order resting (sym meets ∙ rw same at c) (rw same at k)) r
              (record { valid = valid; below = below; shows = shows })
        | Addition.rested n c r w ↦
            implements (rest_order p stored) (resting ++ (order ∷ []))
              (place-rested order resting
                (sym (shows.index order.order_id)
                  ∙ order_of-none stored.heap order.order_id book (rw same at n))
                (sym meets ∙ rw same at c)
                (rw (heap-rest_order p stored, same) at
                  (w.resting _ _ p (mem-rest_order_new p stored))))
              r
              (record {
                valid = w;
                below = Below-rest_order p stored (omega arith) below;
                shows = rw same at (rest_order-Shows p stored resting n shows);
              })
        | Addition.endless n c r ↦
            diverges
              (place-endless order resting
                (sym (shows.index order.order_id)
                  ∙ order_of-none stored.heap order.order_id book (rw same at n))
                (sym meets ∙ rw same at c))
              r
      ]

  pub add_order-Refines :
      (order : Order) (reads : ℕ)
      → Refines (suc p) (place order resting) (add_order (suc fuel) p (store p order reads book))
  add_order-Refines order reads = added-Refines order reads (
      add_order_cases p (store p order reads book)
        (store-IsValid p order reads book (Below-IsUnused book f.below) f.valid) fuel)

-- The order of an ID in the index is the resting order with it.
with_id-some :
    {book : Orderbook} {resting : Resting} (id : OrderId) (e : OrderEntry)
    → Shows book resting
    → lookup id book.orders ≡ some e
    → with_id id resting ≡ some (book.heap e.order)
with_id-some {book} id e shows found = sym (shows.index id) ∙ ap (order_of book.heap) found

with_id-none :
    {book : Orderbook} {resting : Resting} (id : OrderId)
    → Shows book resting
    → lookup id book.orders ≡ none
    → with_id id resting ≡ none
with_id-none {book} id shows missing = sym (shows.index id) ∙ ap (order_of book.heap) missing

module _ (fuel : ℕ) (p : OrderPointer) (book : Orderbook) (resting : Resting)
    (f : Faithful p book resting) where
  -- A cancellation returns, and takes out the order with the ID, if there is one.
  pub cancel_order-Faithful :
      (id : OrderId)
      → (next : Orderbook) × (cancel_order id book ≡ returned next)
        × Faithful p next (without_id id resting)
  cancel_order-Faithful id = elim (Option-cases (lookup id book.orders)) [
    | inl missing ↦ (
      book,
      cancel_order-none id book missing,
      rw (without_id-missing id resting (with_id-none id f.shows missing)) f,
    )
    | inr (e, found) ↦ (
      cancelled id e.order book,
      cancel_order-some id e book f.valid.indexed found,
      record {
        valid = cancelled-IsValid id e book f.valid found;
        below = Below-cancelled id e book f.valid.indexed found f.below;
        shows = cancelled-Shows id e book resting f.valid.indexed found f.shows;
      },
    )
  ]

  pub modify_order-Refines :
      (modify : OrderModify)
      → Refines (suc p) (replace modify resting) (modify_order (suc fuel) p modify book)
  modify_order-Refines modify = elim (Option-cases (lookup modify.order_id book.orders)) [
    | inl missing ↦
        implements book resting (rw (with_id-none modify.order_id f.shows missing, replace) refl)
          (modify_order-none (suc fuel) p modify book missing)
          (record {
            valid = f.valid;
            below = Below-mono book (omega arith) f.below;
            shows = f.shows;
          })
    | inr (e, found) ↦
        let id = modify.order_id in
        let rest : Faithful p (cancelled id e.order book) (without_id id resting) = record {
          valid = cancelled-IsValid id e book f.valid found;
          below = Below-cancelled id e book f.valid.indexed found f.below;
          shows = cancelled-Shows id e book resting f.valid.indexed found f.shows;
        } in
        rw
          (
            with_id-some id e f.shows found,
            modify-add p modify e book f.valid found (Below-IsUnused book f.below) (suc fuel),
            replace,
          )
          (add_order-Refines fuel p (cancelled id e.order book) (without_id id resting) rest
            (to_order modify (book.heap e.order).order_type)
            ((cancelled id e.order book).dangling_reads + 1))
  ]
