-- ===== src/Orderbook/Addresses.antt =====
-- Where the orders of the book of Orderbook Server/orderbook.cpp are put: each `make_shared` takes an
-- address above those that the levels hold.
use simple_orderbook_v.Common.{
  ℕ, suc, ◌+◌, ◌<◌, ◌≤◌, ◌≡◌, refl, inl, inr, true, Bool-cases, Option-cases, [], some, arith,
}
use simple_orderbook_v.Outcome.{Outcome, returned, out_of_fuel}
use simple_orderbook_v.Order.{Order, OrderId, OrderModify, Side, buy, sell, Price, to_order}
use simple_orderbook_v.Levels.{OrderPointer, mem}
use simple_orderbook_v.Index.{OrderEntry, lookup, write}
use simple_orderbook_v.Matching.{Trades}
use simple_orderbook_v.Orderbook.{
  Orderbook, can_match, rest_order, add_order, cancel_order, modify_order,
}
use simple_orderbook_v.Orderbook.Invariant.{queue_of, IsIndexed, IsValid}
use simple_orderbook_v.Orderbook.Rest.{mem-rest_order}
use simple_orderbook_v.Orderbook.Cancel.{
  cancelled, mem-cancelled, cancel_order-some, cancel_order-none,
}
use simple_orderbook_v.Orderbook.Withdraw.{cancelled-IsValid}
use simple_orderbook_v.Orderbook.Add.{Addition, add_order_cases}
use simple_orderbook_v.Orderbook.Modify.{
  IsUnused, store, store-IsValid, prepared, Modification, modify_order_cases, modify_order-none,
}

-- The levels hold addresses below `n` only.
abbrev pub Below : OrderPointer → Orderbook → Type 0
Below n book = (s : Side) (r : Price) (a : OrderPointer) → mem a (queue_of book s r) ≡ true → a < n

pub Below-IsUnused : {n : OrderPointer} (book : Orderbook) → Below n book → IsUnused n book
Below-IsUnused {n} book below s r = elim (Bool-cases (mem n (queue_of book s r))) [
  | inl m ↦ absurd (omega (arith, below s r n m))
  | inr m ↦ m
]

pub Below-store :
    {n : OrderPointer} (p : OrderPointer) (order : Order) (reads : ℕ) (book : Orderbook)
    → Below n book
    → Below n (store p order reads book)
Below-store p order reads book below buy = below buy
Below-store p order reads book below sell = below sell

pub Below-rest_order :
    {n : OrderPointer} (p : OrderPointer) (book : Orderbook)
    → p < n
    → Below n book
    → Below n (rest_order p book)
Below-rest_order p book h below s r a m = elim (mem-rest_order p book s r a m) [
  | inl (e, _, _) ↦ omega (arith, e)
  | inr old ↦ below s r a old
]

pub Below-mono : {n m : OrderPointer} (book : Orderbook) → n ≤ m → Below n book → Below m book
Below-mono book h below s r a x = omega (arith, below s r a x)

pub Below-cancelled :
    {n : OrderPointer} (id : OrderId) (e : OrderEntry) (book : Orderbook)
    → IsIndexed book
    → lookup id book.orders ≡ some e
    → Below n book
    → Below n (cancelled id e.order book)
Below-cancelled id e book v found below s r a m =
    below s r a (mem-cancelled id e book v found s r a m).0

-- A call that returns without a trade in a valid book, or sets off a loop that does not end, where
-- `Meets` says that its order meets another.
pub data Settled (n : OrderPointer) (Meets : Type 0) (r : Outcome (Trades × Orderbook))
    : Type 0 where
  settled :
      (next : Orderbook) → r ≡ returned ([], next) → IsValid next → Below n next → Settled n Meets r
  endless : Meets → r ≡ out_of_fuel → Settled n Meets r

pub can_match-store :
    (p : OrderPointer) (order : Order) (reads : ℕ) (book : Orderbook) (side : Side) (price : Price)
    → can_match (store p order reads book) side price ≡ can_match book side price
unfolding can_match
can_match-store p order reads book buy price = refl
can_match-store p order reads book sell price = refl

-- The modified order would meet another, once the old one is cancelled.
abbrev pub MeetsModified : OrderModify → Orderbook → Type 0
MeetsModified modify book =
    (e : OrderEntry) × (lookup modify.order_id book.orders ≡ some e)
    × (can_match (cancelled modify.order_id e.order book) modify.side modify.price ≡ true)

pub stored_order :
    (p : OrderPointer) (order : Order) (book : Orderbook) → write book.heap p order p ≡ order
unfolding write
stored_order p order book = ground arith

module _ (fuel : ℕ) (p : OrderPointer) (book : Orderbook) (v : IsValid book)
    (below : Below p book) where
  older : Below (suc p) book
  older = Below-mono book (omega arith) below

  pub add_order-Settled :
      (order : Order) (reads : ℕ)
      → Settled
          (suc p)
          (can_match book order.side order.price ≡ true)
          (add_order (suc fuel) p (store p order reads book))
  add_order-Settled order reads =
      let stored = store p order reads book in
      let w = store-IsValid p order reads book (Below-IsUnused book below) v in
      let old : Below (suc p) stored = Below-store p order reads book older in
      elim (add_order_cases p stored w fuel) [
        | Addition.duplicate c r ↦ settled stored r w old
        | Addition.killed k c r ↦ settled stored r w old
        | Addition.rested n c r x ↦
            settled (rest_order p stored) r x (Below-rest_order p stored (omega arith) old)
        | Addition.endless n c r ↦
            endless
              (rw
                (
                  stored_order p order book,
                  can_match-store p order reads book order.side order.price,
                )
                at c)
              r
      ]

  pub modify_order-Settled :
      (modify : OrderModify)
      → Settled (suc p) (MeetsModified modify book) (modify_order (suc fuel) p modify book)
  modify_order-Settled modify = elim (Option-cases (lookup modify.order_id book.orders)) [
    | inl none' ↦ settled book (modify_order-none (suc fuel) p modify book none') v older
    | inr (e, found) ↦
        let unused = Below-IsUnused book below in
        let without = Below-cancelled modify.order_id e book v.indexed found older in
        elim (modify_order_cases p modify e book v found unused fuel) [
          | Modification.replaced c r w _ _ ↦ settled _ r w (
              Below-rest_order p (prepared p modify e book v found unused) (omega arith) (
                Below-store p (to_order modify (book.heap e.order).order_type)
                  ((cancelled modify.order_id e.order book).dangling_reads + 1)
                  (cancelled modify.order_id e.order book) without))
          | Modification.endless c r ↦
              endless
                (
                  e,
                  found,
                  rw
                      (can_match-store p (to_order modify (book.heap e.order).order_type)
                        ((cancelled modify.order_id e.order book).dangling_reads + 1)
                        (cancelled modify.order_id e.order book) modify.side modify.price)
                      at c,
                )
                r
        ]
  ]

  pub cancel_order-Settled :
      (id : OrderId)
      → (next : Orderbook) × (cancel_order id book ≡ returned next) × IsValid next × Below p next
  cancel_order-Settled id = elim (Option-cases (lookup id book.orders)) [
    | inl none' ↦ (book, cancel_order-none id book none', v, below)
    | inr (e, found) ↦ (
      cancelled id e.order book,
      cancel_order-some id e book v.indexed found,
      cancelled-IsValid id e book v found,
      Below-cancelled id e book v.indexed found below,
    )
  ]
