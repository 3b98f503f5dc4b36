-- ===== src/Orderbook/Withdraw.antt =====
-- What `CancelOrder` of Orderbook Server/orderbook.cpp leaves of a valid book, and that it undoes
-- `AddOrder`.
use simple_orderbook_v.Common.{
  ◌≡◌, refl, ◌⊎◌, inl, inr, true, false, [], ◌∷◌, some, arith, Bool-cases, ltb_ℤ_trans,
}
use simple_orderbook_v.Order.{Side, buy, sell, Price, OrderId}
use simple_orderbook_v.Levels.{
  OrderPointer, OrderPointers, Levels, Compare, greater, less, mem, is_empty, erase_node, erase,
  update,
}
use simple_orderbook_v.Levels.Laws.{StrictOrder, queue_at, IsSorted, price_cases}
use simple_orderbook_v.Levels.Queue.{removed}
use simple_orderbook_v.Index.{OrderEntry, lookup}
use simple_orderbook_v.Orderbook.{Orderbook}
use simple_orderbook_v.Orderbook.Invariant.{StrictOrder_of, queue_of, IsValid, Uncrossed}
use simple_orderbook_v.Orderbook.Cancel.{
  cancelled, heap-cancelled, mem-cancelled, cancelled-IsIndexed,
}

-- The levels begin at the price or after it.
abbrev Starts : Compare → Price → Levels → Type 0
Starts before price [] = Unit
Starts before price ((q, os) ∷ rest) = (price ≡ q) ⊎ (before price q ≡ true)

Starts-sorted :
    (before : Compare) (q : Price) (os : OrderPointers) (levels : Levels)
    → IsSorted before ((q, os) ∷ levels)
    → Starts before q levels
Starts-sorted before q os [] s = tt
Starts-sorted before q os ((r, xs) ∷ levels) s = inr s.0.0

module _ {before : Compare} (o : StrictOrder before) (p q : Price) (os : OrderPointers)
    (levels : Levels) (s : IsSorted before ((q, os) ∷ levels)) where
  erase-Starts : Starts before q (erase before p ((q, os) ∷ levels))
  unfolding erase
  erase-Starts = elim (price_cases o p q) [
    | inl (x, _) ↦ rw x (inl refl)
    | inr (inl (x, y)) ↦ rw (x, y) (inl refl)
    | inr (inr x) ↦ rw (x, o.irrefl q) (Starts-sorted before q os levels s)
  ]

  -- If the price is not before the first level, the first level stays.
  update-Starts :
      (f : OrderPointers → OrderPointers)
      → before p q ≡ false
      → Starts before q (update before p f ((q, os) ∷ levels))
  unfolding update
  update-Starts f h = ground arith

  mem-not_before :
      (a : OrderPointer) → mem a (queue_at before p ((q, os) ∷ levels)) ≡ true → before p q ≡ false
  unfolding queue_at mem
  mem-not_before a h = ground arith

  removed-Starts :
      (a : OrderPointer)
      → mem a (queue_at before p ((q, os) ∷ levels)) ≡ true
      → Starts before q (removed before p a ((q, os) ∷ levels))
  unfolding removed
  removed-Starts a h =
      elim (Bool-cases (is_empty (erase_node a (queue_at before p ((q, os) ∷ levels))))) [
        | inl e ↦ rw e erase-Starts
        | inr e ↦ rw e (update-Starts (erase_node a) (mem-not_before a h))
      ]

mem-no_levels :
    (before : Compare) (p : Price) (a : OrderPointer) → ¬ (mem a (queue_at before p []) ≡ true)
unfolding queue_at mem
mem-no_levels before p a h = cc

-- Taking an order out keeps the best prices apart.
removed_bid-Uncrossed :
    (p : Price) (a : OrderPointer) (bids asks : Levels)
    → IsSorted greater bids
    → mem a (queue_at greater p bids) ≡ true
    → Uncrossed bids asks
    → Uncrossed (removed greater p a bids) asks
removed_bid-Uncrossed p a [] asks s m u = absurd (mem-no_levels greater p a m)
removed_bid-Uncrossed p a ((q, os) ∷ bids) asks s m u =
    weaken (removed greater p a ((q, os) ∷ bids)) asks
      (removed-Starts (StrictOrder_of buy) p q os bids s a m) u
  where
    weaken :
        (later asks : Levels)
        → Starts greater q later
        → Uncrossed ((q, os) ∷ bids) asks
        → Uncrossed later asks
    weaken [] asks st w = tt
    weaken (l ∷ ls) [] st w = tt
    weaken ((r, xs) ∷ ls) ((k, ys) ∷ more) st w = ground (arith, ltb_ℤ_trans r q k)

removed_ask-Uncrossed :
    (p : Price) (a : OrderPointer) (bids asks : Levels)
    → IsSorted less asks
    → mem a (queue_at less p asks) ≡ true
    → Uncrossed bids asks
    → Uncrossed bids (removed less p a asks)
removed_ask-Uncrossed p a bids [] s m u = absurd (mem-no_levels less p a m)
removed_ask-Uncrossed p a bids ((q, os) ∷ asks) s m u =
    weaken bids (removed less p a ((q, os) ∷ asks))
      (removed-Starts (StrictOrder_of sell) p q os asks s a m) u
  where
    weaken :
        (bids later : Levels)
        → Starts less q later
        → Uncrossed bids ((q, os) ∷ asks)
        → Uncrossed bids later
    weaken [] later st w = tt
    weaken (b ∷ bs) [] st w = tt
    weaken ((k, ys) ∷ more) ((r, xs) ∷ ls) st w = ground (arith, ltb_ℤ_trans k q r)

module _ (id : OrderId) (e : OrderEntry) (book : Orderbook) (v : IsValid book)
    (found : lookup id book.orders ≡ some e) where
  cancelled-Uncrossed :
      (s : Side)
      → (book.heap e.order).side ≡ s
      → mem e.order (queue_of book s (book.heap e.order).price) ≡ true
      → Uncrossed (cancelled id e.order book).bids (cancelled id e.order book).asks
  unfolding cancelled
  cancelled-Uncrossed buy k m = ground (
    arith,
    k,
    removed_bid-Uncrossed (book.heap e.order).price e.order book.bids book.asks
        (v.indexed.sorted buy) m v.uncrossed,
  )
  cancelled-Uncrossed sell k m = ground (
    arith,
    k,
    removed_ask-Uncrossed (book.heap e.order).price e.order book.bids book.asks
        (v.indexed.sorted sell) m v.uncrossed,
  )

  pub cancelled-IsValid : IsValid (cancelled id e.order book)
  cancelled-IsValid = record {
    indexed = cancelled-IsIndexed id e book v.indexed found;
    uncrossed =
        cancelled-Uncrossed (book.heap e.order).side refl (v.indexed.entries id e found).rests;
    resting = λ s r a m.
        rw (heap-cancelled id e.order book)
          (v.resting s r a (mem-cancelled id e book v.indexed found s r a m).0);
  }
