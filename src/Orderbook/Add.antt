-- ===== src/Orderbook/Add.antt =====
-- `AddOrder` of Orderbook Server/orderbook.cpp, branch by branch, on a valid book.
use simple_orderbook_v.Common.{
  ℕ, suc, ◌≡◌, refl, subst, inl, inr, true, false, [], ◌∷◌, arith, Bool-cases,
}
use simple_orderbook_v.Outcome.{Outcome, returned, out_of_fuel}
use simple_orderbook_v.Order.{Side, is_fill_and_kill}
use simple_orderbook_v.Levels.{OrderPointer, Levels, mem}
use simple_orderbook_v.Levels.Laws.{NonEmpty}
use simple_orderbook_v.Matching.{Trades}
use simple_orderbook_v.Index.{contains}
use simple_orderbook_v.Orderbook.{
  Orderbook, can_match, rest_order, match_orders, kill_front, add_order,
}
use simple_orderbook_v.Orderbook.Invariant.{before_of, StrictOrder_of, levels_of, IsValid}
use simple_orderbook_v.Orderbook.Rest.{rest_order-IsIndexed, heap-rest_order, mem-rest_order}
use simple_orderbook_v.Orderbook.Best.{queue_at-best, rest-Uncrossed, rest-Crosses}
use simple_orderbook_v.Orderbook.Crossing.{Crosses, match_levels-Crosses, match_levels-Uncrossed}

-- The last step of `MatchOrders` finds nothing to kill on a valid book.
kill_front-IsValid :
    (s : Side) (book : Orderbook) (levels : Levels)
    → IsValid book
    → levels_of book s ≡ levels
    → kill_front levels book ≡ returned book
unfolding kill_front mem
kill_front-IsValid s book [] v e = refl
kill_front-IsValid s book ((price, []) ∷ rest) v e =
    let n = subst NonEmpty e (v.indexed.full s) in ground (arith, n.0)
kill_front-IsValid s book ((price, p ∷ ps) ∷ rest) v e = rw (
    v.resting s price p
      (rw (e, queue_at-best (before_of s) (StrictOrder_of s) price (p ∷ ps) rest) (ground arith)))

module _ (p : OrderPointer) (book : Orderbook) (v : IsValid book) where
  -- A new good-till-cancel order that cannot match rests in a valid book.
  pub rest_order-IsValid :
      contains (book.heap p).order_id book.orders ≡ false
      → is_fill_and_kill (book.heap p).order_type ≡ false
      → can_match book (book.heap p).side (book.heap p).price ≡ false
      → IsValid (rest_order p book)
  rest_order-IsValid new keeps c = record {
    indexed = rest_order-IsIndexed p book v.indexed new;
    uncrossed = rest-Uncrossed (book.heap p).side p book refl v.uncrossed c;
    resting = λ s r a h. elim (mem-rest_order p book s r a h) [
      | inl (x, _, _) ↦ rw (x, heap-rest_order p book) keeps
      | inr old ↦ rw (heap-rest_order p book) (v.resting s r a old)
    ];
  }

  -- What a call of `AddOrder` comes to: with an ID that is in the book, or fill-and-kill with nothing
  -- to match, the order is refused; a good-till-cancel order with nothing to match rests; an order
  -- that can match sets off a loop that does not end.
  pub data Addition (r : Outcome (Trades × Orderbook)) : Type 0 where
    duplicate :
        contains (book.heap p).order_id book.orders ≡ true → r ≡ returned ([], book) → Addition r
    killed :
        is_fill_and_kill (book.heap p).order_type ≡ true
        → can_match book (book.heap p).side (book.heap p).price ≡ false
        → r ≡ returned ([], book)
        → Addition r
    rested :
        contains (book.heap p).order_id book.orders ≡ false
        → can_match book (book.heap p).side (book.heap p).price ≡ false
        → r ≡ returned ([], rest_order p book)
        → IsValid (rest_order p book)
        → Addition r
    endless :
        contains (book.heap p).order_id book.orders ≡ false
        → can_match book (book.heap p).side (book.heap p).price ≡ true
        → r ≡ out_of_fuel
        → Addition r

  match_orders-IsValid :
      (fuel : ℕ) (b : Orderbook) → IsValid b → match_orders (suc fuel) b ≡ returned ([], b)
  unfolding match_orders
  match_orders-IsValid fuel b w = rw (
    match_levels-Uncrossed fuel b [] w.uncrossed,
    kill_front-IsValid Side.buy b b.bids w refl,
    kill_front-IsValid Side.sell b b.asks w refl,
  )

  match_orders-Crosses : (fuel : ℕ) (b : Orderbook) → Crosses b → match_orders fuel b ≡ out_of_fuel
  unfolding match_orders
  match_orders-Crosses fuel b c = rw (match_levels-Crosses fuel b [] c)

  -- On a valid book each call of `AddOrder` is one of these four, for any fuel but none.
  pub add_order_cases : (fuel : ℕ) → Addition (add_order (suc fuel) p book)
  unfolding add_order
  add_order_cases fuel = elim (Bool-cases (contains (book.heap p).order_id book.orders)) [
    | inl old ↦ duplicate old (rw old)
    | inr new ↦ elim (Bool-cases (can_match book (book.heap p).side (book.heap p).price)) [
      | inl c ↦ endless new c (
          ground (
            arith,
            match_orders-Crosses (suc fuel) (rest_order p book)
                (rest-Crosses (book.heap p).side p book refl v.indexed new c),
          ))
      | inr c ↦ elim (Bool-cases (is_fill_and_kill (book.heap p).order_type)) [
        | inl k ↦ killed k c (ground arith)
        | inr k ↦
            let w = rest_order-IsValid new k c in
            rested new c (rw (new, k) (match_orders-IsValid fuel (rest_order p book) w)) w
      ]
    ]
  ]

  -- A new good-till-cancel order that cannot match rests, at the end of the queue at its price.
  pub add_order_rests :
      (fuel : ℕ)
      → contains (book.heap p).order_id book.orders ≡ false
      → is_fill_and_kill (book.heap p).order_type ≡ false
      → can_match book (book.heap p).side (book.heap p).price ≡ false
      → add_order (suc fuel) p book ≡ returned ([], rest_order p book)
  unfolding add_order
  add_order_rests fuel new k c =
      rw (new, k) (match_orders-IsValid fuel (rest_order p book) (rest_order-IsValid new k c))
