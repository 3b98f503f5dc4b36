-- ===== src/Adapter/Ids/Add.antt =====
-- Requests to add an order to the adapter of Orderbook Server/orderbook_adapter.h.
use simple_orderbook_v.Common.{
  ℕ, suc, ◌+◌, ◌%◌, ◌^◌, ◌<◌, ◌≡◌, refl, true, false, Option-cases, inl, inr, none, some, [], ◌∷◌,
  signed32, arith,
}
use simple_orderbook_v.Outcome.{Outcome, returned, out_of_fuel, unmodelled}
use simple_orderbook_v.Messages.{AddOrderRequest}
use simple_orderbook_v.Order.{Order, OrderId, Side, new_order, is_fill_and_kill}
use simple_orderbook_v.Index.{entry, lookup, contains}
use simple_orderbook_v.Matching.{Trades}
use simple_orderbook_v.Orderbook.{can_match, rest_order}
use simple_orderbook_v.Orderbook.Add.{Addition, add_order_cases}
use simple_orderbook_v.Orderbook.Addresses.{
  Below, Below-IsUnused, Below-mono, Below-store, Below-rest_order, stored_order, can_match-store,
}
use simple_orderbook_v.Orderbook.Invariant.{levels_of}
use simple_orderbook_v.Orderbook.Last.{IsLast}
use simple_orderbook_v.Orderbook.Modify.{store, store-IsValid, store-IsLast, levels_of-store}
use simple_orderbook_v.Orderbook.Rest.{heap-rest_order, mem-rest_order_new, orders-rest_order}
use simple_orderbook_v.Server.Handlers.{side_of, order_type_of}
use simple_orderbook_v.Adapter.{OrderbookNetworkAdapter, process_add_order_request}
use simple_orderbook_v.Adapter.Ids.{IsSoundAdapter, none-contains, IsFreshFrom-add}

-- The order of the request: its type, side, price and quantity under the adapter's next ID.
abbrev pub numbered : AddOrderRequest → OrderbookNetworkAdapter → Side → Order
numbered request a side = record {
  order_type = order_type_of request.order_type;
  order_id = a.next_order_id;
  side = side;
  price = signed32 request.price;
  initial_quantity = request.quantity;
  remaining_quantity = request.quantity;
}

-- What a request to add an order comes to. A good-till-cancel order that cannot match rests last in its
-- queue, under the ID that is returned; a fill-and-kill order that cannot match leaves the levels and
-- the index; an order that can match sets off the loop that does not end; or the side names no side.
pub data Adding (request : AddOrderRequest) (a : OrderbookNetworkAdapter)
    (r : Outcome ((OrderId × Trades) × OrderbookNetworkAdapter)) : Type 0 where
  rested :
      (next : OrderbookNetworkAdapter) (side : Side)
      → side_of request.side ≡ some side
      → can_match a.orderbook side (signed32 request.price) ≡ false
      → is_fill_and_kill (order_type_of request.order_type) ≡ false
      → r ≡ returned ((a.next_order_id, []), next)
      → IsLast a.next_address (numbered request a side) a.orderbook next.orderbook
      → next.next_order_id ≡ suc a.next_order_id
      → IsSoundAdapter next
      → Adding request a r
  killed :
      (next : OrderbookNetworkAdapter) (side : Side)
      → side_of request.side ≡ some side
      → can_match a.orderbook side (signed32 request.price) ≡ false
      → is_fill_and_kill (order_type_of request.order_type) ≡ true
      → r ≡ returned ((a.next_order_id, []), next)
      → next.orderbook.orders ≡ a.orderbook.orders
      → ((s : Side) → levels_of next.orderbook s ≡ levels_of a.orderbook s)
      → next.next_order_id ≡ suc a.next_order_id
      → IsSoundAdapter next
      → Adding request a r
  endless :
      (side : Side)
      → side_of request.side ≡ some side
      → can_match a.orderbook side (signed32 request.price) ≡ true
      → r ≡ out_of_fuel
      → Adding request a r
  left_out : side_of request.side ≡ none → r ≡ unmodelled → Adding request a r

module _ (fuel : ℕ) (a : OrderbookNetworkAdapter) (sound : IsSoundAdapter a) where
  pub process_add_order_request-Adding :
      (request : AddOrderRequest)
      → suc a.next_order_id < 2 ^ 64
      → Adding request a (process_add_order_request (suc fuel) request a)
  unfolding process_add_order_request new_order lookup
  process_add_order_request-Adding request small = elim (Option-cases (side_of request.side)) [
    | inl e ↦ left_out e (rw (e, process_add_order_request) refl)
    | inr (side, e) ↦
        let n = a.next_order_id in
        let p = a.next_address in
        let order =
          new_order (order_type_of request.order_type) n side (signed32 request.price)
            request.quantity in
        let stored = store p order a.orderbook.dangling_reads a.orderbook in
        let same : stored.heap p ≡ order = stored_order p order a.orderbook in
        let book_same =
          can_match-store p order a.orderbook.dangling_reads a.orderbook side
            (signed32 request.price) in
        let unused = Below-IsUnused a.orderbook sound.below in
        let w = store-IsValid p order a.orderbook.dangling_reads a.orderbook unused sound.valid in
        let old : Below (suc p) stored =
          Below-store p order a.orderbook.dangling_reads a.orderbook
            (Below-mono a.orderbook (omega arith) sound.below) in
        let next_id : (n + 1) % 2 ^ 64 ≡ suc n = omega (arith, small) in
        let new : contains n a.orderbook.orders ≡ false =
          none-contains n a.orderbook.orders (sound.fresh n (omega arith)) in
        elim (add_order_cases p stored w fuel) [
          | Addition.duplicate c r ↦ absurd (ground (arith, rw same at c, new))
          | Addition.killed k c r ↦
              killed
                (record {
                  orderbook = stored;
                  next_order_id = (n + 1) % 2 ^ 64;
                  next_address = suc p;
                })
                side e (rw (same, book_same) at c) (rw same at k)
                (rw (e, process_add_order_request) (rw r refl)) refl
                (λ s. levels_of-store p order a.orderbook.dangling_reads a.orderbook unused s)
                next_id
                (record {
                  valid = w;
                  below = old;
                  fresh = λ id h. sound.fresh id (omega (arith, h, next_id));
                })
          | Addition.rested c m r x ↦
              let orders : (rest_order p stored).orders ≡ (n, entry p) ∷ a.orderbook.orders =
                rw same at (orders-rest_order p stored c) in
              rested
                (record {
                  orderbook = rest_order p stored;
                  next_order_id = (n + 1) % 2 ^ 64;
                  next_address = suc p;
                })
                side e (rw (same, book_same) at m)
                (rw (heap-rest_order p stored, same) at
                  (x.resting (stored.heap p).side (stored.heap p).price p
                    (mem-rest_order_new p stored)))
                (rw (e, process_add_order_request) (rw r refl))
                (store-IsLast p order a.orderbook.dangling_reads a.orderbook unused new) next_id
                (record {
                  valid = x;
                  below = Below-rest_order p stored (omega arith) old;
                  fresh = rw (orders, next_id) (IsFreshFrom-add n p a.orderbook.orders sound.fresh);
                })
          | Addition.endless c m r ↦
              endless side e (rw (same, book_same) at m)
                (rw (e, process_add_order_request) (rw r refl))
        ]
  ]
