-- ===== src/Adapter/Ids/Change.antt =====
-- Requests to cancel or modify an order through the adapter of Orderbook Server/orderbook_adapter.h.
use simple_orderbook_v.Common.{
  ℕ, suc, ◌+◌, ◌≡◌, ◌∙◌, refl, ap, Option-cases, inl, inr, none, some, [], ◌∷◌, arith,
}
use simple_orderbook_v.Outcome.{Outcome, returned, out_of_fuel, unmodelled, Returns, returns}
use simple_orderbook_v.Messages.{CancelOrderRequest, ModifyOrderRequest}
use simple_orderbook_v.Order.{OrderModify, Side, new_order, to_order}
use simple_orderbook_v.Levels.{OrderPointer}
use simple_orderbook_v.Index.{OrderEntry, entry, lookup, erase_key}
use simple_orderbook_v.Matching.{Trades}
use simple_orderbook_v.Orderbook.{Orderbook, rest_order}
use simple_orderbook_v.Orderbook.Invariant.{IsValid}
use simple_orderbook_v.Orderbook.Addresses.{
  Below-IsUnused, Below-mono, Below-store, Below-rest_order, Below-cancelled, can_match-store,
  MeetsModified,
}
use simple_orderbook_v.Orderbook.Cancel.{
  cancelled, cancel_order-some, cancel_order-none, orders-cancelled,
}
use simple_orderbook_v.Orderbook.Modify.{
  IsUnused, store, prepared, prepared-new, prepared-fresh, Modification, modify_order_cases,
  modify_order-none,
}
use simple_orderbook_v.Orderbook.Rest.{orders-rest_order}
use simple_orderbook_v.Orderbook.Withdraw.{cancelled-IsValid}
use simple_orderbook_v.Server.Handlers.{side_of}
use simple_orderbook_v.Server.Handlers.Outcomes.{modify_of}
use simple_orderbook_v.Adapter.{
  OrderbookNetworkAdapter, process_cancel_order_request, process_modify_order_request,
}
use simple_orderbook_v.Adapter.Ids.{IsSoundAdapter, IsFreshFrom-erase_key, IsFreshFrom-known}

-- What a request to modify an order comes to.
pub data Modifying (request : ModifyOrderRequest) (a : OrderbookNetworkAdapter)
    (r : Outcome (Trades × OrderbookNetworkAdapter)) : Type 0 where
  modified :
      (next : OrderbookNetworkAdapter)
      → r ≡ returned ([], next)
      → next.next_order_id ≡ a.next_order_id
      → IsSoundAdapter next
      → Modifying request a r
  endless :
      (side : Side)
      → side_of request.side ≡ some side
      → MeetsModified (modify_of request side) a.orderbook
      → r ≡ out_of_fuel
      → Modifying request a r
  left_out : side_of request.side ≡ none → r ≡ unmodelled → Modifying request a r

-- The index after a modification.
rest_order-orders :
    (p : OrderPointer) (m : OrderModify) (e : OrderEntry) (book : Orderbook) (v : IsValid book)
    (found : lookup m.order_id book.orders ≡ some e) (unused : IsUnused p book)
    → (rest_order p (prepared p m e book v found unused)).orders
      ≡ (m.order_id, entry p) ∷ erase_key m.order_id book.orders
unfolding to_order new_order
rest_order-orders p m e book v found unused =
    let same = prepared-fresh p m e book v found unused in
    rw same at (
      orders-rest_order p (prepared p m e book v found unused)
        (rw same (prepared-new p m e book v found unused)))
    ∙ ap (λ l. (m.order_id, entry p) ∷ l) (orders-cancelled m.order_id e.order book)

module _ (fuel : ℕ) (a : OrderbookNetworkAdapter) (sound : IsSoundAdapter a) where
  -- A request to cancel returns, and leaves the adapter sound.
  pub process_cancel_order_request-IsSound :
      (request : CancelOrderRequest)
      → Returns
          (λ next. IsSoundAdapter next × (next.next_order_id ≡ a.next_order_id))
          (process_cancel_order_request request a)
  unfolding process_cancel_order_request
  process_cancel_order_request-IsSound request =
      elim (Option-cases (lookup request.order_id a.orderbook.orders)) [
        | inl missing ↦
            rw (cancel_order-none request.order_id a.orderbook missing) (returns (sound, refl))
        | inr (e, found) ↦
            rw (cancel_order-some request.order_id e a.orderbook sound.valid.indexed found) (
              returns (
                record {
                  valid = cancelled-IsValid request.order_id e a.orderbook sound.valid found;
                  below =
                      Below-cancelled request.order_id e a.orderbook sound.valid.indexed found
                        sound.below;
                  fresh = rw (orders-cancelled request.order_id e.order a.orderbook) (
                      IsFreshFrom-erase_key a.next_order_id request.order_id a.orderbook.orders
                        sound.valid.indexed.keys sound.fresh);
                },
                refl,
              ))
      ]

  pub process_modify_order_request-Modifying :
      (request : ModifyOrderRequest)
      → Modifying request a (process_modify_order_request (suc fuel) request a)
  unfolding process_modify_order_request
  process_modify_order_request-Modifying request = elim (Option-cases (side_of request.side)) [
    | inl e ↦ left_out e (rw (e, process_modify_order_request) refl)
    | inr (side, e) ↦
        let m = modify_of request side in
        let p = a.next_address in
        let older = Below-mono a.orderbook (omega arith) sound.below in
        elim (Option-cases (lookup m.order_id a.orderbook.orders)) [
          | inl missing ↦
              modified (record a { next_address = suc p })
                (rw (e, process_modify_order_request)
                  (rw (modify_order-none (suc fuel) p m a.orderbook missing) refl))
                refl (record { valid = sound.valid; below = older; fresh = sound.fresh })
          | inr (f, found) ↦
              let unused = Below-IsUnused a.orderbook sound.below in
              let order = to_order m (a.orderbook.heap f.order).order_type in
              let without = cancelled m.order_id f.order a.orderbook in
              let ready = store p order (without.dangling_reads + 1) without in
              let orders = rest_order-orders p m f a.orderbook sound.valid found unused in
              elim (modify_order_cases p m f a.orderbook sound.valid found unused fuel) [
                | Modification.replaced c r w _ _ ↦
                    modified (record a { orderbook = rest_order p ready; next_address = suc p })
                      (rw (e, process_modify_order_request) (rw r refl)) refl
                      (record {
                        valid = w;
                        below = Below-rest_order p ready (omega arith) (
                            Below-store p order (without.dangling_reads + 1) without (
                              Below-cancelled m.order_id f a.orderbook sound.valid.indexed found
                                older));
                        fresh = rw orders (
                            IsFreshFrom-known a.next_order_id m.order_id p f a.orderbook.orders _
                              sound.fresh found
                              (IsFreshFrom-erase_key a.next_order_id m.order_id a.orderbook.orders
                                sound.valid.indexed.keys sound.fresh));
                      })
                | Modification.endless c r ↦
                    endless side e
                      (
                        f,
                        found,
                        rw
                            (can_match-store p order (without.dangling_reads + 1) without m.side
                              m.price)
                            at c,
                      )
                      (rw (e, process_modify_order_request) (rw r refl))
              ]
        ]
  ]
