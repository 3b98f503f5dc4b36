-- ===== src/Adapter/Ids.antt =====
-- The IDs that the adapter of Orderbook Server/orderbook_adapter.h gives.
pub mod Add
pub mod Change
use simple_orderbook_v.Common.{
  ℕ, suc, ◌+◌, ◌%◌, ◌^◌, ◌<◌, ◌≤◌, ◌≡◌, ◌∙◌, refl, ap, true, false, Option-cases, inl, inr, none,
  some, [], ◌∷◌, signed32, arith,
}
use simple_orderbook_v.Outcome.{Outcome, returned, out_of_fuel, unmodelled, Returns, returns}
use simple_orderbook_v.Messages.{AddOrderRequest, CancelOrderRequest, ModifyOrderRequest}
use simple_orderbook_v.Order.{OrderId, OrderModify, Side, new_order, is_fill_and_kill, to_order}
use simple_orderbook_v.Levels.{OrderPointer}
use simple_orderbook_v.Index.{OrderEntry, Orders, entry, lookup, contains, erase_key}
use simple_orderbook_v.Index.Laws.{DistinctKeys, lookup-erase_key}
use simple_orderbook_v.Matching.{Trades}
use simple_orderbook_v.Orderbook.{Orderbook, can_match, rest_order}
use simple_orderbook_v.Orderbook.Invariant.{IsValid}
use simple_orderbook_v.Orderbook.Add.{Addition, add_order_cases}
use simple_orderbook_v.Orderbook.Addresses.{
  Below, Below-IsUnused, Below-mono, Below-store, Below-rest_order, Below-cancelled, stored_order,
  can_match-store, MeetsModified,
}
use simple_orderbook_v.Orderbook.Cancel.{
  cancelled, cancel_order-some, cancel_order-none, orders-cancelled,
}
use simple_orderbook_v.Orderbook.Modify.{
  IsUnused, store, store-IsValid, prepared, prepared-new, prepared-fresh, Modification,
  modify_order_cases, modify_order-none,
}
use simple_orderbook_v.Orderbook.Rest.{orders-rest_order}
use simple_orderbook_v.Orderbook.Withdraw.{cancelled-IsValid}
use simple_orderbook_v.Server.Handlers.{side_of, order_type_of}
use simple_orderbook_v.Server.Handlers.Outcomes.{modify_of}
use simple_orderbook_v.Adapter.{
  OrderbookNetworkAdapter, process_add_order_request, process_cancel_order_request,
  process_modify_order_request,
}

-- No ID from `n` on is in the index.
abbrev pub IsFreshFrom : OrderId → Orders → Type 0
IsFreshFrom n orders = (id : OrderId) → n ≤ id → lookup id orders ≡ none

-- The book is valid, it has no order at the next address, and no ID that is still to be given.
pub record IsSoundAdapter (a : OrderbookNetworkAdapter) : Type 0 where
  pub valid : IsValid a.orderbook
  pub below : Below a.next_address a.orderbook
  pub fresh : IsFreshFrom a.next_order_id a.orderbook.orders

pub none-contains :
    (id : OrderId) (orders : Orders) → lookup id orders ≡ none → contains id orders ≡ false
unfolding contains
none-contains id orders h = rw (h, contains) refl

pub IsFreshFrom-add :
    (n : OrderId) (p : OrderPointer) (orders : Orders)
    → IsFreshFrom n orders
    → IsFreshFrom (suc n) ((n, entry p) ∷ orders)
unfolding lookup
IsFreshFrom-add n p orders f id h = ground (arith, f id (omega (arith, h)), h)

pub IsFreshFrom-erase_key :
    (n id : OrderId) (orders : Orders)
    → DistinctKeys orders
    → IsFreshFrom n orders
    → IsFreshFrom n (erase_key id orders)
IsFreshFrom-erase_key n id orders d f j h = ground (arith, lookup-erase_key j id orders d, f j h)

pub IsFreshFrom-known :
    (n id : OrderId) (p : OrderPointer) (e : OrderEntry) (orders erased : Orders)
    → IsFreshFrom n orders
    → lookup id orders ≡ some e
    → IsFreshFrom n erased
    → IsFreshFrom n ((id, entry p) ∷ erased)
unfolding lookup
IsFreshFrom-known n id p e orders erased f found g j h = ground (arith, f j h, g j h, found)
