-- ===== src/Adapter/Sessions.antt =====
-- Sessions of requests to the adapter of Orderbook Server/orderbook_adapter.h.
use simple_orderbook_v.Common.{ℕ, suc, ◌^◌, ◌<◌, ◌≡◌, refl, subst, List, [], ◌∷◌, arith}
use simple_orderbook_v.Outcome.{Outcome, returned, Returns-returned}
use simple_orderbook_v.Messages.{AddOrderRequest, CancelOrderRequest, ModifyOrderRequest}
use simple_orderbook_v.Order.{OrderId}
use simple_orderbook_v.Levels.{OrderPointer}
use simple_orderbook_v.Index.{Heap, lookup}
use simple_orderbook_v.Matching.{Trades}
use simple_orderbook_v.Orderbook.{empty_orderbook}
use simple_orderbook_v.Orderbook.Session.{empty_orderbook-IsValid, empty-IsUnused}
use simple_orderbook_v.Adapter.{
  OrderbookNetworkAdapter, new_adapter, process_add_order_request, process_cancel_order_request,
  process_modify_order_request,
}
use simple_orderbook_v.Adapter.Ids.{IsSoundAdapter}
use simple_orderbook_v.Adapter.Ids.Add.{
  Adding, rested, killed, endless, left_out, process_add_order_request-Adding,
}
use simple_orderbook_v.Adapter.Ids.Change.{
  Modifying, process_cancel_order_request-IsSound, process_modify_order_request-Modifying,
}

-- Requests that return, from a new adapter on, with the IDs that it gave, last first.
pub data Session (heap : Heap) : OrderbookNetworkAdapter → List OrderId → Type 0 where
  begins : (address : OrderPointer) → Session heap (new_adapter heap address) []
  adds :
      {a next : OrderbookNetworkAdapter} {ids : List OrderId} (fuel : ℕ) (request : AddOrderRequest)
      (id : OrderId) (trades : Trades)
      → Session heap a ids
      → suc a.next_order_id < 2 ^ 64
      → process_add_order_request (suc fuel) request a ≡ returned ((id, trades), next)
      → Session heap next (id ∷ ids)
  cancels :
      {a next : OrderbookNetworkAdapter} {ids : List OrderId} (request : CancelOrderRequest)
      → Session heap a ids
      → process_cancel_order_request request a ≡ returned next
      → Session heap next ids
  modifies :
      {a next : OrderbookNetworkAdapter} {ids : List OrderId} (fuel : ℕ)
      (request : ModifyOrderRequest) (trades : Trades)
      → Session heap a ids
      → process_modify_order_request (suc fuel) request a ≡ returned (trades, next)
      → Session heap next ids

-- Each ID is below the ones that were given after it, and below `n`.
abbrev pub Descends : OrderId → List OrderId → Type 0
Descends n [] = Unit
Descends n (id ∷ ids) = (id < n) × Descends id ids

-- The adapter is sound, and its IDs are given once each.
pub record IsNumbered (a : OrderbookNetworkAdapter) (ids : List OrderId) : Type 0 where
  pub sound : IsSoundAdapter a
  pub descends : Descends a.next_order_id ids

new_adapter-IsNumbered :
    (heap : Heap) (address : OrderPointer) → IsNumbered (new_adapter heap address) []
unfolding new_adapter empty_orderbook lookup
new_adapter-IsNumbered heap address = record {
  sound = record {
    valid = empty_orderbook-IsValid heap;
    below = λ s r a m. absurd (ground (arith, m, empty-IsUnused heap a s r));
    fresh = λ id h. refl;
  };
  descends = tt;
}

module _ {a : OrderbookNetworkAdapter} {ids : List OrderId} (numbered : IsNumbered a ids) where
  same-IsNumbered :
      (b : OrderbookNetworkAdapter)
      → IsSoundAdapter b
      → b.next_order_id ≡ a.next_order_id
      → IsNumbered b ids
  same-IsNumbered b sound e = record { sound = sound; descends = rw e numbered.descends }

  given-IsNumbered :
      {next : OrderbookNetworkAdapter} (b : OrderbookNetworkAdapter) (id : OrderId)
      (trades : Trades) {r : Outcome ((OrderId × Trades) × OrderbookNetworkAdapter)}
      → IsSoundAdapter b
      → b.next_order_id ≡ suc a.next_order_id
      → r ≡ returned ((a.next_order_id, []), b)
      → r ≡ returned ((id, trades), next)
      → IsNumbered next (id ∷ ids)
  given-IsNumbered {next} b id trades sound e h g =
      let same : b ≡ next = ground (arith, h, g) in
      let given : a.next_order_id ≡ id = ground (arith, h, g) in
      subst (λ c. IsNumbered c (id ∷ ids)) same
        (subst (λ i. IsNumbered b (i ∷ ids)) given
          (record { sound = sound; descends = (omega (arith, e), numbered.descends) }))

  Adding-IsNumbered :
      {next : OrderbookNetworkAdapter} {request : AddOrderRequest}
      {r : Outcome ((OrderId × Trades) × OrderbookNetworkAdapter)} (id : OrderId) (trades : Trades)
      → Adding request a r
      → r ≡ returned ((id, trades), next)
      → IsNumbered next (id ∷ ids)
  Adding-IsNumbered id trades (rested b s k c t h l e sound) g =
      given-IsNumbered b id trades sound e h g
  Adding-IsNumbered id trades (killed b s k c t h o l e sound) g =
      given-IsNumbered b id trades sound e h g
  Adding-IsNumbered id trades (endless side s m h) g = absurd (ground (arith, h, g))
  Adding-IsNumbered id trades (left_out s h) g = absurd (ground (arith, h, g))

  Modifying-IsNumbered :
      {next : OrderbookNetworkAdapter} {request : ModifyOrderRequest}
      {r : Outcome (Trades × OrderbookNetworkAdapter)} (trades : Trades)
      → Modifying request a r
      → r ≡ returned (trades, next)
      → IsNumbered next ids
  Modifying-IsNumbered {next} trades (Modifying.modified b h e sound) g =
      let same : b ≡ next = ground (arith, h, g) in
      subst (λ c. IsNumbered c ids) same (same-IsNumbered b sound e)
  Modifying-IsNumbered trades (Modifying.endless side s m h) g = absurd (ground (arith, h, g))
  Modifying-IsNumbered trades (Modifying.left_out s h) g = absurd (ground (arith, h, g))

-- In every session the adapter gives each ID once, later ones above earlier ones, and stays sound: none
-- of its orders has an ID that is still to be given.
pub Session-IsNumbered :
    {heap : Heap} {a : OrderbookNetworkAdapter} {ids : List OrderId}
    → Session heap a ids
    → IsNumbered a ids
Session-IsNumbered {heap} (begins address) = new_adapter-IsNumbered heap address
Session-IsNumbered (adds {a} fuel request id trades s small r) =
    let n = Session-IsNumbered s in
    Adding-IsNumbered n id trades (process_add_order_request-Adding fuel a n.sound request small) r
Session-IsNumbered (cancels {a} {next} request s r) =
    let n = Session-IsNumbered s in
    let (sound, e) =
      Returns-returned r (process_cancel_order_request-IsSound 0 a n.sound request) in
    same-IsNumbered n next sound e
Session-IsNumbered (modifies {a} fuel request trades s r) =
    let n = Session-IsNumbered s in
    Modifying-IsNumbered n trades (process_modify_order_request-Modifying fuel a n.sound request) r
