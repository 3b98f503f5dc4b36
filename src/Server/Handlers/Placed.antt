-- ===== src/Server/Handlers/Placed.antt =====
-- The handlers `handleAddOrderRequest`, `handleModifyOrderRequest`
-- and `handleCancelOrderRequest` of Orderbook Server/server.cpp beside
-- the resting orders of the specification.
use simple_orderbook_v.Common.{
  ℕ, zero, suc, ◌+◌, ◌≡◌, ◌∙◌, refl, inl, inr, Option-cases, [], ◌∷◌, ◌++◌, if◌then◌else◌, signed32,
  arith,
}
use simple_orderbook_v.Outcome.{returned, Returns, returns}
use simple_orderbook_v.Messages.{AddOrderRequest, CancelOrderRequest, ModifyOrderRequest}
use simple_orderbook_v.Order.{OrderId, new_order}
use simple_orderbook_v.Index.{lookup, contains}
use simple_orderbook_v.Orderbook.{Orderbook, cancel_order}
use simple_orderbook_v.Orderbook.Cancel.{
  cancel_order-some, cancel_order-none, dangling_reads-cancelled,
}
use simple_orderbook_v.Orderbook.Spec.{Resting, place, replace}
use simple_orderbook_v.Orderbook.Refinement.{
  Faithful, implements, diverges, add_order-Refines, cancel_order-Faithful, modify_order-Refines,
}
use simple_orderbook_v.Server.{TcpServer, Socket}
use simple_orderbook_v.Server.Handlers.{
  Machine, side_of, order_type_of, send, send_trade_notifications, add_order_reply, serve_add_order,
  serve_cancel_order, serve_modify_order, modify_order_reply,
}
use simple_orderbook_v.Server.Handlers.Success.{
  success_added, success_cancelled, success_modified, modify_order_reply-big_endian,
  success_modified-FitsFields, success_added-FitsFields, success_cancelled-FitsFields,
  add_order_reply-big_endian, cancel_order_reply-big_endian, read_success,
}
use simple_orderbook_v.Server.Handlers.Clients.{IsAddOrder, IsCancelOrder, IsModifyOrder}
use simple_orderbook_v.Server.Handlers.Settling.{
  side_named, type_named, order_named, modify_named, Settling, settled, stuck, left_out, Withdrawn,
}

side_named-side_of : (n : ℕ) → side_named n ≡ side_of n
unfolding side_of
side_named-side_of zero = refl
side_named-side_of (suc zero) = refl
side_named-side_of (suc (suc n)) = ground arith

type_named-order_type_of : (n : ℕ) → type_named n ≡ order_type_of n
unfolding order_type_of
type_named-order_type_of zero = refl
type_named-order_type_of (suc zero) = refl
type_named-order_type_of (suc (suc n)) = ground arith

module _ (machine : Machine) (fuel : ℕ) (socket : Socket) (s : TcpServer) (resting : Resting)
    (faithful : Faithful s.next_address s.orderbook resting) where
  -- For a server whose valid book shows some resting orders, and a request whose fields fit: unless the
  -- side is neither 0 nor 1, the order of the request, with its own ID, side, type, signed price and
  -- quantity, is added to the resting orders, and the one message that is sent is the response of
  -- success with the sequence number and the ID of the request, which a client of either byte order
  -- reads from the bytes, also where the book refuses the order; or an order rests that the new one
  -- meets, and the handler does not return.
  pub serve_add_order-Settling :
      (request : AddOrderRequest)
      → IsAddOrder request
      → Settling request.side
          (λ side. place (order_named request side) resting)
          (success_added request)
          socket
          s
          (serve_add_order machine (suc fuel) socket request s)
  unfolding serve_add_order send_trade_notifications send new_order
  serve_add_order-Settling request i =
      let name = side_named-side_of request.side in
      let kind = type_named-order_type_of request.order_type in
      elim (Option-cases (side_of request.side)) [
        | inl e ↦ left_out (name ∙ e) (rw (e, serve_add_order) refl)
        | inr (side, e) ↦
            elim (add_order-Refines fuel s.next_address s.orderbook resting faithful
              (new_order (order_type_of request.order_type) request.client_order_id side
                (signed32 request.price) request.quantity)
              s.orderbook.dangling_reads) [
                | diverges d h ↦
                    stuck side (name ∙ e) (rw kind d) (rw (e, serve_add_order) (rw h refl))
                | implements next shown h r g ↦
                    settled
                      (record s {
                        orderbook = next;
                        next_address = suc s.next_address;
                        sent = s.sent ++ ((socket, add_order_reply machine request) ∷ []);
                      })
                      side shown (name ∙ e) (rw kind h) (rw (e, serve_add_order) (rw r refl)) g
                      (record {
                        sent = rw (add_order_reply-big_endian machine request i) refl;
                        says =
                            read_success machine (success_added request)
                              (success_added-FitsFields machine request i);
                        clients = refl;
                        sockets = refl;
                      })
              ]
      ]

  -- For a server whose valid book shows some resting orders, and a request whose fields fit, if the reads
  -- through the entry that was erased, which C++ leaves undefined, give what the entry held: unless the
  -- side is neither 0 nor 1, the order with the ID of the request, if one rests, is replaced by one with
  -- its type and the side, signed price and quantity of the request, and the one message that is sent is
  -- the request with the type of the response, which a client of either byte order reads from the bytes,
  -- also where no such order rests; or an order rests that the new one meets, and the handler does not
  -- return.
  pub serve_modify_order-Settling :
      (request : ModifyOrderRequest)
      → IsModifyOrder request
      → Settling request.side
          (λ side. replace (modify_named request side) resting)
          (success_modified request)
          socket
          s
          (serve_modify_order machine (suc fuel) socket request s)
  unfolding serve_modify_order send_trade_notifications send
  serve_modify_order-Settling request i =
      let name = side_named-side_of request.side in
      elim (Option-cases (side_of request.side)) [
        | inl e ↦ left_out (name ∙ e) (rw (e, serve_modify_order) refl)
        | inr (side, e) ↦
            elim (modify_order-Refines fuel s.next_address s.orderbook resting faithful
              (modify_named request side)) [
                | diverges d h ↦ stuck side (name ∙ e) d (rw (e, serve_modify_order) (rw h refl))
                | implements next shown h r g ↦
                    settled
                      (record s {
                        orderbook = next;
                        next_address = suc s.next_address;
                        sent = s.sent ++ ((socket, modify_order_reply machine request) ∷ []);
                      })
                      side shown (name ∙ e) h (rw (e, serve_modify_order) (rw r refl)) g
                      (record {
                        sent = rw (modify_order_reply-big_endian machine request i) refl;
                        says =
                            read_success machine (success_modified request)
                              (success_modified-FitsFields machine request i);
                        clients = refl;
                        sockets = refl;
                      })
              ]
      ]

  dangling-cancel_order :
      (id : OrderId) (next : Orderbook)
      → cancel_order id s.orderbook ≡ returned next
      → next.dangling_reads ≡ (
          if contains id s.orderbook.orders
          then s.orderbook.dangling_reads + 3
          else s.orderbook.dangling_reads)
  unfolding contains
  dangling-cancel_order id next r = elim (Option-cases (lookup id s.orderbook.orders)) [
    | inl missing ↦ ground (arith, missing, r, cancel_order-none id s.orderbook missing)
    | inr (e, found) ↦ ground (
      arith,
      found,
      r,
      cancel_order-some id e s.orderbook faithful.valid.indexed found,
      dangling_reads-cancelled id e.order s.orderbook,
    )
  ]

  -- For a server whose valid book shows some resting orders, and a request whose fields fit: if the reads
  -- through the entry that was erased, which C++ leaves undefined, give what the entry held, the handler
  -- returns. It takes the order with the ID of the request from the resting
  -- orders, if there is one, after three such reads, and else changes nothing in the book; either way the
  -- one message that is sent is the response of success with the sequence number and the ID of the
  -- request, which a client of either byte order reads from the bytes.
  pub serve_cancel_order-Withdrawn :
      (request : CancelOrderRequest)
      → IsCancelOrder request
      → Returns
          (Withdrawn request resting socket s)
          (serve_cancel_order machine fuel socket request s)
  unfolding serve_cancel_order send contains
  serve_cancel_order-Withdrawn request i =
      let (next, r, g) =
        cancel_order-Faithful fuel s.next_address s.orderbook resting faithful request.order_id in
      rw r (
        returns (record {
          shows = g;
          dangling = dangling-cancel_order request.order_id next r;
          replied = record {
            sent = rw (cancel_order_reply-big_endian machine request i) refl;
            says =
                read_success machine (success_cancelled request)
                  (success_cancelled-FitsFields machine request i);
            clients = refl;
            sockets = refl;
          };
        }))
