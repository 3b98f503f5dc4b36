-- ===== src/Server/Handlers/Outcomes.antt =====
-- What the requests of orders do to the server of Orderbook Server/server.cpp.
use simple_orderbook_v.Common.{
  ℕ, suc, ◌≡◌, refl, inl, inr, true, Option-cases, none, some, List, [], ◌∷◌, ◌++◌, signed32,
}
use simple_orderbook_v.Outcome.{Outcome, returned, unmodelled, out_of_fuel, Returns, returns}
use simple_orderbook_v.Order.{Side, OrderModify, new_order}
use simple_orderbook_v.Messages.{AddOrderRequest, CancelOrderRequest, ModifyOrderRequest}
use simple_orderbook_v.Orderbook.{Orderbook, can_match}
use simple_orderbook_v.Orderbook.Invariant.{IsValid}
use simple_orderbook_v.Orderbook.Session.{Call, adds, cancels, modifies}
use simple_orderbook_v.Orderbook.Addresses.{
  Below, Below-IsUnused, MeetsModified, settled, endless, add_order-Settled, modify_order-Settled,
  cancel_order-Settled,
}
use simple_orderbook_v.Server.{TcpServer, Socket}
use simple_orderbook_v.Server.Handlers.{
  Machine, side_of, order_type_of, send, send_trade_notifications, add_order_reply, serve_add_order,
  cancel_order_reply, serve_cancel_order, modify_order_reply, serve_modify_order,
}

-- The book is valid, and new orders are put where the book has none.
pub record IsSound (s : TcpServer) : Type 0 where
  pub valid : IsValid s.orderbook
  pub below : Below s.next_address s.orderbook

-- One reply went to the socket, and the book made one call without a trade.
pub record Answered (socket : Socket) (reply : List ℕ) (s t : TcpServer) : Type 0 where
  pub sound : IsSound t
  pub called : Call s.orderbook [] t.orderbook
  pub sent : t.sent ≡ s.sent ++ ((socket, reply) ∷ [])
  pub clients : t.clients ≡ s.clients
  pub sockets : t.open_sockets ≡ s.open_sockets
  pub listening : t.server_socket ≡ s.server_socket
  pub winsock : (t.startups ≡ s.startups) × (t.cleanups ≡ s.cleanups)

-- A request is answered, or its order meets another and sets off the loop that does not end, or its
-- side names no side.
pub data Serving (socket : Socket) (reply : List ℕ) (side : ℕ) (Meets : Side → Type 0)
    (s : TcpServer) (r : Outcome TcpServer) : Type 0 where
  answered :
      (t : TcpServer)
      → r ≡ returned t
      → Answered socket reply s t
      → Serving socket reply side Meets s r
  stuck :
      (k : Side)
      → side_of side ≡ some k
      → Meets k
      → r ≡ out_of_fuel
      → Serving socket reply side Meets s r
  left_out : side_of side ≡ none → r ≡ unmodelled → Serving socket reply side Meets s r

-- The order of the request can match at once.
abbrev pub MeetsAdded : AddOrderRequest → Orderbook → Side → Type 0
MeetsAdded request book side = can_match book side (signed32 request.price) ≡ true

abbrev pub modify_of : ModifyOrderRequest → Side → OrderModify
modify_of request side = record {
  order_id = request.order_id;
  price = signed32 request.price;
  side = side;
  quantity = request.quantity;
}

module _ (machine : Machine) (fuel : ℕ) (socket : Socket) (s : TcpServer) (sound : IsSound s) where
  -- `AddOrder` gets one reply, also where the order is refused.
  pub serve_add_order-Serving :
      (request : AddOrderRequest)
      → Serving socket
          (add_order_reply machine request)
          request.side
          (MeetsAdded request s.orderbook)
          s
          (serve_add_order machine (suc fuel) socket request s)
  unfolding serve_add_order send_trade_notifications send
  serve_add_order-Serving request = elim (Option-cases (side_of request.side)) [
    | inl e ↦ left_out e (rw (e, serve_add_order) refl)
    | inr (side, e) ↦
        let order =
          new_order (order_type_of request.order_type) request.client_order_id side
            (signed32 request.price) request.quantity in
        elim (add_order-Settled fuel s.next_address s.orderbook sound.valid sound.below order
          s.orderbook.dangling_reads) [
            | settled next r w b ↦
                answered
                  (record s {
                    orderbook = next;
                    next_address = suc s.next_address;
                    sent = s.sent ++ ((socket, add_order_reply machine request) ∷ []);
                  })
                  (rw (e, serve_add_order) (rw r refl))
                  (record {
                    sound = record { valid = w; below = b };
                    called =
                        adds fuel s.next_address order (Below-IsUnused s.orderbook sound.below) r;
                    sent = refl;
                    clients = refl;
                    sockets = refl;
                    listening = refl;
                    winsock = (refl, refl);
                  })
            | endless meets r ↦
                stuck side e (unfold new_order in meets) (rw (e, serve_add_order) (rw r refl))
          ]
  ]

  -- A modification gets one reply likewise, also where the ID is not in the book.
  pub serve_modify_order-Serving :
      (request : ModifyOrderRequest)
      → Serving socket
          (modify_order_reply machine request)
          request.side
          (λ k. MeetsModified (modify_of request k) s.orderbook)
          s
          (serve_modify_order machine (suc fuel) socket request s)
  unfolding serve_modify_order send_trade_notifications send
  serve_modify_order-Serving request = elim (Option-cases (side_of request.side)) [
    | inl e ↦ left_out e (rw (e, serve_modify_order) refl)
    | inr (side, e) ↦
        let modify = modify_of request side in
        elim (modify_order-Settled fuel s.next_address s.orderbook sound.valid sound.below modify) [
          | settled next r w b ↦
              answered
                (record s {
                  orderbook = next;
                  next_address = suc s.next_address;
                  sent = s.sent ++ ((socket, modify_order_reply machine request) ∷ []);
                })
                (rw (e, serve_modify_order) (rw r refl))
                (record {
                  sound = record { valid = w; below = b };
                  called =
                      modifies fuel s.next_address modify (Below-IsUnused s.orderbook sound.below)
                        r;
                  sent = refl;
                  clients = refl;
                  sockets = refl;
                  listening = refl;
                  winsock = (refl, refl);
                })
          | endless meets r ↦ stuck side e meets (rw (e, serve_modify_order) (rw r refl))
        ]
  ]

  -- A cancellation returns and gets one reply, also where the ID is not in the book.
  pub serve_cancel_order-Answered :
      (request : CancelOrderRequest)
      → Returns
          (Answered socket (cancel_order_reply machine request) s)
          (serve_cancel_order machine fuel socket request s)
  unfolding serve_cancel_order send
  serve_cancel_order-Answered request =
      let (next, r, w, b) =
        cancel_order-Settled fuel s.next_address s.orderbook sound.valid sound.below
          request.order_id in
      rw r (
        returns (record {
          sound = record { valid = w; below = b };
          called = cancels request.order_id refl r;
          sent = refl;
          clients = refl;
          sockets = refl;
          listening = refl;
          winsock = (refl, refl);
        }))
