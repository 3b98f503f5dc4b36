-- ===== src/Server/Workers/Calls.antt =====
-- One call of the book by a worker of Orderbook Server/server.cpp, against the specification.
use simple_orderbook_v.Common.{ℕ, suc, List, ◌∷◌, ◌≡◌, refl, inl, inr, Option-cases, none, some, []}
use simple_orderbook_v.Outcome.{Outcome, returned, out_of_fuel, unmodelled}
use simple_orderbook_v.Matching.{Trades}
use simple_orderbook_v.Orderbook.Observed.{get_order_infos-level_infos}
use simple_orderbook_v.Orderbook.Spec.{Resting}
use simple_orderbook_v.Orderbook.Refinement.{
  Faithful, implements, diverges, add_order-Refines, cancel_order-Faithful, modify_order-Refines,
}
use simple_orderbook_v.Orderbook.Replay.{replay}
use simple_orderbook_v.Server.{TcpServer}
use simple_orderbook_v.Server.Handlers.{Machine, side_of}
use simple_orderbook_v.Server.Handlers.Clients.Stream.{
  Request, add as add_request, cancel as cancel_request, modify as modify_request,
}
use simple_orderbook_v.Server.Handlers.Outcomes.{modify_of}
use simple_orderbook_v.Server.Workers.{
  Work, order, status, added, call_add_order, call_cancel_order, call_modify_order, call_book,
  messages_of, begin_work,
}
use simple_orderbook_v.Server.Workers.Log.{commands_of, work_commands, reply_to}

-- What a call of the book for a request comes to, beside the request's command.
data Calling (request : Request) (resting : Resting) (s : TcpServer)
    (r : Outcome (Trades × TcpServer)) : Type 0 where
  called :
      (t : TcpServer) (shown : Resting)
      → r ≡ returned ([], t)
      → replay (commands_of request) resting ≡ some shown
      → Faithful t.next_address t.orderbook shown
      → t.sent ≡ s.sent
      → Calling request resting s r
  endless :
      r ≡ out_of_fuel → replay (commands_of request) resting ≡ none → Calling request resting s r
  unnamed : r ≡ unmodelled → commands_of request ≡ [] → Calling request resting s r

module _ (fuel : ℕ) (s : TcpServer) (resting : Resting)
    (f : Faithful s.next_address s.orderbook resting) where
  call_book-Calling :
      (request : Request) → Calling request resting s (call_book (suc fuel) request s)
  unfolding call_add_order call_cancel_order call_modify_order
  call_book-Calling (add_request m) = elim (Option-cases (side_of m.side)) [
    | inl n ↦ unnamed (rw (n, call_add_order) refl) (rw (n, commands_of) refl)
    | inr (side, n) ↦
        elim (add_order-Refines fuel s.next_address s.orderbook resting f (added m side)
          s.orderbook.dangling_reads) [
            | diverges d h ↦
                endless (rw (n, call_add_order) (rw h refl)) (rw (n, commands_of) (rw d refl))
            | implements next shown h r g ↦
                called (record s { orderbook = next; next_address = suc s.next_address }) shown
                  (rw (n, call_add_order) (rw r refl)) (rw (n, commands_of) (rw h refl)) g refl
          ]
  ]
  call_book-Calling (cancel_request m) =
      let (next, r, g) =
        cancel_order-Faithful fuel s.next_address s.orderbook resting f m.order_id in
      called (record s { orderbook = next }) _ (rw r refl) refl g refl
  call_book-Calling (modify_request m) = elim (Option-cases (side_of m.side)) [
    | inl n ↦ unnamed (rw (n, call_modify_order) refl) (rw (n, commands_of) refl)
    | inr (side, n) ↦
        elim (modify_order-Refines fuel s.next_address s.orderbook resting f (modify_of m side)) [
          | diverges d h ↦
              endless (rw (n, call_modify_order) (rw h refl)) (rw (n, commands_of) (rw d refl))
          | implements next shown h r g ↦
              called (record s { orderbook = next; next_address = suc s.next_address }) shown
                (rw (n, call_modify_order) (rw r refl)) (rw (n, commands_of) (rw h refl)) g refl
        ]
  ]

-- Likewise for any work, with the reply by the resting orders.
pub data Working (machine : Machine) (work : Work) (resting : Resting) (s : TcpServer)
    (r : Outcome (List (List ℕ) × TcpServer)) : Type 0 where
  returns :
      (t : TcpServer) (shown : Resting)
      → r ≡ returned (reply_to machine work resting ∷ [], t)
      → replay (work_commands work) resting ≡ some shown
      → Faithful t.next_address t.orderbook shown
      → t.sent ≡ s.sent
      → Working machine work resting s r
  stays :
      r ≡ out_of_fuel
      → replay (work_commands work) resting ≡ none
      → Working machine work resting s r
  left_out : r ≡ unmodelled → work_commands work ≡ [] → Working machine work resting s r

module _ (machine : Machine) (fuel : ℕ) (s : TcpServer) (resting : Resting)
    (f : Faithful s.next_address s.orderbook resting) where
  pub begin_work-Working :
      (work : Work) → Working machine work resting s (begin_work machine (suc fuel) work s)
  unfolding begin_work messages_of
  begin_work-Working (order request) = elim (call_book-Calling fuel s resting f request) [
    | called t shown h n g q ↦ returns t shown (rw h refl) n g q
    | endless h n ↦ stays (rw h refl) n
    | unnamed h n ↦ left_out (rw h refl) n
  ]
  begin_work-Working status =
      returns s resting
        (rw (get_order_infos-level_infos s.orderbook resting f.valid.indexed f.shows) refl) refl f
        refl
