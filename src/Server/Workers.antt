-- ===== src/Server/Workers.antt =====
-- The workers of Orderbook Server/server.cpp, one for each client, in any interleaving: `AddOrder`,
-- `CancelOrder` and `MatchOrder` hold the book's lock and are one step each, and so is each `send`,
-- which other workers' steps may come between. A worker has the requests that its client's stream
-- holds and that it has not begun with, and the messages of the last one that it has yet to send.
mod Examples
pub mod Calls
pub mod Client
pub mod Log
pub mod Serial
use simple_orderbook_v.Common.{
  ℕ, suc, ◌≡◌, ◌≢◌, arith, refl, ap, Bool, none, some, List, [], ◌∷◌, ◌++◌, map, sym, ◌∙◌, inl, inr,
  Option-cases, ◌==◌, if◌then◌else◌, signed32,
}
use simple_orderbook_v.Outcome.{Outcome, returned, unmodelled, ◌>>=◌, bind_assoc, bind-cong}
use simple_orderbook_v.Messages.{AddOrderRequest, CancelOrderRequest, ModifyOrderRequest}
use simple_orderbook_v.Order.{Order, Side, Trade, new_order}
use simple_orderbook_v.Index.{write as write_heap}
use simple_orderbook_v.Matching.{Trades}
use simple_orderbook_v.Orderbook.{add_order, cancel_order, modify_order, get_order_infos}
use simple_orderbook_v.Server.{TcpServer, Socket, accept_connection, remove_client}
use simple_orderbook_v.Server.Handlers.{
  Machine, side_of, order_type_of, send, send_trade_notifications, trade_notification, status_reply,
  handle_orderbook_status_request, serve_add_order, serve_cancel_order, serve_modify_order,
}
use simple_orderbook_v.Server.Handlers.Clients.Stream.{
  Request, add, cancel, modify, serve, reply_of,
}
use simple_orderbook_v.Server.Handlers.Outcomes.{modify_of}

-- What a handler does with the book.

abbrev pub added : AddOrderRequest → Side → Order
added request side =
    new_order (order_type_of request.order_type) request.client_order_id side
      (signed32 request.price) request.quantity

unfoldable pub call_add_order : ℕ → AddOrderRequest → TcpServer → Outcome (Trades × TcpServer)
call_add_order fuel request s = elim (side_of request.side) [
  | none ↦ unmodelled
  | some side ↦ (do
    let stored = record s.orderbook {
      heap = write_heap s.orderbook.heap s.next_address (added request side);
    }
    (trades, book) ← add_order fuel s.next_address stored
    returned (trades, record s { orderbook = book; next_address = suc s.next_address }))
]

unfoldable pub call_cancel_order : CancelOrderRequest → TcpServer → Outcome (Trades × TcpServer)
call_cancel_order request s = do
  book ← cancel_order request.order_id s.orderbook
  returned ([], record s { orderbook = book })

unfoldable pub call_modify_order : ℕ → ModifyOrderRequest → TcpServer → Outcome (Trades × TcpServer)
call_modify_order fuel request s = elim (side_of request.side) [
  | none ↦ unmodelled
  | some side ↦ (do
    (trades, book) ← modify_order fuel s.next_address (modify_of request side) s.orderbook
    returned (trades, record s { orderbook = book; next_address = suc s.next_address }))
]

abbrev pub call_book : ℕ → Request → TcpServer → Outcome (Trades × TcpServer)
call_book fuel (add request) s = call_add_order fuel request s
call_book fuel (cancel request) s = call_cancel_order request s
call_book fuel (modify request) s = call_modify_order fuel request s

-- What it sends then, first to last.
unfoldable pub messages_of : Machine → Request → Trades → List (List ℕ)
messages_of machine request trades =
    reply_of machine request ∷ map (trade_notification machine) trades

module _ (machine : Machine) (fuel : ℕ) (socket : Socket) where
  abbrev pub send_all : List (List ℕ) → TcpServer → TcpServer
  send_all [] s = s
  send_all (message ∷ messages) s = send_all messages (send machine fuel socket message s)

  send_trade_notifications-send_all :
      (trades : Trades) (s : TcpServer)
      → send_trade_notifications machine fuel socket trades s
        ≡ send_all (map (trade_notification machine) trades) s
  unfolding send_trade_notifications
  send_trade_notifications-send_all [] s = refl
  send_trade_notifications-send_all (trade ∷ trades) s = send_trade_notifications-send_all trades _

  -- A handler calls the book and then sends its messages.
  pub serve-call_book :
      (request : Request) (s : TcpServer)
      → serve machine fuel socket request s ≡ (
          call_book fuel request s >>= λ (trades, t).
          returned (send_all (messages_of machine request trades) t))
  unfolding serve_add_order serve_cancel_order serve_modify_order call_add_order call_cancel_order
      call_modify_order messages_of
  serve-call_book (add request) s = elim (Option-cases (side_of request.side)) [
    | inl e ↦ rw (e, serve_add_order, call_add_order) refl
    | inr (side, e) ↦
        let r = add_order fuel s.next_address (record s.orderbook {
          heap = write_heap s.orderbook.heap s.next_address (added request side);
        }) in
        rw (e, serve_add_order, call_add_order)
          (bind-cong r (λ (trades, book). ap returned (send_trade_notifications-send_all trades _))
            ∙ sym (bind_assoc r _ _))
  ]
  serve-call_book (cancel request) s =
      sym (bind_assoc (cancel_order request.order_id s.orderbook) _ _)
  serve-call_book (modify request) s = elim (Option-cases (side_of request.side)) [
    | inl e ↦ rw (e, serve_modify_order, call_modify_order) refl
    | inr (side, e) ↦
        let r = modify_order fuel s.next_address (modify_of request side) s.orderbook in
        rw (e, serve_modify_order, call_modify_order)
          (bind-cong r (λ (trades, book). ap returned (send_trade_notifications-send_all trades _))
            ∙ sym (bind_assoc r _ _))
  ]

-- What a worker serves: a request for an order, or one for the status of the book.
pub data Work : Type 0 where
  order : Request → Work
  status : Work

-- The part of a handler that reads or changes the book, and the messages that it sends after it.
unfoldable pub begin_work : Machine → ℕ → Work → TcpServer → Outcome (List (List ℕ) × TcpServer)
unfolding messages_of
begin_work machine fuel (order request) s =
    call_book fuel request s >>= λ (trades, t). returned (messages_of machine request trades, t)
begin_work machine fuel status s =
    returned (status_reply machine (get_order_infos s.orderbook) ∷ [], s)

-- The handler of a request for the status.
pub handle_orderbook_status_request-begin_work :
    (machine : Machine) (fuel : ℕ) (socket : Socket) (buffer : List ℕ) (s : TcpServer)
    → handle_orderbook_status_request machine fuel socket buffer s ≡ (
        begin_work machine fuel status s >>= λ (messages, t).
        returned (buffer, send_all machine fuel socket messages t))
unfolding handle_orderbook_status_request begin_work
handle_orderbook_status_request-begin_work machine fuel socket buffer s = refl

pub record ClientTask : Type 0 where
  pub requests : List Work
  pub unsent : List (List ℕ)

pub record Pool : Type 0 where
  pub tasks : Socket → ClientTask
  pub server : TcpServer

abbrev pub set_task : Socket → ClientTask → (Socket → ClientTask) → Socket → ClientTask
set_task k w tasks j = if j == k then w else tasks j

-- The other workers are where they were.
abbrev pub OthersStay : Socket → Pool → Pool → Type 0
OthersStay k from next = (j : Socket) → j ≢ k → next.tasks j ≡ from.tasks j

pub set_task_self :
    (k : Socket) (w : ClientTask) (tasks : Socket → ClientTask) → set_task k w tasks k ≡ w
set_task_self k w tasks = ground arith

pub set_task_others :
    (k : Socket) (w : ClientTask) (from pool : Pool)
    → OthersStay k from pool
    → (j : Socket) → j ≢ k
    → set_task k w pool.tasks j ≡ from.tasks j
set_task_others k w from pool o j h = ground (arith, h, o j h)

-- `accepts` is the accepting thread's; `leaves` is the end of `handleClient`. A call of the book that
-- does not return is no step: the steps are those of runs in which each call that is begun returns, and
-- a worker that holds the book's lock for ever is not among them. There is no bound on the workers.
pub data Step (machine : Machine) : Pool → Pool → Type 0 where
  calls :
      (fuel : ℕ) (k : Socket) (work : Work) (requests : List Work) (messages : List (List ℕ))
      (t : TcpServer) (pool : Pool)
      → pool.tasks k ≡ record { requests = work ∷ requests; unsent = [] }
      → begin_work machine (suc fuel) work pool.server ≡ returned (messages, t)
      → Step machine pool (record {
        tasks = set_task k (record { requests = requests; unsent = messages }) pool.tasks;
        server = t;
      })
  sends :
      (fuel : ℕ) (k : Socket) (requests : List Work) (message : List ℕ) (messages : List (List ℕ))
      (pool : Pool)
      → pool.tasks k ≡ record { requests = requests; unsent = message ∷ messages }
      → Step machine pool (record {
        tasks = set_task k (record { requests = requests; unsent = messages }) pool.tasks;
        server = send machine fuel k message pool.server;
      })
  accepts :
      (k : Socket) (pool : Pool)
      → Step machine pool (record pool { server = (accept_connection k pool.server).1 })
  leaves :
      (k : Socket) (pool : Pool)
      → pool.tasks k ≡ record { requests = []; unsent = [] }
      → Step machine pool (record pool { server = remove_client k pool.server })

-- Any number of steps.
pub data Steps (machine : Machine) (begun : Pool) : Pool → Type 0 where
  no_steps : Steps machine begun begun
  then_step :
      {pool next : Pool}
      → Steps machine begun pool
      → Step machine pool next
      → Steps machine begun next
