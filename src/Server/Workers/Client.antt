-- ===== src/Server/Workers/Client.antt =====
-- `handleClient` of Orderbook Server/server.cpp beside the steps of its worker.
use simple_orderbook_v.Common.{
  ℕ, suc, ◌<◌, ◌≡◌, ◌∙◌, refl, sym, List, [], ◌∷◌, ◌++◌, All, length, map, arith,
}
use simple_orderbook_v.Outcome.{returned, >>=-eq-returned}
use simple_orderbook_v.Framing.{Received}
use simple_orderbook_v.Framing.Frames.{IsPartial}
use simple_orderbook_v.Framing.Chunks.{Arrives}
use simple_orderbook_v.Server.{TcpServer, Socket, remove_client}
use simple_orderbook_v.Server.Connection.{handle_client, handle_client-stream_of}
use simple_orderbook_v.Server.Handlers.{Machine, process_message}
use simple_orderbook_v.Server.Handlers.Clients.Stream.{
  Request, IsRequest, stream_of, serve, serve_all,
}
use simple_orderbook_v.Server.Workers.{
  Work, order, begin_work, call_book, messages_of, send_all, serve-call_book, Pool, OthersStay,
  set_task_self, set_task_others, calls, sends, leaves, Steps, no_steps, then_step,
}

-- Steps of one worker lead to where its client's requests are the ones left and the server is `t`.
pub record Reached (machine : Machine) (k : Socket) (from : Pool) (requests : List Work)
    (t : TcpServer) : Type 0 where
  pub next : Pool
  pub run : Steps machine from next
  pub server : next.server ≡ t
  pub task : next.tasks k ≡ record { requests = requests; unsent = [] }
  pub others : OthersStay k from next

module _ (machine : Machine) (fuel : ℕ) (k : Socket) (from : Pool) where
  send_all-Reached :
      (requests : List Work) (messages : List (List ℕ)) (pool : Pool)
      → Steps machine from pool
      → OthersStay k from pool
      → pool.tasks k ≡ record { requests = requests; unsent = messages }
      → Reached machine k from requests (send_all machine (suc fuel) k messages pool.server)
  send_all-Reached requests [] pool run o w = record {
    next = pool;
    run = run;
    server = refl;
    task = w;
    others = o;
  }
  send_all-Reached requests (message ∷ messages) pool run o w =
      send_all-Reached requests messages _
        (then_step run (sends (suc fuel) k requests message messages pool w))
        (set_task_others k _ from pool o) (set_task_self k _ pool.tasks)

  serve-Reached :
      (request : Request) (requests : List Work) (pool : Pool) (t : TcpServer)
      → Steps machine from pool
      → OthersStay k from pool
      → pool.tasks k ≡ record { requests = order request ∷ requests; unsent = [] }
      → serve machine (suc fuel) k request pool.server ≡ returned t
      → Reached machine k from requests t
  unfolding begin_work
  serve-Reached request requests pool t run o w e =
      let ((trades, u), called, sent) =
        >>=-eq-returned (call_book (suc fuel) request pool.server) _
          (sym (serve-call_book machine (suc fuel) k request pool.server) ∙ e) in
      let messages = messages_of machine request trades in
      let r =
        send_all-Reached requests messages _
          (then_step run (calls fuel k (order request) requests messages u pool w (rw called refl)))
          (set_task_others k _ from pool o) (set_task_self k _ pool.tasks) in
      record {
        next = r.next;
        run = r.run;
        server = ground (arith, r.server, sent);
        task = r.task;
        others = r.others;
      }

  serve_all-Reached :
      (rs : List Request) (pool : Pool) (t : TcpServer)
      → Steps machine from pool
      → OthersStay k from pool
      → pool.tasks k ≡ record { requests = map order rs; unsent = [] }
      → serve_all machine (suc fuel) k rs pool.server ≡ returned t
      → Reached machine k from [] t
  serve_all-Reached [] pool t run o w e = record {
    next = pool;
    run = run;
    server = ground (arith, e);
    task = w;
    others = o;
  }
  serve_all-Reached (request ∷ rs) pool t run o w e =
      let (u, first, later) =
        >>=-eq-returned (serve machine (suc fuel) k request pool.server) _ e in
      let r = serve-Reached request (map order rs) pool u run o w first in
      serve_all-Reached rs r.next t r.run r.others r.task (rw r.server later)

  -- If `handleClient` returns, on the bytes of a client's requests to add, cancel or modify orders, in
  -- whatever pieces they arrive and with an unfinished message behind them, then steps of its worker alone lead to the same server, with the
  -- requests served and the client removed.
  pub handle_client-Reached :
      {received : List Received} {stream : List ℕ} (rs : List Request) (rounds : ℕ) (rest : List ℕ)
      (t : TcpServer)
      → All IsRequest rs
      → Arrives machine.host (process_message machine (suc fuel) k) received stream
      → stream ≡ stream_of machine (suc fuel) k rs ++ rest
      → IsPartial machine.host rest
      → length rs < rounds
      → from.tasks k ≡ record { requests = map order rs; unsent = [] }
      → handle_client machine (suc fuel) k rounds received from.server ≡ returned t
      → Reached machine k from [] t
  handle_client-Reached rs rounds rest t all arrives e partial h w done =
      let (u, served, removed) = >>=-eq-returned (serve_all machine (suc fuel) k rs from.server) _ (
        sym (
          handle_client-stream_of machine (suc fuel) k rs rounds rest from.server all arrives e
            partial h)
        ∙ done) in
      let r = serve_all-Reached rs from u no_steps (λ j d. refl) w served in
      record {
        next = record r.next { server = remove_client k r.next.server };
        run = then_step r.run (leaves k r.next r.task);
        server = rw r.server (ground (arith, removed));
        task = r.task;
        others = r.others;
      }
