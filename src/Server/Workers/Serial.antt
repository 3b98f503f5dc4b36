-- ===== src/Server/Workers/Serial.antt =====
-- The workers of Orderbook Server/server.cpp against the specification of the book.
use simple_orderbook_v.Common.{ℕ, ◌≡◌, refl, some, List, [], ◌∷◌, ◌++◌, arith}
use simple_orderbook_v.Outcome.{Outcome, returned}
use simple_orderbook_v.Orderbook.Spec.{Resting}
use simple_orderbook_v.Orderbook.Refinement.{Faithful}
use simple_orderbook_v.Orderbook.Replay.{replay}
use simple_orderbook_v.Server.{TcpServer, Socket, accept_connection, remove_client, closesocket}
use simple_orderbook_v.Server.Handlers.{Machine, send}
use simple_orderbook_v.Server.Workers.{
  Work, Pool, set_task, Step, calls, sends, accepts, leaves, Steps, no_steps, then_step,
}
use mathlib.Core.List.{append_assoc, append-nil}
use simple_orderbook_v.Server.Workers.Log.{
  work_commands, reply_to, replies, replies-append, Log, all_commands, requests_from, sent_to,
  requests_from-append, sent_to-append, replay-append, all_commands-append,
}
use simple_orderbook_v.Server.Workers.Calls.{Working, returns, stays, left_out, begin_work-Working}

-- From a pool of workers that have nothing to send, whose book shows the orders.
module _ (machine : Machine) (begun : Pool) (resting : Resting) where
  -- The book shows what the commands of the log make of the orders. The log has a first part of each
  -- client's requests, in their order, and the rest are still to be served; the messages to a client are
  -- the replies to that part, of which its worker may have the last to send.
  pub record Serialized (pool : Pool) : Type 0 where
    pub log : Log
    pub shown : Resting
    pub replayed : replay (all_commands log) resting ≡ some shown
    pub faithful : Faithful pool.server.next_address pool.server.orderbook shown
    pub ordered :
        (j : Socket) → requests_from j log ++ (pool.tasks j).requests ≡ (begun.tasks j).requests
    pub answered :
        (j : Socket)
        → sent_to j pool.server.sent ++ (pool.tasks j).unsent
          ≡ sent_to j begun.server.sent ++ sent_to j (replies machine log resting)

  calls-Serialized :
      (k : Socket) (work : Work) (requests : List Work) (messages : List (List ℕ)) (t : TcpServer)
      (pool : Pool) (z : Serialized pool) {r : Outcome (List (List ℕ) × TcpServer)}
      → pool.tasks k ≡ record { requests = work ∷ requests; unsent = [] }
      → Working machine work z.shown pool.server r
      → r ≡ returned (messages, t)
      → Serialized (record {
        tasks = set_task k (record { requests = requests; unsent = messages }) pool.tasks;
        server = t;
      })
  calls-Serialized k work requests messages t pool z w (stays h n) e = absurd (ground (arith, h, e))
  calls-Serialized k work requests messages t pool z w (left_out h n) e =
      absurd (ground (arith, h, e))
  calls-Serialized k work requests messages t pool z w (returns u shown h n f q) e =
      let same : u ≡ t = ground (arith, h, e) in
      let sent : t.sent ≡ pool.server.sent = rw same at q in
      let reply : messages ≡ reply_to machine work z.shown ∷ [] = ground (arith, h, e) in
      record {
        log = z.log ++ ((k, work) ∷ []);
        shown = shown;
        replayed =
            rw
              (
                all_commands-append z.log k work,
                replay-append (all_commands z.log) (work_commands work) resting,
                z.replayed,
              )
              n;
        faithful = rw same at f;
        ordered = λ j. ground (
          arith,
          w,
          z.ordered j,
          requests_from-append j k work z.log,
          append_assoc (requests_from j z.log) (work ∷ []) requests,
          append-nil (requests_from j z.log),
        );
        answered = λ j. ground (
          arith,
          w,
          reply,
          sent,
          z.answered j,
          replies-append machine z.log k work resting z.shown z.replayed,
          sent_to-append j k (reply_to machine work z.shown) (replies machine z.log resting),
          append-nil (sent_to j pool.server.sent),
          append-nil (sent_to j (replies machine z.log resting)),
          append_assoc (sent_to j begun.server.sent) (sent_to j (replies machine z.log resting))
              (reply_to machine work z.shown ∷ []),
        );
      }

  sends-Serialized :
      (fuel : ℕ) (k : Socket) (requests : List Work) (message : List ℕ) (messages : List (List ℕ))
      (pool : Pool)
      → pool.tasks k ≡ record { requests = requests; unsent = message ∷ messages }
      → Serialized pool
      → Serialized (record {
        tasks = set_task k (record { requests = requests; unsent = messages }) pool.tasks;
        server = send machine fuel k message pool.server;
      })
  unfolding send
  sends-Serialized fuel k requests message messages pool w z = record {
    log = z.log;
    shown = z.shown;
    replayed = z.replayed;
    faithful = z.faithful;
    ordered = λ j. ground (arith, w, z.ordered j);
    answered = λ j. ground (
      arith,
      w,
      z.answered j,
      sent_to-append j k message pool.server.sent,
      append_assoc (sent_to j pool.server.sent) (message ∷ []) messages,
      append-nil (sent_to j pool.server.sent),
    );
  }

  other-Serialized :
      (pool : Pool) (t : TcpServer)
      → t.orderbook ≡ pool.server.orderbook
      → t.next_address ≡ pool.server.next_address
      → t.sent ≡ pool.server.sent
      → Serialized pool
      → Serialized (record pool { server = t })
  other-Serialized pool t b a q z = record {
    log = z.log;
    shown = z.shown;
    replayed = z.replayed;
    faithful = rw (b, a) z.faithful;
    ordered = z.ordered;
    answered = λ j. rw q (z.answered j);
  }

  pub step-Serialized :
      (pool next : Pool) → Serialized pool → Step machine pool next → Serialized next
  unfolding accept_connection remove_client closesocket
  step-Serialized pool _ z (calls fuel k work requests messages t _ w e) =
      calls-Serialized k work requests messages t pool z w
        (begin_work-Working machine fuel pool.server z.shown z.faithful work) e
  step-Serialized pool _ z (sends fuel k requests message messages _ w) =
      sends-Serialized fuel k requests message messages pool w z
  step-Serialized pool _ z (accepts k _) = other-Serialized pool _ refl refl refl z
  step-Serialized pool _ z (leaves k _ w) = other-Serialized pool _ refl refl refl z

  module _ (faithful : Faithful begun.server.next_address begun.server.orderbook resting)
      (quiet : (j : Socket) → (begun.tasks j).unsent ≡ []) where
    -- When the book shows some resting orders and no worker has anything to send, every interleaving of
    -- steps leads to where there is a sequence of work that has the begun part of each client's requests
    -- in their order, the book shows what the commands of the sequence make of the orders, and what was
    -- sent to each client, with what its worker has yet to send, are the replies that the sequence gives.
    pub Steps-Serialized : (pool : Pool) → Steps machine begun pool → Serialized pool
    Steps-Serialized _ no_steps = record {
      log = [];
      shown = resting;
      replayed = refl;
      faithful = faithful;
      ordered = λ j. refl;
      answered = λ j. rw (quiet j) refl;
    }
    Steps-Serialized next (then_step {pool} run step) =
        step-Serialized pool next (Steps-Serialized pool run) step
