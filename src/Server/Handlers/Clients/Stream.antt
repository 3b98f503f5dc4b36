-- ===== src/Server/Handlers/Clients/Stream.antt =====
-- Runs of requests through the loop, the handlers and the book of Orderbook Server/server.cpp.
use simple_orderbook_v.Common.{
  ℕ, suc, ◌≡◌, ◌∙◌, refl, sym, ap, subst, List, [], ◌∷◌, ◌++◌, All, length, arith,
}
use simple_orderbook_v.Outcome.{Outcome, returned, ◌>>=◌, >>=-eq-returned, Returns-returned}
use simple_orderbook_v.Messages.{AddOrderRequest, CancelOrderRequest, ModifyOrderRequest}
use simple_orderbook_v.Order.{Side}
use simple_orderbook_v.Orderbook.{Orderbook}
use simple_orderbook_v.Orderbook.Session.{Call}
use simple_orderbook_v.Framing.{process_message_buffer}
use simple_orderbook_v.Framing.Casts.{struct-Frame}
use simple_orderbook_v.Framing.Frames.{
  Frame, IsPartial, concat, act_all, process_message_buffer-concat,
}
use simple_orderbook_v.Server.{TcpServer, Socket}
use simple_orderbook_v.Server.Handlers.{
  Machine, process_message, serve_add_order, serve_cancel_order, serve_modify_order,
  add_order_reply, cancel_order_reply, modify_order_reply,
}
use simple_orderbook_v.Server.Handlers.Clients.{IsAddOrder, IsCancelOrder, IsModifyOrder}
use simple_orderbook_v.Server.Handlers.Clients.AddOrder.{add_order_bytes, add_order-Frame}
use simple_orderbook_v.Server.Handlers.Clients.CancelOrder.{cancel_order_bytes, cancel_order-Frame}
use simple_orderbook_v.Server.Handlers.Clients.ModifyOrder.{modify_order_bytes, modify_order-Frame}
use simple_orderbook_v.Server.Handlers.Outcomes.{
  IsSound, Answered, Serving, answered, stuck, left_out, serve_add_order-Serving,
  serve_cancel_order-Answered, serve_modify_order-Serving,
}
use mathlib.Core.List.{append_assoc, append-nil}

pub data Request : Type 0 where
  add : AddOrderRequest → Request
  cancel : CancelOrderRequest → Request
  modify : ModifyOrderRequest → Request

abbrev pub IsRequest : Request → Type 0
IsRequest (add m) = IsAddOrder m
IsRequest (cancel m) = IsCancelOrder m
IsRequest (modify m) = IsModifyOrder m

-- Calls of the book, one after another.
data Calls : Orderbook → Orderbook → Type 0 where
  no_calls : {book : Orderbook} → Calls book book
  first_call :
      {book middle next : Orderbook} → Call book [] middle → Calls middle next → Calls book next

module _ (machine : Machine) (fuel : ℕ) (socket : Socket) where
  open machine use {host}

  abbrev pub bytes_of : Request → List ℕ
  bytes_of (add m) = add_order_bytes machine fuel socket m
  bytes_of (cancel m) = cancel_order_bytes machine fuel socket m
  bytes_of (modify m) = modify_order_bytes machine fuel socket m

  abbrev pub serve : Request → TcpServer → Outcome TcpServer
  serve (add m) = serve_add_order machine fuel socket m
  serve (cancel m) = serve_cancel_order machine fuel socket m
  serve (modify m) = serve_modify_order machine fuel socket m

  abbrev pub stream_of : List Request → List ℕ
  stream_of [] = []
  stream_of (r ∷ rs) = bytes_of r ++ stream_of rs

  abbrev pub serve_all : List Request → TcpServer → Outcome TcpServer
  serve_all [] s = returned s
  serve_all (r ∷ rs) s = serve r s >>= serve_all rs

  -- The messages of the requests, with what they are as a stream, as actions and as a number.
  pub record Framed (rs : List Request) : Type 0 where
    pub frames : List (Frame host (process_message machine fuel socket))
    pub stream : concat host (process_message machine fuel socket) frames ≡ stream_of rs
    pub actions : act_all host (process_message machine fuel socket) frames ≡ serve_all rs
    pub count : length frames ≡ length rs

  add_frame :
      (r : Request) (rs : List Request) (f : Frame host (process_message machine fuel socket))
      → f.bytes ++ stream_of rs ≡ stream_of (r ∷ rs)
      → (λ s. f.act s >>= serve_all rs) ≡ serve_all (r ∷ rs)
      → Framed rs
      → Framed (r ∷ rs)
  add_frame r rs f b a framed = record {
    frames = f ∷ framed.frames;
    stream = ap (λ tail. f.bytes ++ tail) framed.stream ∙ b;
    actions = ap after framed.actions ∙ a;
    count = omega (arith, framed.count);
  }
    where
      after : (TcpServer → Outcome TcpServer) → TcpServer → Outcome TcpServer
      after k s = f.act s >>= k

  pub framed : (rs : List Request) → All IsRequest rs → Framed rs
  unfolding struct-Frame add_order-Frame cancel_order-Frame modify_order-Frame
  framed [] all = record { frames = []; stream = refl; actions = refl; count = refl }
  framed (add m ∷ rs) (i, all) =
      add_frame (add m) rs (add_order-Frame machine fuel socket m i) refl refl (framed rs all)
  framed (cancel m ∷ rs) (i, all) =
      add_frame (cancel m) rs (cancel_order-Frame machine fuel socket m i) refl refl (framed rs all)
  framed (modify m ∷ rs) (i, all) =
      add_frame (modify m) rs (modify_order-Frame machine fuel socket m i) refl refl (framed rs all)

  -- The bytes of requests, as clients send them, with the first bytes of a later message behind them:
  -- the loop serves the requests in their order, each as the client meant it, and leaves those bytes.
  process_message_buffer-stream_of :
      (rs : List Request) (rest : List ℕ) (s : TcpServer)
      → All IsRequest rs
      → IsPartial host rest
      → process_message_buffer host
          (process_message machine fuel socket)
          (suc (length rs))
          (stream_of rs ++ rest)
          s
        ≡ (serve_all rs s >>= λ t. returned (rest, t))
  process_message_buffer-stream_of rs rest s all partial =
      let f = framed rs all in
      rw (f.stream, f.actions) at
        (process_message_buffer-concat host (process_message machine fuel socket) f.frames
          (suc (length rs)) rest s partial (omega (arith, f.count)))

module _ (machine : Machine) where
  abbrev pub reply_of : Request → List ℕ
  reply_of (add m) = add_order_reply machine m
  reply_of (cancel m) = cancel_order_reply machine m
  reply_of (modify m) = modify_order_reply machine m

  abbrev replies_to : Socket → List Request → List (Socket × List ℕ)
  replies_to socket [] = []
  replies_to socket (r ∷ rs) = (socket, reply_of r) ∷ replies_to socket rs

-- After a run of requests that returns: one reply each, in their order, in a sound server, by calls of
-- its book.
record Ran (replies : List (Socket × List ℕ)) (s t : TcpServer) : Type 0 where
  sound : IsSound t
  calls : Calls s.orderbook t.orderbook
  replied : t.sent ≡ s.sent ++ replies
  clients : t.clients ≡ s.clients

add_call :
    {socket : Socket} {reply : List ℕ} {replies : List (Socket × List ℕ)} {s t u : TcpServer}
    → Answered socket reply s t
    → Ran replies t u
    → Ran ((socket, reply) ∷ replies) s u
add_call {socket} {reply} {replies} {s} a ran = record {
  sound = ran.sound;
  calls = first_call a.called ran.calls;
  replied =
      ran.replied
      ∙ ap (λ l. l ++ replies) a.sent
      ∙ append_assoc s.sent ((socket, reply) ∷ []) replies;
  clients = ran.clients ∙ a.clients;
}

Serving-returned :
    {socket : Socket} {reply : List ℕ} {side : ℕ} {Meets : Side → Type 0} {s t : TcpServer}
    {r : Outcome TcpServer}
    → Serving socket reply side Meets s r
    → r ≡ returned t
    → Answered socket reply s t
Serving-returned {socket} {reply} {s = s} (answered u e a) h =
    subst (Answered socket reply s) (ground arith) a
Serving-returned (stuck k n m e) h = absurd (ground arith)
Serving-returned (left_out n e) h = absurd (ground arith)

module _ (machine : Machine) (fuel : ℕ) (socket : Socket) where
  serve-Answered :
      (r : Request) (s t : TcpServer)
      → IsSound s
      → serve machine (suc fuel) socket r s ≡ returned t
      → Answered socket (reply_of machine r) s t
  serve-Answered (add m) s t sound e =
      Serving-returned (serve_add_order-Serving machine fuel socket s sound m) e
  serve-Answered (cancel m) s t sound e =
      Returns-returned e (serve_cancel_order-Answered machine (suc fuel) socket s sound m)
  serve-Answered (modify m) s t sound e =
      Serving-returned (serve_modify_order-Serving machine fuel socket s sound m) e

  -- Requests that are served one after another, from a sound server on: the book goes through calls of
  -- `AddOrder`, `CancelOrder` and `MatchOrder` on valid books, each request has one reply, and the
  -- server is sound again.
  serve_all-Ran :
      (rs : List Request) (s t : TcpServer)
      → IsSound s
      → serve_all machine (suc fuel) socket rs s ≡ returned t
      → Ran (replies_to machine socket rs) s t
  serve_all-Ran [] s t sound e = subst (Ran [] s) (ground arith) (record {
    sound = sound;
    calls = no_calls;
    replied = sym (append-nil s.sent);
    clients = refl;
  })
  serve_all-Ran (r ∷ rs) s t sound e =
      let (u, first, later) = >>=-eq-returned (serve machine (suc fuel) socket r s) _ e in
      let a = serve-Answered r s u sound first in add_call a (serve_all-Ran rs u t a.sound later)
