-- ===== src/Client/Receiver/Replies.antt =====
-- Orderbook Client/client.cpp on the bytes that the handlers of Orderbook Server/server.cpp reply.
use simple_orderbook_v.Client.Receiver.Responses.{line_of, print}
use simple_orderbook_v.Client.Receiver.Responses.AddOrder.{add_order-Frame}
use simple_orderbook_v.Client.Receiver.Responses.CancelOrder.{cancel_order-Frame}
use simple_orderbook_v.Client.Receiver.Responses.ModifyOrder.{modify_order-Frame}
use simple_orderbook_v.Common.{
  ℕ, ◌<◌, ◌≡◌, ◌∙◌, refl, sym, ap, List, [], ◌∷◌, ◌++◌, map, length, All, arith, inl,
}
use simple_orderbook_v.Outcome.{returned}
use simple_orderbook_v.Framing.{Received}
use simple_orderbook_v.Framing.Casts.{struct-Frame}
use simple_orderbook_v.Framing.Chunks.{Arrives, receive-concat}
use simple_orderbook_v.Framing.Frames.{Frame, IsPartial, concat, act_all}
use simple_orderbook_v.Server.Handlers.{Machine}
use simple_orderbook_v.Server.Handlers.Clients.Stream.{
  Request, add, cancel, modify, IsRequest, reply_of,
}
use simple_orderbook_v.Client.{TcpClient, receiver_ends}
use simple_orderbook_v.Client.Receiver.{Line, process_message, receiver_function}
use mathlib.Core.List.{append_assoc, append-nil}

module _ (machine : Machine) where
  open machine use {host}

  abbrev pub replies_of : List Request → List ℕ
  replies_of [] = []
  replies_of (r ∷ rs) = reply_of machine r ++ replies_of rs

  -- The messages of the replies, with what they are as a stream, and what is printed for them.
  record Framed (rs : List Request) : Type 0 where
    frames : List (Frame host (process_message host))
    stream : concat host (process_message host) frames ≡ replies_of rs
    printed :
        (lines : List Line)
        → act_all host (process_message host) frames lines ≡ returned (lines ++ map line_of rs)
    count : length frames ≡ length rs

  add_frame :
      (r : Request) (rs : List Request) (f : Frame host (process_message host))
      → f.bytes ≡ reply_of machine r
      → f.act ≡ print (line_of r)
      → Framed rs
      → Framed (r ∷ rs)
  add_frame r rs f b a framed = record {
    frames = f ∷ framed.frames;
    stream = rw (b, framed.stream) refl;
    printed = λ lines. rw a (
        framed.printed (lines ++ (line_of r ∷ []))
        ∙ ap (λ l. returned l) (append_assoc lines (line_of r ∷ []) (map line_of rs)));
    count = omega (arith, framed.count);
  }

  framed : (rs : List Request) → All IsRequest rs → Framed rs
  unfolding struct-Frame add_order-Frame cancel_order-Frame modify_order-Frame
  framed [] all = record {
    frames = [];
    stream = refl;
    printed = λ lines. ap (λ l. returned l) (sym (append-nil lines));
    count = refl;
  }
  framed (add m ∷ rs) (i, all) =
      add_frame (add m) rs (add_order-Frame machine m i) refl refl (framed rs all)
  framed (cancel m ∷ rs) (i, all) =
      add_frame (cancel m) rs (cancel_order-Frame machine m i) refl refl (framed rs all)
  framed (modify m ∷ rs) (i, all) =
      add_frame (modify m) rs (modify_order-Frame machine m i) refl refl (framed rs all)

  -- The client prints one line for each reply of the server to requests to add, cancel or modify orders,
  -- in the order of its requests, in whatever pieces the bytes arrive: the order that each request named,
  -- with success.
  pub receiver_function-replies_of :
      {received : List Received} {stream : List ℕ} (rs : List Request) (rounds : ℕ) (rest : List ℕ)
      (c : TcpClient)
      → All IsRequest rs
      → Arrives host (process_message host) received stream
      → stream ≡ replies_of rs ++ rest
      → IsPartial host rest
      → length rs < rounds
      → receiver_function host rounds received c ≡ returned (map line_of rs, receiver_ends c)
  unfolding receiver_function
  receiver_function-replies_of {received} {stream} rs rounds rest c all arrives e partial h =
      let f = framed rs all in
      rw
        (receive-concat host (process_message host) f.frames rounds [] rest [] arrives
          (inl (omega arith)) partial (rw f.stream e) (omega (arith, h, f.count)))
        (rw (f.printed []) refl)
