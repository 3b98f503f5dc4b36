-- ===== src/Framing/Examples.antt =====
-- Instances of the theorems on the loops of Orderbook Server/server.cpp and Orderbook Client/client.cpp.
use simple_orderbook_v.Common.{ℕ, ◌≡◌, refl, true, List, [], ◌∷◌, inl, take, arith}
use simple_orderbook_v.Outcome.{Outcome, returned}
use simple_orderbook_v.Network.{Host, swap32}
use simple_orderbook_v.ByteOrder.{header_to_host_order}
use simple_orderbook_v.Memory.{load, load32}
use simple_orderbook_v.Memory.Layout.{decode}
use simple_orderbook_v.Framing.{peek_header, peek_length, Received, bytes, would_block, receive}
use simple_orderbook_v.Framing.Chunks.{bytes_arrive, waits, nothing_arrives, receive-concat}
use simple_orderbook_v.Framing.Frames.{Frame}

abbrev intel : Host
intel = record {
  little_endian = true;
  htonl = swap32;
  ntohl = swap32;
  htonl_lem = λ x h. refl;
  ntohl_lem = λ x h. refl;
}

-- The messages are collected, last first.
abbrev collect : ℕ → List ℕ → List (List ℕ) → Outcome (List ℕ × List (List ℕ))
collect n buffer seen = returned (buffer, take n buffer ∷ seen)

-- A request to quit, and the first bytes of another one.
abbrev quit_request : List ℕ
quit_request = 1 ∷ 0 ∷ 0 ∷ 0 ∷ 9 ∷ 0 ∷ 0 ∷ 0 ∷ 0 ∷ []

abbrev begun : List ℕ
begun = 1 ∷ 0 ∷ 0 ∷ []

abbrev no_length : List ℕ
no_length = 2 ∷ 0 ∷ 0 ∷ 0 ∷ 0 ∷ 0 ∷ 0 ∷ 0 ∷ 0 ∷ []

quit_request-length : peek_length intel quit_request ≡ 9
unfolding peek_length peek_header decode load load32 header_to_host_order swap32
quit_request-length = refl

abbrev quit_frame : Frame intel collect
quit_frame = record {
  bytes = quit_request;
  act = λ seen. returned (quit_request ∷ seen);
  long = omega arith;
  sized = quit_request-length;
  after = quit_request;
  kept = refl;
  handled = λ rest s. refl;
}

no_length-zero : peek_length intel no_length ≡ 0
unfolding peek_length peek_header decode load load32 header_to_host_order swap32
no_length-zero = refl

-- A message that arrives in two pieces.
abbrev received : List Received
received =
    bytes (1 ∷ 0 ∷ 0 ∷ []) ∷ would_block ∷ bytes (0 ∷ 9 ∷ 0 ∷ 0 ∷ 0 ∷ 0 ∷ 1 ∷ 0 ∷ 0 ∷ []) ∷ []

receive-concat_example :
    receive intel collect 2 received [] [] ≡ returned (begun, quit_request ∷ [])
receive-concat_example =
    receive-concat intel collect (quit_frame ∷ []) 2 [] begun []
      (bytes_arrive (1 ∷ 0 ∷ 0 ∷ [])
        (waits (bytes_arrive (0 ∷ 9 ∷ 0 ∷ 0 ∷ 0 ∷ 0 ∷ 1 ∷ 0 ∷ 0 ∷ []) nothing_arrives)))
      (inl (omega arith)) (inl (omega arith)) refl (omega arith)
