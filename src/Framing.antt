-- ===== src/Framing.antt =====
-- `TcpServer::processMessageBuffer` of Orderbook Server/server.cpp (the client has the same loop). The
-- loop takes fuel. `processMessage`, which changes the buffer in place and the server, is a parameter:
-- it gets the length of the message, the buffer and the state.
mod Examples
pub mod Casts
pub mod Chunks
pub mod Frames
pub mod Headers
use simple_orderbook_v.Common.{
  ℕ, zero, suc, ◌+◌, ◌*◌, ◌^◌, List, [], ◌∷◌, ◌++◌, length, drop, ltb, if◌then◌else◌,
}
use simple_orderbook_v.Outcome.{Outcome, returned, out_of_fuel, ◌>>=◌}
use simple_orderbook_v.Network.{Host}
use simple_orderbook_v.Messages.{MessageHeader, size_of_header}
use simple_orderbook_v.Wire.{read}
use simple_orderbook_v.Wire.Structs.{header_struct}
use simple_orderbook_v.ByteOrder.{header_to_host_order}

-- `memcpy` of the packed header; fewer bytes are not copied by the loop.
unfoldable pub peek_header : Host → List ℕ → MessageHeader
unfolding read
peek_header host buffer = read header_struct host buffer

unfoldable pub peek_length : Host → List ℕ → ℕ
unfolding peek_header header_to_host_order
peek_length host buffer = (header_to_host_order host (peek_header host buffer)).length

module _ {S : Type 0} (host : Host) (process_message : ℕ → List ℕ → S → Outcome (List ℕ × S)) where
  unfoldable pub process_message_buffer : ℕ → List ℕ → S → Outcome (List ℕ × S)
  process_message_buffer zero buffer s = out_of_fuel
  process_message_buffer (suc fuel) buffer s =
      let n = peek_length host buffer in
      if ltb (length buffer) size_of_header
      then returned (buffer, s)
      else if ltb (length buffer) n
      then returned (buffer, s)
      else (process_message n buffer s >>= λ (processed, t).
          process_message_buffer fuel (drop n processed) t)

-- What a call of `recv` gives: some bytes, the end of the stream, or an error, which may be that there
-- is nothing to read yet.
pub data Received : Type 0 where
  bytes : List ℕ → Received
  would_block disconnected failed : Received

module _ {S : Type 0} (host : Host) (process_message : ℕ → List ℕ → S → Outcome (List ℕ × S)) where
  -- The loops of `handleClient` and `receiveMessages`: the buffer of accumulated bytes grows and is
  -- processed. At the end of the list the loop finds that it is to stop running.
  unfoldable pub receive : ℕ → List Received → List ℕ → S → Outcome (List ℕ × S)
  unfolding process_message_buffer
  receive rounds [] buffer s = returned (buffer, s)
  receive rounds (bytes more ∷ rest) buffer s =
      process_message_buffer host process_message rounds (buffer ++ more) s >>= λ (left, t).
      receive rounds rest left t
  receive rounds (would_block ∷ rest) buffer s = receive rounds rest buffer s
  receive rounds (disconnected ∷ rest) buffer s = returned (buffer, s)
  receive rounds (failed ∷ rest) buffer s = returned (buffer, s)
