-- ===== src/Server/Handlers/ZeroLength.antt =====
-- A message whose header has the length 0, at the server of Orderbook Server/server.cpp.
use simple_orderbook_v.Common.{
  ℕ, zero, suc, ◌+◌, ◌-◌, ◌≤◌, ◌≡◌, ◌≢◌, ◌∙◌, refl, ap, subst, Bool, Bool-cases, inl, inr, true,
  false, List, [], ◌∷◌, ltb, length, length-append, drop, arith, if◌then◌else◌, ◌==◌,
}
use simple_orderbook_v.Outcome.{Outcome, returned, undefined, ◌>>=◌, >>=-eq-returned}
use simple_orderbook_v.Network.{Host, swap32}
use simple_orderbook_v.Memory.{Width, u8, u32}
use simple_orderbook_v.Memory.Layout.{decode, encode}
use simple_orderbook_v.Messages.{
  type_code, req_echo, req_quit, req_listusers, rsp_listusers, req_add_order, req_cancel_order,
  req_modify_order, req_orderbook_status, size_of_echo_request, size_of_header,
  size_of_add_order_request, size_of_cancel_order_request, size_of_modify_order_request,
}
use simple_orderbook_v.ByteOrder.{
  header_to_network_order, header_to_host_order, add_order_request_to_host_order,
  cancel_order_request_to_host_order, modify_order_request_to_host_order,
}
use simple_orderbook_v.Wire.{read, write, write_over, length-write}
use simple_orderbook_v.Wire.Structs.{
  header_struct, add_order_request_struct, cancel_order_request_struct, modify_order_request_struct,
}
use simple_orderbook_v.Framing.{peek_header, peek_length, process_message_buffer}
use simple_orderbook_v.Framing.Frames.{process_message_buffer-ne-returned}
use simple_orderbook_v.Framing.Headers.{peek_length-encode}
use simple_orderbook_v.Server.{TcpServer, Socket}
use simple_orderbook_v.Server.Handlers.{
  Machine, header_for, process_message, handle_echo_request, handle_quit_request,
  handle_list_users_request, handle_add_order_request, handle_cancel_order_request,
  handle_modify_order_request, handle_orderbook_status_request, handle_unknown_request,
}

ntohl-zero : (host : Host) → host.ntohl 0 ≡ 0
unfolding swap32
ntohl-zero host = elim (Bool-cases host.little_endian) [
  | inl e ↦ ground (arith, e, host.ntohl_lem 0 (omega arith))
  | inr e ↦ ground (arith, e, host.ntohl_lem 0 (omega arith))
]

length-drop : (n : ℕ) (xs : List ℕ) → length (drop n xs) ≡ length xs - n
length-drop zero xs = omega arith
length-drop (suc n) [] = omega arith
length-drop (suc n) (x ∷ xs) = omega (arith, length-drop n xs)

length-write_over :
    (bytes buffer : List ℕ)
    → length bytes ≤ length buffer
    → length (write_over bytes buffer) ≡ length buffer
unfolding write_over
length-write_over bytes buffer h =
    omega (
      arith,
      h,
      length-append bytes (drop (length bytes) buffer),
      length-drop (length bytes) buffer,
    )

ltb-false_le : (m n : ℕ) → ltb m n ≡ false → n ≤ m
ltb-false_le m n h = ground (arith, h)

-- What a handler that returns has done to the buffer.
record KeepsZero (host : Host) (b : List ℕ) (r : Outcome (List ℕ × TcpServer)) : Type 0 where
  kept :
      (p : List ℕ × TcpServer)
      → r ≡ returned p
      → (length p.0 ≡ length b) × (peek_length host p.0 ≡ 0)

module _ (host : Host) (b : List ℕ) (z : peek_length host b ≡ 0) where
  KeepsZero-if :
      {x y : Outcome (List ℕ × TcpServer)} (t : Bool)
      → KeepsZero host b x
      → KeepsZero host b y
      → KeepsZero host b (if t then x else y)
  KeepsZero-if true p q = p
  KeepsZero-if false p q = q

  same-KeepsZero : (t : TcpServer) → KeepsZero host b (returned (b, t))
  same-KeepsZero t = record {
    kept = λ p e.
        let h : b ≡ p.0 = ground (arith, e) in
        subst (λ c. (length c ≡ length b) × (peek_length host c ≡ 0)) h (refl, z);
  }

  undefined-KeepsZero : KeepsZero host b undefined
  undefined-KeepsZero = record { kept = λ p e. absurd (ground (arith, e)) }

  -- A request that is written back with the length 0 in its header.
  written-KeepsZero :
      (converted : List ℕ) (r : Outcome TcpServer)
      → length converted ≤ length b
      → peek_length host (write_over converted b) ≡ 0
      → KeepsZero host b (r >>= λ t. returned (write_over converted b, t))
  written-KeepsZero converted r h k = record {
    kept = λ p e.
        let (t, _, g) = >>=-eq-returned r _ e in
        let same : write_over converted b ≡ p.0 = ground (arith, g) in
        subst (λ c. (length c ≡ length b) × (peek_length host c ≡ 0)) same
          (length-write_over converted b h, k);
  }

  encoded-zero :
      (ws : List Width) (t l q : ℕ) (xs : List ℕ)
      → l ≡ 0
      → peek_length host (write_over (encode host (u8 ∷ u32 ∷ u32 ∷ ws) (t ∷ l ∷ q ∷ xs)) b) ≡ 0
  unfolding write_over
  encoded-zero ws t l q xs e =
      peek_length-encode host ws t l q xs _ (omega (arith, e)) ∙ ap host.ntohl e ∙ ntohl-zero host

module _ (machine : Machine) (fuel : ℕ) (socket : Socket) where
  open machine use {host}

  add_order-KeepsZero :
      (b : List ℕ) (s : TcpServer)
      → peek_length host b ≡ 0
      → KeepsZero host b (handle_add_order_request machine fuel socket b s)
  unfolding handle_add_order_request peek_length peek_header read decode write
      add_order_request_to_host_order header_to_host_order
  add_order-KeepsZero b s z = elim (Bool-cases (ltb (length b) size_of_add_order_request)) [
    | inl short ↦ rw short (undefined-KeepsZero host b z)
    | inr long ↦ rw long (
        written-KeepsZero host b z _ _
          (omega (arith, ltb-false_le _ _ long, length-write add_order_request_struct host _ refl))
          (encoded-zero host b z _ _ _ _ _ z))
  ]

  cancel_order-KeepsZero :
      (b : List ℕ) (s : TcpServer)
      → peek_length host b ≡ 0
      → KeepsZero host b (handle_cancel_order_request machine fuel socket b s)
  unfolding handle_cancel_order_request peek_length peek_header read decode write
      cancel_order_request_to_host_order header_to_host_order
  cancel_order-KeepsZero b s z = elim (Bool-cases (ltb (length b) size_of_cancel_order_request)) [
    | inl short ↦ rw short (undefined-KeepsZero host b z)
    | inr long ↦ rw long (
        written-KeepsZero host b z _ _
          (omega
            (arith, ltb-false_le _ _ long, length-write cancel_order_request_struct host _ refl))
          (encoded-zero host b z _ _ _ _ _ z))
  ]

  modify_order-KeepsZero :
      (b : List ℕ) (s : TcpServer)
      → peek_length host b ≡ 0
      → KeepsZero host b (handle_modify_order_request machine fuel socket b s)
  unfolding handle_modify_order_request peek_length peek_header read decode write
      modify_order_request_to_host_order header_to_host_order
  modify_order-KeepsZero b s z = elim (Bool-cases (ltb (length b) size_of_modify_order_request)) [
    | inl short ↦ rw short (undefined-KeepsZero host b z)
    | inr long ↦ rw long (
        written-KeepsZero host b z _ _
          (omega
            (arith, ltb-false_le _ _ long, length-write modify_order_request_struct host _ refl))
          (encoded-zero host b z _ _ _ _ _ z))
  ]

  echo-KeepsZero :
      (b : List ℕ) (s : TcpServer)
      → peek_length host b ≡ 0
      → KeepsZero host b (handle_echo_request machine fuel socket b s)
  unfolding handle_echo_request
  echo-KeepsZero b s z = elim (Bool-cases (ltb (length b) size_of_echo_request)) [
    | inl short ↦ rw short (undefined-KeepsZero host b z)
    | inr long ↦ rw long (same-KeepsZero host b z _)
  ]

  list_users-KeepsZero :
      (b : List ℕ) (s : TcpServer)
      → peek_length host b ≡ 0
      → KeepsZero host b (handle_list_users_request machine fuel socket b s)
  unfolding handle_list_users_request
  list_users-KeepsZero b s z =
      KeepsZero-if host b z
        (ltb 512
          (header_to_network_order host
            (header_for rsp_listusers (size_of_header + 4 + 256) 0)).length)
        (undefined-KeepsZero host b z) (same-KeepsZero host b z _)

  process_message-KeepsZero :
      (b : List ℕ) (s : TcpServer)
      → peek_length host b ≡ 0
      → KeepsZero host b (process_message machine fuel socket 0 b s)
  unfolding process_message handle_quit_request handle_orderbook_status_request
      handle_unknown_request
  process_message-KeepsZero b s z =
      let type = (read header_struct host b).type in
      KeepsZero-if host b z (type == type_code req_echo) (echo-KeepsZero b s z) (
        KeepsZero-if host b z (type == type_code req_quit) (same-KeepsZero host b z _) (
          KeepsZero-if host b z (type == type_code req_listusers) (list_users-KeepsZero b s z) (
            KeepsZero-if host b z (type == type_code req_add_order) (add_order-KeepsZero b s z) (
              KeepsZero-if host b z (type == type_code req_cancel_order)
                (cancel_order-KeepsZero b s z)
                (KeepsZero-if host b z (type == type_code req_modify_order)
                  (modify_order-KeepsZero b s z)
                  (KeepsZero-if host b z (type == type_code req_orderbook_status)
                    (same-KeepsZero host b z _) (same-KeepsZero host b z _)))))))

  -- A buffer whose first header has the length 0 is never done with, whatever its other bytes are and
  -- however long the loop runs: one such message keeps its worker for ever, or ends the server.
  pub zero_length-ne-returned :
      (rounds : ℕ) (buffer : List ℕ) (s : TcpServer) (result : List ℕ × TcpServer)
      → size_of_header ≤ length buffer
      → peek_length host buffer ≡ 0
      → process_message_buffer host (process_message machine fuel socket) rounds buffer s
        ≢ returned result
  zero_length-ne-returned rounds buffer s result =
      process_message_buffer-ne-returned host (process_message machine fuel socket) rounds buffer s
        result (λ b t p _ z. (process_message-KeepsZero b t z).kept p)
