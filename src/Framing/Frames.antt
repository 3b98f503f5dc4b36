-- ===== src/Framing/Frames.antt =====
-- The messages that the loop of Orderbook Server/server.cpp cuts from its buffer.
use simple_orderbook_v.Common.{
  ℕ, zero, suc, ◌+◌, ◌<◌, ◌≤◌, ◌≡◌, ◌≢◌, ◌∙◌, ◌⊎◌, inl, inr, Bool-cases, refl, List, [], ◌∷◌, ◌++◌,
  length, length-append, drop, ltb, ltb-true, ltb-false, arith,
}
use simple_orderbook_v.Outcome.{
  Outcome, returned, out_of_fuel, ◌>>=◌, bind-cong, bind_assoc, >>=-eq-returned, Returns,
  Returns-value,
}
use simple_orderbook_v.Memory.{load}
use simple_orderbook_v.Memory.Layout.{decode}
use simple_orderbook_v.Network.{Host}
use simple_orderbook_v.Messages.{size_of_header}
use simple_orderbook_v.Framing.{peek_header, peek_length, process_message_buffer}
use mathlib.Core.List.{append_assoc}

-- The header of a message stands in its own bytes.
pub peek_length-append :
    (host : Host) (f rest : List ℕ)
    → size_of_header ≤ length f
    → peek_length host (f ++ rest) ≡ peek_length host f
unfolding peek_length peek_header decode load
peek_length-append host (t ∷ a ∷ b ∷ c ∷ d ∷ e ∷ f ∷ g ∷ h ∷ more) rest l = refl
peek_length-append host [] rest l = absurd (omega arith)
peek_length-append host (a ∷ []) rest l = absurd (omega arith)
peek_length-append host (a ∷ b ∷ []) rest l = absurd (omega arith)
peek_length-append host (a ∷ b ∷ c ∷ []) rest l = absurd (omega arith)
peek_length-append host (a ∷ b ∷ c ∷ d ∷ []) rest l = absurd (omega arith)
peek_length-append host (a ∷ b ∷ c ∷ d ∷ e ∷ []) rest l = absurd (omega arith)
peek_length-append host (a ∷ b ∷ c ∷ d ∷ e ∷ f ∷ []) rest l = absurd (omega arith)
peek_length-append host (a ∷ b ∷ c ∷ d ∷ e ∷ f ∷ g ∷ []) rest l = absurd (omega arith)
peek_length-append host (a ∷ b ∷ c ∷ d ∷ e ∷ f ∷ g ∷ h ∷ []) rest l = absurd (omega arith)

-- No complete message is left.
abbrev pub IsPartial : Host → List ℕ → Type 0
IsPartial host buffer = (length buffer < size_of_header) ⊎ (length buffer < peek_length host buffer)

pub drop-append : (xs ys : List ℕ) (n : ℕ) → length xs ≡ n → drop n (xs ++ ys) ≡ ys
drop-append [] ys zero h = refl
drop-append [] ys (suc n) h = absurd (omega (arith, h))
drop-append (x ∷ xs) ys zero h = absurd (omega (arith, h))
drop-append (x ∷ xs) ys (suc n) h = drop-append xs ys n (omega (arith, h))

module _ {S : Type 0} (host : Host) (process_message : ℕ → List ℕ → S → Outcome (List ℕ × S)) where
  -- A complete message: the handlers do `act` for it, write into its own bytes at most, and leave the
  -- bytes after it as they are.
  pub record Frame : Type 0 where
    pub bytes : List ℕ
    pub act : S → Outcome S
    pub long : size_of_header ≤ length bytes
    pub sized : peek_length host bytes ≡ length bytes
    pub after : List ℕ
    pub kept : length after ≡ length bytes
    pub handled :
        (rest : List ℕ) (s : S)
        → process_message (length bytes) (bytes ++ rest) s
          ≡ (act s >>= λ t. returned (after ++ rest, t))

  abbrev pub concat : List Frame → List ℕ
  concat [] = []
  concat (f ∷ fs) = f.bytes ++ concat fs

  abbrev pub act_all : List Frame → S → Outcome S
  act_all [] s = returned s
  act_all (f ∷ fs) s = f.act s >>= act_all fs

  process-frame :
      (f : Frame) (rest : List ℕ) (s : S) (fuel : ℕ)
      → process_message_buffer host process_message (suc fuel) (f.bytes ++ rest) s
        ≡ (f.act s >>= λ t. process_message_buffer host process_message fuel rest t)
  unfolding process_message_buffer
  process-frame f rest s fuel =
      let len = length-append f.bytes rest in
      let n : peek_length host (f.bytes ++ rest) ≡ length f.bytes =
        ground (arith, peek_length-append host f.bytes rest, f.long, f.sized) in
      rw
        (
          n,
          len,
          ltb-false (length f.bytes + length rest) size_of_header (omega (arith, f.long)),
          ltb-false (length f.bytes + length rest) (length f.bytes) (omega arith),
          f.handled rest s,
        )
        (bind_assoc (f.act s) _ _ ∙ rw (drop-append f.after rest (length f.bytes) f.kept) refl)

  process-partial :
      (fuel : ℕ) (rest : List ℕ) (s : S)
      → IsPartial host rest
      → process_message_buffer host process_message (suc fuel) rest s ≡ returned (rest, s)
  unfolding process_message_buffer
  process-partial fuel rest s (inl short) = rw (ltb-true _ _ short) refl
  process-partial fuel rest s (inr missing) = elim (Bool-cases (ltb (length rest) size_of_header)) [
    | inl h ↦ rw h refl
    | inr h ↦ rw (h, ltb-true _ _ missing) refl
  ]

  -- Complete messages are cut from the buffer one by one and handled in their order, each once, until
  -- a handler fails to return, and the bytes of an incomplete message stay in the buffer for the next
  -- call: any fuel above the number of messages is enough.
  pub process_message_buffer-concat :
      (fs : List Frame) (fuel : ℕ) (rest : List ℕ) (s : S)
      → IsPartial host rest
      → length fs < fuel
      → process_message_buffer host process_message fuel (concat fs ++ rest) s
        ≡ (act_all fs s >>= λ t. returned (rest, t))
  process_message_buffer-concat fs zero rest s partial h = absurd (omega (arith, h))
  process_message_buffer-concat [] (suc fuel) rest s partial h = process-partial fuel rest s partial
  process_message_buffer-concat (f ∷ fs) (suc fuel) rest s partial h =
      rw
        (
          append_assoc f.bytes (concat fs) rest,
          process-frame f (concat fs ++ rest) s fuel,
          bind_assoc {C = List ℕ × S} (f.act s) (act_all fs) (λ t. returned (rest, t)),
        )
        (bind-cong (f.act s)
          (λ t. process_message_buffer-concat fs fuel rest t partial (omega (arith, h))))

  -- What `processMessage` does to a buffer whose header has the length 0: it keeps the buffer's size and
  -- that length.
  abbrev KeepsZero : List ℕ → List ℕ × S → Type 0
  KeepsZero b (b', t) = (length b' ≡ length b) × (peek_length host b' ≡ 0)

  -- A buffer whose first header has the length 0 is processed for ever, if `processMessage` returns and
  -- leaves the buffer's size and the length in its header as they are.
  process_message_buffer-endless :
      (fuel : ℕ) (buffer : List ℕ) (s : S)
      → ((b : List ℕ) (t : S)
          → size_of_header ≤ length b
          → peek_length host b ≡ 0
          → Returns (KeepsZero b) (process_message 0 b t))
      → size_of_header ≤ length buffer
      → peek_length host buffer ≡ 0
      → process_message_buffer host process_message fuel buffer s ≡ out_of_fuel
  unfolding process_message_buffer
  process_message_buffer-endless zero buffer s keeps long zero_length = refl
  process_message_buffer-endless (suc fuel) buffer s keeps long zero_length =
      let (p, r, k) = Returns-value (keeps buffer s long zero_length) in
      rw (zero_length, ltb-false _ _ long, ltb-false (length buffer) 0 (omega arith), r)
        (process_message_buffer-endless fuel p.0 p.1 keeps (omega (arith, k.0)) k.1)

  -- And it never returns, if `processMessage` does so whenever it returns.
  pub process_message_buffer-ne-returned :
      (fuel : ℕ) (buffer : List ℕ) (s : S) (result : List ℕ × S)
      → ((b : List ℕ) (t : S) (p : List ℕ × S)
          → size_of_header ≤ length b
          → peek_length host b ≡ 0
          → process_message 0 b t ≡ returned p
          → KeepsZero b p)
      → size_of_header ≤ length buffer
      → peek_length host buffer ≡ 0
      → process_message_buffer host process_message fuel buffer s ≢ returned result
  unfolding process_message_buffer
  process_message_buffer-ne-returned zero buffer s result keeps long zero_length = λ e. cc
  process_message_buffer-ne-returned (suc fuel) buffer s result keeps long zero_length =
      rw (zero_length, ltb-false _ _ long, ltb-false (length buffer) 0 (omega arith))
        (λ e.
          let (p, r, later) = >>=-eq-returned (process_message 0 buffer s) _ e in
          let k = keeps buffer s p long zero_length r in
          process_message_buffer-ne-returned fuel p.0 p.1 result keeps (omega (arith, k.0)) k.1
            later)
