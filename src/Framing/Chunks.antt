-- ===== src/Framing/Chunks.antt =====
-- The receiving loops of Orderbook Server/server.cpp and Orderbook Client/client.cpp on a stream that
-- arrives in pieces.
use simple_orderbook_v.Common.{
  ℕ, ◌+◌, ◌<◌, ◌≤◌, ◌≡◌, ◌≢◌, ◌∙◌, ◌⊎◌, inl, inr, Bool-cases, refl, sym, ap, List, [], ◌∷◌, ◌++◌,
  length, length-append, drop, ltb, arith,
}
use simple_orderbook_v.Outcome.{Outcome, returned, ◌>>=◌, bind-cong, bind_assoc}
use simple_orderbook_v.Network.{Host}
use simple_orderbook_v.Messages.{size_of_header}
use simple_orderbook_v.Framing.{peek_length, Received, bytes, would_block, receive}
use simple_orderbook_v.Framing.Frames.{
  Frame, IsPartial, peek_length-append, concat, act_all, process_message_buffer-concat,
}
use mathlib.Core.List.{append_assoc, append-nil}

-- What arrives in all, while no call of `recv` fails and the peer stays.
abbrev pub arrived : List (List ℕ) → List ℕ
arrived [] = []
arrived (c ∷ cs) = c ++ arrived cs

-- Two ways to split the same bytes.
split_at :
    (xs p q ys : List ℕ)
    → length xs ≤ length p
    → p ++ q ≡ xs ++ ys
    → (p ≡ xs ++ drop (length xs) p) × (drop (length xs) p ++ q ≡ ys)
split_at [] p q ys h e = (refl, e)
split_at (x ∷ xs) [] q ys h e = absurd (omega (arith, h))
split_at (x ∷ xs) (y ∷ p) q ys h e =
    let (first, second) = split_at xs p q ys (omega (arith, h)) (ground (arith, e)) in
    (ground (arith, e, first), second)

prefix-IsPartial :
    (host : Host) (p q : List ℕ)
    → ((length p < size_of_header) ⊎ (length p < peek_length host (p ++ q)))
    → IsPartial host p
prefix-IsPartial host p q (inl short) = inl short
prefix-IsPartial host p q (inr missing) = elim (Bool-cases (ltb (length p) size_of_header)) [
  | inl h ↦ inl (ground (arith, h))
  | inr h ↦ inr (ground (arith, missing, peek_length-append host p q (ground (arith, h))))
]

module _ {S : Type 0} (host : Host) (process_message : ℕ → List ℕ → S → Outcome (List ℕ × S)) where
  -- A part of a stream of messages: complete messages, and the beginning of the next.
  record Split (fs : List (Frame host process_message)) (rest p q : List ℕ) : Type 0 where
    ready : List (Frame host process_message)
    later : List (Frame host process_message)
    begun : List ℕ
    messages : fs ≡ ready ++ later
    part : p ≡ concat host process_message ready ++ begun
    remaining : begun ++ q ≡ concat host process_message later ++ rest
    partial : IsPartial host begun

  split :
      (fs : List (Frame host process_message)) (rest p q : List ℕ)
      → IsPartial host rest
      → p ++ q ≡ concat host process_message fs ++ rest
      → Split fs rest p q
  split [] rest p q partial e = record {
    ready = [];
    later = [];
    begun = p;
    messages = refl;
    part = refl;
    remaining = e;
    partial = prefix-IsPartial host p q (elim partial [
      | inl short ↦ inl (omega (arith, short, length-append p q, ap length e))
      | inr missing ↦ inr (ground (arith, missing, length-append p q, ap length e, e))
    ]);
  }
  split (f ∷ fs) rest p q partial e =
      let whole : p ++ q ≡ f.bytes ++ (concat host process_message fs ++ rest) =
        e ∙ append_assoc f.bytes (concat host process_message fs) rest in
      elim (Bool-cases (ltb (length p) (length f.bytes))) [
        | inl short ↦ record {
          ready = [];
          later = f ∷ fs;
          begun = p;
          messages = refl;
          part = refl;
          remaining = e;
          partial = prefix-IsPartial host p q (
              inr (
                ground (
                  arith,
                  short,
                  whole,
                  peek_length-append host f.bytes (concat host process_message fs ++ rest) f.long,
                  f.sized,
                )));
        }
        | inr long ↦
            let (first, second) = split_at f.bytes p q _ (ground (arith, long)) whole in
            let next = split fs rest (drop (length f.bytes) p) q partial second in
            record {
              ready = f ∷ next.ready;
              later = next.later;
              begun = next.begun;
              messages = ap (λ l. f ∷ l) next.messages;
              part =
                  first
                  ∙ ap (λ l. f.bytes ++ l) next.part
                  ∙ sym (append_assoc f.bytes (concat host process_message next.ready) next.begun);
              remaining = next.remaining;
              partial = next.partial;
            }
      ]

  act_all-append :
      (fs gs : List (Frame host process_message)) (s : S)
      → act_all host process_message (fs ++ gs) s
        ≡ (act_all host process_message fs s >>= act_all host process_message gs)
  act_all-append [] gs s = refl
  act_all-append (f ∷ fs) gs s =
      bind-cong (f.act s) (act_all-append fs gs)
      ∙ sym
          (bind_assoc (f.act s) (act_all host process_message fs) (act_all host process_message gs))

  -- A buffer that begins with a complete message is not what the loop leaves.
  complete-IsPartial :
      (f : Frame host process_message) (ys buffer : List ℕ)
      → IsPartial host buffer
      → buffer ≢ f.bytes ++ ys
  complete-IsPartial f ys buffer (inl short) e =
      omega (arith, short, f.long, ap length e, length-append f.bytes ys)
  complete-IsPartial f ys buffer (inr missing) e = ground (
    arith,
    missing,
    ap length e,
    ap (peek_length host) e,
    length-append f.bytes ys,
    peek_length-append host f.bytes ys f.long,
    f.sized,
  )

  -- Between the pieces the system may answer that there is nothing to read.
  pub data Arrives : List Received → List ℕ → Type 0 where
    nothing_arrives : Arrives [] []
    bytes_arrive :
        {rs : List Received} {l : List ℕ} (c : List ℕ)
        → Arrives rs l
        → Arrives (bytes c ∷ rs) (c ++ l)
    waits : {rs : List Received} {l : List ℕ} → Arrives rs l → Arrives (would_block ∷ rs) l

  -- A stream of complete messages and the beginning of another is handled alike in whatever pieces it
  -- arrives, however they cut the messages: each message once, in its order.
  pub receive-concat :
      {rs : List Received} {l : List ℕ} (fs : List (Frame host process_message)) (rounds : ℕ)
      (buffer rest : List ℕ) (s : S)
      → Arrives rs l
      → IsPartial host buffer
      → IsPartial host rest
      → buffer ++ l ≡ concat host process_message fs ++ rest
      → length fs < rounds
      → receive host process_message rounds rs buffer s
        ≡ (act_all host process_message fs s >>= λ t. returned (rest, t))
  unfolding receive
  receive-concat [] rounds buffer rest s nothing_arrives begun partial e h =
      ap (λ b. returned (b, s)) (sym (append-nil buffer) ∙ e)
  receive-concat (f ∷ fs) rounds buffer rest s nothing_arrives begun partial e h = absurd (
      complete-IsPartial f (concat host process_message fs ++ rest) buffer begun
        (sym (append-nil buffer) ∙ (e ∙ append_assoc f.bytes _ rest)))
  receive-concat fs rounds buffer rest s (waits more) begun partial e h =
      receive-concat fs rounds buffer rest s more begun partial e h
  receive-concat fs rounds buffer rest s (bytes_arrive {l = l} c more) begun partial e h =
      let next = split fs rest (buffer ++ c) l partial (append_assoc buffer c l ∙ e) in
      let fewer : length fs ≡ length next.ready + length next.later =
        ap length next.messages ∙ length-append next.ready next.later in
      rw
        (
          next.part,
          process_message_buffer-concat host process_message next.ready rounds next.begun s
              next.partial (omega (arith, h, fewer)),
          next.messages,
          act_all-append next.ready next.later s,
          bind_assoc {C = List ℕ × S} (act_all host process_message next.ready s)
              (act_all host process_message next.later) (λ t. returned (rest, t)),
        )
        (bind_assoc {C = List ℕ × S} (act_all host process_message next.ready s)
            (λ t. returned (next.begun, t)) _
          ∙ bind-cong (act_all host process_message next.ready s) (λ t.
            receive-concat next.later rounds next.begun rest t more next.partial partial
              next.remaining (omega (arith, h, fewer))))
