-- ===== src/Framing/Casts.antt =====
-- A struct as a message of the loop: the handlers of Orderbook Server/server.cpp and Orderbook
-- Client/client.cpp cast the buffer to a struct and convert it in place.
use simple_orderbook_v.Common.{ℕ, ◌≤◌, ◌≡◌, ◌∙◌, sym, ap, List, ◌++◌, length, length-append, arith}
use simple_orderbook_v.Outcome.{Outcome, returned, ◌>>=◌}
use simple_orderbook_v.Network.{Host}
use simple_orderbook_v.Messages.{size_of_header}
use simple_orderbook_v.Wire.{
  Struct, IsStored, sizeof, read, write, read-write, length-write, write_over,
}
use simple_orderbook_v.Framing.{peek_length}
use simple_orderbook_v.Framing.Frames.{Frame, drop-append}

pub write_over_lem :
    (bytes converted rest : List ℕ)
    → length converted ≡ length bytes
    → write_over converted (bytes ++ rest) ≡ converted ++ rest
unfolding write_over
write_over_lem bytes converted rest h =
    ap (λ tail. converted ++ tail) (drop-append bytes rest (length converted) (sym h))

module _ {S M : Type 0} (host : Host) (process_message : ℕ → List ℕ → S → Outcome (List ℕ × S))
    (struct : Struct M) where
  -- The struct as it was sent and as it is after the conversion have all their fields.
  pub record Whole (sent got : M) : Type 0 where
    pub stored : IsStored struct sent
    pub sent_fields : length (struct.fields sent) ≡ length struct.layout
    pub got_fields : length (struct.fields got) ≡ length struct.layout

  -- What the handlers do to a buffer that begins with the struct.
  abbrev pub Handles : (sent got : M) → (S → Outcome S) → Type 0
  Handles sent got act =
      (rest : List ℕ) (s : S)
      → read struct host (write struct host sent ++ rest) ≡ sent
      → sizeof struct ≤ length (write struct host sent ++ rest)
      → process_message (sizeof struct) (write struct host sent ++ rest) s ≡ (
          act s >>= λ t.
          returned (write_over (write struct host got) (write struct host sent ++ rest), t))

  unfoldable pub struct-Frame :
      (sent got : M) (act : S → Outcome S)
      → Whole sent got
      → size_of_header ≤ sizeof struct
      → peek_length host (write struct host sent) ≡ sizeof struct
      → Handles sent got act
      → Frame host process_message
  struct-Frame sent got act whole long sized handles =
      let n : length (write struct host sent) ≡ sizeof struct =
        length-write struct host sent whole.sent_fields in
      let same : length (write struct host got) ≡ length (write struct host sent) =
        length-write struct host got whole.got_fields ∙ sym n in
      record {
        bytes = write struct host sent;
        act = act;
        long = omega (arith, n, long);
        sized = sized ∙ sym n;
        after = write struct host got;
        kept = same;
        handled = λ rest s.
            rw (n, ← write_over_lem (write struct host sent) (write struct host got) rest same)
              (handles rest s (read-write struct host sent rest whole.stored)
                (omega (arith, n, length-append (write struct host sent) rest)));
      }
