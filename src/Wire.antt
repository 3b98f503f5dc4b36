-- ===== src/Wire.antt =====
-- The bytes of the packed structs of Orderbook Server/message_format.h, and their values: `read` is a
-- `reinterpret_cast` of bytes, and `write` gives the bytes that `send` is handed.
pub mod Hosts
pub mod Structs
use simple_orderbook_v.Common.{ℕ, ◌≡◌, ◌∙◌, ap, List, ◌++◌, drop, length}
use simple_orderbook_v.Network.{Host}
use simple_orderbook_v.Memory.{Width}
use simple_orderbook_v.Memory.Layout.{
  decode, encode, FitsLayout, size_of_layout, decode-encode, length-encode,
}

-- A struct by its fields: their widths, and its values as lists of integers.
pub record Struct (M : Type 0) : Type 0 where
  pub layout : List Width
  pub fields : M → List ℕ
  pub of_fields : List ℕ → M

module _ {M : Type 0} (struct : Struct M) where
  -- The integers fit the fields' widths, and are the whole of the value.
  pub record IsStored (m : M) : Type 0 where
    pub fits : FitsLayout struct.layout (struct.fields m)
    pub whole : struct.of_fields (struct.fields m) ≡ m

  abbrev pub sizeof : ℕ
  sizeof = size_of_layout struct.layout

  module _ (host : Host) where
    unfoldable pub read : List ℕ → M
    read bytes = struct.of_fields (decode host struct.layout bytes)

    unfoldable pub write : M → List ℕ
    write m = encode host struct.layout (struct.fields m)

    pub read-write : (m : M) (rest : List ℕ) → IsStored m → read (write m ++ rest) ≡ m
    unfolding read write
    read-write m rest s =
        ap struct.of_fields (decode-encode host struct.layout (struct.fields m) rest s.fits)
        ∙ s.whole

    pub length-write :
        (m : M) → length (struct.fields m) ≡ length struct.layout → length (write m) ≡ sizeof
    unfolding write
    length-write m same = length-encode host struct.layout (struct.fields m) same

-- A write through the pointer to the buffer's first bytes.
unfoldable pub write_over : List ℕ → List ℕ → List ℕ
write_over bytes buffer = bytes ++ drop (length bytes) buffer
