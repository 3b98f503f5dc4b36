-- ===== src/Network.antt =====
-- The byte order functions of Orderbook Server/message_format.h. `htonl` and `ntohl` are Winsock's: a
-- record with the behaviour that Winsock documents. The packed structs are records of their fields.
use simple_orderbook_v.Common.{
  ℕ, ◌+◌, ◌*◌, ◌/◌, ◌%◌, ◌^◌, ◌<◌, ◌≡◌, Bool, arith, if◌then◌else◌, Bool-cases, inl, inr,
}

-- The `uint32_t` with the bytes in the other order.
unfoldable pub swap32 : ℕ → ℕ
swap32 x =
    x % 2 ^ 8 * 2 ^ 24
    + x / 2 ^ 8 % 2 ^ 8 * 2 ^ 16
    + x / 2 ^ 16 % 2 ^ 8 * 2 ^ 8
    + x / 2 ^ 24 % 2 ^ 8

-- A host: `little_endian` says what the test of `htonll` finds, and network order is big-endian.
pub record Host : Type 0 where
  pub little_endian : Bool
  pub htonl : ℕ → ℕ
  pub ntohl : ℕ → ℕ
  pub htonl_lem : (x : ℕ) → x < 2 ^ 32 → htonl x ≡ (if little_endian then swap32 x else x)
  pub ntohl_lem : (x : ℕ) → x < 2 ^ 32 → ntohl x ≡ (if little_endian then swap32 x else x)

swap32-lt : (x : ℕ) → swap32 x < 2 ^ 32
unfolding swap32
swap32-lt x = omega arith

swap32-swap32 : (x : ℕ) → x < 2 ^ 32 → swap32 (swap32 x) ≡ x
unfolding swap32
swap32-swap32 x h = omega arith

module _ (host : Host) where
  open host use {little_endian, htonl, ntohl, htonl_lem, ntohl_lem}

  -- The halves change places; `|` joins numbers that have no bit in common.
  unfoldable pub htonll : ℕ → ℕ
  htonll value =
      if little_endian then htonl (value % 2 ^ 32) * 2 ^ 32 + htonl (value / 2 ^ 32) else value

  unfoldable pub ntohll : ℕ → ℕ
  unfolding htonll
  ntohll value = htonll value

  pub htonl-lt : (x : ℕ) → x < 2 ^ 32 → htonl x < 2 ^ 32
  htonl-lt x h = ground (arith, htonl_lem x h, swap32-lt x)

  pub htonll-lt : (x : ℕ) → x < 2 ^ 64 → htonll x < 2 ^ 64
  unfolding htonll
  htonll-lt x h = elim (Bool-cases little_endian) [
    | inl e ↦
        let small : x / 2 ^ 32 < 2 ^ 32 = omega arith in
        ground (arith, e, htonl-lt (x % 2 ^ 32) (omega arith), htonl-lt (x / 2 ^ 32) small)
    | inr e ↦ ground (arith, e)
  ]

  pub ntohl-htonl : (x : ℕ) → x < 2 ^ 32 → ntohl (htonl x) ≡ x
  ntohl-htonl x h =
      ground (arith, htonl_lem x h, htonl-lt x h, ntohl_lem (htonl x), swap32-swap32 x h)

  pub htonl-htonl : (x : ℕ) → x < 2 ^ 32 → htonl (htonl x) ≡ x
  htonl-htonl x h =
      ground (arith, htonl_lem x h, htonl-lt x h, htonl_lem (htonl x), swap32-swap32 x h)

  pub ntohll-htonll : (x : ℕ) → x < 2 ^ 64 → ntohll (htonll x) ≡ x
  unfolding ntohll
  ntohll-htonll x h = elim (Bool-cases little_endian) [
    | inl e ↦
        let lo : ℕ = htonl (x % 2 ^ 32) in
        let hi : ℕ = htonl (x / 2 ^ 32) in
        let small : x / 2 ^ 32 < 2 ^ 32 = omega arith in
        let hi_small : hi < 2 ^ 32 = htonl-lt (x / 2 ^ 32) small in
        let first : (lo * 2 ^ 32 + hi) % 2 ^ 32 ≡ hi = omega arith in
        let second : (lo * 2 ^ 32 + hi) / 2 ^ 32 ≡ lo = omega arith in
        rw
          (e, first, second, htonl-htonl (x / 2 ^ 32) small, htonl-htonl (x % 2 ^ 32) (omega arith))
          (omega arith)
    | inr e ↦ ground arith
  ]
