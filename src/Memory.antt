-- ===== src/Memory.antt =====
-- Integers and packed structs in memory: what a `reinterpret_cast` of bytes reads, and what the bytes of
-- a struct are, for the structs of Orderbook Server/message_format.h under `#pragma pack(push, 1)`.
pub mod Layout
use simple_orderbook_v.Common.{
  ℕ, ◌+◌, ◌*◌, ◌/◌, ◌%◌, ◌^◌, ◌<◌, ◌≡◌, refl, Bool, Bool-cases, true, false, inl, inr, List, [],
  ◌∷◌, ◌++◌, length, if◌then◌else◌, arith,
}
use simple_orderbook_v.Network.{Host}

-- The `uint32_t` at four bytes.
unfoldable pub load32 : Host → ℕ → ℕ → ℕ → ℕ → ℕ
load32 host a b c d =
    if host.little_endian
    then a + b * 2 ^ 8 + c * 2 ^ 16 + d * 2 ^ 24
    else d + c * 2 ^ 8 + b * 2 ^ 16 + a * 2 ^ 24

unfoldable pub store32 : Host → ℕ → List ℕ
store32 host x =
    let a = x % 2 ^ 8 in
    let b = x / 2 ^ 8 % 2 ^ 8 in
    let c = x / 2 ^ 16 % 2 ^ 8 in
    let d = x / 2 ^ 24 % 2 ^ 8 in
    if host.little_endian then a ∷ b ∷ c ∷ d ∷ [] else d ∷ c ∷ b ∷ a ∷ []

pub data Width : Type 0 where
  u8 u32 u64 : Width

abbrev pub size_of : Width → ℕ
size_of u8 = 1
size_of u32 = 4
size_of u64 = 8

abbrev pub bound : Width → ℕ
bound u8 = 2 ^ 8
bound u32 = 2 ^ 32
bound u64 = 2 ^ 64

-- The integer at the first bytes, and the bytes after it.
unfoldable pub load : Host → Width → List ℕ → ℕ × List ℕ
unfolding load32
load host u8 (x ∷ rest) = (x, rest)
load host u32 (a ∷ b ∷ c ∷ d ∷ rest) = (load32 host a b c d, rest)
load host u64 (a ∷ b ∷ c ∷ d ∷ e ∷ f ∷ g ∷ h ∷ rest) =
    let first = load32 host a b c d in
    let second = load32 host e f g h in
    (if host.little_endian then first + second * 2 ^ 32 else second + first * 2 ^ 32, rest)
load host w _ = (0, [])

unfoldable pub store : Host → Width → ℕ → List ℕ
unfolding store32
store host u8 x = x ∷ []
store host u32 x = store32 host x
store host u64 x =
    let low = store32 host (x % 2 ^ 32) in
    let high = store32 host (x / 2 ^ 32) in if host.little_endian then low ++ high else high ++ low

pub load-store :
    (host : Host) (w : Width) (x : ℕ) (rest : List ℕ)
    → x < bound w
    → load host w (store host w x ++ rest) ≡ (x, rest)
unfolding load store
load-store host u8 x rest h = refl
load-store host u32 x rest h = elim (Bool-cases host.little_endian) [
  | inl e ↦ rw e (ground arith)
  | inr e ↦ rw e (ground arith)
]
load-store host u64 x rest h = elim (Bool-cases host.little_endian) [
  | inl e ↦ rw e (ground arith)
  | inr e ↦ rw e (ground arith)
]

pub length-store : (host : Host) (w : Width) (x : ℕ) → length (store host w x) ≡ size_of w
unfolding store
length-store host u8 x = refl
length-store host u32 x = elim (Bool-cases host.little_endian) [ inl e ↦ rw e | inr e ↦ rw e ]
length-store host u64 x = elim (Bool-cases host.little_endian) [ inl e ↦ rw e | inr e ↦ rw e ]
