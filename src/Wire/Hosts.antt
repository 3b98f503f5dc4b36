-- ===== src/Wire/Hosts.antt =====
-- The packed structs of Orderbook Server/message_format.h between two hosts, whose byte orders may differ:
-- the sender writes a message that it has converted, and the receiver converts what it reads.
use simple_orderbook_v.Common.{
  ℕ, ◌+◌, ◌*◌, ◌/◌, ◌%◌, ◌^◌, ◌<◌, ◌≡◌, ◌∙◌, refl, sym, ap, Bool-cases, true, inl, inr, List, [],
  ◌∷◌, ◌++◌, arith,
}
use simple_orderbook_v.Network.{Host, swap32, htonll, htonl-lt, htonll-lt}
use simple_orderbook_v.Memory.{Width, u8, u32, u64, bound, store32, store}
use simple_orderbook_v.Memory.Layout.{encode, FitsLayout}
use simple_orderbook_v.Wire.{Struct, read, write, read-write}

-- The bytes of an integer, the highest first or the lowest first.

abbrev high_first32 : ℕ → List ℕ
high_first32 x = x / 2 ^ 24 % 2 ^ 8 ∷ x / 2 ^ 16 % 2 ^ 8 ∷ x / 2 ^ 8 % 2 ^ 8 ∷ x % 2 ^ 8 ∷ []

abbrev low_first32 : ℕ → List ℕ
low_first32 x = x % 2 ^ 8 ∷ x / 2 ^ 8 % 2 ^ 8 ∷ x / 2 ^ 16 % 2 ^ 8 ∷ x / 2 ^ 24 % 2 ^ 8 ∷ []

abbrev pub high_first : Width → ℕ → List ℕ
high_first u8 x = x ∷ []
high_first u32 x = high_first32 x
high_first u64 x = high_first32 (x / 2 ^ 32) ++ high_first32 (x % 2 ^ 32)

-- The integers of a struct with their highest bytes first, which names no host.
abbrev pub network_bytes : List Width → List ℕ → List ℕ
network_bytes (w ∷ ws) (x ∷ xs) = high_first w x ++ network_bytes ws xs
network_bytes _ _ = []

-- An integer as the functions for its width convert it.
abbrev pub to_network : Host → Width → ℕ → ℕ
to_network host u8 x = x
to_network host u32 x = host.htonl x
to_network host u64 x = htonll host x

abbrev pub network_fields : Host → List Width → List ℕ → List ℕ
network_fields host (w ∷ ws) (x ∷ xs) = to_network host w x ∷ network_fields host ws xs
network_fields host _ _ = []

module _ (host : Host) where
  low_first-htonl :
      (x : ℕ) → host.little_endian ≡ true → x < 2 ^ 32 → low_first32 (host.htonl x) ≡ high_first32 x
  unfolding swap32
  low_first-htonl x e h = ground (arith, rw e at (host.htonl_lem x h))

  store32-htonl : (x : ℕ) → x < 2 ^ 32 → store32 host (host.htonl x) ≡ high_first32 x
  unfolding store32
  store32-htonl x h = elim (Bool-cases host.little_endian) [
    | inl e ↦ rw e (low_first-htonl x e h)
    | inr e ↦ rw e (ground (arith, rw e at (host.htonl_lem x h)))
  ]

  store-to_network :
      (w : Width) (x : ℕ) → x < bound w → store host w (to_network host w x) ≡ high_first w x
  unfolding store htonll
  store-to_network u8 x h = refl
  store-to_network u32 x h = store32-htonl x h
  store-to_network u64 x h = elim (Bool-cases host.little_endian) [
    | inl e ↦
        let lo : ℕ = host.htonl (x % 2 ^ 32) in
        let hi : ℕ = host.htonl (x / 2 ^ 32) in
        let small : x / 2 ^ 32 < 2 ^ 32 = omega arith in
        let hi_small : hi < 2 ^ 32 = htonl-lt host (x / 2 ^ 32) small in
        let first : (lo * 2 ^ 32 + hi) % 2 ^ 32 ≡ hi = omega arith in
        let second : (lo * 2 ^ 32 + hi) / 2 ^ 32 ≡ lo = omega arith in
        rw (e, first, second)
          (ap (λ l. l ++ low_first32 lo) (low_first-htonl (x / 2 ^ 32) e small)
            ∙ ap (λ l. high_first32 (x / 2 ^ 32) ++ l)
                (low_first-htonl (x % 2 ^ 32) e (omega arith)))
    | inr e ↦ let small : x / 2 ^ 32 < 2 ^ 32 = omega arith in rw e (ground (arith, small))
  ]

  to_network-lt : (w : Width) (x : ℕ) → x < bound w → to_network host w x < bound w
  to_network-lt u8 x h = h
  to_network-lt u32 x h = htonl-lt host x h
  to_network-lt u64 x h = htonll-lt host x h

  network_fields-FitsLayout :
      (ws : List Width) (xs : List ℕ) → FitsLayout ws xs → FitsLayout ws (network_fields host ws xs)
  network_fields-FitsLayout [] [] f = tt
  network_fields-FitsLayout [] (x ∷ xs) f = absurd f
  network_fields-FitsLayout (w ∷ ws) [] f = absurd f
  network_fields-FitsLayout (w ∷ ws) (x ∷ xs) f =
      (to_network-lt w x f.0, network_fields-FitsLayout ws xs f.1)

  encode-network_fields :
      (ws : List Width) (xs : List ℕ)
      → FitsLayout ws xs
      → encode host ws (network_fields host ws xs) ≡ network_bytes ws xs
  unfolding encode
  encode-network_fields [] xs f = refl
  encode-network_fields (w ∷ ws) [] f = absurd f
  encode-network_fields (w ∷ ws) (x ∷ xs) f =
      rw (store-to_network w x f.0, encode-network_fields ws xs f.1) refl

-- `toNetworkOrder` and `toHostOrder` of a message whose body is its fields.
pub record Conversion {M : Type 0} (struct : Struct M) : Type 0 where
  pub to_network_order : Host → M → M
  pub to_host_order : Host → M → M
  pub converts :
      (host : Host) (m : M)
      → struct.fields (to_network_order host m)
        ≡ network_fields host struct.layout (struct.fields m)
  pub whole :
      (host : Host) (m : M)
      → struct.of_fields (struct.fields (to_network_order host m)) ≡ to_network_order host m
  pub back :
      (host : Host) (m : M)
      → FitsLayout struct.layout (struct.fields m)
      → to_host_order host (to_network_order host m) ≡ m

module _ {M : Type 0} (struct : Struct M) (c : Conversion struct) (m : M)
    (fits : FitsLayout struct.layout (struct.fields m)) where
  pub write-to_network_order :
      (host : Host)
      → write struct host (c.to_network_order host m)
        ≡ network_bytes struct.layout (struct.fields m)
  unfolding write
  write-to_network_order host =
      rw (c.converts host m) (encode-network_fields host struct.layout (struct.fields m) fits)

  pub to_host_order-write :
      (sender receiver : Host) (rest : List ℕ)
      → c.to_host_order receiver
          (read struct receiver (write struct sender (c.to_network_order sender m) ++ rest))
        ≡ m
  to_host_order-write sender receiver rest =
      rw (write-to_network_order sender ∙ sym (write-to_network_order receiver)) (
        ap (c.to_host_order receiver) (
          read-write struct receiver (c.to_network_order receiver m) rest (record {
            fits =
                rw (c.converts receiver m)
                  (network_fields-FitsLayout receiver struct.layout (struct.fields m) fits);
            whole = c.whole receiver m;
          }))
        ∙ c.back receiver m fits)
