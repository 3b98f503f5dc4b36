-- ===== src/Framing/Headers.antt =====
-- The header that the loop of Orderbook Server/server.cpp reads of a message that was sent.
use simple_orderbook_v.Common.{ℕ, ◌^◌, ◌<◌, ◌≡◌, refl, List, ◌∷◌, ◌++◌}
use simple_orderbook_v.Network.{Host}
use simple_orderbook_v.Memory.{Width, u8, u32, load, store, load-store}
use simple_orderbook_v.Memory.Layout.{decode, encode}
use simple_orderbook_v.Wire.{read}
use simple_orderbook_v.Wire.Structs.{header_struct}
use simple_orderbook_v.Framing.{peek_header, peek_length}
use simple_orderbook_v.ByteOrder.{header_to_host_order}
use mathlib.Core.List.{append_assoc}

load-u8 : (host : Host) (t : ℕ) (rest : List ℕ) → load host u8 (store host u8 t ++ rest) ≡ (t, rest)
unfolding load store
load-u8 host t rest = refl

module _ (host : Host) (ws : List Width) (t l q : ℕ) (xs rest : List ℕ) where
  abbrev message : List ℕ
  message = encode host (u8 ∷ u32 ∷ u32 ∷ ws) (t ∷ l ∷ q ∷ xs) ++ rest

  pub type-read : (read header_struct host message).type ≡ t
  unfolding read decode encode load store
  type-read = refl

  -- Two fields of the header have to fit for the loop to find the length.
  pub peek_length-encode : l < 2 ^ 32 → peek_length host message ≡ host.ntohl l
  unfolding read decode encode peek_length peek_header header_to_host_order
  peek_length-encode h =
      let after = store host u32 q ++ encode host ws xs in
      rw
        (
          append_assoc (store host u8 t) (store host u32 l ++ after) rest,
          load-u8 host t ((store host u32 l ++ after) ++ rest),
          append_assoc (store host u32 l) after rest,
          load-store host u32 l (after ++ rest) h,
        )
        refl
