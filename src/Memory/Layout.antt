-- ===== src/Memory/Layout.antt =====
-- A packed struct is its fields' integers, one after another.
use simple_orderbook_v.Common.{
  ℕ, ◌+◌, ◌<◌, ◌≡◌, refl, ap, List, [], ◌∷◌, ◌++◌, length, length-append, arith,
}
use simple_orderbook_v.Network.{Host}
use simple_orderbook_v.Memory.{Width, size_of, bound, load, store, load-store, length-store}
use mathlib.Core.List.{append_assoc}

abbrev pub size_of_layout : List Width → ℕ
size_of_layout [] = 0
size_of_layout (w ∷ ws) = size_of w + size_of_layout ws

unfoldable pub decode : Host → List Width → List ℕ → List ℕ
decode host [] bytes = []
decode host (w ∷ ws) bytes = let (x, rest) = load host w bytes in x ∷ decode host ws rest

unfoldable pub encode : Host → List Width → List ℕ → List ℕ
encode host (w ∷ ws) (x ∷ xs) = store host w x ++ encode host ws xs
encode host _ _ = []

-- One integer for each field, and each fits.
abbrev pub FitsLayout : List Width → List ℕ → Type 0
FitsLayout [] [] = Unit
FitsLayout (w ∷ ws) (x ∷ xs) = (x < bound w) × FitsLayout ws xs
FitsLayout _ _ = ⊥

pub length-FitsLayout : (ws : List Width) (xs : List ℕ) → FitsLayout ws xs → length xs ≡ length ws
length-FitsLayout [] [] f = refl
length-FitsLayout [] (x ∷ xs) f = absurd f
length-FitsLayout (w ∷ ws) [] f = absurd f
length-FitsLayout (w ∷ ws) (x ∷ xs) f = omega (arith, length-FitsLayout ws xs f.1)

module _ (host : Host) where
  pub decode-encode :
      (ws : List Width) (xs rest : List ℕ)
      → FitsLayout ws xs
      → decode host ws (encode host ws xs ++ rest) ≡ xs
  unfolding decode encode
  decode-encode [] [] rest f = refl
  decode-encode [] (x ∷ xs) rest f = absurd f
  decode-encode (w ∷ ws) [] rest f = absurd f
  decode-encode (w ∷ ws) (x ∷ xs) rest f =
      rw
        (
          append_assoc (store host w x) (encode host ws xs) rest,
          load-store host w x (encode host ws xs ++ rest) f.0,
        )
        (ap (λ ys. x ∷ ys) (decode-encode ws xs rest f.1))

  pub length-encode :
      (ws : List Width) (xs : List ℕ)
      → length xs ≡ length ws
      → length (encode host ws xs) ≡ size_of_layout ws
  unfolding encode
  length-encode [] [] f = refl
  length-encode [] (x ∷ xs) f = absurd (omega (arith, f))
  length-encode (w ∷ ws) [] f = absurd (omega (arith, f))
  length-encode (w ∷ ws) (x ∷ xs) f = rw (
    length-append (store host w x) (encode host ws xs),
    length-store host w x,
    length-encode ws xs (omega (arith, f)),
  )
