-- ===== src/Client/Receiver/Levels.antt =====
-- The levels of an `OrderbookStatusResponse` of Orderbook Server/message_format.h, from the book's
-- levels to the bytes.
use simple_orderbook_v.Common.{
  ℕ, zero, suc, ◌*◌, ◌^◌, ◌<◌, ◌≤◌, ◌≡◌, refl, ap, min, List, [], ◌∷◌, ◌++◌, map, take, length,
  length-append, replicate, All, All-append, unsigned32, arith,
}
use simple_orderbook_v.Network.{Host, htonl-lt}
use simple_orderbook_v.Memory.{u32}
use simple_orderbook_v.Memory.Layout.{FitsLayout}
use simple_orderbook_v.Messages.{NetworkLevelInfo, OrderbookStatusResponse, max_levels}
use simple_orderbook_v.Order.{LevelInfo}
use simple_orderbook_v.ByteOrder.{convert_levels, level_to_network_order}
use simple_orderbook_v.ByteOrder.Status.{IsLevelInfo}
use simple_orderbook_v.Wire.{IsStored}
use simple_orderbook_v.Wire.Structs.{
  level_fields, levels_of_fields, orderbook_status_response_struct,
}
use simple_orderbook_v.Framing.Frames.{drop-append}
use simple_orderbook_v.Server.Handlers.{fill_levels}

take-append : (xs ys : List ℕ) (n : ℕ) → length xs ≡ n → take n (xs ++ ys) ≡ xs
take-append [] ys zero h = refl
take-append [] ys (suc n) h = absurd (omega (arith, h))
take-append (x ∷ xs) ys zero h = absurd (omega (arith, h))
take-append (x ∷ xs) ys (suc n) h = ap (λ l. x ∷ l) (take-append xs ys n (omega (arith, h)))

levels_of_fields-level_fields :
    (ls : List NetworkLevelInfo) → levels_of_fields (level_fields ls) ≡ ls
levels_of_fields-level_fields [] = refl
levels_of_fields-level_fields (l ∷ ls) = ap (λ m. l ∷ m) (levels_of_fields-level_fields ls)

length-level_fields : (ls : List NetworkLevelInfo) → length (level_fields ls) ≡ 2 * length ls
length-level_fields [] = omega arith
length-level_fields (l ∷ ls) = omega (arith, length-level_fields ls)

abbrev IsWord : ℕ → Type 0
IsWord x = x < 2 ^ 32

All-level_fields : (ls : List NetworkLevelInfo) → All IsLevelInfo ls → All IsWord (level_fields ls)
All-level_fields [] a = tt
All-level_fields (l ∷ ls) a = (a.0.0, (a.0.1, All-level_fields ls a.1))

All-FitsLayout :
    (xs : List ℕ) (n : ℕ) → length xs ≡ n → All IsWord xs → FitsLayout (replicate n u32) xs
All-FitsLayout [] zero h a = tt
All-FitsLayout [] (suc n) h a = absurd (omega (arith, h))
All-FitsLayout (x ∷ xs) zero h a = absurd (omega (arith, h))
All-FitsLayout (x ∷ xs) (suc n) h a = (a.0, All-FitsLayout xs n (omega (arith, h)) a.1)

pub length-convert_levels :
    (f : NetworkLevelInfo → NetworkLevelInfo) (n : ℕ) (ls : List NetworkLevelInfo)
    → length (convert_levels f n ls) ≡ length ls
unfolding convert_levels
length-convert_levels f zero ls = refl
length-convert_levels f (suc n) [] = refl
length-convert_levels f (suc n) (l ∷ ls) = omega (arith, length-convert_levels f n ls)

pub convert_levels-All :
    (host : Host) (n : ℕ) (ls : List NetworkLevelInfo)
    → All IsLevelInfo ls
    → All IsLevelInfo (convert_levels (level_to_network_order host) n ls)
unfolding convert_levels level_to_network_order
convert_levels-All host zero ls a = a
convert_levels-All host (suc n) [] a = tt
convert_levels-All host (suc n) (l ∷ ls) a = (
  (htonl-lt host l.price a.0.0, htonl-lt host l.quantity a.0.1),
  convert_levels-All host n ls a.1,
)

-- The level as it is sent.
abbrev pub network_level : LevelInfo → NetworkLevelInfo
network_level l = record { price = unsigned32 l.price; quantity = l.quantity }

pub length-fill_levels :
    (infos : List LevelInfo) (slots : List NetworkLevelInfo)
    → length (fill_levels infos slots) ≡ length slots
unfolding fill_levels
length-fill_levels [] slots = refl
length-fill_levels (l ∷ infos) [] = refl
length-fill_levels (l ∷ infos) (s ∷ slots) = omega (arith, length-fill_levels infos slots)

pub fill_levels-All :
    (n : ℕ) (infos : List LevelInfo) (slots : List NetworkLevelInfo)
    → All IsLevelInfo (map network_level infos)
    → All IsLevelInfo slots
    → All IsLevelInfo (fill_levels (take n infos) slots)
unfolding fill_levels
fill_levels-All zero infos slots a b = b
fill_levels-All (suc n) [] slots a b = b
fill_levels-All (suc n) (l ∷ infos) [] a b = tt
fill_levels-All (suc n) (l ∷ infos) (s ∷ slots) a b = (a.0, fill_levels-All n infos slots a.1 b.1)

pub take-fill_levels :
    (n m : ℕ) (infos : List LevelInfo) (slots : List NetworkLevelInfo)
    → n ≡ min (length infos) m
    → m ≤ length slots
    → take n (fill_levels (take n infos) slots) ≡ map network_level (take m infos)
unfolding fill_levels
take-fill_levels zero zero [] slots e h = refl
take-fill_levels zero (suc m) [] slots e h = refl
take-fill_levels zero zero (l ∷ infos) slots e h = refl
take-fill_levels zero (suc m) (l ∷ infos) slots e h = absurd (omega (arith, e))
take-fill_levels (suc n) m [] slots e h = absurd (omega (arith, e))
take-fill_levels (suc n) zero (l ∷ infos) slots e h = absurd (omega (arith, e))
take-fill_levels (suc n) (suc m) (l ∷ infos) [] e h = absurd (omega (arith, h))
take-fill_levels (suc n) (suc m) (l ∷ infos) (s ∷ slots) e h =
    ap (λ ls. network_level l ∷ ls)
      (take-fill_levels n m infos slots (omega (arith, e)) (omega (arith, h)))

abbrev pub IsFull : List NetworkLevelInfo → Type 0
IsFull ls = (length ls ≡ max_levels) × All IsLevelInfo ls

-- A status whose arrays are full is the whole of its bytes.
pub full-IsStored :
    (m : OrderbookStatusResponse)
    → m.header.type < 2 ^ 8
    → m.header.length < 2 ^ 32
    → m.header.sequence < 2 ^ 32
    → m.bid_levels_count < 2 ^ 32
    → m.ask_levels_count < 2 ^ 32
    → IsFull m.bid_levels
    → IsFull m.ask_levels
    → IsStored orderbook_status_response_struct m
full-IsStored m t l s b a bids asks =
    let n = length-level_fields m.bid_levels in
    let k = length-level_fields m.ask_levels in
    record {
      fits = (
        t,
        (
          l,
          (
            s,
            (
              b,
              (
                a,
                All-FitsLayout (level_fields m.bid_levels ++ level_fields m.ask_levels)
                    (4 * max_levels)
                    (omega (
                      arith,
                      n,
                      k,
                      bids.0,
                      asks.0,
                      length-append (level_fields m.bid_levels) (level_fields m.ask_levels),
                    ))
                    (All-append IsWord (level_fields m.bid_levels) (level_fields m.ask_levels)
                      (All-level_fields m.bid_levels bids.1)
                      (All-level_fields m.ask_levels asks.1)),
              ),
            ),
          ),
        ),
      );
      whole =
          rw
            (
              take-append (level_fields m.bid_levels) (level_fields m.ask_levels) 20
                  (omega (arith, n, bids.0)),
              drop-append (level_fields m.bid_levels) (level_fields m.ask_levels) 20
                  (omega (arith, n, bids.0)),
              levels_of_fields-level_fields m.bid_levels,
              levels_of_fields-level_fields m.ask_levels,
            )
            refl;
    }
