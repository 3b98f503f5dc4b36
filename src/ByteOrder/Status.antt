-- ===== src/ByteOrder/Status.antt =====
-- `OrderbookStatusResponse` of Orderbook Server/message_format.h, whose loops run to a count that is
-- in network order already on the way out.
use simple_orderbook_v.Common.{
  ℕ, zero, suc, min, ◌<◌, ◌≤◌, ◌^◌, ◌≡◌, refl, List, [], ◌∷◌, arith, All, Bool-cases, inl, inr,
  take,
}
use simple_orderbook_v.Network.{Host, swap32, ntohl-htonl}
use simple_orderbook_v.Messages.{NetworkLevelInfo, OrderbookStatusResponse, max_levels}
use simple_orderbook_v.ByteOrder.{
  convert_levels, level_to_network_order, level_to_host_order, status_to_network_order,
  status_to_host_order,
}
use simple_orderbook_v.ByteOrder.RoundTrip.{IsHeader, header_host-network, level_host-network}

abbrev pub IsLevelInfo : NetworkLevelInfo → Type 0
IsLevelInfo l = (l.price < 2 ^ 32) × (l.quantity < 2 ^ 32)

-- The counts are at most the arrays' size, as the server's `MIN` makes them.
pub record FitsStatus (m : OrderbookStatusResponse) : Type 0 where
  pub header : IsHeader m.header
  pub bids : m.bid_levels_count ≤ max_levels
  pub asks : m.ask_levels_count ≤ max_levels
  pub bid_levels : All IsLevelInfo m.bid_levels
  pub ask_levels : All IsLevelInfo m.ask_levels

module _ (host : Host) where
  -- The loop on the way out covers at least the levels that are counted.
  count_covered : (n : ℕ) → n ≤ max_levels → n ≤ min (host.htonl n) max_levels
  unfolding swap32
  count_covered n h = elim (Bool-cases host.little_endian) [
    | inl e ↦ rw (host.htonl_lem n (omega arith), e) (omega arith)
    | inr e ↦ rw (host.htonl_lem n (omega arith), e) (omega arith)
  ]

  levels_restored :
      (n k : ℕ) (levels : List NetworkLevelInfo)
      → n ≤ k
      → All IsLevelInfo levels
      → take n (
          convert_levels
            (level_to_host_order host)
            n
            (convert_levels (level_to_network_order host) k levels))
        ≡ take n levels
  unfolding convert_levels
  levels_restored zero k levels h f = refl
  levels_restored (suc n) zero levels h f = absurd (omega arith)
  levels_restored (suc n) (suc k) [] h f = refl
  levels_restored (suc n) (suc k) (l ∷ levels) h f =
      rw (level_host-network host l f.0.0 f.0.1, levels_restored n k levels (omega arith) f.1)

  -- What the receiver reads of a status: the header, the counts, and the levels that are counted.
  pub record IsRead (sent got : OrderbookStatusResponse) : Type 0 where
    pub header : got.header ≡ sent.header
    pub bids : got.bid_levels_count ≡ sent.bid_levels_count
    pub asks : got.ask_levels_count ≡ sent.ask_levels_count
    pub bid_levels :
        take sent.bid_levels_count got.bid_levels ≡ take sent.bid_levels_count sent.bid_levels
    pub ask_levels :
        take sent.ask_levels_count got.ask_levels ≡ take sent.ask_levels_count sent.ask_levels

  -- A status with at most ten levels a side is read as it was sent, as far as its levels are counted.
  pub status_to_host_order-status_to_network_order :
      (m : OrderbookStatusResponse)
      → FitsStatus m
      → IsRead m (status_to_host_order host (status_to_network_order host m))
  unfolding status_to_host_order status_to_network_order
  status_to_host_order-status_to_network_order m f = record {
    header = header_host-network host m.header f.header;
    bids = ntohl-htonl host m.bid_levels_count (omega (arith, f.bids));
    asks = ntohl-htonl host m.ask_levels_count (omega (arith, f.asks));
    bid_levels = side m.bid_levels_count m.bid_levels f.bids f.bid_levels;
    ask_levels = side m.ask_levels_count m.ask_levels f.asks f.ask_levels;
  }
    where
      side :
          (n : ℕ) (levels : List NetworkLevelInfo)
          → n ≤ max_levels
          → All IsLevelInfo levels
          → take n (
              convert_levels
                (level_to_host_order host)
                (min (host.ntohl (host.htonl n)) max_levels)
                (convert_levels
                  (level_to_network_order host)
                  (min (host.htonl n) max_levels)
                  levels))
            ≡ take n levels
      side n levels h g =
          let back : host.ntohl (host.htonl n) ≡ n = ntohl-htonl host n (omega arith) in
          let all : min n max_levels ≡ n = omega arith in
          rw (back, all)
            (levels_restored n (min (host.htonl n) max_levels) levels (count_covered n h) g)
