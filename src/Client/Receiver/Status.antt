-- ===== src/Client/Receiver/Status.antt =====
-- Orderbook Client/client.cpp on the status that `handleOrderbookStatusRequest` of Orderbook
-- Server/server.cpp replies.
use simple_orderbook_v.Common.{
  ℕ, ◌^◌, ◌<◌, ◌≤◌, ◌≡◌, ◌∙◌, refl, ltb-false, List, [], ◌∷◌, ◌++◌, map, take, length,
  length-append, All, arith,
}
use simple_orderbook_v.Outcome.{Returns, returns}
use simple_orderbook_v.Network.{htonl-lt}
use simple_orderbook_v.Messages.{
  OrderbookStatusResponse, max_levels, type_code, rsp_orderbook_status,
  size_of_orderbook_status_response,
}
use simple_orderbook_v.Order.{OrderbookLevelInfos}
use simple_orderbook_v.ByteOrder.{status_to_network_order, header_to_network_order}
use simple_orderbook_v.ByteOrder.Status.{
  IsLevelInfo, FitsStatus, status_to_host_order-status_to_network_order,
}
use simple_orderbook_v.Wire.{IsStored, read, write, read-write, length-write}
use simple_orderbook_v.Wire.Structs.{header_struct, orderbook_status_response_struct}
use simple_orderbook_v.Memory.Layout.{length-FitsLayout}
use simple_orderbook_v.Framing.Headers.{type-read}
use simple_orderbook_v.Server.Handlers.{Machine, header_for, status_response}
use simple_orderbook_v.Client.Receiver.{
  Line, orderbook_status, handle_orderbook_status_response, process_message,
}
use simple_orderbook_v.Client.Receiver.Levels.{
  network_level, IsFull, full-IsStored, fill_levels-All, length-fill_levels, take-fill_levels,
  length-convert_levels, convert_levels-All,
}

-- The book's levels fit their types.
pub record FitsInfos (infos : OrderbookLevelInfos) : Type 0 where
  pub bids : length infos.bids < 2 ^ 32
  pub asks : length infos.asks < 2 ^ 32
  pub bid_levels : All IsLevelInfo (map network_level infos.bids)
  pub ask_levels : All IsLevelInfo (map network_level infos.asks)

module _ (machine : Machine) (infos : OrderbookLevelInfos) where
  open machine use {host, stack}

  -- The arrays on the stack have ten slots, whatever they hold.
  pub record IsStack : Type 0 where
    pub bid_levels : IsFull stack.bid_levels
    pub ask_levels : IsFull stack.ask_levels

  response : OrderbookStatusResponse
  response = status_response machine infos

  status_reply : List ℕ
  status_reply = write orderbook_status_response_struct host (status_to_network_order host response)

  module _ (fits : FitsInfos infos) (full : IsStack) where
    response-FitsStatus : FitsStatus response
    unfolding response status_response header_for
    response-FitsStatus = record {
      header = record { length = omega arith; sequence = omega arith };
      bids = omega arith;
      asks = omega arith;
      bid_levels = fill_levels-All _ infos.bids stack.bid_levels fits.bid_levels full.bid_levels.1;
      ask_levels = fill_levels-All _ infos.asks stack.ask_levels fits.ask_levels full.ask_levels.1;
    }

    reply-IsStored :
        IsStored orderbook_status_response_struct (status_to_network_order host response)
    unfolding response status_response header_for status_to_network_order header_to_network_order
    reply-IsStored =
        full-IsStored (status_to_network_order host response) (omega arith)
          (htonl-lt host size_of_orderbook_status_response (omega arith))
          (htonl-lt host 0 (omega arith)) (htonl-lt host response.bid_levels_count (omega arith))
          (htonl-lt host response.ask_levels_count (omega arith))
          (
            length-convert_levels _ _ response.bid_levels
                ∙ (length-fill_levels _ stack.bid_levels ∙ full.bid_levels.0),
            convert_levels-All host _ response.bid_levels response-FitsStatus.bid_levels,
          )
          (
            length-convert_levels _ _ response.ask_levels
                ∙ (length-fill_levels _ stack.ask_levels ∙ full.ask_levels.0),
            convert_levels-All host _ response.ask_levels response-FitsStatus.ask_levels,
          )

    reply-type :
        (rest : List ℕ)
        → (read header_struct host (status_reply ++ rest)).type ≡ type_code rsp_orderbook_status
    unfolding status_reply write status_to_network_order response status_response
        header_to_network_order header_for
    reply-type rest = type-read host _ (type_code rsp_orderbook_status) _ _ _ rest

    dispatch :
        (n : ℕ) (buffer : List ℕ) (lines : List Line)
        → (read header_struct host buffer).type ≡ type_code rsp_orderbook_status
        → process_message host n buffer lines ≡ handle_orderbook_status_response host buffer lines
    unfolding process_message
    dispatch n buffer lines e = rw e refl

    length-status_reply : length status_reply ≡ size_of_orderbook_status_response
    unfolding status_reply
    length-status_reply = length-write orderbook_status_response_struct host _ (
        length-FitsLayout orderbook_status_response_struct.layout
          (orderbook_status_response_struct.fields (status_to_network_order host response))
          reply-IsStored.fits)

    response-counts :
        (response.bid_levels_count ≤ max_levels) × (response.ask_levels_count ≤ max_levels)
    unfolding response status_response
    response-counts = (omega arith, omega arith)

    bids-printed :
        take response.bid_levels_count response.bid_levels
        ≡ map network_level (take max_levels infos.bids)
    unfolding response status_response
    bids-printed =
        take-fill_levels _ max_levels infos.bids stack.bid_levels (omega (arith, fits.bids))
          (omega (arith, full.bid_levels.0))

    asks-printed :
        take response.ask_levels_count response.ask_levels
        ≡ map network_level (take max_levels infos.asks)
    unfolding response status_response
    asks-printed =
        take-fill_levels _ max_levels infos.asks stack.ask_levels (omega (arith, fits.asks))
          (omega (arith, full.ask_levels.0))

    handled :
        (rest : List ℕ) (lines : List Line)
        → Returns
            (λ p.
              p.1
              ≡ lines
                ++ (orderbook_status
                      (map network_level (take max_levels infos.bids))
                      (map network_level (take max_levels infos.asks))
                    ∷ []))
            (handle_orderbook_status_response host (status_reply ++ rest) lines)
    unfolding handle_orderbook_status_response
    handled rest lines =
        let got = status_to_host_order-status_to_network_order host response response-FitsStatus in
        let whole : read orderbook_status_response_struct host (status_reply ++ rest)
            ≡ status_to_network_order host response =
          unfold status_reply in
          read-write orderbook_status_response_struct host _ rest reply-IsStored in
        rw
          (
            whole,
            got.bids,
            got.asks,
            got.bid_levels,
            got.ask_levels,
            bids-printed,
            asks-printed,
            ltb-false (length (status_reply ++ rest)) size_of_orderbook_status_response
                (omega (arith, length-append status_reply rest, length-status_reply)),
            ltb-false max_levels response.bid_levels_count response-counts.0,
            ltb-false max_levels response.ask_levels_count response-counts.1,
          )
          (returns refl)

    -- The client prints the ten best levels of each side of the server's book, or all where there are
    -- fewer, whatever the rest of the arrays holds, and reads no level beyond them.
    pub process_message-status_response :
        (n : ℕ) (rest : List ℕ) (lines : List Line)
        → Returns
            (λ p.
              p.1
              ≡ lines
                ++ (orderbook_status
                      (map network_level (take max_levels infos.bids))
                      (map network_level (take max_levels infos.asks))
                    ∷ []))
            (process_message host n
              (write orderbook_status_response_struct host
                  (status_to_network_order host (status_response machine infos))
                ++ rest)
              lines)
    unfolding status_reply response
    process_message-status_response n rest lines =
        rw (dispatch n (status_reply ++ rest) lines (reply-type rest)) (handled rest lines)
