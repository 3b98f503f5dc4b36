-- ===== src/Client/Receiver/Quit.antt =====
-- Orderbook Client/client.cpp on the reply of `handleQuitRequest` of Orderbook Server/server.cpp.
use simple_orderbook_v.Network.{Host}
use simple_orderbook_v.Common.{ℕ, ◌≡◌, ◌∙◌, refl, sym, ap, List, []}
use simple_orderbook_v.Messages.{type_code}
use simple_orderbook_v.Wire.{read, write}
use simple_orderbook_v.Wire.Structs.{header_struct}
use simple_orderbook_v.Framing.Headers.{type-read}
use simple_orderbook_v.Server.Handlers.{header_for}
use simple_orderbook_v.Client.Receiver.{Line, process_message}
use mathlib.Core.List.{append-nil}
use simple_orderbook_v.Client.Receiver.{handle_echo_response, text_of}
use simple_orderbook_v.Outcome.{undefined}
use simple_orderbook_v.Messages.{rsp_echo, size_of_header}
use simple_orderbook_v.Common.{drop}
use simple_orderbook_v.Framing.Frames.{drop-append}
use simple_orderbook_v.ByteOrder.{header_to_network_order}
use simple_orderbook_v.Wire.{length-write}

abbrev quit_reply : Host → List ℕ
quit_reply host =
    write header_struct host (header_to_network_order host (header_for rsp_echo size_of_header 0))

quit_reply-type :
    (host : Host) → (read header_struct host (quit_reply host)).type ≡ type_code rsp_echo
unfolding write header_to_network_order header_for
quit_reply-type host =
    ap (λ b. (read header_struct host b).type) (sym (append-nil _)) ∙ type-read host [] _ _ _ [] []

quit_reply-drop : (host : Host) → drop size_of_header (quit_reply host) ≡ []
quit_reply-drop host =
    ap (drop size_of_header) (sym (append-nil (quit_reply host)))
    ∙ drop-append (quit_reply host) [] size_of_header (length-write header_struct host _ refl)

echo_response-dispatch :
    (host : Host) (n : ℕ) (buffer : List ℕ) (lines : List Line)
    → (read header_struct host buffer).type ≡ type_code rsp_echo
    → process_message host n buffer lines ≡ handle_echo_response host buffer lines
unfolding process_message
echo_response-dispatch host n buffer lines e = rw e refl

-- The server's reply to a request to quit is a header of the type of an echo response. A client that
-- handles it alone reads text past the end of its buffer.
process_message-quit :
    (host : Host) (n : ℕ) (lines : List Line)
    → process_message host n
        (write header_struct host
          (header_to_network_order host (header_for rsp_echo size_of_header 0)))
        lines
      ≡ undefined
unfolding handle_echo_response text_of
process_message-quit host n lines =
    echo_response-dispatch host n (quit_reply host) lines (quit_reply-type host)
    ∙ rw (quit_reply-drop host) refl
