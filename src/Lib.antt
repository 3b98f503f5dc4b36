-- ===== src/Lib.antt =====
-- A verification library for simple_orderbook_v1, a limit order book with a TCP server and a
-- client.
--
-- The server's threads take clients from a task queue, cut messages from the bytes that they
-- receive, call the order book and reply; the client turns commands into messages and prints
-- the replies. This library models the order book, the message format, the task queue, the
-- server and the client, each from its source, and joins them: the bytes that a client sends
-- reach the book through the server, and the server's replies reach the client's printer.
--
-- - Order, Levels, Index, Matching and Orderbook: class Orderbook of Orderbook
-- Server/orderbook.cpp (Orderbook/main.cpp and Orderbook Client/orderbook.cpp hold the same
-- class text). Order has the value types. Levels has bids_ and asks_, the two std::map from
-- prices to lists, as association lists sorted by greater and less. Index has orders_ and the
-- orders themselves: shared pointers are addresses on an explicit heap, so that the index and
-- the levels see one order's changes. Matching has the inner loop of MatchOrders. Orderbook has
-- CanMatch, MatchOrders, AddOrder, CancelOrder, MatchOrder (modify_order, which modifies an
-- order), Size and GetOrderInfos; its child modules prove the invariant, the branches of each
-- call and the sequences of calls. Orderbook/Spec is the specification of the book without
-- levels, index or pointers, a list of resting orders in the order of their arrival;
-- Orderbook/Shows says when a book shows such a list (its queues, its index and its size),
-- Orderbook/Refinement and Orderbook/Replay set the calls and sequences of calls beside it, and
-- Orderbook/Observed and Orderbook/Meets what the book answers. Orderbook/Spec/View forgets the
-- order of arrival between different levels, as a quotient of these lists, and Orderbook/View
-- is about books of one view.
-- - Network, Messages and ByteOrder: Orderbook Server/message_format.h (Orderbook
-- Client/message_format.h has the same text). htonl and ntohl are Winsock's and are fields of a
-- record Host, with the behaviour that Winsock documents. ByteOrder/Protocol has the messages
-- for orders as bytes, and ByteOrder/Hosts a sender and a receiver, which may be hosts of
-- different byte orders.
-- - TaskQueue: Orderbook Server/task_queue.h. The blocks that hold queueMutex_ are steps, and
-- runs are sequences of steps of any threads. A waiting thread may test its predicate at any
-- time.
-- - Memory and Wire: the bytes of the packed structs in either byte order. Wire.read is a
-- reinterpret_cast of bytes to a struct, Wire.write gives the bytes that send is handed, and
-- write_over is a conversion in place, which changes the buffer.
-- - Framing: processMessageBuffer of Orderbook Server/server.cpp, the loop that cuts messages
-- from the received bytes, and the loop around recv; the client has the same loops.
-- processMessage is an argument. Framing/Chunks is about streams that arrive in pieces.
-- - Server: class TcpServer of Orderbook Server/server.cpp. start, stop, the destructor and the
-- table of clients stand in Server, processMessage and each handler in Server/Handlers, their
-- messages in Server/Handlers/Messages (a name such as handle_add_order_request is
-- handleAddOrderRequest; serve_add_order is what it does between the conversion of the request
-- and its end), handleClient in Server/Connection. Server/Handlers/Settling and
-- Server/Handlers/Placed set the handlers beside the specification of the book, and
-- Server/Handlers/Success has their responses. Server/Workers has the workers of several
-- clients: each call of the book and each send is a step, and the steps of the workers, of the
-- accepting thread and of workers that end come in any order; Server/Workers/Client sets
-- handleClient beside the steps of its worker.
-- - Adapter: class OrderbookNetworkAdapter of Orderbook Server/orderbook_adapter.h, which
-- numbers the orders itself; Adapter/Ids and Adapter/Sessions are about its numbers.
-- Adapter/Lock has ThreadSafeOrderbook, whose threads take the reader-writer lock, call the
-- book and give the lock back in any order of steps.
-- - Client: class TcpClient and main of Orderbook Client/client.cpp. The answers of Winsock are
-- an argument of connect, and a command has the words of its line read. Client/Receiver has
-- receiverFunction, processMessage and the handlers; a printed line is data.
-- - Header: the order of Orderbook Server/orderbook.h (Orderbook Client/orderbook.h and
-- Orderbook/header.h have the same text), with its market orders. Header/Life is about
-- sequences of its calls.
-- - Main: main of Orderbook/main.cpp.
-- - Common and Outcome: the shared names, lists, integers, and what a run of the code comes to.
--
-- Integers: prices are int32_t and are integers, which the book only compares; quantities and
-- IDs are natural numbers, with the wrap of unsigned arithmetic written out where the code
-- computes. The inner loop of MatchOrders has one more unit of fuel than the two lists have
-- orders, which is enough, since each pass removes an order. The outer loop has its fuel as an
-- argument: on a book that is not crossed one pass ends it, and on a crossed book no fuel is
-- enough. The loop of the framing has fuel too: more than the complete messages of the stream
-- is enough, and on a header with the length 0 none is. References into an erased entry of
-- orders_ are read as C++ leaves undefined; the model reads what the entry held and counts such
-- reads.
--
-- Addresses: the server puts each new order at next_address, above every address that the book
-- holds, as make_shared does.
--
-- Enumerators: Side and OrderType of the book are the two named values each. A side byte that
-- names neither gives the outcome unmodelled, since the book's code then does what its
-- enumeration does not name; an order type that is not FillandKill is like GoodTillCancel to
-- the book.
--
-- Undefined behaviour: a handler that casts a buffer to a longer struct, send with a length
-- beyond its buffer and the printing of text without an end are the outcome undefined.
--
-- Not modelled: notify_one, notify_all and the sleep of a thread that they would wake, so that
-- no theorem says that the threads make progress; a worker whose call of the book does not
-- return and who keeps the book's lock, which would block the others for ever, since a call is
-- a step when it returns; the bound that the size of the thread pool puts on the clients that
-- are served at once; the parsing and printing of text, requests to echo, to quit and to list
-- the users among the interleaved workers (their handlers are modelled alone), and the book
-- that orderbook.h and header.h declare, whose methods have no body.
pub mod Common
pub mod Outcome
pub mod Order
pub mod Levels
pub mod Index
pub mod Matching
pub mod Orderbook
pub mod Network
pub mod Messages
pub mod Memory
pub mod Wire
pub mod ByteOrder
pub mod TaskQueue
pub mod Client
pub mod Framing
pub mod Server
pub mod Adapter
pub mod Header
pub mod Main
