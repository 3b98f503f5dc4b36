-- ===== src/Server/Workers/Examples.antt =====
-- Two workers of Orderbook Server/server.cpp, and instances of the theorems.
use simple_orderbook_v.Common.{◌≡◌, refl, arith, [], ◌∷◌, ◌==◌, if◌then◌else◌}
use simple_orderbook_v.Common.Int.{signed32}
use simple_orderbook_v.Outcome.{returned, value_or}
use simple_orderbook_v.Order.{new_order}
use simple_orderbook_v.Levels.{remove, update, push_back}
use simple_orderbook_v.Index.{lookup, contains, insert, write}
use simple_orderbook_v.Orderbook.{
  empty_orderbook, add_order, cancel_order, rest_order, match_orders, match_levels, kill_front,
}
use simple_orderbook_v.Server.{TcpServer, Socket, new_server}
use simple_orderbook_v.Server.Fixtures.{machine, server, server-Faithful, bid, withdrawal}
use simple_orderbook_v.Server.Handlers.{add_order_reply, cancel_order_reply, side_of, order_type_of}
use simple_orderbook_v.Server.Handlers.Clients.Stream.{add, cancel}
use simple_orderbook_v.Server.Workers.{
  order, status, begin_work, call_add_order, call_cancel_order, messages_of, ClientTask, Pool,
  set_task, calls, Steps, no_steps, then_step,
}
use simple_orderbook_v.Server.Workers.Serial.{Serialized, Steps-Serialized}

-- The client at socket 4 sends a bid and asks for the status, the one at 5 withdraws it, and others send nothing.

abbrev tasks : Socket → ClientTask
tasks j =
    if j == 4
    then record { requests = order (add bid) ∷ status ∷ []; unsent = [] }
    else if j == 5
    then record { requests = order (cancel withdrawal) ∷ []; unsent = [] }
    else record { requests = []; unsent = [] }

abbrev begun : Pool
begun = record { tasks = tasks; server = server }

quiet : (j : Socket) → (tasks j).unsent ≡ []
quiet j = ground arith

-- Both calls of the book come before both replies.

abbrev with_bid : TcpServer
with_bid = (value_or ([], server) (begin_work machine 1 (order (add bid)) server)).1

abbrev first : Pool
first = record {
  tasks =
      set_task 4 (record { requests = status ∷ []; unsent = add_order_reply machine bid ∷ [] })
        tasks;
  server = with_bid;
}

abbrev without_bid : TcpServer
without_bid = (value_or ([], server) (begin_work machine 1 (order (cancel withdrawal)) with_bid)).1

abbrev second : Pool
second = record {
  tasks =
      set_task 5 (record { requests = []; unsent = cancel_order_reply machine withdrawal ∷ [] })
        first.tasks;
  server = without_bid;
}

bid_called :
    begin_work machine 1 (order (add bid)) server
    ≡ returned (add_order_reply machine bid ∷ [], with_bid)
unfolding begin_work call_add_order call_cancel_order messages_of add_order match_orders
    match_levels kill_front contains lookup rest_order insert update push_back empty_orderbook write
    new_server side_of order_type_of new_order signed32
bid_called = refl

withdrawal_called :
    begin_work machine 1 (order (cancel withdrawal)) with_bid
    ≡ returned (cancel_order_reply machine withdrawal ∷ [], without_bid)
unfolding begin_work call_add_order call_cancel_order messages_of add_order cancel_order
    match_orders match_levels kill_front contains lookup rest_order insert update push_back
    empty_orderbook write new_server side_of order_type_of new_order remove signed32
withdrawal_called = refl

interleaved : Steps machine begun second
interleaved =
    then_step
      (then_step no_steps
        (calls 0 4 (order (add bid)) (status ∷ []) _ with_bid begun refl bid_called))
      (calls 0 5 (order (cancel withdrawal)) [] _ without_bid first refl withdrawal_called)

Steps-Serialized_example : Serialized machine begun [] second
Steps-Serialized_example =
    Steps-Serialized machine begun [] server-Faithful quiet second interleaved
