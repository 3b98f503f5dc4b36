-- ===== src/Main.antt =====
-- `main` of Orderbook/main.cpp, which adds one order to a new book and prints the book's size. The class
-- text of that file is the one of Orderbook Server/orderbook.cpp.
mod Examples
use simple_orderbook_v.Common.{ℕ, pos}
use simple_orderbook_v.Outcome.{Outcome, returned, ◌>>=◌}
use simple_orderbook_v.Order.{Order, good_till_cancel, buy, new_order}
use simple_orderbook_v.Levels.{OrderPointer}
use simple_orderbook_v.Index.{Heap, write}
use simple_orderbook_v.Orderbook.{add_order, empty_orderbook, size}

abbrev pub main_order : Order
main_order = new_order good_till_cancel 1 buy (pos 100) 10

-- What `main` prints; `address` is where `make_shared` puts the order on the heap.
unfoldable pub main : ℕ → Heap → OrderPointer → Outcome ℕ
main fuel heap address =
    add_order fuel address (empty_orderbook (write heap address main_order)) >>= λ (_, book).
    returned (size book)
