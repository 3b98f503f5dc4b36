-- ===== src/Orderbook/Shows.antt =====
-- When the book of Orderbook Server/orderbook.cpp shows the resting orders of its specification, and that
-- its operations do to them what the specification says.
pub mod Store
pub mod Rest
pub mod Cancel
use simple_orderbook_v.Common.{
  length, ◌+◌, ◌≡◌, refl, sym, ap, ◌∙◌, ◌≢◌, ◌⊎◌, inl, inr, Bool, true, false, Bool-cases, Option,
  none, some, List, [], ◌∷◌, ◌++◌, map, ℕ, eqb_ℤ, eqb_ℤ_refl, eqb_ℤ_eq, ◌==◌, if◌then◌else◌, arith,
  Option-cases,
}
use simple_orderbook_v.Order.{Order, OrderId, Side, buy, sell, Price}
use simple_orderbook_v.Levels.{OrderPointer, OrderPointers, mem, push_back, erase_node, update}
use simple_orderbook_v.Levels.Laws.{queue_at, queue_at-update_self, queue_at-update_ne}
use simple_orderbook_v.Levels.Queue.{Distinct, queue_at-removed_self, queue_at-removed_ne, removed}
use simple_orderbook_v.Levels.Members.{eq_or_ne}
use simple_orderbook_v.Index.{Heap, OrderEntry, Orders, entry, lookup, contains, erase_key, write}
use simple_orderbook_v.Index.Laws.{lookup-erase_key, contains-none}
use simple_orderbook_v.Orderbook.{Orderbook, rest_order}
use simple_orderbook_v.Orderbook.Invariant.{
  before_of, StrictOrder_of, levels_of, queue_of, IsAt, IsEntry, IsIndexed,
}
use simple_orderbook_v.Orderbook.Modify.{IsUnused, store}
use simple_orderbook_v.Orderbook.Rest.{
  levels_of-rest_order, levels_of-rest_order_ne, heap-rest_order, orders-rest_order, side_cases,
}
use simple_orderbook_v.Orderbook.Cancel.{
  cancelled, levels_of-cancelled, levels_of-cancelled_ne, heap-cancelled, orders-cancelled,
}
use simple_orderbook_v.Orderbook.Spec.{
  DistinctIds, Resting, same_side, stands_at, orders_at, with_id, without_id, orders_at-append,
  with_id-append, orders_at-without_id, with_id-without_id,
}
use mathlib.Core.List.{append-nil}

-- The order of an ID, through the index.
abbrev pub order_of : Heap → Option OrderEntry → Option Order
order_of heap none = none
order_of heap (some e) = some (heap e.order)

-- Each level's queue holds the resting orders of its side and price in the order of their arrival, and
-- the index leads to the resting order of each ID, which rests once, and has no others.
pub record Shows (book : Orderbook) (resting : Resting) : Type 0 where
  pub queues : (s : Side) (r : Price) → map book.heap (queue_of book s r) ≡ orders_at s r resting
  pub index : (id : OrderId) → order_of book.heap (lookup id book.orders) ≡ with_id id resting
  pub distinct : DistinctIds resting
  pub counted : length book.orders ≡ length resting
