-- ===== src/Main/Examples.antt =====
-- The run of `main` of Orderbook/main.cpp.
use simple_orderbook_v.Common.{◌≡◌, refl}
use simple_orderbook_v.Outcome.{returned}
use simple_orderbook_v.Order.{new_order}
use simple_orderbook_v.Levels.{update, push_back}
use simple_orderbook_v.Index.{lookup, contains, insert, write}
use simple_orderbook_v.Orderbook.{
  add_order, can_match, match_orders, match_levels, kill_front, rest_order, empty_orderbook, size,
}
use simple_orderbook_v.Main.{main, main_order}

main_prints_test : main 1 (λ _. main_order) 0 ≡ returned 1
unfolding main new_order add_order can_match match_orders match_levels kill_front contains lookup
    rest_order insert update push_back empty_orderbook write size
main_prints_test = refl
