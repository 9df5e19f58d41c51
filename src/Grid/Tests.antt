-- ===== src/Grid/Tests.antt =====
-- The theorems about the grid strategy, at a small grid.
use spot_grid_bot.Base.{
  ℕ, suc, false, ◌≡◌, ◌+◌, ◌*◌, refl, true, some, none, [], ◌∷◌, ◌++◌, arith, length,
}
use spot_grid_bot.Base.Int.{pos, ◌*ℤ◌, ◌+ℤ◌, ◌-ℤ◌, quot}
use spot_grid_bot.Base.Dict.{lookup, lookup_or, insert}
use spot_grid_bot.FixTypes.{buy_side, sell_side, is_buy}
use spot_grid_bot.Instrument.{CurrencyPair}
use spot_grid_bot.Samples.{whole}
use spot_grid_bot.Orders.{
  Order, OrderStatus, Outcome, Connection, get_order_local, get_balance, update_order,
  place_limit_order, note_reply,
}
use spot_grid_bot.Grid.{
  GridConfig, Strategy, OrderDetails, round, visit_as, visit_part, hedge_part, place_hedge, start,
  visit, check_filled_orders, details_of, level_above, level_below,
}
use spot_grid_bot.Grid.Start.{accepts_all, ladder, next_ids, start_lem}
use spot_grid_bot.Grid.Visit.{visit_lem, Effect, allowed, allowed_part, hedge, request_of}
use spot_grid_bot.Grid.Known.{Remembers}
use spot_grid_bot.Grid.Check.{check_filled_orders_returns}
use spot_grid_bot.Grid.Twice.{completed, hedged_twice}
use spot_grid_bot.Grid.Overflow.{full_vector_undefined}

abbrev pair : CurrencyPair
pair = record { base_ccy = 1; quote_ccy = 2 }

abbrev cfg : GridConfig whole
cfg = record {
  base_price = pos 100;
  levels_below = pos 2;
  levels_above = pos 1;
  step_percent = pos 1;
  percent_order_qty = pos 5;
  max_position = pos 50;
}

abbrev grow : ℕ → ℕ
grow n = suc (2 * n)

abbrev no_orders : Strategy whole
no_orders = record {
  manager = record { orders = []; balance = []; connection = Connection.coinbase_rest; sent = [] };
  active = [];
  capacity = 0;
  details = [];
  known_fills = [];
}

start_lem_example :
    let (t, answer) = start whole (accepts_all suc) cfg pair grow no_orders in
    let lower =
      ladder whole cfg pair grow suc 2 1 buy_side
        (level_below whole (accepts_all suc) cfg pair grow)
        [] in
    ((k : ℕ) × (answer ≡ Outcome.returned k))
    × (t.manager.sent
        ≡ ladder whole cfg pair grow suc 1 1 sell_side
            (level_above whole (accepts_all suc) cfg pair grow)
            lower)
    × (t.active
        ≡ ([] ++ next_ids whole cfg pair grow suc 2 0)
          ++ next_ids whole cfg pair grow suc 1 (length lower))
start_lem_example = start_lem whole cfg pair grow suc no_orders refl

abbrev bought : Order whole
bought = record {
  id = 7;
  side = buy_side;
  price = pos 90;
  quantity = pos 5;
  filled = pos 5;
  status = OrderStatus.filled_order;
}

-- The order 7 is filled; `capacity` is the vector's.
abbrev one_filled : ℕ → Strategy whole
one_filled capacity = record {
  manager = record {
    orders = (7, bought) ∷ [];
    balance = [];
    connection = Connection.coinbase_rest;
    sent = [];
  };
  active = 7 ∷ [];
  capacity = capacity;
  details = (7, record { side = buy_side; price = pos 90; qty = pos 5 }) ∷ [];
  known_fills = [];
}

abbrev next : ℕ → ℕ
next n = n + 8

found_7 : (n : ℕ) → get_order_local whole (one_filled n).manager 7 ≡ some bought
unfolding get_order_local lookup
found_7 n = refl

visit_lem_example :
    let (t, answer) = visit whole (accepts_all next) cfg pair grow (one_filled 2) 7 in
    (answer ≡ Outcome.returned true)
    × Effect whole cfg pair grow next (one_filled 2) 7 (pos 5) OrderStatus.filled_order t
    × Remembers whole cfg pair grow next (one_filled 2) 7 (pos 5) OrderStatus.filled_order t
visit_lem_example =
    visit_lem whole cfg pair grow next (one_filled 2) 7 bought refl (ground arith) (found_7 2)

missing_9 : get_order_local whole (one_filled 2).manager 9 ≡ none
unfolding get_order_local lookup
missing_9 = refl

check_filled_orders_returns_example :
    (n : ℕ) × ((check_filled_orders whole (accepts_all next) cfg pair grow (one_filled 2)).1
      ≡ Outcome.returned n)
check_filled_orders_returns_example =
    check_filled_orders_returns whole cfg pair grow next (one_filled 2) refl (ground arith)

allowed_7 :
    allowed whole cfg pair grow next (one_filled 1) (details_of whole (one_filled 1) 7) ≡ true
unfolding lookup round is_buy quot ◌*ℤ◌ ◌+ℤ◌ ◌-ℤ◌
allowed_7 = refl

full_vector_undefined_example :
    (check_filled_orders whole (accepts_all next) cfg pair grow (one_filled 1)).1
    ≡ Outcome.undefined
full_vector_undefined_example =
    full_vector_undefined whole cfg pair grow next (one_filled 1) 7 [] bought refl refl
      (ground arith) (found_7 1) refl allowed_7

-- The order 7 is filled in part, and the vector has room for two more.
abbrev one_part : Strategy whole
one_part = record (one_filled 4) {
  manager = record {
    orders = (7, record bought { filled = pos 2; status = OrderStatus.partly_filled_order }) ∷ [];
    balance = [];
    connection = Connection.coinbase_rest;
    sent = [];
  };
}

part_7 :
    get_order_local whole one_part.manager 7
    ≡ some (record bought { filled = pos 2; status = OrderStatus.partly_filled_order })
unfolding get_order_local lookup
part_7 = refl

abbrev part_d : OrderDetails whole
part_d = details_of whole one_part 7

new_part :
    whole.eq (round whole (pos 2 -ℤ lookup_or (pos 0) 7 one_part.known_fills)) (pos 0) ≡ false
unfolding round lookup quot ◌+ℤ◌ ◌*ℤ◌ ◌-ℤ◌
new_part = refl

allowed_new :
    allowed_part whole cfg pair grow next one_part part_d
      (pos 2 -ℤ lookup_or (pos 0) 7 one_part.known_fills)
    ≡ true
unfolding round lookup is_buy quot ◌+ℤ◌ ◌*ℤ◌ ◌-ℤ◌
allowed_new = refl

abbrev after_part : Strategy whole
after_part =
    completed whole cfg pair grow next (visit whole (accepts_all next) cfg pair grow one_part 7).0 7
      (pos 5)

second_allowed : allowed whole cfg pair grow next after_part part_d ≡ true
unfolding visit visit_part hedge_part get_balance place_hedge lookup is_buy update_order round quot
    ◌+ℤ◌ ◌*ℤ◌ ◌-ℤ◌ get_order_local visit_as place_limit_order note_reply insert
second_allowed = refl

hedged_twice_example :
    (visit whole (accepts_all next) cfg pair grow after_part 7).0.manager.sent
    ≡ request_of whole cfg pair grow next (hedge whole cfg pair grow next part_d part_d.qty)
      ∷ request_of whole cfg pair grow next (hedge whole cfg pair grow next part_d (pos 2))
      ∷ []
unfolding ◌-ℤ◌ visit lookup
hedged_twice_example =
    hedged_twice whole cfg pair grow next one_part 7
      (record bought { filled = pos 2; status = OrderStatus.partly_filled_order }) (pos 5) refl
      (ground arith) (λ e. omega (arith, e)) part_7 refl new_part allowed_new second_allowed
