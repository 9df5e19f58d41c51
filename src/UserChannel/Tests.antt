-- ===== src/UserChannel/Tests.antt =====
-- The theorems about the "user" channel, at concrete messages.
use spot_grid_bot.Base.{ℕ, suc, ◌+◌, ◌≡◌, refl, true, none, some, List, [], ◌∷◌, arith}
use spot_grid_bot.Base.Int.{pos}
use spot_grid_bot.Base.Dict.{lookup, lookup-nil, insert}
use spot_grid_bot.FixTypes.{buy_side}
use spot_grid_bot.Instrument.{CurrencyPair}
use spot_grid_bot.Samples.{whole}
use spot_grid_bot.Orders.{
  Manager, OrderStatus, Outcome, Connection, get_order_local, fresh_order, update_order,
}
use spot_grid_bot.Grid.{GridConfig, Strategy, visit}
use spot_grid_bot.Grid.Start.{accepts_all}
use spot_grid_bot.Grid.Visit.{Effect}
use spot_grid_bot.Grid.Known.{Remembers}
use spot_grid_bot.UserChannel.{
  Item, Event, SnapshotOrder, cached_status, on_order_update, on_user, sync_snapshot, user_event,
}
use spot_grid_bot.UserChannel.Updates.{
  order_in, last_update, after_update, is_plain, on_order_update-last,
}
use spot_grid_bot.UserChannel.Snapshot.{
  first_described, last_described, either, synced, sync_snapshot-synced,
}
use spot_grid_bot.UserChannel.Pending.{Socket, PendingOrder, IsFresh}
use spot_grid_bot.UserChannel.Hedge.{pushed, pushed-visit}

abbrev pair : CurrencyPair
pair = record { base_ccy = 1; quote_ccy = 2 }

abbrev manager : Manager whole
manager = record {
  orders = (7, fresh_order whole 7 buy_side (pos 90) (pos 5)) ∷ [];
  balance = [];
  connection = Connection.coinbase_rest;
  sent = [];
}

abbrev part : Event whole
part = record {
  kind = some "update";
  order_id = 7;
  status = "PARTIALLY_FILLED";
  filled_size = some (pos 2);
  orders = [];
}

abbrev whole_fill : Event whole
whole_fill = record part { status = "FILLED"; filled_size = some (pos 5) }

abbrev message : List (Item (Event whole))
message = Item.object part ∷ Item.null_item ∷ Item.object whole_fill ∷ []

on_order_update-last_example :
    order_in whole (on_order_update whole (some manager) message) 7
    ≡ after_update whole (last_update whole 7 message) (order_in whole (some manager) 7)
on_order_update-last_example = on_order_update-last whole (some manager) message 7

message-is_plain : is_plain whole message ≡ true
unfolding is_plain
message-is_plain = refl

-- The run of the handler, with its effect
filled_after_message :
    order_in whole (on_user whole (some manager) message).0 7
    ≡ some (record {
      id = 7;
      side = buy_side;
      price = pos 90;
      quantity = pos 5;
      filled = pos 5;
      status = OrderStatus.filled_order;
    })
unfolding on_user on_order_update get_order_local lookup cached_status user_event update_order
    insert
filled_after_message = refl

abbrev entry : SnapshotOrder whole
entry = record {
  order_id = 8;
  side = "SELL";
  status = "OPEN";
  size = some (pos 3);
  price = some (pos 110);
  filled_size = some (pos 0);
}

abbrev snapshot : List (Item (SnapshotOrder whole))
snapshot = Item.object entry ∷ Item.object (record entry { size = none }) ∷ []

sync_snapshot-synced_example :
    get_order_local whole (sync_snapshot whole manager snapshot).0 8
    ≡ synced whole
        (last_described whole 8 snapshot)
        (either whole (get_order_local whole manager 8) (first_described whole 8 snapshot))
sync_snapshot-synced_example = sync_snapshot-synced whole manager snapshot 8

-- The id is the counter's successor, whatever the time.
abbrev text : ℕ → ℕ → ℕ
text time c = suc c

text-one_to_one : (t c u e : ℕ) → text t c ≡ text u e → c ≡ e
text-one_to_one t c u e h = omega arith

abbrev socket : Socket whole
socket = record { counter = 0; pending = []; sent = [] }

socket-IsFresh : IsFresh whole text socket
unfolding IsFresh
socket-IsFresh t c h = lookup-nil {V = PendingOrder whole} (text t c)

abbrev cfg : GridConfig whole
cfg = record {
  base_price = pos 100;
  levels_below = pos 2;
  levels_above = pos 1;
  step_percent = pos 1;
  percent_order_qty = pos 5;
  max_position = pos 50;
}

abbrev strategy : Strategy whole
strategy = record {
  manager = manager;
  active = 7 ∷ [];
  capacity = 4;
  details = (7, record { side = buy_side; price = pos 90; qty = pos 5 }) ∷ [];
  known_fills = [];
}

abbrev next : ℕ → ℕ
next n = 10 + n

last_update_7 : last_update whole 7 message ≡ some whole_fill
unfolding last_update
last_update_7 = refl

known_7 : get_order_local whole manager 7 ≡ some (fresh_order whole 7 buy_side (pos 90) (pos 5))
unfolding get_order_local lookup
known_7 = refl

pushed-visit_example :
    let s' = pushed whole strategy message in
    let (t, answer) = visit whole (accepts_all next) cfg pair suc s' 7 in
    (answer ≡ Outcome.returned true)
    × Effect whole cfg pair suc next s' 7 (pos 5) OrderStatus.filled_order t
    × Remembers whole cfg pair suc next s' 7 (pos 5) OrderStatus.filled_order t
    × (s'.manager.sent ≡ [])
    × (s'.manager.balance ≡ [])
unfolding cached_status
pushed-visit_example =
    pushed-visit whole cfg pair suc next strategy 7 (fresh_order whole 7 buy_side (pos 90) (pos 5))
      message whole_fill refl (ground arith) known_7 last_update_7
