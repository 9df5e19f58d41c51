-- ===== src/Reports/Tests.antt =====
-- The theorems about reports at concrete answers.
use Prim.Native.String.{String}
use spot_grid_bot.Base.{ℕ, ◌≡◌, ◌≢◌, refl, some, none, List, [], ◌∷◌, ◌++◌, length}
use spot_grid_bot.Base.Int.{ℤ, pos}
use spot_grid_bot.Instrument.{CurrencyPair}
use spot_grid_bot.Samples.{whole}
use spot_grid_bot.UserChannel.{translate_order_status}
use spot_grid_bot.Reports.{Answer, Report, translate_order, rest_order_status}
use spot_grid_bot.Reports.Okx.{OkxAnswer}
use spot_grid_bot.Reports.Fills.{translate_order-fills}
use spot_grid_bot.Reports.Statuses.{is_status_name, order_statuses_differ}

abbrev pair : CurrencyPair
pair = record { base_ccy = 1; quote_ccy = 2 }

abbrev pips : CurrencyPair → ℤ
pips cp = pos 1

-- An order for 10 that is filled by 2 at 99, 3 at 100 and 5 at 101
abbrev filled_answer : Answer whole
filled_answer = record {
  code = 0;
  msg = 0;
  instrument = pair;
  orig_qty = pos 10;
  status = "FILLED";
  order_id = 41;
  client_order_id = 17;
  order_type = "LIMIT";
  side = "BUY";
  time_in_force = pos 1;
  price = pos 101;
  cummulative_quote_qty = pos 1003;
  fills = some (some (pos 99, pos 2) ∷ some (pos 100, pos 3) ∷ some (pos 101, pos 5) ∷ []);
}

abbrev failed_answer : Answer whole
failed_answer = record filled_answer { code = 5; msg = 6 }

abbrev failed_okx : OkxAnswer whole
failed_okx = record { code = pos 51008; msg = 7; orders = none }

translate_order-fills_example :
    (front : List (Report whole)) × (r : Report whole) × (back : List (Report whole))
    × (translate_order whole pips filled_answer ≡ some (front ++ r ∷ back))
    × (length front ≡ 1)
    × (length back ≡ 1)
    × (r.order_id ≡ 41)
    × (r.cl_ord_id ≡ 17)
    × (r.last_px ≡ pos 100)
    × (r.last_qty ≡ pos 3)
    × (r.cum_qty ≡ whole.add (whole.add (pos 0) (pos 2)) (pos 3))
    × (r.leaves_qty ≡ whole.sub (pos 10) r.cum_qty)
    × (◌≡◌ {A = ℕ × ℕ} (r.ord_status, r.exec_type) (b'1', b'1'))
translate_order-fills_example =
    translate_order-fills whole pips filled_answer ((pos 99, pos 2) ∷ []) (pos 100) (pos 3)
      ((pos 101, pos 5) ∷ []) refl refl

abbrev unknown : ℕ → String
unknown c = "(?)"

order_statuses_differ_example :
    (rest_order_status "OPEN" ≡ (b'8', b'8'))
    × ◌≢◌ {A = ℕ} (translate_order_status "OPEN").0 b'8'
    × (rest_order_status "NEW" ≡ translate_order_status "NEW")
    × (rest_order_status "PARTIALLY_FILLED" ≡ translate_order_status "PARTIALLY_FILLED")
    × (rest_order_status "FILLED" ≡ translate_order_status "FILLED")
    × (rest_order_status "CANCELED" ≡ translate_order_status "CANCELED")
    × (rest_order_status "REJECTED" ≡ translate_order_status "REJECTED")
    × (rest_order_status "EXPIRED" ≡ translate_order_status "EXPIRED")
unfolding is_status_name
order_statuses_differ_example = order_statuses_differ "OPEN" refl refl
