-- ===== src/Position/Tests.antt =====
-- Runs of the position's operations, and the theorems about them at concrete positions.
use spot_grid_bot.Base.{◌≡◌, ◌≤◌, ◌-◌, ◌/◌, ◌^◌, refl, true, List, [], ◌∷◌, arith}
use spot_grid_bot.Base.Int.{ℤ, pos, negsuc, ◌+ℤ◌, ◌-ℤ◌, ◌*ℤ◌, ◌<ℤ◌, quot}
use spot_grid_bot.FixTypes.{buy_side}
use spot_grid_bot.Position.{
  Position, fill, fill_from, move_quantity, amount, sign, is_long, quantity, canceled_fill,
  to_unsigned, to_signed,
}
use spot_grid_bot.Position.Invariant.{IsValid, Trade, run, run_conserves, run_fits}
use spot_grid_bot.Position.Pnl.{losing_fill_gains}

-- A long position with 1 unit open and 3 units pending at the price 100
abbrev pending_long : Position
pending_long = record {
  instrument = record { base_ccy = 1; quote_ccy = 2 };
  dealt_currency = 1;
  side = buy_side;
  price = pos 100;
  open_qty = pos 100;
  pending_qty = pos 300;
  filled_qty = pos 0;
  pnl = pos 0;
}

pending_long-IsValid : IsValid pending_long
pending_long-IsValid = record {
  open_nonneg = ground arith;
  pending_nonneg = ground arith;
  filled_nonneg = ground arith;
}

abbrev some_trades : List Trade
some_trades = Trade.orders (pos 50) ∷ Trade.fills (pos 200) (pos 90) ∷ Trade.rejects (pos 10) ∷ []

run_conserves_example :
    IsValid (run pending_long some_trades)
    × (quantity (run pending_long some_trades) ≡ quantity pending_long)
run_conserves_example = run_conserves pending_long some_trades pending_long-IsValid

quantity_small : quantity pending_long <ℤ pos (2 ^ 63)
unfolding quantity ◌+ℤ◌
quantity_small = ground arith

run_fits_example :
    ((run pending_long some_trades).open_qty <ℤ pos (2 ^ 63))
    × ((run pending_long some_trades).pending_qty <ℤ pos (2 ^ 63))
    × ((run pending_long some_trades).filled_qty <ℤ pos (2 ^ 63))
run_fits_example = run_fits pending_long some_trades pending_long-IsValid quantity_small

-- 2 units filled at 90, with a profit of 20, and at 110
abbrev filled_at : ℤ → ℤ → Position
filled_at price gain = record pending_long {
  pending_qty = pos 100;
  filled_qty = pos 200;
  pnl = gain;
}

fill_at_90 : fill pending_long (pos 200) (pos 90) ≡ (filled_at (pos 90) (pos 20), true, pos 20)
unfolding fill_from move_quantity amount to_unsigned to_signed sign is_long ◌+ℤ◌ ◌-ℤ◌ ◌*ℤ◌
fill_at_90 = refl

long_sample : is_long pending_long ≡ true
unfolding is_long
long_sample = refl

gain_sample : (pos 100 -ℤ pos 90) *ℤ pos 200 ≡ pos 2000
unfolding ◌-ℤ◌ ◌*ℤ◌
gain_sample = refl

loss_sample : (pos 100 -ℤ pos 110) *ℤ pos 200 ≡ negsuc 1999
unfolding ◌-ℤ◌ ◌*ℤ◌
loss_sample = refl

abbrev booked : ℤ
booked = pos 184_467_440_737_095_496

fill_at_110 : fill pending_long (pos 200) (pos 110) ≡ (filled_at (pos 110) booked, true, booked)
unfolding fill_from move_quantity amount to_unsigned to_signed sign is_long ◌+ℤ◌ ◌-ℤ◌ ◌*ℤ◌
fill_at_110 = refl

losing_fill_gains_example :
    (booked ≡ pos 0 +ℤ pos ((2 ^ 64 - 1 - 1999) / 100))
    × (92_233_720_368_547_758 ≤ (2 ^ 64 - 1 - 1999) / 100)
losing_fill_gains_example =
    losing_fill_gains pending_long (pos 200) (pos 110) 1999 long_sample fill_at_110 loss_sample
      (ground arith)

late_fill :
    canceled_fill pending_long (pos 100) (pos 120)
    ≡ (record pending_long { price = pos 110; open_qty = pos 200; pending_qty = pos 200 }, true)
unfolding canceled_fill move_quantity ◌+ℤ◌ ◌-ℤ◌ ◌*ℤ◌ quot
late_fill = refl
