-- ===== src/Position.antt =====
-- lib/utils/include/Utils/Position.h and lib/utils/src/Position.cpp: a hedged position, whose
-- quantity is split in an open, a pending and a filled part, and its profit. A method returns the
-- new position, with its result where it has one. Prices are in cpips, quantities in 100ths.
pub mod Invariant
pub mod Pnl
pub mod Price
mod Tests
use spot_grid_bot.Base.{
  ℕ, ◌+◌, ◌-◌, ◌/◌, ◌%◌, ◌^◌, Bool, true, false, not, ◌&&◌, ◌||◌, List, [], ◌∷◌, ◌==◌, ltb,
  if◌then◌else◌,
}
use spot_grid_bot.Base.Int.{
  ℤ, pos, negsuc, pos_part, neg_part, sub_ℕ, ◌+ℤ◌, ◌-ℤ◌, ◌*ℤ◌, quot, leb_ℤ, ltb_ℤ, eqb_ℤ,
}
use spot_grid_bot.Base.Double.{Double}
use spot_grid_bot.FixTypes.{Side, invalid_side, is_buy, side_valid, opposite_side}
use spot_grid_bot.Instrument.{
  CurrencyPair, Currency, invalid_currency, dbl_to_cpip, cpip_to_dbl, qty_to_double,
}

-- `Position::State`
pub data State : Type 0 where
  qs_open qs_pending qs_filled : State

-- The fields of `class Position`; `m_quantity[3]` is the last three but one.
pub record Position : Type 0 where
  pub instrument : CurrencyPair
  pub dealt_currency : Currency
  pub side : Side
  pub price : ℤ
  pub open_qty : ℤ
  pub pending_qty : ℤ
  pub filled_qty : ℤ
  pub pnl : ℤ

abbrev pub get_qty : State → Position → ℤ
get_qty qs_open p = p.open_qty
get_qty qs_pending p = p.pending_qty
get_qty qs_filled p = p.filled_qty

abbrev pub set_qty : State → Position → ℤ → Position
set_qty qs_open p q = record p { open_qty = q }
set_qty qs_pending p q = record p { pending_qty = q }
set_qty qs_filled p q = record p { filled_qty = q }

abbrev pub same_state : State → State → Bool
same_state qs_open qs_open = true
same_state qs_pending qs_pending = true
same_state qs_filled qs_filled = true
same_state _ _ = false

-- The constructor with all parameters.
pub create : CurrencyPair → Currency → Side → ℤ → ℤ → Position
create cp dealt side price qty = record {
  instrument = cp;
  dealt_currency =
      if (dealt == cp.base_ccy) || (dealt == cp.quote_ccy) then dealt else invalid_currency;
  side = side;
  price = price;
  open_qty = qty;
  pending_qty = pos 0;
  filled_qty = pos 0;
  pnl = pos 0;
}

-- The constructor that copies a model position, with another price or open quantity.
pub create_from : Position → ℤ → ℤ → Position
create_from model price qty = record model {
  price = if ltb_ℤ (pos 0) price then price else model.price;
  open_qty = if ltb_ℤ (pos 0) qty then qty else model.open_qty;
  pending_qty = pos 0;
  filled_qty = pos 0;
  pnl = pos 0;
}

-- `Buy() == (DealtCurrency() == Instrument().BaseCCY())`
unfoldable pub is_long : Position → Bool
unfolding is_buy
is_long p =
    if is_buy p.side
    then p.dealt_currency == p.instrument.base_ccy
    else not (p.dealt_currency == p.instrument.base_ccy)

-- `Position::Sign`
unfoldable pub sign : Position → ℤ → ℤ
unfolding ◌-ℤ◌
sign p v = if is_long p then v else pos 0 -ℤ v

-- `Position::Quantity`, `PartiallyFilled`, `Filled` and `Open`
unfoldable pub quantity : Position → ℤ
quantity p = p.open_qty +ℤ p.pending_qty +ℤ p.filled_qty

pub partially_filled : Position → Bool
partially_filled p = ltb_ℤ (pos 0) (p.open_qty +ℤ p.pending_qty) && ltb_ℤ (pos 0) p.filled_qty

pub is_filled : Position → Bool
is_filled p = eqb_ℤ (p.open_qty +ℤ p.pending_qty) (pos 0)

pub is_open : Position → Bool
is_open p = eqb_ℤ (p.pending_qty +ℤ p.filled_qty) (pos 0)

-- The conversions between int64_t and size_t that C++ inserts where the two meet.
unfoldable pub to_unsigned : ℤ → ℕ
to_unsigned (pos n) = n % 2 ^ 64
to_unsigned (negsuc n) = 2 ^ 64 - 1 - n % 2 ^ 64

unfoldable pub to_signed : ℕ → ℤ
to_signed n = if ltb n (2 ^ 63) then pos n else negsuc (2 ^ 64 - 1 - n)

-- `price * quantity / QUANTITY_DECIMAL_FACTOR`: the factor, 100, is a size_t, so the signed product
-- is converted to unsigned before it is divided.
unfoldable pub amount : ℤ → ℤ → ℤ
unfolding to_unsigned to_signed
amount quantity price = to_signed (to_unsigned (price *ℤ quantity) / 100)

-- `amount * QUANTITY_DECIMAL_FACTOR / quantity`: both operations are unsigned.
unfoldable pub price_of : ℤ → ℤ → ℤ
unfolding to_unsigned to_signed
price_of quantity amount = to_signed (to_unsigned (amount *ℤ pos 100) / to_unsigned quantity)

-- `MoveQuantity`
unfoldable pub move_quantity : Position → ℤ → State → State → Position × Bool
move_quantity p qty from to =
    if not (same_state from to) && leb_ℤ qty (get_qty from p)
    then (let taken = set_qty from p (get_qty from p -ℤ qty) in
        (set_qty to taken (get_qty to taken +ℤ qty), true))
    else (p, false)

unfoldable pub order : Position → ℤ → Position × Bool
unfolding move_quantity
order p qty = if ltb_ℤ (pos 0) qty then move_quantity p qty qs_open qs_pending else (p, false)

unfoldable pub reject : Position → ℤ → Position × Bool
unfolding move_quantity
reject p qty = if ltb_ℤ (pos 0) qty then move_quantity p qty qs_pending qs_open else (p, false)

-- `Fill(qsFrom, qty, price, profit)`: on success, with the profit of this fill.
unfoldable pub fill_from : Position → State → ℤ → ℤ → Position × Bool × ℤ
unfolding move_quantity
fill_from p from qty price =
    let (moved, done) = move_quantity p qty from qs_filled in
    let amt = amount qty (sign p (p.price -ℤ price)) in
    if ltb_ℤ (pos 0) qty && ltb_ℤ (pos 0) price && done
    then (record moved { pnl = moved.pnl +ℤ amt }, true, amt)
    else (p, false, pos 0)

abbrev pub fill : Position → ℤ → ℤ → Position × Bool × ℤ
fill p = fill_from p qs_pending

abbrev pub direct_fill : Position → ℤ → ℤ → Position × Bool × ℤ
direct_fill p = fill_from p qs_open

-- `CanceledFill`
unfoldable pub canceled_fill : Position → ℤ → ℤ → Position × Bool
unfolding move_quantity
canceled_fill p qty price =
    let (moved, done) = move_quantity p qty qs_pending qs_open in
    let average = quot (p.open_qty *ℤ p.price +ℤ qty *ℤ price) (p.open_qty +ℤ qty) in
    if ltb_ℤ (pos 0) qty && ltb_ℤ (pos 0) price && done
    then (record moved { price = average }, true)
    else (p, false)

-- `CanceledReject`
unfoldable pub canceled_reject : Position → ℤ → Position × Bool
canceled_reject p qty =
    if ltb_ℤ (pos 0) qty && leb_ℤ qty p.pending_qty
    then (record p { pending_qty = p.pending_qty -ℤ qty }, true)
    else (p, false)

-- `Cancel(revertFilled)`
unfoldable pub cancel : Position → Bool → Position
unfolding opposite_side
cancel p revert =
    let turned = record p { side = if revert then opposite_side p.side else p.side } in
    if revert && ltb_ℤ (pos 0) p.filled_qty
    then record turned {
      price = p.price +ℤ sign turned (price_of p.filled_qty p.pnl);
      pnl = pos 0;
      open_qty = p.filled_qty;
      filled_qty = pos 0;
    }
    else record turned { open_qty = pos 0 }

-- The quantity that `CancelOpenQty` asks for, once the special cases are settled.
abbrev pub requested_cancel : Position → ℤ → Bool → ℤ
requested_cancel p qty all_or_nothing =
    if eqb_ℤ qty (pos 0) || (not all_or_nothing && ltb_ℤ p.open_qty qty) then p.open_qty else qty

-- `CancelOpenQty`, which returns the quantity that it canceled
unfoldable pub cancel_open_qty : Position → ℤ → Bool → Position × ℤ
cancel_open_qty p qty all_or_nothing =
    let wanted = requested_cancel p qty all_or_nothing in
    if ltb_ℤ qty (pos 0)
    then (p, pos 0)
    else if leb_ℤ wanted p.open_qty
    then (record p { open_qty = p.open_qty -ℤ wanted }, wanted)
    else (p, pos 0)

-- `Skim`: what stays, and the new position with the filled quantity and the profit
unfoldable pub skim : Position → Position × Position
skim p = (
  record p { filled_qty = pos 0; pnl = pos 0 },
  record p { open_qty = pos 0; pending_qty = pos 0 },
)

-- `ReduceOpenQuantity`
unfoldable pub reduce_open_quantity : Position → ℤ → Position × Bool
reduce_open_quantity p qty =
    if ltb_ℤ qty (pos 0) || ltb_ℤ p.open_qty qty
    then (p, false)
    else (record p { open_qty = p.open_qty -ℤ qty }, true)

-- `ExecutedPrice`
unfoldable pub executed_price : Position → ℤ
executed_price p =
    if ltb_ℤ (pos 0) p.filled_qty
    then p.price -ℤ sign p (quot (p.pnl *ℤ pos 100) p.filled_qty)
    else pos 0

-- `AddMarketPrice`
unfoldable pub add_market_price : Position → ℤ → Position
add_market_price p price = if eqb_ℤ p.price (pos 0) then record p { price = price } else p

module _ (D : Double) (pip_factor : CurrencyPair → ℤ) where
  open D use {add, mul, div}

  -- The average price of `AddOpenQuantity`, weighted by quantity and computed in `double`
  pub average_price : Position → ℤ → ℤ → ℤ
  average_price p price qty = dbl_to_cpip D pip_factor p.instrument (
      div
        (add
          (mul (cpip_to_dbl D pip_factor p.instrument p.price)
            (qty_to_double D pip_factor p.instrument p.open_qty))
          (mul (cpip_to_dbl D pip_factor p.instrument price)
            (qty_to_double D pip_factor p.instrument qty)))
        (qty_to_double D pip_factor p.instrument (p.open_qty +ℤ qty)))

  -- `AddOpenQuantity`. Inside the class `Side()` is the accessor of `m_side`.
  pub add_open_quantity : Position → Side → ℤ → ℤ → Position × Bool
  unfolding side_valid
  add_open_quantity p side price qty =
      if not (side_valid side) || leb_ℤ price (pos 0)
      then (p, false)
      else if leb_ℤ qty (pos 0)
      then (p, eqb_ℤ qty (pos 0))
      else if not (side.value == p.side.value) && ltb_ℤ (pos 0) (quantity p)
      then (p, false)
      else (record p { price = average_price p price qty; open_qty = p.open_qty +ℤ qty }, true)
