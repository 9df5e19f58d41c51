-- ===== src/Reports/Okx.antt =====
-- `OKX::ConnectionORD::TranslateOrder` of src/OKX/ConnectionORD.cpp. Of the first element of
-- "data" it reads the members below, converted; a number that does not convert is 0.
use Prim.Native.String.{String}
use spot_grid_bot.Base.{ℕ, ◌||◌, Option, none, some, List, [], ◌∷◌, if◌then◌else◌}
use spot_grid_bot.Base.Int.{ℤ, pos, eqb_ℤ}
use spot_grid_bot.Base.Double.{Double}
use spot_grid_bot.FixTypes.{buy_side, sell_side, invalid_side}
use spot_grid_bot.Instrument.{CurrencyPair}
use spot_grid_bot.Orders.{same_text, zero_f}
use spot_grid_bot.Reports.{
  Report, ReportText, order_failed_code, data_missing, data_empty, empty_report, market_type,
  limit_type,
}

-- The states of include/OKX/Definitions.h
unfoldable pub okx_state : String → ℕ × ℕ
okx_state s =
    if same_text s "live"
    then (b'0', b'0')
    else if same_text s "partially_filled"
    then (b'1', b'1')
    else if same_text s "filled"
    then (b'2', b'2')
    else if same_text s "canceled"
    then (b'4', b'4')
    else (b'8', b'8')

module _ (D : Double) where
  pub record OkxOrder : Type 0 where
    pub ord_id : ℕ
    pub cl_ord_id : ℕ
    pub state : String
    pub ord_type : String
    pub instrument : CurrencyPair
    -- the text of the date of `uTime`
    pub updated : ℕ
    pub side : String
    pub size : Option D.F
    pub fill_size : Option D.F
    pub price : Option D.F
    pub fill_price : Option D.F

  -- `OrderActionResult`: the code and the message, and the array, none if it is missing
  pub record OkxAnswer : Type 0 where
    pub code : ℤ
    pub msg : ℕ
    pub orders : Option (List OkxOrder)

  -- `getValFunc`
  abbrev pub value_of : Option D.F → D.F
  value_of none = zero_f D
  value_of (some x) = x

module _ (D : Double) (pip_factor : CurrencyPair → ℤ) where
  -- The report of the one order
  unfoldable pub okx_report : OkxOrder D → Report D
  unfolding empty_report okx_state
  okx_report o = record (empty_report D pip_factor) {
    order_id = o.ord_id;
    cl_ord_id = o.cl_ord_id;
    ord_status = (okx_state o.state).0;
    exec_type = (okx_state o.state).1;
    ord_type = if same_text o.ord_type "market" then market_type else limit_type;
    instrument = o.instrument;
    currency = o.instrument.quote_ccy;
    settl_date = o.updated;
    side =
        if same_text o.side "sell"
        then sell_side
        else if same_text o.side "buy"
        then buy_side
        else invalid_side;
    order_qty = value_of D o.size;
    last_qty = value_of D o.fill_size;
    cum_qty = value_of D o.fill_size;
    order_px = value_of D o.price;
    last_px = value_of D o.fill_price;
    tif =
        if same_text o.ord_type "fok"
        then b'4'
        else if same_text o.ord_type "ioc" || same_text o.ord_type "optimal_limit_ioc"
        then b'3'
        else b'1';
  }

  -- A report that only has a text
  unfoldable pub text_report : ReportText → Report D
  unfolding empty_report
  text_report t = record (empty_report D pip_factor) { text = t }

  unfoldable pub okx_translate_order : OkxAnswer D → List (Report D)
  unfolding okx_report text_report
  okx_translate_order a =
      if eqb_ℤ a.code (pos 0)
      then elim a.orders [
        | none ↦ text_report data_missing ∷ []
        | some [] ↦ text_report data_empty ∷ []
        | some (o ∷ rest) ↦ okx_report o ∷ []
      ]
      else text_report (order_failed_code a.code a.msg) ∷ []
