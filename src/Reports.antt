-- ===== src/Reports.antt =====
-- The execution reports that the exchanges' answers are translated to: the constructor of
-- `ExecutionReportData` in lib/utils/include/Utils/MessageData.h, the empty report of
-- src/Tools.cpp, and `TranslateOrder` of src/coinbase/ConnectionORD.cpp and
-- src/binance/ConnectionORD.cpp, whose text is the same. Reports.Socket has that of
-- src/coinbase/ConnectionORDWS.cpp, Reports.Okx that of src/OKX/ConnectionORD.cpp, Reports.Names
-- the names of statuses in lib/utils/src/Utils.cpp. A JSON document is the members that the code
-- reads, converted; a member of a fill that does not convert throws.
pub mod Socket
pub mod Okx
pub mod Names
pub mod Fills
pub mod Statuses
pub mod Errors
pub mod Tests
use Prim.Native.String.{String}
use spot_grid_bot.Base.{
  ℕ, Bool, true, false, Option, none, some, List, [], ◌∷◌, ◌==◌, if◌then◌else◌,
}
use spot_grid_bot.Base.Int.{ℤ, pos}
use spot_grid_bot.Base.Double.{Double}
use spot_grid_bot.FixTypes.{Side, buy_side, sell_side, invalid_side, name_to_char}
use spot_grid_bot.Instrument.{Currency, CurrencyPair, no_currency, qty_to_double, cpip_to_dbl}
use spot_grid_bot.Orders.{same_text, zero_f}

-- `m_text`: none, or the formatted message of an error, with what is put into it
pub data ReportText : Type 0 where
  no_text : ReportText
  order_failed : ℕ → ℕ → ReportText
  order_failed_code : ℤ → ℕ → ReportText
  data_missing : ReportText
  data_empty : ReportText

-- The ORDTYPE characters of FixDefs.h
abbrev pub market_type : ℕ
market_type = b'1'

abbrev pub limit_type : ℕ
limit_type = b'2'

-- `TranslateOrderStatus`: the characters ORDSTATUS and EXECTYPE of FixDefs.h
unfoldable pub rest_order_status : String → ℕ × ℕ
rest_order_status s =
    if same_text s "NEW"
    then (b'0', b'0')
    else if same_text s "PARTIALLY_FILLED"
    then (b'1', b'1')
    else if same_text s "FILLED"
    then (b'2', b'2')
    else if same_text s "CANCELED"
    then (b'4', b'4')
    else if same_text s "EXPIRED"
    then (b'C', b'C')
    else (b'8', b'8')

-- Binance has a method of the same text.
unfoldable pub binance_order_status : String → ℕ × ℕ
unfolding rest_order_status
binance_order_status s = rest_order_status s

module _ (D : Double) where
  -- `ExecutionReportData`, but for the texts that the translations leave empty
  pub record Report : Type 0 where
    pub order_id : ℕ
    pub cl_ord_id : ℕ
    pub ord_type : ℕ
    pub instrument : CurrencyPair
    pub currency : Currency
    pub exec_id : ℕ
    pub settl_date : ℕ
    pub exec_type : ℕ
    pub ord_status : ℕ
    pub side : Side
    pub order_qty : D.F
    pub order_px : D.F
    pub last_qty : D.F
    pub last_px : D.F
    pub leaves_qty : D.F
    pub cum_qty : D.F
    pub avg_px : D.F
    pub text : ReportText
    pub tif : ℕ

  -- The arguments of its constructor: quantities and prices are integers there.
  pub record ReportArgs : Type 0 where
    pub order_id : ℕ
    pub cl_ord_id : ℕ
    pub ord_type : ℕ
    pub instrument : CurrencyPair
    pub currency : Currency
    pub exec_id : ℕ
    pub exec_type : ℕ
    pub ord_status : ℕ
    pub side : Side
    pub order_qty : ℤ
    pub order_px : ℤ
    pub last_qty : ℤ
    pub last_px : ℤ
    pub leaves_qty : ℤ
    pub cum_qty : ℤ
    pub avg_px : ℤ
    pub tif : ℕ

  -- What `TranslateOrder` reads of an answer. `instrument` is the pair of its symbol,
  -- `time_in_force` the place of its text among the names of TimeInForce; a fill is its price and
  -- quantity, none if one of them does not convert; `fills` is none if the member is no array.
  pub record Answer : Type 0 where
    pub code : ℕ
    pub msg : ℕ
    pub instrument : CurrencyPair
    pub orig_qty : D.F
    pub status : String
    pub order_id : ℕ
    pub client_order_id : ℕ
    pub order_type : String
    pub side : String
    pub time_in_force : ℤ
    pub price : D.F
    pub cummulative_quote_qty : D.F
    pub fills : Option (List (Option (D.F × D.F)))

module _ (D : Double) (pip_factor : CurrencyPair → ℤ) where
  unfoldable pub execution_report_data : ReportArgs D → Report D
  execution_report_data a = record {
    order_id = a.order_id;
    cl_ord_id = a.cl_ord_id;
    ord_type = a.ord_type;
    instrument = a.instrument;
    currency = a.currency;
    exec_id = a.exec_id;
    settl_date = 0;
    exec_type = a.exec_type;
    ord_status = a.ord_status;
    side = a.side;
    order_qty = qty_to_double D pip_factor a.instrument a.order_qty;
    order_px = cpip_to_dbl D pip_factor a.instrument a.order_px;
    last_qty = qty_to_double D pip_factor a.instrument a.last_qty;
    last_px = cpip_to_dbl D pip_factor a.instrument a.last_px;
    leaves_qty = qty_to_double D pip_factor a.instrument a.leaves_qty;
    cum_qty = qty_to_double D pip_factor a.instrument a.cum_qty;
    avg_px = cpip_to_dbl D pip_factor a.instrument a.avg_px;
    text = no_text;
    tif = a.tif;
  }

  -- `CreateEmptyExecutionReportData`
  unfoldable pub empty_report : Report D
  unfolding execution_report_data
  empty_report = execution_report_data (record {
    order_id = 0;
    cl_ord_id = 0;
    ord_type = market_type;
    instrument = record { base_ccy = no_currency; quote_ccy = no_currency };
    currency = no_currency;
    exec_id = 0;
    exec_type = 0;
    ord_status = 0;
    side = invalid_side;
    order_qty = pos 0;
    order_px = pos 0;
    last_qty = pos 0;
    last_px = pos 0;
    leaves_qty = pos 0;
    cum_qty = pos 0;
    avg_px = pos 0;
    tif = 0;
  })

  -- `prepareExecReportFunc`
  unfoldable pub prepare_exec_report : Answer D → Report D
  unfolding empty_report rest_order_status
  prepare_exec_report a = record empty_report {
    order_id = a.order_id;
    cl_ord_id = a.client_order_id;
    ord_type = if same_text a.order_type "MARKET" then market_type else limit_type;
    instrument = a.instrument;
    currency = a.instrument.base_ccy;
    side =
        if same_text a.side "SELL"
        then sell_side
        else if same_text a.side "BUY"
        then buy_side
        else invalid_side;
    tif = name_to_char a.time_in_force;
    order_px = a.price;
    order_qty = a.orig_qty;
    ord_status = (rest_order_status a.status).0;
    exec_type = (rest_order_status a.status).1;
  }

  -- `generateSingleExecutionFunc`
  unfoldable pub single_execution : Answer D → Report D
  unfolding prepare_exec_report
  single_execution a = record (prepare_exec_report a) {
    cum_qty = a.cummulative_quote_qty;
    leaves_qty = a.orig_qty;
  }

  -- The report of one fill, after which `executed` is filled; the last keeps the order's status.
  unfoldable pub fill_report : Answer D → D.F → D.F → D.F → Bool → Report D
  unfolding prepare_exec_report
  fill_report a executed px qty last = record (prepare_exec_report a) {
    last_px = px;
    last_qty = qty;
    cum_qty = executed;
    leaves_qty = D.sub a.orig_qty executed;
    ord_status = if last then (prepare_exec_report a).ord_status else b'1';
    exec_type = if last then (prepare_exec_report a).exec_type else b'1';
  }

  abbrev pub is_last : List (Option (D.F × D.F)) → Bool
  is_last [] = true
  is_last (f ∷ rest) = false

  -- The loop over the fills; none is the exception.
  unfoldable pub fill_reports :
      Answer D → D.F → List (Option (D.F × D.F)) → Option (List (Report D))
  unfolding fill_report
  fill_reports a executed [] = some []
  fill_reports a executed (none ∷ rest) = none
  fill_reports a executed (some (px, qty) ∷ rest) =
      elim (fill_reports a (D.add executed qty) rest) [
        | none ↦ none
        | some reports ↦ some (fill_report a (D.add executed qty) px qty (is_last rest) ∷ reports)
      ]

  -- The report of an answer with an error code
  unfoldable pub error_report : Answer D → Report D
  unfolding empty_report
  error_report a = record empty_report {
    ord_status = b'8';
    exec_type = b'8';
    text = order_failed a.code a.msg;
  }

  -- `TranslateOrder`
  unfoldable pub translate_order : Answer D → Option (List (Report D))
  unfolding error_report single_execution fill_reports
  translate_order a =
      if a.code == 0
      then elim a.fills [
        | none ↦ some (single_execution a ∷ [])
        | some [] ↦ some (single_execution a ∷ [])
        | some (f ∷ rest) ↦ fill_reports a (zero_f D) (f ∷ rest)
      ]
      else some (error_report a ∷ [])

  -- Binance has a method of the same text.
  unfoldable pub binance_translate_order : Answer D → Option (List (Report D))
  unfolding translate_order
  binance_translate_order a = translate_order a
