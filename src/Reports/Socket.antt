-- ===== src/Reports/Socket.antt =====
-- `ConnectionORDWS::TranslateOrderResult` of src/coinbase/ConnectionORDWS.cpp: the report of an
-- order of the socket, over the pair and the texts that are read, and what `stod` makes of them.
use Prim.Native.String.{String}
use spot_grid_bot.Base.{ℕ, Option, none, some, List, [], ◌∷◌, if◌then◌else◌}
use spot_grid_bot.Base.Int.{ℤ}
use spot_grid_bot.Base.Double.{Double}
use spot_grid_bot.FixTypes.{buy_side, sell_side}
use spot_grid_bot.Instrument.{CurrencyPair, dbl_to_cpip, double_to_qty}
use spot_grid_bot.Orders.{same_text}
use spot_grid_bot.UserChannel.{translate_order_status}
use spot_grid_bot.Reports.{Report, execution_report_data, limit_type}

module _ (D : Double) where
  -- What is read; a number is none if it is missing or `stod` throws on its text.
  pub record SocketOrder : Type 0 where
    pub order_id : ℕ
    pub client_order_id : ℕ
    pub instrument : CurrencyPair
    pub side : String
    pub status : String
    pub order_size : Option D.F
    pub limit_price : Option D.F
    pub filled_size : Option D.F

module _ (D : Double) (pip_factor : CurrencyPair → ℤ) where
  -- The report of an order whose numbers are `size`, `price` and `filled`
  unfoldable pub socket_report : SocketOrder D → D.F → D.F → D.F → Report D
  unfolding execution_report_data translate_order_status
  socket_report o size price filled =
      let (ord_status, exec_type) = translate_order_status o.status in
      let qty = double_to_qty D pip_factor o.instrument in
      let cpip = dbl_to_cpip D pip_factor o.instrument in
      execution_report_data D pip_factor (record {
        order_id = o.order_id;
        cl_ord_id = o.client_order_id;
        ord_type = limit_type;
        instrument = o.instrument;
        currency = o.instrument.base_ccy;
        exec_id = o.order_id;
        exec_type = exec_type;
        ord_status = ord_status;
        side = if same_text o.side "BUY" then buy_side else sell_side;
        order_qty = qty size;
        order_px = cpip price;
        last_qty = qty filled;
        last_px = cpip price;
        leaves_qty = qty (D.sub size filled);
        cum_qty = qty filled;
        avg_px = cpip price;
        tif = b'1';
      })

  -- What throws is caught, and no report is given.
  unfoldable pub translate_order_result : SocketOrder D → List (Report D)
  unfolding socket_report
  translate_order_result o = elim o.order_size [
    | none ↦ []
    | some size ↦ elim o.limit_price [
      | none ↦ []
      | some price ↦ elim o.filled_size [
        | none ↦ []
        | some filled ↦ socket_report o size price filled ∷ []
      ]
    ]
  ]
