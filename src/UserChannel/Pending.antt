-- ===== src/UserChannel/Pending.antt =====
-- The sending side of `COINBASE::ConnectionORDWS` of src/coinbase/ConnectionORDWS.cpp: `SendOrder`,
-- `CancelOrder` and `GetOrders` on the counter and the pending orders of
-- include/coinbase/ConnectionORDWS.h. The text "ws_<time>_<counter>" of a generated id is a
-- function of the two numbers; a text is a number, with 0 for the empty one.
use spot_grid_bot.Base.{
  ℕ, suc, ◌%◌, ◌^◌, ◌≡◌, ◌≤◌, ◌<◌, refl, Bool, true, Option, none, some, List, [], ◌∷◌, arith, ◌==◌,
  if◌then◌else◌, length,
}
use spot_grid_bot.Base.Dict.{Dict, lookup, insert, lookup-insert}
use spot_grid_bot.Base.Double.{Double}
use spot_grid_bot.FixTypes.{Side, is_buy}
use spot_grid_bot.Instrument.{CurrencyPair}
use spot_grid_bot.Orders.{Outcome}

module _ (D : Double) where
  -- `PendingOrder`, whose client id is its key
  pub record PendingOrder : Type 0 where
    pub instrument : CurrencyPair
    pub side : Side
    pub price : D.F
    pub quantity : D.F

  -- The member of `order_configuration` and its values
  pub data OrderConfig : Type 0 where
    limit_gtc_not_post_only : D.F → D.F → OrderConfig
    limit_gtc : D.F → D.F → OrderConfig
    market_ioc : D.F → OrderConfig

  -- The payload of a message, before it is signed; the product is the instrument's name.
  pub data Payload : Type 0 where
    create : ℕ → CurrencyPair → Bool → OrderConfig → Payload
    cancel : ℕ → Option ℕ → Payload
    list_orders : Payload

  -- `m_orderIdCounter`, `m_pendingOrders`, and what was sent, latest first
  pub record Socket : Type 0 where
    pub counter : ℕ
    pub pending : Dict (PendingOrder)
    pub sent : List Payload

  -- The order's configuration; the time in force is its character, and GTC is '1'.
  unfoldable pub order_config : Bool → ℕ → D.F → D.F → OrderConfig
  order_config is_limit tif price quantity =
      if is_limit
      then if tif == b'1' then limit_gtc_not_post_only quantity price else limit_gtc quantity price
      else market_ioc quantity

  module _ (text : ℕ → ℕ → ℕ) where
    -- `SendOrder`, at a time. `signs` says whether the signing and the sending return; the pending
    -- order is stored before.
    unfoldable pub send_order :
        Bool → ℕ → Socket → CurrencyPair → Side → Bool → ℕ → D.F → D.F → ℕ → Socket × Outcome ℕ
    unfolding order_config
    send_order signs time s instrument side is_limit tif price quantity client_id =
        let generated = client_id == 0 in
        let id : ℕ = if generated then text time s.counter else client_id in
        let order : PendingOrder = record {
          instrument = instrument;
          side = side;
          price = price;
          quantity = quantity;
        } in
        let stored : Socket = record s {
          counter = if generated then suc s.counter % 2 ^ 64 else s.counter;
          pending = insert id order s.pending;
        } in
        let payload =
          create id instrument (is_buy side) (order_config is_limit tif price quantity) in
        if signs
        then (record stored { sent = payload ∷ s.sent }, Outcome.returned id)
        else (stored, Outcome.thrown)

  -- `CancelOrder`
  unfoldable pub send_cancel : Bool → Socket → ℕ → Option ℕ → Socket × Outcome ℕ
  send_cancel signs s id client_id =
      if signs
      then (record s { sent = cancel id client_id ∷ s.sent }, Outcome.returned id)
      else (s, Outcome.thrown)

  -- `GetOrders`, whose result is a fixed text
  unfoldable pub send_list : Bool → Socket → Socket × Outcome Bool
  send_list signs s =
      if signs
      then (record s { sent = list_orders ∷ s.sent }, Outcome.returned true)
      else (s, Outcome.thrown)

  length-insert_new :
      (k : ℕ) (o : PendingOrder) (d : Dict PendingOrder)
      → lookup k d ≡ none
      → length (insert k o d) ≡ suc (length d)
  unfolding lookup insert
  length-insert_new k o [] h = refl
  length-insert_new k o ((j, p) ∷ d) h = ground (arith, length-insert_new k o d)

  -- No pending order has an id that a later counter generates.
  unfoldable pub IsFresh : (ℕ → ℕ → ℕ) → Socket → Type 0
  IsFresh text s = (time c : ℕ) → s.counter ≤ c → lookup (text time c) s.pending ≡ none

  -- A `SendOrder` without client id, below 2^64 of them, stores one more pending order, loses
  -- none, and does so also when the signing or sending throws; the next generated id is again
  -- unused.
  pub send_order-IsFresh :
      (text : ℕ → ℕ → ℕ) (one_to_one : (t c u e : ℕ) → text t c ≡ text u e → c ≡ e) (signs : Bool)
      (time : ℕ) (s : Socket) (cp : CurrencyPair) (side : Side) (is_limit : Bool) (tif : ℕ)
      (price quantity : D.F)
      → suc s.counter < 2 ^ 64
      → IsFresh text s
      → let s' = (send_order text signs time s cp side is_limit tif price quantity 0).0 in
        IsFresh text s'
        × (length s'.pending ≡ suc (length s.pending))
        × ((k : ℕ) (o : PendingOrder) → lookup k s.pending ≡ some o → lookup k s'.pending ≡ some o)
  unfolding send_order IsFresh
  send_order-IsFresh text one_to_one signs time s cp side is_limit tif price quantity b h =
      let order : PendingOrder = record {
        instrument = cp;
        side = side;
        price = price;
        quantity = quantity;
      } in
      let id = text time s.counter in
      (
        (λ u c le. ground (
          arith,
          lookup-insert (text u c) id order s.pending,
          one_to_one time s.counter u c,
          h u c,
        )),
        ground (arith, length-insert_new id order s.pending, h time s.counter),
        (λ k o e. ground (arith, lookup-insert k id order s.pending, h time s.counter)),
      )
