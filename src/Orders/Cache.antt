-- ===== src/Orders/Cache.antt =====
-- The order cache of `OrderManager`: what each operation of src/OrderManager.cpp leaves of it.
use spot_grid_bot.Base.{
  ℕ, ◌≡◌, refl, ◌≢◌, ◌⊎◌, inl, inr, Bool, true, false, Option, none, some, ◌∷◌, arith, ◌==◌,
  if◌then◌else◌, length, Option-cases, Bool-cases,
}
use spot_grid_bot.Base.Dict.{lookup, lookup-insert, lookup-erase}
use spot_grid_bot.Base.Double.{Double}
use spot_grid_bot.FixTypes.{Side}
use spot_grid_bot.Instrument.{CurrencyPair}
use spot_grid_bot.Orders.{
  Manager, Order, OrderStatus, Outcome, Reply, QueryReply, is_rest, fresh_order, place_limit_order,
  note_reply, cancel_order, is_closed, get_order, get_order_local, refresh, order_status,
  write_status, update_order,
}

module _ (D : Double) where
  -- `PlaceLimitOrder` over a REST connection, when the exchange accepts: one request with the
  -- given instrument, side, price and quantity was sent, the cache has a new, unfilled order with
  -- them under the exchange's id, every other order stays, and the id is returned.
  pub place_limit_order-accepted :
      (exchange : ℕ → Reply) (m : Manager D) (cp : CurrencyPair) (side : Side)
      (price quantity : D.F) (id : ℕ)
      → is_rest m.connection ≡ true
      → exchange (length m.sent) ≡ Reply.accepted id
      → let (m', answer) = place_limit_order D exchange m cp side price quantity in
        (answer ≡ Outcome.returned id)
        × (m'.sent
            ≡ record { instrument = cp; side = side; price = price; quantity = quantity } ∷ m.sent)
        × ((j : ℕ)
            → get_order_local D m' j ≡ (
                if id == j
                then some (fresh_order D id side price quantity)
                else get_order_local D m j))
  unfolding place_limit_order note_reply get_order_local
  place_limit_order-accepted exchange m cp side price quantity id r e = (
    ground arith,
    ground arith,
    λ j. ground (arith, lookup-insert j id (fresh_order D id side price quantity) m.orders),
  )

  -- `CancelOrder`: for an order that is unknown, filled or canceled it answers false and changes
  -- nothing; for another it never answers false, also when the exchange's call throws, and the
  -- order leaves the cache while every other stays.
  pub cancel_order_lem :
      (fails : Bool) (m : Manager D) (id : ℕ)
      → let (m', answer) = cancel_order D fails m id in
        (((o : Order D) → get_order_local D m id ≡ some o → is_closed D o.status ≡ true)
          × (answer ≡ Outcome.returned false)
          × (m' ≡ m))
        ⊎ (((o : Order D) × (get_order_local D m id ≡ some o) × (is_closed D o.status ≡ false))
            × (answer ≢ Outcome.returned false)
            × ((j : ℕ) → get_order_local D m' j ≡ (if id == j then none else get_order_local D m j))
            × (m'.sent ≡ m.sent)
            × (m'.balance ≡ m.balance))
  unfolding cancel_order get_order_local
  cancel_order_lem fails m id = elim (Option-cases (lookup id m.orders)) [
    | inl e ↦ inl (ground arith, ground arith, ground arith)
    | inr (o, e) ↦ elim (Bool-cases (is_closed D o.status)) [
      | inl c ↦ inl (ground arith, ground arith, ground arith)
      | inr c ↦ inr (
        (o, e, c),
        ground arith,
        (λ j. ground (arith, lookup-erase j id m.orders)),
        ground arith,
        ground arith,
      )
    ]
  ]

  write_status_others :
      (m : Manager D) (id : ℕ) (o : Order D) (st : Option OrderStatus) (f : Option D.F) (j : ℕ)
      → j ≢ id
      → lookup j (write_status D m id o st f).0.orders ≡ lookup j m.orders
  unfolding write_status
  write_status_others m id o none f j n = refl
  write_status_others m id o (some st) none j n =
      ground (arith, lookup-insert j id (record o { status = st }) m.orders)
  write_status_others m id o (some st) (some f) j n =
      ground (arith, lookup-insert j id (record o { status = st; filled = f }) m.orders)

  write_status-agrees :
      (m : Manager D) (id : ℕ) (o : Order D) (st : Option OrderStatus) (f : Option D.F)
      (o' : Order D)
      → let (m', answer) = write_status D m id o st f in
        answer ≡ Outcome.returned (some o')
        → (lookup id m'.orders ≡ some o')
          × (o'.id ≡ o.id)
          × (o'.side ≡ o.side)
          × (o'.price ≡ o.price)
          × (o'.quantity ≡ o.quantity)
  unfolding write_status
  write_status-agrees m id o none f o' e = ground arith
  write_status-agrees m id o (some st) none o' e = ground arith
  write_status-agrees m id o (some st) (some f) o' e =
      ground (arith, lookup-insert id id (record o { status = st; filled = f }) m.orders)

  refresh_others :
      (m : Manager D) (id : ℕ) (o : Order D) (reply : QueryReply D) (j : ℕ)
      → j ≢ id
      → lookup j (refresh D m id o reply).0.orders ≡ lookup j m.orders
  unfolding refresh
  refresh_others m id o QueryReply.query_broken j n = refl
  refresh_others m id o QueryReply.query_refused j n = refl
  refresh_others m id o (QueryReply.answered text f) j n =
      write_status_others m id o (order_status text) f j n

  refresh-agrees :
      (m : Manager D) (id : ℕ) (o : Order D) (reply : QueryReply D) (o' : Order D)
      → let (m', answer) = refresh D m id o reply in
        answer ≡ Outcome.returned (some o')
        → (lookup id m'.orders ≡ some o')
          × (o'.id ≡ o.id)
          × (o'.side ≡ o.side)
          × (o'.price ≡ o.price)
          × (o'.quantity ≡ o.quantity)
  unfolding refresh
  refresh-agrees m id o QueryReply.query_broken o' e = ground arith
  refresh-agrees m id o QueryReply.query_refused o' e = ground arith
  refresh-agrees m id o (QueryReply.answered text f) o' e =
      write_status-agrees m id o (order_status text) f o' e

  -- `GetOrder` and the cache agree: an order that it returns is the one that `GetOrderLocal`
  -- returns afterwards, with the side, price and quantity that it had before, and every other
  -- order stays, also when it throws.
  pub get_order_agrees :
      (reply : QueryReply D) (m : Manager D) (id : ℕ)
      → let (m', answer) = get_order D reply m id in
        ((o : Order D)
          → answer ≡ Outcome.returned (some o)
          → (get_order_local D m' id ≡ some o)
            × ((old : Order D)
                → get_order_local D m id ≡ some old
                → (o.id ≡ old.id)
                  × (o.side ≡ old.side)
                  × (o.price ≡ old.price)
                  × (o.quantity ≡ old.quantity)))
        × ((j : ℕ) → j ≢ id → get_order_local D m' j ≡ get_order_local D m j)
  unfolding get_order get_order_local
  get_order_agrees reply m id = elim (Option-cases (lookup id m.orders)) [
    | inl e ↦ (ground arith, ground arith)
    | inr (o, e) ↦ (
      (λ o' p. ground (arith, refresh-agrees m id o reply o')),
      λ j n. ground (arith, refresh_others m id o reply j n),
    )
  ]

  -- `UpdateOrder`: a known order gets the status and the filled size, and nothing else changes.
  pub update_order-lookup :
      (m : Manager D) (id k : ℕ) (status : OrderStatus) (filled : D.F)
      → lookup k (update_order D m id status filled).orders ≡ elim (lookup k m.orders) [
        | none ↦ none
        | some o ↦ some (if id == k then record o { status = status; filled = filled } else o)
      ]
  unfolding update_order
  update_order-lookup m id k status filled = elim (Option-cases (lookup id m.orders)) [
    | inl e ↦ ground arith
    | inr (o, e) ↦
        ground (arith, lookup-insert k id (record o { status = status; filled = filled }) m.orders)
  ]
