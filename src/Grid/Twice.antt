-- ===== src/Grid/Twice.antt =====
-- What `GridStrategy::CheckFilledOrders` of lib/gridbot/src/GridStrategy.cpp sends for an order that is
-- first filled in part and then as a whole.
use spot_grid_bot.Base.{
  ℕ, suc, ◌≡◌, ◌≢◌, ◌<◌, refl, sym, ap, subst, ◌∙◌, inl, inr, Bool, true, false, not, ◌&&◌, some,
  [], ◌∷◌, arith, if◌then◌else◌, length, length-append, Bool-cases,
}
use spot_grid_bot.Base.Dict.{insert, lookup_or, lookup-insert}
use spot_grid_bot.Base.Double.{Double}
use spot_grid_bot.FixTypes.{buy_side, sell_side}
use spot_grid_bot.Instrument.{CurrencyPair, Currency}
use spot_grid_bot.Orders.{
  Manager, Order, OrderStatus, is_rest, zero_f, place_limit_order, note_reply, get_order_local,
  get_balance, update_order, fresh_order,
}
use spot_grid_bot.Grid.{
  GridConfig, Strategy, OrderDetails, round, details_of, touch_details, touch_fill, placed, track,
  place_hedge, hedge_part, visit_part, visit, visit_as,
}
use spot_grid_bot.Grid.Start.{accepts_all}
use spot_grid_bot.Grid.Visit.{
  hedge, request_of, allowed, allowed_part, up, down, get_balance_lem, Effect, Hedged, Unhedged,
  Frame, visit_lem,
}
use spot_grid_bot.Orders.Cache.{update_order-lookup}

-- A conditional proposition whose test holds
then_holds : (b : Bool) (P Q : Type 0) → b ≡ true → (if b then P else Q) → P
then_holds true P Q h x = x
then_holds false P Q h x = ground arith

both_hold : (a b : Bool) → a ≡ false → b ≡ true → (not a && b) ≡ true
both_hold a b x y = ground arith

module _ (D : Double) (cfg : GridConfig D) (cp : CurrencyPair) (grow : ℕ → ℕ) (ids : ℕ → ℕ) where
  -- A tracked order and its details stay as they are.
  unfoldable Same : ℕ → Strategy D → Strategy D → Type 0
  Same id s t =
      (details_of D t id ≡ details_of D s id)
      × (get_order_local D t.manager id ≡ get_order_local D s.manager id)

  place_hedge-Same :
      (s : Strategy D) (h : OrderDetails D) (remove : Bool) (id : ℕ)
      → is_rest s.manager.connection ≡ true
      → length s.active < s.capacity
      → ids (length s.manager.sent) ≢ id
      → Same id s (place_hedge D (accepts_all ids) cfg cp grow s h.side h.price h.qty remove).0
  unfolding Same place_hedge placed track place_limit_order note_reply get_order_local
  place_hedge-Same s h remove id r room new = (
    ground (arith, lookup-insert id (ids (length s.manager.sent)) h s.details),
    ground (
      arith,
      lookup-insert id (ids (length s.manager.sent))
          (fresh_order D (ids (length s.manager.sent)) h.side h.price h.qty) s.manager.orders,
    ),
  )

  -- Before the hedge of a part an entry of the details is touched and a balance read.
  abbrev readied : Strategy D → ℕ → D.F → Currency → Strategy D
  readied s id filled c =
      let u : Strategy D = record s { known_fills = insert id filled s.known_fills } in
      record (touch_details D u id) { manager = (get_balance D s.manager c).0 }

  readied-Same :
      (s : Strategy D) (id : ℕ) (filled : D.F) (c : Currency) → Same id s (readied s id filled c)
  unfolding Same get_balance get_order_local
  readied-Same s id filled c =
      (ground (arith, lookup-insert id id (details_of D s id) s.details), ground arith)

  Same-trans : (id : ℕ) (s t u : Strategy D) → Same id s t → Same id t u → Same id s u
  unfolding Same
  Same-trans id s t u (a, b) (c, d) = (c ∙ a, d ∙ b)

  hedged-Same :
      (s : Strategy D) (id : ℕ) (filled : D.F) (c : Currency) (h : OrderDetails D)
      → is_rest s.manager.connection ≡ true
      → length s.active < s.capacity
      → ids (length s.manager.sent) ≢ id
      → Same id s
          (place_hedge D
            (accepts_all ids)
            cfg
            cp
            grow
            (readied s id filled c)
            h.side
            h.price
            h.qty
            false).0
  hedged-Same s id filled c h r room new =
      let t = readied s id filled c in
      let (b, sent, conn) = get_balance_lem D cfg cp grow ids s.manager c in
      Same-trans id s t _ (readied-Same s id filled c) (
        place_hedge-Same t h false id (ap is_rest conn ∙ r) room
          (λ e. new (ap (λ l. ids (length l)) (sym sent) ∙ e)))

  hedge_part-Same :
      (s : Strategy D) (id : ℕ) (filled delta : D.F)
      → is_rest s.manager.connection ≡ true
      → length s.active < s.capacity
      → ids (length s.manager.sent) ≢ id
      → let u : Strategy D = record s { known_fills = insert id filled s.known_fills } in
        Same id s (hedge_part D (accepts_all ids) cfg cp grow u id delta).0
  unfolding hedge_part
  hedge_part-Same s id filled delta r room new =
      let d = details_of D s id in
      ground (
        arith,
        readied-Same s id filled cp.base_ccy,
        readied-Same s id filled cp.quote_ccy,
        hedged-Same s id filled cp.base_ccy
            (record { side = sell_side; price = up D cfg cp grow ids d.price; qty = delta }) r room
            new,
        hedged-Same s id filled cp.quote_ccy
            (record { side = buy_side; price = down D cfg cp grow ids d.price; qty = delta }) r room
            new,
      )

  touch_fill-Same :
      (id : ℕ) (s : Strategy D)
      → (details_of D s id ≡ details_of D s id)
        × (get_order_local D s.manager id ≡ get_order_local D s.manager id)
      → Same id s (touch_fill D s id)
  unfolding Same
  touch_fill-Same id s h = h

  visit_part-Same :
      (s : Strategy D) (id : ℕ) (filled : D.F)
      → is_rest s.manager.connection ≡ true
      → length s.active < s.capacity
      → ids (length s.manager.sent) ≢ id
      → Same id s (visit_part D (accepts_all ids) cfg cp grow s id filled).0
  unfolding visit_part
  visit_part-Same s id filled r room new =
      let delta = D.sub filled (lookup_or (zero_f D) id s.known_fills) in
      elim (Bool-cases (D.eq (round D delta) (zero_f D))) [
        | inl e ↦ rw e (touch_fill-Same id s (refl, refl))
        | inr e ↦ rw e (hedge_part-Same s id filled delta r room new)
      ]

  visit-Same :
      (s : Strategy D) (id : ℕ) (o : Order D)
      → is_rest s.manager.connection ≡ true
      → length s.active < s.capacity
      → ids (length s.manager.sent) ≢ id
      → get_order_local D s.manager id ≡ some o
      → o.status ≡ OrderStatus.partly_filled_order
      → Same id s (visit D (accepts_all ids) cfg cp grow s id).0
  unfolding visit visit_as
  visit-Same s id o r room new known part =
      rw (visit, known, part) (visit_part-Same s id o.filled r room new)

  -- The strategy after `UpdateOrder` reports the order as filled
  abbrev pub completed : Strategy D → ℕ → D.F → Strategy D
  completed s id filled = record s {
    manager = update_order D s.manager id OrderStatus.filled_order filled;
  }

  completed_frame :
      (m : Manager D) (id : ℕ) (filled : D.F)
      → let m' = update_order D m id OrderStatus.filled_order filled in
        (m'.sent ≡ m.sent) × (m'.connection ≡ m.connection)
  unfolding update_order
  completed_frame m id filled = (ground arith, ground arith)

  completed_known :
      (m : Manager D) (id : ℕ) (filled : D.F) (o : Order D)
      → get_order_local D m id ≡ some o
      → get_order_local D (update_order D m id OrderStatus.filled_order filled) id
        ≡ some (record o { status = OrderStatus.filled_order; filled = filled })
  unfolding get_order_local
  completed_known m id filled o e =
      ground (arith, update_order-lookup D m id id OrderStatus.filled_order filled)

  -- The effects of the two visits, in the cases that place a hedge
  first_hedge :
      (s : Strategy D) (id : ℕ) (o : Order D)
      → o.status ≡ OrderStatus.partly_filled_order
      → let d = details_of D s id in
        let delta = D.sub o.filled (lookup_or (zero_f D) id s.known_fills) in
        let s1 = (visit D (accepts_all ids) cfg cp grow s id).0 in
        D.eq (round D delta) (zero_f D) ≡ false
        → allowed_part D cfg cp grow ids s d delta ≡ true
        → Effect D cfg cp grow ids s id o.filled o.status s1
        → Hedged D cfg cp grow ids s (hedge D cfg cp grow ids d delta) s1
  first_hedge s id o part new_part ok e =
      let s1 = (visit D (accepts_all ids) cfg cp grow s id).0 in
      let d = details_of D s id in
      let delta = D.sub o.filled (lookup_or (zero_f D) id s.known_fills) in
      let small = D.eq (round D delta) (zero_f D) in
      let can = allowed_part D cfg cp grow ids s d delta in
      then_holds (not small && can)
        (Hedged D cfg cp grow ids s (hedge D cfg cp grow ids d delta) s1)
        (Unhedged D cfg cp grow ids s s1) (both_hold small can new_part ok)
        (subst (λ st. Effect D cfg cp grow ids s id o.filled st s1) part e)

  second_hedge :
      (t : Strategy D) (id : ℕ) (d : OrderDetails D)
      → details_of D t id ≡ d
      → let u = (visit D (accepts_all ids) cfg cp grow t id).0 in
        (filled : D.F)
        → allowed D cfg cp grow ids t d ≡ true
        → Effect D cfg cp grow ids t id filled OrderStatus.filled_order u
        → Hedged D cfg cp grow ids t (hedge D cfg cp grow ids d d.qty) u
  second_hedge t id d same filled ok e =
      let u = (visit D (accepts_all ids) cfg cp grow t id).0 in
      then_holds (allowed D cfg cp grow ids t d)
        (Hedged D cfg cp grow ids t (hedge D cfg cp grow ids d d.qty) u)
        (Unhedged D cfg cp grow ids t u) ok
        (subst
          (λ x.
            if allowed D cfg cp grow ids t x
            then Hedged D cfg cp grow ids t (hedge D cfg cp grow ids x x.qty) u
            else Unhedged D cfg cp grow ids t u)
          same e)

  -- An order that is visited when it is filled in part, and again when it is filled, is hedged
  -- twice when the balances allow both hedges: once with the new part of the partial fill, and
  -- then with its whole tracked quantity, in which that part is contained. The connection is REST
  -- with an exchange that accepts every order, whose next id is not the order's own, and the
  -- vector has room for two more orders.
  pub hedged_twice :
      (s : Strategy D) (id : ℕ) (o : Order D) (filled : D.F)
      → is_rest s.manager.connection ≡ true
      → suc (length s.active) < s.capacity
      → ids (length s.manager.sent) ≢ id
      → get_order_local D s.manager id ≡ some o
      → o.status ≡ OrderStatus.partly_filled_order
      → let d = details_of D s id in
        let delta = D.sub o.filled (lookup_or (zero_f D) id s.known_fills) in
        let t = completed (visit D (accepts_all ids) cfg cp grow s id).0 id filled in
        D.eq (round D delta) (zero_f D) ≡ false
        → allowed_part D cfg cp grow ids s d delta ≡ true
        → allowed D cfg cp grow ids t d ≡ true
        → (visit D (accepts_all ids) cfg cp grow t id).0.manager.sent
          ≡ request_of D cfg cp grow ids (hedge D cfg cp grow ids d d.qty)
            ∷ request_of D cfg cp grow ids (hedge D cfg cp grow ids d delta)
            ∷ s.manager.sent
  unfolding Same Hedged Frame
  hedged_twice s id o filled r room new known part new_part ok ok' =
      let d = details_of D s id in
      let s1 = (visit D (accepts_all ids) cfg cp grow s id).0 in
      let t = completed s1 id filled in
      let less : length s.active < s.capacity = omega (arith, room) in
      let (same_d, same_o) = visit-Same s id o r less new known part in
      let (_, e, _) = visit_lem D cfg cp grow ids s id o r less known in
      let (sent, active, _, (capacity, conn)) = first_hedge s id o part new_part ok e in
      let (sent', conn') = completed_frame s1.manager id filled in
      let o' : Order D = record o { status = OrderStatus.filled_order; filled = filled } in
      let (_, e', _) =
        visit_lem D cfg cp grow ids t id o' (ap is_rest (conn' ∙ conn) ∙ r)
          (ground (
            arith,
            room,
            ap length active,
            length-append s.active (ids (length s.manager.sent) ∷ []),
          ))
          (completed_known s1.manager id filled o (same_o ∙ known)) in
      let (last, _, _, _) = second_hedge t id d same_d filled ok' e' in
      last
      ∙ ap (λ l. request_of D cfg cp grow ids (hedge D cfg cp grow ids d d.qty) ∷ l) (sent' ∙ sent)
