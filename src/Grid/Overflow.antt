-- ===== src/Grid/Overflow.antt =====
-- The loop of `GridStrategy::CheckFilledOrders` refers to the elements of the vector to which it
-- appends: what happens when the vector is full.
use spot_grid_bot.Base.{
  ℕ, ◌≡◌, ◌≤◌, inl, inr, Bool, true, false, some, List, ◌∷◌, arith, if◌then◌else◌, length, ◌∙◌, ap,
  Bool-cases,
}
use spot_grid_bot.Base.Dict.{lookup_or}
use spot_grid_bot.Base.Double.{Double}
use spot_grid_bot.FixTypes.{buy_side, sell_side, is_buy}
use spot_grid_bot.Instrument.{CurrencyPair, Currency}
use spot_grid_bot.Orders.{
  Order, OrderStatus, Outcome, is_rest, follow, follow-undefined, zero_f, place_limit_order,
  note_reply, get_order_local, get_balance,
}
use spot_grid_bot.Grid.{
  GridConfig, Strategy, OrderDetails, round, details_of, touch_details, placed, track, place_hedge,
  visit_filled, visit_as, visit, visit_all, check_filled_orders, forget_all,
}
use spot_grid_bot.Grid.Start.{accepts_all}
use spot_grid_bot.Grid.Visit.{allowed, up, down, decide, get_balance_lem}

module _ (D : Double) (cfg : GridConfig D) (cp : CurrencyPair) (grow : ℕ → ℕ) (ids : ℕ → ℕ) where
  place_hedge_full :
      (s : Strategy D) (h : OrderDetails D) (remove : Bool)
      → is_rest s.manager.connection ≡ true
      → s.capacity ≤ length s.active
      → (place_hedge D (accepts_all ids) cfg cp grow s h.side h.price h.qty remove).1
        ≡ Outcome.undefined
  unfolding place_hedge placed track place_limit_order note_reply
  place_hedge_full s h remove r full = ground arith

  decide_full :
      (s : Strategy D) (test : D.F → Bool) (h : OrderDetails D) (c : Currency)
      → is_rest s.manager.connection ≡ true
      → s.capacity ≤ length s.active
      → test (lookup_or (zero_f D) c s.manager.balance) ≡ false
      → (decide D cfg cp grow ids s test h true (get_balance D s.manager c)).1 ≡ Outcome.undefined
  decide_full s test h c r full e =
      let (x, y, z) = get_balance_lem D cfg cp grow ids s.manager c in
      rw (x, e)
        (place_hedge_full (record s { manager = (get_balance D s.manager c).0 }) h true
          (ap is_rest z ∙ r) full)

  visit_filled_full :
      (s : Strategy D) (id : ℕ)
      → is_rest s.manager.connection ≡ true
      → s.capacity ≤ length s.active
      → allowed D cfg cp grow ids s (details_of D s id) ≡ true
      → (visit_filled D (accepts_all ids) cfg cp grow s id).1 ≡ Outcome.undefined
  unfolding visit_filled
  visit_filled_full s id r full ok =
      let d = details_of D s id in
      elim (Bool-cases (is_buy d.side)) [
        | inl e ↦ rw e (
            decide_full (touch_details D s id) (λ b. D.lt (round D cfg.max_position) b)
              (record { side = sell_side; price = up D cfg cp grow ids d.price; qty = d.qty })
              cp.base_ccy r full (ground arith))
        | inr e ↦ rw e (
            decide_full (touch_details D s id)
              (λ b. D.lt (round D b) (D.mul (down D cfg cp grow ids d.price) d.qty))
              (record { side = buy_side; price = down D cfg cp grow ids d.price; qty = d.qty })
              cp.quote_ccy r full (ground arith))
      ]

  -- `CheckFilledOrders` has undefined behaviour when the vector is full and its first order is
  -- filled with a hedge that the balances allow: the hedge is appended to the vector that the
  -- loop runs over, and the loop's reference dangles.
  pub full_vector_undefined :
      (s : Strategy D) (id : ℕ) (rest : List ℕ) (o : Order D)
      → is_rest s.manager.connection ≡ true
      → s.active ≡ id ∷ rest
      → s.capacity ≤ length s.active
      → get_order_local D s.manager id ≡ some o
      → o.status ≡ OrderStatus.filled_order
      → allowed D cfg cp grow ids s (details_of D s id) ≡ true
      → (check_filled_orders D (accepts_all ids) cfg cp grow s).1 ≡ Outcome.undefined
  unfolding check_filled_orders visit_all visit visit_as
  full_vector_undefined s id rest o r a full e f ok =
      let exchange = accepts_all ids in
      let first : (visit D exchange cfg cp grow s id).1 ≡ Outcome.undefined =
        rw (visit, e) (rw (visit_as, f) (visit_filled_full s id r full ok)) in
      let step : Strategy D → Bool → Strategy D × Outcome (List ℕ) = λ t b.
        follow (visit_all D exchange cfg cp grow t rest)
          λ u k. (u, Outcome.returned (if b then id ∷ k else k)) in
      let last : Strategy D → List ℕ → Strategy D × Outcome ℕ =
        λ t l. (forget_all D exchange cfg cp grow t l, Outcome.returned (length l)) in
      follow-undefined (visit_all D exchange cfg cp grow s s.active) last (
        ap (λ l. (visit_all D exchange cfg cp grow s l).1) a
        ∙ follow-undefined (visit D exchange cfg cp grow s id) step first)
