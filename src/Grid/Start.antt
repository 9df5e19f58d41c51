-- ===== src/Grid/Start.antt =====
-- `GridStrategy::Start` of lib/gridbot/src/GridStrategy.cpp: which orders it sends and tracks.
use spot_grid_bot.Base.{
  ℕ, zero, suc, ◌≡◌, refl, true, List, [], ◌∷◌, ◌++◌, arith, length, append_assoc, append-nil, sym,
  ap, ap₂, ◌∙◌,
}
use spot_grid_bot.Base.Int.{pos_part}
use spot_grid_bot.Base.Double.{Double}
use spot_grid_bot.FixTypes.{Side, buy_side, sell_side}
use spot_grid_bot.Instrument.{CurrencyPair}
use spot_grid_bot.Orders.{
  Request, Outcome, follow-returned, Reply, is_rest, place_limit_order, note_reply,
}
use spot_grid_bot.Grid.{
  GridConfig, Strategy, start, start_levels, start_level, append_order, placed, level_above,
  level_below,
}

-- The n-th answer is the n-th id.
abbrev pub accepts_all : (ℕ → ℕ) → ℕ → Reply
accepts_all ids n = Reply.accepted (ids n)

module _ (D : Double) (cfg : GridConfig D) (cp : CurrencyPair) (grow : ℕ → ℕ) (ids : ℕ → ℕ) where
  -- The requests for the levels `i`, `i + 1`, … with the last level first, as the manager keeps them
  abbrev pub ladder : ℕ → ℕ → Side → (ℕ → D.F) → List (Request D) → List (Request D)
  ladder zero i side price sent = sent
  ladder (suc n) i side price sent = ladder n (suc i) side price (
      record { instrument = cp; side = side; price = price i; quantity = cfg.percent_order_qty }
      ∷ sent)

  -- The ids that the answers to `n` requests give, from the k-th answer on
  abbrev pub next_ids : ℕ → ℕ → List ℕ
  next_ids zero k = []
  next_ids (suc n) k = ids k ∷ next_ids n (suc k)

  pub start_level_lem :
      (s : Strategy D) (side : Side) (price : D.F)
      → is_rest s.manager.connection ≡ true
      → let (t, answer) = start_level D (accepts_all ids) cfg cp grow s side price in
        (answer ≡ Outcome.returned (ids (length s.manager.sent)))
        × (t.manager.sent
            ≡ record {
              instrument = cp;
              side = side;
              price = price;
              quantity = cfg.percent_order_qty;
            }
              ∷ s.manager.sent)
        × (t.manager.connection ≡ s.manager.connection)
        × (t.active ≡ s.active ++ (ids (length s.manager.sent) ∷ []))
  unfolding start_level place_limit_order note_reply append_order placed
  start_level_lem s side price r = (ground arith, ground arith, ground arith, ground arith)

  pub start_levels_lem :
      (n i : ℕ) (side : Side) (price : ℕ → D.F) (s : Strategy D)
      → is_rest s.manager.connection ≡ true
      → let (t, answer) = start_levels D (accepts_all ids) cfg cp grow n i side price s in
        ((k : ℕ) × (answer ≡ Outcome.returned k))
        × (t.manager.sent ≡ ladder n i side price s.manager.sent)
        × (t.manager.connection ≡ s.manager.connection)
        × (t.active ≡ s.active ++ next_ids n (length s.manager.sent))
  unfolding start_levels
  start_levels_lem zero i side price s r = ((0, refl), refl, refl, sym (append-nil s.active))
  start_levels_lem (suc n) i side price s r =
      let f = λ (t : Strategy D) (k : ℕ).
        start_levels D (accepts_all ids) cfg cp grow n (suc i) side price t in
      let first = start_level D (accepts_all ids) cfg cp grow s side (price i) in
      let (a, b, c, d) = start_level_lem s side (price i) r in
      let q = follow-returned first f (ids (length s.manager.sent)) a in
      let ((k, e), g, h, l) = start_levels_lem n (suc i) side price first.0 (ap is_rest c ∙ r) in
      (
        (k, ap (λ o. o.1) q ∙ e),
        ap (λ o. o.0.manager.sent) q ∙ g ∙ ap (ladder n (suc i) side price) b,
        ap (λ o. o.0.manager.connection) q ∙ h ∙ c,
        ap (λ o. o.0.active) q
            ∙ l
            ∙ ap₂ (λ x y. x ++ next_ids n (length y)) d b
            ∙ append_assoc s.active (ids (length s.manager.sent) ∷ []) _,
      )

  -- `Start` over a REST connection whose exchange accepts every order: it returns; it has sent a
  -- BUY for each level below and then a SELL for each level above, at the base price times
  -- `1 ∓ step * i` and with the configured quantity, and nothing else; and the active orders are
  -- those of before and then the exchange's ids, in the order of the requests.
  pub start_lem :
      (s : Strategy D)
      → is_rest s.manager.connection ≡ true
      → let (t, answer) = start D (accepts_all ids) cfg cp grow s in
        let below_count = pos_part cfg.levels_below in
        let above_count = pos_part cfg.levels_above in
        let lower =
          ladder below_count 1 buy_side
            (level_below D (accepts_all ids) cfg cp grow)
            s.manager.sent in
        ((k : ℕ) × (answer ≡ Outcome.returned k))
        × (t.manager.sent
            ≡ ladder above_count 1 sell_side (level_above D (accepts_all ids) cfg cp grow) lower)
        × (t.active
            ≡ (s.active ++ next_ids below_count (length s.manager.sent))
              ++ next_ids above_count (length lower))
  unfolding start
  start_lem s r =
      let exchange = accepts_all ids in
      let f = λ (t : Strategy D) (k : ℕ).
        start_levels D exchange cfg cp grow (pos_part cfg.levels_above) 1 sell_side
          (level_above D exchange cfg cp grow) t in
      let n = pos_part cfg.levels_below in
      let price = level_below D exchange cfg cp grow in
      let first = start_levels D exchange cfg cp grow n 1 buy_side price s in
      let ((j, a), b, c, d) = start_levels_lem n 1 buy_side price s r in
      let q = follow-returned first f j a in
      let ((k, e), g, h, l) =
        start_levels_lem (pos_part cfg.levels_above) 1 sell_side
          (level_above D exchange cfg cp grow) first.0 (ap is_rest c ∙ r) in
      (
        (k, ap (λ o. o.1) q ∙ e),
        ap (λ o. o.0.manager.sent) q
            ∙ g
            ∙ ap
                (ladder (pos_part cfg.levels_above) 1 sell_side
                  (level_above D exchange cfg cp grow))
                b,
        ap (λ o. o.0.active) q
            ∙ l
            ∙ ap₂ (λ x y. x ++ next_ids (pos_part cfg.levels_above) (length y)) d b,
      )
