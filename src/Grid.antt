-- ===== src/Grid.antt =====
-- `STRATEGY::GridStrategy` of lib/gridbot/include/GridStrategy.h and lib/gridbot/src/GridStrategy.cpp,
-- `GridConfig` of lib/gridbot/include/GridConfig.h and `UTILS::Round` of
-- lib/utils/include/Utils/Round.h. The strategy owns its manager, whose operations are those of
-- Orders. A vector has a capacity: `push_back` beyond it moves the elements, so that a reference
-- to one of them dangles.
pub mod Known
pub mod Visit
pub mod Start
pub mod Check
pub mod Overflow
pub mod Twice
pub mod Tests
use spot_grid_bot.Base.{
  ℕ, zero, suc, Bool, true, false, not, ◌||◌, Option, none, some, List, [], ◌∷◌, ◌++◌, ◌+◌, ◌==◌,
  ltb, keep, if◌then◌else◌, length,
}
use spot_grid_bot.Base.Int.{ℤ, pos, pos_part}
use spot_grid_bot.Base.Dict.{Dict, lookup, insert, erase, lookup_or}
use spot_grid_bot.Base.Double.{Double}
use spot_grid_bot.FixTypes.{Side, buy_side, sell_side, invalid_side, is_buy}
use spot_grid_bot.Instrument.{CurrencyPair}
use spot_grid_bot.Orders.{
  Manager, Order, OrderStatus, follow, Outcome, Reply, zero_f, place_limit_order, get_order_local,
  get_balance,
}

module _ (D : Double) where
  -- `UTILS::Round` with its default of four decimal places
  unfoldable pub round : D.F → D.F
  round value =
      let multi = D.of_int (pos 10_000) in
      let rounded = D.div (D.floor (D.add (D.mul (D.fabs value) multi) (D.literal 5 1))) multi in
      if D.lt value (zero_f D) then D.neg rounded else rounded

  -- `GridConfig`
  pub record GridConfig : Type 0 where
    pub base_price : D.F
    pub levels_below : ℤ
    pub levels_above : ℤ
    pub step_percent : D.F
    pub percent_order_qty : D.F
    pub max_position : D.F

  -- `GridStrategy::OrderDetails`
  pub record OrderDetails : Type 0 where
    pub side : Side
    pub price : D.F
    pub qty : D.F

  -- `m_orderManager`, `m_activeOrders` with its capacity, `m_orderDetails` and `m_knownFills`
  pub record Strategy : Type 0 where
    pub manager : Manager D
    pub active : List ℕ
    pub capacity : ℕ
    pub details : Dict OrderDetails
    pub known_fills : Dict D.F

  -- What `operator[]` enters for a missing key
  abbrev pub no_details : OrderDetails
  no_details = record { side = invalid_side; price = zero_f D; qty = zero_f D }

  abbrev pub one_f : D.F
  one_f = D.of_int (pos 1)

  -- `m_orderDetails[id]` and `m_knownFills[id]`, read
  abbrev pub touch_details : Strategy → ℕ → Strategy
  touch_details s id = record s {
    details = insert id (lookup_or no_details id s.details) s.details;
  }

  abbrev pub details_of : Strategy → ℕ → OrderDetails
  details_of s id = lookup_or no_details id s.details

  abbrev pub touch_fill : Strategy → ℕ → Strategy
  touch_fill s id = record s {
    known_fills = insert id (lookup_or (zero_f D) id s.known_fills) s.known_fills;
  }

  -- The exchange's answers, the configuration, the instrument, and how a full vector grows
  module _ (exchange : ℕ → Reply) (cfg : GridConfig) (cp : CurrencyPair) (grow : ℕ → ℕ) where
    abbrev pub above : D.F → D.F
    above price = D.mul price (D.add one_f cfg.step_percent)

    abbrev pub below : D.F → D.F
    below price = D.mul price (D.sub one_f cfg.step_percent)

    -- `push_back` and the entry of the details, as `Start` does them
    unfoldable pub append_order : Strategy → ℕ → OrderDetails → Strategy
    append_order s id d = record s {
      active = s.active ++ (id ∷ []);
      capacity = if ltb (length s.active) s.capacity then s.capacity else grow s.capacity;
      details = insert id d s.details;
    }

    -- The same inside the loop of `CheckFilledOrders`, which refers to the vector's elements
    unfoldable pub track : Strategy → ℕ → OrderDetails → Strategy × Outcome ℕ
    track s id d =
        if ltb (length s.active) s.capacity
        then (
          record s { active = s.active ++ (id ∷ []); details = insert id d s.details },
          Outcome.returned id,
        )
        else (s, Outcome.undefined)

    -- The call of `PlaceLimitOrder` on the manager
    unfoldable pub placed : Strategy → Side → D.F → D.F → Strategy × Outcome ℕ
    placed s side price qty =
        let (m, answer) = place_limit_order D exchange s.manager cp side price qty in
        (record s { manager = m }, answer)

    -- One round of the loops of `Start`
    unfoldable pub start_level : Strategy → Side → D.F → Strategy × Outcome ℕ
    unfolding append_order placed
    start_level s side price = follow (placed s side price cfg.percent_order_qty) λ t id. (
      append_order t id (record { side = side; price = price; qty = cfg.percent_order_qty }),
      Outcome.returned id,
    )

    abbrev pub level_below : ℕ → D.F
    level_below i = D.mul cfg.base_price (D.sub one_f (D.mul cfg.step_percent (D.of_int (pos i))))

    abbrev pub level_above : ℕ → D.F
    level_above i = D.mul cfg.base_price (D.add one_f (D.mul cfg.step_percent (D.of_int (pos i))))

    -- The loop `for (i = first; …; i++)` with `n` rounds
    unfoldable pub start_levels : ℕ → ℕ → Side → (ℕ → D.F) → Strategy → Strategy × Outcome ℕ
    start_levels zero i side price s = (s, Outcome.returned 0)
    start_levels (suc n) i side price s =
        follow (start_level s side (price i)) λ t _. start_levels n (suc i) side price t

    -- `Start`
    unfoldable pub start : Strategy → Strategy × Outcome ℕ
    start s =
        follow (start_levels (pos_part cfg.levels_below) 1 buy_side level_below s)
          λ t _. start_levels (pos_part cfg.levels_above) 1 sell_side level_above t

    -- A hedge: the order is placed and tracked. The result says whether the order that it
    -- hedges is to be removed.
    unfoldable pub place_hedge : Strategy → Side → D.F → D.F → Bool → Strategy × Outcome Bool
    unfolding track placed
    place_hedge s side price qty remove = follow (placed s side price qty) λ t id.
        follow (track t id (record { side = side; price = price; qty = qty }))
          λ u _. (u, Outcome.returned remove)

    -- Case 1 of the loop: a filled order
    unfoldable pub visit_filled : Strategy → ℕ → Strategy × Outcome Bool
    visit_filled s id =
        let d = details_of s id in
        let s' = touch_details s id in
        if is_buy d.side
        then (let (m, base) = get_balance D s'.manager cp.base_ccy in
            let t : Strategy = record s' { manager = m } in
            if D.lt (round cfg.max_position) base
            then (t, Outcome.returned true)
            else place_hedge t sell_side (above d.price) d.qty true)
        else (let (m, quote) = get_balance D s'.manager cp.quote_ccy in
            let t : Strategy = record s' { manager = m } in
            if D.lt (round quote) (D.mul (below d.price) d.qty)
            then (t, Outcome.returned true)
            else place_hedge t buy_side (below d.price) d.qty true)

    -- The hedge of a new part of a fill
    unfoldable pub hedge_part : Strategy → ℕ → D.F → Strategy × Outcome Bool
    hedge_part s id delta =
        let d = details_of s id in
        let s' = touch_details s id in
        if is_buy d.side
        then (let (m, base) = get_balance D s'.manager cp.base_ccy in
            let t : Strategy = record s' { manager = m } in
            if D.le base (round cfg.max_position)
            then place_hedge t sell_side (above d.price) delta false
            else (t, Outcome.returned false))
        else (let (m, quote) = get_balance D s'.manager cp.quote_ccy in
            let t : Strategy = record s' { manager = m } in
            if D.le (D.mul (below d.price) delta) (round quote)
            then place_hedge t buy_side (below d.price) delta false
            else (t, Outcome.returned false))

    -- Case 2 of the loop: a partly filled order
    unfoldable pub visit_part : Strategy → ℕ → D.F → Strategy × Outcome Bool
    visit_part s id filled =
        let known = lookup_or (zero_f D) id s.known_fills in
        let delta = D.sub filled known in
        if D.eq (round delta) (zero_f D)
        then (touch_fill s id, Outcome.returned false)
        else hedge_part (record s { known_fills = insert id filled s.known_fills }) id delta

    -- The three cases of the loop, for an order's filled size and status
    unfoldable pub visit_as : Strategy → ℕ → D.F → OrderStatus → Strategy × Outcome Bool
    visit_as s id filled OrderStatus.filled_order = visit_filled s id
    visit_as s id filled OrderStatus.partly_filled_order = visit_part s id filled
    visit_as s id filled OrderStatus.rejected_order = (s, Outcome.returned true)
    visit_as s id filled OrderStatus.canceled_order = (s, Outcome.returned true)
    visit_as s id filled OrderStatus.new_order = (s, Outcome.returned false)

    -- One round of the loop of `CheckFilledOrders`; the result says whether the order goes.
    unfoldable pub visit : Strategy → ℕ → Strategy × Outcome Bool
    visit s id = elim (get_order_local D s.manager id) [
      | none ↦ (s, Outcome.returned false)
      | some o ↦ visit_as s id o.filled o.status
    ]

    -- The loop, over the elements that the vector has at its start, with what it leaves in `toRemove`
    unfoldable pub visit_all : Strategy → List ℕ → Strategy × Outcome (List ℕ)
    visit_all s [] = (s, Outcome.returned [])
    visit_all s (id ∷ ids) =
        follow (visit s id) λ t gone.
          follow (visit_all t ids) λ u l. (u, Outcome.returned (if gone then id ∷ l else l))

    -- One round of the removal at the end
    unfoldable pub forget : Strategy → ℕ → Strategy
    forget s id = record s {
      active = keep (λ j. not (j == id)) s.active;
      details = erase id s.details;
      known_fills = erase id s.known_fills;
    }

    unfoldable pub forget_all : Strategy → List ℕ → Strategy
    unfolding forget
    forget_all s [] = s
    forget_all s (id ∷ ids) = forget_all (forget s id) ids

    -- `CheckFilledOrders`
    unfoldable pub check_filled_orders : Strategy → Strategy × Outcome ℕ
    check_filled_orders s =
        follow (visit_all s s.active) λ t l. (forget_all t l, Outcome.returned (length l))
