-- ===== src/Grid/Visit.antt =====
-- One round of the loop of `GridStrategy::CheckFilledOrders`: which hedge it places for a filled
-- and for a partly filled order, and what it does to the vector that it runs over.
use spot_grid_bot.Base.{
  ℕ, suc, length-append, ◌≡◌, ◌≤◌, ◌<◌, refl, inl, inr, Bool, true, false, not, ◌&&◌, none, some,
  [], ◌∷◌, ◌++◌, arith, if◌then◌else◌, length, ◌∙◌, ap, sym, Bool-cases, Option-cases,
}
use spot_grid_bot.Base.Dict.{lookup, insert, lookup_or, lookup-insert_self}
use spot_grid_bot.Base.Double.{Double}
use spot_grid_bot.FixTypes.{buy_side, sell_side, is_buy}
use spot_grid_bot.Instrument.{CurrencyPair, Currency}
use spot_grid_bot.Orders.{
  Manager, Order, OrderStatus, Request, Outcome, is_rest, zero_f, place_limit_order, note_reply,
  get_order_local, get_balance,
}
use spot_grid_bot.Grid.{
  GridConfig, Strategy, OrderDetails, round, details_of, touch_details, above, below, placed, track,
  place_hedge, visit_filled, hedge_part, visit_part, visit, visit_as,
}
use spot_grid_bot.Grid.Start.{accepts_all}
use spot_grid_bot.Grid.Known.{Remembers, visit_as-Remembers}

module _ (D : Double) (cfg : GridConfig D) (cp : CurrencyPair) (grow : ℕ → ℕ) (ids : ℕ → ℕ) where
  abbrev pub up : D.F → D.F
  up price = above D (accepts_all ids) cfg cp grow price

  abbrev pub down : D.F → D.F
  down price = below D (accepts_all ids) cfg cp grow price

  -- The hedge of an order: the other side, one step away, for a quantity
  abbrev pub hedge : OrderDetails D → D.F → OrderDetails D
  hedge d qty =
      if is_buy d.side
      then record { side = sell_side; price = up d.price; qty = qty }
      else record { side = buy_side; price = down d.price; qty = qty }

  abbrev pub request_of : OrderDetails D → Request D
  request_of h = record { instrument = cp; side = h.side; price = h.price; quantity = h.qty }

  abbrev pub balance_of : Strategy D → Currency → D.F
  balance_of s c = lookup_or (zero_f D) c s.manager.balance

  -- Whether the balances allow the hedge of a filled order
  abbrev pub allowed : Strategy D → OrderDetails D → Bool
  allowed s d =
      if is_buy d.side
      then not (D.lt (round D cfg.max_position) (balance_of s cp.base_ccy))
      else not (D.lt (round D (balance_of s cp.quote_ccy)) (D.mul (down d.price) d.qty))

  -- Whether they allow the hedge of a new part
  abbrev pub allowed_part : Strategy D → OrderDetails D → D.F → Bool
  allowed_part s d delta =
      if is_buy d.side
      then D.le (balance_of s cp.base_ccy) (round D cfg.max_position)
      else D.le (D.mul (down d.price) delta) (round D (balance_of s cp.quote_ccy))

  -- The vector's capacity and the connection stay.
  unfoldable pub Frame : Strategy D → Strategy D → Type 0
  Frame s t = (t.capacity ≡ s.capacity) × (t.manager.connection ≡ s.manager.connection)

  -- A hedge `h` was sent and tracked under the exchange's next id, and nothing else was.
  unfoldable pub Hedged : Strategy D → OrderDetails D → Strategy D → Type 0
  Hedged s h t =
      (t.manager.sent ≡ request_of h ∷ s.manager.sent)
      × (t.active ≡ s.active ++ (ids (length s.manager.sent) ∷ []))
      × (lookup (ids (length s.manager.sent)) t.details ≡ some h)
      × Frame s t

  -- No hedge was sent and none is tracked.
  unfoldable pub Unhedged : Strategy D → Strategy D → Type 0
  Unhedged s t = (t.manager.sent ≡ s.manager.sent) × (t.active ≡ s.active) × Frame s t

  place_hedge_lem :
      (s : Strategy D) (h : OrderDetails D) (remove : Bool)
      → is_rest s.manager.connection ≡ true
      → length s.active < s.capacity
      → let (t, answer) =
          place_hedge D (accepts_all ids) cfg cp grow s h.side h.price h.qty remove in
        (answer ≡ Outcome.returned remove) × Hedged s h t
  unfolding place_hedge placed track place_limit_order note_reply Hedged Frame
  place_hedge_lem s h remove r room = (
    ground arith,
    (
      ground arith,
      ground arith,
      ground (arith, lookup-insert_self (ids (length s.manager.sent)) h s.details),
      (ground arith, ground arith),
    ),
  )

  -- The decision on a hedge once the balance is read: `test` tells whether it is left out.
  abbrev pub decide :
      Strategy D
      → (D.F → Bool)
      → OrderDetails D
      → Bool
      → Manager D × D.F
      → Strategy D × Outcome Bool
  decide s test h remove (m, b) =
      if test b
      then (record s { manager = m }, Outcome.returned remove)
      else place_hedge D (accepts_all ids) cfg cp grow (record s { manager = m }) h.side h.price
          h.qty remove

  pub get_balance_lem :
      (m : Manager D) (c : Currency)
      → ((get_balance D m c).1 ≡ lookup_or (zero_f D) c m.balance)
        × ((get_balance D m c).0.sent ≡ m.sent)
        × ((get_balance D m c).0.connection ≡ m.connection)
  unfolding get_balance
  get_balance_lem m c = (ground arith, ground arith, ground arith)

  -- What `decide` does, with the sent orders and the active ones of an earlier state `s`
  decide_lem :
      (s u : Strategy D) (test : D.F → Bool) (h : OrderDetails D) (remove : Bool) (m : Manager D)
      (b : D.F)
      → u.active ≡ s.active
      → u.capacity ≡ s.capacity
      → m.sent ≡ s.manager.sent
      → m.connection ≡ s.manager.connection
      → is_rest s.manager.connection ≡ true
      → length s.active < s.capacity
      → let (t, answer) = decide u test h remove (m, b) in
        (answer ≡ Outcome.returned remove) × (if not (test b) then Hedged s h t else Unhedged s t)
  unfolding Hedged Unhedged Frame
  decide_lem s u test h remove m b a c e f r room = elim (Bool-cases (test b)) [
    | inl t ↦ rw t (refl, (e, a, (c, f)))
    | inr t ↦
        let (x, (y, z, w, (v, n))) =
          place_hedge_lem (record u { manager = m }) h remove (ap is_rest f ∙ r) (rw (a, c) room) in
        rw (t, sym e, sym a) (x, (y, z, w, (v ∙ c, n ∙ f)))
  ]

  -- `decide_lem` with the balance that the manager has
  decide_balance :
      (s u : Strategy D) (test : D.F → Bool) (h : OrderDetails D) (remove : Bool) (c : Currency)
      → u.active ≡ s.active
      → u.capacity ≡ s.capacity
      → is_rest s.manager.connection ≡ true
      → length s.active < s.capacity
      → let (t, answer) = decide u test h remove (get_balance D s.manager c) in
        (answer ≡ Outcome.returned remove)
        × (if not (test (balance_of s c)) then Hedged s h t else Unhedged s t)
  decide_balance s u test h remove c a e r room =
      let (x, y, z) = get_balance_lem s.manager c in
      let (m, b) = get_balance D s.manager c in
      rw (sym x) (decide_lem s u test h remove m b a e y z r room)

  visit_filled_lem :
      (s : Strategy D) (id : ℕ)
      → is_rest s.manager.connection ≡ true
      → length s.active < s.capacity
      → let d = details_of D s id in
        let (t, answer) = visit_filled D (accepts_all ids) cfg cp grow s id in
        (answer ≡ Outcome.returned true)
        × (if allowed s d then Hedged s (hedge d d.qty) t else Unhedged s t)
  unfolding visit_filled
  visit_filled_lem s id r room =
      let d = details_of D s id in
      elim (Bool-cases (is_buy d.side)) [
        | inl e ↦ rw e (
            decide_balance s (touch_details D s id) (λ b. D.lt (round D cfg.max_position) b)
              (record { side = sell_side; price = up d.price; qty = d.qty }) true cp.base_ccy refl
              refl r room)
        | inr e ↦ rw e (
            decide_balance s (touch_details D s id)
              (λ b. D.lt (round D b) (D.mul (down d.price) d.qty))
              (record { side = buy_side; price = down d.price; qty = d.qty }) true cp.quote_ccy refl
              refl r room)
      ]

  -- The decision on the hedge of a new part: `ok` tells whether it is placed.
  abbrev pub decide_part :
      Strategy D → (D.F → Bool) → OrderDetails D → Manager D × D.F → Strategy D × Outcome Bool
  decide_part u ok h (m, b) =
      if ok b
      then place_hedge D (accepts_all ids) cfg cp grow (record u { manager = m }) h.side h.price
          h.qty false
      else (record u { manager = m }, Outcome.returned false)

  decide_part_lem :
      (s u : Strategy D) (ok : D.F → Bool) (h : OrderDetails D) (c : Currency)
      → u.active ≡ s.active
      → u.capacity ≡ s.capacity
      → is_rest s.manager.connection ≡ true
      → length s.active < s.capacity
      → let (t, answer) = decide_part u ok h (get_balance D s.manager c) in
        (answer ≡ Outcome.returned false)
        × (if ok (balance_of s c) then Hedged s h t else Unhedged s t)
  decide_part_lem s u ok h c a e r room =
      let (x, y, z) = get_balance_lem s.manager c in
      let (m, b) = get_balance D s.manager c in
      elim (Bool-cases (ok b)) [
        | inl t ↦ rw (sym x, t) (decide_lem s u (λ _. false) h false m b a e y z r room)
        | inr t ↦ rw (sym x, t) (decide_lem s u (λ _. true) h false m b a e y z r room)
      ]

  hedge_part_lem :
      (s : Strategy D) (id : ℕ) (filled delta : D.F)
      → is_rest s.manager.connection ≡ true
      → length s.active < s.capacity
      → let u : Strategy D = record s { known_fills = insert id filled s.known_fills } in
        let d = details_of D s id in
        let (t, answer) = hedge_part D (accepts_all ids) cfg cp grow u id delta in
        (answer ≡ Outcome.returned false)
        × (if allowed_part s d delta then Hedged s (hedge d delta) t else Unhedged s t)
  unfolding hedge_part
  hedge_part_lem s id filled delta r room =
      let u : Strategy D = record s { known_fills = insert id filled s.known_fills } in
      let d = details_of D s id in
      elim (Bool-cases (is_buy d.side)) [
        | inl e ↦ rw e (
            decide_part_lem s (touch_details D u id) (λ b. D.le b (round D cfg.max_position))
              (record { side = sell_side; price = up d.price; qty = delta }) cp.base_ccy refl refl r
              room)
        | inr e ↦ rw e (
            decide_part_lem s (touch_details D u id)
              (λ b. D.le (D.mul (down d.price) delta) (round D b))
              (record { side = buy_side; price = down d.price; qty = delta }) cp.quote_ccy refl refl
              r room)
      ]

  visit_part_lem :
      (s : Strategy D) (id : ℕ) (filled : D.F)
      → is_rest s.manager.connection ≡ true
      → length s.active < s.capacity
      → let d = details_of D s id in
        let delta = D.sub filled (lookup_or (zero_f D) id s.known_fills) in
        let (t, answer) = visit_part D (accepts_all ids) cfg cp grow s id filled in
        (answer ≡ Outcome.returned false)
        × (if not (D.eq (round D delta) (zero_f D)) && allowed_part s d delta
            then Hedged s (hedge d delta) t
            else Unhedged s t)
  unfolding visit_part Unhedged Frame
  visit_part_lem s id filled r room =
      let delta = D.sub filled (lookup_or (zero_f D) id s.known_fills) in
      elim (Bool-cases (D.eq (round D delta) (zero_f D))) [
        | inl e ↦ rw e (refl, (refl, refl, (refl, refl)))
        | inr e ↦ rw e (hedge_part_lem s id filled delta r room)
      ]

  -- Which orders a round removes
  abbrev pub goes : OrderStatus → Bool
  goes OrderStatus.filled_order = true
  goes OrderStatus.canceled_order = true
  goes OrderStatus.rejected_order = true
  goes _ = false

  -- What a round does for an order of the manager's cache, by its status
  abbrev pub Effect : Strategy D → ℕ → D.F → OrderStatus → Strategy D → Type 0
  Effect s id filled OrderStatus.filled_order t =
      let d = details_of D s id in if allowed s d then Hedged s (hedge d d.qty) t else Unhedged s t
  Effect s id filled OrderStatus.partly_filled_order t =
      let d = details_of D s id in
      let delta = D.sub filled (lookup_or (zero_f D) id s.known_fills) in
      if not (D.eq (round D delta) (zero_f D)) && allowed_part s d delta
      then Hedged s (hedge d delta) t
      else Unhedged s t
  Effect s id filled _ t = t ≡ s

  visit_as_lem :
      (s : Strategy D) (id : ℕ) (filled : D.F) (status : OrderStatus)
      → is_rest s.manager.connection ≡ true
      → length s.active < s.capacity
      → let (t, answer) = visit_as D (accepts_all ids) cfg cp grow s id filled status in
        (answer ≡ Outcome.returned (goes status)) × Effect s id filled status t
  unfolding visit_as
  visit_as_lem s id filled OrderStatus.filled_order r room = visit_filled_lem s id r room
  visit_as_lem s id filled OrderStatus.partly_filled_order r room =
      visit_part_lem s id filled r room
  visit_as_lem s id filled OrderStatus.rejected_order r room = (refl, refl)
  visit_as_lem s id filled OrderStatus.canceled_order r room = (refl, refl)
  visit_as_lem s id filled OrderStatus.new_order r room = (refl, refl)

  -- One round for an order of the manager's cache, when the vector has room, over a REST
  -- connection whose exchange accepts every order. A filled order is marked for removal; exactly
  -- if the balances allow it, one order is sent: the other side, the tracked price one step
  -- away, the tracked quantity; it is tracked, with these details, under the exchange's id. A
  -- partly filled order stays; the same is done for the part of its fill beyond what is remembered
  -- of it, exactly if that part does not round to zero and the balances allow it. A rejected or
  -- canceled order is marked for removal and a new one stays, with nothing changed. Of a partly
  -- filled order whose part does not round to zero the round remembers the whole fill, whether it
  -- is hedged or not; what is remembered of any other order, and in any other case, stays.
  pub visit_lem :
      (s : Strategy D) (id : ℕ) (o : Order D)
      → is_rest s.manager.connection ≡ true
      → length s.active < s.capacity
      → get_order_local D s.manager id ≡ some o
      → let (t, answer) = visit D (accepts_all ids) cfg cp grow s id in
        (answer ≡ Outcome.returned (goes o.status))
        × Effect s id o.filled o.status t
        × Remembers D cfg cp grow ids s id o.filled o.status t
  unfolding visit
  visit_lem s id o r room e =
      let (a, b) = visit_as_lem s id o.filled o.status r room in
      rw (visit, e) (a, b, visit_as-Remembers D cfg cp grow ids s id o.filled o.status)

  -- A tracked order that the manager does not know is passed over: nothing is sent or changed,
  -- and the order stays tracked.
  pub visit_unknown :
      (s : Strategy D) (id : ℕ)
      → get_order_local D s.manager id ≡ none
      → visit D (accepts_all ids) cfg cp grow s id ≡ (s, Outcome.returned false)
  unfolding visit
  visit_unknown s id e = rw (visit, e) refl

  -- A round adds at most one order to the vector, and keeps its capacity and the connection.
  unfoldable pub Grows : Strategy D → Strategy D → Type 0
  Grows s t = (length t.active ≤ suc (length s.active)) × Frame s t

  same-Grows : (s t : Strategy D) → t ≡ s → Grows s t
  unfolding Grows Frame
  same-Grows s t e = rw e (ground arith, (refl, refl))

  hedge_if-Grows :
      (s t : Strategy D) (b : Bool) (h : OrderDetails D)
      → (if b then Hedged s h t else Unhedged s t)
      → Grows s t
  unfolding Grows Hedged Unhedged Frame
  hedge_if-Grows s t true h (_, a, _, f) =
      (ground (arith, length-append s.active (ids (length s.manager.sent) ∷ [])), f)
  hedge_if-Grows s t false h (_, a, f) = (rw a (ground arith), f)

  Effect-Grows :
      (s : Strategy D) (id : ℕ) (filled : D.F) (status : OrderStatus) (t : Strategy D)
      → Effect s id filled status t
      → Grows s t
  Effect-Grows s id filled OrderStatus.filled_order t e =
      hedge_if-Grows s t (allowed s (details_of D s id)) _ e
  Effect-Grows s id filled OrderStatus.partly_filled_order t e = hedge_if-Grows s t _ _ e
  Effect-Grows s id filled OrderStatus.rejected_order t e = same-Grows s t e
  Effect-Grows s id filled OrderStatus.canceled_order t e = same-Grows s t e
  Effect-Grows s id filled OrderStatus.new_order t e = same-Grows s t e

  pub visit-Grows :
      (s : Strategy D) (id : ℕ)
      → is_rest s.manager.connection ≡ true
      → length s.active < s.capacity
      → let (t, answer) = visit D (accepts_all ids) cfg cp grow s id in
        ((b : Bool) × (answer ≡ Outcome.returned b)) × Grows s t
  visit-Grows s id r room = elim (Option-cases (get_order_local D s.manager id)) [
    | inl e ↦ rw (visit_unknown s id e) ((false, refl), same-Grows s s refl)
    | inr (o, e) ↦
        let (a, b, _) = visit_lem s id o r room e in
        ((goes o.status, a), Effect-Grows s id o.filled o.status _ b)
  ]
