-- ===== src/Grid/Known.antt =====
-- `m_knownFills` of lib/gridbot/src/GridStrategy.cpp: what one round of `CheckFilledOrders` remembers of
-- a partial fill.
use spot_grid_bot.Base.{ℕ, ◌≡◌, refl, inl, inr, Bool, arith, ◌==◌, if◌then◌else◌, Bool-cases}
use spot_grid_bot.Base.Dict.{insert, lookup_or, lookup-insert}
use spot_grid_bot.Base.Double.{Double}
use spot_grid_bot.FixTypes.{Side}
use spot_grid_bot.Instrument.{CurrencyPair}
use spot_grid_bot.Orders.{OrderStatus, zero_f, place_limit_order, note_reply}
use spot_grid_bot.Grid.{
  GridConfig, Strategy, round, placed, track, place_hedge, visit_filled, hedge_part, visit_part,
  visit_as,
}
use spot_grid_bot.Grid.Start.{accepts_all}

module _ (D : Double) (cfg : GridConfig D) (cp : CurrencyPair) (grow : ℕ → ℕ) (ids : ℕ → ℕ) where
  abbrev pub known_of : Strategy D → ℕ → D.F
  known_of s id = lookup_or (zero_f D) id s.known_fills

  -- What is remembered of an order after a round
  abbrev pub known_after : Strategy D → ℕ → D.F → OrderStatus → D.F
  known_after s id filled OrderStatus.partly_filled_order =
      if D.eq (round D (D.sub filled (known_of s id))) (zero_f D) then known_of s id else filled
  known_after s id filled _ = known_of s id

  -- A round remembers this of its order, and of every other order what it did before.
  abbrev pub Remembers : Strategy D → ℕ → D.F → OrderStatus → Strategy D → Type 0
  Remembers s id filled status t =
      (j : ℕ) → known_of t j ≡ (if id == j then known_after s id filled status else known_of s j)

  place_hedge-known :
      (s : Strategy D) (side : Side) (price qty : D.F) (remove : Bool)
      → (place_hedge D (accepts_all ids) cfg cp grow s side price qty remove).0.known_fills
        ≡ s.known_fills
  unfolding place_hedge placed track place_limit_order note_reply
  place_hedge-known s side price qty remove = ground arith

  visit_filled-known :
      (s : Strategy D) (id : ℕ)
      → (visit_filled D (accepts_all ids) cfg cp grow s id).0.known_fills ≡ s.known_fills
  unfolding visit_filled
  visit_filled-known s id = grind (arith, place_hedge-known)

  hedge_part-known :
      (s : Strategy D) (id : ℕ) (delta : D.F)
      → (hedge_part D (accepts_all ids) cfg cp grow s id delta).0.known_fills ≡ s.known_fills
  unfolding hedge_part
  hedge_part-known s id delta = grind (arith, place_hedge-known)

  insert_known :
      (s : Strategy D) (id : ℕ) (filled : D.F) (j : ℕ)
      → lookup_or (zero_f D) j (insert id filled s.known_fills)
        ≡ (if id == j then filled else known_of s j)
  insert_known s id filled j = ground (arith, lookup-insert j id filled s.known_fills)

  unchanged-Remembers :
      (s t : Strategy D) (id : ℕ) (known : D.F)
      → t.known_fills ≡ s.known_fills
      → known ≡ known_of s id
      → (j : ℕ) → known_of t j ≡ (if id == j then known else known_of s j)
  unchanged-Remembers s t id known e k j = ground (arith, e, k)

  visit_part-Remembers :
      (s : Strategy D) (id : ℕ) (filled : D.F)
      → Remembers s id filled OrderStatus.partly_filled_order
          (visit_part D (accepts_all ids) cfg cp grow s id filled).0
  unfolding visit_part
  visit_part-Remembers s id filled j =
      elim (Bool-cases (D.eq (round D (D.sub filled (known_of s id))) (zero_f D))) [
        | inl e ↦ rw e (insert_known s id (known_of s id) j)
        | inr e ↦
            let u : Strategy D = record s { known_fills = insert id filled s.known_fills } in
            rw (e, hedge_part-known u id (D.sub filled (known_of s id)))
              (insert_known s id filled j)
      ]

  pub visit_as-Remembers :
      (s : Strategy D) (id : ℕ) (filled : D.F) (status : OrderStatus)
      → Remembers s id filled status (visit_as D (accepts_all ids) cfg cp grow s id filled status).0
  unfolding visit_as
  visit_as-Remembers s id filled OrderStatus.filled_order =
      unchanged-Remembers s (visit_filled D (accepts_all ids) cfg cp grow s id).0 id (known_of s id)
        (visit_filled-known s id) refl
  visit_as-Remembers s id filled OrderStatus.partly_filled_order = visit_part-Remembers s id filled
  visit_as-Remembers s id filled OrderStatus.rejected_order =
      unchanged-Remembers s s id (known_of s id) refl refl
  visit_as-Remembers s id filled OrderStatus.canceled_order =
      unchanged-Remembers s s id (known_of s id) refl refl
  visit_as-Remembers s id filled OrderStatus.new_order =
      unchanged-Remembers s s id (known_of s id) refl refl
