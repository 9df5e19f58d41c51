-- ===== src/Grid/Check.antt =====
-- `GridStrategy::CheckFilledOrders` of lib/gridbot/src/GridStrategy.cpp as a whole: when it
-- returns, and what the removal at its end leaves.
use spot_grid_bot.Base.{
  ℕ, ◌≡◌, ◌≤◌, refl, Bool, true, not, none, List, [], ◌∷◌, ◌+◌, ◌*◌, arith, ◌==◌, if◌then◌else◌,
  length, keep, has, ◌∙◌, ap, sym,
}
use spot_grid_bot.Base.Dict.{lookup, lookup-erase}
use spot_grid_bot.Base.Double.{Double}
use spot_grid_bot.Instrument.{CurrencyPair}
use spot_grid_bot.Orders.{Outcome, is_rest, follow, follow-returned}
use spot_grid_bot.Grid.{
  GridConfig, Strategy, visit, visit_all, forget, forget_all, check_filled_orders,
}
use spot_grid_bot.Grid.Start.{accepts_all}
use spot_grid_bot.Grid.Visit.{Grows, Frame, visit-Grows}

module _ (D : Double) (cfg : GridConfig D) (cp : CurrencyPair) (grow : ℕ → ℕ) (ids : ℕ → ℕ) where
  keep-has :
      (k : ℕ) (l : List ℕ) (v : List ℕ)
      → keep (λ j. not (has l j)) (keep (λ j. not (j == k)) v) ≡ keep (λ j. not (has (k ∷ l) j)) v
  keep-has k l [] = refl
  keep-has k l (j ∷ v) = ground (arith, keep-has k l v)

  keep_all : (v : List ℕ) → keep (λ j. not (has [] j)) v ≡ v
  keep_all [] = refl
  keep_all (j ∷ v) = ap (λ l. j ∷ l) (keep_all v)

  -- The removal at the end of `CheckFilledOrders`: of the vector exactly the elements that are not
  -- in the given list stay, in their order, the details and the known fills lose exactly the keys
  -- of the list, and the manager stays.
  pub forget_all_lem :
      (l : List ℕ) (s : Strategy D)
      → let t = forget_all D (accepts_all ids) cfg cp grow s l in
        (t.active ≡ keep (λ j. not (has l j)) s.active)
        × ((j : ℕ) → lookup j t.details ≡ (if has l j then none else lookup j s.details))
        × ((j : ℕ) → lookup j t.known_fills ≡ (if has l j then none else lookup j s.known_fills))
        × (t.manager ≡ s.manager)
  unfolding forget_all forget
  forget_all_lem [] s = (sym (keep_all s.active), (λ j. refl), (λ j. refl), refl)
  forget_all_lem (k ∷ l) s =
      let (a, b, c, d) = forget_all_lem l (forget D (accepts_all ids) cfg cp grow s k) in
      (
        a ∙ keep-has k l s.active,
        (λ j. ground (arith, b j, lookup-erase j k s.details)),
        (λ j. ground (arith, c j, lookup-erase j k s.known_fills)),
        d,
      )

  visit_all_returns :
      (l : List ℕ) (s : Strategy D)
      → is_rest s.manager.connection ≡ true
      → length s.active + length l ≤ s.capacity
      → let (t, answer) = visit_all D (accepts_all ids) cfg cp grow s l in
        (gone : List ℕ) × (answer ≡ Outcome.returned gone)
  unfolding visit_all Grows Frame
  visit_all_returns [] s r room = ([], refl)
  visit_all_returns (id ∷ l) s r room =
      let exchange = accepts_all ids in
      let ((b, a), (g, (c, d))) = visit-Grows D cfg cp grow ids s id r (ground arith) in
      let t = (visit D exchange cfg cp grow s id).0 in
      let (gone, e) = visit_all_returns l t (ap is_rest d ∙ r) (ground arith) in
      let step : Strategy D → Bool → Strategy D × Outcome (List ℕ) = λ t b.
        follow (visit_all D exchange cfg cp grow t l)
          λ u k. (u, Outcome.returned (if b then id ∷ k else k)) in
      let last : Strategy D → List ℕ → Strategy D × Outcome (List ℕ) =
        λ u k. (u, Outcome.returned (if b then id ∷ k else k)) in
      (
        if b then id ∷ gone else gone,
        ap (λ o. o.1) (follow-returned (visit D exchange cfg cp grow s id) step b a)
            ∙ ap (λ o. o.1) (follow-returned (visit_all D exchange cfg cp grow t l) last gone e),
      )

  -- `CheckFilledOrders` returns when the vector has room for one more order per tracked order,
  -- over a REST connection whose exchange accepts every order.
  pub check_filled_orders_returns :
      (s : Strategy D)
      → is_rest s.manager.connection ≡ true
      → 2 * length s.active ≤ s.capacity
      → (n : ℕ) × ((check_filled_orders D (accepts_all ids) cfg cp grow s).1 ≡ Outcome.returned n)
  unfolding check_filled_orders
  check_filled_orders_returns s r room =
      let exchange = accepts_all ids in
      let last : Strategy D → List ℕ → Strategy D × Outcome ℕ =
        λ t l. (forget_all D exchange cfg cp grow t l, Outcome.returned (length l)) in
      let (gone, e) = visit_all_returns s.active s r (ground arith) in
      (
        length gone,
        ap (λ o. o.1) (follow-returned (visit_all D exchange cfg cp grow s s.active) last gone e),
      )
