-- ===== src/Rates/Search.antt =====
-- The search for a path ends, and what it finds are paths.
use spot_grid_bot.Base.{
  ℕ, zero, suc, ◌≤◌, ◌<◌, ◌≡◌, refl, ap, inl, inr, true, false, not, ◌&&◌, Option, none, some, List,
  [], ◌∷◌, arith, ◌==◌, Bool-cases, Option-cases, All, is_some, length, has, keep,
}
use spot_grid_bot.Instrument.{Currency, CurrencyPair, pair_valid}
use spot_grid_bot.Rates.{
  find_at, same_key, PathMap, pair_of, add_path, better_path, extend_path, sub_paths, search_path,
}
use spot_grid_bot.Rates.Finding.{same_key_refl}
use spot_grid_bot.Rates.Paths.{
  IsDirect, PathsOk, Answers, Continues, better_path-Continues, Answers-Continues, find_at-Answers,
  add_path-PathsOk, extend_path-PathsOk,
}

-- How many currencies are not ignored: each step of the search ignores one more.
abbrev pub open_currencies : List Currency → List Currency → ℕ
open_currencies currencies ignored = length (keep (λ c. not (has ignored c)) currencies)

open_currencies_le :
    (currencies ignored : List Currency) (b : Currency)
    → open_currencies currencies (b ∷ ignored) ≤ open_currencies currencies ignored
open_currencies_le [] ignored b = omega arith
open_currencies_le (c ∷ l) ignored b = ground (arith, open_currencies_le l ignored b)

open_currencies_lt :
    (currencies ignored : List Currency) (b : Currency)
    → has currencies b ≡ true
    → has ignored b ≡ false
    → open_currencies currencies (b ∷ ignored) < open_currencies currencies ignored
open_currencies_lt [] ignored b h k = cc
open_currencies_lt (c ∷ l) ignored b h k =
    ground (arith, open_currencies_lt l ignored b, open_currencies_le l ignored b)

module _ {ℓ} {V : Type ℓ} where
  -- Every entry of a map is found.
  found_later :
      (m : List (CurrencyPair × V)) (e : CurrencyPair × V) (l : List (CurrencyPair × V))
      → All (λ x. is_some (find_at x.0 m) ≡ true) l
      → All (λ x. is_some (find_at x.0 (e ∷ m)) ≡ true) l
  unfolding find_at
  found_later m e [] h = tt
  found_later m e (x ∷ l) h = (
    elim (Bool-cases (same_key e.0 x.0)) [ inl s ↦ rw s refl | inr n ↦ rw n h.0 ],
    found_later m e l h.1,
  )

  pub All-found : (m : List (CurrencyPair × V)) → All (λ e. is_some (find_at e.0 m) ≡ true) m
  unfolding find_at
  All-found [] = tt
  All-found (e ∷ m) = (rw (same_key_refl e.0) refl, found_later m e m (All-found m))

module _ {ℓ} {V : Type ℓ} (bid_rates : List (CurrencyPair × V)) (currencies : List Currency) where
  -- A direct rate of the map, whose second currency is in the set
  abbrev pub IsKnown : CurrencyPair × V → Type 0
  IsKnown e = IsDirect bid_rates e.0.base_ccy e.0.quote_ccy × (has currencies e.0.quote_ccy ≡ true)

  -- The search for a pair ends, keeps the map of paths, and answers with a path of the pair.
  abbrev pub Ends : CurrencyPair → Option (PathMap × Option (List Currency)) → Type 0
  Ends cp result =
      (paths : PathMap) × (found : Option (List Currency)) × (result ≡ some (paths, found))
      × PathsOk bid_rates paths
      × Answers bid_rates cp found

  -- What the loop gives: the best rest of a path
  abbrev pub Gives : CurrencyPair → Option (PathMap × Option (List Currency)) → Type 0
  Gives cp result =
      (paths : PathMap) × (best : Option (List Currency)) × (result ≡ some (paths, best))
      × PathsOk bid_rates paths
      × Continues bid_rates cp best

  sub_paths-Gives :
      (look : CurrencyPair → PathMap → Option (PathMap × Option (List Currency)))
      (cp : CurrencyPair) (ignored : List Currency) (rest : List (CurrencyPair × V))
      (best : Option (List Currency)) (paths : PathMap)
      → ((k : CurrencyPair) (paths : PathMap)
          → has currencies k.base_ccy ≡ true
          → has ignored k.base_ccy ≡ false
          → PathsOk bid_rates paths
          → Ends k (look k paths))
      → All IsKnown rest
      → Continues bid_rates cp best
      → PathsOk bid_rates paths
      → Gives cp (sub_paths bid_rates look cp ignored rest best paths)
  unfolding sub_paths
  sub_paths-Gives look cp ignored [] best paths ends known c ok = (paths, best, refl, ok, c)
  sub_paths-Gives look cp ignored ((k, v) ∷ rest) best paths ends known c ok =
      elim (Bool-cases ((k.base_ccy == cp.base_ccy) && not (has ignored k.quote_ccy))) [
        | inr e ↦
            rw (e, sub_paths) (sub_paths-Gives look cp ignored rest best paths ends known.1 c ok)
        | inl e ↦
            let open_quote : has ignored k.quote_ccy ≡ false = ground arith in
            let same : k.base_ccy ≡ cp.base_ccy = ground arith in
            let (paths', found, e', ok', a) =
              ends (pair_of k.quote_ccy cp.quote_ccy) paths known.0.1 open_quote ok in
            rw (e, sub_paths, e')
              (sub_paths-Gives look cp ignored rest (better_path found best) paths' ends known.1
                (better_path-Continues bid_rates cp found best
                  (Answers-Continues bid_rates cp k.quote_ccy found (rw (← same) known.0.0) a) c)
                ok')
      ]

  -- With more fuel than there are currencies that are not ignored, the search ends.
  pub search_path-Ends :
      (fuel : ℕ) (ignored : List Currency) (cp : CurrencyPair) (paths : PathMap)
      → All IsKnown bid_rates
      → open_currencies currencies ignored < fuel
      → has currencies cp.base_ccy ≡ true
      → has ignored cp.base_ccy ≡ false
      → PathsOk bid_rates paths
      → Ends cp (search_path bid_rates fuel ignored cp paths)
  unfolding search_path
  search_path-Ends zero ignored cp paths known f h k ok = absurd (omega arith)
  search_path-Ends (suc fuel) ignored cp paths known f h k ok = elim (Bool-cases (pair_valid cp)) [
    | inr e ↦ rw e (paths, none, refl, ok, tt)
    | inl e ↦ rw e (elim (Option-cases (find_at cp paths)) [
      | inr (p, e1) ↦
          rw e1 (paths, some p, refl, ok, find_at-Answers bid_rates cp paths (some p) ok e e1)
      | inl e1 ↦ rw e1 (elim (Option-cases (find_at cp bid_rates)) [
        | inr (r, e2) ↦
            let direct : IsDirect bid_rates cp.base_ccy cp.quote_ccy = (ap is_some e2, e) in
            let (ok', a) =
              add_path-PathsOk bid_rates cp paths (cp.base_ccy ∷ cp.quote_ccy ∷ []) ok e
                (refl, direct, (refl, refl)) in
            rw e2 (
              (add_path paths cp (cp.base_ccy ∷ cp.quote_ccy ∷ [])).0,
              (add_path paths cp (cp.base_ccy ∷ cp.quote_ccy ∷ [])).1,
              refl,
              ok',
              a,
            )
        | inl e2 ↦
            let (paths', best, e3, ok', c) =
              sub_paths-Gives (search_path bid_rates fuel (cp.base_ccy ∷ ignored)) cp
                (cp.base_ccy ∷ ignored) bid_rates none paths
                (λ j paths'' hj kj ok''.
                  search_path-Ends fuel (cp.base_ccy ∷ ignored) j paths'' known
                    (omega (arith, open_currencies_lt currencies ignored cp.base_ccy h k)) hj kj
                    ok'')
                known tt ok in
            let (ok3, a) = extend_path-PathsOk bid_rates cp paths' best ok' e c in
            rw (e2, e3)
              ((extend_path cp (paths', best)).0, (extend_path cp (paths', best)).1, refl, ok3, a)
      ])
    ])
  ]
