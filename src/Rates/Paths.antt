-- ===== src/Rates/Paths.antt =====
-- Paths of direct rates, and the map of the paths that were found.
use spot_grid_bot.Base.{
  ◌≡◌, refl, sym, subst, inl, inr, true, Option, none, some, List, [], ◌∷◌, Bool-cases, All,
  is_some, ltb, length,
}
use spot_grid_bot.Instrument.{Currency, CurrencyPair}
use spot_grid_bot.Rates.{find_at, emplace_at, PathMap, pair_of, add_path, better_path, extend_path}
use spot_grid_bot.Rates.Finding.{IsValidPair, KeysValid, All-find_at, All-emplace_at}

module _ {ℓ} {V : Type ℓ} (bid_rates : List (CurrencyPair × V)) where
  -- There is a direct rate from one currency to the other, and both are valid.
  abbrev pub IsDirect : Currency → Currency → Type 0
  IsDirect a b = (is_some (find_at (pair_of a b) bid_rates) ≡ true) × IsValidPair (pair_of a b)

  -- A list of currencies leads from the first to the second by direct rates.
  abbrev pub IsPath : Currency → Currency → List Currency → Type 0
  IsPath a q [] = ⊥
  IsPath a q (c ∷ []) = (c ≡ a) × (c ≡ q)
  IsPath a q (c ∷ d ∷ l) = (c ≡ a) × IsDirect c d × IsPath d q (d ∷ l)

  pub IsPath-head : (a q c : Currency) (l : List Currency) → IsPath a q (c ∷ l) → c ≡ a
  IsPath-head a q c [] h = h.0
  IsPath-head a q c (d ∷ l) h = h.0

  -- The map has valid pairs, each with a path between its currencies.
  pub record PathsOk (paths : PathMap) : Type 0 where
    pub valid : KeysValid paths
    pub lead : All (λ e. IsPath e.0.base_ccy e.0.quote_ccy e.1) paths

  -- What a search for a pair may answer: nothing, or a path of the pair.
  abbrev pub Answers : CurrencyPair → Option (List Currency) → Type 0
  Answers cp none = Unit
  Answers cp (some p) = IsPath cp.base_ccy cp.quote_ccy p

  -- What may be the best rest of a path: nothing, or a path from a direct neighbour.
  abbrev pub Continues : CurrencyPair → Option (List Currency) → Type 0
  Continues cp none = Unit
  Continues cp (some []) = ⊥
  Continues cp (some (c ∷ l)) = IsDirect cp.base_ccy c × IsPath c cp.quote_ccy (c ∷ l)

  pub better_path-Continues :
      (cp : CurrencyPair) (p q : Option (List Currency))
      → Continues cp p
      → Continues cp q
      → Continues cp (better_path p q)
  unfolding better_path
  better_path-Continues cp none q hp hq = hq
  better_path-Continues cp (some p) none hp hq = hp
  better_path-Continues cp (some p) (some q) hp hq = elim (Bool-cases (ltb (length p) (length q))) [
    | inl e ↦ rw e hp
    | inr e ↦ rw e hq
  ]

  -- A path that was found from a neighbour continues the pair's.
  pub Answers-Continues :
      (cp : CurrencyPair) (c : Currency) (p : Option (List Currency))
      → IsDirect cp.base_ccy c
      → Answers (pair_of c cp.quote_ccy) p
      → Continues cp p
  Answers-Continues cp c none d h = tt
  Answers-Continues cp c (some []) d h = h
  Answers-Continues cp c (some (e ∷ l)) d h =
      let same = IsPath-head c cp.quote_ccy e l h in
      (rw same d, subst (λ x. IsPath x cp.quote_ccy (e ∷ l)) (sym same) h)

  pub find_at-Answers :
      (cp : CurrencyPair) (paths : PathMap) (found : Option (List Currency))
      → PathsOk paths
      → IsValidPair cp
      → find_at cp paths ≡ found
      → Answers cp found
  find_at-Answers cp paths none ok v e = tt
  find_at-Answers cp paths (some p) ok v e =
      All-find_at (λ x. IsPath x.0.base_ccy x.0.quote_ccy x.1) paths cp p ok.lead ok.valid v e

  -- Adding a path keeps the map so, and gives one for the pair.
  pub add_path-PathsOk :
      (cp : CurrencyPair) (paths : PathMap) (p : List Currency)
      → PathsOk paths
      → IsValidPair cp
      → IsPath cp.base_ccy cp.quote_ccy p
      → PathsOk (add_path paths cp p).0 × Answers cp (add_path paths cp p).1
  unfolding add_path
  add_path-PathsOk cp paths p ok v h =
      let ok' : PathsOk (emplace_at cp p paths) = record {
        valid = All-emplace_at (λ x. IsValidPair x.0) paths cp p v ok.valid;
        lead = All-emplace_at (λ x. IsPath x.0.base_ccy x.0.quote_ccy x.1) paths cp p h ok.lead;
      } in
      (ok', find_at-Answers cp (emplace_at cp p paths) _ ok' v refl)

  pub extend_path-PathsOk :
      (cp : CurrencyPair) (paths : PathMap) (best : Option (List Currency))
      → PathsOk paths
      → IsValidPair cp
      → Continues cp best
      → PathsOk (extend_path cp (paths, best)).0 × Answers cp (extend_path cp (paths, best)).1
  unfolding extend_path
  extend_path-PathsOk cp paths none ok v h = (ok, tt)
  extend_path-PathsOk cp paths (some []) ok v h = absurd h
  extend_path-PathsOk cp paths (some (c ∷ l)) ok v h =
      add_path-PathsOk cp paths (cp.base_ccy ∷ c ∷ l) ok v (refl, h.0, h.1)
