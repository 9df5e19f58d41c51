-- ===== src/Rates/Complete.antt =====
-- The search finds a path wherever there is a route, which is a path that visits no currency twice.
use spot_grid_bot.Base.{
  ℕ, zero, suc, ◌≡◌, refl, subst, ap, ◌⊎◌, inl, inr, true, false, not, ◌&&◌, Option, none, some,
  List, [], ◌∷◌, arith, ◌==◌, Bool-cases, Option-cases, is_some, has,
}
use spot_grid_bot.Instrument.{Currency, CurrencyPair, pair_valid, pair_lt}
use spot_grid_bot.Rates.{
  find_at, emplace_at, same_key, PathMap, pair_of, add_path, better_path, extend_path, sub_paths,
  search_path,
}
use spot_grid_bot.Rates.Finding.{IsValidPair, KeysValid, same_key_refl, same_key→eq}
use spot_grid_bot.Rates.Paths.{IsDirect}

module _ {ℓ} {V : Type ℓ} (bid_rates : List (CurrencyPair × V)) where
  -- A way by direct rates that comes back to none of the ignored currencies and to none of its own
  pub data Route (q : Currency) : List Currency → Currency → Type 0 where
    last_step :
        {ignored : List Currency} {a : Currency} → IsDirect bid_rates a q → Route q ignored a
    step_to :
        {ignored : List Currency} {a : Currency} (b : Currency)
        → IsDirect bid_rates a b
        → has (a ∷ ignored) b ≡ false
        → Route q (a ∷ ignored) b
        → Route q ignored a

  Route-cases :
      {q : Currency} {ignored : List Currency} {a : Currency}
      → Route q ignored a
      → IsDirect bid_rates a q
        ⊎ ((b : Currency) × IsDirect bid_rates a b
            × (has (a ∷ ignored) b ≡ false)
            × Route q (a ∷ ignored) b)
  Route-cases (last_step d) = inl d
  Route-cases (step_to b d fresh r) = inr (b, d, fresh, r)

  -- The rates of a route have its ends as currencies.
  pub Route-ends :
      (P : Currency → Type 0)
      → ((a b : Currency) → IsDirect bid_rates a b → P a × P b)
      → {q : Currency} {ignored : List Currency} {a : Currency} → Route q ignored a
      → P a × P q
  Route-ends P known (last_step {ignored} {a} d) = known a _ d
  Route-ends P known (step_to {ignored} {a} b d fresh r) =
      ((known a b d).0, (Route-ends P known r).1)

valid_step :
    (a b q : Currency)
    → IsValidPair (pair_of a b)
    → IsValidPair (pair_of a q)
    → IsValidPair (pair_of b q)
unfolding pair_valid
valid_step a b q h k = ground arith

better_path_some :
    (p q : Option (List Currency)) → is_some q ≡ true → is_some (better_path p q) ≡ true
unfolding better_path
better_path_some none q h = h
better_path_some (some p) none h = refl
better_path_some (some p) (some q) h = ground arith

better_path_found :
    (p q : Option (List Currency)) → is_some p ≡ true → is_some (better_path p q) ≡ true
unfolding better_path
better_path_found none q h = cc
better_path_found (some p) none h = refl
better_path_found (some p) (some q) h = ground arith

found-emplace_at {ℓ} :
    {V : Type ℓ} (cp : CurrencyPair) (v : V) (m : List (CurrencyPair × V))
    → is_some (find_at cp (emplace_at cp v m)) ≡ true
unfolding find_at emplace_at
found-emplace_at cp v [] = rw (same_key_refl cp) refl
found-emplace_at cp v ((k, w) ∷ m) = elim (Bool-cases (same_key k cp)) [
  | inl same ↦ rw (same, same) refl
  | inr other ↦ elim (Bool-cases (pair_lt cp k)) [
    | inl below ↦ rw (other, below, same_key_refl cp) refl
    | inr above ↦ rw (other, above, other) (found-emplace_at cp v m)
  ]
]

extend_path_found :
    (cp : CurrencyPair) (paths : PathMap) (best : Option (List Currency))
    → is_some best ≡ true
    → is_some (extend_path cp (paths, best)).1 ≡ true
unfolding extend_path add_path
extend_path_found cp paths none h = cc
extend_path_found cp paths (some p) h = found-emplace_at cp (cp.base_ccy ∷ p) paths

some-fst {ℓ} :
    {A : Type ℓ} {x y : A} {f g : Option (List Currency)}
    → ◌≡◌ {A = Option (A × Option (List Currency))} (some (x, f)) (some (y, g))
    → is_some f ≡ true
    → is_some g ≡ true
some-fst e h = ground arith

module _ {ℓ} {V : Type ℓ} (bid_rates : List (CurrencyPair × V))
    (look : CurrencyPair → PathMap → Option (PathMap × Option (List Currency))) (cp : CurrencyPair)
    (ignored : List Currency) where
  -- A best path is replaced by paths only.
  sub_paths_keep :
      (rest : List (CurrencyPair × V)) (best : Option (List Currency)) (paths paths' : PathMap)
      (found : Option (List Currency))
      → is_some best ≡ true
      → sub_paths bid_rates look cp ignored rest best paths ≡ some (paths', found)
      → is_some found ≡ true
  unfolding sub_paths
  sub_paths_keep [] best paths paths' found h e = some-fst e h
  sub_paths_keep ((k, v) ∷ rest) best paths paths' found h e =
      elim (Bool-cases ((k.base_ccy == cp.base_ccy) && not (has ignored k.quote_ccy))) [
        | inr no_step ↦ sub_paths_keep rest best paths paths' found h (rw (no_step, sub_paths) at e)
        | inl is_step ↦ elim (Option-cases (look (pair_of k.quote_ccy cp.quote_ccy) paths)) [
          | inl fails ↦ cc (rw (is_step, sub_paths, fails) at e)
          | inr ((paths'', sub), finds) ↦
              sub_paths_keep rest (better_path sub best) paths'' paths' found
                (better_path_some sub best h) (rw (is_step, sub_paths, finds) at e)
        ]
      ]

  -- A direct rate to a currency from where the search finds a path gives a path.
  sub_paths_found :
      (b : Currency) (rest : List (CurrencyPair × V)) (best : Option (List Currency))
      (paths paths' : PathMap) (found : Option (List Currency))
      → ((p p' : PathMap) (f : Option (List Currency))
          → look (pair_of b cp.quote_ccy) p ≡ some (p', f)
          → is_some f ≡ true)
      → KeysValid rest
      → IsValidPair (pair_of cp.base_ccy b)
      → is_some (find_at (pair_of cp.base_ccy b) rest) ≡ true
      → has ignored b ≡ false
      → sub_paths bid_rates look cp ignored rest best paths ≡ some (paths', found)
      → is_some found ≡ true
  unfolding sub_paths find_at
  sub_paths_found b [] best paths paths' found looks keys valid there fresh e = cc
  sub_paths_found b ((k, v) ∷ rest) best paths paths' found looks keys valid there fresh e =
      elim (Bool-cases (same_key k (pair_of cp.base_ccy b))) [
        | inl same ↦
            let is_it = same_key→eq k (pair_of cp.base_ccy b) keys.0 valid same in
            let is_base : k.base_ccy ≡ cp.base_ccy = ap (λ x. x.base_ccy) is_it in
            let is_b : k.quote_ccy ≡ b = ap (λ x. x.quote_ccy) is_it in
            let is_step : (k.base_ccy == cp.base_ccy) && not (has ignored k.quote_ccy) ≡ true =
              rw (is_base, is_b, fresh) (ground arith) in
            elim (Option-cases (look (pair_of k.quote_ccy cp.quote_ccy) paths)) [
              | inl fails ↦ cc (rw (is_step, sub_paths, fails) at e)
              | inr ((paths'', sub), finds) ↦
                  sub_paths_keep rest (better_path sub best) paths'' paths' found
                    (better_path_found sub best (
                      looks paths paths'' sub (
                        subst (λ x. look (pair_of x cp.quote_ccy) paths ≡ some (paths'', sub)) is_b
                          finds)))
                    (rw (is_step, sub_paths, finds) at e)
            ]
        | inr other ↦
            elim (Bool-cases ((k.base_ccy == cp.base_ccy) && not (has ignored k.quote_ccy))) [
              | inr no_step ↦
                  sub_paths_found b rest best paths paths' found looks keys.1 valid
                    (rw other at there) fresh (rw (no_step, sub_paths) at e)
              | inl is_step ↦ elim (Option-cases (look (pair_of k.quote_ccy cp.quote_ccy) paths)) [
                | inl fails ↦ cc (rw (is_step, sub_paths, fails) at e)
                | inr ((paths'', sub), finds) ↦
                    sub_paths_found b rest (better_path sub best) paths'' paths' found looks keys.1
                      valid (rw other at there) fresh (rw (is_step, sub_paths, finds) at e)
              ]
            ]
      ]

module _ {ℓ} {V : Type ℓ} (bid_rates : List (CurrencyPair × V)) where
  -- A search of a valid pair that ends finds a path, if there is a route.
  pub search_path_found :
      (fuel : ℕ) (ignored : List Currency) (cp : CurrencyPair) (paths paths' : PathMap)
      (found : Option (List Currency))
      → KeysValid bid_rates
      → IsValidPair cp
      → Route bid_rates cp.quote_ccy ignored cp.base_ccy
      → search_path bid_rates fuel ignored cp paths ≡ some (paths', found)
      → is_some found ≡ true
  unfolding search_path
  search_path_found zero ignored cp paths paths' found keys valid route e = cc
  search_path_found (suc fuel) ignored cp paths paths' found keys valid route e =
      elim (Option-cases (find_at cp paths)) [
        | inr (p, e1) ↦ some-fst (rw (valid, e1) at e) refl
        | inl e1 ↦ elim (Option-cases (find_at cp bid_rates)) [
          | inr (r, e2) ↦
              some-fst (rw (valid, e1, e2, add_path) at e)
                (found-emplace_at cp (cp.base_ccy ∷ cp.quote_ccy ∷ []) paths)
          | inl e2 ↦
              elim (Option-cases (
                sub_paths bid_rates (search_path bid_rates fuel (cp.base_ccy ∷ ignored)) cp
                  (cp.base_ccy ∷ ignored) bid_rates none paths)) [
                    | inl fails ↦ cc (rw (valid, e1, e2, fails) at e)
                    | inr ((paths'', best), ends) ↦ some-fst (rw (valid, e1, e2, ends) at e) (
                        extend_path_found cp paths'' best (elim (Route-cases bid_rates route) [
                          | inl d ↦ cc (rw e2 at d.0)
                          | inr (b, d, fresh, route') ↦
                              sub_paths_found bid_rates
                                (search_path bid_rates fuel (cp.base_ccy ∷ ignored)) cp
                                (cp.base_ccy ∷ ignored) b bid_rates none paths paths'' best
                                (λ p p' f.
                                  search_path_found fuel (cp.base_ccy ∷ ignored)
                                    (pair_of b cp.quote_ccy) p p' f keys
                                    (valid_step cp.base_ccy b cp.quote_ccy d.1 valid) route')
                                keys d.1 d.0 fresh ends
                        ]))
                  ]
        ]
      ]
