-- ===== src/Rates/Product.antt =====
-- What GetBidRate answers.
use spot_grid_bot.Base.{
  ℕ, suc, ◌≤◌, ◌≡◌, refl, sym, subst, inl, inr, true, false, ◌&&◌, Option, none, some, List, [],
  ◌∷◌, arith, ◌==◌, if◌then◌else◌, Bool-cases, Option-cases, All, is_some, has, length,
}
use spot_grid_bot.Base.Double.{Double}
use spot_grid_bot.Instrument.{Currency, CurrencyPair, pair_valid, currency_valid, invalid_currency}
use spot_grid_bot.Rates.{
  RateManager, find_at, PathMap, pair_of, get_path, rate_along, rate_of_path, get_bid_rate,
  zero_rate, one_rate,
}
use spot_grid_bot.Rates.Finding.{IsValidPair, KeysValid, All-find_at}
use spot_grid_bot.Rates.Paths.{IsDirect, IsPath, IsPath-head, PathsOk, Answers}
use spot_grid_bot.Rates.Search.{IsKnown, search_path-Ends, open_currencies, All-found}
use spot_grid_bot.Rates.Complete.{Route, Route-ends, search_path_found}
use spot_grid_bot.Rates.Setting.{IsWell, IsIn}

module _ (D : Double) (bid_rates : List (CurrencyPair × D.F)) where
  -- The rate of one step: 1 to the same currency, else the direct rate
  abbrev pub step_rate : Currency → Currency → D.F
  step_rate a b =
      if a == b
      then one_rate D
      else elim (find_at (pair_of a b) bid_rates) [ some r ↦ r | none ↦ zero_rate D ]

  -- The product of the rates of the steps, from the left
  abbrev pub product : D.F → Currency → List Currency → D.F
  product acc a [] = acc
  product acc a (b ∷ l) = product (D.mul acc (step_rate a b)) b l

  abbrev pub product_of : List Currency → D.F
  product_of [] = zero_rate D
  product_of (a ∷ l) = product (one_rate D) a l

  -- A valid pair of two currencies that has no direct rate
  pub record IsIndirect (cp : CurrencyPair) : Type 0 where
    pub is_pair : pair_valid cp ≡ true
    pub two_currencies : (cp.base_ccy == cp.quote_ccy) ≡ false
    pub no_direct_rate : find_at cp bid_rates ≡ none

  -- What the bid rate of a pair is, by the direct rates: no two of the cases hold of one pair but
  -- the last two, of which `no_route` is only without a route.
  pub data BidRate (cp : CurrencyPair) (rate : D.F) : Type 0 where
    no_pair : pair_valid cp ≡ false → rate ≡ zero_rate D → BidRate cp rate
    same_currency :
        pair_valid cp ≡ true → cp.base_ccy ≡ cp.quote_ccy → rate ≡ one_rate D → BidRate cp rate
    direct :
        pair_valid cp ≡ true
        → (cp.base_ccy == cp.quote_ccy) ≡ false
        → find_at cp bid_rates ≡ some rate
        → BidRate cp rate
    along :
        (path : List Currency)
        → IsIndirect cp
        → IsPath bid_rates cp.base_ccy cp.quote_ccy path
        → rate ≡ product_of path
        → BidRate cp rate
    no_route :
        IsIndirect cp
        → (Route bid_rates cp.quote_ccy [] cp.base_ccy → ⊥)
        → rate ≡ zero_rate D
        → BidRate cp rate

module _ (D : Double) where
  valid_fst : (a b : Currency) → IsValidPair (pair_of a b) → (a == invalid_currency) ≡ false
  unfolding pair_valid currency_valid
  valid_fst a b h = ground arith

  -- One step of a path is read without another search.
  get_bid_rate-step :
      (fuel : ℕ) (a b : Currency) (m : RateManager D)
      → IsDirect m.bid_rates a b
      → get_bid_rate D (suc fuel) (pair_of a b) m ≡ some (m, step_rate D m.bid_rates a b)
  unfolding get_bid_rate
  get_bid_rate-step fuel a b m (d, v) = elim (Bool-cases (a == b)) [
    | inl same ↦ rw (v, same) refl
    | inr other ↦ elim (Option-cases (find_at (pair_of a b) m.bid_rates)) [
      | inr (r, e) ↦ rw (v, other, e) refl
      | inl e ↦ cc (rw e at d)
    ]
  ]

  rate_along-product :
      (fuel : ℕ) (q : Currency) (c : Currency) (l : List Currency) (acc : D.F) (m : RateManager D)
      → IsPath m.bid_rates c q (c ∷ l)
      → rate_along D (get_bid_rate D (suc fuel)) c l acc m ≡ some (m, product D m.bid_rates acc c l)
  unfolding rate_along
  rate_along-product fuel q c [] acc m p = refl
  rate_along-product fuel q c (d ∷ l) acc m p =
      rw (valid_fst c d p.1.1, rate_along, get_bid_rate-step fuel c d m p.1)
        (rate_along-product fuel q d l (D.mul acc (step_rate D m.bid_rates c d)) m p.2)

  rate_of_path-product :
      (fuel : ℕ) (a q : Currency) (m : RateManager D) (paths : PathMap) (p : List Currency)
      → IsPath m.bid_rates a q p
      → rate_of_path D (get_bid_rate D (suc fuel)) m (some (paths, some p))
        ≡ some (record m { paths = paths }, product_of D m.bid_rates p)
  unfolding rate_of_path
  rate_of_path-product fuel a q m paths [] h = absurd h
  rate_of_path-product fuel a q m paths (c ∷ l) h =
      rate_along-product fuel q c l (one_rate D) (record m { paths = paths })
        (subst (λ x. IsPath m.bid_rates x q (c ∷ l)) (sym (IsPath-head m.bid_rates a q c l h)) h)

  All-IsKnown :
      (m : RateManager D) (l : List (CurrencyPair × D.F))
      → All (λ e. is_some (find_at e.0 m.bid_rates) ≡ true) l
      → KeysValid l
      → All (λ e. IsIn m.currencies e.0) l
      → All (IsKnown m.bid_rates m.currencies) l
  All-IsKnown m [] f v k = tt
  All-IsKnown m (e ∷ l) f v k = (((f.0, v.0), k.0.1), All-IsKnown m l f.1 v.1 k.1)

  all_open : (l : List Currency) → open_currencies l [] ≤ length l
  all_open [] = omega arith
  all_open (c ∷ l) = ground (arith, all_open l)

  direct-IsIn :
      (m : RateManager D) (a b : Currency)
      → IsWell D m
      → IsDirect m.bid_rates a b
      → IsIn m.currencies (pair_of a b)
  direct-IsIn m a b w (d, v) = elim (Option-cases (find_at (pair_of a b) m.bid_rates)) [
    | inl e ↦ cc (rw e at d)
    | inr (r, e) ↦
        All-find_at (λ x. IsIn m.currencies x.0) m.bid_rates (pair_of a b) r w.known w.valid v e
  ]

  -- GetPath ends; it keeps the map of paths, and finds a path of the pair wherever there is a route.
  pub get_path_lem :
      (m : RateManager D) (cp : CurrencyPair)
      → IsWell D m
      → IsValidPair cp
      → (paths : PathMap) × (found : Option (List Currency)) × (get_path D m cp
          ≡ some (paths, found))
        × PathsOk m.bid_rates paths
        × Answers m.bid_rates cp found
        × (Route m.bid_rates cp.quote_ccy [] cp.base_ccy → is_some found ≡ true)
  unfolding get_path
  get_path_lem m cp w v =
      elim (Bool-cases (has m.currencies cp.base_ccy && has m.currencies cp.quote_ccy)) [
        | inl e ↦
            let (paths, found, ends, ok, a) =
              search_path-Ends m.bid_rates m.currencies (suc (length m.currencies)) [] cp m.paths
                (All-IsKnown m m.bid_rates (All-found m.bid_rates) w.valid w.known)
                (omega (arith, all_open m.currencies)) (ground arith) refl w.paths_ok in
            rw e (
              paths,
              found,
              ends,
              ok,
              a,
              λ route.
                  search_path_found m.bid_rates (suc (length m.currencies)) [] cp m.paths paths
                    found w.valid v route ends,
            )
        | inr e ↦ rw e (
          m.paths,
          none,
          refl,
          w.paths_ok,
          tt,
          λ route.
              let (b, q) =
                Route-ends m.bid_rates (λ c. has m.currencies c ≡ true)
                  (λ a b d. direct-IsIn m a b w d) route in
              ground arith,
        )
      ]

  -- The end of GetBidRate, after GetPath
  rate_of_path-BidRate :
      (m : RateManager D) (cp : CurrencyPair) (paths : PathMap) (found : Option (List Currency))
      → IsWell D m
      → IsIndirect D m.bid_rates cp
      → PathsOk m.bid_rates paths
      → Answers m.bid_rates cp found
      → (Route m.bid_rates cp.quote_ccy [] cp.base_ccy → is_some found ≡ true)
      → (m' : RateManager D) × (rate : D.F) × (rate_of_path D
            (get_bid_rate D 1)
            m
            (some (paths, found))
          ≡ some (m', rate))
        × IsWell D m'
        × (m'.bid_rates ≡ m.bid_rates)
        × BidRate D m.bid_rates cp rate
  unfolding rate_of_path
  rate_of_path-BidRate m cp paths none w i ok a complete = (
    record m { paths = paths },
    zero_rate D,
    refl,
    record { valid = w.valid; known = w.known; paths_ok = ok },
    refl,
    no_route i (λ route. cc (complete route)) refl,
  )
  rate_of_path-BidRate m cp paths (some p) w i ok a complete = (
    record m { paths = paths },
    product_of D m.bid_rates p,
    rate_of_path-product 0 cp.base_ccy cp.quote_ccy m paths p a,
    record { valid = w.valid; known = w.known; paths_ok = ok },
    refl,
    along p i a refl,
  )

-- GetBidRate returns, with two levels of calls of itself: 0 for a pair that is not valid, 1 within a
-- currency, the direct rate where there is one, else the product of the direct rates along a path
-- from the base to the quote currency; 0 only if there is no route, that is, no path that visits no
-- currency twice. It changes only the map of paths, and keeps the manager's invariant.
pub get_bid_rate_lem :
    (D : Double) (m : RateManager D) (cp : CurrencyPair)
    → IsWell D m
    → (m' : RateManager D) × (rate : D.F) × (get_bid_rate D 2 cp m ≡ some (m', rate))
      × IsWell D m'
      × (m'.bid_rates ≡ m.bid_rates)
      × BidRate D m.bid_rates cp rate
unfolding get_bid_rate
get_bid_rate_lem D m cp w = elim (Bool-cases (pair_valid cp)) [
  | inr e ↦ rw e (m, zero_rate D, refl, w, refl, no_pair e refl)
  | inl v ↦ rw v (elim (Bool-cases (cp.base_ccy == cp.quote_ccy)) [
    | inl same ↦ rw same (m, one_rate D, refl, w, refl, same_currency v (ground arith) refl)
    | inr other ↦ rw other (elim (Option-cases (find_at cp m.bid_rates)) [
      | inr (r, e) ↦ rw e (m, r, refl, w, refl, direct v other e)
      | inl e ↦
          let (paths, found, ends, ok, a, complete) = get_path_lem D m cp w v in
          rw (e, ends)
            (rate_of_path-BidRate D m cp paths found w
              (record { is_pair = v; two_currencies = other; no_direct_rate = e }) ok a complete)
    ])
  ])
]
