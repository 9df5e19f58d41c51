-- ===== src/Rates.antt =====
-- `CurrentRateManager` of lib/utils/src/CurrentRateManager.cpp: the direct bid rates, and the search
-- for a path of direct rates from one currency to another. A std::map is the list of its entries
-- in the order of its keys, and two keys are the same when neither is below the other. A set is a
-- list of its members, a vector that is only searched is a list whose last element is its head.
-- Each operation runs under the locks of the maps.
pub mod Finding
pub mod Paths
pub mod Search
pub mod Setting
pub mod Product
pub mod Complete
pub mod Tests
use spot_grid_bot.Base.{
  ℕ, zero, suc, Bool, true, false, not, ◌&&◌, ◌||◌, Option, none, some, List, [], ◌∷◌, ◌==◌, ltb,
  if◌then◌else◌, length, has,
}
use spot_grid_bot.Base.Int.{ℤ, pos}
use spot_grid_bot.Base.Dict.{Dict, lookup, insert}
use spot_grid_bot.Base.Double.{Double}
use spot_grid_bot.Instrument.{
  Currency, CurrencyPair, invalid_currency, pair_valid, pair_lt, reverse_pair,
}

unfoldable pub same_key : CurrencyPair → CurrencyPair → Bool
unfolding pair_lt
same_key a b = not (pair_lt a b || pair_lt b a)

module _ {ℓ} {V : Type ℓ} where
  -- `find` of a std::map
  unfoldable pub find_at : CurrencyPair → List (CurrencyPair × V) → Option V
  find_at cp [] = none
  find_at cp ((k, v) ∷ m) = if same_key k cp then some v else find_at cp m

  -- `emplace`, which keeps an entry that is there
  unfoldable pub emplace_at : CurrencyPair → V → List (CurrencyPair × V) → List (CurrencyPair × V)
  emplace_at cp v [] = (cp, v) ∷ []
  emplace_at cp v ((k, w) ∷ m) =
      if same_key k cp
      then (k, w) ∷ m
      else if pair_lt cp k
      then (cp, v) ∷ (k, w) ∷ m
      else (k, w) ∷ emplace_at cp v m

  -- `it->second = v`
  unfoldable pub assign_at : CurrencyPair → V → List (CurrencyPair × V) → List (CurrencyPair × V)
  assign_at cp v [] = []
  assign_at cp v ((k, w) ∷ m) = if same_key k cp then (k, v) ∷ m else (k, w) ∷ assign_at cp v m

-- `insert` of the set of currencies
unfoldable pub insert_currency : Currency → List Currency → List Currency
insert_currency c l = if has l c then l else c ∷ l

-- The paths from currency to currency that were found
abbrev pub PathMap : Type 0
PathMap = List (CurrencyPair × List Currency)

abbrev pub pair_of : Currency → Currency → CurrencyPair
pair_of a b = record { base_ccy = a; quote_ccy = b }

-- `AddPath`: what the map then has for the pair
unfoldable pub add_path : PathMap → CurrencyPair → List Currency → PathMap × Option (List Currency)
unfolding emplace_at find_at
add_path paths cp p = let paths' = emplace_at cp p paths in (paths', find_at cp paths')

-- `tmpSubPath && (!bestSubPath || tmpSubPath->size() < bestSubPath->size())`
unfoldable pub better_path :
    Option (List Currency) → Option (List Currency) → Option (List Currency)
better_path none best = best
better_path (some p) none = some p
better_path (some p) (some q) = if ltb (length p) (length q) then some p else some q

-- What is done with the best rest of a path
unfoldable pub extend_path :
    CurrencyPair → PathMap × Option (List Currency) → PathMap × Option (List Currency)
unfolding add_path
extend_path cp (paths, none) = (paths, none)
extend_path cp (paths, some p) = add_path paths cp (cp.base_ccy ∷ p)

module _ {ℓ} {V : Type ℓ} (bid_rates : List (CurrencyPair × V)) where
  -- The loop over the direct rates, over the search for the rest of a path; none when that runs out
  -- of fuel.
  unfoldable pub sub_paths :
      (CurrencyPair → PathMap → Option (PathMap × Option (List Currency)))
      → CurrencyPair
      → List Currency
      → List (CurrencyPair × V)
      → Option (List Currency)
      → PathMap
      → Option (PathMap × Option (List Currency))
  unfolding better_path
  sub_paths look cp ignored [] best paths = some (paths, best)
  sub_paths look cp ignored ((k, v) ∷ rest) best paths =
      elim ((k.base_ccy == cp.base_ccy) && not (has ignored k.quote_ccy)) [
        | true ↦ elim (look (pair_of k.quote_ccy cp.quote_ccy) paths) [
          | none ↦ none
          | some (paths', found) ↦ sub_paths look cp ignored rest (better_path found best) paths'
        ]
        | false ↦ sub_paths look cp ignored rest best paths
      ]

  -- `GetPath` with the list of currencies to ignore; none when the fuel runs out
  unfoldable pub search_path :
      ℕ → List Currency → CurrencyPair → PathMap → Option (PathMap × Option (List Currency))
  unfolding pair_valid find_at add_path sub_paths extend_path
  search_path zero ignored cp paths = none
  search_path (suc fuel) ignored cp paths =
      if pair_valid cp
      then elim (find_at cp paths) [
        | some p ↦ some (paths, some p)
        | none ↦ elim (find_at cp bid_rates) [
          | some r ↦ some (add_path paths cp (cp.base_ccy ∷ cp.quote_ccy ∷ []))
          | none ↦
              elim (sub_paths (search_path fuel (cp.base_ccy ∷ ignored)) cp (cp.base_ccy ∷ ignored)
                bid_rates none paths) [ none ↦ none | some found ↦ some (extend_path cp found) ]
        ]
      ]
      else some (paths, none)

module _ (D : Double) where
  -- The maps of the class and its set of currencies
  pub record RateManager : Type 0 where
    pub bid_rates : List (CurrencyPair × D.F)
    pub currencies : List Currency
    pub paths : PathMap
    pub dflt_mid_rates : List (CurrencyPair × D.F)

  abbrev pub zero_rate : D.F
  zero_rate = D.of_int (pos 0)

  abbrev pub one_rate : D.F
  one_rate = D.of_int (pos 1)

  -- `SetBidRate`
  unfoldable pub set_bid_rate : RateManager → CurrencyPair → D.F → RateManager × Bool
  unfolding find_at emplace_at assign_at insert_currency pair_valid
  set_bid_rate m cp rate =
      if D.lt zero_rate rate && pair_valid cp
      then elim (find_at cp m.bid_rates) [
        | some old ↦ (record m { bid_rates = assign_at cp rate m.bid_rates }, true)
        | none ↦ (
          record m {
            bid_rates = emplace_at cp rate m.bid_rates;
            currencies = insert_currency cp.quote_ccy (insert_currency cp.base_ccy m.currencies);
          },
          true,
        )
      ]
      else (m, false)

  -- `SetAskRate`
  unfoldable pub set_ask_rate : RateManager → CurrencyPair → D.F → RateManager × Bool
  unfolding set_bid_rate reverse_pair
  set_ask_rate m cp rate =
      if D.lt zero_rate rate
      then set_bid_rate m (reverse_pair cp) (D.div one_rate rate)
      else (m, false)

  -- `SetRate`
  unfoldable pub set_rate : RateManager → CurrencyPair → Bool → D.F → RateManager × Bool
  unfolding set_bid_rate set_ask_rate
  set_rate m cp bid rate = if bid then set_bid_rate m cp rate else set_ask_rate m cp rate

  -- `GetPath`. A round more than there are currencies is enough (Rates.Search).
  unfoldable pub get_path : RateManager → CurrencyPair → Option (PathMap × Option (List Currency))
  unfolding search_path
  get_path m cp =
      if has m.currencies cp.base_ccy && has m.currencies cp.quote_ccy
      then search_path m.bid_rates (suc (length m.currencies)) [] cp m.paths
      else some (m.paths, none)

  -- The loop of `GetBidRate` over a path, over the rate of a step; `last` is the currency before.
  unfoldable pub rate_along :
      (CurrencyPair → RateManager → Option (RateManager × D.F))
      → Currency
      → List Currency
      → D.F
      → RateManager
      → Option (RateManager × D.F)
  rate_along bid_rate last [] rate m = some (m, rate)
  rate_along bid_rate last (c ∷ rest) rate m = elim (last == invalid_currency) [
    | true ↦ rate_along bid_rate c rest rate m
    | false ↦ elim (bid_rate (pair_of last c) m) [
      | none ↦ none
      | some (m', r) ↦ rate_along bid_rate c rest (D.mul rate r) m'
    ]
  ]

  -- The end of `GetBidRate`, after `GetPath`
  unfoldable pub rate_of_path :
      (CurrencyPair → RateManager → Option (RateManager × D.F))
      → RateManager
      → Option (PathMap × Option (List Currency))
      → Option (RateManager × D.F)
  unfolding rate_along
  rate_of_path bid_rate m none = none
  rate_of_path bid_rate m (some (paths, none)) = some (record m { paths = paths }, zero_rate)
  rate_of_path bid_rate m (some (paths, some [])) = some (record m { paths = paths }, zero_rate)
  rate_of_path bid_rate m (some (paths, some (c ∷ p))) =
      rate_along bid_rate invalid_currency (c ∷ p) one_rate (record m { paths = paths })

  -- `GetBidRate`, with the depth of its calls of itself as fuel; two are enough (Rates.Product).
  unfoldable pub get_bid_rate : ℕ → CurrencyPair → RateManager → Option (RateManager × D.F)
  unfolding pair_valid find_at get_path rate_of_path
  get_bid_rate zero cp m = none
  get_bid_rate (suc fuel) cp m =
      if pair_valid cp
      then elim (cp.base_ccy == cp.quote_ccy) [
        | true ↦ some (m, one_rate)
        | false ↦ elim (find_at cp m.bid_rates) [
          | some rate ↦ some (m, rate)
          | none ↦ rate_of_path (get_bid_rate fuel) m (get_path m cp)
        ]
      ]
      else some (m, zero_rate)

  -- `GetAskRate`
  unfoldable pub get_ask_rate : CurrencyPair → RateManager → Option (RateManager × D.F)
  unfolding get_bid_rate reverse_pair
  get_ask_rate cp m = elim (get_bid_rate 2 (reverse_pair cp) m) [
    | none ↦ none
    | some (m', r) ↦ some (m', if D.eq r zero_rate then zero_rate else D.div one_rate r)
  ]

  -- `GetRate`
  unfoldable pub get_rate : CurrencyPair → Bool → RateManager → Option (RateManager × D.F)
  unfolding get_bid_rate get_ask_rate
  get_rate cp bid m = if bid then get_bid_rate 2 cp m else get_ask_rate cp m

  -- `GetMidRate`
  unfoldable pub get_mid_rate : CurrencyPair → RateManager → Option (RateManager × D.F)
  unfolding get_bid_rate get_ask_rate
  get_mid_rate cp m = elim (get_bid_rate 2 cp m) [
    | none ↦ none
    | some (m', bid) ↦ elim (get_ask_rate cp m') [
      | none ↦ none
      | some (m'', ask) ↦ some (m'', D.div (D.add bid ask) (D.of_int (pos 2)))
    ]
  ]

  -- The default rate of a currency against the dollar, 0 for one that the table does not have
  abbrev pub usd_rate : Dict D.F → Currency → D.F
  usd_rate usd c = elim (lookup c usd) [ some r ↦ r | none ↦ zero_rate ]

  -- `GetDfltMidRate`, over the table `m_dfltUSDToCCY`
  unfoldable pub get_dflt_mid_rate :
      Dict D.F → CurrencyPair → RateManager → Option (RateManager × D.F)
  unfolding find_at emplace_at get_mid_rate
  get_dflt_mid_rate usd cp m = elim (find_at cp m.dflt_mid_rates) [
    | some r ↦ some (m, r)
    | none ↦
        let quote = usd_rate usd cp.quote_ccy in
        let base = usd_rate usd cp.base_ccy in
        if D.lt zero_rate quote && D.lt zero_rate base
        then some (
          record m { dflt_mid_rates = emplace_at cp (D.div quote base) m.dflt_mid_rates },
          D.div quote base,
        )
        else elim (get_mid_rate cp m) [
          | none ↦ none
          | some (m', r) ↦ some (
            if D.lt zero_rate r
                then record m' { dflt_mid_rates = emplace_at cp r m'.dflt_mid_rates }
                else m',
            r,
          )
        ]
  ]

  -- The loop of `GetMidRates`, over the rates that are left
  unfoldable pub mid_rates_of :
      List (CurrencyPair × D.F)
      → List (CurrencyPair × D.F)
      → RateManager
      → Option (RateManager × List (CurrencyPair × D.F))
  unfolding get_ask_rate emplace_at
  mid_rates_of [] mids m = some (m, mids)
  mid_rates_of ((cp, rate) ∷ rest) mids m = elim (get_ask_rate cp m) [
    | none ↦ none
    | some (m', ask) ↦
        mid_rates_of rest (emplace_at cp (D.div (D.add rate ask) (D.of_int (pos 2))) mids) m'
  ]

  -- `GetMidRates`
  unfoldable pub get_mid_rates : RateManager → Option (RateManager × List (CurrencyPair × D.F))
  unfolding mid_rates_of
  get_mid_rates m = mid_rates_of m.bid_rates [] m

  -- `SetDfltMidRates`
  unfoldable pub set_dflt_mid_rates : RateManager → List (CurrencyPair × D.F) → RateManager
  set_dflt_mid_rates m rates = record m { dflt_mid_rates = rates }

  -- `AddDfltUSDToCCY`, which keeps an entry of the table that is there
  unfoldable pub add_dflt_usd_to_ccy : Dict D.F → Currency → D.F → Dict D.F
  add_dflt_usd_to_ccy usd c rate = elim (lookup c usd) [ some r ↦ usd | none ↦ insert c rate usd ]

  unfoldable pub new_manager : RateManager
  new_manager = record { bid_rates = []; currencies = []; paths = []; dflt_mid_rates = [] }

  -- Whether `MakeSnapshot` takes a pair, over the set of currencies
  unfoldable pub in_snapshot : List Currency → CurrencyPair → Bool
  in_snapshot [] cp = true
  in_snapshot (c ∷ l) cp = has (c ∷ l) cp.base_ccy && has (c ∷ l) cp.quote_ccy

  -- The loop of `MakeSnapshot`
  unfoldable pub copy_rates : List Currency → List (CurrencyPair × D.F) → RateManager → RateManager
  unfolding in_snapshot set_bid_rate
  copy_rates restricted [] snapshot = snapshot
  copy_rates restricted ((cp, rate) ∷ rest) snapshot =
      copy_rates restricted rest
        (if in_snapshot restricted cp then (set_bid_rate snapshot cp rate).0 else snapshot)

  -- `MakeSnapshot`
  unfoldable pub make_snapshot : RateManager → List Currency → RateManager
  unfolding copy_rates new_manager
  make_snapshot m restricted = copy_rates restricted m.bid_rates new_manager
