-- ===== src/Rates/Setting.antt =====
-- The invariant of the manager, which every way to set a rate keeps.
use spot_grid_bot.Base.{
  ◌≡◌, refl, inl, inr, Bool, true, false, ◌&&◌, List, [], ◌∷◌, arith, if◌then◌else◌, Bool-cases,
  Option-cases, All, is_some, has,
}
use spot_grid_bot.Base.Double.{Double}
use spot_grid_bot.Instrument.{Currency, CurrencyPair, pair_valid, pair_lt, reverse_pair}
use spot_grid_bot.Rates.{
  RateManager, find_at, emplace_at, assign_at, same_key, insert_currency, set_bid_rate,
  set_ask_rate, set_rate, new_manager, copy_rates, make_snapshot, in_snapshot, zero_rate, PathMap,
  pair_of,
}
use spot_grid_bot.Rates.Finding.{IsValidPair, KeysValid, All-emplace_at, KeysValid-assign_at}
use spot_grid_bot.Rates.Paths.{IsPath, PathsOk}

has-insert :
    (c j : Currency) (l : List Currency) → has l j ≡ true → has (insert_currency c l) j ≡ true
unfolding insert_currency
has-insert c j l h = ground arith

has-insert_self : (c : Currency) (l : List Currency) → has (insert_currency c l) c ≡ true
unfolding insert_currency
has-insert_self c l = ground arith

module _ {ℓ} {V : Type ℓ} where
  found-emplace :
      (m : List (CurrencyPair × V)) (cp j : CurrencyPair) (v : V)
      → is_some (find_at j m) ≡ true
      → is_some (find_at j (emplace_at cp v m)) ≡ true
  unfolding find_at emplace_at
  found-emplace [] cp j v h = cc
  found-emplace ((k, w) ∷ m) cp j v h = elim (Bool-cases (same_key k cp)) [
    | inl same ↦ rw same h
    | inr other ↦ elim (Bool-cases (pair_lt cp k)) [
      | inl below ↦
          rw (other, below)
            (elim (Bool-cases (same_key cp j)) [ inl e ↦ rw e refl | inr e ↦ rw e h ])
      | inr above ↦
          rw (other, above)
            (elim (Bool-cases (same_key k j)) [
              | inl e ↦ rw e refl
              | inr e ↦ rw e (found-emplace m cp j v (rw e at h))
            ])
    ]
  ]

  found-assign :
      (m : List (CurrencyPair × V)) (cp j : CurrencyPair) (v : V)
      → is_some (find_at j m) ≡ true
      → is_some (find_at j (assign_at cp v m)) ≡ true
  unfolding find_at assign_at
  found-assign [] cp j v h = cc
  found-assign ((k, w) ∷ m) cp j v h = elim (Bool-cases (same_key k cp)) [
    | inl same ↦
        rw same (elim (Bool-cases (same_key k j)) [ inl e ↦ rw e refl | inr e ↦ rw e (rw e at h) ])
    | inr other ↦ rw other (elim (Bool-cases (same_key k j)) [
      | inl e ↦ rw e refl
      | inr e ↦ rw e (found-assign m cp j v (rw e at h))
    ])
  ]

  All-assign {κ} :
      (P : CurrencyPair → Type κ) (m : List (CurrencyPair × V)) (cp : CurrencyPair) (v : V)
      → All (λ e. P e.0) m
      → All (λ e. P e.0) (assign_at cp v m)
  unfolding assign_at
  All-assign P [] cp v a = tt
  All-assign P ((k, w) ∷ m) cp v a = elim (Bool-cases (same_key k cp)) [
    | inl same ↦ rw same a
    | inr other ↦ rw other (a.0, All-assign P m cp v a.1)
  ]

  -- More direct rates leave the paths paths.
  IsPath-more :
      (m m' : List (CurrencyPair × V))
      → ((j : CurrencyPair) → is_some (find_at j m) ≡ true → is_some (find_at j m') ≡ true)
      → (a q : Currency) (p : List Currency) → IsPath m a q p
      → IsPath m' a q p
  IsPath-more m m' more a q [] h = h
  IsPath-more m m' more a q (c ∷ []) h = h
  IsPath-more m m' more a q (c ∷ d ∷ l) h =
      (h.0, (more (pair_of c d) h.1.0, h.1.1), IsPath-more m m' more d q (d ∷ l) h.2)

  All-IsPath-more :
      (m m' : List (CurrencyPair × V)) (paths : PathMap)
      → ((j : CurrencyPair) → is_some (find_at j m) ≡ true → is_some (find_at j m') ≡ true)
      → All (λ e. IsPath m e.0.base_ccy e.0.quote_ccy e.1) paths
      → All (λ e. IsPath m' e.0.base_ccy e.0.quote_ccy e.1) paths
  All-IsPath-more m m' [] more h = tt
  All-IsPath-more m m' (e ∷ paths) more h = (
    IsPath-more m m' more e.0.base_ccy e.0.quote_ccy e.1 h.0,
    All-IsPath-more m m' paths more h.1,
  )

-- The currencies of a pair are in the set.
abbrev pub IsIn : List Currency → CurrencyPair → Type 0
IsIn currencies cp = (has currencies cp.base_ccy ≡ true) × (has currencies cp.quote_ccy ≡ true)

All-IsIn {ℓ} :
    {V : Type ℓ} (l : List Currency) (c : Currency) (m : List (CurrencyPair × V))
    → All (λ e. IsIn l e.0) m
    → All (λ e. IsIn (insert_currency c l) e.0) m
All-IsIn l c [] h = tt
All-IsIn l c (e ∷ m) h =
    ((has-insert c e.0.base_ccy l h.0.0, has-insert c e.0.quote_ccy l h.0.1), All-IsIn l c m h.1)

-- The direct rates are of valid pairs whose currencies are in the set, and the map of paths has
-- paths of direct rates.
pub record IsWell (D : Double) (m : RateManager D) : Type 0 where
  pub valid : KeysValid m.bid_rates
  pub known : All (λ e. IsIn m.currencies e.0) m.bid_rates
  pub paths_ok : PathsOk m.bid_rates m.paths

module _ (D : Double) where
  pub new_manager-IsWell : IsWell D (new_manager D)
  unfolding new_manager
  new_manager-IsWell = record {
    valid = tt;
    known = tt;
    paths_ok = record { valid = tt; lead = tt };
  }

  pub set_bid_rate-IsWell :
      (m : RateManager D) (cp : CurrencyPair) (rate : D.F)
      → IsWell D m
      → IsWell D (set_bid_rate D m cp rate).0
  unfolding set_bid_rate
  set_bid_rate-IsWell m cp rate w = elim (Bool-cases (D.lt (zero_rate D) rate && pair_valid cp)) [
    | inr e ↦ rw e w
    | inl e ↦ rw e (elim (Option-cases (find_at cp m.bid_rates)) [
      | inr (old, found) ↦ rw found (record {
        valid = KeysValid-assign_at m.bid_rates cp rate w.valid;
        known = All-assign (IsIn m.currencies) m.bid_rates cp rate w.known;
        paths_ok = record {
          valid = w.paths_ok.valid;
          lead =
              All-IsPath-more m.bid_rates (assign_at cp rate m.bid_rates) m.paths
                (λ j. found-assign m.bid_rates cp j rate) w.paths_ok.lead;
        };
      })
      | inl new ↦ rw new (record {
        valid = All-emplace_at (λ x. IsValidPair x.0) m.bid_rates cp rate (ground arith) w.valid;
        known =
            All-emplace_at
              (λ x.
                IsIn (insert_currency cp.quote_ccy (insert_currency cp.base_ccy m.currencies)) x.0)
              m.bid_rates cp rate
              (
                has-insert cp.quote_ccy cp.base_ccy _ (has-insert_self cp.base_ccy m.currencies),
                has-insert_self cp.quote_ccy (insert_currency cp.base_ccy m.currencies),
              )
              (All-IsIn (insert_currency cp.base_ccy m.currencies) cp.quote_ccy m.bid_rates
                (All-IsIn m.currencies cp.base_ccy m.bid_rates w.known));
        paths_ok = record {
          valid = w.paths_ok.valid;
          lead =
              All-IsPath-more m.bid_rates (emplace_at cp rate m.bid_rates) m.paths
                (λ j. found-emplace m.bid_rates cp j rate) w.paths_ok.lead;
        };
      })
    ])
  ]

  -- SetRate, for the bid and for the ask side, keeps the invariant.
  pub set_rate-IsWell :
      (m : RateManager D) (cp : CurrencyPair) (bid : Bool) (rate : D.F)
      → IsWell D m
      → IsWell D (set_rate D m cp bid rate).0
  unfolding set_rate set_ask_rate
  set_rate-IsWell m cp true rate w = set_bid_rate-IsWell m cp rate w
  set_rate-IsWell m cp false rate w = elim (Bool-cases (D.lt (zero_rate D) rate)) [
    | inl e ↦ rw e (set_bid_rate-IsWell m (reverse_pair cp) _ w)
    | inr e ↦ rw e w
  ]

  copy_rates-IsWell :
      (restricted : List Currency) (l : List (CurrencyPair × D.F)) (m : RateManager D)
      → IsWell D m
      → IsWell D (copy_rates D restricted l m)
  unfolding copy_rates
  copy_rates-IsWell restricted [] m w = w
  copy_rates-IsWell restricted ((cp, rate) ∷ l) m w =
      copy_rates-IsWell restricted l _ (next (in_snapshot D restricted cp))
    where
      next : (taken : Bool) → IsWell D (if taken then (set_bid_rate D m cp rate).0 else m)
      next true = set_bid_rate-IsWell m cp rate w
      next false = w

  -- A snapshot has the invariant, whatever it is restricted to.
  pub make_snapshot-IsWell :
      (m : RateManager D) (restricted : List Currency) → IsWell D (make_snapshot D m restricted)
  unfolding make_snapshot
  make_snapshot-IsWell m restricted =
      copy_rates-IsWell restricted m.bid_rates (new_manager D) new_manager-IsWell
