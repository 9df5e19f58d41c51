-- ===== src/Symbols/Pips.antt =====
-- Pip factors, by which prices are divided, are positive, whatever the document says.
use spot_grid_bot.Base.{
  ◌≡◌, refl, inl, inr, Bool, true, false, not, ◌&&◌, ◌||◌, some, List, [], ◌∷◌, arith,
  if◌then◌else◌, Bool-cases, Option-cases, All, is_some,
}
use spot_grid_bot.Base.Int.{ℤ, pos, negsuc, ◌<ℤ◌, leb_ℤ}
use spot_grid_bot.Instrument.{CurrencyPair, pair_valid, currency_valid}
use spot_grid_bot.Rates.{same_key, find_at, assign_at}
use spot_grid_bot.Rates.Finding.{
  All-emplace_at, KeysValid, IsValidPair, find_at-emplace_at, find_at-assign_at,
}
use spot_grid_bot.Symbols.{NameMap, currency_of, pair_from}
use spot_grid_bot.Symbols.Config.{
  ValueNode, SectionNode, ConfigDoc, null_config, no_config_node, config_node, ConfigError,
  PrecisionMap, value_or, set_precision, load_pair, load_pairs, load_pip_factors, is_currency_pair,
  is_pip_factors, initialize_currency_pairs_from_xml, pip_factor, precision,
}

-- The pip factors of the table are positive.
abbrev pub PipsPositive : PrecisionMap → Type 0
PipsPositive table = All (λ e. pos 0 <ℤ e.1.1) table

All-assign_at :
    (cp : CurrencyPair) (v : ℤ × ℤ) (table : PrecisionMap)
    → pos 0 <ℤ v.1
    → PipsPositive table
    → PipsPositive (assign_at cp v table)
unfolding assign_at
All-assign_at cp v [] h a = tt
All-assign_at cp v ((k, w) ∷ table) h a = elim (Bool-cases (same_key k cp)) [
  | inl e ↦ rw e (h, a.1)
  | inr e ↦ rw e (a.0, All-assign_at cp v table h a.1)
]

set_precision-PipsPositive :
    (cp : CurrencyPair) (v : ℤ × ℤ) (table : PrecisionMap)
    → pos 0 <ℤ v.1
    → PipsPositive table
    → PipsPositive (set_precision cp v table)
unfolding set_precision
set_precision-PipsPositive cp v table h a = elim (Bool-cases (is_some (find_at cp table))) [
  | inl e ↦ rw e (All-assign_at cp v table h a)
  | inr e ↦ rw e (All-emplace_at (λ e. pos 0 <ℤ e.1.1) table cp v h a)
]

at_least_one : (z : ℤ) → pos 0 <ℤ (if leb_ℤ z (pos 0) then pos 1 else z)
at_least_one (pos n) = ground arith
at_least_one (negsuc n) = ground arith

load_pair-PipsPositive :
    (names : NameMap) (precision pip : ℤ) (st : PrecisionMap × List ConfigError) (n : ValueNode)
    → PipsPositive st.0
    → PipsPositive (load_pair names precision pip st n).0
unfolding load_pair
load_pair-PipsPositive names precision pip (table, errors) n a =
    elim (Bool-cases (
      not (currency_valid (currency_of names n.base))
      || not (currency_valid (currency_of names n.quote)))) [
        | inl e ↦ rw e a
        | inr e ↦ rw e (
            set_precision-PipsPositive (pair_from names n.base n.quote) _ table
              (at_least_one (value_or pip n.pip)) a)
      ]

positive_if :
    (b : Bool) (st st' : PrecisionMap × List ConfigError)
    → PipsPositive st.0
    → PipsPositive st'.0
    → PipsPositive (if b then st' else st).0
positive_if true st st' a a' = a'
positive_if false st st' a a' = a

load_pairs-PipsPositive :
    (names : NameMap) (precision pip : ℤ) (st : PrecisionMap × List ConfigError)
    (l : List ValueNode)
    → PipsPositive st.0
    → PipsPositive (load_pairs names precision pip st l).0
unfolding load_pairs
load_pairs-PipsPositive names precision pip st [] a = a
load_pairs-PipsPositive names precision pip st (n ∷ rest) a =
    load_pairs-PipsPositive names precision pip
      (if n.is_element && is_currency_pair n.node_name
        then load_pair names precision pip st n
        else st)
      rest
      (positive_if (n.is_element && is_currency_pair n.node_name) st _ a
        (load_pair-PipsPositive names precision pip st n a))

load_pip_factors-PipsPositive :
    (names : NameMap) (st : PrecisionMap × List ConfigError) (l : List SectionNode)
    → PipsPositive st.0
    → PipsPositive (load_pip_factors names st l).0
unfolding load_pip_factors
load_pip_factors-PipsPositive names st [] a = a
load_pip_factors-PipsPositive names st (s ∷ rest) a =
    load_pip_factors-PipsPositive names
      (if is_pip_factors s.node_name
        then load_pairs names (value_or (pos 8) s.precision) (value_or (pos 100) s.pip) st s.values
        else st)
      rest
      (positive_if (is_pip_factors s.node_name) st _ a
        (load_pairs-PipsPositive names _ _ st s.values a))

pub initialize_currency_pairs_from_xml-PipsPositive :
    (names : NameMap) (table : PrecisionMap) (doc : ConfigDoc)
    → PipsPositive table
    → PipsPositive (initialize_currency_pairs_from_xml names table doc).0
unfolding initialize_currency_pairs_from_xml
initialize_currency_pairs_from_xml-PipsPositive names table null_config a = a
initialize_currency_pairs_from_xml-PipsPositive names table no_config_node a = a
initialize_currency_pairs_from_xml-PipsPositive names table (config_node sections) a =
    load_pip_factors-PipsPositive names (table, []) sections a

pip_factor-positive :
    (table : PrecisionMap) (cp : CurrencyPair) → PipsPositive table → pos 0 <ℤ pip_factor table cp
unfolding pip_factor find_at
pip_factor-positive [] cp a = ground arith
pip_factor-positive ((k, v) ∷ table) cp a = elim (Bool-cases (same_key k cp)) [
  | inl e ↦ elim (Bool-cases (pair_valid cp)) [ inl f ↦ rw (e, f) a.0 | inr f ↦ rw f (omega arith) ]
  | inr e ↦ rw e (pip_factor-positive table cp a.1)
]

-- After CurrencyConfig.xml is read, whatever it says, the pip factor of every pair is positive, if
-- the factors of the table were before.
pub pip_factors_positive :
    (names : NameMap) (table : PrecisionMap) (doc : ConfigDoc) (cp : CurrencyPair)
    → PipsPositive table
    → pos 0 <ℤ pip_factor (initialize_currency_pairs_from_xml names table doc).0 cp
pip_factors_positive names table doc cp a =
    pip_factor-positive _ cp (initialize_currency_pairs_from_xml-PipsPositive names table doc a)

find_at-set_precision :
    (cp j : CurrencyPair) (v : ℤ × ℤ) (table : PrecisionMap)
    → KeysValid table
    → IsValidPair cp
    → IsValidPair j
    → find_at j (set_precision cp v table) ≡ (if same_key cp j then some v else find_at j table)
unfolding set_precision
find_at-set_precision cp j v table k c h = elim (Option-cases (find_at cp table)) [
  | inl e ↦ rw e (find_at-emplace_at table cp j v k c h e)
  | inr (w, e) ↦ rw e (find_at-assign_at table cp j v w k c h e)
]

not_refused :
    (names : NameMap) (n : ValueNode)
    → IsValidPair (pair_from names n.base n.quote)
    → (not (currency_valid (currency_of names n.base))
        || not (currency_valid (currency_of names n.quote)))
      ≡ false
unfolding pair_valid
not_refused names n h = ground arith

-- An element with two valid currencies adds no error and sets the precision and the pip factor of
-- their pair, the section's where it has none of its own, and 1 in place of a factor that is not
-- positive; those of every other valid pair stay.
pub load_pair_lem :
    (names : NameMap) (digits pip : ℤ) (table : PrecisionMap) (errors : List ConfigError)
    (n : ValueNode) (j : CurrencyPair)
    → KeysValid table
    → IsValidPair (pair_from names n.base n.quote)
    → IsValidPair j
    → ((load_pair names digits pip (table, errors) n).1 ≡ errors)
      × (precision (load_pair names digits pip (table, errors) n).0 j ≡ (
          if same_key (pair_from names n.base n.quote) j
          then value_or digits n.precision
          else precision table j))
      × (pip_factor (load_pair names digits pip (table, errors) n).0 j ≡ (
          if same_key (pair_from names n.base n.quote) j
          then if leb_ℤ (value_or pip n.pip) (pos 0) then pos 1 else value_or pip n.pip
          else pip_factor table j))
unfolding load_pair precision pip_factor
load_pair_lem names digits pip table errors n j k v h =
    let found =
      find_at-set_precision (pair_from names n.base n.quote) j
        (
          value_or digits n.precision,
          if leb_ℤ (value_or pip n.pip) (pos 0) then pos 1 else value_or pip n.pip,
        )
        table k v h in
    rw (not_refused names n v, h, found)
      (elim (Bool-cases (same_key (pair_from names n.base n.quote) j)) [
        | inl e ↦ rw e (refl, refl, refl)
        | inr e ↦ rw e (refl, refl, refl)
      ])
