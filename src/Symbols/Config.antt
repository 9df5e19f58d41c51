-- ===== src/Symbols/Config.antt =====
-- The reading of CurrencyConfig.xml in lib/utils/src/CurrencyPair.cpp: the currencies that it
-- registers, and the table of precisions. Of a node of the document stands here what the code reads
-- of it; an attribute that is missing, or is no number, is none.
use spot_grid_bot.Base.{
  Bool, true, false, not, ◌&&◌, ◌||◌, Option, none, some, List, [], ◌∷◌, ◌++◌, ◌==◌, if◌then◌else◌,
  is_some,
}
use spot_grid_bot.Base.Int.{ℤ, pos, magnitude, leb_ℤ}
use spot_grid_bot.Instrument.{Currency, CurrencyPair, currency_valid, pair_valid, invalid_currency}
use spot_grid_bot.Rates.{find_at, assign_at, emplace_at}
use spot_grid_bot.Symbols.{Text, NameMap, Mapping, currency_of, register_currency, pair_from}

-- The names that the code compares a node's name with
pub data NodeName : Type 0 where
  currencies_node : NodeName
  currency_node : NodeName
  pip_factors_node : NodeName
  currency_pair_node : NodeName
  other_node : NodeName

-- A node under Currencies or PipFactors. The texts are without blanks around them, in capitals.
pub record ValueNode : Type 0 where
  pub is_element : Bool
  pub node_name : NodeName
  pub name : Text
  pub id : ℤ
  pub base : Text
  pub quote : Text
  pub precision : Option ℤ
  pub pip : Option ℤ

-- A node under CurrencyConfig
pub record SectionNode : Type 0 where
  pub node_name : NodeName
  pub precision : Option ℤ
  pub pip : Option ℤ
  pub values : List ValueNode

-- A document with what GetConfigNode finds in it
pub data ConfigDoc : Type 0 where
  null_config : ConfigDoc
  no_config_node : ConfigDoc
  config_node : List SectionNode → ConfigDoc

-- What is added to the error message
pub data ConfigError : Type 0 where
  no_config : ConfigError
  empty_name : ConfigError
  invalid_id : ConfigError
  not_registered : ConfigError
  invalid_currencies : ConfigError

unfoldable pub is_currencies : NodeName → Bool
is_currencies currencies_node = true
is_currencies currency_node = false
is_currencies pip_factors_node = false
is_currencies currency_pair_node = false
is_currencies other_node = false

unfoldable pub is_currency : NodeName → Bool
is_currency currencies_node = false
is_currency currency_node = true
is_currency pip_factors_node = false
is_currency currency_pair_node = false
is_currency other_node = false

unfoldable pub is_pip_factors : NodeName → Bool
is_pip_factors currencies_node = false
is_pip_factors currency_node = false
is_pip_factors pip_factors_node = true
is_pip_factors currency_pair_node = false
is_pip_factors other_node = false

unfoldable pub is_currency_pair : NodeName → Bool
is_currency_pair currencies_node = false
is_currency_pair currency_node = false
is_currency_pair pip_factors_node = false
is_currency_pair currency_pair_node = true
is_currency_pair other_node = false

abbrev pub value_or {ℓ} : {A : Type ℓ} → A → Option A → A
value_or d none = d
value_or d (some a) = a

-- A Currency element: what is registered, and the errors so far with its own
unfoldable pub load_named : Mapping × List ConfigError → Text → ℤ → Mapping × List ConfigError
unfolding register_currency
load_named (m, errors) [] id = (m, errors ++ empty_name ∷ [])
load_named (m, errors) (c ∷ t) id =
    if leb_ℤ id (pos 0) || leb_ℤ (pos invalid_currency) id
    then (m, errors ++ invalid_id ∷ [])
    else let (m', registered) = register_currency m (magnitude id) (c ∷ t) in
      (m', if registered then errors else errors ++ not_registered ∷ [])

unfoldable pub load_values :
    Mapping × List ConfigError → List ValueNode → Mapping × List ConfigError
unfolding load_named is_currency
load_values st [] = st
load_values st (n ∷ rest) =
    load_values (if n.is_element && is_currency n.node_name then load_named st n.name n.id else st)
      rest

unfoldable pub load_sections :
    Mapping × List ConfigError → List SectionNode → Mapping × List ConfigError
unfolding load_values is_currencies
load_sections st [] = st
load_sections st (s ∷ rest) =
    load_sections (if is_currencies s.node_name then load_values st s.values else st) rest

-- `Currency::InitializeCurrenciesFromXml`, whose answer is true if there are no errors
unfoldable pub initialize_currencies_from_xml : Mapping → ConfigDoc → Mapping × List ConfigError
unfolding load_sections
initialize_currencies_from_xml m null_config = (m, no_config ∷ [])
initialize_currencies_from_xml m no_config_node = (m, no_config ∷ [])
initialize_currencies_from_xml m (config_node sections) = load_sections (m, []) sections

-- `m_cpToPrecision`: the precision and the pip factor of a pair
abbrev pub PrecisionMap : Type 0
PrecisionMap = List (CurrencyPair × (ℤ × ℤ))

-- `m_cpToPrecision[cp] = ...`
unfoldable pub set_precision : CurrencyPair → ℤ × ℤ → PrecisionMap → PrecisionMap
unfolding find_at assign_at emplace_at
set_precision cp v table =
    if is_some (find_at cp table) then assign_at cp v table else emplace_at cp v table

-- A CurrencyPair element, with the precision and the pip factor of its section as defaults
unfoldable pub load_pair :
    NameMap → ℤ → ℤ → PrecisionMap × List ConfigError → ValueNode → PrecisionMap × List ConfigError
unfolding currency_of currency_valid set_precision
load_pair names precision pip (table, errors) n =
    if not (currency_valid (currency_of names n.base))
      || not (currency_valid (currency_of names n.quote))
    then (table, errors ++ invalid_currencies ∷ [])
    else let factor = value_or pip n.pip in
      (
        set_precision (pair_from names n.base n.quote)
            (value_or precision n.precision, if leb_ℤ factor (pos 0) then pos 1 else factor) table,
        errors,
      )

unfoldable pub load_pairs :
    NameMap
    → ℤ
    → ℤ
    → PrecisionMap × List ConfigError
    → List ValueNode
    → PrecisionMap × List ConfigError
unfolding load_pair is_currency_pair
load_pairs names precision pip st [] = st
load_pairs names precision pip st (n ∷ rest) =
    load_pairs names precision pip
      (if n.is_element && is_currency_pair n.node_name
        then load_pair names precision pip st n
        else st)
      rest

-- `CurrencyDefaultPrecision` is 8 and `CurrencyDefaultPipFactor` is 100.
unfoldable pub load_pip_factors :
    NameMap → PrecisionMap × List ConfigError → List SectionNode → PrecisionMap × List ConfigError
unfolding load_pairs is_pip_factors
load_pip_factors names st [] = st
load_pip_factors names st (s ∷ rest) =
    load_pip_factors names
      (if is_pip_factors s.node_name
        then load_pairs names (value_or (pos 8) s.precision) (value_or (pos 100) s.pip) st s.values
        else st)
      rest

-- `CurrencyPair::InitializeCurrencyPairsFromXml`
unfoldable pub initialize_currency_pairs_from_xml :
    NameMap → PrecisionMap → ConfigDoc → PrecisionMap × List ConfigError
unfolding load_pip_factors
initialize_currency_pairs_from_xml names table null_config = (table, no_config ∷ [])
initialize_currency_pairs_from_xml names table no_config_node = (table, no_config ∷ [])
initialize_currency_pairs_from_xml names table (config_node sections) =
    load_pip_factors names (table, []) sections

-- `CurrencyPair::PipFactor`
unfoldable pub pip_factor : PrecisionMap → CurrencyPair → ℤ
unfolding pair_valid find_at
pip_factor table cp =
    if pair_valid cp then elim (find_at cp table) [ some v ↦ v.1 | none ↦ pos 10_000 ] else pos 1

abbrev pub jpy : Currency
jpy = 5

abbrev pub rub : Currency
rub = 17

abbrev pub czk : Currency
czk = 24

abbrev pub huf : Currency
huf = 26

abbrev pub ron : Currency
ron = 30

abbrev pub xau : Currency
xau = 35

-- `CurrencyPair::Precision`
unfoldable pub precision : PrecisionMap → CurrencyPair → ℤ
unfolding pair_valid find_at
precision table cp =
    if pair_valid cp
    then elim (find_at cp table) [
      | some v ↦ v.0
      | none ↦
          if cp.base_ccy == xau
          then pos 2
          else if (cp.quote_ccy == jpy) || (cp.quote_ccy == huf)
          then pos 3
          else if (cp.quote_ccy == czk) || (cp.quote_ccy == rub) || (cp.quote_ccy == ron)
          then pos 4
          else pos 5
    ]
    else pos 0
