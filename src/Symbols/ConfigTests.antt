-- ===== src/Symbols/ConfigTests.antt =====
-- The theorems about CurrencyConfig.xml at a small document.
use spot_grid_bot.Base.{◌≡◌, refl, true, Option, none, some, [], ◌∷◌, ◌++◌, arith, if◌then◌else◌}
use spot_grid_bot.Base.Int.{ℤ, pos, negsuc, ◌<ℤ◌}
use spot_grid_bot.Base.Dict.{lookup, insert}
use spot_grid_bot.Instrument.{CurrencyPair, pair_valid}
use spot_grid_bot.Rates.{same_key}
use spot_grid_bot.Symbols.{Text, Mapping, NameMap, find_name, currency_of, pair_from}
use spot_grid_bot.Symbols.Config.{
  ValueNode, ConfigDoc, config_node, currencies_node, currency_node, pip_factors_node,
  currency_pair_node, empty_name, invalid_id, not_registered, initialize_currencies_from_xml,
  PrecisionMap, initialize_currency_pairs_from_xml, load_pair, pip_factor, precision,
}
use spot_grid_bot.Symbols.Loading.{IsMutual, Extends, initialize_currencies_from_xml-IsMutual}
use spot_grid_bot.Symbols.Pips.{PipsPositive, load_pair_lem, pip_factors_positive}

abbrev usd : Text
usd = b'U' ∷ b'S' ∷ b'D' ∷ []

abbrev btc : Text
btc = b'B' ∷ b'T' ∷ b'C' ∷ []

abbrev currency : Text → ℤ → ValueNode
currency t n = record {
  is_element = true;
  node_name = currency_node;
  name = t;
  id = n;
  base = [];
  quote = [];
  precision = none;
  pip = none;
}

abbrev pair : Option ℤ → ValueNode
pair factor = record {
  is_element = true;
  node_name = currency_pair_node;
  name = [];
  id = pos 0;
  base = btc;
  quote = usd;
  precision = none;
  pip = factor;
}

-- Two currencies, the second once more under another name, one with no name and one with a bad
-- number; and a pair with the pip factor 0
abbrev doc : ConfigDoc
doc = config_node (
    record {
      node_name = currencies_node;
      precision = none;
      pip = none;
      values =
          currency usd (pos 1)
          ∷ currency btc (pos 1001)
          ∷ currency (btc ++ btc) (pos 1001)
          ∷ currency [] (pos 7)
          ∷ currency usd (negsuc 0)
          ∷ [];
    }
    ∷ record {
      node_name = pip_factors_node;
      precision = some (pos 6);
      pip = none;
      values = pair (some (pos 0)) ∷ [];
    }
    ∷ [])

abbrev empty_mapping : Mapping
empty_mapping = record { val_to_str = []; str_to_val = [] }

empty_mapping-IsMutual : IsMutual empty_mapping
unfolding find_name lookup
empty_mapping-IsMutual t c = (λ h. cc, λ h. cc)

initialize_currencies_from_xml-IsMutual_example :
    IsMutual (initialize_currencies_from_xml empty_mapping doc).0
    × Extends empty_mapping (initialize_currencies_from_xml empty_mapping doc).0
initialize_currencies_from_xml-IsMutual_example =
    initialize_currencies_from_xml-IsMutual empty_mapping doc empty_mapping-IsMutual

abbrev names : NameMap
names = (btc, 1001) ∷ (usd, 1) ∷ []

-- What the document does to empty maps
loaded : initialize_currencies_from_xml empty_mapping doc ≡ (
  record { val_to_str = (1, usd) ∷ (1001, btc) ∷ []; str_to_val = names },
  not_registered ∷ empty_name ∷ invalid_id ∷ [],
)
unfolding initialize_currencies_from_xml lookup insert
loaded = refl

abbrev table : PrecisionMap
table = (record { base_ccy = 2; quote_ccy = 1 }, (pos 5, pos 10_000)) ∷ []

table-PipsPositive : PipsPositive table
table-PipsPositive = (omega arith, tt)

abbrev btc_usd : CurrencyPair
btc_usd = record { base_ccy = 1001; quote_ccy = 1 }

pip_factors_positive_example :
    pos 0 <ℤ pip_factor (initialize_currency_pairs_from_xml names table doc).0 btc_usd
pip_factors_positive_example = pip_factors_positive names table doc btc_usd table-PipsPositive

pair_is_valid : pair_valid (pair_from names btc usd) ≡ true
unfolding pair_valid currency_of
pair_is_valid = refl

btc_usd_is_valid : pair_valid btc_usd ≡ true
unfolding pair_valid
btc_usd_is_valid = refl

keys_are_valid : pair_valid (record { base_ccy = 2; quote_ccy = 1 }) ≡ true
unfolding pair_valid
keys_are_valid = refl

load_pair_lem_example :
    ((load_pair names (pos 6) (pos 100) (table, []) (pair (some (pos 0)))).1 ≡ [])
    × (precision (load_pair names (pos 6) (pos 100) (table, []) (pair (some (pos 0)))).0 btc_usd
        ≡ (if same_key (pair_from names btc usd) btc_usd then pos 6 else precision table btc_usd))
    × (pip_factor (load_pair names (pos 6) (pos 100) (table, []) (pair (some (pos 0)))).0 btc_usd
        ≡ (if same_key (pair_from names btc usd) btc_usd then pos 1 else pip_factor table btc_usd))
load_pair_lem_example =
    load_pair_lem names (pos 6) (pos 100) table [] (pair (some (pos 0))) btc_usd
      (keys_are_valid, tt) pair_is_valid btc_usd_is_valid
