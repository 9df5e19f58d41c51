-- ===== src/Symbols/Tests.antt =====
-- The theorems about symbols at a small table of names.
use spot_grid_bot.Base.{
  ℕ, ◌+◌, ◌*◌, ◌<◌, ◌≤◌, ◌≡◌, refl, true, false, some, [], ◌∷◌, ◌++◌, arith, if◌then◌else◌,
}
use spot_grid_bot.Base.Int.{pos}
use spot_grid_bot.Base.Dict.{lookup}
use spot_grid_bot.Instrument.{CurrencyPair, pair_valid}
use spot_grid_bot.Symbols.{
  Text, Mapping, find_name, parse, pair_to_string, matches_mask, register_currency,
  check_registered_currencies, round_cpip, split_at,
}
use spot_grid_bot.Rates.{same_key}
use spot_grid_bot.Symbols.Texts.{NamesLack}
use spot_grid_bot.Symbols.Parsing.{IsCached, parse-pair_to_string}
use spot_grid_bot.Symbols.Registering.{register_currency_lem}
use spot_grid_bot.Symbols.Rounding.{round_cpip_bounds}
use spot_grid_bot.Symbols.Hash.{get_currency_pair, IsCoherent, get_currency_pair-parse}

abbrev usd : Text
usd = b'U' ∷ b'S' ∷ b'D' ∷ []

abbrev btc : Text
btc = b'B' ∷ b'T' ∷ b'C' ∷ []

abbrev usdt : Text
usdt = b'U' ∷ b'S' ∷ b'D' ∷ b'T' ∷ []

abbrev names : Mapping
names = record {
  val_to_str = (0, []) ∷ (1, usd) ∷ (70, btc) ∷ [];
  str_to_val = ([], 0) ∷ (btc, 70) ∷ (usd, 1) ∷ [];
}

abbrev btc_usd : CurrencyPair
btc_usd = record { base_ccy = 70; quote_ccy = 1 }

abbrev star_usd : Text
star_usd = b'*' ∷ b'/' ∷ usd

star_usd_matches : matches_mask names.str_to_val btc_usd star_usd ≡ true
unfolding matches_mask
star_usd_matches = refl

btc_usd_valid : pair_valid btc_usd ≡ true
unfolding pair_valid
btc_usd_valid = refl

names_found : (find_name btc names.str_to_val ≡ some 70) × (find_name usd names.str_to_val ≡ some 1)
unfolding find_name
names_found = (refl, refl)

texts_found : (lookup 70 names.val_to_str ≡ some btc) × (lookup 1 names.val_to_str ≡ some usd)
unfolding lookup
texts_found = (refl, refl)

no_slashes : NamesLack b'/' names.str_to_val
unfolding split_at
no_slashes = (refl, (refl, (refl, tt)))

parse-pair_to_string_example :
    let (m', cache', text) = pair_to_string names [] btc_usd in
    (m' ≡ names)
    × (text ≡ btc ++ b'/' ∷ usd)
    × (parse names.str_to_val text ≡ btc_usd)
    × IsCached names cache'
parse-pair_to_string_example =
    parse-pair_to_string names [] btc_usd btc usd btc_usd_valid texts_found.0 texts_found.1
      names_found.0 names_found.1 no_slashes (tt, tt)

-- The cache takes an invalid pair without quote currency for each pair of its base currency.
stale_text :
    let cache = (pair_to_string names [] (record { base_ccy = 70; quote_ccy = 0 })).1 in
    (pair_to_string names cache btc_usd).2 ≡ btc ++ b'/' ∷ []
unfolding pair_to_string lookup same_key
stale_text = refl

register_currency_lem_example :
    if (register_currency names 1002 usdt).1
    then (lookup 1002 (register_currency names 1002 usdt).0.val_to_str ≡ some usdt)
      × (find_name usdt (register_currency names 1002 usdt).0.str_to_val ≡ some 1002)
      × (check_registered_currencies (register_currency names 1002 usdt).0.str_to_val ≡ true)
    else (register_currency names 1002 usdt).0 ≡ names
register_currency_lem_example = register_currency_lem names 1002 usdt

usdt_registered : (register_currency names 1002 usdt).1 ≡ true
unfolding register_currency lookup
usdt_registered = refl

-- Of a name and the same name twice, the two pairs have one text, so the second is refused.
doubled_refused : (register_currency names 1003 (usd ++ usd)).1 ≡ false
unfolding register_currency lookup
doubled_refused = refl

round_cpip_bounds_example :
    (lower : ℕ) × (upper : ℕ) × (round_cpip (pos 123) true (pos 10) ≡ pos (lower * 10))
    × (round_cpip (pos 123) false (pos 10) ≡ pos (upper * 10))
    × (lower * 10 ≤ 123)
    × (123 < lower * 10 + 10)
    × (123 ≤ upper * 10)
    × (upper * 10 < 123 + 10)
round_cpip_bounds_example = round_cpip_bounds 123 10 (omega arith)

get_currency_pair-parse_example :
    ((get_currency_pair names.str_to_val [] usdt).1 ≡ parse names.str_to_val usdt)
    × IsCoherent names.str_to_val (get_currency_pair names.str_to_val [] usdt).0
get_currency_pair-parse_example = get_currency_pair-parse names.str_to_val [] usdt tt
