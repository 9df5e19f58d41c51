-- ===== src/Symbols.antt =====
-- The symbols of currencies and pairs in lib/utils/src/CurrencyPair.cpp: the two maps between
-- currencies and their names, the parsing of a pair's symbol, masks, and the rounding of prices. A
-- text is the list of its character codes; the map from names is the list of its entries in the
-- order of the names.
pub mod Texts
pub mod Masks
pub mod Parsing
pub mod Registering
pub mod Rounding
pub mod Hash
pub mod Config
pub mod Loading
pub mod Pips
pub mod Tests
pub mod ConfigTests
use spot_grid_bot.Base.{
  ℕ, zero, suc, ◌+◌, ◌-◌, ◌%◌, Bool, true, false, not, ◌&&◌, ◌||◌, Option, none, some, List, [],
  ◌∷◌, ◌++◌, ◌==◌, ltb, if◌then◌else◌, length, take, is_some,
}
use spot_grid_bot.Base.Int.{ℤ, pos, ◌+ℤ◌, ◌*ℤ◌, quot, magnitude, ltb_ℤ}
use spot_grid_bot.Base.Dict.{Dict, lookup, insert, erase}
use spot_grid_bot.Instrument.{
  Currency, CurrencyPair, no_currency, invalid_currency, currency_valid, pair_valid,
}
use spot_grid_bot.Rates.{find_at, emplace_at}

abbrev pub Text : Type 0
Text = List ℕ

unfoldable pub text_eqb : Text → Text → Bool
text_eqb [] [] = true
text_eqb [] (d ∷ t) = false
text_eqb (c ∷ s) [] = false
text_eqb (c ∷ s) (d ∷ t) = (c == d) && text_eqb s t

-- The order of std::string
unfoldable pub text_lt : Text → Text → Bool
text_lt s [] = false
text_lt [] (d ∷ t) = true
text_lt (c ∷ s) (d ∷ t) = ltb c d || ((c == d) && text_lt s t)

abbrev pub drop : ℕ → Text → Text
drop zero t = t
drop (suc n) [] = []
drop (suc n) (c ∷ t) = drop n t

-- `find` of a character: what stands before its first place, and what behind it
unfoldable pub split_at : ℕ → Text → Option (Text × Text)
split_at x [] = none
split_at x (c ∷ t) =
    if c == x
    then some ([], t)
    else elim (split_at x t) [ none ↦ none | some (before, behind) ↦ some (c ∷ before, behind) ]

unfoldable pub starts_with : Text → Text → Bool
starts_with [] t = true
starts_with (c ∷ s) [] = false
starts_with (c ∷ s) (d ∷ t) = (c == d) && starts_with s t

-- `find` of a text: its first place
unfoldable pub find_text : Text → Text → Option ℕ
unfolding starts_with
find_text s [] = if starts_with s [] then some 0 else none
find_text s (c ∷ t) =
    let rest : Option ℕ = elim (find_text s t) [ none ↦ none | some i ↦ some (suc i) ] in
    if starts_with s (c ∷ t) then some 0 else rest

abbrev pub NameMap : Type 0
NameMap = List (Text × Currency)

unfoldable pub find_name : Text → NameMap → Option Currency
unfolding text_eqb
find_name t [] = none
find_name t ((s, c) ∷ names) = if text_eqb s t then some c else find_name t names

-- `emplace` of a name that is not there
unfoldable pub emplace_name : Text → Currency → NameMap → NameMap
unfolding text_lt
emplace_name t c [] = (t, c) ∷ []
emplace_name t c ((s, d) ∷ names) =
    if text_lt t s then (t, c) ∷ (s, d) ∷ names else (s, d) ∷ emplace_name t c names

unfoldable pub erase_name : Text → NameMap → NameMap
unfolding text_eqb
erase_name t [] = []
erase_name t ((s, c) ∷ names) = if text_eqb s t then names else (s, c) ∷ erase_name t names

-- `Currency::ValToStrMapping`
pub record Mapping : Type 0 where
  pub val_to_str : Dict Text
  pub str_to_val : NameMap

-- `Currency::StrToVal`, and so the constructor of a Currency from a text
unfoldable pub currency_of : NameMap → Text → Currency
unfolding find_name
currency_of names t = elim (find_name t names) [
  | some c ↦ c
  | none ↦ elim t [ [] ↦ no_currency | _ ∷ _ ↦ invalid_currency ]
]

-- `Currency::Valid` of a text
unfoldable pub name_valid : NameMap → Text → Bool
unfolding currency_of
name_valid names t = not (currency_of names t == invalid_currency)

-- `CurrencyPair::ValidMask`
unfoldable pub valid_mask : NameMap → Text → Bool
unfolding name_valid
valid_mask names (a ∷ []) = a == b'*'
valid_mask names (a ∷ b ∷ c ∷ []) =
    ((a == b'*') && (b == b'/') && (c == b'*')) || name_valid names (a ∷ b ∷ c ∷ [])
valid_mask names (a ∷ b ∷ c ∷ d ∷ e ∷ []) =
    if b == b'/'
    then (a == b'*') && name_valid names (c ∷ d ∷ e ∷ [])
    else if d == b'/'
    then (e == b'*') && name_valid names (a ∷ b ∷ c ∷ [])
    else false
valid_mask names (a ∷ b ∷ c ∷ d ∷ e ∷ f ∷ []) =
    name_valid names (a ∷ b ∷ c ∷ []) && name_valid names (d ∷ e ∷ f ∷ [])
valid_mask names (a ∷ b ∷ c ∷ d ∷ e ∷ f ∷ g ∷ []) =
    (d == b'/') && name_valid names (a ∷ b ∷ c ∷ []) && name_valid names (e ∷ f ∷ g ∷ [])
valid_mask names _ = false

-- `CurrencyPair::MatchesMask` of a pair that is valid
unfoldable pub mask_matches : NameMap → CurrencyPair → Text → Bool
unfolding currency_of
mask_matches names cp (a ∷ []) = a == b'*'
mask_matches names cp (a ∷ b ∷ c ∷ []) =
    ((a == b'*') && (b == b'/') && (c == b'*'))
    || (currency_of names (a ∷ b ∷ c ∷ []) == cp.base_ccy)
    || (currency_of names (a ∷ b ∷ c ∷ []) == cp.quote_ccy)
mask_matches names cp (a ∷ b ∷ c ∷ d ∷ e ∷ []) =
    if b == b'/'
    then (a == b'*') && (currency_of names (c ∷ d ∷ e ∷ []) == cp.quote_ccy)
    else if d == b'/'
    then (e == b'*') && (currency_of names (a ∷ b ∷ c ∷ []) == cp.base_ccy)
    else false
mask_matches names cp (a ∷ b ∷ c ∷ d ∷ e ∷ f ∷ []) =
    (currency_of names (a ∷ b ∷ c ∷ []) == cp.base_ccy)
    && (currency_of names (d ∷ e ∷ f ∷ []) == cp.quote_ccy)
mask_matches names cp (a ∷ b ∷ c ∷ d ∷ e ∷ f ∷ g ∷ []) =
    (d == b'/')
    && (currency_of names (a ∷ b ∷ c ∷ []) == cp.base_ccy)
    && (currency_of names (e ∷ f ∷ g ∷ []) == cp.quote_ccy)
mask_matches names cp _ = false

-- `CurrencyPair::MatchesMask`
unfoldable pub matches_mask : NameMap → CurrencyPair → Text → Bool
unfolding pair_valid mask_matches
matches_mask names cp mask = pair_valid cp && mask_matches names cp mask

abbrev pub pair_from : NameMap → Text → Text → CurrencyPair
pair_from names s t = record { base_ccy = currency_of names s; quote_ccy = currency_of names t }

-- The loop of `Parse` over the names that are left, for a symbol with no delimiter
unfoldable pub parse_joined : NameMap → Text → NameMap → CurrencyPair
unfolding find_text currency_of pair_valid
parse_joined names t [] = record { base_ccy = invalid_currency; quote_ccy = invalid_currency }
parse_joined names t ((s, c) ∷ rest) =
    let other = parse_joined names t rest in
    if c == no_currency then other else elim (find_text s t) [
      | none ↦ other
      | some p ↦
          if p == 0
          then if pair_valid (pair_from names s (drop (length s) t))
            then pair_from names s (drop (length s) t)
            else other
          else if p == length t - length s
          then if pair_valid (pair_from names (take p t) s)
            then pair_from names (take p t) s
            else other
          else other
    ]

-- The part of `Parse` from the delimiter on
unfoldable pub parse_delimited : NameMap → Text → CurrencyPair
unfolding split_at currency_of parse_joined
parse_delimited names t = elim (split_at b'/' t) [
  | some (s, s') ↦ pair_from names s s'
  | none ↦ elim (split_at b'-' t) [
    | some (s, s') ↦ pair_from names s s'
    | none ↦ parse_joined names t names
  ]
]

-- `CurrencyPair::Parse`
unfoldable pub parse : NameMap → Text → CurrencyPair
unfolding parse_delimited currency_of pair_valid
parse names [] = record { base_ccy = no_currency; quote_ccy = no_currency }
parse names (c ∷ t) =
    if (length (c ∷ t) == 6) && pair_valid (pair_from names (take 3 (c ∷ t)) (drop 3 (c ∷ t)))
    then pair_from names (take 3 (c ∷ t)) (drop 3 (c ∷ t))
    else parse_delimited names (c ∷ t)

-- `Currency::ToStringView`: `operator[]` enters an empty name for a value that has none.
unfoldable pub to_string_view : Mapping → Currency → Mapping × Text
to_string_view m c = elim (lookup c m.val_to_str) [
  | some t ↦ (m, t)
  | none ↦ (record m { val_to_str = insert c [] m.val_to_str }, [])
]

-- `m_nameCache`
abbrev pub NameCache : Type 0
NameCache = List (CurrencyPair × Text)

-- `CurrencyPair::ToString`, which enters a text that the cache does not have
unfoldable pub pair_to_string : Mapping → NameCache → CurrencyPair → Mapping × NameCache × Text
unfolding to_string_view find_at emplace_at
pair_to_string m cache cp =
    if (cp.base_ccy == no_currency) && (cp.quote_ccy == no_currency)
    then (m, cache, [])
    else elim (find_at cp cache) [
      | some text ↦ (m, cache, text)
      | none ↦
          let (m', s) = to_string_view m cp.base_ccy in
          let (m'', t) = to_string_view m' cp.quote_ccy in
          (m'', emplace_at cp (s ++ b'/' ∷ t) cache, s ++ b'/' ∷ t)
    ]

-- What `CheckRegisteredCurrencies` asks of the pair that a joined symbol is parsed as
abbrev pub is_parsed_as : NameMap → CurrencyPair → Text → Text → Bool
is_parsed_as names cp s t =
    (pair_valid cp || (cp.base_ccy == no_currency) && (cp.quote_ccy == no_currency))
    && (cp.base_ccy == currency_of names s)
    && (cp.quote_ccy == currency_of names t)

-- The test of `CheckRegisteredCurrencies` for two entries
unfoldable pub check_names : NameMap → Text × Currency → Text × Currency → Bool
unfolding parse currency_of currency_valid
check_names names (s, c) (t, d) =
    if currency_valid c && currency_valid d && not (c == d)
    then is_parsed_as names (parse names (s ++ t)) s t
    else true

-- The inner and the outer loop of `CheckRegisteredCurrencies`, and the method
unfoldable pub check_against : NameMap → Text × Currency → NameMap → Bool
unfolding check_names
check_against names e [] = true
check_against names e (f ∷ rest) = check_names names e f && check_against names e rest

unfoldable pub check_each : NameMap → NameMap → Bool
unfolding check_against
check_each names [] = true
check_each names (e ∷ rest) = check_against names e names && check_each names rest

unfoldable pub check_registered_currencies : NameMap → Bool
unfolding check_each
check_registered_currencies names = check_each names names

-- `Currency::RegisterCurrency`
unfoldable pub register_currency : Mapping → Currency → Text → Mapping × Bool
unfolding find_name emplace_name erase_name check_registered_currencies
register_currency m value symbol =
    if is_some (lookup value m.val_to_str)
    then (m, false)
    else if is_some (find_name symbol m.str_to_val)
    then (m, false)
    else let names = emplace_name symbol value m.str_to_val in
      let texts = insert value symbol m.val_to_str in
      if check_registered_currencies names
      then (record { val_to_str = texts; str_to_val = names }, true)
      else (record { val_to_str = erase value texts; str_to_val = erase_name symbol names }, false)

-- `CurrencyPair::Round`
unfoldable pub round_cpip : ℤ → Bool → ℤ → ℤ
round_cpip cpip down by =
    if ltb_ℤ (pos 0) by && not (magnitude cpip % magnitude by == 0)
    then (if down then quot cpip by else quot cpip by +ℤ pos 1) *ℤ by
    else cpip

abbrev pub eur : Currency
eur = 2

abbrev pub mxn : Currency
mxn = 11

-- `RoundingFactor`
unfoldable pub rounding_factor : CurrencyPair → ℤ
rounding_factor cp = if (cp.quote_ccy == mxn) && (cp.base_ccy == eur) then pos 100 else pos 10

-- `RoundForStreaming`
unfoldable pub round_for_streaming : CurrencyPair → ℤ → Bool → ℤ
unfolding round_cpip
round_for_streaming cp cpip down =
    round_cpip cpip down (if (cp.quote_ccy == mxn) && (cp.base_ccy == eur) then pos 100 else pos 10)
