-- ===== src/Symbols/Parsing.antt =====
-- The text of a pair is parsed as the pair.
use spot_grid_bot.Base.{
  Option-cases, All, ◌≡◌, ◌∙◌, refl, ap, ap₂, inl, inr, Bool, true, false, ◌&&◌, none, some, [],
  ◌∷◌, ◌++◌, arith, ◌==◌, if◌then◌else◌, Bool-cases, is_some, take, length,
}
use spot_grid_bot.Base.Dict.{lookup}
use spot_grid_bot.Instrument.{Currency, CurrencyPair, pair_valid, currency_valid, no_currency}
use spot_grid_bot.Rates.{find_at}
use spot_grid_bot.Rates.Finding.{KeysValid, IsValidPair, All-find_at, All-emplace_at}
use spot_grid_bot.Symbols.{
  NameCache, Text, Mapping, NameMap, split_at, drop, find_name, currency_of, pair_from, parse,
  parse_delimited, to_string_view, pair_to_string,
}
use spot_grid_bot.Symbols.Texts.{
  has_char, has_char-append, split_at-append, take-append-drop, NamesLack, find_name-has_char,
  find_name-lacks,
}

-- A text that is no name gives no valid currency.
currency_of-unknown :
    (names : NameMap) (t : Text)
    → find_name t names ≡ none
    → currency_valid (currency_of names t) ≡ false
unfolding currency_of currency_valid
currency_of-unknown names [] h = rw (currency_of, h) refl
currency_of-unknown names (c ∷ t) h = rw (currency_of, h) refl

-- If a text has a slash, its parts of three characters are not both names.
halves_invalid :
    (names : NameMap) (s t : Text)
    → NamesLack b'/' names
    → has_char b'/' (s ++ t) ≡ true
    → pair_valid (pair_from names s t) ≡ false
unfolding pair_valid
halves_invalid names s t l h = elim (Bool-cases (has_char b'/' s)) [
  | inl e ↦ rw (currency_of-unknown names s (find_name-has_char b'/' s names l e)) refl
  | inr e ↦
      let u : has_char b'/' t ≡ true = rw (has_char-append b'/' s t, e) at h in
      let v = currency_of-unknown names t (find_name-has_char b'/' t names l u) in ground arith
]

currency_of-known :
    (names : NameMap) (t : Text) (c : Currency)
    → find_name t names ≡ some c
    → currency_of names t ≡ c
unfolding currency_of
currency_of-known names t c h = rw (currency_of, h) refl

joined_has_char : (s t : Text) → has_char b'/' (s ++ b'/' ∷ t) ≡ true
unfolding split_at
joined_has_char s t = rw (has_char-append b'/' s (b'/' ∷ t)) (ground arith)

parse_delimited-slash :
    (names : NameMap) (w s t : Text)
    → split_at b'/' w ≡ some (s, t)
    → parse_delimited names w ≡ pair_from names s t
unfolding parse_delimited
parse_delimited-slash names w s t e = rw (parse_delimited, e) refl

skip_test {ℓ} : {A : Type ℓ} (b : Bool) (x y : A) → (if b && false then x else y) ≡ y
skip_test true x y = refl
skip_test false x y = refl

parse-joined :
    (names : NameMap) (w s t : Text)
    → w ≡ s ++ b'/' ∷ t
    → NamesLack b'/' names
    → has_char b'/' s ≡ false
    → parse names w ≡ pair_from names s t
unfolding parse split_at
parse-joined names [] s t e l h =
    let k : has_char b'/' [] ≡ true = ap (has_char b'/') e ∙ joined_has_char s t in cc
parse-joined names (c ∷ w) s t e l h =
    let k : has_char b'/' (take 3 (c ∷ w) ++ drop 3 (c ∷ w)) ≡ true =
      ap (has_char b'/') (take-append-drop 3 (c ∷ w) ∙ e) ∙ joined_has_char s t in
    rw (halves_invalid names (take 3 (c ∷ w)) (drop 3 (c ∷ w)) l k) (
      skip_test (length (c ∷ w) == 6) (pair_from names (take 3 (c ∷ w)) (drop 3 (c ∷ w)))
        (parse_delimited names (c ∷ w))
      ∙ parse_delimited-slash names (c ∷ w) s t (ap (split_at b'/') e ∙ split_at-append b'/' s t h))

to_string_view-known :
    (m : Mapping) (c : Currency) (t : Text)
    → lookup c m.val_to_str ≡ some t
    → to_string_view m c ≡ (m, t)
unfolding to_string_view
to_string_view-known m c t h = rw (to_string_view, h) refl

-- The text of a pair by the names of its currencies
abbrev pub IsNamed : Mapping → CurrencyPair × Text → Type 0
IsNamed m e =
    (s : Text) × (t : Text) × (lookup e.0.base_ccy m.val_to_str ≡ some s)
    × (lookup e.0.quote_ccy m.val_to_str ≡ some t)
    × (e.1 ≡ s ++ b'/' ∷ t)

-- The cache has valid pairs only, with their texts.
abbrev pub IsCached : Mapping → NameCache → Type 0
IsCached m cache = KeysValid cache × All (IsNamed m) cache

pair_to_string-known :
    (m : Mapping) (cache : NameCache) (cp : CurrencyPair) (s t : Text)
    → pair_valid cp ≡ true
    → lookup cp.base_ccy m.val_to_str ≡ some s
    → lookup cp.quote_ccy m.val_to_str ≡ some t
    → IsCached m cache
    → let (m', cache', text) = pair_to_string m cache cp in
      (m' ≡ m) × (text ≡ s ++ b'/' ∷ t) × IsCached m cache'
unfolding pair_to_string pair_valid currency_valid
pair_to_string-known m cache cp s t v h k (valid, named) =
    let there : ((cp.base_ccy == no_currency) && (cp.quote_ccy == no_currency)) ≡ false =
      ground arith in
    rw there (elim (Option-cases (find_at cp cache)) [
      | inr (text, e) ↦
          let (s', t', x, y, z) = All-find_at (IsNamed m) cache cp text named valid v e in
          rw e (refl, cc, (valid, named))
      | inl e ↦
          let text = s ++ b'/' ∷ t in
          rw (e, to_string_view-known m cp.base_ccy s h, to_string_view-known m cp.quote_ccy t k)
            (
              refl,
              refl,
              (
                All-emplace_at (λ x. IsValidPair x.0) cache cp text v valid,
                All-emplace_at (IsNamed m) cache cp text (s, t, h, k, refl) named,
              ),
            )
    ])

-- A pair of registered valid currencies is what Parse makes of the text that ToString returns, if
-- the two maps agree on them, no name has a slash, and the cache of texts has valid pairs only,
-- with their names; then it is so afterwards too, and the maps stay.
pub parse-pair_to_string :
    (m : Mapping) (cache : NameCache) (cp : CurrencyPair) (s t : Text)
    → pair_valid cp ≡ true
    → lookup cp.base_ccy m.val_to_str ≡ some s
    → lookup cp.quote_ccy m.val_to_str ≡ some t
    → find_name s m.str_to_val ≡ some cp.base_ccy
    → find_name t m.str_to_val ≡ some cp.quote_ccy
    → NamesLack b'/' m.str_to_val
    → IsCached m cache
    → let (m', cache', text) = pair_to_string m cache cp in
      (m' ≡ m) × (text ≡ s ++ b'/' ∷ t) × (parse m.str_to_val text ≡ cp) × IsCached m cache'
parse-pair_to_string m cache cp s t v h k f g l c =
    let (same, text, kept) = pair_to_string-known m cache cp s t v h k c in
    let named : is_some (find_name s m.str_to_val) ≡ true = ap is_some f in
    (
      same,
      text,
      ap (parse m.str_to_val) text
          ∙ parse-joined m.str_to_val (s ++ b'/' ∷ t) s t refl l
              (find_name-lacks b'/' s m.str_to_val l named)
          ∙ ap₂ (λ b q. record { base_ccy = b; quote_ccy = q })
              (currency_of-known m.str_to_val s cp.base_ccy f)
              (currency_of-known m.str_to_val t cp.quote_ccy g),
      kept,
    )
