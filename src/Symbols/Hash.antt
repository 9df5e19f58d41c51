-- ===== src/Symbols/Hash.antt =====
-- `CurrencyPairHash` of lib/utils/src/CurrencyPair.cpp: the pairs of symbols that were asked for.
use spot_grid_bot.Base.{
  ◌≡◌, ◌∙◌, refl, sym, ap, inl, inr, true, Option, none, some, List, [], ◌∷◌, if◌then◌else◌,
  Bool-cases, Option-cases, All,
}
use spot_grid_bot.Instrument.{CurrencyPair, pair_valid}
use spot_grid_bot.Symbols.{Text, NameMap, text_eqb, parse}
use spot_grid_bot.Symbols.Texts.{text_eqb→eq}

-- `m_hash`
abbrev pub SymbolHash : Type 0
SymbolHash = List (Text × CurrencyPair)

unfoldable pub find_symbol : Text → SymbolHash → Option CurrencyPair
unfolding text_eqb
find_symbol t [] = none
find_symbol t ((s, cp) ∷ hash) = if text_eqb s t then some cp else find_symbol t hash

-- `GetCurrencyPair`: a pair that is not valid is not entered.
unfoldable pub get_currency_pair : NameMap → SymbolHash → Text → SymbolHash × CurrencyPair
unfolding find_symbol parse pair_valid
get_currency_pair names hash symbol = elim (find_symbol symbol hash) [
  | some cp ↦ (hash, cp)
  | none ↦ let cp = parse names symbol in (if pair_valid cp then (symbol, cp) ∷ hash else hash, cp)
]

-- The hash has what Parse makes of its symbols, and valid pairs only.
abbrev pub IsCoherent : NameMap → SymbolHash → Type 0
IsCoherent names hash = All (λ e. (parse names e.0 ≡ e.1) × (pair_valid e.1 ≡ true)) hash

find_symbol-IsCoherent :
    (names : NameMap) (t : Text) (hash : SymbolHash) (cp : CurrencyPair)
    → IsCoherent names hash
    → find_symbol t hash ≡ some cp
    → parse names t ≡ cp
unfolding find_symbol
find_symbol-IsCoherent names t [] cp c e = cc
find_symbol-IsCoherent names t ((s, d) ∷ hash) cp c e = elim (Bool-cases (text_eqb s t)) [
  | inl f ↦
      let here : d ≡ cp = cc (rw f at e) in
      ap (parse names) (sym (text_eqb→eq s t f)) ∙ c.0.0 ∙ here
  | inr f ↦ find_symbol-IsCoherent names t hash cp c.1 (rw f at e)
]

-- While the names stay, GetCurrencyPair answers what Parse makes of the symbol, whatever was asked
-- before, and keeps the hash so.
pub get_currency_pair-parse :
    (names : NameMap) (hash : SymbolHash) (symbol : Text)
    → IsCoherent names hash
    → ((get_currency_pair names hash symbol).1 ≡ parse names symbol)
      × IsCoherent names (get_currency_pair names hash symbol).0
unfolding get_currency_pair
get_currency_pair-parse names hash symbol c = elim (Option-cases (find_symbol symbol hash)) [
  | inr (cp, e) ↦
      rw (e, get_currency_pair) (sym (find_symbol-IsCoherent names symbol hash cp c e), c)
  | inl e ↦
      rw (e, get_currency_pair)
        (
          refl,
          elim (Bool-cases (pair_valid (parse names symbol))) [
            | inl v ↦ rw v ((refl, v), c)
            | inr v ↦ rw v c
          ],
        )
]
