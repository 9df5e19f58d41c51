-- ===== src/Instrument.antt =====
-- `Currency` and `CurrencyPair` of lib/utils/include/Utils/CurrencyPair.h. A currency is its
-- enumerator's number. The table of pip factors is an argument of what reads it.
use spot_grid_bot.Base.{
  ℕ, ◌≡◌, ◌↔◌, Bool, true, false, not, ◌&&◌, ◌||◌, arith, ◌==◌, ltb, if◌then◌else◌, some, none,
}
use spot_grid_bot.Base.Int.{ℤ, pos}
use spot_grid_bot.Base.Dict.{Dict, lookup}
use spot_grid_bot.Base.Double.{Double}

abbrev pub Currency : Type 0
Currency = ℕ

-- `Currency::NONE`, `Currency::END_OF_FX` and `Currency::INVALID`
abbrev pub no_currency : Currency
no_currency = 0

abbrev pub end_of_fx : Currency
end_of_fx = 70

abbrev pub invalid_currency : Currency
invalid_currency = 999_999

unfoldable pub currency_valid : Currency → Bool
currency_valid c = not (c == no_currency) && not (c == invalid_currency)

pub record CurrencyPair : Type 0 where
  pub base_ccy : Currency
  pub quote_ccy : Currency

unfoldable pub pair_valid : CurrencyPair → Bool
unfolding currency_valid
pair_valid cp = currency_valid cp.base_ccy && currency_valid cp.quote_ccy

unfoldable pub is_fx : CurrencyPair → Bool
is_fx cp = ltb cp.base_ccy end_of_fx

-- `CurrencyPair::operator<`, by which std::map orders and identifies its keys
unfoldable pub pair_lt : CurrencyPair → CurrencyPair → Bool
unfolding pair_valid
pair_lt a b =
    if pair_valid a && (a.base_ccy == b.base_ccy)
    then ltb a.quote_ccy b.quote_ccy
    else ltb a.base_ccy b.base_ccy

-- `Currency::StrToVal`, over the map `m_strToVal`. A text is its number in some enumeration of
-- texts, in which the empty text has number 0.
unfoldable pub str_to_val : Dict Currency → ℕ → Currency
str_to_val names sv = elim (lookup sv names) [
  | some value ↦ value
  | none ↦ if sv == 0 then no_currency else invalid_currency
]

-- `CurrencyPair::OtherCCY`
unfoldable pub other_ccy : CurrencyPair → Currency → Currency
other_ccy cp c =
    if c == cp.base_ccy
    then cp.quote_ccy
    else if c == cp.quote_ccy
    then cp.base_ccy
    else invalid_currency

-- `CurrencyPair::operator~`
unfoldable pub reverse_pair : CurrencyPair → CurrencyPair
unfolding pair_valid
reverse_pair cp =
    if pair_valid cp then record { base_ccy = cp.quote_ccy; quote_ccy = cp.base_ccy } else cp

-- For a map's keys: neither is below the other exactly if the pairs are the same, when valid.
pub pair_lt_keys :
    (a b : CurrencyPair)
    → pair_valid a ≡ true
    → pair_valid b ≡ true
    → ((pair_lt a b || pair_lt b a) ≡ false) ↔ (a ≡ b)
unfolding pair_lt
pair_lt_keys a b va vb = (λ h. ground arith, λ e. ground arith)

module _ (D : Double) (pip_factor : CurrencyPair → ℤ) where
  open D use {F, of_int, mul, div, llround}

  -- `CpipFactor` is 100 pips; the quantity factors are of Utils.h.
  pub cpip_factor : CurrencyPair → F
  cpip_factor cp = mul (of_int (pip_factor cp)) (of_int (pos 100))

  pub quantity_factor : CurrencyPair → F
  quantity_factor cp = if is_fx cp then of_int (pos 100) else of_int (pos 100_000_000)

  pub dbl_to_cpip : CurrencyPair → F → ℤ
  dbl_to_cpip cp d = llround (mul d (cpip_factor cp))

  pub cpip_to_dbl : CurrencyPair → ℤ → F
  cpip_to_dbl cp c = div (of_int c) (cpip_factor cp)

  pub qty_to_double : CurrencyPair → ℤ → F
  qty_to_double cp q = div (of_int q) (quantity_factor cp)

  pub double_to_qty : CurrencyPair → F → ℤ
  double_to_qty cp q = llround (mul q (quantity_factor cp))
