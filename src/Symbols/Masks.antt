-- ===== src/Symbols/Masks.antt =====
-- Masks that match a pair are valid masks.
use spot_grid_bot.Base.{◌≡◌, true, [], ◌∷◌, arith, ◌==◌}
use spot_grid_bot.Instrument.{Currency, CurrencyPair, pair_valid, currency_valid}
use spot_grid_bot.Symbols.{
  NameMap, Text, currency_of, name_valid, valid_mask, mask_matches, matches_mask,
}

name_valid-of_match :
    (names : NameMap) (t : Text) (c : Currency)
    → currency_valid c ≡ true
    → (currency_of names t == c) ≡ true
    → name_valid names t ≡ true
unfolding name_valid currency_valid
name_valid-of_match names t c v h = ground arith

-- A mask that matches some pair is a valid mask.
pub matches_mask-valid_mask :
    (names : NameMap) (cp : CurrencyPair) (mask : Text)
    → matches_mask names cp mask ≡ true
    → valid_mask names mask ≡ true
unfolding matches_mask mask_matches valid_mask pair_valid
matches_mask-valid_mask names cp [] h = ground arith
matches_mask-valid_mask names cp (a ∷ []) h = ground arith
matches_mask-valid_mask names cp (a ∷ b ∷ []) h = ground arith
matches_mask-valid_mask names cp (a ∷ b ∷ c ∷ []) h = ground (
  arith,
  name_valid-of_match names (a ∷ b ∷ c ∷ []) cp.base_ccy,
  name_valid-of_match names (a ∷ b ∷ c ∷ []) cp.quote_ccy,
)
matches_mask-valid_mask names cp (a ∷ b ∷ c ∷ d ∷ []) h = ground arith
matches_mask-valid_mask names cp (a ∷ b ∷ c ∷ d ∷ e ∷ []) h = ground (
  arith,
  name_valid-of_match names (c ∷ d ∷ e ∷ []) cp.quote_ccy,
  name_valid-of_match names (a ∷ b ∷ c ∷ []) cp.base_ccy,
)
matches_mask-valid_mask names cp (a ∷ b ∷ c ∷ d ∷ e ∷ f ∷ []) h = ground (
  arith,
  name_valid-of_match names (a ∷ b ∷ c ∷ []) cp.base_ccy,
  name_valid-of_match names (d ∷ e ∷ f ∷ []) cp.quote_ccy,
)
matches_mask-valid_mask names cp (a ∷ b ∷ c ∷ d ∷ e ∷ f ∷ g ∷ []) h = ground (
  arith,
  name_valid-of_match names (a ∷ b ∷ c ∷ []) cp.base_ccy,
  name_valid-of_match names (e ∷ f ∷ g ∷ []) cp.quote_ccy,
)
matches_mask-valid_mask names cp (a ∷ b ∷ c ∷ d ∷ e ∷ f ∷ g ∷ i ∷ t) h = ground arith
