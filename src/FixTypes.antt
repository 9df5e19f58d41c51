-- ===== src/FixTypes.antt =====
-- lib/utils/include/Utils/FixTypes.h and lib/utils/src/FixTypes.cpp: the FIX characters for sides,
-- quote types and times in force, each a class around one `char`.
pub mod Laws
pub mod Tests
use spot_grid_bot.Base.{
  ℕ, ◌+◌, ◌-◌, Bool, true, false, ◌&&◌, ◌||◌, List, [], ◌∷◌, ◌==◌, leb, ltb, if◌then◌else◌,
}
use spot_grid_bot.Base.Int.{ℤ, pos, negsuc, pos_part, sub_ℕ}

-- `class Side`
pub record Side : Type 0 where
  pub value : ℕ

abbrev pub buy_side : Side
buy_side = record { value = b'1' }

abbrev pub sell_side : Side
sell_side = record { value = b'2' }

abbrev pub invalid_side : Side
invalid_side = record { value = 0 }

unfoldable pub is_buy : Side → Bool
is_buy s = s.value == b'1'

unfoldable pub is_sell : Side → Bool
is_sell s = s.value == b'2'

unfoldable pub side_valid : Side → Bool
side_valid s = s.value == b'1' || s.value == b'2'

-- `Side::operator~`
unfoldable pub opposite_side : Side → Side
unfolding is_buy is_sell
opposite_side s = if is_buy s then sell_side else if is_sell s then buy_side else invalid_side

-- `class QuoteType`
pub record QuoteType : Type 0 where
  pub value : ℕ

abbrev pub bid_type : QuoteType
bid_type = record { value = b'0' }

abbrev pub offer_type : QuoteType
offer_type = record { value = b'1' }

abbrev pub invalid_type : QuoteType
invalid_type = record { value = 0 }

unfoldable pub is_bid : QuoteType → Bool
is_bid t = t.value == b'0'

unfoldable pub is_offer : QuoteType → Bool
is_offer t = t.value == b'1'

unfoldable pub type_valid : QuoteType → Bool
type_valid t = t.value == b'0' || t.value == b'1'

-- `QuoteType::operator~`
unfoldable pub opposite_type : QuoteType → QuoteType
unfolding is_bid is_offer
opposite_type t = if is_bid t then offer_type else if is_offer t then bid_type else invalid_type

-- `BidAskPair<T>`
pub record BidAskPair {ℓ} (T : Type ℓ) : Type ℓ where
  pub bid : T
  pub ask : T

module _ {ℓ} {T : Type ℓ} where
  abbrev pub get_side : BidAskPair T → Bool → T
  get_side p b = if b then p.bid else p.ask

  -- `p.Get(bid) = v`
  abbrev pub set_side : BidAskPair T → Bool → T → BidAskPair T
  set_side p b v = if b then record p { bid = v } else record p { ask = v }

-- `TimeInForce::IsValid`: '0' (DAY) to '7' (CLS)
unfoldable pub tif_valid : ℕ → Bool
tif_valid c = leb b'0' c && leb c b'7'

-- `TimeInForce(char)`: anything else becomes INVALID.
unfoldable pub tif_of_char : ℕ → ℕ
unfolding tif_valid
tif_of_char c = if tif_valid c then c else 0

-- `TimeInForce::CharToIndex`
unfoldable pub char_to_index : ℕ → ℤ
unfolding tif_valid
char_to_index c = if tif_valid c then pos (c - b'0') else negsuc 0

-- The representation of a time in force as text: its place among the nine names.
abbrev pub TifName : Type 0
TifName = ℕ

abbrev pub invalid_name : TifName
invalid_name = 8

-- `TimeInForce::CharToString`, as an index into `names`
unfoldable pub char_to_name : ℕ → TifName
unfolding tif_valid char_to_index
char_to_name c = if tif_valid c then pos_part (char_to_index c) else invalid_name

-- `TimeInForce::StringToChar`, of the index that `IndexOf(names, str)` gave
unfoldable pub name_to_char : ℤ → ℕ
name_to_char (pos ix) = if ltb ix 8 then ix + b'0' else 0
name_to_char (negsuc _) = 0
