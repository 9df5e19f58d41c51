-- ===== src/FixTypes/Laws.antt =====
-- What the sides, quote types and times in force promise.
use spot_grid_bot.Base.{ℕ, ◌≡◌, true, arith}
use spot_grid_bot.Base.Int.{pos}
use spot_grid_bot.FixTypes.{
  Side, is_buy, is_sell, side_valid, opposite_side, tif_valid, char_to_name, name_to_char,
}

-- Reversing a valid side twice gives it back, and turns a BUY into a SELL and back.
pub opposite_twice :
    (s : Side)
    → side_valid s ≡ true
    → (opposite_side (opposite_side s) ≡ s)
      × (is_sell (opposite_side s) ≡ is_buy s)
      × (is_buy (opposite_side s) ≡ is_sell s)
unfolding opposite_side side_valid
opposite_twice s h = ground arith

-- A valid time in force survives the way to its name and back.
pub name_to_char-char_to_name :
    (c : ℕ) → tif_valid c ≡ true → name_to_char (pos (char_to_name c)) ≡ c
unfolding tif_valid char_to_name name_to_char
name_to_char-char_to_name c h = ground arith
