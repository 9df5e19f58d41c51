-- ===== src/FixTypes/Tests.antt =====
-- The theorems about the FIX characters, at concrete characters.
use spot_grid_bot.Base.{◌≡◌, refl, true}
use spot_grid_bot.FixTypes.{tif_valid}

valid_49 : tif_valid 49 ≡ true
unfolding tif_valid
valid_49 = refl
