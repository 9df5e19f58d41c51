-- ===== src/Samples.antt =====
-- A concrete arithmetic for the tests: `double` as whole numbers.
use Prim.Native.Nat.{◌/◌, ◌^◌}
use spot_grid_bot.Base.Int.{ℤ, pos, ◌+ℤ◌, ◌-ℤ◌, ◌*ℤ◌, quot, ltb_ℤ, leb_ℤ, eqb_ℤ, max_ℤ}
use spot_grid_bot.Base.Double.{Double}

abbrev pub whole : Double
whole = record {
  F = ℤ;
  of_int = λ z. z;
  literal = λ mantissa digits. pos (mantissa / 10 ^ digits);
  add = ◌+ℤ◌;
  sub = ◌-ℤ◌;
  mul = ◌*ℤ◌;
  div = quot;
  neg = λ z. pos 0 -ℤ z;
  fabs = λ z. max_ℤ z (pos 0 -ℤ z);
  floor = λ z. z;
  llround = λ z. z;
  lt = ltb_ℤ;
  le = leb_ℤ;
  eq = eqb_ℤ;
}
