-- ===== src/Durations.antt =====
-- `NanosecondsToString` and `StringToNanoseconds` of lib/utils/src/Utils.cpp. A text is the list of
-- its character codes. `stod` and the conversion of a double to int64_t are parameters.
pub mod Decimal
pub mod Units
pub mod RoundTrip
pub mod Tests
use spot_grid_bot.Base.{
  ℕ, zero, suc, ◌+◌, ◌-◌, ◌*◌, ◌/◌, ◌%◌, ◌<◌, ◌^◌, ◌≡◌, Bool, true, false, ◌&&◌, ◌||◌, List, [],
  ◌∷◌, ◌++◌, ◌==◌, ltb, leb, length, if◌then◌else◌, Option, none, some,
}
use mathlib.Core.List.{reverse}
use spot_grid_bot.Base.Int.{ℤ, pos, negsuc, ◌*ℤ◌, quot, magnitude, eqb_ℤ}
use spot_grid_bot.Base.Double.{Double}

-- A loop that divides by `k` while that leaves no remainder, for at most `rounds` rounds
unfoldable pub divide_out : ℕ → ℕ → ℤ → ℕ → ℤ × ℕ
divide_out zero k ns unit = (ns, unit)
divide_out (suc rounds) k ns unit =
    let rest = divide_out rounds k (quot ns (pos k)) (suc unit) in
    if magnitude ns % k == 0 then rest else (ns, unit)

-- The first loop, up to seconds; the second, up to hours; the condition for days
unfoldable pub scale_fractions : ℤ → ℤ × ℕ
unfolding divide_out
scale_fractions ns = divide_out 3 1000 ns 0

unfoldable pub scale_seconds : ℤ × ℕ → ℤ × ℕ
unfolding divide_out
scale_seconds (ns, unit) = if unit == 3 then divide_out 2 60 ns 3 else (ns, unit)

unfoldable pub scale_hours : ℤ × ℕ → ℤ × ℕ
scale_hours (ns, unit) =
    if (unit == 5) && (magnitude ns % 24 == 0) then (quot ns (pos 24), 6) else (ns, unit)

unfoldable pub scale : ℤ → ℤ × ℕ
unfolding scale_fractions scale_seconds scale_hours
scale ns = scale_hours (scale_seconds (scale_fractions ns))

-- What is written after the number
unfoldable pub unit_text : ℕ → List ℕ
unit_text u =
    if u == 0
    then b'n' ∷ b's' ∷ []
    else if u == 1
    then b'u' ∷ b's' ∷ []
    else if u == 2
    then b'm' ∷ b's' ∷ []
    else if u == 3
    then b's' ∷ []
    else if u == 4
    then b'm' ∷ []
    else if u == 5
    then b'h' ∷ []
    else if u == 6
    then b'd' ∷ []
    else b'?' ∷ []

-- What a stream writes of an integer: its decimal digits, behind a minus if it is negative. The
-- fuel of `decimal_from` is the number itself, since each digit divides it by 10.
unfoldable pub decimal_from : ℕ → ℕ → List ℕ
decimal_from zero n = (b'0' + n) ∷ []
decimal_from (suc fuel) n = elim (ltb n 10) [
  | true ↦ (b'0' + n) ∷ []
  | false ↦ decimal_from fuel (n / 10) ++ (b'0' + n % 10) ∷ []
]

unfoldable pub decimal : ℤ → List ℕ
unfolding decimal_from
decimal (pos n) = decimal_from n n
decimal (negsuc n) = b'-' ∷ decimal_from (suc n) (suc n)

-- `toupper` in the C locale
abbrev pub to_upper : ℕ → ℕ
to_upper c = if leb b'a' c && leb c b'z' then c - 32 else c

-- `std::regex_match` with the expression of `parse<double>`: a sign or none, digits, and a point with
-- digits or none
abbrev pub is_digit : ℕ → Bool
is_digit c = leb b'0' c && leb c b'9'

unfoldable pub skip_digits : List ℕ → List ℕ
skip_digits [] = []
skip_digits (c ∷ t) = if is_digit c then skip_digits t else c ∷ t

unfoldable pub some_digits : List ℕ → Bool
some_digits [] = false
some_digits (c ∷ t) = is_digit c

unfoldable pub is_fraction : List ℕ → Bool
unfolding some_digits skip_digits
is_fraction [] = true
is_fraction (c ∷ t) = (c == b'.') && some_digits t && (length (skip_digits t) == 0)

unfoldable pub is_double_text : List ℕ → Bool
unfolding some_digits skip_digits is_fraction
is_double_text [] = false
is_double_text (c ∷ t) =
    if (c == b'+') || (c == b'-')
    then some_digits t && is_fraction (skip_digits t)
    else some_digits (c ∷ t) && is_fraction (skip_digits (c ∷ t))

-- The factor of a unit by the last two characters of the text, in capitals, and how many of them
-- belong to the unit. A text of one character has no unit.
unfoldable pub read_unit : ℕ → ℕ → ℕ × ℕ
read_unit last before =
    if last == b'S'
    then if before == b'N'
      then (2, 1)
      else if before == b'U'
      then (2, 1_000)
      else if before == b'M'
      then (2, 1_000_000)
      else (1, 1_000_000_000)
    else if last == b'M'
    then (1, 60_000_000_000)
    else if last == b'H'
    then (1, 3_600_000_000_000)
    else if last == b'D'
    then (1, 86_400_000_000_000)
    else (0, 1)

-- The loop that ignores blanks before the unit, over the characters from the last one: one is left.
unfoldable pub drop_blanks : List ℕ → List ℕ
drop_blanks [] = []
drop_blanks (c ∷ []) = c ∷ []
drop_blanks (c ∷ d ∷ l) = let rest = drop_blanks (d ∷ l) in if c == b' ' then rest else c ∷ d ∷ l

-- The characters before the unit, from the last one, and the factor
unfoldable pub split_unit : List ℕ → List ℕ × ℕ
unfolding read_unit
split_unit [] = ([], 1)
split_unit (c ∷ []) = (c ∷ [], 1)
split_unit (c ∷ d ∷ l) =
    let (taken, factor) = read_unit (to_upper c) (to_upper d) in
    (if taken == 0 then c ∷ d ∷ l else if taken == 1 then d ∷ l else l, factor)

-- What `StringToNanoseconds` uses of the standard library: `stod`, with none where it throws, and the
-- conversion to int64_t. Reading the digits of an integer, multiplying one by a positive integer
-- and converting one back are exact below 2 ^ 53.
pub record Numerals (D : Double) : Type 0 where
  pub stod : List ℕ → Option D.F
  pub to_int64 : D.F → ℤ
  pub stod-decimal : (z : ℤ) → magnitude z < 2 ^ 53 → stod (decimal z) ≡ some (D.of_int z)
  pub mul_exact :
      (z : ℤ) (k : ℕ)
      → 0 < k
      → magnitude (z *ℤ pos k) < 2 ^ 53
      → D.mul (D.of_int z) (D.of_int (pos k)) ≡ D.of_int (z *ℤ pos k)
  pub to_int64-of_int : (z : ℤ) → magnitude z < 2 ^ 53 → to_int64 (D.of_int z) ≡ z

module _ (D : Double) (N : Numerals D) where
  -- `NanosecondsToString`
  unfoldable pub nanoseconds_to_string : ℤ → List ℕ
  unfolding scale unit_text decimal
  nanoseconds_to_string ns =
      if eqb_ℤ ns (pos 0)
      then b'0' ∷ []
      else let (z, unit) = scale ns in decimal z ++ unit_text unit

  -- `convert` and `parse<double>` with the default 0.0, which is also for what `stod` refuses
  unfoldable pub convert : List ℕ → (List ℕ → Bool) → (List ℕ → Option D.F) → D.F → D.F
  convert t matches read default =
      if matches t then elim (read t) [ none ↦ default | some d ↦ d ] else default

  unfoldable pub parse_double : List ℕ → D.F
  unfolding convert is_double_text
  parse_double t = convert t is_double_text N.stod (D.of_int (pos 0))

  -- The end of `StringToNanoseconds`, on the characters before the unit and the factor
  unfoldable pub read_parts : List ℕ × ℕ → ℤ
  unfolding drop_blanks parse_double
  read_parts (rest, factor) =
      N.to_int64 (D.mul (parse_double (reverse (drop_blanks rest))) (D.of_int (pos factor)))

  -- `StringToNanoseconds`
  unfoldable pub string_to_nanoseconds : List ℕ → ℤ
  unfolding split_unit read_parts
  string_to_nanoseconds t = read_parts (split_unit (reverse t))
