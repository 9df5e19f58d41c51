-- ===== src/Durations/Tests.antt =====
-- Durations in whole numbers, with the reading of decimal digits.
use spot_grid_bot.Base.{
  ℕ, zero, suc, ◌+◌, ◌-◌, ◌*◌, ◌/◌, ◌%◌, ◌≤◌, ◌≡◌, ◌∙◌, refl, sym, ap, inl, inr, Option, some, true,
  List, [], ◌∷◌, ◌++◌, arith, ◌==◌, ltb, if◌then◌else◌, Bool-cases,
}
use spot_grid_bot.Base.Int.{ℤ, pos, negsuc, neg, quot}
use spot_grid_bot.Samples.{whole}
use spot_grid_bot.Durations.{
  Numerals, decimal, decimal_from, is_digit, nanoseconds_to_string, string_to_nanoseconds,
}
use spot_grid_bot.Durations.Decimal.{AreDigits, decimal_from_lem}
use spot_grid_bot.Durations.RoundTrip.{string_to_nanoseconds-nanoseconds_to_string}

-- The number whose first digits have been read as `n`
abbrev value : ℕ → List ℕ → ℕ
value n [] = n
value n (c ∷ t) = value (n * 10 + (c - b'0')) t

abbrev read : List ℕ → Option ℤ
read [] = some (pos 0)
read (c ∷ t) = if c == b'-' then some (neg (value 0 t)) else some (pos (value 0 (c ∷ t)))

value-append : (n c : ℕ) (t : List ℕ) → value n (t ++ c ∷ []) ≡ value n t * 10 + (c - b'0')
value-append n c [] = refl
value-append n c (d ∷ t) = value-append (n * 10 + (d - b'0')) c t

value-decimal_from : (fuel n : ℕ) → n ≤ fuel → value 0 (decimal_from fuel n) ≡ n
unfolding decimal_from
value-decimal_from zero n h = omega (arith, h)
value-decimal_from (suc fuel) n h = elim (Bool-cases (ltb n 10)) [
  | inl e ↦ rw (e, decimal_from) (omega arith)
  | inr e ↦
      rw
        (
          e,
          decimal_from,
          value-append 0 (b'0' + n % 10) (decimal_from fuel (n / 10)),
          value-decimal_from fuel (n / 10) (ground (arith, e, h)),
        )
        (omega arith)
]

read-digits :
    (before : List ℕ) (c : ℕ)
    → AreDigits before
    → is_digit c ≡ true
    → read (before ++ c ∷ []) ≡ some (pos (value 0 (before ++ c ∷ [])))
read-digits [] c a d = ground (arith, d)
read-digits (b ∷ before) c a d = ground (arith, a.0)

read-decimal : (z : ℤ) → read (decimal z) ≡ some z
unfolding decimal neg
read-decimal (pos n) =
    let (before, c, same, a, d) = decimal_from_lem n n (omega arith) in
    ap read same
    ∙ read-digits before c a d
    ∙ ap (λ t. some (pos (value 0 t))) (sym same)
    ∙ ap (λ m. some (pos m)) (value-decimal_from n n (omega arith))
read-decimal (negsuc n) = ap (λ m. some (neg m)) (value-decimal_from (suc n) (suc n) (omega arith))

abbrev numerals : Numerals whole
numerals = record {
  stod = read;
  to_int64 = λ z. z;
  stod-decimal = λ z h. read-decimal z;
  mul_exact = λ z k p h. refl;
  to_int64-of_int = λ z h. refl;
}

-- Ninety minutes, which are written as minutes
string_to_nanoseconds-nanoseconds_to_string_example :
    string_to_nanoseconds whole numerals
      (nanoseconds_to_string whole numerals (pos 5_400_000_000_000))
    ≡ pos 5_400_000_000_000
string_to_nanoseconds-nanoseconds_to_string_example =
    string_to_nanoseconds-nanoseconds_to_string whole numerals (pos 5_400_000_000_000) (omega arith)

ninety_minutes :
    nanoseconds_to_string whole numerals (pos 5_400_000_000_000) ≡ b'9' ∷ b'0' ∷ b'm' ∷ []
unfolding nanoseconds_to_string quot
ninety_minutes = refl
