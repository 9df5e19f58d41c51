-- ===== src/Durations/RoundTrip.antt =====
-- What NanosecondsToString writes is read back by StringToNanoseconds.
use spot_grid_bot.Base.{
  ℕ, zero, suc, ◌+◌, ◌*◌, ◌<◌, ◌≤◌, ◌^◌, ◌≡◌, ◌≢◌, ◌∙◌, refl, sym, subst, ap, inl, inr, true, List,
  [], ◌∷◌, ◌++◌, arith, Bool-cases,
}
use mathlib.Core.List.{reverse, reverse-append, reverse-reverse}
use spot_grid_bot.Base.Int.{ℤ, pos, negsuc, neg, neg-mul, ◌*ℤ◌, magnitude, eqb_ℤ, eqb_ℤ→eq, pos-*ℤ}
use spot_grid_bot.Base.Double.{Double}
use spot_grid_bot.Durations.{
  is_digit, decimal, decimal_from, parse_double, convert, read_unit, to_upper, scale, unit_text,
  split_unit, drop_blanks, Numerals, read_parts, nanoseconds_to_string, string_to_nanoseconds,
}
use spot_grid_bot.Durations.Decimal.{decimal_lem}
use spot_grid_bot.Durations.Units.{factor_of, scale_lem}

not_blank : (c : ℕ) → is_digit c ≡ true → c ≢ b' '
not_blank c d e = absurd (ground (arith, d, e))

drop_blanks-digit : (c : ℕ) (l : List ℕ) → c ≢ b' ' → drop_blanks (c ∷ l) ≡ c ∷ l
unfolding drop_blanks
drop_blanks-digit c [] h = refl
drop_blanks-digit c (d ∷ l) h = ground arith

factor_of_positive : (u : ℕ) → 0 < factor_of u
factor_of_positive u = ground arith

magnitude-neg : (n : ℕ) → magnitude (neg n) ≡ n
unfolding neg
magnitude-neg zero = refl
magnitude-neg (suc n) = omega arith

-- A factor that is not 0 makes no number smaller.
grows : (z : ℤ) (k : ℕ) → 0 < k → (b : ℕ) → magnitude (z *ℤ pos k) < b → magnitude z < b
unfolding neg
grows (pos m) k h b l =
    let low : m ≤ m * k = grind (arith, h) in
    let high : m * k + 0 < b = subst (λ y. magnitude y < b) (pos-*ℤ m k) l in
    omega (arith, low, high)
grows (negsuc m) k h b l =
    let low : suc m ≤ suc m * k = grind (arith, h) in
    let high : magnitude (neg (suc m * k)) < b =
      subst (λ y. magnitude y < b) (neg-mul (suc m) k) l in
    omega (arith, low, subst (λ y. y < b) (magnitude-neg (suc m * k)) high)

seconds : (c : ℕ) → is_digit c ≡ true → read_unit b'S' (to_upper c) ≡ (1, 1_000_000_000)
unfolding read_unit
seconds c d = ground (arith, d)

-- Behind a digit, a unit's text is split off with its factor.
split_unit-unit_text :
    (u c : ℕ) (l : List ℕ)
    → u ≤ 6
    → is_digit c ≡ true
    → split_unit (reverse (unit_text u) ++ c ∷ l) ≡ (c ∷ l, factor_of u)
unfolding split_unit unit_text
split_unit-unit_text zero c l h d = refl
split_unit-unit_text (suc zero) c l h d = refl
split_unit-unit_text (suc (suc zero)) c l h d = refl
split_unit-unit_text (suc (suc (suc zero))) c l h d = rw (seconds c d) refl
split_unit-unit_text (suc (suc (suc (suc zero)))) c l h d = refl
split_unit-unit_text (suc (suc (suc (suc (suc zero))))) c l h d = refl
split_unit-unit_text (suc (suc (suc (suc (suc (suc zero)))))) c l h d = refl
split_unit-unit_text (suc (suc (suc (suc (suc (suc (suc u))))))) c l h d = absurd (omega (arith, h))

module _ (D : Double) (N : Numerals D) where
  -- What is read of a digit with others before it, from the last one
  read_parts-text :
      (t before : List ℕ) (c : ℕ) (k : ℕ)
      → t ≡ before ++ c ∷ []
      → is_digit c ≡ true
      → read_parts D N (c ∷ reverse before, k)
        ≡ N.to_int64 (D.mul (parse_double D N t) (D.of_int (pos k)))
  unfolding read_parts
  read_parts-text t before c k e d =
      ap (λ x. N.to_int64 (D.mul (parse_double D N x) (D.of_int (pos k))))
        (ap reverse (drop_blanks-digit c (reverse before) (not_blank c d))
          ∙ ap reverse (sym (reverse-append before (c ∷ [])))
          ∙ reverse-reverse (before ++ c ∷ [])
          ∙ sym e)

  parse_double-decimal : (z : ℤ) → magnitude z < 2 ^ 53 → parse_double D N (decimal z) ≡ D.of_int z
  unfolding parse_double convert
  parse_double-decimal z h =
      let (before, c, same, d, ok) = decimal_lem z in rw (ok, N.stod-decimal z h) refl

  -- Reading a number and multiplying by a unit's factor is exact.
  exact :
      (z : ℤ) (k : ℕ)
      → 0 < k
      → magnitude (z *ℤ pos k) < 2 ^ 53
      → N.to_int64 (D.mul (parse_double D N (decimal z)) (D.of_int (pos k))) ≡ z *ℤ pos k
  exact z k h b =
      let small : magnitude z < 2 ^ 53 = grows z k h (2 ^ 53) b in
      ap (λ x. N.to_int64 (D.mul x (D.of_int (pos k)))) (parse_double-decimal z small)
      ∙ ap N.to_int64 (N.mul_exact z k h b)
      ∙ N.to_int64-of_int (z *ℤ pos k) b

  read_zero : string_to_nanoseconds D N (b'0' ∷ []) ≡ pos 0
  unfolding string_to_nanoseconds ◌*ℤ◌ split_unit decimal decimal_from
  read_zero =
      read_parts-text (b'0' ∷ []) [] b'0' 1 refl refl
      ∙ exact (pos 0) 1 (omega arith) (omega arith)
      ∙ pos-*ℤ 0 1

  -- A number with a unit's text is read as the number and the unit's factor.
  string_to_nanoseconds-unit_text :
      (z : ℤ) (u : ℕ)
      → u ≤ 6
      → string_to_nanoseconds D N (decimal z ++ unit_text u)
        ≡ N.to_int64 (D.mul (parse_double D N (decimal z)) (D.of_int (pos (factor_of u))))
  unfolding string_to_nanoseconds
  string_to_nanoseconds-unit_text z u h =
      let (before, c, same, d, ok) = decimal_lem z in
      ap (λ t. read_parts D N (split_unit t))
        (reverse-append (decimal z) (unit_text u)
          ∙ ap (λ t. reverse (unit_text u) ++ t) (ap reverse same ∙ reverse-append before (c ∷ [])))
      ∙ ap (read_parts D N) (split_unit-unit_text u c (reverse before) h d)
      ∙ read_parts-text (decimal z) before c (factor_of u) same d

-- A duration of less than 2 ^ 53 nanoseconds, positive or negative, is what StringToNanoseconds
-- reads of the text that NanosecondsToString writes.
pub string_to_nanoseconds-nanoseconds_to_string :
    (D : Double) (N : Numerals D) (ns : ℤ)
    → magnitude ns < 2 ^ 53
    → string_to_nanoseconds D N (nanoseconds_to_string D N ns) ≡ ns
unfolding nanoseconds_to_string
string_to_nanoseconds-nanoseconds_to_string D N ns h = elim (Bool-cases (eqb_ℤ ns (pos 0))) [
  | inl e ↦ rw e (read_zero D N ∙ sym (eqb_ℤ→eq ns (pos 0) e))
  | inr e ↦
      let (bound, whole) = scale_lem ns in
      rw e (
        string_to_nanoseconds-unit_text D N (scale ns).0 (scale ns).1 bound
        ∙ exact D N (scale ns).0 (factor_of (scale ns).1) (factor_of_positive (scale ns).1)
            (subst (λ z. magnitude z < 2 ^ 53) (sym whole) h)
        ∙ whole)
]
