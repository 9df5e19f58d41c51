-- ===== src/Durations/Decimal.antt =====
-- The decimal digits of an integer, and that `parse<double>` accepts them.
use spot_grid_bot.Base.{
  ℕ, zero, suc, ◌+◌, ◌/◌, ◌%◌, ◌≤◌, ◌<◌, ◌≡◌, ◌∙◌, refl, ap, inl, inr, true, false, ◌&&◌, ◌||◌,
  List, [], ◌∷◌, ◌++◌, arith, ◌==◌, ltb, Bool-cases, All,
}
use spot_grid_bot.Base.Int.{ℤ, pos, negsuc}
use spot_grid_bot.Durations.{
  decimal_from, decimal, is_digit, skip_digits, some_digits, is_fraction, is_double_text,
}

abbrev pub AreDigits : List ℕ → Type 0
AreDigits t = All (λ c. is_digit c ≡ true) t

AreDigits-append : (t : List ℕ) (c : ℕ) → AreDigits t → is_digit c ≡ true → AreDigits (t ++ c ∷ [])
AreDigits-append [] c a h = (h, tt)
AreDigits-append (d ∷ t) c a h = (a.0, AreDigits-append t c a.1 h)

digit-is_digit : (n : ℕ) → n < 10 → is_digit (b'0' + n) ≡ true
digit-is_digit n h = ground (arith, h)

-- The digits before the last one, and the last one
pub decimal_from_lem :
    (fuel n : ℕ)
    → n ≤ fuel
    → (before : List ℕ) × (c : ℕ) × (decimal_from fuel n ≡ before ++ c ∷ [])
      × AreDigits before
      × (is_digit c ≡ true)
unfolding decimal_from
decimal_from_lem zero n h = ([], b'0' + n, refl, tt, digit-is_digit n (omega (arith, h)))
decimal_from_lem (suc fuel) n h = elim (Bool-cases (ltb n 10)) [
  | inl e ↦ rw (e, decimal_from) ([], b'0' + n, refl, tt, digit-is_digit n (ground (arith, e)))
  | inr e ↦
      let (before, c, same, a, d) = decimal_from_lem fuel (n / 10) (ground (arith, e, h)) in
      rw (e, decimal_from)
        (
          before ++ c ∷ [],
          b'0' + n % 10,
          ap (λ t. t ++ (b'0' + n % 10) ∷ []) same,
          AreDigits-append before c a d,
          digit-is_digit (n % 10) (omega arith),
        )
]

skip_digits-all : (t : List ℕ) → AreDigits t → skip_digits t ≡ []
unfolding skip_digits
skip_digits-all [] a = refl
skip_digits-all (c ∷ t) a = rw a.0 (skip_digits-all t a.1)

accepts_digits :
    (before : List ℕ) (c : ℕ)
    → AreDigits before
    → is_digit c ≡ true
    → (some_digits (before ++ c ∷ []) && is_fraction (skip_digits (before ++ c ∷ []))) ≡ true
unfolding some_digits is_fraction
accepts_digits [] c a h = rw (skip_digits-all (c ∷ []) (h, tt), h) refl
accepts_digits (d ∷ t) c a h =
    rw (skip_digits-all (d ∷ t ++ c ∷ []) (a.0, AreDigits-append t c a.1 h), a.0) refl

no_sign : (c : ℕ) → is_digit c ≡ true → ((c == b'+') || (c == b'-')) ≡ false
no_sign c h = ground (arith, h)

unsigned_accepted :
    (before : List ℕ) (c : ℕ)
    → AreDigits before
    → is_digit c ≡ true
    → is_double_text (before ++ c ∷ []) ≡ true
unfolding is_double_text
unsigned_accepted [] c a h = rw (no_sign c h) (accepts_digits [] c a h)
unsigned_accepted (d ∷ t) c a h = rw (no_sign d a.0) (accepts_digits (d ∷ t) c a h)

-- The text of an integer ends with a digit, and is accepted as a double.
pub decimal_lem :
    (z : ℤ)
    → (before : List ℕ) × (c : ℕ) × (decimal z ≡ before ++ c ∷ [])
      × (is_digit c ≡ true)
      × (is_double_text (decimal z) ≡ true)
unfolding decimal is_double_text
decimal_lem (pos n) =
    let (before, c, same, a, d) = decimal_from_lem n n (omega arith) in
    (before, c, same, d, ap is_double_text same ∙ unsigned_accepted before c a d)
decimal_lem (negsuc n) =
    let (before, c, same, a, d) = decimal_from_lem (suc n) (suc n) (omega arith) in
    (
      b'-' ∷ before,
      c,
      ap (◌∷◌ b'-') same,
      d,
      ap (λ t. is_double_text (b'-' ∷ t)) same ∙ accepts_digits before c a d,
    )
