-- ===== src/Symbols/Rounding.antt =====
-- The rounding of prices in hundredths of pips.
use spot_grid_bot.Base.{
  ℕ, zero, suc, ◌+◌, ◌*◌, ◌/◌, ◌%◌, ◌<◌, ◌≤◌, ◌≡◌, ◌∙◌, refl, sym, ap, inl, inr, Bool, true, false,
  not, ◌&&◌, arith, ◌==◌, Bool-cases,
}
use spot_grid_bot.Base.Int.{
  pos, ◌+ℤ◌, ◌<ℤ◌, magnitude, ltb_ℤ, pos-*ℤ, pos-quot, int_laws, neg, neg-mul, quot-neg,
}
use spot_grid_bot.Symbols.{round_cpip}

div_bounds : (n k : ℕ) → 0 < k → (n / k * k ≤ n) × (n < n / k * k + k)
div_bounds n k h = grind arith

div_exact : (n k : ℕ) → 0 < k → (n % k == 0) ≡ true → n / k * k ≡ n
div_exact n k h e = grind arith

div_inexact : (n k : ℕ) → 0 < k → (n % k == 0) ≡ false → n / k * k < n
div_inexact n k h e = grind arith

module _ (n by : ℕ) (h : 0 < by) where
  exact_rounds : (down : Bool) → (n % by == 0) ≡ true → round_cpip (pos n) down (pos by) ≡ pos n
  unfolding round_cpip
  exact_rounds down e = ground arith

  rounds_down : (n % by == 0) ≡ false → round_cpip (pos n) true (pos by) ≡ pos (n / by * by)
  unfolding round_cpip
  rounds_down e =
      let apart : (ltb_ℤ (pos 0) (pos by) && not (magnitude (pos n) % magnitude (pos by) == 0))
          ≡ true =
        ground arith in
      rw (apart, pos-quot n by) (pos-*ℤ (n / by) by)

  rounds_up : (n % by == 0) ≡ false → round_cpip (pos n) false (pos by) ≡ pos ((n / by + 1) * by)
  unfolding round_cpip
  rounds_up e =
      let apart : (ltb_ℤ (pos 0) (pos by) && not (magnitude (pos n) % magnitude (pos by) == 0))
          ≡ true =
        ground arith in
      rw (apart, pos-quot n by, pos_add_one (n / by)) (pos-*ℤ (n / by + 1) by)
    where
      pos_add_one : (q : ℕ) → pos q +ℤ pos 1 ≡ pos (q + 1)
      pos_add_one q = omega int_laws

-- Rounding a price that is not negative to a positive step gives a multiple of the step: the
-- greatest that is not above the price, or the least that is not below it.
pub round_cpip_bounds :
    (n by : ℕ)
    → 0 < by
    → (lower : ℕ) × (upper : ℕ) × (round_cpip (pos n) true (pos by) ≡ pos (lower * by))
      × (round_cpip (pos n) false (pos by) ≡ pos (upper * by))
      × (lower * by ≤ n)
      × (n < lower * by + by)
      × (n ≤ upper * by)
      × (upper * by < n + by)
round_cpip_bounds n by h = elim (Bool-cases (n % by == 0)) [
  | inl e ↦
      let whole = div_exact n by h e in
      (
        n / by,
        n / by,
        exact_rounds n by h true e ∙ ap pos (sym whole),
        exact_rounds n by h false e ∙ ap pos (sym whole),
        omega arith,
        omega arith,
        omega arith,
        omega arith,
      )
  | inr e ↦
      let (below, above) = div_bounds n by h in
      let inside = div_inexact n by h e in
      let next : (n / by + 1) * by ≡ n / by * by + by = grind arith in
      (
        n / by,
        n / by + 1,
        rounds_down n by h e,
        rounds_up n by h e,
        below,
        above,
        omega (arith, next),
        omega (arith, next),
      )
]

magnitude-neg : (n : ℕ) → magnitude (neg n) ≡ n
unfolding neg
magnitude-neg zero = refl
magnitude-neg (suc n) = omega arith

negative_rounds :
    (n by : ℕ)
    → 0 < by
    → (n % by == 0) ≡ false
    → round_cpip (neg n) true (pos by) ≡ neg (n / by * by)
unfolding round_cpip
negative_rounds n by h e =
    let same = magnitude-neg n in
    let apart : (ltb_ℤ (pos 0) (pos by) && not (magnitude (neg n) % magnitude (pos by) == 0))
        ≡ true =
      rw same (ground arith) in
    rw (apart, quot-neg n by) (neg-mul (n / by) by)

neg_lt : (a b : ℕ) → a < b → neg b <ℤ neg a
unfolding neg
neg_lt zero zero h = absurd (omega arith)
neg_lt zero (suc b) h = omega arith
neg_lt (suc a) zero h = absurd (omega arith)
neg_lt (suc a) (suc b) h = omega arith

-- A negative price that is no multiple of the step is rounded down to a price above it, since the
-- division of integers goes towards zero.
pub round_cpip-negative :
    (n by : ℕ)
    → 0 < by
    → (n % by == 0) ≡ false
    → (round_cpip (neg n) true (pos by) ≡ neg (n / by * by)) × (neg n <ℤ neg (n / by * by))
round_cpip-negative n by h e =
    (negative_rounds n by h e, neg_lt (n / by * by) n (div_inexact n by h e))
