-- ===== src/Durations/Units.antt =====
-- Scaling an integer to the largest unit that divides it loses nothing.
use spot_grid_bot.Base.{
  ℕ, zero, suc, ◌+◌, ◌*◌, ◌/◌, ◌%◌, ◌≤◌, ◌≡◌, ◌∙◌, sym, subst, ap, inl, inr, true, ◌&&◌, arith,
  ◌==◌, if◌then◌else◌, Bool-cases,
}
use spot_grid_bot.Base.Int.{neg, pos-*ℤ, neg-mul, quot-neg, ℤ, pos, negsuc, ◌*ℤ◌, quot, magnitude}
use spot_grid_bot.Durations.{divide_out, scale, scale_fractions, scale_seconds, scale_hours}

neg_assoc : (m a b : ℕ) → (neg m *ℤ pos a) *ℤ pos b ≡ neg m *ℤ pos (a * b)
neg_assoc m a b = rw (neg-mul m a, neg-mul (m * a) b, neg-mul m (a * b)) (ap neg (grind arith))

pub mul_assoc_pos : (z : ℤ) (a b : ℕ) → (z *ℤ pos a) *ℤ pos b ≡ z *ℤ pos (a * b)
unfolding neg
mul_assoc_pos (pos m) a b =
    rw (pos-*ℤ m a, pos-*ℤ (m * a) b, pos-*ℤ m (a * b)) (ap pos (grind arith))
mul_assoc_pos (negsuc m) a b = neg_assoc (suc m) a b

div-mul : (m k : ℕ) → m % k ≡ 0 → m / k * k ≡ m
div-mul m k h = grind arith

neg_quot-mul : (m k : ℕ) → m % k ≡ 0 → quot (neg m) (pos k) *ℤ pos k ≡ neg m
neg_quot-mul m k h = rw (quot-neg m k, neg-mul (m / k) k) (ap neg (div-mul m k h))

pub quot-mul : (z : ℤ) (k : ℕ) → (magnitude z % k == 0) ≡ true → quot z (pos k) *ℤ pos k ≡ z
unfolding quot neg
quot-mul (pos m) k h = rw (pos-*ℤ (m / (k + 0)) k) (ap pos (grind (arith, div-mul)))
quot-mul (negsuc m) k h = neg_quot-mul (suc m) k (ground arith)

mul-one : (z : ℤ) → z *ℤ pos 1 ≡ z
unfolding ◌*ℤ◌
mul-one (pos m) = ground arith
mul-one (negsuc m) = ground arith

abbrev power : ℕ → ℕ → ℕ
power k zero = 1
power k (suc j) = power k j * k

-- The loop takes some factors out, and counts them.
divide_out_lem :
    (rounds k : ℕ) (ns : ℤ) (unit : ℕ)
    → (j : ℕ) × ((divide_out rounds k ns unit).1 ≡ unit + j)
      × (j ≤ rounds)
      × ((divide_out rounds k ns unit).0 *ℤ pos (power k j) ≡ ns)
unfolding divide_out
divide_out_lem zero k ns unit = (0, omega arith, omega arith, mul-one ns)
divide_out_lem (suc rounds) k ns unit = elim (Bool-cases (magnitude ns % k == 0)) [
  | inr e ↦ rw e (0, omega arith, omega arith, mul-one ns)
  | inl e ↦
      let (j, h1, h2, h3) = divide_out_lem rounds k (quot ns (pos k)) (suc unit) in
      rw e (
        suc j,
        omega arith,
        omega arith,
        power_step (divide_out rounds k (quot ns (pos k)) (suc unit)).0 k j
            ∙ ap (λ z. z *ℤ pos k) h3
            ∙ quot-mul ns k e,
      )
]
  where
    power_step : (z : ℤ) (k j : ℕ) → z *ℤ pos (power k (suc j)) ≡ (z *ℤ pos (power k j)) *ℤ pos k
    power_step z k j = sym (mul_assoc_pos z (power k j) k)

-- The factor of a unit
abbrev pub factor_of : ℕ → ℕ
factor_of u =
    if u == 0
    then 1
    else if u == 1
    then 1_000
    else if u == 2
    then 1_000_000
    else if u == 3
    then 1_000_000_000
    else if u == 4
    then 60_000_000_000
    else if u == 5
    then 3_600_000_000_000
    else 86_400_000_000_000

-- What a pair of a number and its unit stands for
abbrev pub StandsFor : ℤ → ℤ × ℕ → Type 0
StandsFor ns p = (p.1 ≤ 6) × (p.0 *ℤ pos (factor_of p.1) ≡ ns)

fractions_of :
    (ns z : ℤ) (u j : ℕ) → u ≡ 0 + j → j ≤ 3 → z *ℤ pos (power 1000 j) ≡ ns → StandsFor ns (z, u)
fractions_of ns z u zero e h k = rw e (omega arith, k)
fractions_of ns z u (suc zero) e h k = rw e (omega arith, k)
fractions_of ns z u (suc (suc zero)) e h k = rw e (omega arith, k)
fractions_of ns z u (suc (suc (suc zero))) e h k = rw e (omega arith, k)
fractions_of ns z u (suc (suc (suc (suc j)))) e h k = absurd (omega arith)

seconds_of :
    (ns z : ℤ) (u j : ℕ)
    → u ≡ 3 + j
    → j ≤ 2
    → (z *ℤ pos (power 60 j)) *ℤ pos 1_000_000_000 ≡ ns
    → StandsFor ns (z, u)
seconds_of ns z u zero e h k = rw e (omega arith, sym (mul_assoc_pos z 1 1_000_000_000) ∙ k)
seconds_of ns z u (suc zero) e h k = rw e (omega arith, sym (mul_assoc_pos z 60 1_000_000_000) ∙ k)
seconds_of ns z u (suc (suc zero)) e h k =
    rw e (omega arith, sym (mul_assoc_pos z 3600 1_000_000_000) ∙ k)
seconds_of ns z u (suc (suc (suc j))) e h k = absurd (omega arith)

scale_fractions-StandsFor : (ns : ℤ) → StandsFor ns (scale_fractions ns)
unfolding scale_fractions
scale_fractions-StandsFor ns =
    let (j, h1, h2, h3) = divide_out_lem 3 1000 ns 0 in fractions_of ns _ _ j h1 h2 h3

scale_seconds-StandsFor : (ns : ℤ) (p : ℤ × ℕ) → StandsFor ns p → StandsFor ns (scale_seconds p)
unfolding scale_seconds
scale_seconds-StandsFor ns (z, u) h = elim (Bool-cases (u == 3)) [
  | inr e ↦ rw e h
  | inl e ↦
      let (j, h1, h2, h3) = divide_out_lem 2 60 z 3 in
      let is_3 : u ≡ 3 = ground arith in
      rw e (
        seconds_of ns _ _ j h1 h2 (
          ap (λ x. x *ℤ pos 1_000_000_000) h3
          ∙ subst (λ (x : ℕ). z *ℤ pos (factor_of x) ≡ ns) is_3 h.1))
]

scale_hours-StandsFor : (ns : ℤ) (p : ℤ × ℕ) → StandsFor ns p → StandsFor ns (scale_hours p)
unfolding scale_hours
scale_hours-StandsFor ns (z, u) h = elim (Bool-cases ((u == 5) && (magnitude z % 24 == 0))) [
  | inr e ↦ rw (e, scale_hours) h
  | inl e ↦
      let is_5 : u ≡ 5 = ground arith in
      rw (e, scale_hours)
        (
          omega arith,
          sym (mul_assoc_pos (quot z (pos 24)) 24 3_600_000_000_000)
              ∙ ap (λ x. x *ℤ pos 3_600_000_000_000) (quot-mul z 24 (ground arith))
              ∙ subst (λ (x : ℕ). z *ℤ pos (factor_of x) ≡ ns) is_5 h.1,
        )
]

-- Scaling gives one of the seven units, and the number in it is what was scaled.
pub scale_lem : (ns : ℤ) → StandsFor ns (scale ns)
unfolding scale
scale_lem ns =
    scale_hours-StandsFor ns _
      (scale_seconds-StandsFor ns (scale_fractions ns) (scale_fractions-StandsFor ns))
