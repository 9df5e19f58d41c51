-- ===== src/Position/Price.antt =====
-- The price of a position after a late fill.
use spot_grid_bot.Base.{ℕ, ◌+◌, ◌*◌, ◌/◌, ◌≤◌, ◌<◌, ◌≡◌, true, arith}
use native.Mathlib.Decide.{dec_le}
use native.Mathlib.Nat.{le-div_iff_mul-le, div-le_of_le-mul, mul_comm}
use spot_grid_bot.Base.Int.{
  ℤ, pos, pos_part, ◌+ℤ◌, ◌*ℤ◌, ◌≤ℤ◌, quot, pos-*ℤ, pos-quot, min_ℤ, max_ℤ,
}
use spot_grid_bot.Position.{Position, canceled_fill}

average_le : (a m q r t : ℕ) → m ≤ t → r ≤ t → a * m + q * r ≤ t * (a + q)
average_le a m q r t h k = grind arith

average_ge : (a m q r t : ℕ) → t ≤ m → t ≤ r → t * (a + q) ≤ a * m + q * r
average_ge a m q r t h k = grind arith

div_between : (n k lo hi : ℕ) → 0 < k → lo * k ≤ n → n ≤ hi * k → (lo ≤ n / k) × (n / k ≤ hi)
div_between n k lo hi h below above =
    ((le-div_iff_mul-le h).1 below, div-le_of_le-mul k (rw mul_comm above))

average : ℕ → ℕ → ℕ → ℕ → ℕ
average a m q r = (a * m + q * r) / (a + q)

average_between :
    (a m q r : ℕ)
    → 0 < q
    → (min_ℤ (pos m) (pos r) ≤ℤ pos (average a m q r))
      × (pos (average a m q r) ≤ℤ max_ℤ (pos m) (pos r))
unfolding average
average_between a m q r h = elim (dec_le m r) [
  | yes up ↦
      let b =
        div_between (a * m + q * r) (a + q) m r (omega arith)
          (average_ge a m q r m (omega arith) up) (average_le a m q r r up (omega arith)) in
      ground (arith, b)
  | no down ↦
      let b =
        div_between (a * m + q * r) (a + q) r m (omega arith)
          (average_ge a m q r r (omega arith) (omega arith))
          (average_le a m q r m (omega arith) (omega arith)) in
      ground (arith, b)
]

quot-average :
    (a m q r : ℕ) → quot (pos a *ℤ pos m +ℤ pos q *ℤ pos r) (pos a +ℤ pos q) ≡ pos (average a m q r)
unfolding average ◌+ℤ◌
quot-average a m q r =
    rw (pos-*ℤ a m, pos-*ℤ q r) (ground (arith, pos-quot (a * m + q * r) (a + q)))

nonneg : (z : ℤ) → pos 0 ≤ℤ z → z ≡ pos (pos_part z)
nonneg z h = ground arith

-- After a late fill, the price of a position whose open quantity and price are not negative lies
-- between its former price and the price of the fill.
pub canceled_fill_price :
    (p : Position) (qty price : ℤ) {q : Position}
    → pos 0 ≤ℤ p.open_qty
    → pos 0 ≤ℤ p.price
    → canceled_fill p qty price ≡ (q, true)
    → (min_ℤ p.price price ≤ℤ q.price) × (q.price ≤ℤ max_ℤ p.price price)
unfolding canceled_fill
canceled_fill_price p qty price ho hp e = ground (
  arith,
  nonneg p.open_qty,
  nonneg p.price,
  nonneg qty,
  nonneg price,
  quot-average (pos_part p.open_qty) (pos_part p.price) (pos_part qty) (pos_part price),
  average_between (pos_part p.open_qty) (pos_part p.price) (pos_part qty) (pos_part price),
)
