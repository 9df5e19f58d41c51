-- ===== src/Position/Pnl.antt =====
-- The profit that a fill books.
use spot_grid_bot.Base.{ℕ, ◌-◌, ◌/◌, ◌≤◌, ◌<◌, ◌^◌, ◌≡◌, refl, true, arith}
use spot_grid_bot.Base.Int.{ℤ, pos, negsuc, ◌+ℤ◌, ◌-ℤ◌, ◌*ℤ◌, ◌≤ℤ◌, int_laws}
use spot_grid_bot.Position.{
  Position, fill, fill_from, amount, sign, is_long, to_unsigned, to_signed, skim,
}

-- For a product that is not negative and fits, `amount` is its hundredth.
pub amount_of_gain :
    (quantity price : ℤ) (n : ℕ)
    → price *ℤ quantity ≡ pos n
    → n < 2 ^ 63
    → amount quantity price ≡ pos (n / 100)
unfolding amount to_unsigned to_signed
amount_of_gain quantity price n e h = rw e (ground arith)

-- For a negative product, -(n + 1), `amount` is far above zero: (2 ^ 64 - (n + 1)) / 100.
pub amount_of_loss :
    (quantity price : ℤ) (n : ℕ)
    → price *ℤ quantity ≡ negsuc n
    → n < 2 ^ 63
    → amount quantity price ≡ pos ((2 ^ 64 - 1 - n) / 100)
unfolding amount to_unsigned to_signed
amount_of_loss quantity price n e h = rw e (ground arith)

-- An accepted fill moves exactly its quantity from pending to filled, changes no other part, price
-- or side, and adds to the profit exactly the amount that it reports.
pub fill_effect :
    (p : Position) (qty price : ℤ) {q : Position} {profit : ℤ}
    → fill p qty price ≡ (q, true, profit)
    → (q ≡ record p {
      pending_qty = p.pending_qty -ℤ qty;
      filled_qty = p.filled_qty +ℤ qty;
      pnl = p.pnl +ℤ profit;
    })
      × (profit ≡ amount qty (sign p (p.price -ℤ price)))
      × (qty ≤ℤ p.pending_qty)
unfolding fill_from
fill_effect p qty price e = ground arith

-- A fill of a long position at a price not above its own books the gain, rounded down, as long as
-- the product of the price difference and the quantity fits an int64_t.
pub fill_gain :
    (p : Position) (qty price : ℤ) (n : ℕ) {q : Position} {profit : ℤ}
    → is_long p ≡ true
    → fill p qty price ≡ (q, true, profit)
    → (p.price -ℤ price) *ℤ qty ≡ pos n
    → n < 2 ^ 63
    → q.pnl ≡ p.pnl +ℤ pos (n / 100)
unfolding sign
fill_gain p qty price n long e prod h =
    ground (arith, fill_effect p qty price e, amount_of_gain qty (p.price -ℤ price) n)

-- A fill of a long position at a price above its own, a loss, is booked as a profit of more than
-- 9 * 10 ^ 16, because the division is done in an unsigned type.
pub losing_fill_gains :
    (p : Position) (qty price : ℤ) (n : ℕ) {q : Position} {profit : ℤ}
    → is_long p ≡ true
    → fill p qty price ≡ (q, true, profit)
    → (p.price -ℤ price) *ℤ qty ≡ negsuc n
    → n < 2 ^ 63
    → (q.pnl ≡ p.pnl +ℤ pos ((2 ^ 64 - 1 - n) / 100))
      × (92_233_720_368_547_758 ≤ (2 ^ 64 - 1 - n) / 100)
unfolding sign
losing_fill_gains p qty price n long e prod h = (
  ground (arith, fill_effect p qty price e, amount_of_loss qty (p.price -ℤ price) n),
  omega arith,
)

-- Skimming splits the position: the part that stays keeps what is open and pending, the part that
-- is taken off has what is filled and the whole profit, and nothing is lost or doubled.
pub skim_splits :
    (p : Position)
    → let (rest, taken) = skim p in
      (rest.open_qty +ℤ taken.open_qty ≡ p.open_qty)
      × (rest.pending_qty +ℤ taken.pending_qty ≡ p.pending_qty)
      × (rest.filled_qty +ℤ taken.filled_qty ≡ p.filled_qty)
      × (rest.pnl +ℤ taken.pnl ≡ p.pnl)
      × (taken.price ≡ p.price)
unfolding skim
skim_splits p = (omega int_laws, omega int_laws, omega int_laws, omega int_laws, refl)
