-- ===== src/Position/Invariant.antt =====
-- The quantities of a position of lib/utils/src/Position.cpp: the calls that move quantity, and
-- those that drop it.
use spot_grid_bot.Base.{
  ◌^◌, ◌≡◌, refl, sym, subst, ◌∙◌, Bool, true, List, [], ◌∷◌, arith, if◌then◌else◌,
}
use spot_grid_bot.Base.Int.{ℤ, pos, ◌+ℤ◌, ◌-ℤ◌, ◌≤ℤ◌, ◌<ℤ◌, int_laws, +ℤ_parts, -ℤ_parts}
use spot_grid_bot.Position.{
  Position, quantity, order, reject, fill, direct_fill, fill_from, canceled_fill, canceled_reject,
  cancel_open_qty, reduce_open_quantity, add_market_price,
}

-- No part of the quantity is negative.
pub record IsValid (p : Position) : Type 0 where
  pub open_nonneg : pos 0 ≤ℤ p.open_qty
  pub pending_nonneg : pos 0 ≤ℤ p.pending_qty
  pub filled_nonneg : pos 0 ≤ℤ p.filled_qty

-- The calls that keep the total quantity.
pub data Trade : Type 0 where
  orders rejects : ℤ → Trade
  fills direct_fills canceled_fills : ℤ → ℤ → Trade
  market_price : ℤ → Trade

unfoldable pub trade : Position → Trade → Position
trade p (orders qty) = (order p qty).0
trade p (rejects qty) = (reject p qty).0
trade p (fills qty price) = (fill p qty price).0
trade p (direct_fills qty price) = (direct_fill p qty price).0
trade p (canceled_fills qty price) = (canceled_fill p qty price).0
trade p (market_price price) = add_market_price p price

unfoldable pub run : Position → List Trade → Position
unfolding trade
run p [] = p
run p (t ∷ ts) = run (trade p t) ts

trade-IsValid : (p : Position) (t : Trade) → IsValid p → IsValid (trade p t)
unfolding trade order reject fill_from canceled_fill add_market_price ◌+ℤ◌ ◌-ℤ◌
trade-IsValid p (orders qty) v = ground arith
trade-IsValid p (rejects qty) v = ground arith
trade-IsValid p (fills qty price) v = ground arith
trade-IsValid p (direct_fills qty price) v = ground arith
trade-IsValid p (canceled_fills qty price) v = ground arith
trade-IsValid p (market_price price) v = ground arith

-- Taking from one part and adding to another keeps the sum of the three.
shift_01 : (a b c q : ℤ) → a -ℤ q +ℤ (b +ℤ q) +ℤ c ≡ a +ℤ b +ℤ c
shift_01 a b c q = omega int_laws

shift_02 : (a b c q : ℤ) → a -ℤ q +ℤ b +ℤ (c +ℤ q) ≡ a +ℤ b +ℤ c
shift_02 a b c q = omega int_laws

shift_10 : (a b c q : ℤ) → a +ℤ q +ℤ (b -ℤ q) +ℤ c ≡ a +ℤ b +ℤ c
shift_10 a b c q = omega int_laws

shift_12 : (a b c q : ℤ) → a +ℤ (b -ℤ q) +ℤ (c +ℤ q) ≡ a +ℤ b +ℤ c
shift_12 a b c q = omega int_laws

trade-quantity : (p : Position) (t : Trade) → quantity (trade p t) ≡ quantity p
unfolding quantity trade order reject fill_from canceled_fill add_market_price
trade-quantity p (orders q) = ground (arith, shift_01 p.open_qty p.pending_qty p.filled_qty q)
trade-quantity p (rejects q) = ground (arith, shift_10 p.open_qty p.pending_qty p.filled_qty q)
trade-quantity p (fills q price) = ground (arith, shift_12 p.open_qty p.pending_qty p.filled_qty q)
trade-quantity p (direct_fills q price) =
    ground (arith, shift_02 p.open_qty p.pending_qty p.filled_qty q)
trade-quantity p (canceled_fills q price) =
    ground (arith, shift_10 p.open_qty p.pending_qty p.filled_qty q)
trade-quantity p (market_price price) = ground arith

quantity_bounds :
    (p : Position) (m : ℤ)
    → IsValid p
    → quantity p <ℤ m
    → (p.open_qty <ℤ m) × (p.pending_qty <ℤ m) × (p.filled_qty <ℤ m)
unfolding quantity
quantity_bounds p m v h = (omega int_laws, omega int_laws, omega int_laws)

-- Whatever orders, fills, direct fills, rejects, late fills and market prices come in whatever
-- order, accepted or refused: no part of a valid position's quantity becomes negative, and the
-- total quantity stays what it was.
pub run_conserves :
    (p : Position) (ts : List Trade)
    → IsValid p
    → IsValid (run p ts) × (quantity (run p ts) ≡ quantity p)
unfolding run
run_conserves p [] v = (v, refl)
run_conserves p (t ∷ ts) v =
    let (w, e) = run_conserves (trade p t) ts (trade-IsValid p t v) in (w, e ∙ trade-quantity p t)

-- Nor can the additions of such a run overflow: with a total below 2 ^ 63 each part stays below it.
pub run_fits :
    (p : Position) (ts : List Trade)
    → IsValid p
    → quantity p <ℤ pos (2 ^ 63)
    → ((run p ts).open_qty <ℤ pos (2 ^ 63))
      × ((run p ts).pending_qty <ℤ pos (2 ^ 63))
      × ((run p ts).filled_qty <ℤ pos (2 ^ 63))
run_fits p ts v small =
    let q = run p ts in
    let (w, e) = run_conserves p ts v in
    quantity_bounds q (pos (2 ^ 63)) w (subst (λ x. x <ℤ pos (2 ^ 63)) (sym e) small)

-- The calls that drop quantity: a late reject, and canceling or reducing what is open.
pub data Drop : Type 0 where
  late_reject reduce : ℤ → Drop
  cancel_open : ℤ → Bool → Drop

unfoldable pub drop : Position → Drop → Position
drop p (late_reject qty) = (canceled_reject p qty).0
drop p (reduce qty) = (reduce_open_quantity p qty).0
drop p (cancel_open qty all_or_nothing) = (cancel_open_qty p qty all_or_nothing).0

-- What the call reports as dropped: its quantity if it succeeded, or what it canceled.
unfoldable pub dropped : Position → Drop → ℤ
dropped p (late_reject qty) = if (canceled_reject p qty).1 then qty else pos 0
dropped p (reduce qty) = if (reduce_open_quantity p qty).1 then qty else pos 0
dropped p (cancel_open qty all_or_nothing) = (cancel_open_qty p qty all_or_nothing).1

drop_0 : (a b c q : ℤ) → a -ℤ q +ℤ b +ℤ c +ℤ q ≡ a +ℤ b +ℤ c
drop_0 a b c q = omega int_laws

drop_1 : (a b c q : ℤ) → a +ℤ (b -ℤ q) +ℤ c +ℤ q ≡ a +ℤ b +ℤ c
drop_1 a b c q = omega int_laws

drop_none : (a : ℤ) → a +ℤ pos 0 ≡ a
drop_none a = omega int_laws

-- A call that drops quantity keeps a position valid, never drops a negative quantity, and takes
-- from the total exactly what it reports.
pub drop_accounted :
    (p : Position) (d : Drop)
    → IsValid p
    → IsValid (drop p d)
      × (pos 0 ≤ℤ dropped p d)
      × (quantity (drop p d) +ℤ dropped p d ≡ quantity p)
unfolding drop dropped quantity canceled_reject reduce_open_quantity cancel_open_qty
drop_accounted p (late_reject qty) v = ground (
  arith,
  drop_1 p.open_qty p.pending_qty p.filled_qty qty,
  drop_none (p.open_qty +ℤ p.pending_qty +ℤ p.filled_qty),
  -ℤ_parts p.pending_qty qty,
)
drop_accounted p (reduce qty) v = ground (
  arith,
  drop_0 p.open_qty p.pending_qty p.filled_qty qty,
  drop_none (p.open_qty +ℤ p.pending_qty +ℤ p.filled_qty),
  -ℤ_parts p.open_qty qty,
)
drop_accounted p (cancel_open qty all_or_nothing) v = ground (
  arith,
  drop_0 p.open_qty p.pending_qty p.filled_qty qty,
  drop_0 p.open_qty p.pending_qty p.filled_qty p.open_qty,
  drop_none (p.open_qty +ℤ p.pending_qty +ℤ p.filled_qty),
  -ℤ_parts p.open_qty qty,
  -ℤ_parts p.open_qty p.open_qty,
)

restore : (a q : ℤ) → a -ℤ q +ℤ q ≡ a
restore a q = omega int_laws

restore' : (a q : ℤ) → a +ℤ q -ℤ q ≡ a
restore' a q = omega int_laws

-- A rejected order leaves a valid position exactly as it was before the order.
pub reject-order :
    (p : Position) (qty : ℤ)
    → IsValid p
    → (order p qty).1 ≡ true
    → reject (order p qty).0 qty ≡ (p, true)
unfolding order reject
reject-order p qty v h =
    ground (arith, restore p.open_qty qty, restore' p.pending_qty qty, +ℤ_parts p.pending_qty qty)
