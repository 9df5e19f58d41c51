-- ===== src/Quote/Group/Cache.antt =====
-- The cached aggregate values of a `QuoteGroup` of lib/orderbook/src/Quote.cpp against a fresh
-- calculation.
use spot_grid_bot.Base.{
  ◌≡◌, refl, inl, inr, Bool, true, false, Option, none, some, List, [], ◌∷◌, arith, Option-cases,
  ap, subst,
}
use spot_grid_bot.Base.Int.{◌*ℤ◌, ◌+ℤ◌}
use spot_grid_bot.Quote.{Quote, Store, set_used}
use spot_grid_bot.Quote.Group.{
  QuoteGroup, AggregateValues, accumulate, price_sum, calculate, no_values, invalidate,
  get_or_create, add_to_group, add_group, remove_from_group, without,
}

-- A cached value is none or the calculated one.
unfoldable pub Fresh : Option AggregateValues → AggregateValues → Type 0
Fresh none av = Unit
Fresh (some v) av = v ≡ av

pub record IsCoherent (h : Store) (g : QuoteGroup) : Type 0 where
  pub unused_fresh : Fresh g.unused_values (calculate true h g.quotes)
  pub all_fresh : Fresh g.all_values (calculate false h g.quotes)

-- Over all quotes the calculation does not read the marks.
accumulate_all :
    (h h' : Store) (l : List Quote) (av : AggregateValues)
    → accumulate false h av l ≡ accumulate false h' av l
unfolding accumulate
accumulate_all h h' [] av = refl
accumulate_all h h' (q ∷ l) av = accumulate_all h h' l _

price_sum_all : (h h' : Store) (l : List Quote) → price_sum false h l ≡ price_sum false h' l
unfolding price_sum
price_sum_all h h' [] = refl
price_sum_all h h' (q ∷ l) = ap (λ z. q.price *ℤ q.volume +ℤ z) (price_sum_all h h' l)

calculate_all : (h h' : Store) (l : List Quote) → calculate false h l ≡ calculate false h' l
unfolding calculate
calculate_all h h' l = rw (accumulate_all h h' l no_values, price_sum_all h h' l) refl

-- What is read from coherent values is what a fresh calculation gives.
pub get_or_create_fresh :
    (unused_only : Bool) (h : Store) (g : QuoteGroup)
    → IsCoherent h g
    → (get_or_create unused_only h g).1 ≡ calculate unused_only h g.quotes
unfolding get_or_create Fresh
get_or_create_fresh true h g w = elim (Option-cases g.unused_values) [
  | inl e ↦ ground arith
  | inr (v, e) ↦ ground (arith, subst (λ o. Fresh o (calculate true h g.quotes)) e w.unused_fresh)
]
get_or_create_fresh false h g w = elim (Option-cases g.all_values) [
  | inl e ↦ ground arith
  | inr (v, e) ↦ ground (arith, subst (λ o. Fresh o (calculate false h g.quotes)) e w.all_fresh)
]

read_lem :
    (h : Store) (g : QuoteGroup)
    → let (u, v) = get_or_create true h g in
      let (a, b) = get_or_create false h g in
      ((u.quotes ≡ g.quotes) × (u.all_values ≡ g.all_values) × (u.unused_values ≡ some v))
      × ((a.quotes ≡ g.quotes) × (a.unused_values ≡ g.unused_values) × (a.all_values ≡ some b))
unfolding get_or_create
read_lem h g =
    ((ground arith, ground arith, ground arith), (ground arith, ground arith, ground arith))

-- The calls on a group; `use_quote` marks a quote as used and tells the group so.
pub data Call : Type 0 where
  add : Quote → Call
  add_all : QuoteGroup → Call
  remove : Quote → Call
  read : Bool → Call
  use_quote : Quote → Call

unfoldable pub apply_group : Store → QuoteGroup → Call → Store × QuoteGroup
apply_group h g (add q) = (h, add_to_group g q)
apply_group h g (add_all other) = (h, add_group g other)
apply_group h g (remove q) = (h, (remove_from_group g q).0)
apply_group h g (read unused_only) = (h, (get_or_create unused_only h g).0)
apply_group h g (use_quote q) = ((set_used h q).0, invalidate g true)

-- Adding, removing, reading, and marking a quote as used with the notice to the group keep the
-- cached values equal to a fresh calculation.
pub apply_group-IsCoherent :
    (h : Store) (g : QuoteGroup) (c : Call)
    → IsCoherent h g
    → let (h', g') = apply_group h g c in IsCoherent h' g'
unfolding apply_group add_to_group add_group remove_from_group invalidate Fresh
apply_group-IsCoherent h g (Call.add q) w = record { unused_fresh = tt; all_fresh = tt }
apply_group-IsCoherent h g (Call.add_all other) w = record { unused_fresh = tt; all_fresh = tt }
apply_group-IsCoherent h g (Call.remove q) w = elim (Option-cases (without q g.quotes)) [
  | inl e ↦ rw (remove_from_group, e) w
  | inr (l, e) ↦ rw (remove_from_group, e) (record { unused_fresh = tt; all_fresh = tt })
]
apply_group-IsCoherent h g (Call.read true) w =
    let ((q, a, u), _) = read_lem h g in
    record {
      unused_fresh = rw (u, q) (get_or_create_fresh true h g w);
      all_fresh = rw (a, q) w.all_fresh;
    }
apply_group-IsCoherent h g (Call.read false) w =
    let (_, (q, u, a)) = read_lem h g in
    record {
      unused_fresh = rw (u, q) w.unused_fresh;
      all_fresh = rw (a, q) (get_or_create_fresh false h g w);
    }
apply_group-IsCoherent h g (Call.use_quote q) w = record {
  unused_fresh = tt;
  all_fresh = rw (calculate_all (set_used h q).0 h g.quotes) w.all_fresh;
}
