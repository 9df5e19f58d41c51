-- ===== src/Rates/Tests.antt =====
-- The theorems about rates at a small market, and a path that is kept though a shorter one is there.
use spot_grid_bot.Base.{ℕ, ◌≡◌, refl, true, Option, some, none, List, [], ◌∷◌}
use spot_grid_bot.Base.Int.{ℤ, pos}
use spot_grid_bot.Samples.{whole}
use spot_grid_bot.Rates.{
  RateManager, new_manager, set_rate, get_bid_rate, pair_of, get_path, same_key,
}
use spot_grid_bot.Rates.Setting.{IsWell, new_manager-IsWell, set_rate-IsWell}
use spot_grid_bot.Rates.Product.{BidRate, get_bid_rate_lem}

abbrev bid : ℕ → ℕ → RateManager whole → RateManager whole
bid a b m = (set_rate whole m (pair_of a b) true (pos 2)).0

abbrev market : RateManager whole
market = bid 2 3 (bid 1 2 (new_manager whole))

set_rate-IsWell_example : IsWell whole (bid 1 2 (new_manager whole))
set_rate-IsWell_example =
    set_rate-IsWell whole (new_manager whole) (pair_of 1 2) true (pos 2) (new_manager-IsWell whole)

market-IsWell : IsWell whole market
market-IsWell = set_rate-IsWell whole (bid 1 2 (new_manager whole)) (pair_of 2 3) true (pos 2) (
    set_rate-IsWell whole (new_manager whole) (pair_of 1 2) true (pos 2) (new_manager-IsWell whole))

get_bid_rate_lem_example :
    (m' : RateManager whole) × (rate : ℤ) × (get_bid_rate whole 2 (pair_of 1 3) market
      ≡ some (m', rate))
    × IsWell whole m'
    × (m'.bid_rates ≡ market.bid_rates)
    × BidRate whole market.bid_rates (pair_of 1 3) rate
get_bid_rate_lem_example = get_bid_rate_lem whole market (pair_of 1 3) market-IsWell

-- From 2 to 4 there are 2, 1, 7, 4 and 2, 3, 5, 6, 4.
abbrev roads : RateManager whole
roads =
    bid 1 2
      (bid 1 7 (bid 7 4 (bid 2 1 (bid 2 3 (bid 3 5 (bid 5 6 (bid 6 4 (new_manager whole))))))))

abbrev second_path : Option (List ℕ)
second_path = elim (get_path whole roads (pair_of 1 4)) [
  | none ↦ none
  | some (paths, found) ↦ elim (get_path whole (record roads { paths = paths }) (pair_of 2 4)) [
    | none ↦ none
    | some (paths', found') ↦ found'
  ]
]

-- The search from 1 keeps the long one, since it ignores 1; so a search from 2 answers it.
long_path_kept : second_path ≡ some (2 ∷ 3 ∷ 5 ∷ 6 ∷ 4 ∷ [])
unfolding get_path set_rate new_manager same_key
long_path_kept = refl

short_path : Option (List ℕ)
short_path = elim (get_path whole roads (pair_of 2 4)) [ none ↦ none | some (paths, found) ↦ found ]

short_path_first : short_path ≡ some (2 ∷ 1 ∷ 7 ∷ 4 ∷ [])
unfolding short_path get_path set_rate new_manager same_key
short_path_first = refl
