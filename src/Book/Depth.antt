-- ===== src/Book/Depth.antt =====
-- The levels that `GetLevels` of lib/orderbook/src/OrderBook.cpp gives, with a limit and without.
use spot_grid_bot.Base.{
  ℕ, zero, suc, ◌+◌, ◌≡◌, sym, inl, inr, ◌∙◌, ap, Bool, List, [], ◌∷◌, ◌++◌, arith, All,
  Option-cases, keep, take, length, append-nil, append_assoc,
}
use spot_grid_bot.Instrument.{CurrencyPair}
use spot_grid_bot.Quote.{Quote}
use spot_grid_bot.Book.Levels.{
  QuoteGroupVec, get_next_level, iterate, iterate_quote_groups, push_level,
}
use spot_grid_bot.Book.{OrderBook, vec_of, get_levels}
use spot_grid_bot.Book.Runs.{IsLevel, concat, all_levels, all_levels-concat, all_levels-IsLevel}

-- The lambda of `GetLevels` without a limit, and with one.
iterate_unlimited :
    (accept : Quote → Bool) (fuel level : ℕ) (vec : List Quote) (out : QuoteGroupVec)
    → iterate push_level accept fuel level vec (out, 0) ≡ (out ++ all_levels accept fuel vec, 0)
unfolding iterate all_levels
iterate_unlimited accept zero level vec out = rw append-nil
iterate_unlimited accept (suc fuel) level [] out = rw append-nil
iterate_unlimited accept (suc fuel) level (q ∷ vec) out =
    let (g, rest) = get_next_level accept (q ∷ vec) in
    elim (Option-cases (get_next_level accept (q ∷ vec)).0) [
      | inl e ↦ ground (arith, iterate_unlimited accept fuel (level + 1) rest out)
      | inr (group, e) ↦ ground (
        arith,
        iterate_unlimited accept fuel (level + 1) rest (out ++ (group ∷ [])),
        append_assoc out (group ∷ []) (all_levels accept fuel rest),
      )
    ]

iterate_limited :
    (accept : Quote → Bool) (fuel level : ℕ) (vec : List Quote) (out : QuoteGroupVec) (n : ℕ)
    → (iterate push_level accept fuel level vec (out, suc n)).0
      ≡ out ++ take (suc n) (all_levels accept fuel vec)
unfolding iterate all_levels
iterate_limited accept zero level vec out n = rw append-nil
iterate_limited accept (suc fuel) level [] out n = rw append-nil
iterate_limited accept (suc fuel) level (q ∷ vec) out zero =
    let (g, rest) = get_next_level accept (q ∷ vec) in
    elim (Option-cases (get_next_level accept (q ∷ vec)).0) [
      | inl e ↦ ground (arith, iterate_limited accept fuel (level + 1) rest out zero)
      | inr (group, e) ↦ ground arith
    ]
iterate_limited accept (suc fuel) level (q ∷ vec) out (suc n) =
    let (g, rest) = get_next_level accept (q ∷ vec) in
    elim (Option-cases (get_next_level accept (q ∷ vec)).0) [
      | inl e ↦ ground (arith, iterate_limited accept fuel (level + 1) rest out (suc n))
      | inr (group, e) ↦ ground (
        arith,
        iterate_limited accept fuel (level + 1) rest (out ++ (group ∷ [])) n,
        append_assoc out (group ∷ []) (take (suc n) (all_levels accept fuel rest)),
      )
    ]

pub get_levels-all :
    (b : OrderBook) (cp : CurrencyPair) (bid : Bool) (accept : Quote → Bool)
    → get_levels b cp bid 0 accept ≡ all_levels accept (length (vec_of b cp bid)) (vec_of b cp bid)
unfolding get_levels iterate_quote_groups
get_levels-all b cp bid accept =
    ap (λ (r : QuoteGroupVec × ℕ). r.0)
      (iterate_unlimited accept (length (vec_of b cp bid)) 1 (vec_of b cp bid) [])

-- Without a limit the levels are exactly the accepted quotes of the side, in order, cut into groups
-- of which none is empty and each has one price.
pub get_levels_cover :
    (b : OrderBook) (cp : CurrencyPair) (bid : Bool) (accept : Quote → Bool)
    → let levels = get_levels b cp bid 0 accept in
      (concat levels ≡ keep accept (vec_of b cp bid)) × All IsLevel levels
get_levels_cover b cp bid accept =
    let vec = vec_of b cp bid in
    rw (get_levels-all b cp bid accept) (
      all_levels-concat accept (length vec) vec (omega arith),
      all_levels-IsLevel accept (length vec) vec,
    )

-- With a limit above 0 they are the first so many of these.
pub get_levels_limit :
    (b : OrderBook) (cp : CurrencyPair) (bid : Bool) (accept : Quote → Bool) (n : ℕ)
    → get_levels b cp bid (suc n) accept ≡ take (suc n) (get_levels b cp bid 0 accept)
unfolding get_levels iterate_quote_groups
get_levels_limit b cp bid accept n =
    let vec = vec_of b cp bid in
    iterate_limited accept (length vec) 1 vec [] n
    ∙ ap (take (suc n))
        (sym (ap (λ (r : QuoteGroupVec × ℕ). r.0) (iterate_unlimited accept (length vec) 1 vec [])))
