-- ===== src/Book/Ranking.antt =====
-- The order of the levels of a sorted book (`GetLevels` of lib/orderbook/src/OrderBook.cpp).
use spot_grid_bot.Base.{
  ℕ, zero, suc, ◌≡◌, sym, subst, inl, inr, Bool, true, false, List, [], ◌∷◌, Option, none, some,
  arith, if◌then◌else◌, All, Bool-cases, keep, length, ◌≤◌, take, ◌++◌,
}
use spot_grid_bot.Base.Int.{ℤ, ◌<ℤ◌, ◌≤ℤ◌, eqb_ℤ, eqb_ℤ→eq}
use spot_grid_bot.Instrument.{CurrencyPair}
use spot_grid_bot.Quote.{Quote}
use spot_grid_bot.Book.Levels.{QuoteGroupVec, add_if, collect, get_next_level}
use spot_grid_bot.Book.{OrderBook, vec_of, get_levels}
use spot_grid_bot.Book.Ahead.{Ahead, IsSorted}
use spot_grid_bot.Book.Sorted.{IsSortedBook, at}
use spot_grid_bot.Book.Runs.{
  HasPrice, concat, all_levels, all_levels-concat, add_if-HasPrice, next_level_splits,
}
use spot_grid_bot.Book.Depth.{get_levels-all, get_levels_limit}

-- `q` has a strictly worse price than `p`, or one that is not better.
abbrev pub Worse : Bool → ℤ → Quote → Type 0
Worse bid p q = if bid then q.price <ℤ p else p <ℤ q.price

abbrev pub NotBetter : Bool → ℤ → Quote → Type 0
NotBetter bid p q = if bid then q.price ≤ℤ p else p ≤ℤ q.price

Ahead-NotBetter : (bid : Bool) (q r : Quote) → Ahead bid q r → NotBetter bid q.price r
Ahead-NotBetter true q r h = ground arith
Ahead-NotBetter false q r h = ground arith

All-NotBetter :
    (bid : Bool) (q : Quote) (vec : List Quote)
    → All (Ahead bid q) vec
    → All (NotBetter bid q.price) vec
All-NotBetter bid q [] h = tt
All-NotBetter bid q (r ∷ vec) h = (Ahead-NotBetter bid q r h.0, All-NotBetter bid q vec h.1)

NotBetter-Worse :
    (bid : Bool) (p : ℤ) (q : Quote) → eqb_ℤ p q.price ≡ false → NotBetter bid p q → Worse bid p q
NotBetter-Worse true p q e h = ground arith
NotBetter-Worse false p q e h = ground arith

Worse-Ahead : (bid : Bool) (p : ℤ) (q r : Quote) → Worse bid p q → Ahead bid q r → Worse bid p r
Worse-Ahead true p q r h k = ground arith
Worse-Ahead false p q r h k = ground arith

All-Worse :
    (bid : Bool) (p : ℤ) (q : Quote) (vec : List Quote)
    → Worse bid p q
    → All (Ahead bid q) vec
    → All (Worse bid p) vec
All-Worse bid p q [] h k = tt
All-Worse bid p q (r ∷ vec) h k = (Worse-Ahead bid p q r h k.0, All-Worse bid p q vec h k.1)

-- What is left after a group is worse than the group, and still sorted.
abbrev Leaves : Bool → Option (List Quote) × List Quote → Type 0
Leaves bid (none, rest) = IsSorted bid rest
Leaves bid (some [], rest) = ⊥
Leaves bid (some (x ∷ g), rest) = All (Worse bid x.price) rest × IsSorted bid rest

collect-Leaves :
    (accept : Quote → Bool) (bid : Bool) (price : ℤ) (group vec : List Quote)
    → All (HasPrice price) group
    → All (NotBetter bid price) vec
    → IsSorted bid vec
    → Leaves bid (collect accept price group vec)
unfolding collect
collect-Leaves accept bid price [] [] h k s = tt
collect-Leaves accept bid price (x ∷ group) [] h k s = (tt, tt)
collect-Leaves accept bid price [] (q ∷ vec) h k s =
    let next =
      collect-Leaves accept bid q.price (add_if accept q []) vec (add_if-HasPrice accept q [] tt)
        (All-NotBetter bid q vec s.0) s.1 in
    elim (Bool-cases (eqb_ℤ price q.price)) [ inl same ↦ rw same next | inr other ↦ rw other next ]
collect-Leaves accept bid price (x ∷ group) (q ∷ vec) h k s =
    elim (Bool-cases (eqb_ℤ price q.price)) [
      | inl same ↦ rw same (
          collect-Leaves accept bid q.price (add_if accept q (x ∷ group)) vec
            (add_if-HasPrice accept q (x ∷ group)
              (subst (λ r. All (HasPrice r) (x ∷ group)) (eqb_ℤ→eq price q.price same) h))
            (All-NotBetter bid q vec s.0) s.1)
      | inr other ↦ rw other (
          let worse = NotBetter-Worse bid price q other k.0 in
          (
            subst (λ r. All (Worse bid r) (q ∷ vec)) (sym h.0)
                (worse, All-Worse bid price q vec worse s.0),
            s,
          ))
    ]

next_level-Leaves :
    (accept : Quote → Bool) (bid : Bool) (q : Quote) (vec : List Quote)
    → IsSorted bid (q ∷ vec)
    → Leaves bid (get_next_level accept (q ∷ vec))
unfolding get_next_level
next_level-Leaves accept bid q vec s =
    collect-Leaves accept bid q.price (add_if accept q []) vec (add_if-HasPrice accept q [] tt)
      (All-NotBetter bid q vec s.0) s.1

All-keep :
    (P : Quote → Type 0) (accept : Quote → Bool) (vec : List Quote)
    → All P vec
    → All P (keep accept vec)
All-keep P accept [] h = tt
All-keep P accept (q ∷ vec) h = elim (Bool-cases (accept q)) [
  | inl e ↦ rw e (h.0, All-keep P accept vec h.1)
  | inr e ↦ rw e (All-keep P accept vec h.1)
]

-- Every group's price is strictly better than every quote of the groups behind it.
abbrev pub IsRanked : Bool → QuoteGroupVec → Type 0
IsRanked bid [] = Unit
IsRanked bid ([] ∷ levels) = ⊥
IsRanked bid ((x ∷ group) ∷ levels) = All (Worse bid x.price) (concat levels) × IsRanked bid levels

-- A group and what it leaves, put in front of the levels of what it leaves.
abbrev prepend : Option (List Quote) → QuoteGroupVec → QuoteGroupVec
prepend none levels = levels
prepend (some g) levels = g ∷ levels

prepend-IsRanked :
    (accept : Quote → Bool) (bid : Bool) (o : Option (List Quote)) (rest : List Quote)
    (levels : QuoteGroupVec)
    → Leaves bid (o, rest)
    → concat levels ≡ keep accept rest
    → IsRanked bid levels
    → IsRanked bid (prepend o levels)
prepend-IsRanked accept bid none rest levels l e r = r
prepend-IsRanked accept bid (some []) rest levels l e r = l
prepend-IsRanked accept bid (some (x ∷ g)) rest levels l e r =
    (subst (All (Worse bid x.price)) (sym e) (All-keep (Worse bid x.price) accept rest l.0), r)

Leaves-IsSorted :
    (bid : Bool) (o : Option (List Quote)) (rest : List Quote)
    → Leaves bid (o, rest)
    → IsSorted bid rest
Leaves-IsSorted bid none rest l = l
Leaves-IsSorted bid (some []) rest l = absurd l
Leaves-IsSorted bid (some (x ∷ g)) rest l = l.1

all_levels-cons :
    (accept : Quote → Bool) (fuel : ℕ) (q : Quote) (vec : List Quote)
    → all_levels accept (suc fuel) (q ∷ vec)
      ≡ prepend
          (get_next_level accept (q ∷ vec)).0
          (all_levels accept fuel (get_next_level accept (q ∷ vec)).1)
unfolding all_levels
all_levels-cons accept fuel q vec = ground arith

all_levels-IsRanked :
    (accept : Quote → Bool) (bid : Bool) (fuel : ℕ) (vec : List Quote)
    → length vec ≤ fuel
    → IsSorted bid vec
    → IsRanked bid (all_levels accept fuel vec)
unfolding all_levels
all_levels-IsRanked accept bid zero [] h s = tt
all_levels-IsRanked accept bid zero (q ∷ vec) h s = absurd (omega arith)
all_levels-IsRanked accept bid (suc fuel) [] h s = tt
all_levels-IsRanked accept bid (suc fuel) (q ∷ vec) h s =
    let (g, rest) = get_next_level accept (q ∷ vec) in
    let l = next_level-Leaves accept bid q vec s in
    let short : length rest ≤ fuel = omega (arith, (next_level_splits accept q vec).1) in
    subst (IsRanked bid) (sym (all_levels-cons accept fuel q vec)) (
      prepend-IsRanked accept bid g rest (all_levels accept fuel rest) l
        (all_levels-concat accept fuel rest short)
        (all_levels-IsRanked accept bid fuel rest short (Leaves-IsSorted bid g rest l)))

All-split : (P : Quote → Type 0) (l m : List Quote) → All P (l ++ m) → All P l × All P m
All-split P [] m a = (tt, a)
All-split P (q ∷ l) m a = let (x, y) = All-split P l m a.1 in ((a.0, x), y)

All-join : (P : Quote → Type 0) (l m : List Quote) → All P l → All P m → All P (l ++ m)
All-join P [] m a b = b
All-join P (q ∷ l) m a b = (a.0, All-join P l m a.1 b)

All-concat-take :
    (P : Quote → Type 0) (n : ℕ) (levels : QuoteGroupVec)
    → All P (concat levels)
    → All P (concat (take n levels))
All-concat-take P zero levels a = tt
All-concat-take P (suc n) [] a = tt
All-concat-take P (suc n) (g ∷ levels) a =
    let (x, y) = All-split P g (concat levels) a in
    All-join P g (concat (take n levels)) x (All-concat-take P n levels y)

take-IsRanked :
    (bid : Bool) (n : ℕ) (levels : QuoteGroupVec)
    → IsRanked bid levels
    → IsRanked bid (take n levels)
take-IsRanked bid zero levels r = tt
take-IsRanked bid (suc n) [] r = tt
take-IsRanked bid (suc n) ([] ∷ levels) r = r
take-IsRanked bid (suc n) ((x ∷ group) ∷ levels) r =
    (All-concat-take (Worse bid x.price) n levels r.0, take-IsRanked bid n levels r.1)

unlimited-IsRanked :
    (b : OrderBook) (cp : CurrencyPair) (bid : Bool) (accept : Quote → Bool)
    → IsSortedBook b
    → IsRanked bid (get_levels b cp bid 0 accept)
unlimited-IsRanked b cp bid accept s = rw (get_levels-all b cp bid accept) (
    all_levels-IsRanked accept bid (length (vec_of b cp bid)) (vec_of b cp bid) (omega arith)
      (at b s cp bid))

-- In a sorted book the levels, also when their number is limited (0 is no limit), run from the best
-- price to the worst: each has a strictly better price than every quote of the levels behind it.
pub get_levels-IsRanked :
    (b : OrderBook) (cp : CurrencyPair) (bid : Bool) (n : ℕ) (accept : Quote → Bool)
    → IsSortedBook b
    → IsRanked bid (get_levels b cp bid n accept)
get_levels-IsRanked b cp bid zero accept s = unlimited-IsRanked b cp bid accept s
get_levels-IsRanked b cp bid (suc n) accept s = rw (get_levels_limit b cp bid accept n) (
    take-IsRanked bid (suc n) (get_levels b cp bid 0 accept) (unlimited-IsRanked b cp bid accept s))
