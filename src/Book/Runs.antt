-- ===== src/Book/Runs.antt =====
-- The runs of one price that `getNextLevel` cuts a vector into.
use spot_grid_bot.Base.{
  ℕ, zero, suc, ◌≤◌, ◌≡◌, refl, sym, subst, inl, inr, ◌∙◌, Bool, List, [], ◌∷◌, ◌++◌, Option, none,
  some, arith, All, Bool-cases, keep, length, append_assoc,
}
use spot_grid_bot.Base.Int.{ℤ, eqb_ℤ, eqb_ℤ→eq}
use spot_grid_bot.Quote.{Quote}
use spot_grid_bot.Book.Levels.{QuoteGroupVec, add_if, collect, get_next_level}

-- The quotes of a group that may be missing.
abbrev pub quotes_in : Option (List Quote) → List Quote
quotes_in none = []
quotes_in (some g) = g

add_if-keep :
    (accept : Quote → Bool) (q : Quote) (group vec : List Quote)
    → add_if accept q group ++ keep accept vec ≡ group ++ keep accept (q ∷ vec)
add_if-keep accept q group vec = elim (Bool-cases (accept q)) [
  | inl e ↦ rw e (append_assoc group (q ∷ []) (keep accept vec))
  | inr e ↦ rw e
]

-- What one call of `getNextLevel` took, and what it left, are the accepted quotes; and it took
-- at least one quote off the vector.
pub collect_splits :
    (accept : Quote → Bool) (price : ℤ) (group vec : List Quote)
    → let (g, rest) = collect accept price group vec in
      (quotes_in g ++ keep accept rest ≡ group ++ keep accept vec) × (length rest ≤ length vec)
unfolding collect
collect_splits accept price [] [] = (refl, omega arith)
collect_splits accept price (x ∷ group) [] = (refl, omega arith)
collect_splits accept price [] (q ∷ vec) =
    ground
      (arith, collect_splits accept q.price (add_if accept q []) vec, add_if-keep accept q [] vec)
collect_splits accept price (x ∷ group) (q ∷ vec) = ground (
  arith,
  collect_splits accept q.price (add_if accept q (x ∷ group)) vec,
  add_if-keep accept q (x ∷ group) vec,
)

pub next_level_splits :
    (accept : Quote → Bool) (q : Quote) (vec : List Quote)
    → let (g, rest) = get_next_level accept (q ∷ vec) in
      (quotes_in g ++ keep accept rest ≡ keep accept (q ∷ vec)) × (length rest ≤ length vec)
unfolding get_next_level
next_level_splits accept q vec =
    let (e, h) = collect_splits accept q.price (add_if accept q []) vec in
    (e ∙ add_if-keep accept q [] vec, h)

-- Every quote of a group has the group's price, and the group is not empty.
abbrev pub HasPrice : ℤ → Quote → Type 0
HasPrice p q = q.price ≡ p

abbrev pub IsLevel : List Quote → Type 0
IsLevel [] = ⊥
IsLevel (q ∷ group) = All (HasPrice q.price) group

abbrev pub IsLevelOrNone : Option (List Quote) → Type 0
IsLevelOrNone none = Unit
IsLevelOrNone (some g) = IsLevel g

All-snoc :
    (P : Quote → Type 0) (group : List Quote) (q : Quote)
    → All P group
    → P q
    → All P (group ++ (q ∷ []))
All-snoc P [] q h k = (k, tt)
All-snoc P (x ∷ group) q h k = (h.0, All-snoc P group q h.1 k)

pub add_if-HasPrice :
    (accept : Quote → Bool) (q : Quote) (group : List Quote)
    → All (HasPrice q.price) group
    → All (HasPrice q.price) (add_if accept q group)
add_if-HasPrice accept q group h = elim (Bool-cases (accept q)) [
  | inl e ↦ rw e (All-snoc (HasPrice q.price) group q h refl)
  | inr e ↦ rw e h
]

pub HasPrice-IsLevel :
    (p : ℤ) (x : Quote) (group : List Quote) → All (HasPrice p) (x ∷ group) → IsLevel (x ∷ group)
HasPrice-IsLevel p x group h = subst (λ r. All (HasPrice r) group) (sym h.0) h.1

collect-IsLevel :
    (accept : Quote → Bool) (price : ℤ) (group vec : List Quote)
    → All (HasPrice price) group
    → IsLevelOrNone (collect accept price group vec).0
unfolding collect
collect-IsLevel accept price [] [] h = tt
collect-IsLevel accept price (x ∷ group) [] h = HasPrice-IsLevel price x group h
collect-IsLevel accept price [] (q ∷ vec) h = ground (
  arith,
  collect-IsLevel accept q.price (add_if accept q []) vec (add_if-HasPrice accept q [] tt),
)
collect-IsLevel accept price (x ∷ group) (q ∷ vec) h = elim (Bool-cases (eqb_ℤ price q.price)) [
  | inl same ↦ rw same (
      collect-IsLevel accept q.price (add_if accept q (x ∷ group)) vec (
        add_if-HasPrice accept q (x ∷ group)
          (subst (λ r. All (HasPrice r) (x ∷ group)) (eqb_ℤ→eq price q.price same) h)))
  | inr other ↦ rw other (HasPrice-IsLevel price x group h)
]

pub next_level-IsLevel :
    (accept : Quote → Bool) (q : Quote) (vec : List Quote)
    → IsLevelOrNone (get_next_level accept (q ∷ vec)).0
unfolding get_next_level
next_level-IsLevel accept q vec =
    collect-IsLevel accept q.price (add_if accept q []) vec (add_if-HasPrice accept q [] tt)

abbrev pub concat : QuoteGroupVec → List Quote
concat [] = []
concat (g ∷ gs) = g ++ concat gs

-- The groups that `IterateQuoteGroups` finds, in order.
unfoldable pub all_levels : (Quote → Bool) → ℕ → List Quote → QuoteGroupVec
all_levels accept zero vec = []
all_levels accept (suc fuel) [] = []
all_levels accept (suc fuel) (q ∷ vec) =
    let (g, rest) = get_next_level accept (q ∷ vec) in
    elim g [ none ↦ all_levels accept fuel rest | some group ↦ group ∷ all_levels accept fuel rest ]

pub all_levels-concat :
    (accept : Quote → Bool) (fuel : ℕ) (vec : List Quote)
    → length vec ≤ fuel
    → concat (all_levels accept fuel vec) ≡ keep accept vec
unfolding all_levels
all_levels-concat accept zero [] h = refl
all_levels-concat accept zero (q ∷ vec) h = absurd (omega arith)
all_levels-concat accept (suc fuel) [] h = refl
all_levels-concat accept (suc fuel) (q ∷ vec) h = ground (
  arith,
  next_level_splits accept q vec,
  all_levels-concat accept fuel (get_next_level accept (q ∷ vec)).1,
)

pub all_levels-IsLevel :
    (accept : Quote → Bool) (fuel : ℕ) (vec : List Quote) → All IsLevel (all_levels accept fuel vec)
unfolding all_levels
all_levels-IsLevel accept zero vec = tt
all_levels-IsLevel accept (suc fuel) [] = tt
all_levels-IsLevel accept (suc fuel) (q ∷ vec) = ground (
  arith,
  next_level-IsLevel accept q vec,
  all_levels-IsLevel accept fuel (get_next_level accept (q ∷ vec)).1,
)
