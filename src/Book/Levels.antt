-- ===== src/Book/Levels.antt =====
-- The levels of one side: `getNextLevel` and `IterateQuoteGroups` of OrderBook.cpp. A quote group
-- stands here as the vector of its quotes, `m_quotes`.
use spot_grid_bot.Base.{
  ℕ, zero, suc, ◌+◌, ◌-◌, Bool, true, false, not, ◌&&◌, List, [], ◌∷◌, ◌++◌, Option, none, some,
  ◌==◌, ltb, if◌then◌else◌, length,
}
use spot_grid_bot.Base.Int.{ℤ, eqb_ℤ}
use spot_grid_bot.Quote.{Quote}

abbrev pub QuoteGroupVec : Type 0
QuoteGroupVec = List (List Quote)

abbrev pub add_if : (Quote → Bool) → Quote → List Quote → List Quote
add_if accept q group = if accept q then group ++ (q ∷ []) else group

-- An empty group is a null pointer (`success` is false).
abbrev pub non_empty : List Quote → Option (List Quote)
non_empty [] = none
non_empty (q ∷ group) = some (q ∷ group)

abbrev pub is_empty : List Quote → Bool
is_empty [] = true
is_empty (q ∷ group) = false

-- The two nested loops of `getNextLevel` as one pass: `price` is that of the level under way and
-- `group` what was accepted of it. A change of price ends the call if the group has a quote, and
-- otherwise begins the next level.
unfoldable pub collect :
    (Quote → Bool) → ℤ → List Quote → List Quote → Option (List Quote) × List Quote
collect accept price group [] = (non_empty group, [])
collect accept price group (q ∷ vec) =
    let rest = collect accept q.price (add_if accept q group) vec in
    if not (eqb_ℤ price q.price) && not (is_empty group) then (non_empty group, q ∷ vec) else rest

-- `getNextLevel`: the group, if there is one, and what the returned iterator still has before it
unfoldable pub get_next_level : (Quote → Bool) → List Quote → Option (List Quote) × List Quote
unfolding collect
get_next_level accept [] = (none, [])
get_next_level accept (q ∷ vec) = collect accept q.price (add_if accept q []) vec

-- The loop of `IterateQuoteGroups` over the quotes that are left. The action gets the level and
-- the group and returns `cont`. The fuel is the number of quotes, since each level takes one.
unfoldable pub iterate {ℓ} :
    {S : Type ℓ} → (ℕ → List Quote → S → S × Bool) → (Quote → Bool) → ℕ → ℕ → List Quote → S → S
iterate action accept zero level vec s = s
iterate action accept (suc fuel) level [] s = s
iterate action accept (suc fuel) level (q ∷ vec) s =
    let (group, rest) = get_next_level accept (q ∷ vec) in
    elim group [
      | none ↦ iterate action accept fuel (level + 1) rest s
      | some g ↦
          let (s', cont) = action level g s in
          let further = iterate action accept fuel (level + 1) rest s' in
          if cont then further else s'
    ]

unfoldable pub iterate_quote_groups {ℓ} :
    {S : Type ℓ} → (ℕ → List Quote → S → S × Bool) → (Quote → Bool) → List Quote → S → S
unfolding iterate get_next_level
iterate_quote_groups action accept vec = iterate action accept (length vec) 1 vec

-- The lambda of `GetLevels`: `cont = n == 0 || --n > 0`
abbrev pub push_level : ℕ → List Quote → QuoteGroupVec × ℕ → (QuoteGroupVec × ℕ) × Bool
push_level level g (out, n) =
    if n == 0 then ((out ++ (g ∷ []), n), true) else ((out ++ (g ∷ []), n - 1), ltb 0 (n - 1))
