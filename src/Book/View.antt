-- ===== src/Book/View.antt =====
-- `BookView::AggregateLevel` of lib/orderbook/src/BookView.cpp, over the order book's
-- `IterateQuoteGroups`.
use spot_grid_bot.Base.{
  ℕ, zero, suc, ◌+◌, ◌≡◌, refl, sym, inl, inr, ◌∙◌, ap, Bool, false, not, ◌&&◌, List, [], ◌∷◌, ◌++◌,
  arith, if◌then◌else◌, Option-cases, Bool-cases, keep, length, append-nil, append_assoc,
}
use spot_grid_bot.Base.Int.{ℤ, pos, ◌-ℤ◌, ltb_ℤ}
use spot_grid_bot.Instrument.{CurrencyPair}
use spot_grid_bot.Quote.{Quote, Store, is_used}
use spot_grid_bot.Book.Levels.{get_next_level, iterate, iterate_quote_groups}
use spot_grid_bot.Book.{OrderBook, vec_of}
use spot_grid_bot.Book.Runs.{concat, all_levels, all_levels-concat}

-- The inner lambda, over the quotes of a group: the vector so far and the volume that is left
unfoldable pub take_quotes : Store → List Quote → List Quote × ℤ → List Quote × ℤ
take_quotes h [] s = s
take_quotes h (q ∷ g) (out, volume) = take_quotes h g (
    if ltb_ℤ (pos 0) volume && not (is_used h q)
    then (out ++ (q ∷ []), volume -ℤ q.volume)
    else (out, volume))

-- The outer lambda
abbrev pub take_level : Store → ℕ → List Quote → List Quote × ℤ → (List Quote × ℤ) × Bool
take_level h level g s = let s' = take_quotes h g s in (s', ltb_ℤ (pos 0) s'.1)

-- `AggregateLevel`: the quotes of the new group
unfoldable pub aggregate_level : OrderBook → CurrencyPair → Bool → ℤ → (Quote → Bool) → List Quote
aggregate_level b cp bid volume accept =
    (iterate_quote_groups (take_level b.marks) accept (vec_of b cp bid) ([], volume)).0

-- The unused quotes of a list from its front, until a volume is covered
abbrev pub cover : Store → ℤ → List Quote → List Quote
cover h volume [] = []
cover h volume (q ∷ l) =
    if ltb_ℤ (pos 0) volume && not (is_used h q)
    then q ∷ cover h (volume -ℤ q.volume) l
    else cover h volume l

take_quotes-cover :
    (h : Store) (l out : List Quote) (volume : ℤ)
    → (take_quotes h l (out, volume)).0 ≡ out ++ cover h volume l
unfolding take_quotes
take_quotes-cover h [] out volume = sym (append-nil out)
take_quotes-cover h (q ∷ l) out volume =
    elim (Bool-cases (ltb_ℤ (pos 0) volume && not (is_used h q))) [
      | inl e ↦
          rw (take_quotes, e)
            (take_quotes-cover h l (out ++ (q ∷ [])) (volume -ℤ q.volume)
              ∙ append_assoc out (q ∷ []) _)
      | inr e ↦ rw (take_quotes, e) (take_quotes-cover h l out volume)
    ]

take_quotes-append :
    (h : Store) (g l : List Quote) (s : List Quote × ℤ)
    → take_quotes h (g ++ l) s ≡ take_quotes h l (take_quotes h g s)
unfolding take_quotes
take_quotes-append h [] l s = refl
take_quotes-append h (q ∷ g) l (out, volume) = take_quotes-append h g l _

take_quotes-stop :
    (h : Store) (l : List Quote) (s : List Quote × ℤ)
    → ltb_ℤ (pos 0) s.1 ≡ false
    → take_quotes h l s ≡ s
unfolding take_quotes
take_quotes-stop h [] s e = refl
take_quotes-stop h (q ∷ l) (out, volume) e =
    rw (take_quotes, e) (take_quotes-stop h l (out, volume) e)

take_quotes-nil : (h : Store) (s : List Quote × ℤ) → take_quotes h [] s ≡ s
unfolding take_quotes
take_quotes-nil h s = refl

iterate-take_quotes :
    (h : Store) (accept : Quote → Bool) (fuel level : ℕ) (vec : List Quote) (s : List Quote × ℤ)
    → iterate (take_level h) accept fuel level vec s
      ≡ take_quotes h (concat (all_levels accept fuel vec)) s
unfolding iterate all_levels
iterate-take_quotes h accept zero level vec s = sym (take_quotes-nil h s)
iterate-take_quotes h accept (suc fuel) level [] s = sym (take_quotes-nil h s)
iterate-take_quotes h accept (suc fuel) level (q ∷ vec) s =
    let (g, rest) = get_next_level accept (q ∷ vec) in
    elim (Option-cases (get_next_level accept (q ∷ vec)).0) [
      | inl e ↦ ground (arith, iterate-take_quotes h accept fuel (level + 1) rest s)
      | inr (group, e) ↦ ground (
        arith,
        iterate-take_quotes h accept fuel (level + 1) rest (take_quotes h group s),
        take_quotes-append h group (concat (all_levels accept fuel rest)) s,
        take_quotes-stop h (concat (all_levels accept fuel rest)) (take_quotes h group s),
      )
    ]

-- The group that `AggregateLevel` makes is, however the quotes fall into levels, the unused ones of
-- the accepted quotes of the side, from the front, until the volume is covered.
pub aggregate_level-cover :
    (b : OrderBook) (cp : CurrencyPair) (bid : Bool) (volume : ℤ) (accept : Quote → Bool)
    → aggregate_level b cp bid volume accept ≡ cover b.marks volume (keep accept (vec_of b cp bid))
unfolding aggregate_level iterate_quote_groups
aggregate_level-cover b cp bid volume accept =
    let vec = vec_of b cp bid in
    ap (λ (r : List Quote × ℤ). r.0)
      (iterate-take_quotes b.marks accept (length vec) 1 vec ([], volume))
    ∙ take_quotes-cover b.marks (concat (all_levels accept (length vec) vec)) [] volume
    ∙ ap (cover b.marks volume) (all_levels-concat accept (length vec) vec (omega arith))
