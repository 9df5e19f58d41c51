-- ===== src/Book/Best.antt =====
-- The best quote, the mid price, and when the strategy is told.
use spot_grid_bot.Base.{
  ℕ, ◌+◌, ◌/◌, ◌≤◌, ◌≡◌, refl, sym, ap, subst, ◌⊎◌, inl, inr, Bool, true, false, ◌&&◌, [], ◌∷◌,
  ◌++◌, Option, none, some, arith, if◌then◌else◌, All, Bool-cases,
}
use spot_grid_bot.Base.Int.{ℤ, pos, pos_part, ◌+ℤ◌, ◌≤ℤ◌, ltb_ℤ, quot, pos-quot, eqb_ℤ}
use spot_grid_bot.Instrument.{CurrencyPair}
use spot_grid_bot.Quote.{Quote}
use spot_grid_bot.Book.Side.{QuoteVec, first_accepted}
use spot_grid_bot.Book.{
  OrderBook, quiet, notified, bad_function_call, vec_of, get_best_quotes, get_best_prices,
  get_mid_price, middle, any_quote, add_quote,
}
use spot_grid_bot.Book.Ahead.{Ahead, IsSorted}
use spot_grid_bot.Book.Sorted.{IsSortedBook, at}

-- No quote that counts (with a positive price, and accepted) is better than the best one found, and
-- none counts if none is found.
abbrev pub IsBest : Bool → (Quote → Bool) → Option Quote → Quote → Type 0
IsBest bid accept none q = (ltb_ℤ (pos 0) q.price && accept q) ≡ false
IsBest bid accept (some best) q =
    ((ltb_ℤ (pos 0) q.price && accept q) ≡ false)
    ⊎ (if bid then q.price ≤ℤ best.price else best.price ≤ℤ q.price)

-- A best quote is one of the quotes, is accepted and has a positive price.
abbrev pub Counts : (Quote → Bool) → Option Quote → QuoteVec → Type 0
Counts accept none vec = Unit
Counts accept (some best) vec =
    ((before : QuoteVec) × (after : QuoteVec) × (vec ≡ before ++ best ∷ after))
    × (ltb_ℤ (pos 0) best.price ≡ true)
    × (accept best ≡ true)

Ahead-IsBest :
    (bid : Bool) (accept : Quote → Bool) (best q : Quote)
    → Ahead bid best q
    → IsBest bid accept (some best) q
Ahead-IsBest true accept best q h = ground arith
Ahead-IsBest false accept best q h = ground arith

All-Ahead-IsBest :
    (bid : Bool) (accept : Quote → Bool) (best : Quote) (vec : QuoteVec)
    → All (Ahead bid best) vec
    → All (IsBest bid accept (some best)) vec
All-Ahead-IsBest bid accept best [] h = tt
All-Ahead-IsBest bid accept best (q ∷ vec) h =
    (Ahead-IsBest bid accept best q h.0, All-Ahead-IsBest bid accept best vec h.1)

skipped-IsBest :
    (bid : Bool) (accept : Quote → Bool) (o : Option Quote) (q : Quote)
    → (ltb_ℤ (pos 0) q.price && accept q) ≡ false
    → IsBest bid accept o q
skipped-IsBest bid accept none q e = e
skipped-IsBest bid accept (some best) q e = inl e

self-IsBest : (bid : Bool) (accept : Quote → Bool) (q : Quote) → IsBest bid accept (some q) q
self-IsBest true accept q = inr (omega arith)
self-IsBest false accept q = inr (omega arith)

first_accepted-cons :
    (accept : Quote → Bool) (q : Quote) (vec : QuoteVec)
    → first_accepted accept (q ∷ vec)
      ≡ (if ltb_ℤ (pos 0) q.price && accept q then some q else first_accepted accept vec)
unfolding first_accepted
first_accepted-cons accept q vec = refl

first_accepted-IsBest :
    (bid : Bool) (accept : Quote → Bool) (vec : QuoteVec)
    → IsSorted bid vec
    → All (IsBest bid accept (first_accepted accept vec)) vec
first_accepted-IsBest bid accept [] s = tt
first_accepted-IsBest bid accept (q ∷ vec) s =
    elim (Bool-cases (ltb_ℤ (pos 0) q.price && accept q)) [
      | inl e ↦
          let hit : first_accepted accept (q ∷ vec) ≡ some q =
            rw (first_accepted-cons accept q vec, e) in
          subst (λ o. All (IsBest bid accept o) (q ∷ vec)) (sym hit)
            (self-IsBest bid accept q, All-Ahead-IsBest bid accept q vec s.0)
      | inr e ↦
          let miss : first_accepted accept (q ∷ vec) ≡ first_accepted accept vec =
            rw (first_accepted-cons accept q vec, e) in
          subst (λ o. All (IsBest bid accept o) (q ∷ vec)) (sym miss)
            (
              skipped-IsBest bid accept (first_accepted accept vec) q e,
              first_accepted-IsBest bid accept vec s.1,
            )
    ]

Counts-cons :
    (accept : Quote → Bool) (o : Option Quote) (q : Quote) (vec : QuoteVec)
    → Counts accept o vec
    → Counts accept o (q ∷ vec)
Counts-cons accept none q vec c = tt
Counts-cons accept (some best) q vec ((before, after, e), p, a) =
    ((q ∷ before, after, ap (◌∷◌ q) e), p, a)

first_accepted-Counts :
    (accept : Quote → Bool) (vec : QuoteVec) → Counts accept (first_accepted accept vec) vec
unfolding first_accepted
first_accepted-Counts accept [] = tt
first_accepted-Counts accept (q ∷ vec) = elim (Bool-cases (ltb_ℤ (pos 0) q.price && accept q)) [
  | inl e ↦ rw e (([], vec, refl), ground arith, ground arith)
  | inr e ↦
      rw e (Counts-cons accept (first_accepted accept vec) q vec (first_accepted-Counts accept vec))
]

-- In a sorted book a best quote is an accepted quote of its side with a positive price, and no
-- such quote has a better price; a side without a best quote has no such quote.
pub get_best_quotes-IsBest :
    (b : OrderBook) (cp : CurrencyPair) (accept : Bool → Quote → Bool)
    → IsSortedBook b
    → let best = get_best_quotes b cp accept in
      All (IsBest true (accept true) best.bid) (vec_of b cp true)
      × All (IsBest false (accept false) best.ask) (vec_of b cp false)
      × Counts (accept true) best.bid (vec_of b cp true)
      × Counts (accept false) best.ask (vec_of b cp false)
unfolding get_best_quotes
get_best_quotes-IsBest b cp accept s = (
  first_accepted-IsBest true (accept true) (vec_of b cp true) (at b s cp true),
  first_accepted-IsBest false (accept false) (vec_of b cp false) (at b s cp false),
  first_accepted-Counts (accept true) (vec_of b cp true),
  first_accepted-Counts (accept false) (vec_of b cp false),
)

half_between : (m n : ℕ) → m ≤ n → (m ≤ (m + n) / 2) × ((m + n) / 2 ≤ n)
half_between m n h = omega arith

positive : (z : ℤ) → ltb_ℤ (pos 0) z ≡ true → z ≡ pos (pos_part z)
positive z e = ground arith

quot_half : (m n : ℕ) → quot (pos m +ℤ pos n) (pos 2) ≡ pos ((m + n) / 2)
unfolding ◌+ℤ◌
quot_half m n = ground (arith, pos-quot (m + n) 2)

-- The mid price is 0 unless both sides have a positive best price; where the best bid is not above
-- the best ask it then lies between the two.
pub get_mid_price_bounds :
    (b : OrderBook) (cp : CurrencyPair)
    → let best = get_best_prices b cp any_quote in
      best.bid ≤ℤ best.ask
      → ((get_mid_price b cp ≡ pos 0)
          × ((ltb_ℤ (pos 0) best.bid && ltb_ℤ (pos 0) best.ask) ≡ false))
        ⊎ ((best.bid ≤ℤ get_mid_price b cp) × (get_mid_price b cp ≤ℤ best.ask))
unfolding get_mid_price middle
get_mid_price_bounds b cp h =
    middle_bounds (get_best_prices b cp any_quote).bid (get_best_prices b cp any_quote).ask h
  where
    middle_bounds :
        (x y : ℤ)
        → x ≤ℤ y
        → let mid = if ltb_ℤ (pos 0) x && ltb_ℤ (pos 0) y then quot (x +ℤ y) (pos 2) else pos 0 in
          ((mid ≡ pos 0) × ((ltb_ℤ (pos 0) x && ltb_ℤ (pos 0) y) ≡ false))
          ⊎ ((x ≤ℤ mid) × (mid ≤ℤ y))
    middle_bounds x y h = ground (
      arith,
      positive x,
      positive y,
      quot_half (pos_part x) (pos_part y),
      half_between (pos_part x) (pos_part y),
    )

-- Adding a quote is silent if it leaves the mid price of its pair as it was. If it changes it, the
-- action runs, or std::bad_function_call is thrown where none has been set; and the quote is then
-- the book's last quote in any case.
pub add_quote_signal :
    (b : OrderBook) (cp : CurrencyPair) (bid : Bool) (q : Quote) (now : ℤ)
    → let (after, signal) = add_quote b cp bid q now in
      (signal ≡ (
        if eqb_ℤ (get_mid_price after cp) (get_mid_price b cp)
        then quiet
        else if b.has_action
        then notified
        else bad_function_call))
      × (after.last_quote ≡ some q)
      × (after.has_action ≡ b.has_action)
unfolding add_quote
add_quote_signal b cp bid q now = (ground arith, refl, refl)
