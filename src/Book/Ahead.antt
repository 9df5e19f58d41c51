-- ===== src/Book/Ahead.antt =====
-- The order of the market on one side of a book, and what keeps a vector in it.
use spot_grid_bot.Base.{
  ◌≡◌, refl, ◌⊎◌, inl, inr, Bool, true, false, [], ◌∷◌, Option, none, some, arith, if◌then◌else◌,
  All, Bool-cases,
}
use spot_grid_bot.Base.Int.{ℤ, ◌≤ℤ◌, ◌<ℤ◌, eqb_ℤ→eq}
use spot_grid_bot.Quote.{Quote, Store, set_invalid}
use spot_grid_bot.Book.Side.{
  QuoteVec, goes_before, insert_quote, erase_key, cleanup, cleanup_loop, fresh_quotes, outdated,
}
use spot_grid_bot.Book.{update_vec, drop_found, drop_referred, referred}

-- `a` may stand in front of `b`: its price is better (higher for a bid, lower for an ask), or
-- the price is the same and its volume is not smaller.
abbrev pub Ahead : Bool → Quote → Quote → Type 0
Ahead bid a b =
    (if bid then b.price <ℤ a.price else a.price <ℤ b.price)
    ⊎ ((a.price ≡ b.price) × (b.volume ≤ℤ a.volume))

-- Every quote may stand in front of all that follow it.
abbrev pub IsSorted : Bool → QuoteVec → Type 0
IsSorted bid [] = Unit
IsSorted bid (q ∷ vec) = All (Ahead bid q) vec × IsSorted bid vec

Ahead-trans : (bid : Bool) (a b c : Quote) → Ahead bid a b → Ahead bid b c → Ahead bid a c
Ahead-trans true a b c h k = ground arith
Ahead-trans false a b c h k = ground arith

goes_before-Ahead : (bid : Bool) (a b : Quote) → goes_before bid a b ≡ true → Ahead bid a b
unfolding goes_before
goes_before-Ahead true a b h = ground (arith, eqb_ℤ→eq a.price b.price)
goes_before-Ahead false a b h = ground (arith, eqb_ℤ→eq a.price b.price)

stays_behind-Ahead : (bid : Bool) (a b : Quote) → goes_before bid a b ≡ false → Ahead bid b a
unfolding goes_before
stays_behind-Ahead true a b h = ground (arith, eqb_ℤ→eq a.price b.price)
stays_behind-Ahead false a b h = ground (arith, eqb_ℤ→eq a.price b.price)

All-Ahead-trans :
    (bid : Bool) (a b : Quote) (vec : QuoteVec)
    → Ahead bid a b
    → All (Ahead bid b) vec
    → All (Ahead bid a) vec
All-Ahead-trans bid a b [] h k = tt
All-Ahead-trans bid a b (q ∷ vec) h k =
    (Ahead-trans bid a b q h k.0, All-Ahead-trans bid a b vec h k.1)

All-insert_quote :
    (P : Quote → Type 0) (bid : Bool) (q : Quote) (vec : QuoteVec)
    → P q
    → All P vec
    → All P (insert_quote bid q vec)
unfolding insert_quote
All-insert_quote P bid q [] h k = (h, tt)
All-insert_quote P bid q (x ∷ vec) h k = elim (Bool-cases (goes_before bid q x)) [
  | inl e ↦ rw e (h, k)
  | inr e ↦ rw e (k.0, All-insert_quote P bid q vec h k.1)
]

pub insert_quote-IsSorted :
    (bid : Bool) (q : Quote) (vec : QuoteVec)
    → IsSorted bid vec
    → IsSorted bid (insert_quote bid q vec)
unfolding insert_quote
insert_quote-IsSorted bid q [] s = (tt, tt)
insert_quote-IsSorted bid q (x ∷ vec) s = elim (Bool-cases (goes_before bid q x)) [
  | inl e ↦ let h = goes_before-Ahead bid q x e in rw e ((h, All-Ahead-trans bid q x vec h s.0), s)
  | inr e ↦ rw e (
    All-insert_quote (Ahead bid x) bid q vec (stays_behind-Ahead bid q x e) s.0,
    insert_quote-IsSorted bid q vec s.1,
  )
]

All-erase_key : (P : Quote → Type 0) (k : ℤ) (vec : QuoteVec) → All P vec → All P (erase_key k vec)
unfolding erase_key
All-erase_key P k [] h = tt
All-erase_key P k (q ∷ vec) h = ground (arith, All-erase_key P k vec h.1)

erase_key-IsSorted :
    (bid : Bool) (k : ℤ) (vec : QuoteVec) → IsSorted bid vec → IsSorted bid (erase_key k vec)
unfolding erase_key
erase_key-IsSorted bid k [] s = tt
erase_key-IsSorted bid k (q ∷ vec) s =
    ground (arith, All-erase_key (Ahead bid q) k vec s.0, erase_key-IsSorted bid k vec s.1)

drop_found-IsSorted :
    (o : Option Quote) (bid : Bool) (q : Quote) (now : ℤ) (vec : QuoteVec) (h : Store)
    → IsSorted bid vec
    → IsSorted bid (drop_found o q now (vec, h)).0
unfolding drop_found
drop_found-IsSorted none bid q now vec h s = s
drop_found-IsSorted (some old) bid q now vec h s = erase_key-IsSorted bid q.ref_key vec s

pub update_vec-IsSorted :
    (bid : Bool) (q : Quote) (now : ℤ) (vec : QuoteVec) (h : Store)
    → IsSorted bid vec
    → IsSorted bid (update_vec bid q now (vec, h)).0
unfolding update_vec drop_referred
update_vec-IsSorted bid q now vec h s =
    let dropped = drop_found-IsSorted (referred q vec) bid q now vec h s in
    ground (arith, dropped, insert_quote-IsSorted bid q (drop_referred q now (vec, h)).0 dropped)

All-fresh_quotes :
    (P : Quote → Type 0) (max_age now : ℤ) (vec : QuoteVec)
    → All P vec
    → All P (fresh_quotes max_age now vec)
All-fresh_quotes P max_age now [] h = tt
All-fresh_quotes P max_age now (q ∷ vec) h = ground (arith, All-fresh_quotes P max_age now vec h.1)

fresh_quotes-IsSorted :
    (bid : Bool) (max_age now : ℤ) (vec : QuoteVec)
    → IsSorted bid vec
    → IsSorted bid (fresh_quotes max_age now vec)
fresh_quotes-IsSorted bid max_age now [] s = tt
fresh_quotes-IsSorted bid max_age now (q ∷ vec) s = ground (
  arith,
  All-fresh_quotes (Ahead bid q) max_age now vec s.0,
  fresh_quotes-IsSorted bid max_age now vec s.1,
)

pub cleanup_loop_lem :
    (max_age now : ℤ) (vec : QuoteVec) (h : Store)
    → (cleanup_loop max_age now vec h).0 ≡ fresh_quotes max_age now vec
unfolding cleanup_loop
cleanup_loop_lem max_age now [] h = refl
cleanup_loop_lem max_age now (q ∷ vec) h = rw (
    cleanup_loop_lem max_age now vec
      (if outdated max_age now q then (set_invalid h q none now now).0 else h))

pub cleanup-IsSorted :
    (bid : Bool) (max_age now : ℤ) (vec : QuoteVec) (h : Store)
    → IsSorted bid vec
    → IsSorted bid (cleanup max_age now vec h).0
unfolding cleanup
cleanup-IsSorted bid max_age now vec h s =
    ground (arith, cleanup_loop_lem max_age now vec h, fresh_quotes-IsSorted bid max_age now vec s)
