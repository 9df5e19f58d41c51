-- ===== src/Market/Counts.antt =====
-- How many quotes of a vector of the order book have a key that passes a test: what `AddQuote` of
-- lib/orderbook/src/OrderBook.cpp changes of it.
use spot_grid_bot.Base.{
  ℕ, ◌+◌, ◌≤◌, ◌≡◌, ap, inl, inr, Bool, true, false, not, ◌&&◌, some, [], ◌∷◌, arith, if◌then◌else◌,
  count, Bool-cases,
}
use spot_grid_bot.Base.Int.{ℤ, pos, eqb_ℤ, ltb_ℤ, eqb_ℤ→eq}
use spot_grid_bot.Quote.{Quote, Store}
use spot_grid_bot.Book.{update_vec, drop_referred, drop_found, referred, is_delete, replaces}
use spot_grid_bot.Book.Side.{QuoteVec, insert_quote, find_key, erase_key}

-- How many quotes have a key that passes the test
abbrev pub count_keys : (ℤ → Bool) → QuoteVec → ℕ
count_keys P vec = count (λ q. P q.key) vec

abbrev pub one_if : Bool → ℕ
one_if b = if b then 1 else 0

count_keys-insert :
    (P : ℤ → Bool) (bid : Bool) (q : Quote) (vec : QuoteVec)
    → count_keys P (insert_quote bid q vec) ≡ count_keys P vec + one_if (P q.key)
unfolding insert_quote
count_keys-insert P bid q [] = ground arith
count_keys-insert P bid q (r ∷ vec) = ground (arith, count_keys-insert P bid q vec)

count_keys-erase :
    (P : ℤ → Bool) (k : ℤ) (vec : QuoteVec) (q : Quote)
    → find_key k vec ≡ some q
    → count_keys P (erase_key k vec) + one_if (P k) ≡ count_keys P vec
unfolding find_key erase_key
count_keys-erase P k [] q h = ground arith
count_keys-erase P k (r ∷ vec) q h = elim (Bool-cases (eqb_ℤ r.key k)) [
  | inl e ↦ ground (arith, e, ap P (eqb_ℤ→eq r.key k e))
  | inr e ↦ ground (arith, e, h, count_keys-erase P k vec q)
]

-- A key that some quote has is found.
count_keys-found :
    (k : ℤ) (vec : QuoteVec)
    → 1 ≤ count_keys (λ j. eqb_ℤ j k) vec
    → (q : Quote) × (find_key k vec ≡ some q)
unfolding find_key
count_keys-found k [] h = ground (arith, h)
count_keys-found k (r ∷ vec) h = elim (Bool-cases (eqb_ℤ r.key k)) [
  | inl e ↦ (r, ground (arith, e))
  | inr e ↦ let (q, f) = count_keys-found k vec (ground (arith, h, e)) in (q, ground (arith, e, f))
]

-- `AddQuote` for a quote that refers to one in the vector
pub update_vec-replaces :
    (P : ℤ → Bool) (bid : Bool) (q : Quote) (now : ℤ) (vec : QuoteVec) (h : Store)
    → replaces q ≡ true
    → ltb_ℤ (pos 0) q.ref_key ≡ true
    → 1 ≤ count_keys (λ j. eqb_ℤ j q.ref_key) vec
    → count_keys P (update_vec bid q now (vec, h)).0 + one_if (P q.ref_key)
      ≡ count_keys P vec + one_if (not (is_delete q) && P q.key)
unfolding update_vec drop_referred drop_found referred
update_vec-replaces P bid q now vec h r z c =
    let (old, f) = count_keys-found q.ref_key vec c in
    ground (
      arith,
      r,
      z,
      f,
      count_keys-erase P q.ref_key vec old f,
      count_keys-insert P bid q (erase_key q.ref_key vec),
    )

-- And for one that refers to none
pub update_vec-adds :
    (P : ℤ → Bool) (bid : Bool) (q : Quote) (now : ℤ) (vec : QuoteVec) (h : Store)
    → ltb_ℤ (pos 0) q.ref_key ≡ false
    → is_delete q ≡ false
    → count_keys P (update_vec bid q now (vec, h)).0 ≡ count_keys P vec + one_if (P q.key)
unfolding update_vec drop_referred drop_found referred
update_vec-adds P bid q now vec h z d = ground (arith, z, d, count_keys-insert P bid q vec)
