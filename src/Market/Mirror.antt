-- ===== src/Market/Mirror.antt =====
-- The order book of lib/orderbook/src/OrderBook.cpp against the table of active quotes, while
-- src/ConnectionBaseMD.cpp publishes what `ParseQuote` makes of the exchange's levels.
use spot_grid_bot.Base.{
  ℕ, ◌+◌, ◌≤◌, ◌≡◌, refl, ap, sym, subst, ◌∙◌, ◌⊎◌, Bool, true, false, not, ◌&&◌, List, ◌∷◌, arith,
  if◌then◌else◌, length,
}
use spot_grid_bot.Base.Int.{ℤ, pos, eqb_ℤ, ltb_ℤ, leb_ℤ}
use spot_grid_bot.Base.Double.{Double}
use spot_grid_bot.FixTypes.{is_bid}
use spot_grid_bot.Instrument.{CurrencyPair}
use spot_grid_bot.Quote.{Quote, qt_new, qt_delete}
use spot_grid_bot.Table.{QuoteInfo}
use spot_grid_bot.Book.{OrderBook, same_pair, vec_of, update_vec, is_delete, replaces}
use spot_grid_bot.Book.Contents.{add_quote_vecs, same_side}
use spot_grid_bot.Feed.{Feed, Entry, Published}
use spot_grid_bot.Feed.Live.{IsOwn}
use spot_grid_bot.Market.{quote_of, add_entry, book_after}
use spot_grid_bot.Market.Counts.{count_keys, one_if, update_vec-replaces, update_vec-adds}
use spot_grid_bot.Market.Open.{count_open, IsUnique}

-- `place_of` tells the pair and the side that stand in an id's text.
module _ (D : Double) (pip_factor : CurrencyPair → ℤ) (clock : ℕ → ℤ) (start : OrderBook)
    (place_of : ℕ → CurrencyPair × Bool) where
  -- Whether an entry of the table is of a pair and a side, with a key that passes the test
  abbrev pub open_at : CurrencyPair → Bool → (ℤ → Bool) → ℕ × QuoteInfo → Bool
  open_at c side P e =
      (same_pair (place_of e.0).0 c && same_side (place_of e.0).1 side) && P e.1.key

  abbrev pub book_of : List (Published D.F) → OrderBook
  book_of l = book_after D pip_factor clock start l

  -- For each pair and side, and whatever keys are looked at: the book has as many quotes with such
  -- a key as the table has open entries with one.
  unfoldable pub IsMirror : Feed D.F → Type 0
  IsMirror f =
      (P : ℤ → Bool) (c : CurrencyPair) (side : Bool)
      → count_keys P (vec_of (book_of f.published) c side) ≡ count_open (open_at c side P) f.table

  -- The ids of the table are different and its keys positive.
  unfoldable pub IsTidy : Feed D.F → Type 0
  IsTidy f =
      IsUnique f.table
      × (count_open (λ e. not (ltb_ℤ (pos 0) e.1.key)) f.table ≡ 0)
      × (leb_ℤ (pos 0) f.last_key ≡ true)

  -- An entry as `ParseQuote` makes it: NEW or DELETE, with the id of its pair and side
  unfoldable pub IsParsed : Entry D.F → Type 0
  IsParsed e =
      IsOwn e
      × (place_of e.id ≡ (e.instrument, is_bid e.entry_type))
      × ((e.update_type ≡ qt_new) ⊎ (e.update_type ≡ qt_delete))

  pub same_side→eq : (a b : Bool) → same_side a b ≡ true → a ≡ b
  same_side→eq true true h = refl
  same_side→eq false false h = refl
  same_side→eq true false h = ground arith
  same_side→eq false true h = ground arith

  -- What one publication does to the counts of the book
  count_keys-book :
      (p : Published D.F) (l : List (Published D.F)) (P : ℤ → Bool) (c : CurrencyPair) (side : Bool)
      → let b = book_of l in
        let bid = is_bid p.entry.entry_type in
        let now = clock (length l) in
        let q = quote_of D pip_factor p (length l) now now now in
        count_keys P (vec_of (book_of (p ∷ l)) c side) ≡ (
          if same_pair p.cp c && same_side bid side
          then count_keys P (update_vec bid q now (vec_of b p.cp bid, b.marks)).0
          else count_keys P (vec_of b c side))
  unfolding book_after add_entry
  count_keys-book p l P c side =
      let b = book_of l in
      let bid = is_bid p.entry.entry_type in
      let now = clock (length l) in
      let q = quote_of D pip_factor p (length l) now now now in
      ground (arith, ap (count_keys P) (add_quote_vecs b p.cp c bid side q now))

  pub eqb_refl : (k : ℤ) → eqb_ℤ k k ≡ true
  eqb_refl k = ground arith

  pub same_here : (c : CurrencyPair) (side : Bool) → (same_pair c c && same_side side side) ≡ true
  unfolding same_pair
  same_here c true = ground arith
  same_here c false = ground arith

  abbrev pub quote_in : Published D.F → List (Published D.F) → Quote
  quote_in p l = let now = clock (length l) in quote_of D pip_factor p (length l) now now now

  if_true : (b : Bool) (x y : ℕ) → b ≡ true → (if b then x else y) ≡ x
  if_true b x y h = ground arith

  if_false : (b : Bool) (x y : ℕ) → b ≡ false → (if b then x else y) ≡ y
  if_false b x y h = ground arith

  book_here :
      (p : Published D.F) (l : List (Published D.F)) (P : ℤ → Bool)
      → let b = book_of l in
        let bid = is_bid p.entry.entry_type in
        count_keys P (vec_of (book_of (p ∷ l)) p.cp bid)
        ≡ count_keys P
            (update_vec bid (quote_in p l) (clock (length l)) (vec_of b p.cp bid, b.marks)).0
  book_here p l P =
      let bid = is_bid p.entry.entry_type in
      count_keys-book p l P p.cp bid
      ∙ if_true (same_pair p.cp p.cp && same_side bid bid) _ _ (same_here p.cp bid)

  pub book_elsewhere :
      (p : Published D.F) (l : List (Published D.F)) (P : ℤ → Bool) (c : CurrencyPair) (side : Bool)
      → (same_pair p.cp c && same_side (is_bid p.entry.entry_type) side) ≡ false
      → count_keys P (vec_of (book_of (p ∷ l)) c side) ≡ count_keys P (vec_of (book_of l) c side)
  book_elsewhere p l P c side h =
      count_keys-book p l P c side
      ∙ if_false (same_pair p.cp c && same_side (is_bid p.entry.entry_type) side) _ _ h

  -- The counts at the place of what is published
  pub book_replaced :
      (p : Published D.F) (l : List (Published D.F)) (P : ℤ → Bool)
      → let vec = vec_of (book_of l) p.cp (is_bid p.entry.entry_type) in
        let q = quote_in p l in
        replaces q ≡ true
        → ltb_ℤ (pos 0) q.ref_key ≡ true
        → 1 ≤ count_keys (λ j. eqb_ℤ j q.ref_key) vec
        → count_keys P (vec_of (book_of (p ∷ l)) p.cp (is_bid p.entry.entry_type))
            + one_if (P q.ref_key)
          ≡ count_keys P vec + one_if (not (is_delete q) && P q.key)
  book_replaced p l P r z c =
      let b = book_of l in
      let bid = is_bid p.entry.entry_type in
      let vec = vec_of b p.cp bid in
      let q = quote_in p l in
      let step = update_vec-replaces P bid q (clock (length l)) vec b.marks r z c in
      subst
        (λ n. n + one_if (P q.ref_key) ≡ count_keys P vec + one_if (not (is_delete q) && P q.key))
        (sym (book_here p l P)) step

  pub book_added :
      (p : Published D.F) (l : List (Published D.F)) (P : ℤ → Bool)
      → let vec = vec_of (book_of l) p.cp (is_bid p.entry.entry_type) in
        let q = quote_in p l in
        ltb_ℤ (pos 0) q.ref_key ≡ false
        → is_delete q ≡ false
        → count_keys P (vec_of (book_of (p ∷ l)) p.cp (is_bid p.entry.entry_type))
          ≡ count_keys P vec + one_if (P q.key)
  book_added p l P z d =
      let b = book_of l in
      let bid = is_bid p.entry.entry_type in
      book_here p l P
      ∙ update_vec-adds P bid (quote_in p l) (clock (length l)) (vec_of b p.cp bid) b.marks z d
