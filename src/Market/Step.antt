-- ===== src/Market/Step.antt =====
-- One publication on both sides: the counts of the order book's quotes, by
-- lib/orderbook/src/OrderBook.cpp, and those of the table of active quotes.
use spot_grid_bot.Base.{
  ℕ, ◌+◌, ◌≤◌, ◌≡◌, ap, ap₂, sym, subst, ◌∙◌, inl, inr, Bool, true, false, not, ◌&&◌, some, List,
  ◌∷◌, arith, Bool-cases,
}
use spot_grid_bot.Base.Int.{ℤ, pos, eqb_ℤ, ltb_ℤ}
use spot_grid_bot.Base.Dict.{lookup}
use spot_grid_bot.Base.Double.{Double}
use spot_grid_bot.FixTypes.{is_bid}
use spot_grid_bot.Instrument.{CurrencyPair}
use spot_grid_bot.Table.{Table, QuoteInfo}
use spot_grid_bot.Book.{OrderBook, same_pair, vec_of, is_delete, replaces}
use spot_grid_bot.Book.Contents.{same_side, same_pair→eq}
use spot_grid_bot.Feed.{Published}
use spot_grid_bot.Market.Counts.{count_keys, one_if}
use spot_grid_bot.Market.Open.{count_open, lookup-counted}
use spot_grid_bot.Market.Mirror.{
  open_at, book_of, same_side→eq, quote_in, book_replaced, book_added, book_elsewhere, same_here,
  eqb_refl,
}

-- `place_of` tells the pair and the side that stand in an id's text.
module _ (D : Double) (pip_factor : CurrencyPair → ℤ) (clock : ℕ → ℤ) (start : OrderBook)
    (place_of : ℕ → CurrencyPair × Bool) where
  -- What a test of the place of an id says
  pub place_at :
      (p : Published D.F) (id : ℕ) (c : CurrencyPair) (side : Bool) (P : ℤ → Bool) (x : QuoteInfo)
      → place_of id ≡ (p.cp, is_bid p.entry.entry_type)
      → open_at D pip_factor clock start place_of c side P (id, x)
        ≡ ((same_pair p.cp c && same_side (is_bid p.entry.entry_type) side) && P x.key)
  place_at p id c side P x h = ap (λ y. (same_pair y.0 c && same_side y.1 side) && P x.key) h

  pub own_place :
      (p : Published D.F) (id : ℕ) (P : ℤ → Bool) (x : QuoteInfo) (k : ℤ)
      → place_of id ≡ (p.cp, is_bid p.entry.entry_type)
      → x.key ≡ k
      → open_at D pip_factor clock start place_of p.cp (is_bid p.entry.entry_type) P (id, x) ≡ P k
  own_place p id P x k h e =
      place_at p id p.cp (is_bid p.entry.entry_type) P x h
      ∙ ap (λ t. t && P x.key)
          (same_here D pip_factor clock start place_of p.cp (is_bid p.entry.entry_type))
      ∙ ap P e

  replaced_here :
      (p : Published D.F) (l : List (Published D.F)) (table table' : Table) (id : ℕ)
      (old new : QuoteInfo)
      → place_of id ≡ (p.cp, is_bid p.entry.entry_type)
      → lookup id table ≡ some old
      → old.key ≡ (quote_in D pip_factor clock start place_of p l).ref_key
      → new.key ≡ (quote_in D pip_factor clock start place_of p l).key
      → replaces (quote_in D pip_factor clock start place_of p l) ≡ true
      → ltb_ℤ (pos 0) (quote_in D pip_factor clock start place_of p l).ref_key ≡ true
      → ((P : ℤ → Bool) (c : CurrencyPair) (side : Bool)
          → count_keys P (vec_of (book_of D pip_factor clock start place_of l) c side)
            ≡ count_open (open_at D pip_factor clock start place_of c side P) table)
      → ((t : ℕ × QuoteInfo → Bool)
          → count_open t table' + one_if (t (id, old))
            ≡ count_open t table
              + one_if
                  (not (is_delete (quote_in D pip_factor clock start place_of p l)) && t (id, new)))
      → (P : ℤ → Bool)
      → count_keys P (
          vec_of
            (book_of D pip_factor clock start place_of (p ∷ l))
            p.cp
            (is_bid p.entry.entry_type))
        ≡ count_open
            (open_at D pip_factor clock start place_of p.cp (is_bid p.entry.entry_type) P)
            table'
  replaced_here p l table table' id old new place found old_key new_key r z mirror change P =
      let bid = is_bid p.entry.entry_type in
      let q = quote_in D pip_factor clock start place_of p l in
      let E : ℤ → Bool = λ j. eqb_ℤ j q.ref_key in
      let there : 1 ≤ count_keys E (vec_of (book_of D pip_factor clock start place_of l) p.cp bid) =
        subst (λ n. 1 ≤ n) (sym (mirror E p.cp bid))
          (lookup-counted (open_at D pip_factor clock start place_of p.cp bid E) id old table found
            (own_place p id E old q.ref_key place old_key
              ∙ eqb_refl D pip_factor clock start place_of q.ref_key)) in
      ground (
        arith,
        book_replaced D pip_factor clock start place_of p l P r z there,
        mirror P p.cp bid,
        change (open_at D pip_factor clock start place_of p.cp bid P),
        own_place p id P old q.ref_key place old_key,
        own_place p id P new q.key place new_key,
      )

  at_place :
      (p : Published D.F) (l : List (Published D.F)) (table : Table) (P : ℤ → Bool)
      (c : CurrencyPair) (side : Bool)
      → (same_pair p.cp c && same_side (is_bid p.entry.entry_type) side) ≡ true
      → count_keys P (
          vec_of
            (book_of D pip_factor clock start place_of (p ∷ l))
            p.cp
            (is_bid p.entry.entry_type))
        ≡ count_open
            (open_at D pip_factor clock start place_of p.cp (is_bid p.entry.entry_type) P)
            table
      → count_keys P (vec_of (book_of D pip_factor clock start place_of (p ∷ l)) c side)
        ≡ count_open (open_at D pip_factor clock start place_of c side P) table
  at_place p l table P c side h x =
      let bid = is_bid p.entry.entry_type in
      subst
        (λ (y : CurrencyPair × Bool).
          count_keys P (vec_of (book_of D pip_factor clock start place_of (p ∷ l)) y.0 y.1)
          ≡ count_open (open_at D pip_factor clock start place_of y.0 y.1 P) table)
        (ap₂ (λ a b. (a, b)) (same_pair→eq p.cp c (ground (arith, h)))
          (same_side→eq D pip_factor clock start place_of bid side (ground (arith, h))))
        x

  -- The two sides of the mirror when something is published for an id: the table gets the new
  -- entry in place of the old one, or loses that.
  pub mirror_replaced :
      (p : Published D.F) (l : List (Published D.F)) (table table' : Table) (id : ℕ)
      (old new : QuoteInfo)
      → place_of id ≡ (p.cp, is_bid p.entry.entry_type)
      → lookup id table ≡ some old
      → old.key ≡ (quote_in D pip_factor clock start place_of p l).ref_key
      → new.key ≡ (quote_in D pip_factor clock start place_of p l).key
      → replaces (quote_in D pip_factor clock start place_of p l) ≡ true
      → ltb_ℤ (pos 0) (quote_in D pip_factor clock start place_of p l).ref_key ≡ true
      → ((P : ℤ → Bool) (c : CurrencyPair) (side : Bool)
          → count_keys P (vec_of (book_of D pip_factor clock start place_of l) c side)
            ≡ count_open (open_at D pip_factor clock start place_of c side P) table)
      → ((t : ℕ × QuoteInfo → Bool)
          → count_open t table' + one_if (t (id, old))
            ≡ count_open t table
              + one_if
                  (not (is_delete (quote_in D pip_factor clock start place_of p l)) && t (id, new)))
      → (P : ℤ → Bool) (c : CurrencyPair) (side : Bool)
      → count_keys P (vec_of (book_of D pip_factor clock start place_of (p ∷ l)) c side)
        ≡ count_open (open_at D pip_factor clock start place_of c side P) table'
  mirror_replaced p l table table' id old new place found old_key new_key r z mirror change P c
        side =
      let bid = is_bid p.entry.entry_type in
      elim (Bool-cases (same_pair p.cp c && same_side bid side)) [
        | inl h ↦ at_place p l table' P c side h (
            replaced_here p l table table' id old new place found old_key new_key r z mirror change
              P)
        | inr h ↦ ground (
          arith,
          h,
          place_at p id c side P old place,
          place_at p id c side P new place,
          change (open_at D pip_factor clock start place_of c side P),
          mirror P c side,
          book_elsewhere D pip_factor clock start place_of p l P c side h,
        )
      ]

  -- The same for an id that was not open, when the entry is no DELETE
  pub mirror_added :
      (p : Published D.F) (l : List (Published D.F)) (table table' : Table) (id : ℕ)
      (new : QuoteInfo)
      → place_of id ≡ (p.cp, is_bid p.entry.entry_type)
      → new.key ≡ (quote_in D pip_factor clock start place_of p l).key
      → ltb_ℤ (pos 0) (quote_in D pip_factor clock start place_of p l).ref_key ≡ false
      → is_delete (quote_in D pip_factor clock start place_of p l) ≡ false
      → ((P : ℤ → Bool) (c : CurrencyPair) (side : Bool)
          → count_keys P (vec_of (book_of D pip_factor clock start place_of l) c side)
            ≡ count_open (open_at D pip_factor clock start place_of c side P) table)
      → ((t : ℕ × QuoteInfo → Bool)
          → count_open t table' ≡ count_open t table + one_if (t (id, new)))
      → (P : ℤ → Bool) (c : CurrencyPair) (side : Bool)
      → count_keys P (vec_of (book_of D pip_factor clock start place_of (p ∷ l)) c side)
        ≡ count_open (open_at D pip_factor clock start place_of c side P) table'
  mirror_added p l table table' id new place new_key z d mirror change P c side =
      let bid = is_bid p.entry.entry_type in
      elim (Bool-cases (same_pair p.cp c && same_side bid side)) [
        | inl h ↦ at_place p l table' P c side h (
            ground (
              arith,
              book_added D pip_factor clock start place_of p l P z d,
              mirror P p.cp bid,
              change (open_at D pip_factor clock start place_of p.cp bid P),
              own_place p id P new (quote_in D pip_factor clock start place_of p l).key place
                  new_key,
            ))
        | inr h ↦ ground (
          arith,
          h,
          place_at p id c side P new place,
          change (open_at D pip_factor clock start place_of c side P),
          mirror P c side,
          book_elsewhere D pip_factor clock start place_of p l P c side h,
        )
      ]
