-- ===== src/Market/Joined.antt =====
-- The order book stays the mirror of the table of active quotes: `PublishQuotes` of
-- src/ConnectionBaseMD.cpp, which publishes to `AddEntry` of lib/orderbook/src/OrderBook.cpp.
use spot_grid_bot.Base.{
  ℕ, ◌+◌, ◌≡◌, refl, ap, sym, subst, ◌∙◌, ◌⊎◌, inl, inr, Bool, true, not, ◌&&◌, none, some, List,
  ◌∷◌, arith, if◌then◌else◌, Bool-cases, Option-cases, ◌==◌, ==→eq,
}
use spot_grid_bot.Base.Int.{ℤ, pos, eqb_ℤ, ltb_ℤ, leb_ℤ, ◌+ℤ◌}
use spot_grid_bot.Base.Dict.{lookup}
use spot_grid_bot.Base.Double.{Double}
use spot_grid_bot.FixTypes.{is_bid}
use spot_grid_bot.Instrument.{CurrencyPair}
use spot_grid_bot.Quote.{Quote, qt_new, qt_delete, qt_update}
use spot_grid_bot.Table.{Table, QuoteInfo}
use spot_grid_bot.Book.{OrderBook, vec_of, is_delete, replaces}
use spot_grid_bot.Feed.{Feed, Entry, Published, new_int64_key, renew, publish, publish_entry}
use spot_grid_bot.Feed.Live.{IsOwn, complete_own}
use spot_grid_bot.Market.{quote_of}
use spot_grid_bot.Market.Counts.{count_keys, one_if}
use spot_grid_bot.Market.Open.{
  count_open, IsUnique, lookup-counted, info, count_open-renew_old, count_open-renew_new,
  count_open-absent,
}
use spot_grid_bot.Market.Mirror.{open_at, book_of, quote_in, IsMirror, IsTidy, IsParsed}
use spot_grid_bot.Market.Step.{mirror_replaced, mirror_added}

key_positive :
    (last now : ℤ) → leb_ℤ (pos 0) last ≡ true → ltb_ℤ (pos 0) (new_int64_key last now) ≡ true
unfolding new_int64_key ◌+ℤ◌
key_positive last now h = ground (arith, h)

-- The keys of a tidy table are positive.
key_of_open :
    (table : Table) (id : ℕ) (q : QuoteInfo)
    → count_open (λ e. not (ltb_ℤ (pos 0) e.1.key)) table ≡ 0
    → lookup id table ≡ some q
    → ltb_ℤ (pos 0) q.key ≡ true
key_of_open table id q none_bad h = elim (Bool-cases (ltb_ℤ (pos 0) q.key)) [
  | inl t ↦ t
  | inr t ↦
      ground (arith, none_bad, t, lookup-counted (λ e. not (ltb_ℤ (pos 0) e.1.key)) id q table h)
]

module _ (D : Double) (pip_factor : CurrencyPair → ℤ) (clock : ℕ → ℤ) (start : OrderBook)
    (place_of : ℕ → CurrencyPair × Bool) where
  -- What is published for an entry that replaces another
  abbrev replacing : Entry D.F → ℤ → QuoteInfo → Published D.F
  replacing e key old = record {
    key = key;
    ref_key = old.key;
    cp = e.instrument;
    entry = if eqb_ℤ e.update_type qt_new then record e { update_type = qt_update } else e;
  }

  abbrev adding : Entry D.F → ℤ → Published D.F
  adding e key = record {
    key = key;
    ref_key = pos 0;
    cp = e.instrument;
    entry = if eqb_ℤ e.update_type qt_update then record e { update_type = qt_new } else e;
  }

  abbrev in_book : Published D.F → List (Published D.F) → Quote
  in_book p l = quote_in D pip_factor clock start place_of p l

  abbrev Mirrors : List (Published D.F) → Table → Type 0
  Mirrors l table =
      (P : ℤ → Bool) (c : CurrencyPair) (side : Bool)
      → count_keys P (vec_of (book_of D pip_factor clock start place_of l) c side)
        ≡ count_open (open_at D pip_factor clock start place_of c side P) table

  replacing_kind :
      (e : Entry D.F) (key : ℤ) (old : QuoteInfo) (l : List (Published D.F))
      → (e.update_type ≡ qt_new) ⊎ (e.update_type ≡ qt_delete)
      → let p = replacing e key old in
        (replaces (in_book p l) ≡ true)
        × (is_delete (in_book p l) ≡ eqb_ℤ e.update_type qt_delete)
        × (is_bid p.entry.entry_type ≡ is_bid e.entry_type)
  unfolding quote_of
  replacing_kind e key old l (inl h) = (ground (arith, h), ground (arith, h), ground (arith, h))
  replacing_kind e key old l (inr h) = (ground (arith, h), ground (arith, h), ground (arith, h))

  replaced :
      (f : Feed D.F) (e : Entry D.F) (key : ℤ) (old : QuoteInfo)
      → IsParsed D pip_factor clock start place_of e
      → Mirrors f.published f.table
      → IsTidy D pip_factor clock start place_of f
      → lookup e.id f.table ≡ some old
      → Mirrors
          (replacing e key old ∷ f.published)
          (renew f.table e key e.instrument e.entry_type).0
  unfolding IsParsed IsTidy IsOwn quote_of
  replaced f e key old ((z, r, v), place, kind) mirror (unique, positive, last) found =
      let cp = e.instrument in
      let t = e.entry_type in
      let p = replacing e key old in
      let (does, deleted, same_bid) = replacing_kind e key old f.published kind in
      let new = info key cp t in
      let table' = (renew f.table e key cp t).0 in
      let change : (T : ℕ × QuoteInfo → Bool)
          → count_open T table' + one_if (T (e.id, old))
            ≡ count_open T f.table + one_if (not (eqb_ℤ e.update_type qt_delete) && T (e.id, new)) =
        λ T. (count_open-renew_old T f.table e key cp t old z r unique found).1 in
      mirror_replaced D pip_factor clock start place_of p f.published f.table table' e.id old new
        (place ∙ ap (λ b. (cp, b)) (sym same_bid)) found refl refl does
        (key_of_open f.table e.id old positive found) mirror
        (λ T. ground (arith, change T, deleted))

  added :
      (f : Feed D.F) (e : Entry D.F) (key : ℤ)
      → IsParsed D pip_factor clock start place_of e
      → Mirrors f.published f.table
      → e.update_type ≡ qt_new
      → lookup e.id f.table ≡ none
      → Mirrors (adding e key ∷ f.published) (renew f.table e key e.instrument e.entry_type).0
  unfolding IsParsed IsOwn quote_of
  added f e key ((z, r, v), place, kind) mirror is_new absent =
      let cp = e.instrument in
      let t = e.entry_type in
      let p = adding e key in
      let new = info key cp t in
      let table' = (renew f.table e key cp t).0 in
      let same_bid : is_bid p.entry.entry_type ≡ is_bid t = ground (arith, is_new) in
      let change : (T : ℕ × QuoteInfo → Bool)
          → count_open T table'
            ≡ count_open T f.table + one_if (not (eqb_ℤ e.update_type qt_delete) && T (e.id, new)) =
        λ T. (count_open-renew_new T f.table e key cp t z r absent).1 in
      mirror_added D pip_factor clock start place_of p f.published f.table table' e.id new
        (place ∙ ap (λ b. (cp, b)) (sym same_bid)) refl (ground arith) (ground (arith, is_new))
        mirror (λ T. ground (arith, change T, is_new))

  renewed-IsTidy :
      (f : Feed D.F) (e : Entry D.F) (key : ℤ) (l : List (Published D.F))
      → IsParsed D pip_factor clock start place_of e
      → ltb_ℤ (pos 0) key ≡ true
      → IsTidy D pip_factor clock start place_of f
      → IsTidy D pip_factor clock start place_of (record {
        table = (renew f.table e key e.instrument e.entry_type).0;
        last_key = key;
        published = l;
      })
  unfolding IsParsed IsTidy IsOwn IsUnique
  renewed-IsTidy f e key l ((z, r, v), place, kind) k (unique, positive, last) =
      let cp = e.instrument in
      let t = e.entry_type in
      let bad : ℕ × QuoteInfo → Bool = λ x. not (ltb_ℤ (pos 0) x.1.key) in
      elim (Option-cases (lookup e.id f.table)) [
        | inl absent ↦ (
          (λ j. elim (Bool-cases (e.id == j)) [
            | inl q ↦ ground (
              arith,
              q,
              unique j,
              ap (λ i. count_open (λ x. x.0 == i) f.table) (==→eq e.id j q),
              count_open-absent e.id f.table absent,
              (count_open-renew_new (λ x. x.0 == j) f.table e key cp t z r absent).1,
            )
            | inr q ↦ ground (
              arith,
              q,
              unique j,
              (count_open-renew_new (λ x. x.0 == j) f.table e key cp t z r absent).1,
            )
          ]),
          ground (arith, positive, k, (count_open-renew_new bad f.table e key cp t z r absent).1),
          ground (arith, k),
        )
        | inr (old, found) ↦ (
          (λ j. ground (
            arith,
            unique j,
            (count_open-renew_old (λ x. x.0 == j) f.table e key cp t old z r unique found).1,
          )),
          ground (
            arith,
            positive,
            k,
            (count_open-renew_old bad f.table e key cp t old z r unique found).1,
          ),
          ground (arith, k),
        )
      ]

  unfoldable pub IsJoined : Feed D.F → Type 0
  IsJoined f =
      IsMirror D pip_factor clock start place_of f × IsTidy D pip_factor clock start place_of f

  replaced-IsJoined :
      (f : Feed D.F) (e : Entry D.F) (key : ℤ) (old : QuoteInfo)
      → IsParsed D pip_factor clock start place_of e
      → ltb_ℤ (pos 0) key ≡ true
      → IsJoined f
      → lookup e.id f.table ≡ some old
      → IsJoined
          (publish f e key e.instrument
            ((renew f.table e key e.instrument e.entry_type).0, some old)).0
  unfolding IsJoined IsMirror publish
  replaced-IsJoined f e key old parsed k (mirror, tidy) found = (
    replaced f e key old parsed mirror tidy found,
    renewed-IsTidy f e key (replacing e key old ∷ f.published) parsed k tidy,
  )

  added-IsJoined :
      (f : Feed D.F) (e : Entry D.F) (key : ℤ)
      → IsParsed D pip_factor clock start place_of e
      → ltb_ℤ (pos 0) key ≡ true
      → IsJoined f
      → e.update_type ≡ qt_new
      → lookup e.id f.table ≡ none
      → IsJoined (record {
        table = (renew f.table e key e.instrument e.entry_type).0;
        last_key = key;
        published = adding e key ∷ f.published;
      })
  unfolding IsJoined IsMirror
  added-IsJoined f e key parsed k (mirror, tidy) is_new absent = (
    added f e key parsed mirror is_new absent,
    renewed-IsTidy f e key (adding e key ∷ f.published) parsed k tidy,
  )

  -- A DELETE of an id that is not open changes neither side.
  ignored-IsJoined :
      (f : Feed D.F) (e : Entry D.F) (key : ℤ)
      → IsParsed D pip_factor clock start place_of e
      → ltb_ℤ (pos 0) key ≡ true
      → IsJoined f
      → e.update_type ≡ qt_delete
      → lookup e.id f.table ≡ none
      → IsJoined
          (record f { table = (renew f.table e key e.instrument e.entry_type).0; last_key = key })
  unfolding IsJoined IsMirror IsParsed IsOwn
  ignored-IsJoined f e key parsed k (mirror, tidy) is_delete absent =
      let ((z, r, v), _, _) = parsed in
      let same : (T : ℕ × QuoteInfo → Bool)
          → count_open T (renew f.table e key e.instrument e.entry_type).0 ≡ count_open T f.table =
        λ T. ground (
          arith,
          is_delete,
          (count_open-renew_new T f.table e key e.instrument e.entry_type z r absent).1,
        ) in
      (
        (λ P c side.
            mirror P c side ∙ sym (same (open_at D pip_factor clock start place_of c side P))),
        renewed-IsTidy f e key f.published parsed k tidy,
      )

  publish-IsJoined :
      (f : Feed D.F) (e : Entry D.F) (key : ℤ)
      → IsParsed D pip_factor clock start place_of e
      → ltb_ℤ (pos 0) key ≡ true
      → IsJoined f
      → IsJoined (publish f e key e.instrument (renew f.table e key e.instrument e.entry_type)).0
  unfolding publish IsParsed IsOwn IsTidy IsJoined
  publish-IsJoined f e key parsed k joined =
      let cp = e.instrument in
      let t = e.entry_type in
      let ((z, r, v), _, kind) = parsed in
      let (_, (unique, _, _)) = joined in
      let table = (renew f.table e key cp t).0 in
      elim (Option-cases (lookup e.id f.table)) [
        | inl absent ↦
            let gone = (count_open-renew_new (λ _. true) f.table e key cp t z r absent).0 in
            subst (λ o. IsJoined (publish f e key cp (table, o)).0) (sym gone)
              (elim kind [
                | inl is_new ↦
                    ground (arith, is_new, added-IsJoined f e key parsed k joined is_new absent)
                | inr is_delete ↦
                    ground
                      (arith, is_delete, ignored-IsJoined f e key parsed k joined is_delete absent)
              ])
        | inr (old, found) ↦
            let there =
              (count_open-renew_old (λ _. true) f.table e key cp t old z r unique found).0 in
            subst (λ o. IsJoined (publish f e key cp (table, o)).0) (sym there)
              (replaced-IsJoined f e key old parsed k joined found)
      ]

  -- While `PublishQuotes` runs over entries that `ParseQuote` made, the order book and the table
  -- of active quotes stay joined: for each pair and side, and for every test of keys, the book
  -- has as many quotes as the table has open entries whose key passes the test; the ids of the
  -- table are different, its keys positive.
  pub publish_entry-IsJoined :
      (f : Feed D.F) (now : ℤ) (e : Entry D.F)
      → IsParsed D pip_factor clock start place_of e
      → IsJoined f
      → IsJoined (publish_entry f now e).0
  unfolding publish_entry IsParsed IsOwn IsJoined IsTidy
  publish_entry-IsJoined f now e parsed joined =
      let ((z, r, v), _, _) = parsed in
      let (_, (_, _, last)) = joined in
      rw (publish_entry, complete_own f.table e v)
        (publish-IsJoined f e (new_int64_key f.last_key now) parsed
          (key_positive f.last_key now last) joined)
