-- ===== src/Feed/Live.antt =====
-- The table of active quotes against what `PublishQuotes` of src/ConnectionBaseMD.cpp has
-- published, replayed.
use spot_grid_bot.Base.{
  ℕ, ◌≡◌, refl, inl, inr, Bool, true, false, not, ◌&&◌, Option, none, some, List, [], ◌∷◌, ◌==◌,
  if◌then◌else◌, arith, Bool-cases, ==→eq, is_some, ap,
}
use spot_grid_bot.Base.Int.{ℤ, pos, eqb_ℤ}
use spot_grid_bot.Base.Dict.{lookup}
use spot_grid_bot.FixTypes.{QuoteType, type_valid}
use spot_grid_bot.Instrument.{CurrencyPair, pair_valid}
use spot_grid_bot.Quote.{qt_delete}
use spot_grid_bot.Table.{
  Table, QuoteInfo, replace_quote_info, replace_quote_info_at_lem, remove_quote_info_lem,
}
use spot_grid_bot.Feed.{
  Feed, Entry, Published, Next, new_int64_key, complete, renew, publish, publish_entry,
  publish_entries, is_last,
}

abbrev pub key_of : Option QuoteInfo → Option ℤ
key_of none = none
key_of (some info) = some info.key

abbrev pub or_zero : Option ℤ → ℤ
or_zero none = pos 0
or_zero (some k) = k

module _ {F : Type 0} where
  -- An entry with its own type and pair that refers to its own id, as `ParseQuote` builds them
  unfoldable pub IsOwn : Entry F → Type 0
  IsOwn e =
      ((e.id == 0) ≡ false)
      × (e.ref_id ≡ e.id)
      × ((type_valid e.entry_type && pair_valid e.instrument) ≡ true)

  -- The key under which an id was last published, none if that was a DELETE or never
  abbrev pub live : ℕ → List (Published F) → Option ℤ
  live j [] = none
  live j (p ∷ l) =
      if p.entry.id == j
      then if eqb_ℤ p.entry.update_type qt_delete then none else some p.key
      else live j l

  unfoldable pub IsLive : Feed F → Type 0
  IsLive f = (j : ℕ) → key_of (lookup j f.table) ≡ live j f.published

  -- What `renew` does for such an entry
  renew_lem :
      (table : Table) (e : Entry F) (key : ℤ) (cp : CurrencyPair) (t : QuoteType) (j : ℕ)
      → (e.id == 0) ≡ false
      → e.ref_id ≡ e.id
      → let (table', old) = renew table e key cp t in
        (key_of (lookup j table') ≡ (
          if e.id == j
          then if eqb_ℤ e.update_type qt_delete then none else some key
          else key_of (lookup j table)))
        × (old ≡ lookup e.id table)
  unfolding renew replace_quote_info
  renew_lem table e key cp t j z r =
      let q : QuoteInfo = record {
        key = key;
        cp = cp;
        entry_type = t;
        hash_value = 0;
        ori_key = key;
        sequence_tag = 0;
      } in
      let (a, b) = replace_quote_info_at_lem table e.id j q z in
      let (c, d) = remove_quote_info_lem table e.id j z in
      elim (Bool-cases (eqb_ℤ e.update_type qt_delete)) [
        | inl x ↦ rw (r, x) (ground arith, d)
        | inr x ↦ rw (r, x) (ground arith, b)
      ]

  -- An own entry is complete with its own pair and type.
  pub complete_own :
      (table : Table) (e : Entry F)
      → (type_valid e.entry_type && pair_valid e.instrument) ≡ true
      → complete table e ≡ some (e.instrument, e.entry_type)
  unfolding complete
  complete_own table e v = ground arith

  publish-IsLive :
      (f : Feed F) (e : Entry F) (key : ℤ) (cp : CurrencyPair) (table : Table)
      (old : Option QuoteInfo)
      → IsLive f
      → ((j : ℕ)
          → key_of (lookup j table) ≡ (
              if e.id == j
              then if eqb_ℤ e.update_type qt_delete then none else some key
              else key_of (lookup j f.table)))
      → old ≡ lookup e.id f.table
      → IsLive (publish f e key cp (table, old)).0
  unfolding publish IsLive
  publish-IsLive f e key cp table (some old) h r o j = ground (arith, h j, r j)
  publish-IsLive f e key cp table none h r o j = elim (Bool-cases (e.id == j)) [
    | inl t ↦ ground (arith, h j, r j, ap (λ i. key_of (lookup i f.table)) (==→eq e.id j t))
    | inr t ↦ ground (arith, h j, r j)
  ]

  -- For an entry with a valid type and pair that refers to its own id, the table stays the replay of
  -- what is published: it has for each id the key under which the id was last published, and none
  -- after a DELETE.
  pub publish_entry-IsLive :
      (f : Feed F) (now : ℤ) (e : Entry F) → IsOwn e → IsLive f → IsLive (publish_entry f now e).0
  unfolding publish_entry IsOwn
  publish_entry-IsLive f now e (z, r, v) h =
      let key = new_int64_key f.last_key now in
      let renewed = renew f.table e key e.instrument e.entry_type in
      rw (publish_entry, complete_own f.table e v)
        (publish-IsLive f e key e.instrument renewed.0 renewed.1 h
          (λ j. (renew_lem f.table e key e.instrument e.entry_type j z r).0)
          (renew_lem f.table e key e.instrument e.entry_type 0 z r).1)

  -- What one round publishes: nothing if it leaves the function, and else one entry, which refers to
  -- the key under which its id was last published
  abbrev pub Publishes : Feed F → Entry F → Feed F → Next → Type 0
  Publishes f e f' Next.leave =
      (f'.published ≡ f.published)
      × (live e.id f.published ≡ none)
      × (eqb_ℤ e.update_type qt_delete ≡ true)
  Publishes f e f' Next.go_on =
      (p : Published F) × (f'.published ≡ p ∷ f.published)
      × (p.ref_key ≡ or_zero (live e.id f.published))
      × (p.entry.id ≡ e.id)
      × (p.cp ≡ e.instrument)
      × ((eqb_ℤ e.update_type qt_delete && not (is_some (live e.id f.published))) ≡ false)

  publish-Publishes :
      (f : Feed F) (e : Entry F) (key : ℤ) (cp : CurrencyPair) (table : Table)
      (old : Option QuoteInfo)
      → IsLive f
      → cp ≡ e.instrument
      → old ≡ lookup e.id f.table
      → let (f', next) = publish f e key cp (table, old) in Publishes f e f' next
  unfolding publish IsLive
  publish-Publishes f e key cp table (some old) h c o =
      (_, refl, ground (arith, h e.id, o), ground arith, c, ground (arith, h e.id, o))
  publish-Publishes f e key cp table none h c o =
      elim (Bool-cases (eqb_ℤ e.update_type qt_delete)) [
        | inl t ↦ rw t (refl, ground (arith, h e.id, o), t)
        | inr t ↦ rw t (_, refl, ground (arith, h e.id, o), ground arith, c, ground (arith, t))
      ]

  -- For an entry that refers to its own id: unless it is a DELETE of an id that is not open, one
  -- entry is published, with the id and the pair, whose reference is the key under which the id
  -- was last published, or 0 if it is not open. For such a DELETE nothing is published and the
  -- function is left.
  pub publish_entry-Publishes :
      (f : Feed F) (now : ℤ) (e : Entry F)
      → IsOwn e
      → IsLive f
      → let (f', next) = publish_entry f now e in Publishes f e f' next
  unfolding publish_entry IsOwn
  publish_entry-Publishes f now e (z, r, v) h =
      let key = new_int64_key f.last_key now in
      let renewed = renew f.table e key e.instrument e.entry_type in
      rw (publish_entry, complete_own f.table e v)
        (publish-Publishes f e key e.instrument renewed.0 renewed.1 h refl
          (renew_lem f.table e key e.instrument e.entry_type 0 z r).1)

  left-published :
      (tag : ℕ) (f f' : Feed F) (e : Entry F) (next : Next) (rest : List (ℤ × Entry F))
      → eqb_ℤ e.update_type qt_delete ≡ true
      → live e.id f.published ≡ none
      → Publishes f e f' next
      → (elim next as (λ _. Feed F) [
        | Next.go_on ↦ publish_entries tag f' rest
        | Next.leave ↦ f'
      ]).published
        ≡ f.published
  left-published tag f f' e Next.leave rest d l (a, _, _) = a
  left-published tag f f' e Next.go_on rest d l (_, _, _, _, _, n) = ground (arith, n)

  IsOwn-tagged :
      (e : Entry F) (b : Bool) (tag : ℕ)
      → IsOwn e
      → IsOwn (record e { end_of_message = b; sequence_tag = tag })
  unfolding IsOwn
  IsOwn-tagged e b tag o = o

  -- A DELETE of an id that is not open ends the message: whatever entries come after it are
  -- dropped, and only the last key changes.
  pub unknown_delete_drops :
      (tag : ℕ) (f : Feed F) (now : ℤ) (e : Entry F) (rest : List (ℤ × Entry F))
      → IsOwn e
      → IsLive f
      → eqb_ℤ e.update_type qt_delete ≡ true
      → live e.id f.published ≡ none
      → (publish_entries tag f ((now, e) ∷ rest)).published ≡ f.published
  unfolding publish_entries
  unknown_delete_drops tag f now e rest o h d l =
      let e' : Entry F = record e { end_of_message = is_last rest; sequence_tag = tag } in
      let (f', next) = publish_entry f now e' in
      left-published tag f f' e' next rest d l
        (publish_entry-Publishes f now e' (IsOwn-tagged e _ _ o) h)
