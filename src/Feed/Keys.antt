-- ===== src/Feed/Keys.antt =====
-- The keys that `PublishQuotes` of src/ConnectionBaseMD.cpp gives, by `NewInt64Key`.
use spot_grid_bot.Base.{
  ℕ, inl, inr, Option, none, some, List, [], ◌∷◌, arith, Bool-cases, Option-cases,
}
use spot_grid_bot.Base.Int.{ℤ, pos, ◌≤ℤ◌, ◌<ℤ◌, ◌+ℤ◌, ◌-ℤ◌, eqb_ℤ}
use spot_grid_bot.Instrument.{CurrencyPair}
use spot_grid_bot.Quote.{qt_delete}
use spot_grid_bot.Table.{Table, QuoteInfo}
use spot_grid_bot.Feed.{
  Feed, Entry, Published, Next, new_int64_key, complete, renew, publish, publish_entry,
  publish_entries, is_last,
}

-- `NewInt64Key` gives a key above the last one, wherever the clock stands.
pub new_int64_key_ascends : (last now : ℤ) → last <ℤ new_int64_key last now
unfolding new_int64_key ◌+ℤ◌
new_int64_key_ascends last now = ground arith

module _ {F : Type 0} where
  -- The keys of what was published, latest first, start at most at `top` and fall strictly.
  abbrev pub Ascends : ℤ → List (Published F) → Type 0
  Ascends top [] = Unit
  Ascends top (p ∷ l) = (p.key ≤ℤ top) × Ascends (p.key -ℤ pos 1) l

  Ascends-weaken : (a b : ℤ) (l : List (Published F)) → a ≤ℤ b → Ascends a l → Ascends b l
  Ascends-weaken a b [] h s = tt
  Ascends-weaken a b (p ∷ l) h (s, t) = (ground arith, t)

  publish-Ascends :
      (f : Feed F) (e : Entry F) (key : ℤ) (cp : CurrencyPair) (r : Table × Option QuoteInfo)
      → f.last_key <ℤ key
      → Ascends f.last_key f.published
      → Ascends (publish f e key cp r).0.last_key (publish f e key cp r).0.published
  unfolding publish ◌-ℤ◌
  publish-Ascends f e key cp (table, some old) h s =
      (ground arith, Ascends-weaken f.last_key (key -ℤ pos 1) f.published (ground arith) s)
  publish-Ascends f e key cp (table, none) h s = elim (Bool-cases (eqb_ℤ e.update_type qt_delete)) [
    | inl d ↦ rw d (Ascends-weaken f.last_key key f.published (ground arith) s)
    | inr d ↦
        rw d (ground arith, Ascends-weaken f.last_key (key -ℤ pos 1) f.published (ground arith) s)
  ]

  publish_entry-Ascends :
      (f : Feed F) (now : ℤ) (e : Entry F)
      → Ascends f.last_key f.published
      → Ascends (publish_entry f now e).0.last_key (publish_entry f now e).0.published
  unfolding publish_entry
  publish_entry-Ascends f now e s = elim (Option-cases (complete f.table e)) [
    | inl c ↦ rw (publish_entry, c) s
    | inr ((cp, t), c) ↦
        rw (publish_entry, c)
          (publish-Ascends f (record e { entry_type = t }) (new_int64_key f.last_key now) cp
            (renew f.table (record e { entry_type = t }) (new_int64_key f.last_key now) cp t)
            (new_int64_key_ascends f.last_key now) s)
  ]

  next-Ascends :
      (tag : ℕ) (f : Feed F) (next : Next) (rest : List (ℤ × Entry F))
      → Ascends f.last_key f.published
      → Ascends (publish_entries tag f rest).last_key (publish_entries tag f rest).published
      → let f' : Feed F = elim next [ Next.go_on ↦ publish_entries tag f rest | Next.leave ↦ f ] in
        Ascends f'.last_key f'.published
  next-Ascends tag f Next.go_on rest s t = t
  next-Ascends tag f Next.leave rest s t = s

  -- The keys of what is published ascend strictly in a message, and from message to message, wherever
  -- the clock stands at each entry.
  pub publish_entries-Ascends :
      (tag : ℕ) (f : Feed F) (entries : List (ℤ × Entry F))
      → Ascends f.last_key f.published
      → let f' = publish_entries tag f entries in Ascends f'.last_key f'.published
  unfolding publish_entries
  publish_entries-Ascends tag f [] s = s
  publish_entries-Ascends tag f ((now, e) ∷ rest) s =
      let e' : Entry F = record e { end_of_message = is_last rest; sequence_tag = tag } in
      let first = publish_entry-Ascends f now e' s in
      next-Ascends tag (publish_entry f now e').0 (publish_entry f now e').1 rest first
        (publish_entries-Ascends tag (publish_entry f now e').0 rest first)
