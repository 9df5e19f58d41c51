-- ===== src/Market/Open.antt =====
-- How many entries of the table of active quotes pass a test: what one entry of a message changes of
-- it, in the operations of src/ActiveQuoteTable.cpp that `PublishQuotes` calls.
use spot_grid_bot.Base.{
  ℕ, ◌+◌, ◌≤◌, ◌≡◌, refl, inl, inr, Bool, true, false, not, ◌&&◌, none, some, [], ◌∷◌, arith, count,
  Bool-cases, ◌==◌, ==→eq,
}
use spot_grid_bot.Base.Int.{ℤ, eqb_ℤ}
use spot_grid_bot.Base.Dict.{lookup, insert, erase}
use spot_grid_bot.FixTypes.{QuoteType}
use spot_grid_bot.Instrument.{CurrencyPair}
use spot_grid_bot.Quote.{qt_delete}
use spot_grid_bot.Table.{
  Table, QuoteInfo, replace_quote_info, replace_quote_info_at, remove_quote_info,
}
use spot_grid_bot.Feed.{Entry, renew}
use spot_grid_bot.Market.Counts.{one_if}

-- How many entries pass a test
abbrev pub count_open : (ℕ × QuoteInfo → Bool) → Table → ℕ
count_open p table = count p table

-- No id stands twice in the table.
unfoldable pub IsUnique : Table → Type 0
IsUnique table = (j : ℕ) → count_open (λ e. e.0 == j) table ≤ 1

count_open-insert_new :
    (p : ℕ × QuoteInfo → Bool) (id : ℕ) (q : QuoteInfo) (table : Table)
    → lookup id table ≡ none
    → count_open p (insert id q table) ≡ count_open p table + one_if (p (id, q))
unfolding lookup insert
count_open-insert_new p id q [] h = ground arith
count_open-insert_new p id q ((j, r) ∷ table) h =
    ground (arith, h, count_open-insert_new p id q table)

count_open-insert_old :
    (p : ℕ × QuoteInfo → Bool) (id : ℕ) (q old : QuoteInfo) (table : Table)
    → lookup id table ≡ some old
    → count_open p (insert id q table) + one_if (p (id, old))
      ≡ count_open p table + one_if (p (id, q))
unfolding lookup insert
count_open-insert_old p id q old [] h = ground arith
count_open-insert_old p id q old ((j, r) ∷ table) h = elim (Bool-cases (j == id)) [
  | inl e ↦ ground (arith, e, h, ==→eq j id e)
  | inr e ↦ ground (arith, e, h, count_open-insert_old p id q old table)
]

count_open-erase_none :
    (p : ℕ × QuoteInfo → Bool) (id : ℕ) (table : Table)
    → count_open (λ e. e.0 == id) table ≡ 0
    → count_open p (erase id table) ≡ count_open p table
unfolding erase
count_open-erase_none p id [] h = refl
count_open-erase_none p id ((j, r) ∷ table) h = ground (arith, h, count_open-erase_none p id table)

count_open-erase :
    (p : ℕ × QuoteInfo → Bool) (id : ℕ) (old : QuoteInfo) (table : Table)
    → count_open (λ e. e.0 == id) table ≤ 1
    → lookup id table ≡ some old
    → count_open p (erase id table) + one_if (p (id, old)) ≡ count_open p table
unfolding lookup erase
count_open-erase p id old [] u h = ground arith
count_open-erase p id old ((j, r) ∷ table) u h = elim (Bool-cases (j == id)) [
  | inl e ↦ ground (arith, e, h, u, ==→eq j id e, count_open-erase_none p id table)
  | inr e ↦ ground (arith, e, h, u, count_open-erase p id old table)
]

-- An entry of the table is counted by every test that it passes.
pub lookup-counted :
    (p : ℕ × QuoteInfo → Bool) (id : ℕ) (q : QuoteInfo) (table : Table)
    → lookup id table ≡ some q
    → p (id, q) ≡ true
    → 1 ≤ count_open p table
unfolding lookup
lookup-counted p id q [] h t = ground arith
lookup-counted p id q ((j, r) ∷ table) h t = elim (Bool-cases (j == id)) [
  | inl e ↦ ground (arith, e, h, t, ==→eq j id e)
  | inr e ↦ ground (arith, e, h, t, lookup-counted p id q table)
]

-- The entry that takes the place of another under an id
abbrev pub info : ℤ → CurrencyPair → QuoteType → QuoteInfo
info key cp t = record {
  key = key;
  cp = cp;
  entry_type = t;
  hash_value = 0;
  ori_key = key;
  sequence_tag = 0;
}

module _ {F : Type 0} where
  -- What an entry of its own id changes of a count, when its id is open
  pub count_open-renew_old :
      (p : ℕ × QuoteInfo → Bool) (table : Table) (e : Entry F) (key : ℤ) (cp : CurrencyPair)
      (t : QuoteType) (old : QuoteInfo)
      → (e.id == 0) ≡ false
      → e.ref_id ≡ e.id
      → IsUnique table
      → lookup e.id table ≡ some old
      → let renewed = renew table e key cp t in
        (renewed.1 ≡ some old)
        × (count_open p renewed.0 + one_if (p (e.id, old))
            ≡ count_open p table
              + one_if (not (eqb_ℤ e.update_type qt_delete) && p (e.id, info key cp t)))
  unfolding renew replace_quote_info replace_quote_info_at remove_quote_info IsUnique
  count_open-renew_old p table e key cp t old z r u h = (
    ground (arith, z, r, h),
    ground (
      arith,
      z,
      r,
      h,
      count_open-insert_old p e.id (info key cp t) old table h,
      count_open-erase p e.id old table (u e.id) h,
    ),
  )

  -- And when it is not
  pub count_open-renew_new :
      (p : ℕ × QuoteInfo → Bool) (table : Table) (e : Entry F) (key : ℤ) (cp : CurrencyPair)
      (t : QuoteType)
      → (e.id == 0) ≡ false
      → e.ref_id ≡ e.id
      → lookup e.id table ≡ none
      → let renewed = renew table e key cp t in
        (renewed.1 ≡ none)
        × (count_open p renewed.0
            ≡ count_open p table
              + one_if (not (eqb_ℤ e.update_type qt_delete) && p (e.id, info key cp t)))
  unfolding renew replace_quote_info replace_quote_info_at remove_quote_info
  count_open-renew_new p table e key cp t z r h = (
    ground (arith, z, r, h),
    ground (arith, z, r, h, count_open-insert_new p e.id (info key cp t) table h),
  )

pub count_open-absent :
    (id : ℕ) (table : Table) → lookup id table ≡ none → count_open (λ e. e.0 == id) table ≡ 0
unfolding lookup
count_open-absent id [] h = refl
count_open-absent id ((j, r) ∷ table) h = ground (arith, h, count_open-absent id table)
