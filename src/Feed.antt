-- ===== src/Feed.antt =====
-- `ConnectionBaseMD::PublishQuotes` of src/ConnectionBaseMD.cpp with `NewInt64Key` of
-- lib/utils/src/Utils.cpp: a message's entries get their keys, refer to the entries that they
-- replace and are published to the order book.
pub mod Keys
pub mod Live
pub mod Tests
use spot_grid_bot.Base.{
  ℕ, Bool, true, false, not, ◌&&◌, ◌||◌, Option, none, some, List, [], ◌∷◌, ◌==◌, if◌then◌else◌,
}
use spot_grid_bot.Base.Int.{ℤ, pos, leb_ℤ, eqb_ℤ, ◌+ℤ◌}
use spot_grid_bot.FixTypes.{QuoteType, type_valid}
use spot_grid_bot.Instrument.{CurrencyPair, pair_valid}
use spot_grid_bot.Quote.{qt_new, qt_update, qt_delete}
use spot_grid_bot.Table.{Table, QuoteInfo, find_quote_info, replace_quote_info, remove_quote_info}

-- `NewInt64Key`, with the last key and what the clock shows
unfoldable pub new_int64_key : ℤ → ℤ → ℤ
new_int64_key last_key now = if leb_ℤ now last_key then last_key +ℤ pos 1 else now

-- `BookUpdate::Entry`, of a double type `F`
pub record Entry (F : Type 0) : Type 0 where
  pub id : ℕ
  pub ref_id : ℕ
  pub quote_id : ℕ
  pub entry_type : QuoteType
  pub instrument : CurrencyPair
  pub update_type : ℤ
  pub price : F
  pub volume : F
  pub position_no : ℤ
  pub end_of_message : Bool
  pub sequence_tag : ℕ

-- The arguments of one `PublishQuote`
pub record Published (F : Type 0) : Type 0 where
  pub key : ℤ
  pub ref_key : ℤ
  pub cp : CurrencyPair
  pub entry : Entry F

-- `m_activeQuoteTable`, the last key, and what was published, latest first
pub record Feed (F : Type 0) : Type 0 where
  pub table : Table
  pub last_key : ℤ
  pub published : List (Published F)

-- What the loop does next: the next entry, or leave the function.
pub data Next : Type 0 where
  go_on : Next
  leave : Next

module _ {F : Type 0} where
  -- The lookup of an entry without valid type or pair: none skips the entry.
  unfoldable pub complete : Table → Entry F → Option (CurrencyPair × QuoteType)
  complete table e =
      if not (type_valid e.entry_type) || not (pair_valid e.instrument)
      then elim (find_quote_info table e.ref_id) [
        | none ↦ none
        | some info ↦ some (
          (if pair_valid e.instrument then e.instrument else info.cp),
          (if type_valid e.entry_type then e.entry_type else info.entry_type),
        )
      ]
      else some (e.instrument, e.entry_type)

  -- The table after the entry, and the entry of it that was replaced
  unfoldable pub renew : Table → Entry F → ℤ → CurrencyPair → QuoteType → Table × Option QuoteInfo
  renew table e key cp entry_type =
      if eqb_ℤ e.update_type qt_delete
      then remove_quote_info table e.ref_id
      else replace_quote_info table e.ref_id e.id key cp entry_type

  -- What is published once it is known which entry was replaced
  unfoldable pub publish :
      Feed F → Entry F → ℤ → CurrencyPair → Table × Option QuoteInfo → Feed F × Next
  publish f e key cp (table, some old) = (
    record {
      table = table;
      last_key = key;
      published =
          record {
            key = key;
            ref_key = old.key;
            cp = cp;
            entry = if eqb_ℤ e.update_type qt_new then record e { update_type = qt_update } else e;
          }
          ∷ f.published;
    },
    Next.go_on,
  )
  publish f e key cp (table, none) =
      if eqb_ℤ e.update_type qt_delete
      then (record f { table = table; last_key = key }, Next.leave)
      else (
        record {
          table = table;
          last_key = key;
          published =
              record {
                key = key;
                ref_key = pos 0;
                cp = cp;
                entry =
                    if eqb_ℤ e.update_type qt_update then record e { update_type = qt_new } else e;
              }
              ∷ f.published;
        },
        Next.go_on,
      )

  -- One round of the loop, with what the clock shows
  unfoldable pub publish_entry : Feed F → ℤ → Entry F → Feed F × Next
  publish_entry f now e = elim (complete f.table e) [
    | none ↦ (f, Next.go_on)
    | some (cp, entry_type) ↦
        let key = new_int64_key f.last_key now in
        publish f (record e { entry_type = entry_type }) key cp
          (renew f.table (record e { entry_type = entry_type }) key cp entry_type)
  ]

  abbrev pub is_last : List (ℤ × Entry F) → Bool
  is_last [] = true
  is_last (e ∷ l) = false

  -- The loop, over the entries with what the clock shows at each. The tag is the hash of the
  -- empty text.
  unfoldable pub publish_entries : ℕ → Feed F → List (ℤ × Entry F) → Feed F
  publish_entries tag f [] = f
  publish_entries tag f ((now, e) ∷ rest) =
      let (f', next) =
        publish_entry f now (record e { end_of_message = is_last rest; sequence_tag = tag }) in
      let after = publish_entries tag f' rest in elim next [ Next.go_on ↦ after | Next.leave ↦ f' ]

  -- `PublishQuotes`; none is a null message.
  unfoldable pub publish_quotes : ℕ → Feed F → Option (List (ℤ × Entry F)) → Feed F
  publish_quotes tag f none = f
  publish_quotes tag f (some entries) = publish_entries tag f entries
