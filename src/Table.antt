-- ===== src/Table.antt =====
-- `ActiveQuoteTable` of include/ActiveQuoteTable.h and src/ActiveQuoteTable.cpp: what is known of
-- the quotes that an exchange has open, by the exchange's id. An id is a text, here its number in
-- an enumeration in which the empty text has number 0.
use spot_grid_bot.Base.{
  ℕ, ◌≡◌, Bool, false, not, ◌&&◌, Option, none, some, List, [], ◌∷◌, arith, ◌==◌, if◌then◌else◌,
}
use spot_grid_bot.Base.Int.{ℤ, ltb_ℤ}
use spot_grid_bot.Base.Dict.{Dict, lookup, insert, erase, contains, lookup-insert, lookup-erase}
use spot_grid_bot.FixTypes.{QuoteType}
use spot_grid_bot.Instrument.{CurrencyPair}

-- `QuoteInfo`
pub record QuoteInfo : Type 0 where
  pub key : ℤ
  pub cp : CurrencyPair
  pub entry_type : QuoteType
  pub hash_value : ℕ
  pub ori_key : ℤ
  pub sequence_tag : ℕ

abbrev pub Table : Type 0
Table = Dict QuoteInfo

-- The entry to which an id leads: none for the empty id.
abbrev pub entry_at : Table → ℕ → Option QuoteInfo
entry_at table ref_id = if ref_id == 0 then none else lookup ref_id table

-- `FindQuoteInfo`
unfoldable pub find_quote_info : Table → ℕ → Option QuoteInfo
find_quote_info table ref_id = entry_at table ref_id

-- `emplace`, and `insert` of a node: an entry that is there stays.
abbrev pub emplace : ℕ → QuoteInfo → Table → Table
emplace id q table = if contains id table then table else insert id q table

-- `ReplaceQuoteInfoAt` for the iterator that `ref_id` gives: the table and the entry replaced
unfoldable pub replace_quote_info_at : Table → ℕ → ℕ → QuoteInfo → Table × Option QuoteInfo
replace_quote_info_at table ref_id new_id q = elim (entry_at table ref_id) [
  | none ↦ (emplace new_id q table, none)
  | some old ↦
      if not (new_id == ref_id)
      then (emplace new_id q (erase ref_id table), some old)
      else (insert ref_id q table, some old)
]

-- `ReplaceQuoteInfo(refId, newId, key, cp, entryType)`
unfoldable pub replace_quote_info :
    Table → ℕ → ℕ → ℤ → CurrencyPair → QuoteType → Table × Option QuoteInfo
replace_quote_info table ref_id new_id key cp entry_type =
    replace_quote_info_at table ref_id new_id (record {
      key = key;
      cp = cp;
      entry_type = entry_type;
      hash_value = 0;
      ori_key = key;
      sequence_tag = 0;
    })

-- `ReplaceQuoteInfo(forceKey, …)`: also whether the new key is skipped
unfoldable pub replace_hashed :
    Table → Bool → ℕ → ℕ → ℕ → ℕ → ℤ → CurrencyPair → QuoteType → (Table × Option QuoteInfo) × Bool
replace_hashed table force_key ref_id new_id hash tag key cp entry_type =
    elim (entry_at table ref_id) [
      | none ↦ (
        replace_quote_info_at table ref_id new_id (record {
          key = key;
          cp = cp;
          entry_type = entry_type;
          hash_value = hash;
          ori_key = key;
          sequence_tag = tag;
        }),
        false,
      )
      | some old ↦
          let skip = not force_key && (old.hash_value == hash) && (ref_id == new_id) in
          (
            replace_quote_info_at table ref_id new_id (record {
              key = key;
              cp = cp;
              entry_type = entry_type;
              hash_value = hash;
              ori_key = if skip then old.ori_key else key;
              sequence_tag = tag;
            }),
            skip,
          )
    ]

-- `RemoveQuoteInfo`
unfoldable pub remove_quote_info : Table → ℕ → Table × Option QuoteInfo
remove_quote_info table ref_id = elim (entry_at table ref_id) [
  | none ↦ (table, none)
  | some old ↦ (erase ref_id table, some old)
]

-- `RemoveOldQuoteInfos`: the entries that stay, and those that the action gets, in their order
unfoldable pub remove_old_quote_infos : Table → ℤ → Table × List (ℕ × QuoteInfo)
remove_old_quote_infos [] limit = ([], [])
remove_old_quote_infos ((id, q) ∷ table) limit =
    let (kept, gone) = remove_old_quote_infos table limit in
    if ltb_ℤ q.key limit then (kept, (id, q) ∷ gone) else ((id, q) ∷ kept, gone)

-- Replacing under the same id: the id then leads to the new entry, no other id is touched, and
-- the result is the entry that was there.
pub replace_quote_info_at_lem :
    (table : Table) (id j : ℕ) (q : QuoteInfo)
    → (id == 0) ≡ false
    → let (table', old) = replace_quote_info_at table id id q in
      (lookup j table' ≡ (if id == j then some q else lookup j table)) × (old ≡ lookup id table)
unfolding replace_quote_info_at
replace_quote_info_at_lem table id j q e =
    (ground (arith, lookup-insert j id q table), ground arith)

-- Removing an id: the id then leads nowhere, no other id is touched, and the result is the entry
-- that was there.
pub remove_quote_info_lem :
    (table : Table) (id j : ℕ)
    → (id == 0) ≡ false
    → let (table', old) = remove_quote_info table id in
      (lookup j table' ≡ (if id == j then none else lookup j table)) × (old ≡ lookup id table)
unfolding remove_quote_info
remove_quote_info_lem table id j e = (ground (arith, lookup-erase j id table), ground arith)
