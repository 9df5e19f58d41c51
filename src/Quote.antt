-- ===== src/Quote.antt =====
-- `class Quote` of lib/orderbook/include/OrderBook/Quote.h and lib/orderbook/src/Quote.cpp.
-- A quote is shared by pointer. What never changes of it is a record, which carries the address;
-- what does change, the used flag and the successor's times, stands in a store by address. A text
-- is its number in some enumeration of texts, in which the empty text has number 0.
pub mod Fields
pub mod Marks
pub mod Tests
pub mod Group
use spot_grid_bot.Base.{
  ℕ, Bool, true, false, not, ◌&&◌, ◌||◌, Option, none, some, ◌==◌, if◌then◌else◌,
}
use spot_grid_bot.Base.Int.{ℤ, pos, negsuc, eqb_ℤ}

pub record Quote : Type 0 where
  pub address : ℕ
  pub adpt_receive_time : ℤ
  pub receipt_time : ℤ
  pub sort_time : ℤ
  pub quote_id : ℕ
  pub seqnum : ℤ
  pub price : ℤ
  pub volume : ℤ
  pub min_qty : ℤ
  pub key : ℤ
  pub ref_key : ℤ
  pub sending_time : ℤ
  pub quote_type : ℤ
  pub position_no : ℤ
  pub settl_date : ℕ
  pub originator : ℕ

-- QT_SNAPSHOT, QT_NEW, QT_UPDATE and QT_DELETE of FixDefs.h
abbrev pub qt_snapshot : ℤ
qt_snapshot = negsuc 0

abbrev pub qt_new : ℤ
qt_new = pos 0

abbrev pub qt_update : ℤ
qt_update = pos 1

abbrev pub qt_delete : ℤ
qt_delete = pos 2

-- `m_used` and `m_successor`
pub record Mark : Type 0 where
  pub used : Bool
  pub sent : ℤ
  pub received : ℤ

abbrev pub fresh_mark : Mark
fresh_mark = record { used = false; sent = pos 0; received = pos 0 }

abbrev pub Store : Type 0
Store = ℕ → Mark

abbrev pub write : Store → ℕ → Mark → Store
write h a m b = if a == b then m else h b

unfoldable pub is_used : Store → Quote → Bool
is_used h q = (h q.address).used

-- `Quote::Valid`: no successor was sent.
unfoldable pub is_valid : Store → Quote → Bool
is_valid h q = eqb_ℤ (h q.address).sent (pos 0)

-- `Quote::SetUsed`
unfoldable pub set_used : Store → Quote → Store × Bool
unfolding is_used
set_used h q =
    if not (is_used h q)
    then (write h q.address (record (h q.address) { used = true }), true)
    else (h, false)

-- The time that `SetInvalid` notes: the successor's, or the clock's without one.
abbrev pub successor_time : Option Quote → (Quote → ℤ) → ℤ → ℤ
successor_time none field now = now
successor_time (some s) field now = field s

abbrev pub is_self : Option Quote → Quote → Bool
is_self none q = false
is_self (some s) q = s.address == q.address

-- `Quote::SetInvalid`. `now_sent` and `now_received` are what the clock shows at its two calls.
unfoldable pub set_invalid : Store → Quote → Option Quote → ℤ → ℤ → Store × Bool
unfolding is_valid
set_invalid h q successor now_sent now_received =
    let sent = successor_time successor (λ s. s.sending_time) now_sent in
    let received = successor_time successor (λ s. s.receipt_time) now_received in
    if is_valid h q
      && not (is_self successor q)
      && not (eqb_ℤ sent (pos 0))
      && not (eqb_ℤ received (pos 0))
    then (write h q.address (record (h q.address) { sent = sent; received = received }), true)
    else (h, false)
