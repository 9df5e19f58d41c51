-- ===== src/Quote/Marks.antt =====
-- `Quote::SetUsed` and `Quote::SetInvalid` of lib/orderbook/src/Quote.cpp, called again and again.
use spot_grid_bot.Base.{ℕ, ◌≡◌, ◌≢◌, ◌⊎◌, true, false, Option, some, arith, ==_refl}
use spot_grid_bot.Base.Int.{ℤ, pos, eqb_ℤ→eq}
use spot_grid_bot.Quote.{Quote, Store, is_used, is_valid, set_used, set_invalid}

-- The first call for a quote succeeds and every later one fails and changes nothing; no other
-- quote's mark changes.
pub set_used_once :
    (h : Store) (q : Quote)
    → let (h', first) = set_used h q in
      (is_used h' q ≡ true)
      × (set_used h' q ≡ (h', false))
      × ((first ≡ true) × (is_used h q ≡ false) ⊎ (first ≡ false) × (is_used h q ≡ true))
      × ((a : ℕ) → a ≢ q.address → h' a ≡ h a)
unfolding set_used is_used
set_used_once h q = (ground arith, ground arith, ground arith, λ a ne. ground arith)

-- A quote that is invalidated by a successor with times takes over exactly the successor's times,
-- and is no longer valid; whatever comes after leaves those times as they are.
pub superseded_once :
    (h : Store) (q s : Quote) (later : Option Quote) (t u t' u' : ℤ)
    → is_valid h q ≡ true
    → s.address ≢ q.address
    → s.sending_time ≢ pos 0
    → s.receipt_time ≢ pos 0
    → let (h', done) = set_invalid h q (some s) t u in
      (done ≡ true)
      × (is_valid h' q ≡ false)
      × ((h' q.address).sent ≡ s.sending_time)
      × ((h' q.address).received ≡ s.receipt_time)
      × (set_invalid h' q later t' u' ≡ (h', false))
unfolding set_invalid is_valid
superseded_once h q s later t u t' u' v ne st rt =
    ground
      (arith, eqb_ℤ→eq s.sending_time (pos 0), eqb_ℤ→eq s.receipt_time (pos 0), ==_refl q.address)
