-- ===== src/UserChannel/Status.antt =====
-- The two translations of a Coinbase status in src/coinbase/ConnectionORDWS.cpp: the one for the
-- order cache and the one for execution reports.
use spot_grid_bot.Base.{
  Bool, ℕ, ◌≡◌, refl, inl, inr, true, false, subst, sym, Bool-cases, ◌||◌, arith, if◌then◌else◌,
}
use Prim.Native.String.{String}
use text.Mathlib.TextEquality.{path_by_compare}
use spot_grid_bot.Orders.{OrderStatus, same_text}
use spot_grid_bot.UserChannel.{cached_status, translate_order_status}

-- The ORDSTATUS character of a status
abbrev pub status_char : OrderStatus → ℕ
status_char OrderStatus.new_order = b'0'
status_char OrderStatus.partly_filled_order = b'1'
status_char OrderStatus.filled_order = b'2'
status_char OrderStatus.canceled_order = b'4'
status_char OrderStatus.rejected_order = b'8'

pub same_text→eq : (s t : String) → same_text s t ≡ true → s ≡ t
same_text→eq s t e = path_by_compare s t (ground arith)

abbrev pub Agrees : String → Type 0
Agrees s =
    let (ord_status, exec_type) = translate_order_status s in
    (ord_status ≡ status_char (cached_status s)) × (exec_type ≡ ord_status)

new_name-Agrees : Agrees "NEW"
unfolding cached_status translate_order_status
new_name-Agrees = (refl, refl)

-- The two translations as functions of the tests that they make
fixed_translations_agree :
    (o p f d c r l y : Bool)
    → let report : ℕ × ℕ =
        if o || p || false
        then (b'0', b'0')
        else if f || d || f
        then (b'2', b'2')
        else if c || false
        then (b'4', b'4')
        else if r || l || r
        then (b'8', b'8')
        else if y || y
        then (b'1', b'1')
        else if false || false
        then (b'C', b'C')
        else (b'0', b'0') in
      (report.0
        ≡ status_char (
            if o || p
            then OrderStatus.new_order
            else if f || d
            then OrderStatus.filled_order
            else if c
            then OrderStatus.canceled_order
            else if r || l
            then OrderStatus.rejected_order
            else if y
            then OrderStatus.partly_filled_order
            else OrderStatus.new_order))
      × (report.1 ≡ report.0)
fixed_translations_agree true p f d c r l y = (refl, refl)
fixed_translations_agree false true f d c r l y = (refl, refl)
fixed_translations_agree false false true d c r l y = (refl, refl)
fixed_translations_agree false false false true c r l y = (refl, refl)
fixed_translations_agree false false false false true r l y = (refl, refl)
fixed_translations_agree false false false false false true l y = (refl, refl)
fixed_translations_agree false false false false false false true y = (refl, refl)
fixed_translations_agree false false false false false false false true = (refl, refl)
fixed_translations_agree false false false false false false false false = (refl, refl)

translations_agree :
    (o p n f d c x r l y e : Bool)
    → n ≡ false
    → x ≡ false
    → e ≡ false
    → let report : ℕ × ℕ =
        if o || p || n
        then (b'0', b'0')
        else if f || d || f
        then (b'2', b'2')
        else if c || x
        then (b'4', b'4')
        else if r || l || r
        then (b'8', b'8')
        else if y || y
        then (b'1', b'1')
        else if e || e
        then (b'C', b'C')
        else (b'0', b'0') in
      (report.0
        ≡ status_char (
            if o || p
            then OrderStatus.new_order
            else if f || d
            then OrderStatus.filled_order
            else if c
            then OrderStatus.canceled_order
            else if r || l
            then OrderStatus.rejected_order
            else if y
            then OrderStatus.partly_filled_order
            else OrderStatus.new_order))
      × (report.1 ≡ report.0)
translations_agree o p n f d c x r l y e g h i =
    rw (g, h, i) (fixed_translations_agree o p f d c r l y)

neither : (a b : Bool) → (a || b) ≡ false → (a ≡ false) × (b ≡ false)
neither a b e = (ground arith, ground arith)

-- For every text but "CANCELED" and "EXPIRED" the order cache and the execution report get the
-- same status, and the report's ORDSTATUS and EXECTYPE agree. For these two the report says
-- canceled and expired, where the cache has a new order.
pub cached_status-agrees :
    ((s : String)
      → (same_text s "CANCELED" || same_text s "EXPIRED") ≡ false
      → let (ord_status, exec_type) = translate_order_status s in
        (ord_status ≡ status_char (cached_status s)) × (exec_type ≡ ord_status))
    × (translate_order_status "CANCELED" ≡ (b'4', b'4'))
    × (translate_order_status "EXPIRED" ≡ (b'C', b'C'))
    × (cached_status "CANCELED" ≡ OrderStatus.new_order)
    × (cached_status "EXPIRED" ≡ OrderStatus.new_order)
unfolding cached_status translate_order_status
cached_status-agrees = (
  (λ s h. elim (Bool-cases (same_text s "NEW")) [
    | inl e ↦ subst Agrees (sym (same_text→eq s "NEW" e)) new_name-Agrees
    | inr e ↦
        let (c, x) = neither (same_text s "CANCELED") (same_text s "EXPIRED") h in
        translations_agree (same_text s "OPEN") (same_text s "PENDING") (same_text s "NEW")
          (same_text s "FILLED") (same_text s "DONE") (same_text s "CANCELLED")
          (same_text s "CANCELED") (same_text s "REJECTED") (same_text s "FAILED")
          (same_text s "PARTIALLY_FILLED") (same_text s "EXPIRED") e c x
  ]),
  refl,
  refl,
  refl,
  refl,
)
