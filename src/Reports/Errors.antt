-- ===== src/Reports/Errors.antt =====
-- What the exchanges' answers become when an order has failed, and what the reports of OKX leave
-- out.
use spot_grid_bot.Base.{
  ◌≡◌, ◌≢◌, refl, Bool, true, false, Option, none, some, List, [], ◌∷◌, ◌++◌, map, arith, inl, inr,
  Bool-cases, if◌then◌else◌, ◌==◌,
}
use spot_grid_bot.Base.Int.{ℤ, pos, eqb_ℤ}
use spot_grid_bot.Base.Double.{Double}
use spot_grid_bot.Instrument.{CurrencyPair}
use spot_grid_bot.Orders.{zero_f}
use spot_grid_bot.Reports.{
  Answer, Report, order_failed, order_failed_code, data_missing, data_empty, empty_report,
  error_report, fill_reports, translate_order,
}
use spot_grid_bot.Reports.Okx.{OkxAnswer, OkxOrder, okx_translate_order, okx_report, text_report}

module _ (D : Double) (pip_factor : CurrencyPair → ℤ) where
  fill_reports-broken :
      (a : Answer D) (e : D.F) (before : List (D.F × D.F)) (after : List (Option (D.F × D.F)))
      → fill_reports D pip_factor a e (map some before ++ none ∷ after) ≡ none
  unfolding fill_reports
  fill_reports-broken a e [] after = refl
  fill_reports-broken a e (f ∷ before) after = rw (fill_reports-broken a (D.add e f.1) before after)

-- Of an answer with a fill that does not convert no report is given, not of the fills before it
-- either: the exception leaves TranslateOrder.
pub translate_order-broken :
    (D : Double) (pip_factor : CurrencyPair → ℤ) (a : Answer D) (before : List (D.F × D.F))
    (after : List (Option (D.F × D.F)))
    → a.code ≡ 0
    → a.fills ≡ some (map some before ++ none ∷ after)
    → translate_order D pip_factor a ≡ none
unfolding translate_order
translate_order-broken D pip_factor a [] after h k =
    rw (h, k) (fill_reports-broken D pip_factor a (zero_f D) [] after)
translate_order-broken D pip_factor a (f ∷ before) after h k =
    rw (h, k) (fill_reports-broken D pip_factor a (zero_f D) (f ∷ before) after)

failed {ℓ} : {A : Type ℓ} (t : Bool) (x : A) {y : A} → t ≡ false → (if t then x else y) ≡ y
failed t x e = rw e

okx_ok :
    (D : Double) (pip_factor : CurrencyPair → ℤ) (b : OkxAnswer D)
    → eqb_ℤ b.code (pos 0) ≡ true
    → (orders : Option (List (OkxOrder D))) → b.orders ≡ orders
    → (o : Report D) × (okx_translate_order D pip_factor b ≡ o ∷ [])
      × (o.leaves_qty ≡ (empty_report D pip_factor).leaves_qty)
unfolding okx_translate_order
okx_ok D pip_factor b e none k = (text_report D pip_factor data_missing, simp (e, k), refl)
okx_ok D pip_factor b e (some []) k = (text_report D pip_factor data_empty, simp (e, k), refl)
okx_ok D pip_factor b e (some (o ∷ rest)) k = (okx_report D pip_factor o, simp (e, k), refl)

-- The report of a failed order is a rejection at Coinbase, and has the internal status
-- of an order that was not sent at OKX; both carry the exchange's code and message, and no id of the
-- order.
pub failed_orders_differ :
    (D : Double) (pip_factor : CurrencyPair → ℤ) (a : Answer D) (b : OkxAnswer D)
    → a.code ≢ 0
    → eqb_ℤ b.code (pos 0) ≡ false
    → (r : Report D) × (o : Report D) × (translate_order D pip_factor a ≡ some (r ∷ []))
      × (okx_translate_order D pip_factor b ≡ o ∷ [])
      × (r.ord_status ≡ b'8')
      × (r.exec_type ≡ b'8')
      × (o.ord_status ≡ 0)
      × (o.exec_type ≡ 0)
      × (r.cl_ord_id ≡ 0)
      × (o.cl_ord_id ≡ 0)
      × (r.text ≡ order_failed a.code a.msg)
      × (o.text ≡ order_failed_code b.code b.msg)
unfolding translate_order okx_translate_order
failed_orders_differ D pip_factor a b h k = (
  error_report D pip_factor a,
  text_report D pip_factor (order_failed_code b.code b.msg),
  failed (a.code == 0) _ (ground arith),
  failed (eqb_ℤ b.code (pos 0)) _ k,
  refl,
  refl,
  refl,
  refl,
  refl,
  refl,
  refl,
  refl,
)

-- Whatever OKX answers, there is one report, which says that as much is left of the order as the
-- empty report does, though it has the order's size and what was filled of it.
pub okx_translate_order-leaves :
    (D : Double) (pip_factor : CurrencyPair → ℤ) (b : OkxAnswer D)
    → (o : Report D) × (okx_translate_order D pip_factor b ≡ o ∷ [])
      × (o.leaves_qty ≡ (empty_report D pip_factor).leaves_qty)
unfolding okx_translate_order
okx_translate_order-leaves D pip_factor b = elim (Bool-cases (eqb_ℤ b.code (pos 0))) [
  | inl e ↦ okx_ok D pip_factor b e b.orders refl
  | inr e ↦ (text_report D pip_factor (order_failed_code b.code b.msg), failed _ _ e, refl)
]
