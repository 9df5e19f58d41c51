-- ===== src/Reports/Fills.antt =====
-- The reports of an answer with fills: one for each fill, with the quantities so far.
use spot_grid_bot.Base.{
  ℕ, suc, ◌≡◌, ◌∙◌, refl, ap, Bool, true, false, some, List, [], ◌∷◌, ◌++◌, map, if◌then◌else◌,
  length,
}
use spot_grid_bot.Base.Int.{ℤ}
use spot_grid_bot.Base.Double.{Double}
use spot_grid_bot.Instrument.{CurrencyPair}
use spot_grid_bot.Orders.{zero_f}
use spot_grid_bot.Reports.{
  Answer, Report, fill_report, fill_reports, translate_order, is_last, rest_order_status,
}

module _ (D : Double) where
  -- What is filled after some fills
  abbrev pub executed_after : D.F → List (D.F × D.F) → D.F
  executed_after e [] = e
  executed_after e (f ∷ l) = executed_after (D.add e f.1) l

module _ (D : Double) (pip_factor : CurrencyPair → ℤ) (a : Answer D) where
  reports_of : D.F → List (D.F × D.F) → List (Report D)
  reports_of e [] = []
  reports_of e (f ∷ l) =
      fill_report D pip_factor a (D.add e f.1) f.0 f.1 (is_last D pip_factor (map some l))
      ∷ reports_of (D.add e f.1) l

  fill_reports-reports_of :
      (e : D.F) (l : List (D.F × D.F))
      → fill_reports D pip_factor a e (map some l) ≡ some (reports_of e l)
  unfolding fill_reports reports_of
  fill_reports-reports_of e [] = refl
  fill_reports-reports_of e (f ∷ l) = rw (fill_reports-reports_of (D.add e f.1) l)

  length-reports_of : (e : D.F) (l : List (D.F × D.F)) → length (reports_of e l) ≡ length l
  unfolding reports_of
  length-reports_of e [] = refl
  length-reports_of e (f ∷ l) = ap suc (length-reports_of (D.add e f.1) l)

  -- The report of a fill that stands between others
  reports_of-split :
      (e : D.F) (before : List (D.F × D.F)) (f : D.F × D.F) (after : List (D.F × D.F))
      → (front : List (Report D)) × (back : List (Report D)) × (reports_of e (before ++ f ∷ after)
          ≡ front
            ++ fill_report D pip_factor a
                (D.add (executed_after D e before) f.1)
                f.0
                f.1
                (is_last D pip_factor (map some after))
              ∷ back)
        × (length front ≡ length before)
        × (length back ≡ length after)
  unfolding reports_of
  reports_of-split e [] f after =
      ([], reports_of (D.add e f.1) after, refl, refl, length-reports_of (D.add e f.1) after)
  reports_of-split e (g ∷ before) f after =
      let (front, back, e1, e2, e3) = reports_of-split (D.add e g.1) before f after in
      let here =
        fill_report D pip_factor a (D.add e g.1) g.0 g.1
          (is_last D pip_factor (map some (before ++ f ∷ after))) in
      (here ∷ front, back, ap (◌∷◌ here) e1, ap suc e2, e3)

  fill_reports-nonempty :
      (before : List (D.F × D.F)) (f : D.F × D.F) (after : List (D.F × D.F))
      → a.code ≡ 0
      → a.fills ≡ some (map some (before ++ f ∷ after))
      → translate_order D pip_factor a ≡ some (reports_of (zero_f D) (before ++ f ∷ after))
  unfolding translate_order reports_of
  fill_reports-nonempty [] f after h k = rw (h, k) (fill_reports-reports_of (zero_f D) (f ∷ after))
  fill_reports-nonempty (g ∷ before) f after h k =
      rw (h, k) (fill_reports-reports_of (zero_f D) (g ∷ before ++ f ∷ after))

last_status :
    (last : Bool) (p : ℕ × ℕ)
    → ◌≡◌ {A = ℕ × ℕ}
        (if last then p.0 else b'1', if last then p.1 else b'1')
        (if last then p else (b'1', b'1'))
last_status true p = refl
last_status false p = refl

-- An answer with no error and with fills that all convert is translated to as many reports as it
-- has fills, in their order. Each has the order's ids, the price and the quantity of its fill, the
-- sum of the quantities up to it as the executed one, and the rest of the order's as what is left;
-- the last one has the status of the order, the others are partial fills.
pub translate_order-fills :
    (D : Double) (pip_factor : CurrencyPair → ℤ) (a : Answer D) (before : List (D.F × D.F))
    (px qty : D.F) (after : List (D.F × D.F))
    → a.code ≡ 0
    → a.fills ≡ some (map some (before ++ (px, qty) ∷ after))
    → (front : List (Report D)) × (r : Report D) × (back : List (Report D)) × (translate_order D
          pip_factor a
        ≡ some (front ++ r ∷ back))
      × (length front ≡ length before)
      × (length back ≡ length after)
      × (r.order_id ≡ a.order_id)
      × (r.cl_ord_id ≡ a.client_order_id)
      × (r.last_px ≡ px)
      × (r.last_qty ≡ qty)
      × (r.cum_qty ≡ D.add (executed_after D (zero_f D) before) qty)
      × (r.leaves_qty ≡ D.sub a.orig_qty r.cum_qty)
      × (◌≡◌ {A = ℕ × ℕ}
          (r.ord_status, r.exec_type)
          (if is_last D pip_factor (map some after)
            then rest_order_status a.status
            else (b'1', b'1')))
unfolding fill_report
translate_order-fills D pip_factor a before px qty after h k =
    let (front, back, e1, e2, e3) =
      reports_of-split D pip_factor a (zero_f D) before (px, qty) after in
    (
      front,
      fill_report D pip_factor a (D.add (executed_after D (zero_f D) before) qty) px qty
          (is_last D pip_factor (map some after)),
      back,
      fill_reports-nonempty D pip_factor a before (px, qty) after h k ∙ ap some e1,
      e2,
      e3,
      refl,
      refl,
      refl,
      refl,
      refl,
      refl,
      last_status (is_last D pip_factor (map some after)) _,
    )
