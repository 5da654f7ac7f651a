-- ===== src/MergeControl/Ready.antt =====
-- Which operation the control row of the merge lets in next
-- (app/application/use_cases/merge_control_workbook_notify.py and merge_control_workbook_merge.py).
use automitizacion_hbi_capit.Base.{
  ◌≡◌, refl, sym, ap, ◌∙◌, Bool, true, false, ◌&&◌, ◌||◌, ◌==◌, member,
}
use automitizacion_hbi_capit.Json.{Dict}
use automitizacion_hbi_capit.MergeControl.{
  estado_of, is_active, active_estados, merge_allowed_estados, should_block_overwrite,
}
use automitizacion_hbi_capit.MergeControl.States.{
  Machine, Step, Reachable, IsSound, Reachable-IsSound, parse-active,
}

-- Whether a merge may take the row, by its state.
abbrev pub is_pending : Dict → Bool
is_pending row = is_active row && member (estado_of row) merge_allowed_estados

or_swap : (a p r : Bool) → (a || (false || (p || (r || false)))) ≡ (a || (r || (p || false)))
or_swap true p r = refl
or_swap false true true = refl
or_swap false true false = refl
or_swap false false true = refl
or_swap false false false = refl

-- At rest, a control row that is not CONSOLIDANDO blocks notify exactly where it lets a merge start, so
-- that one of the two may always go on.
pub rest-is_pending :
    {m : Machine}
    → Reachable m
    → (estado_of m.row == "CONSOLIDANDO") ≡ false
    → should_block_overwrite m.row ≡ is_pending m.row
unfolding should_block_overwrite
rest-is_pending {m} r h =
    ap (λ b. is_active m.row && b)
      (rw h (
        or_swap (estado_of m.row == "PENDIENTE_ASIENTOS") (estado_of m.row == "MERGE_PARCIAL")
          (estado_of m.row == "ERROR_MERGE")))

consolidando-blocks :
    (m : Machine)
    → IsSound m
    → estado_of m.row ≡ "CONSOLIDANDO"
    → should_block_overwrite m.row ≡ true
unfolding should_block_overwrite
consolidando-blocks m i e =
    ap (λ b. b && member (estado_of m.row) active_estados)
      (i.active ∙ ap (λ t. member t active_estados) e)
    ∙ ap (λ t. member t active_estados) e

no-step :
    (m m' : Machine)
    → IsSound m
    → m.running ≡ false
    → estado_of m.row ≡ "CONSOLIDANDO"
    → Step m m'
    → ⊥
no-step m m' i q e (Step.notified _ title hist pdf now h) =
    absurd (cc (sym h ∙ consolidando-blocks m i e))
no-step m m' i q e (Step.started row snapshot now h) =
    absurd (cc (sym ((parse-active row snapshot h).1) ∙ ap (λ t. member t merge_allowed_estados) e))
no-step m m' i q e (Step.consolidated row n now) = absurd (cc q)
no-step m m' i q e (Step.left_parcial row n k u a now) = absurd (cc q)
no-step m m' i q e (Step.failed row u a now) = absurd (cc q)
no-step m m' i q e (Step.interrupted row) = absurd (cc q)

-- Where runs do not overlap, a control row that is left CONSOLIDANDO with no merge running, as by a merge that was killed or that
-- could not write its error, is left by no step: notify is blocked and every merge is refused.
pub interrupted-stuck :
    {m m' : Machine}
    → Reachable m
    → m.running ≡ false
    → estado_of m.row ≡ "CONSOLIDANDO"
    → ¬ (Step m m')
interrupted-stuck {m} {m'} r q e = no-step m m' (Reachable-IsSound r) q e
