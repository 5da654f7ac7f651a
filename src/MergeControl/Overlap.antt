-- ===== src/MergeControl/Overlap.antt =====
-- The control row where merges and registrations overlap: nothing in
-- app/application/use_cases/merge_composite_validado_pdfs.py or merge_control_workbook_notify.py keeps
-- another run from reading or writing the workbook between the check, the read and the write of one.
use automitizacion_hbi_capit.Base.{
  ℕ, String, ◌≡◌, refl, ap, ◌∙◌, sym, ◌⊎◌, inl, inr, Bool, true, false, ◌&&◌, member, Bool-cases,
}
use automitizacion_hbi_capit.Base.Texts.{strip, lower}
use automitizacion_hbi_capit.Json.{Dict}
use automitizacion_hbi_capit.Json.Ops.{lookup, update, lookup_last}
use automitizacion_hbi_capit.Effects.{ok}
use automitizacion_hbi_capit.Review.{cell_text, str_of}
use automitizacion_hbi_capit.MergeControl.{
  is_active_cell, estado_of, is_active, active_estados, should_block_overwrite, Snapshot, parse_row,
  consolidando, consolidado_success, merge_parcial, error_merge, registered, new_row,
}
use automitizacion_hbi_capit.MergeControl.States.{
  known_estados, estado-after, active-after, active-started,
}

-- The rows that the workbook may come to hold. What a run checks and what it writes upon are any rows
-- of before, so that every order of the runs' reads and writes is among these.
pub data Reached : Dict → Type 0 where
  fresh : Reached new_row
  registers :
      (checked base : Dict) (title hist pdf now : String)
      → should_block_overwrite checked ≡ false
      → Reached checked
      → Reached base
      → Reached (update base (registered title hist pdf now))
  starts :
      (checked base : Dict) (snapshot : Snapshot) (now : String)
      → parse_row checked ≡ ok snapshot
      → Reached checked
      → Reached base
      → Reached (update base (consolidando now))
  consolidates :
      (base : Dict) (outputs_count : ℕ) (now : String)
      → Reached base
      → Reached (update base (consolidado_success outputs_count now))
  leaves_parcial :
      (base : Dict) (outputs_count skipped_count : ℕ) (user_message next_action now : String)
      → Reached base
      → Reached
          (update base (merge_parcial outputs_count skipped_count user_message next_action now))
  fails :
      (base : Dict) (user_message next_action now : String)
      → Reached base
      → Reached (update base (error_merge user_message next_action now))

-- The two cells agree, unless the row is CONSOLIDANDO without being active.
pub record IsSettled (row : Dict) : Type 0 where
  pub known : member (estado_of row) known_estados ≡ true
  pub agrees :
      (is_active row ≡ member (estado_of row) active_estados)
      ⊎ ((estado_of row ≡ "CONSOLIDANDO") × (is_active row ≡ false))

both-IsSettled :
    (row : Dict) (e : String) (b : Bool)
    → estado_of row ≡ e
    → is_active row ≡ b
    → member e known_estados ≡ true
    → b ≡ member e active_estados
    → IsSettled row
both-IsSettled row e b he hb k a = record {
  known = ap (λ t. member t known_estados) he ∙ k;
  agrees = inl (hb ∙ a ∙ ap (λ t. member t active_estados) (sym he));
}

consolidando-IsSettled : (row : Dict) → estado_of row ≡ "CONSOLIDANDO" → IsSettled row
consolidando-IsSettled row he = record {
  known = ap (λ t. member t known_estados) he;
  agrees = elim (Bool-cases (is_active row)) [
    | inl y ↦ inl (y ∙ ap (λ t. member t active_estados) (sym he))
    | inr n ↦ inr (he, n)
  ];
}

-- However merges and registrations overlap, the control row holds one of the known states, and it is
-- active exactly in those of a merge in progress, except that it may be CONSOLIDANDO and not active.
pub Reached-IsSettled : {row : Dict} → Reached row → IsSettled row
unfolding lookup_last cell_text strip estado_of is_active is_active_cell lookup lower str_of
Reached-IsSettled fresh = record { known = refl; agrees = inl refl }
Reached-IsSettled (registers checked base title hist pdf now h r q) =
    both-IsSettled _ "PENDIENTE_ASIENTOS" true
      (estado-after base (registered title hist pdf now) "PENDIENTE_ASIENTOS" refl)
      (active-after base (registered title hist pdf now) true refl) refl refl
Reached-IsSettled (starts checked base snapshot now h r q) =
    consolidando-IsSettled _ (estado-after base (consolidando now) "CONSOLIDANDO" refl)
Reached-IsSettled (consolidates base n now r) =
    both-IsSettled _ "CONSOLIDADO" false
      (estado-after base (consolidado_success n now) "CONSOLIDADO" refl)
      (active-after base (consolidado_success n now) false refl) refl refl
Reached-IsSettled (leaves_parcial base n k u a now r) =
    both-IsSettled _ "MERGE_PARCIAL" true
      (estado-after base (merge_parcial n k u a now) "MERGE_PARCIAL" refl)
      (active-after base (merge_parcial n k u a now) true refl) refl refl
Reached-IsSettled (fails base u a now r) =
    both-IsSettled _ "ERROR_MERGE" true (estado-after base (error_merge u a now) "ERROR_MERGE" refl)
      (active-after base (error_merge u a now) true refl) refl refl

-- Where two merges both find a row that a merge may take, and one of them starts and ends as CONSOLIDADO
-- before the other writes its start, the row is then CONSOLIDANDO, and a registration is let in over it.
pub overlap-unblocked :
    (row : Dict) (snapshot : Snapshot) (outputs_count : ℕ) (t1 t2 t3 : String)
    → Reached row
    → parse_row row ≡ ok snapshot
    → let ended = update (update row (consolidando t1)) (consolidado_success outputs_count t2) in
      let late = update ended (consolidando t3) in
      Reached late × (estado_of late ≡ "CONSOLIDANDO") × (should_block_overwrite late ≡ false)
unfolding lookup_last cell_text strip should_block_overwrite
overlap-unblocked row snapshot n t1 t2 t3 r h =
    let first = update row (consolidando t1) in
    let ended = update first (consolidado_success n t2) in
    let late = update ended (consolidando t3) in
    let idle = active-started ended t3 ∙ active-after first (consolidado_success n t2) false refl in
    (
      Reached.starts row ended snapshot t3 h r
          (Reached.consolidates first n t2 (Reached.starts row row snapshot t1 h r r)),
      estado-after ended (consolidando t3) "CONSOLIDANDO" refl,
      ap (λ b. b && member (estado_of late) active_estados) idle,
    )
