-- ===== src/MergeControl/Run/Returned.antt =====
-- That a merge that returns takes the control row by the steps of its states
-- (app/application/use_cases/merge_composite_validado_pdfs.py and merge_control_workbook_merge.py).
use automitizacion_hbi_capit.Base.{
  ℕ, String, ◌≡◌, refl, inl, inr, Bool, true, false, ◌&&◌, Option, if◌then◌else◌, Bool-cases, ltb,
  eqb,
}
use automitizacion_hbi_capit.Base.Texts.{strip}
use automitizacion_hbi_capit.Json.{Dict}
use automitizacion_hbi_capit.Json.Ops.{update}
use automitizacion_hbi_capit.Effects.{Exn, Result, ok, raised, Act, pure, raise, ◌>>=◌, bind_rule}
use automitizacion_hbi_capit.Review.{cell_text}
use automitizacion_hbi_capit.Json.Ops.{lookup_last}
use automitizacion_hbi_capit.Graph.{Graph, IsDrive}
use automitizacion_hbi_capit.MergeControl.{
  ControlBook, Snapshot, parse_row, estado_of, consolidando, consolidado_success, merge_parcial,
}
use automitizacion_hbi_capit.MergeControl.States.{Machine, at_rest, Step, estado-after}
use automitizacion_hbi_capit.MergeControl.Run.{
  Merged, upload_at, start_merge, finish_merge, run_merge, closed, begun, is_validation,
  merge_composite, parcial_message, parcial_action, no_rows,
}
use automitizacion_hbi_capit.MergeControl.Run.Refines.{Holds, upload-Holds, Holds-keep, start-Holds}

-- What the code relies on: the drive, openpyxl reading back what it saves, and steps that leave the
-- control workbook alone.
pub record IsWorld {S B : Type 0} (content : S → String → Option B) (graph : Graph S B)
    (load : B → ControlBook) (save : ControlBook → B) (control_rel : String)
    (consolidate : Snapshot → Act S (ℕ × ℕ)) (manifest : String → Act S String) : Type 0 where
  pub drive : IsDrive content graph
  pub load-save : (wb : ControlBook) → load (save wb) ≡ wb
  pub consolidate_keeps :
      (n : Snapshot) (s : S) → content (consolidate n s).1 control_rel ≡ content s control_rel
  pub manifest_keeps :
      (t : String) (s : S) → content (manifest t s).1 control_rel ≡ content s control_rel

-- The two writes that end a merge, by the counts that it has, with the status that it returns.
pub data Ends (row : Dict) : ℕ × ℕ → String → Dict → Type 0 where
  in_full :
      (oc sc : ℕ) (t : String)
      → (ltb 0 oc && eqb sc 0) ≡ true
      → Ends row (oc, sc) "CONSOLIDADO" (update row (consolidado_success oc t))
  in_part :
      (oc sc : ℕ) (t : String)
      → (ltb 0 oc && eqb sc 0) ≡ false
      → Ends row
          (oc, sc)
          "MERGE_PARCIAL"
          (update row (merge_parcial oc sc parcial_message parcial_action t))

abbrev pub running : Dict → Machine
running row = record { row = row; running = true }

module _ {S B : Type 0} (content : S → String → Option B) (graph : Graph S B)
    (load : B → ControlBook) (save : ControlBook → B) (now : S → String) (control_rel : String)
    (consolidate : Snapshot → Act S (ℕ × ℕ)) (manifest : String → Act S String)
    (world : IsWorld content graph load save control_rel consolidate manifest) where
  abbrev pub RowAt : S → Dict → Type 0
  RowAt s row = Holds content graph load save now control_rel s row

  -- The end of a merge with these counts, from the row that it set to CONSOLIDANDO.
  abbrev EndsAt : Dict → ℕ × ℕ → String → S → Type 0
  EndsAt row counts status s' =
      (row' : Dict) × Step (running row) (at_rest row')
      × RowAt s' row'
      × Ends row counts status row'
      × (estado_of row' ≡ status)

  abbrev Ended : Dict → ℕ × ℕ → Result String × S → Type 0
  Ended row counts (ok status, s') = EndsAt row counts status s'
  Ended row counts (raised e, s') = Unit {0}

  write-Ended :
      (row : Dict) (counts : ℕ × ℕ) (updates : String → Dict) (status : String) (s : S)
      → RowAt s row
      → ((t : String) → Ends row counts status (update row (updates t)))
      → ((t : String) → Step (running row) (at_rest (update row (updates t))))
      → ((t : String) → estado_of (update row (updates t)) ≡ status)
      → Ended row counts
          ((upload_at graph load save now control_rel updates >>= λ u. pure status) s)
  write-Ended row counts updates status s o d k e =
      bind_rule (λ r. upload_at graph load save now control_rel updates s ≡ r) (Ended row counts)
        (upload_at graph load save now control_rel updates) _ s refl
        (λ u s1 w. (
          update row (updates (now s)),
          k (now s),
          upload-Holds content graph load save now control_rel world.drive world.load-save row
              (updates (now s)) s s1 o w,
          d (now s),
          e (now s),
        ))
        (λ x s1 w. tt)

  finish-Ended :
      (row : Dict) (counts : ℕ × ℕ) (s : S)
      → RowAt s row
      → Ended row counts (finish_merge graph load save now control_rel counts s)
  unfolding finish_merge cell_text strip lookup_last
  finish-Ended row (oc, sc) s o = elim (Bool-cases (ltb 0 oc && eqb sc 0)) [
    | inl b ↦ rw b (
        write-Ended row (oc, sc) (consolidado_success oc) "CONSOLIDADO" s o
          (λ t. Ends.in_full oc sc t b) (λ t. Step.consolidated row oc t)
          (λ t. estado-after row (consolidado_success oc t) "CONSOLIDADO" refl))
    | inr b ↦ rw b (
        write-Ended row (oc, sc) (merge_parcial oc sc parcial_message parcial_action)
          "MERGE_PARCIAL" s o (λ t. Ends.in_part oc sc t b)
          (λ t. Step.left_parcial row oc sc parcial_message parcial_action t)
          (λ t.
            estado-after row (merge_parcial oc sc parcial_message parcial_action t) "MERGE_PARCIAL"
              refl))
  ]

  -- A merge that returns has ended the row with the status that it returns.
  abbrev Closed : Dict → Result Merged × S → Type 0
  Closed row (ok merged, s') =
      EndsAt row (merged.outputs_count, merged.skipped_count) merged.merge_control_status s'
  Closed row (raised e, s') = Unit {0}

  raise-or-finish :
      (row : Dict) (b : Bool) (e : Exn) (counts : ℕ × ℕ) (s : S)
      → RowAt s row
      → Ended row counts
          ((if b then raise e else finish_merge graph load save now control_rel counts) s)
  raise-or-finish row true e counts s o = tt
  raise-or-finish row false e counts s o = finish-Ended row counts s o

  run-Closed :
      (row : Dict) (snapshot : Snapshot) (s : S)
      → RowAt s row
      → Closed row (run_merge graph load save now control_rel consolidate manifest snapshot s)
  unfolding run_merge
  run-Closed row snapshot s o =
      bind_rule (λ r. content r.1 control_rel ≡ content s control_rel) (Closed row)
        (consolidate snapshot) _ s (world.consolidate_keeps snapshot s)
        (λ counts s1 k.
          bind_rule (Ended row counts) (Closed row)
            (if eqb counts.0 0 && eqb counts.1 0
              then raise no_rows
              else finish_merge graph load save now control_rel counts)
            _ s1
            (raise-or-finish row (eqb counts.0 0 && eqb counts.1 0) no_rows counts s1 (
              Holds-keep content graph load save now control_rel world.drive world.load-save s s1
                row k o))
            (λ status s2 (row', k', o', d', e'). (
              row',
              k',
              Holds-keep content graph load save now control_rel world.drive world.load-save s2 _
                  row' (world.manifest_keeps status s2) o',
              d',
              e',
            ))
            (λ e s2 d. tt))
        (λ e s1 k. tt)

  closed-Closed :
      (row : Dict) (r : Result Merged × S)
      → Closed row r
      → Closed row (closed graph load save now control_rel consolidate manifest r.0 r.1)
  closed-Closed row (ok merged, s') h = h
  closed-Closed row (raised e, s') h = elim (Bool-cases (is_validation e)) [
    | inl b ↦ rw b tt
    | inr b ↦ rw b tt
  ]

  -- From a row that a merge may take to the row that it leaves.
  abbrev pub Taken : Dict → Result Merged × S → Type 0
  Taken row (raised e, s') = Unit {0}
  Taken row (ok merged, s') =
      (t : String) × (row' : Dict) × Step (at_rest row) (running (update row (consolidando t)))
      × Step (running (update row (consolidando t))) (at_rest row')
      × RowAt s' row'
      × Ends (update row (consolidando t)) (merged.outputs_count, merged.skipped_count)
          merged.merge_control_status row'
      × (estado_of row' ≡ merged.merge_control_status)

  Taken-from :
      (row : Dict) (snapshot : Snapshot) (t : String) (q : Result Merged × S)
      → parse_row row ≡ ok snapshot
      → Closed (update row (consolidando t)) q
      → Taken row q
  Taken-from row snapshot t (ok merged, s') p (row', k, o, d, e) =
      (t, row', Step.started row snapshot t p, k, o, d, e)
  Taken-from row snapshot t (raised x, s') p c = tt

  begun-Taken :
      (row : Dict) (s : S) (r : Result Snapshot × S)
      → RowAt s row
      → start_merge graph load save now control_rel s ≡ r
      → Taken row (begun graph load save now control_rel consolidate manifest r.0 r.1)
  begun-Taken row s (ok snapshot, s1) o h =
      let (t, p, o1) =
        start-Holds content graph load save now control_rel world.drive world.load-save row s s1
          snapshot o h in
      Taken-from row snapshot t _ p
        (closed-Closed _ _ (run-Closed (update row (consolidando t)) snapshot s1 o1))
  begun-Taken row s (raised e, s1) o h = tt

  -- A merge that returns has found a control row that a merge may take, has taken it by the step to
  -- CONSOLIDANDO, and leaves the control workbook with that row ended by its counts: as CONSOLIDADO
  -- where there are outputs and nothing was skipped, and else as MERGE_PARCIAL, which is also the
  -- status that it returns. The joining of the PDFs and the upload of the manifest are to leave the
  -- control workbook alone, and so is everything else meanwhile.
  pub merge_composite-Taken :
      (row : Dict) (s : S)
      → RowAt s row
      → Taken row (merge_composite graph load save now control_rel consolidate manifest s)
  unfolding merge_composite
  merge_composite-Taken row s o = begun-Taken row s _ o refl
