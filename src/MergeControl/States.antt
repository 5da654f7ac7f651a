-- ===== src/MergeControl/States.antt =====
-- The life of the control row of the merge: the steps of
-- app/application/use_cases/merge_control_workbook_notify.py and of a merge
-- (app/application/use_cases/merge_composite_validado_pdfs.py) that writes it by
-- merge_control_workbook_merge.py, where the runs do not overlap: one merge at a time, and no
-- registration between its check of the row and its write. The code has no lock that sees to this;
-- MergeControl.Overlap is about runs that overlap.
use automitizacion_hbi_capit.Base.{
  ℕ, String, ◌≡◌, refl, sym, ap, ◌∙◌, Bool, true, false, not, ◌&&◌, some, List, ◌∷◌, member,
  or_else,
}
use automitizacion_hbi_capit.Base.Texts.{strip, lower}
use automitizacion_hbi_capit.Json.{bool, text, Dict}
use automitizacion_hbi_capit.Json.Ops.{lookup, update}
use automitizacion_hbi_capit.Effects.{ok}
use automitizacion_hbi_capit.Json.Ops.{lookup-update, lookup_last}
use automitizacion_hbi_capit.Review.{cell_text, str_of}
use automitizacion_hbi_capit.Finalize.Noted.{guard-ok}
use automitizacion_hbi_capit.Base.{not-true, and-parts}
use automitizacion_hbi_capit.MergeControl.{
  is_active_cell, estado_of, is_active, active_estados, merge_allowed_estados,
  should_block_overwrite, Snapshot, parse_row, consolidando, consolidado_success, merge_parcial,
  error_merge, registered, new_row,
}

-- The row, and whether a merge is running that has set it to CONSOLIDANDO.
pub record Machine : Type 0 where
  pub row : Dict
  pub running : Bool

abbrev pub at_rest : Dict → Machine
at_rest row = record { row = row; running = false }

-- A merge that is killed, or that cannot write its error, leaves the row as it is.
pub data Step : Machine → Machine → Type 0 where
  notified :
      (m : Machine) (title hist pdf now : String)
      → should_block_overwrite m.row ≡ false
      → Step m (record { row = update m.row (registered title hist pdf now); running = m.running })
  started :
      (row : Dict) (snapshot : Snapshot) (now : String)
      → parse_row row ≡ ok snapshot
      → Step (at_rest row) (record { row = update row (consolidando now); running = true })
  consolidated :
      (row : Dict) (outputs_count : ℕ) (now : String)
      → Step
          (record { row = row; running = true })
          (at_rest (update row (consolidado_success outputs_count now)))
  left_parcial :
      (row : Dict) (outputs_count skipped_count : ℕ) (user_message next_action now : String)
      → Step
          (record { row = row; running = true })
          (at_rest
            (update row (merge_parcial outputs_count skipped_count user_message next_action now)))
  failed :
      (row : Dict) (user_message next_action now : String)
      → Step
          (record { row = row; running = true })
          (at_rest (update row (error_merge user_message next_action now)))
  interrupted : (row : Dict) → Step (record { row = row; running = true }) (at_rest row)

pub data Reachable : Machine → Type 0 where
  fresh : Reachable (at_rest new_row)
  then_step : {m m' : Machine} → Reachable m → Step m m' → Reachable m'

-- The states of the row, with VACIO of a new workbook.
abbrev pub known_estados : List String
known_estados = "VACIO" ∷ "CONSOLIDADO" ∷ active_estados

pub record IsSound (m : Machine) : Type 0 where
  pub known : member (estado_of m.row) known_estados ≡ true
  pub active : is_active m.row ≡ member (estado_of m.row) active_estados
  pub while_running : m.running ≡ true → estado_of m.row ≡ "CONSOLIDANDO"

-- The two cells after an update that writes them.
pub estado-after :
    (row updates : Dict) (e : String)
    → lookup_last "EstadoProceso" updates ≡ some (text e)
    → estado_of (update row updates) ≡ cell_text (some (text e))
unfolding estado_of
estado-after row updates e h =
    ap cell_text (
      lookup-update row updates "EstadoProceso"
      ∙ ap (λ o. or_else o (lookup "EstadoProceso" row)) h)

pub active-after :
    (row updates : Dict) (b : Bool)
    → lookup_last "IsActive" updates ≡ some (bool b)
    → is_active (update row updates) ≡ b
unfolding is_active is_active_cell
active-after row updates b h =
    ap is_active_cell
      (lookup-update row updates "IsActive" ∙ ap (λ o. or_else o (lookup "IsActive" row)) h)

-- The update of a start leaves the cell alone.
pub active-started :
    (row : Dict) (now : String) → is_active (update row (consolidando now)) ≡ is_active row
unfolding is_active lookup_last
active-started row now = ap is_active_cell (lookup-update row (consolidando now) "IsActive")

IsSound-rest :
    (row : Dict) (running : Bool) (e : String) (b : Bool)
    → estado_of row ≡ e
    → is_active row ≡ b
    → member e known_estados ≡ true
    → b ≡ member e active_estados
    → (running ≡ true → e ≡ "CONSOLIDANDO")
    → IsSound (record { row = row; running = running })
IsSound-rest row running e b he hb k a w = record {
  known = ap (λ t. member t known_estados) he ∙ k;
  active = hb ∙ a ∙ ap (λ t. member t active_estados) (sym he);
  while_running = λ r. he ∙ w r;
}

-- A row that a merge may take is active.
pub parse-active :
    (row : Dict) (snapshot : Snapshot)
    → parse_row row ≡ ok snapshot
    → (is_active row ≡ true) × (member (estado_of row) merge_allowed_estados ≡ true)
parse-active row snapshot h = and-parts _ _ (
    not-true _
      (guard-ok (not (is_active row && member (estado_of row) merge_allowed_estados)) _ _ snapshot
        h).0)

-- While a merge is running, notify is blocked.
unblocked-idle :
    (m : Machine)
    → IsSound m
    → should_block_overwrite m.row ≡ false
    → m.running ≡ true
    → Path String "PENDIENTE_ASIENTOS" "CONSOLIDANDO"
unfolding should_block_overwrite
unblocked-idle m i h r =
    let e = i.while_running r in
    let a = i.active ∙ ap (λ t. member t active_estados) e in
    absurd (
      cc (
        sym h
        ∙ ap (λ b. b && member (estado_of m.row) active_estados) a
        ∙ ap (λ t. member t active_estados) e))

Step-IsSound : {m m' : Machine} → IsSound m → Step m m' → IsSound m'
unfolding lookup_last cell_text strip
Step-IsSound i (notified m title hist pdf now h) =
    IsSound-rest _ m.running "PENDIENTE_ASIENTOS" true
      (estado-after m.row (registered title hist pdf now) "PENDIENTE_ASIENTOS" refl)
      (active-after m.row (registered title hist pdf now) true refl) refl refl
      (unblocked-idle m i h)
Step-IsSound i (started row snapshot now h) =
    IsSound-rest _ true "CONSOLIDANDO" true
      (estado-after row (consolidando now) "CONSOLIDANDO" refl)
      (active-started row now ∙ (parse-active row snapshot h).0) refl refl (λ r. refl)
Step-IsSound i (consolidated row n now) =
    IsSound-rest _ false "CONSOLIDADO" false
      (estado-after row (consolidado_success n now) "CONSOLIDADO" refl)
      (active-after row (consolidado_success n now) false refl) refl refl (λ r. absurd (cc r))
Step-IsSound i (left_parcial row n k u a now) =
    IsSound-rest _ false "MERGE_PARCIAL" true
      (estado-after row (merge_parcial n k u a now) "MERGE_PARCIAL" refl)
      (active-after row (merge_parcial n k u a now) true refl) refl refl (λ r. absurd (cc r))
Step-IsSound i (failed row u a now) =
    IsSound-rest _ false "ERROR_MERGE" true
      (estado-after row (error_merge u a now) "ERROR_MERGE" refl)
      (active-after row (error_merge u a now) true refl) refl refl (λ r. absurd (cc r))
Step-IsSound i (interrupted row) = record {
  known = i.known;
  active = i.active;
  while_running = λ r. absurd (cc r);
}

fresh-IsSound : IsSound (at_rest new_row)
unfolding estado_of is_active is_active_cell lookup cell_text strip lower str_of
fresh-IsSound = record { known = refl; active = refl; while_running = λ r. absurd (cc r) }

-- Where the runs do not overlap, the row holds one of the known states, is active exactly in those of a
-- merge in progress, and is CONSOLIDANDO while a merge runs.
pub Reachable-IsSound : {m : Machine} → Reachable m → IsSound m
Reachable-IsSound fresh = fresh-IsSound
Reachable-IsSound (then_step r s) = Step-IsSound (Reachable-IsSound r) s
