-- ===== src/MergeControl/Notify/Registered.antt =====
-- What the registration of a report does to the control row, on every branch
-- (app/application/use_cases/merge_control_workbook_notify.py).
use automitizacion_hbi_capit.Base.{String, ◌≡◌, ◌⊎◌, inl, inr, false, Option, none, some}
use automitizacion_hbi_capit.Json.{Dict}
use automitizacion_hbi_capit.Effects.{Result, ok, raised}
use automitizacion_hbi_capit.Sheets.{Row}
use automitizacion_hbi_capit.Graph.{Graph, IsDrive}
use automitizacion_hbi_capit.MergeControl.{ControlBook, sheet}
use automitizacion_hbi_capit.MergeControl.States.{at_rest, Step}
use automitizacion_hbi_capit.MergeControl.Notify.{Outcome, refused, done}

-- What is written in the place of a sheet.
abbrev Fits : ControlBook → Outcome ⊎ ControlBook → Type 0
Fits old (inl o) = o.merge_control_updated ≡ false
Fits old (inr wb) =
    (headers : Row) × (row : Dict) × (row' : Dict) × (old ≡ sheet headers (some row))
    × (wb ≡ sheet headers (some row'))
    × Step (at_rest row) (at_rest row')

module _ {S B : Type 0} (content : S → String → Option B) (graph : Graph S B)
    (load : B → Result ControlBook) (save : ControlBook → Result B) (now : S → String)
    (control_rel : String) (drive : IsDrive content graph) where
  -- The control row of the file has taken the step of a registration, and the file holds the sheet
  -- with it.
  abbrev WrittenOver : ControlBook → S → Type 0
  WrittenOver old s' =
      (wb : ControlBook) × (raw : B) × Fits old (inr wb)
      × (save wb ≡ ok raw)
      × (content s' control_rel ≡ some raw)

  -- Registered, refused with the file as it was, or an upload that failed; or the file is as it was
  -- and openpyxl has raised.
  abbrev pub Notified : B → S → Result Outcome × S → Type 0
  Notified raw s (raised e, s') =
      (content s' control_rel ≡ content s control_rel)
      × ((load raw ≡ raised e) ⊎ ((wb : ControlBook) × (save wb ≡ raised e)))
  Notified raw s (ok o, s') =
      ((o ≡ done) × ((old : ControlBook) × (load raw ≡ ok old) × WrittenOver old s'))
      ⊎ ((o.merge_control_updated ≡ false) × (content s' control_rel ≡ content s control_rel))
      ⊎ (o ≡ refused none "merge_control_write_failed")
