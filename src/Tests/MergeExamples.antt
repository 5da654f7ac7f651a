-- ===== src/Tests/MergeExamples.antt =====
-- The theorems on the control of the merge at a concrete workbook.
use automitizacion_hbi_capit.Base.{
  ℕ, String, ◌≡◌, refl, false, none, some, List, [], ◌∷◌, if◌then◌else◌, ◌==◌,
}
use automitizacion_hbi_capit.Base.Texts.{strip, lower}
use automitizacion_hbi_capit.Json.{Value, text, Dict}
use automitizacion_hbi_capit.Json.Ops.{lookup, update, insert}
use automitizacion_hbi_capit.Effects.{ok, Act, pure}
use automitizacion_hbi_capit.Base.Texts.{strip_slashes}
use automitizacion_hbi_capit.Review.{cell_text, str_of}
use automitizacion_hbi_capit.Tests.Drive.{Files, memory, memory-IsDrive}
use automitizacion_hbi_capit.MergeControl.{
  ControlBook, sheet, merge_control_columns, Snapshot, parse_row, new_row, registered, consolidando,
  should_block_overwrite, is_active, estado_of, is_active_cell,
}
use automitizacion_hbi_capit.MergeControl.States.{at_rest, Step, Reachable}
use automitizacion_hbi_capit.MergeControl.{consolidado_success}
use automitizacion_hbi_capit.MergeControl.Overlap.{
  Reached, IsSettled, Reached-IsSettled, overlap-unblocked,
}
use automitizacion_hbi_capit.MergeControl.Ready.{interrupted-stuck}
use automitizacion_hbi_capit.MergeControl.Run.{merge_composite}
use automitizacion_hbi_capit.MergeControl.Run.Returned.{IsWorld, Taken, merge_composite-Taken}

-- A report is registered, its merge starts, and is killed.
abbrev report_row : Dict
report_row = update new_row (registered "Merge 2026-01-31" "h.xlsx" "mail.pdf" "t1")

abbrev killed_row : Dict
killed_row = update report_row (consolidando "t2")

abbrev report : Snapshot
report = record { historical_file_path = "h.xlsx"; email_pdf_path = "mail.pdf" }

report-Reachable : Reachable (at_rest report_row)
unfolding should_block_overwrite is_active_cell lookup lower strip str_of
report-Reachable =
    Reachable.then_step Reachable.fresh
      (Step.notified (at_rest new_row) "Merge 2026-01-31" "h.xlsx" "mail.pdf" "t1" refl)

report-parsed : parse_row report_row ≡ ok report
unfolding is_active is_active_cell estado_of cell_text strip strip_slashes lookup update insert
report-parsed = refl

killed-Reachable : Reachable (at_rest killed_row)
killed-Reachable =
    Reachable.then_step
      (Reachable.then_step report-Reachable (Step.started report_row report "t2" report-parsed))
      (Step.interrupted killed_row)

report-Reached : Reached report_row
unfolding should_block_overwrite is_active_cell lookup lower strip str_of
report-Reached =
    Reached.registers new_row new_row "Merge 2026-01-31" "h.xlsx" "mail.pdf" "t1" refl Reached.fresh
      Reached.fresh

Reached-IsSettled_example : IsSettled report_row
Reached-IsSettled_example = Reached-IsSettled report-Reached

overlap-unblocked_example :
    let late =
      update
        (update (update report_row (consolidando "t2")) (consolidado_success 2 "t3"))
        (consolidando "t4") in
    Reached late × (estado_of late ≡ "CONSOLIDANDO") × (should_block_overwrite late ≡ false)
overlap-unblocked_example =
    overlap-unblocked report_row report 2 "t2" "t3" "t4" report-Reached report-parsed

interrupted-stuck_example : ¬ (Step (at_rest killed_row) (at_rest new_row))
unfolding estado_of cell_text strip lookup update insert
interrupted-stuck_example = interrupted-stuck killed-Reachable refl refl

-- The bytes of the file are the workbook itself; a merge makes two outputs.
abbrev header_row : List String → List Value
header_row [] = []
header_row (t ∷ ts) = text t ∷ header_row ts

abbrev book : ControlBook
book = sheet (header_row merge_control_columns) (some report_row)

abbrev idle_book : ControlBook
idle_book = sheet (header_row merge_control_columns) (some new_row)

abbrev drive_with : ControlBook → Files ControlBook
drive_with wb p = if p == "c.xlsx" then some wb else none

abbrev clock : Files ControlBook → String
clock s = "t3"

abbrev consolidate : Snapshot → Act (Files ControlBook) (ℕ × ℕ)
consolidate n = pure (2, 0)

abbrev manifest : String → Act (Files ControlBook) String
manifest t = pure "m.json"

memory-IsWorld :
    IsWorld (λ s p. s p) (memory ControlBook) (λ wb. wb) (λ wb. wb) "c.xlsx" consolidate manifest
memory-IsWorld = record {
  drive = memory-IsDrive ControlBook;
  load-save = λ wb. refl;
  consolidate_keeps = λ n s. refl;
  manifest_keeps = λ t s. refl;
}

merge_composite-Taken_example :
    Taken
      (λ s p. s p)
      (memory ControlBook)
      (λ wb. wb)
      (λ wb. wb)
      clock
      "c.xlsx"
      consolidate
      manifest
      memory-IsWorld
      report_row
      (merge_composite
        (memory ControlBook)
        (λ wb. wb)
        (λ wb. wb)
        clock
        "c.xlsx"
        consolidate
        manifest
        (drive_with book))
merge_composite-Taken_example =
    merge_composite-Taken (λ s p. s p) (memory ControlBook) (λ wb. wb) (λ wb. wb) clock "c.xlsx"
      consolidate manifest memory-IsWorld report_row (drive_with book)
      (record {
        raw = book;
        headers = header_row merge_control_columns;
        is_stored = refl;
        is_row = refl;
      })
