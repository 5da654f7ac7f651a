-- ===== src/Jobs/Merge/Counts.antt =====
-- The counts that app/application/jobs/merge_composite_validado_pdfs_job.py reports.
use automitizacion_hbi_capit.Base.{
  ℕ, suc, ◌+◌, ◌≡◌, Bool, true, false, List, [], ◌∷◌, if◌then◌else◌, arith,
}
use automitizacion_hbi_capit.Jobs.Merge.{
  MergeCompositePdfOutput, FileAction, created, reused, skipped_file, is_reused, file_action, Tally,
  count_action, tally_from, tally,
}

abbrev pub is_created : FileAction → Bool
is_created created = true
is_created _ = false

-- The outputs whose file action passes a test, and the bytes of all of them.
unfoldable pub count_where : (FileAction → Bool) → List MergeCompositePdfOutput → ℕ
count_where p [] = 0
count_where p (o ∷ os) = let rest = count_where p os in if p (file_action o) then suc rest else rest

unfoldable pub bytes_of : List MergeCompositePdfOutput → ℕ
bytes_of [] = 0
bytes_of (o ∷ os) = o.bytes_written + bytes_of os

-- Where the loop starts from `t`, it adds the outputs' counts to it.
abbrev Counted : Tally → List MergeCompositePdfOutput → Type 0
Counted t os =
    let r = tally_from t os in
    (r.files_created ≡ t.files_created + count_where is_created os)
    × (r.files_reused ≡ t.files_reused + count_where is_reused os)
    × (r.bytes_written_total ≡ t.bytes_written_total + bytes_of os)

abbrev step : FileAction → ℕ → Tally → Tally
step a bytes t =
    let u = count_action a t in record u { bytes_written_total = u.bytes_written_total + bytes }

step-Counted :
    (a : FileAction) (bytes : ℕ) (t : Tally) (os : List MergeCompositePdfOutput)
    → Counted (step a bytes t) os
    → let r = tally_from (step a bytes t) os in
      let c = count_where is_created os in
      let d = count_where is_reused os in
      (r.files_created ≡ t.files_created + (if is_created a then suc c else c))
      × (r.files_reused ≡ t.files_reused + (if is_reused a then suc d else d))
      × (r.bytes_written_total ≡ t.bytes_written_total + (bytes + bytes_of os))
step-Counted created bytes t os (c, r, b) = (omega (arith, c), omega (arith, r), omega (arith, b))
step-Counted reused bytes t os (c, r, b) = (omega (arith, c), omega (arith, r), omega (arith, b))
step-Counted skipped_file bytes t os (c, r, b) =
    (omega (arith, c), omega (arith, r), omega (arith, b))

tally_from-counts : (t : Tally) (os : List MergeCompositePdfOutput) → Counted t os
unfolding tally_from count_where bytes_of
tally_from-counts t [] = (omega arith, omega arith, omega arith)
tally_from-counts t (o ∷ os) =
    step-Counted (file_action o) o.bytes_written t os
      (tally_from-counts (step (file_action o) o.bytes_written t) os)

-- The counts of the loop are those of the outputs: the created and the reused ones, and all the bytes.
pub tally-counts :
    (os : List MergeCompositePdfOutput)
    → ((tally os).files_created ≡ count_where is_created os)
      × ((tally os).files_reused ≡ count_where is_reused os)
      × ((tally os).bytes_written_total ≡ bytes_of os)
unfolding tally
tally-counts os =
    let (c, r, b) =
      tally_from-counts (record { files_created = 0; files_reused = 0; bytes_written_total = 0 })
        os in
    (omega arith, omega arith, omega arith)
