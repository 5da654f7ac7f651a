-- ===== src/Tests.antt =====
-- Concrete stores, jobs and results, on which the definitions are run.
pub mod Runs
pub mod Guards
pub mod Examples
pub mod Drive
pub mod PaymentExamples
pub mod MergeExamples
mod ApplyExamples
use automitizacion_hbi_capit.Base.{
  ℕ, ◌+◌, List, [], ◌∷◌, refl, String, Bool, true, false, Option, none, some, ◌==◌, if◌then◌else◌,
}
use automitizacion_hbi_capit.Json.{Value, num, text, iso, aware, arr, obj, nil, Dict, empty, entry}
use automitizacion_hbi_capit.Json.Ops.{lookup, is_unique}
use automitizacion_hbi_capit.Effects.{Exn, error, Result, ok, raised, Act}
use automitizacion_hbi_capit.Store.Memory.{MemoryJobStore}
use automitizacion_hbi_capit.Store.Blob.{Config}
use automitizacion_hbi_capit.JobManager.{JobManager}
use automitizacion_hbi_capit.RunGuard.Begin.{IsExtra}
use automitizacion_hbi_capit.Fallback.{Settings, Process}
use automitizacion_hbi_capit.Jobs.Merge.{MergeCompositePdfOutput}
use automitizacion_hbi_capit.Jobs.Reports.{ValidarExtractosNotifyResult, ValidationSummary}

-- One job, and no locks.
abbrev pub memory_with : Dict → MemoryJobStore
memory_with job = record {
  jobs = λ id. if id == "j" then some job else none;
  locks = λ key. none;
  now = 5_000_000;
  ttl = 900;
}

abbrev pub queued_job : Dict
queued_job = entry "status" (text "queued") empty

abbrev pub running_job : Dict
running_job = entry "status" (text "running") (entry "started_at" (iso (aware 1_000_000)) empty)

abbrev pub completed_job : Dict
completed_job = entry "status" (text "completed") empty

abbrev pub memory_peek : MemoryJobStore → String → Option Dict
memory_peek s id = s.jobs id

abbrev pub manager : JobManager MemoryJobStore
manager = record {
  store = memory_with queued_job;
  generate_active = false;
  finalize_active = false;
}

-- Use cases: one that returns, one that raises.
abbrev pub returning : {S A : Type 0} → A → Act S A
returning a s = (ok a, s)

abbrev pub raising : {S A : Type 0} → Act S A
raising s = (raised (error "ValueError" "pdf_missing| no pdf"), s)

abbrev pub no_extra : Dict
no_extra = empty

pub no_extra-IsExtra : IsExtra no_extra
unfolding lookup is_unique
no_extra-IsExtra = record { unique = refl; no_status = refl; no_phase = refl; no_expiry = refl }

abbrev pub settings : Settings
settings = record {
  takeover = 300_000_000;
  stale_running = 900_000_000;
  workflow_wait = 90_000_000;
  poll_interval = 5_000_000;
}

abbrev pub memory_sleep : ℕ → Act MemoryJobStore (Unit {0})
memory_sleep d s = (ok tt, record s { now = s.now + d })

abbrev pub process : Process MemoryJobStore
process = record { store = memory_with completed_job; claimed = λ id. false }

abbrev pub blob_config : Config
blob_config = record { ttl_days = 7; inline_max = 200_000; http_get_max = 500_000; size = λ o. 0 }

abbrev pub pdf_output : String → ℕ → String → MergeCompositePdfOutput
pdf_output id bytes sources = record {
  id_pago = id;
  output_relative_path = "";
  bytes_written = bytes;
  sources_summary = sources;
  cliente = "";
  credito = "";
  email_pdf_path = "";
  asiento_pdf_path = "";
  asiento_pdf_paths = nil;
  extracto_pdf_path = "";
  credit_items = nil;
}

abbrev pub pdf_outputs : List MergeCompositePdfOutput
pdf_outputs =
    pdf_output "P1" 120 "email+asiento"
    ∷ pdf_output "P2" 0 "already_consolidated: 3"
    ∷ pdf_output "P3" 0 ""
    ∷ []

abbrev pub skipped_summary : Dict
skipped_summary =
    entry "total" (num 3)
      (entry "applied" (num 0) (entry "adopted" (num 0) (entry "skipped_idempotent" (num 3) empty)))

abbrev pub skipped_result : Dict
skipped_result = entry "summary" (obj skipped_summary) (entry "tables_uploaded" (arr nil) empty)

abbrev pub notified : ValidarExtractosNotifyResult
notified = record {
  report_date = "2026-01-31";
  historico_excel_path = "h.xlsx";
  historical_file_path = "h.xlsx";
  historical_file_source = "explicit";
  rows_included = 4;
  subject = "Validar";
  attachments_count = 2;
  graph_sendmail_http_status = 202;
  mail_sender = "a";
  mail_to = "b";
  email_pdf_path = some "mail.pdf";
  email_pdf_error = none;
  merge_control_updated = true;
  merge_control_file_path = none;
  merge_control_status = none;
  merge_control_warning = none;
  merge_control_error_code = none;
}

abbrev pub validated : ValidationSummary
validated = record {
  processed_rows = 4;
  ok_count = 3;
  no_count = 1;
  error_count = 0;
  row_errors = nil;
}

abbrev pub lock_document : Dict
lock_document =
    entry "created_at" (iso (aware 0)) (entry "expires_at" (iso (aware 900_000_000)) empty)
