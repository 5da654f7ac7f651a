-- ===== src/Finalize/Run.antt =====
-- The second half of `finalize_payment_validation`
-- (app/application/use_cases/payment_validation_finalize.py): what is written on SharePoint, and when.
-- The world and the bytes of a file are parameters, and so are the Graph client's two calls, openpyxl's
-- reading, and the steps that build the two workbooks and register the follow-ups.
use automitizacion_hbi_capit.Base.{
  ℕ, String, Bool, true, false, ◌&&◌, ◌||◌, Option, List, if◌then◌else◌, ◌==◌,
}
use automitizacion_hbi_capit.Json.{Dict}
use automitizacion_hbi_capit.Effects.{
  skipped, error, Result, ok, raised, Act, pure, raise, ◌>>=◌, attempt,
}
use Prim.Native.String.{◌++◌ as ◌+++◌}
use automitizacion_hbi_capit.Graph.{Graph, message}
use automitizacion_hbi_capit.Finalize.{Workbook}
use automitizacion_hbi_capit.Finalize.Lines.{Books, audit, count_validated}

-- What the function returns, as far as it depends on the run: the warning that a file was there before
-- by its presence.
pub record Outcome : Type 0 where
  pub historical_file_url : Option String
  pub historical_file_action : String
  pub historical_file_already_exists : Bool
  pub secretary_file_url : Option String
  pub secretary_file_action : String
  pub secretary_file_already_exists : Bool
  pub already_exists_warning : Bool
  pub validated_rows : ℕ
  pub payment_followup_warnings : List String

abbrev action : Bool → String
action already = if already then "replaced" else "created"

module _ {S B : Type 0} (graph : Graph S B) where
  -- A failed download means that there is no file where its status is 404.
  abbrev exists_of : Result B → Act S Bool
  exists_of (ok b) = pure true
  exists_of (raised (error name m)) =
      if name == "HTTPStatusError" && m == "404" then pure false else raise (error name m)
  exists_of (raised (skipped r)) = raise (skipped r)

  -- `_drive_item_exists`
  unfoldable pub drive_item_exists : String → Act S Bool
  drive_item_exists path = attempt (graph.get_bytes path) >>= exists_of

  -- `except Exception as e: raise Exception(f"upload_failed|...")`
  abbrev pub uploaded :
      String
      → String
      → Result (Option String × Option String)
      → Act S (Option String × Option String)
  uploaded hist sec (ok urls) = pure urls
  uploaded hist sec (raised e) =
      raise (error "Exception" ("upload_failed|" +++ hist +++ "|" +++ sec +++ "|" +++ message e))

  unfoldable pub upload_both : String → String → B × B → Act S (Option String × Option String)
  upload_both hist sec built =
      attempt
        (graph.put_bytes hist built.0 >>= λ u. graph.put_bytes sec built.1 >>= λ v. pure (u, v))
      >>= uploaded hist sec

  module _ (load : B → Workbook) (prepare : B → List Dict → Act S (B × B))
      (register : List Dict → String → Act S (List String)) where
    -- From the audited lines on.
    unfoldable pub write_outputs : String → String → B → List Dict → Act S Outcome
    unfolding drive_item_exists upload_both count_validated
    write_outputs hist sec raw lines = prepare raw lines >>= λ built.
        drive_item_exists hist >>= λ hist_there. drive_item_exists sec >>= λ sec_there.
        register lines hist >>= λ warnings. upload_both hist sec built >>= λ urls. pure (record {
          historical_file_url = urls.0;
          historical_file_action = action hist_there;
          historical_file_already_exists = hist_there;
          secretary_file_url = urls.1;
          secretary_file_action = action sec_there;
          secretary_file_already_exists = sec_there;
          already_exists_warning = hist_there || sec_there;
          validated_rows = count_validated lines;
          payment_followup_warnings = warnings;
        })

    abbrev pub write_audited : String → String → B → Result (Books × List Dict) → Act S Outcome
    write_audited hist sec raw (ok r) = write_outputs hist sec raw r.1
    write_audited hist sec raw (raised e) = raise e

    unfoldable pub finalize : String → String → String → Act S Outcome
    unfolding write_outputs audit
    finalize file_path hist sec =
        graph.get_bytes file_path >>= λ raw. write_audited hist sec raw (audit (load raw))
