-- ===== src/MergeControl/Run/Refines.antt =====
-- What the control row is after each write of a merge, and after its start
-- (app/application/use_cases/merge_composite_validado_pdfs.py and merge_control_workbook_merge.py).
use automitizacion_hbi_capit.Base.{String, ◌≡◌, sym, ap, ◌∙◌, not, Option, some}
use automitizacion_hbi_capit.Json.{Dict}
use automitizacion_hbi_capit.Json.Ops.{update}
use automitizacion_hbi_capit.Effects.{Result, ok, raised, ◌>>=◌, attempt, reraise}
use mathlib.Core.Option.{some-injective}
use automitizacion_hbi_capit.Sheets.{Row}
use automitizacion_hbi_capit.Effects.{ok-injective, bind-ok}
use automitizacion_hbi_capit.Graph.{Graph, IsDrive}
use automitizacion_hbi_capit.Finalize.Noted.{guard-ok}
use automitizacion_hbi_capit.MergeControl.{
  ControlBook, sheet, headers_match, merge_control_columns, Snapshot, parse_row, parse_for_merge,
  with_updates, consolidando,
}
use automitizacion_hbi_capit.MergeControl.Run.{
  upload_row2_updates, upload_at, stored, downloaded, start_merge,
}

module _ {S B : Type 0} (content : S → String → Option B) (graph : Graph S B)
    (load : B → ControlBook) (save : ControlBook → B) (now : S → String)
    (control_rel : String) where
  -- The control workbook is there, with this row.
  pub record Holds (s : S) (row : Dict) : Type 0 where
    pub raw : B
    pub headers : Row
    pub is_stored : content s control_rel ≡ some raw
    pub is_row : load raw ≡ sheet headers (some row)

  updated-row :
      (headers : Row) (row updates : Dict) (wb : ControlBook)
      → with_updates updates (sheet headers (some row)) ≡ ok wb
      → wb ≡ sheet headers (some (update row updates))
  unfolding with_updates
  updated-row headers row updates wb h =
      sym (
        ok-injective _ wb (guard-ok (not (headers_match merge_control_columns headers)) _ _ wb h).1)

  module _ (drive : IsDrive content graph)
      (load-save : (wb : ControlBook) → load (save wb) ≡ wb) where
    stored-Holds :
        (headers : Row) (row updates : Dict) (r : Result ControlBook) (s s' : S)
        → with_updates updates (sheet headers (some row)) ≡ r
        → stored graph load save now control_rel r s ≡ (ok tt, s')
        → Holds s' (update row updates)
    stored-Holds headers row updates (ok wb) s s' e h =
        let (url, s1, p, k) = bind-ok (graph.put_bytes control_rel (save wb)) _ s tt s' h in
        record {
          raw = save wb;
          headers = headers;
          is_stored = rw (← ap (λ q. q.1) k) (drive.put_stores control_rel (save wb) s url s1 p);
          is_row = load-save wb ∙ updated-row headers row updates wb e;
        }
    stored-Holds headers row updates (raised x) s s' e h = absurd (cc (ap (λ q. q.0) h))

    pub upload-Holds :
        (row updates : Dict) (s s' : S)
        → Holds s row
        → upload_row2_updates graph load save now control_rel updates s ≡ (ok tt, s')
        → Holds s' (update row updates)
    unfolding upload_row2_updates
    upload-Holds row updates s s' o h =
        let (raw, s1, g, k) = bind-ok (graph.get_bytes control_rel) _ s tt s' h in
        let e =
          some-injective o.raw raw (sym o.is_stored ∙ drive.get_reads control_rel s raw s1 g) in
        stored-Holds o.headers row updates _ s1 s'
          (ap (with_updates updates) (sym o.is_row ∙ ap load e)) k

    downloaded-ok :
        (r : Result B × S) (raw : B) (s' : S)
        → downloaded graph load save now control_rel r.0 r.1 ≡ (ok raw, s')
        → r ≡ (ok raw, s')
    downloaded-ok (ok b, s0) raw s' h = h
    downloaded-ok (raised e, s0) raw s' h = absurd (cc (ap (λ q. q.0) h))

    parsed-row :
        (headers : Row) (row : Dict) (snapshot : Snapshot)
        → parse_for_merge (sheet headers (some row)) ≡ ok snapshot
        → parse_row row ≡ ok snapshot
    unfolding parse_for_merge
    parsed-row headers row snapshot h =
        (guard-ok (not (headers_match merge_control_columns headers)) _ _ snapshot h).1

    pub Holds-keep :
        (s s' : S) (row : Dict)
        → content s' control_rel ≡ content s control_rel
        → Holds s row
        → Holds s' row
    Holds-keep s s' row e o = record {
      raw = o.raw;
      headers = o.headers;
      is_stored = e ∙ o.is_stored;
      is_row = o.is_row;
    }

    pub start-Holds :
        (row : Dict) (s s' : S) (snapshot : Snapshot)
        → Holds s row
        → start_merge graph load save now control_rel s ≡ (ok snapshot, s')
        → (t : String) × (parse_row row ≡ ok snapshot) × Holds s' (update row (consolidando t))
    unfolding start_merge
    start-Holds row s s' snapshot o h =
        let (raw, s1, d, k1) =
          bind-ok
            (attempt (graph.get_bytes control_rel) >>= downloaded graph load save now control_rel) _
            s snapshot s' h in
        let g = downloaded-ok (graph.get_bytes control_rel s) raw s1 d in
        let same = ap (λ q. q.1) (sym g) ∙ drive.get_keeps control_rel s in
        let e =
          some-injective o.raw raw (sym o.is_stored ∙ drive.get_reads control_rel s raw s1 g) in
        let (n, s2, p, k2) = bind-ok (reraise (parse_for_merge (load raw))) _ s1 snapshot s' k1 in
        let (u, s3, w, k3) =
          bind-ok (upload_at graph load save now control_rel consolidando) _ s2 snapshot s' k2 in
        let pn =
          parsed-row o.headers row n
            (ap parse_for_merge (sym o.is_row ∙ ap load e) ∙ ap (λ q. q.0) p) in
        let o2 =
          Holds-keep s s2 row (ap (λ t. content t control_rel) (sym (ap (λ q. q.1) p) ∙ same)) o in
        let o3 = upload-Holds row (consolidando (now s2)) s2 s3 o2 w in
        let f = ok-injective n snapshot (ap (λ q. q.0) k3) in
        (
          now s2,
          pn ∙ ap (λ x. ok x) f,
          Holds-keep s3 s' _ (ap (λ t. content t control_rel) (sym (ap (λ q. q.1) k3))) o3,
        )
