-- ===== src/Apply/Told.antt =====
-- What `_apply_one_table` (app/application/use_cases/amortization_fill_apply.py) reports of a table.
use automitizacion_hbi_capit.Base.{
  String, ◌≡◌, refl, ◌⊎◌, inl, inr, Bool, true, false, ◌&&◌, Option, List, [], ◌∷◌, if◌then◌else◌,
  ◌==◌,
}
use automitizacion_hbi_capit.Json.{Dict}
use automitizacion_hbi_capit.Effects.{
  skipped, error, Result, ok, raised, Act, pure, raise, bind_rule,
}
use mathlib.Core.Path.{subst}
use automitizacion_hbi_capit.Base.Texts.{take_chars}
use automitizacion_hbi_capit.Graph.{Graph}
use automitizacion_hbi_capit.Apply.{count_status}
use automitizacion_hbi_capit.Apply.Table.{Sheets, TableResult, Progress}
use automitizacion_hbi_capit.Apply.Upload.{
  not_found, locked, verified, after_put, upload_table, finish_table, on_sheet, resolved,
  apply_one_table,
}
use automitizacion_hbi_capit.Apply.Statuses.{
  NoneWritten, IsTold, Keeps, kept, apply_items-Keeps, mark_items_error-NoneWritten,
  failed_rows-NoneWritten,
}

module _ {S B W : Type 0} (graph : Graph S B) (sheets : Sheets B W) (path : String) where
  -- The table was uploaded and read again, its verification found no error, and the items that count
  -- as applied or adopted are as many as were verified.
  pub record IsVerified (t : TableResult) : Type 0 where
    pub uploaded : t.uploaded ≡ true
    pub status : t.verification_status ≡ "ok"
    pub wb : W
    pub raw : B
    pub url : Option String
    pub sheet : String
    pub applied : List Dict
    pub before : S
    pub after : S
    pub last : S
    pub was_put : graph.put_bytes path (sheets.save wb) before ≡ (ok url, after)
    pub was_read : graph.get_bytes path after ≡ (ok raw, last)
    pub was_verified : sheets.verify_uploaded_table raw sheet applied ≡ []
    pub same_applied : count_status "APPLIED" t.items ≡ count_status "APPLIED" applied
    pub same_adopted : count_status "ADOPTED" t.items ≡ count_status "ADOPTED" applied

  -- What a table reports, where it reports: an upload that was verified, or no item applied or adopted.
  abbrev pub Told : TableResult → Type 0
  Told t = IsVerified t ⊎ NoneWritten t.items

  abbrev pub IfTold : Result TableResult × S → Type 0
  IfTold (ok t, s) = Told t
  IfTold (raised e, s) = Unit

  verified-Told :
      (sheet : String) (p : Progress W) (url : Option String) (raw : B) (s0 s1 s2 : S)
      (errors : List String)
      → IsTold sheets sheet p
      → graph.put_bytes path (sheets.save p.wb) s0 ≡ (ok url, s1)
      → graph.get_bytes path s1 ≡ (ok raw, s2)
      → sheets.verify_uploaded_table raw sheet p.applied_for_verify ≡ errors
      → Told (verified graph sheets errors p.results)
  verified-Told sheet p url raw s0 s1 s2 [] i put got h = inl (record {
    uploaded = refl;
    status = refl;
    wb = p.wb;
    raw = raw;
    url = url;
    sheet = sheet;
    applied = p.applied_for_verify;
    before = s0;
    after = s1;
    last = s2;
    was_put = put;
    was_read = got;
    was_verified = h;
    same_applied = i.applied;
    same_adopted = i.adopted;
  })
  verified-Told sheet p url raw s0 s1 s2 (e ∷ errors) i put got h =
      inr (mark_items_error-NoneWritten _ _ p.results)

  if-IfTold :
      (b : Bool) (x y : Act S TableResult) (s : S)
      → IfTold (x s)
      → IfTold (y s)
      → IfTold ((if b then x else y) s)
  if-IfTold true x y s hx hy = hx
  if-IfTold false x y s hx hy = hy

  after_put-Told :
      (sheet : String) (p : Progress W) (s0 : S) (q : Result (Option String) × S)
      → IsTold sheets sheet p
      → graph.put_bytes path (sheets.save p.wb) s0 ≡ q
      → IfTold (after_put graph sheets path sheet p q.0 q.1)
  after_put-Told sheet p s0 (ok url, s1) i put =
      bind_rule (λ q. graph.get_bytes path s1 ≡ q) IfTold (graph.get_bytes path) _ s1 refl
        (λ raw s2 got. verified-Told sheet p url raw s0 s1 s2 _ i put got refl) (λ e s2 _. tt)
  after_put-Told sheet p s0 (raised (error name m), s1) i put =
      if-IfTold (name == "HTTPStatusError" && m == "423")
        (pure (locked (take_chars 500 m) p.results)) (raise (error name m)) s1
        (inr (mark_items_error-NoneWritten "EXCEL_LOCKED" (take_chars 500 m) p.results)) tt
  after_put-Told sheet p s0 (raised (skipped r), s1) i put = tt

  upload_table-Told :
      (sheet : String) (p : Progress W) (s : S)
      → IsTold sheets sheet p
      → IfTold (upload_table graph sheets path sheet p s)
  unfolding upload_table
  upload_table-Told sheet p s i =
      after_put-Told sheet p s (graph.put_bytes path (sheets.save p.wb) s) i refl

  finish-Told :
      (sheet : String) (wb : W) (results : List Dict) (cuts : List String) (applied : List Dict)
      (s : S)
      → let p : Progress W = record {
        wb = wb;
        results = results;
        ibr_written_for_cut = cuts;
        applied_for_verify = applied;
      } in
        IsTold sheets sheet p → IfTold (finish_table graph sheets path sheet (ok p) s)
  unfolding count_status
  finish-Told sheet wb results cuts [] s i = inr (i.applied, i.adopted)
  finish-Told sheet wb results cuts (row ∷ rows) s i = upload_table-Told sheet _ s i

  finish_table-Told :
      (sheet : String) (r : Result (Progress W)) (s : S)
      → Keeps sheets sheet r
      → IfTold (finish_table graph sheets path sheet r s)
  finish_table-Told sheet (ok p) s (kept i) =
      finish-Told sheet p.wb p.results p.ibr_written_for_cut p.applied_for_verify s i
  finish_table-Told sheet (raised e) s k = tt

  on_sheet-Told :
      (planned : List Dict) (wb : W) (r : Result String) (s : S)
      → IfTold (on_sheet graph sheets path planned wb r s)
  on_sheet-Told planned wb (ok sheet) s = finish_table-Told sheet _ s (
      apply_items-Keeps sheets sheet (sheets.log_index wb) planned _
        (record { applied = refl; adopted = refl }))
  on_sheet-Told planned wb (raised (error name m)) s =
      if-IfTold (name == "AmortizationSheetNotFoundError") (pure (not_found m planned))
        (raise (error name m)) s (inr (failed_rows-NoneWritten m planned)) tt
  on_sheet-Told planned wb (raised (skipped r)) s = tt

  pub apply_one_table-IfTold :
      (planned : List Dict) (s : S) → IfTold (apply_one_table graph sheets path planned s)
  unfolding apply_one_table
  apply_one_table-IfTold planned s =
      bind_rule (λ _. Unit) IfTold (graph.get_bytes path)
        (λ raw.
          let wb = sheets.load raw in
          on_sheet graph sheets path planned wb (resolved graph sheets wb planned))
        s tt
        (λ raw s1 _.
          on_sheet-Told planned (sheets.load raw) (resolved graph sheets (sheets.load raw) planned)
            s1)
        (λ e s1 _. tt)

  -- Where the apply of a table returns, either no item of its result counts as applied or adopted, or the
  -- result says that the table was uploaded and verified, and it was: the file was written and read
  -- again, the verification of what was read found no error in the items that it was given, and as many
  -- items of the result count as applied, and as adopted, as among those.
  pub apply_one_table-Told :
      (planned : List Dict) (s s' : S) (t : TableResult)
      → apply_one_table graph sheets path planned s ≡ (ok t, s')
      → Told t
  apply_one_table-Told planned s s' t h = subst IfTold h (apply_one_table-IfTold planned s)
