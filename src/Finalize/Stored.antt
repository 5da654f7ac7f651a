-- ===== src/Finalize/Stored.antt =====
-- What SharePoint holds after a run of finalize
-- (app/application/use_cases/payment_validation_finalize.py).
use automitizacion_hbi_capit.Base.{String, ◌≡◌, refl, ap, ◌∙◌, false, Option, some, List, ◌==◌}
use automitizacion_hbi_capit.Json.{Dict}
use automitizacion_hbi_capit.Effects.{Result, ok, raised, Act, pure, ◌>>=◌, bind_rule}
use automitizacion_hbi_capit.Effects.{bind-ok}
use automitizacion_hbi_capit.Graph.{Graph, IsDrive}
use automitizacion_hbi_capit.Finalize.{Workbook}
use automitizacion_hbi_capit.Finalize.Lines.{Books, audit, count_validated}
use automitizacion_hbi_capit.Finalize.Audit.{AllLines, audit-IsAudited}
use automitizacion_hbi_capit.Finalize.Run.{
  Outcome, drive_item_exists, upload_both, uploaded, write_outputs, write_audited, finalize,
}

module _ {S B : Type 0} (graph : Graph S B) where
  tried-ok :
      (hist sec : String) (r : Result (Option String × Option String) × S)
      (u : Option String × Option String) (s' : S)
      → uploaded graph hist sec r.0 r.1 ≡ (ok u, s')
      → r ≡ (ok u, s')
  tried-ok hist sec (ok a, s0) u s' h = h
  tried-ok hist sec (raised e, s0) u s' h = let x = ap (λ q. q.0) h in cc

module _ {S B : Type 0} (content : S → String → Option B) (graph : Graph S B)
    (drive : IsDrive content graph) where
  both-stored :
      (hist sec : String) (built : B × B) (s : S) (u : Option String × Option String) (s' : S)
      → (sec == hist) ≡ false
      → (graph.put_bytes hist built.0 >>= λ x. graph.put_bytes sec built.1 >>= λ y. pure (x, y)) s
        ≡ (ok u, s')
      → (content s' hist ≡ some built.0) × (content s' sec ≡ some built.1)
  both-stored hist sec built s u s' n h =
      let (x, s1, p, h1) = bind-ok (graph.put_bytes hist built.0) _ s u s' h in
      let (y, s2, q, h2) = bind-ok (graph.put_bytes sec built.1) _ s1 u s' h1 in
      let e = ap (λ r. r.1) h2 in
      rw (← e) (
        drive.put_elsewhere sec built.1 s1 y s2 hist q n ∙ drive.put_stores hist built.0 s x s1 p,
        drive.put_stores sec built.1 s1 y s2 q,
      )

  upload_both-stores :
      (hist sec : String) (built : B × B) (s : S) (u : Option String × Option String) (s' : S)
      → (sec == hist) ≡ false
      → upload_both graph hist sec built s ≡ (ok u, s')
      → (content s' hist ≡ some built.0) × (content s' sec ≡ some built.1)
  unfolding upload_both
  upload_both-stores hist sec built s u s' n h =
      both-stored hist sec built s u s' n (tried-ok graph hist sec _ u s' h)

  module _ (load : B → Workbook) (prepare : B → List Dict → Act S (B × B))
      (register : List Dict → String → Act S (List String)) where
    -- What a run has done if it returns: the two files hold what was built of the lines.
    abbrev WrittenFrom : String → String → B → List Dict → S → Result Outcome × S → Type 0
    WrittenFrom hist sec raw lines s (raised e, s') = Unit {0}
    WrittenFrom hist sec raw lines s (ok o, s') =
        (built : B × B) × (s1 : S) × (prepare raw lines s ≡ (ok built, s1))
        × (content s' hist ≡ some built.0)
        × (content s' sec ≡ some built.1)
        × (o.validated_rows ≡ count_validated lines)

    write_outputs-stores :
        (hist sec : String) (raw : B) (lines : List Dict) (s : S)
        → (sec == hist) ≡ false
        → WrittenFrom hist sec raw lines s
            (write_outputs graph load prepare register hist sec raw lines s)
    unfolding write_outputs
    write_outputs-stores hist sec raw lines s n =
        let P = WrittenFrom hist sec raw lines s in
        bind_rule (λ r. prepare raw lines s ≡ r) P (prepare raw lines) _ s refl
          (λ built s1 p.
            bind_rule (λ _. Unit {0}) P (drive_item_exists graph hist) _ s1 tt
              (λ a s2 _.
                bind_rule (λ _. Unit {0}) P (drive_item_exists graph sec) _ s2 tt
                  (λ b s3 _.
                    bind_rule (λ _. Unit {0}) P (register lines hist) _ s3 tt
                      (λ w s4 _.
                        bind_rule (λ r. upload_both graph hist sec built s4 ≡ r) P
                          (upload_both graph hist sec built) _ s4 refl
                          (λ u s5 v.
                            let c = upload_both-stores hist sec built s4 u s5 n v in
                            (built, s1, p, c.0, c.1, refl))
                          (λ e s5 _. tt))
                      (λ e s4 _. tt))
                  (λ e s3 _. tt))
              (λ e s2 _. tt))
          (λ e s1 _. tt)

    -- What a run has done if it returns: it has audited the lines of the workbook that it read, and
    -- written what was built of them.
    abbrev pub Finished : String → String → String → S → Result Outcome × S → Type 0
    Finished file_path hist sec s (raised e, s') = Unit {0}
    Finished file_path hist sec s (ok o, s') =
        (raw : B) × (r : Books × List Dict) × (s0 : S) × (graph.get_bytes file_path s
          ≡ (ok raw, s0))
        × (audit (load raw) ≡ ok r)
        × AllLines r.1
        × WrittenFrom hist sec raw r.1 s0 (ok o, s')

    Finished-from :
        (file_path hist sec : String) (s : S) (raw : B) (r : Books × List Dict) (s0 : S)
        (q : Result Outcome × S)
        → graph.get_bytes file_path s ≡ (ok raw, s0)
        → audit (load raw) ≡ ok r
        → WrittenFrom hist sec raw r.1 s0 q
        → Finished file_path hist sec s q
    Finished-from file_path hist sec s raw r s0 (ok o, s') g a w =
        (raw, r, s0, g, a, audit-IsAudited (load raw) r a, w)
    Finished-from file_path hist sec s raw r s0 (raised e, s') g a w = tt

    write_audited-Finished :
        (file_path hist sec : String) (s0 : S) (raw : B) (a : Result (Books × List Dict)) (s : S)
        → graph.get_bytes file_path s0 ≡ (ok raw, s)
        → (sec == hist) ≡ false
        → audit (load raw) ≡ a
        → Finished file_path hist sec s0
            (write_audited graph load prepare register hist sec raw a s)
    write_audited-Finished file_path hist sec s0 raw (ok r) s g n e =
        Finished-from file_path hist sec s0 raw r s _ g e
          (write_outputs-stores hist sec raw r.1 s n)
    write_audited-Finished file_path hist sec s0 raw (raised x) s g n e = tt

    -- Where a download changes nothing and an upload that returns has stored its bytes at its path and
    -- nowhere else, and the two files have different paths, a run of finalize that returns has read the
    -- workbook at the path of the review, which the audit passes, with the lines as the audit asks for
    -- them, and leaves the historical file and the secretary's with what was built of that workbook and
    -- those lines, of which it returns the number that count.
    pub finalize-Finished :
        (file_path hist sec : String) (s : S)
        → (sec == hist) ≡ false
        → Finished file_path hist sec s (finalize graph load prepare register file_path hist sec s)
    unfolding finalize
    finalize-Finished file_path hist sec s n =
        bind_rule (λ q. graph.get_bytes file_path s ≡ q) (Finished file_path hist sec s)
          (graph.get_bytes file_path) _ s refl
          (λ raw s1 g.
            write_audited-Finished file_path hist sec s raw (audit (load raw)) s1 g n refl)
          (λ e s1 _. tt)
