-- ===== src/Graph.antt =====
-- The part of the Graph client that the use cases call (app/domain/ports/graph.py): a download and an
-- upload, by the path of a file on the drive. The world and the bytes of a file are parameters.
use automitizacion_hbi_capit.Base.{String, ◌≡◌, false, Option, some, ◌==◌}
use automitizacion_hbi_capit.Effects.{Exn, skipped, error, ok, Act}

-- An upload returns the `webUrl` of its answer, if it has one.
pub record Graph (S B : Type 0) : Type 0 where
  pub get_bytes : String → Act S B
  pub put_bytes : String → B → Act S (Option String)

-- What the code relies on: a download changes nothing and reads what is stored, and an upload that
-- returns has stored its bytes at its path and nowhere else.
pub record IsDrive {S B : Type 0} (content : S → String → Option B) (graph : Graph S B)
    : Type 0 where
  pub get_keeps : (p : String) (s : S) → (graph.get_bytes p s).1 ≡ s
  pub get_reads :
      (p : String) (s : S) (b : B) (s' : S)
      → graph.get_bytes p s ≡ (ok b, s')
      → content s p ≡ some b
  pub put_stores :
      (p : String) (b : B) (s : S) (u : Option String) (s' : S)
      → graph.put_bytes p b s ≡ (ok u, s')
      → content s' p ≡ some b
  pub put_elsewhere :
      (p : String) (b : B) (s : S) (u : Option String) (s' : S) (q : String)
      → graph.put_bytes p b s ≡ (ok u, s')
      → (p == q) ≡ false
      → content s' q ≡ content s q

-- `str(e)`
abbrev pub message : Exn → String
message (skipped r) = "JobExecutionSkipped"
message (error name m) = m
