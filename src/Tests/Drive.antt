-- ===== src/Tests/Drive.antt =====
-- A drive in memory, which shows that what is assumed of the Graph client can hold
-- (app/domain/ports/graph.py).
use automitizacion_hbi_capit.Base.{
  String, ◌≡◌, refl, sym, ap, ◌∙◌, Option, none, some, ◌==◌, eq_refl,
}
use automitizacion_hbi_capit.Effects.{error, Result, ok, raised}
use automitizacion_hbi_capit.Effects.{assign, ok-injective}
use automitizacion_hbi_capit.Graph.{Graph, IsDrive}

-- The files, by their paths.
abbrev pub Files : Type 0 → Type 0
Files B = String → Option B

abbrev found : {B : Type 0} → Option B → Result B
found none = raised (error "HTTPStatusError" "404")
found (some b) = ok b

abbrev pub memory : (B : Type 0) → Graph (Files B) B
memory B = record {
  get_bytes = λ p s. (found (s p), s);
  put_bytes = λ p b s. (ok none, assign (λ q r. q == r) p (some b) s);
}

found-some : {B : Type 0} (o : Option B) (b : B) → found o ≡ ok b → o ≡ some b
found-some none b h = absurd (cc h)
found-some (some a) b h = ap some (ok-injective a b h)

pub memory-IsDrive : (B : Type 0) → IsDrive (λ s p. s p) (memory B)
memory-IsDrive B = record {
  get_keeps = λ p s. refl;
  get_reads = λ p s b s' h. found-some (s p) b (ap (λ q. q.0) h);
  put_stores = λ p b s u s' h. ap (λ q. q.1 p) (sym h) ∙ rw (eq_refl p) refl;
  put_elsewhere = λ p b s u s' q h n. ap (λ r. r.1 q) (sym h) ∙ rw n refl;
}
