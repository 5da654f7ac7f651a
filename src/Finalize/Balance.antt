-- ===== src/Finalize/Balance.antt =====
-- What the totals of a workbook are to the amounts of the bank, once the audit of finalize passes
-- (app/application/use_cases/payment_validation_finalize.py).
use automitizacion_hbi_capit.Base.{
  and-false, or-false, ◌≤◌, String, ◌≡◌, refl, sym, ap, ◌∙◌, inl, inr, Bool, true, false, ◌||◌,
  Option, none, some, List, [], ◌∷◌, if◌then◌else◌, ◌==◌, eq→≡, arith, Bool-cases, or_else,
}
use automitizacion_hbi_capit.Base.Signed.{ℤ, pos, ◌+ℤ◌, ◌-ℤ◌}
use automitizacion_hbi_capit.Json.{Value, Dict, empty, entry}
use automitizacion_hbi_capit.Json.Ops.{lookup}
use automitizacion_hbi_capit.Effects.{ok-injective, ok}
use automitizacion_hbi_capit.Json.Ops.{is_some}
use automitizacion_hbi_capit.Finalize.{Workbook, montos_of, include_in_validation_outputs}
use automitizacion_hbi_capit.Finalize.Lines.{
  noted, cents, Books, check_lines, audit, check_sums, is_mismatch, abs, dists_of,
}
use automitizacion_hbi_capit.Finalize.Noted.{guard-ok}
use automitizacion_hbi_capit.Finalize.Audit.{check_lines-cons, audit-parts}
use automitizacion_hbi_capit.Finalize.Books.{
  id_of, is_of, any_of, applied, first_monto, summed, books-after, or_else-none, Noted,
}

-- The two books after some lines.
record Totals (k : String) (books : Books) (lines : List Dict) (books' : Books) : Type 0 where
  pub sum : cents (lookup k books'.1) ≡ applied k (cents (lookup k books.1)) lines
  pub present : is_some (lookup k books'.1) ≡ (is_some (lookup k books.1) || any_of k lines)
  pub monto : lookup k books'.0 ≡ or_else (lookup k books.0) (first_monto k lines)

summed-cents :
    (b : Bool) (o : Option Value) (t : ℤ)
    → cents (summed b o t) ≡ (if b then cents o +ℤ t else cents o)
summed-cents true o t = refl
summed-cents false o t = refl

summed-present : (b : Bool) (o : Option Value) (t : ℤ) → is_some (summed b o t) ≡ (is_some o || b)
summed-present true none t = refl
summed-present true (some v) t = refl
summed-present false o t = sym (or-false (is_some o))

or_assoc : (a b c : Bool) → ((a || b) || c) ≡ (a || (b || c))
or_assoc true b c = refl
or_assoc false b c = refl

first_monto-cons :
    (k : String) (line : Dict) (lines : List Dict) (o : Option Value)
    → or_else (or_else o (first_monto k (line ∷ []))) (first_monto k lines)
      ≡ or_else o (first_monto k (line ∷ lines))
unfolding first_monto
first_monto-cons k line lines (some v) = refl
first_monto-cons k line lines none = elim (Bool-cases (id_of line == k)) [
  | inl q ↦ rw q refl
  | inr q ↦ rw q refl
]

Totals-nil : (k : String) (books : Books) → Totals k books [] books
unfolding applied any_of first_monto
Totals-nil k books = record {
  sum = refl;
  present = sym (or-false (is_some (lookup k books.1)));
  monto = sym (or_else-none (lookup k books.0));
}

Totals-cons :
    (k : String) (books books' books'' : Books) (line : Dict) (lines : List Dict)
    → Noted k books line books'
    → Totals k books' lines books''
    → Totals k books (line ∷ lines) books''
unfolding applied any_of
Totals-cons k books books' books'' line lines n t = record {
  sum =
      t.sum
      ∙ ap (λ z. applied k z lines)
          (ap cents n.0
            ∙ summed-cents (is_of k line) (lookup k books.1) (cents (lookup "total_f" line)));
  present =
      t.present
      ∙ ap (λ b. b || any_of k lines)
          (ap is_some n.0
            ∙ summed-present (is_of k line) (lookup k books.1) (cents (lookup "total_f" line)))
      ∙ or_assoc (is_some (lookup k books.1)) (is_of k line) (any_of k lines);
  monto =
      t.monto
      ∙ ap (λ o. or_else o (first_monto k lines)) n.1
      ∙ first_monto-cons k line lines (lookup k books.0);
}

check_lines-Totals :
    (k : String) (books : Books) (dists : List Dict) (r : Books × List Dict)
    → check_lines books dists ≡ ok r
    → Totals k books r.1 r.0
unfolding check_lines
check_lines-Totals k books [] r h = rw (sym (ok-injective _ r h)) (Totals-nil k books)
check_lines-Totals k books (dist ∷ dists) r h =
    let (b, lines, hl, hr, e) = check_lines-cons books dist dists r h in
    rw e (
      Totals-cons k books b r.0 (noted dist) lines (books-after k books b dist hl)
        (check_lines-Totals k b dists (r.0, lines) hr))

some-injective : (v w : Value) → Path (Option Value) (some v) (some w) → v ≡ w
some-injective v w h = cc

-- Each sum has been compared.
sums-checked :
    (montos sums : Dict) (k : String) (v : Value)
    → check_sums montos sums ≡ ok tt
    → lookup k sums ≡ some v
    → is_mismatch (cents (some v)) (lookup k montos) ≡ false
unfolding check_sums lookup
sums-checked montos empty k v h e = cc
sums-checked montos (entry j w sums) k v h e =
    let g = guard-ok (is_mismatch (cents (some w)) (lookup j montos)) _ _ tt h in
    elim (Bool-cases (j == k)) [
      | inl q ↦ rw (← eq→≡ j k q) (
          ap (λ u. is_mismatch (cents (some u)) (lookup j montos))
            (sym (some-injective w v (rw q at e)))
          ∙ g.0)
      | inr q ↦ sums-checked montos sums k v g.1 (rw q at e)
    ]

any-first :
    (k : String) (lines : List Dict) → any_of k lines ≡ true → is_some (first_monto k lines) ≡ true
unfolding any_of first_monto
any-first k [] h = h
any-first k (line ∷ lines) h = elim (Bool-cases (id_of line == k)) [
  | inl q ↦ rw q refl
  | inr q ↦ rw q (any-first k lines (rw (q, and-false (include_in_validation_outputs line)) at h))
]

some-or : (o p : Option Value) → is_some p ≡ true → is_some (or_else o p) ≡ true
some-or none p h = h
some-or (some v) p h = refl

some-of : (o : Option Value) → is_some o ≡ true → (v : Value) × (o ≡ some v)
some-of none h = cc
some-of (some v) h = (v, refl)

close :
    (z : ℤ) (o : Option Value) → is_some o ≡ true → is_mismatch z o ≡ false → abs (z -ℤ cents o) ≤ 1
close z none h m = cc
close z (some v) h m = ground arith

-- For each payment with a line that counts, in a workbook that the audit passes, the totals of those
-- lines add up, to within one cent, to the amount of the payment in the table of the payments, or
-- where the table has none, to the amount on the payment's first line.
pub audit-balanced :
    (wb : Workbook) (montos : Dict) (r : Books × List Dict) (k : String)
    → montos_of wb.casos_pago ≡ ok montos
    → audit wb ≡ ok r
    → any_of k r.1 ≡ true
    → abs (applied k (pos 0) r.1 -ℤ cents (or_else (lookup k montos) (first_monto k r.1))) ≤ 1
unfolding lookup
audit-balanced wb montos r k hm h a =
    let (c, montos', rows, hc, hm', hl, hs) = audit-parts wb r h in
    let m = ok-injective montos' montos (sym hm' ∙ hm) in
    let t = check_lines-Totals k (montos', empty) (dists_of rows) r hl in
    let (v, hv) = some-of (lookup k r.0.1) (t.present ∙ a) in
    let x = sums-checked r.0.0 r.0.1 k v hs hv in
    let y = t.monto ∙ ap (λ d. or_else (lookup k d) (first_monto k r.1)) m in
    let z = ap cents (sym hv) ∙ t.sum in
    close (applied k (pos 0) r.1) _
      (some-or (lookup k montos) (first_monto k r.1) (any-first k r.1 a)) (rw (z, y) at x)
