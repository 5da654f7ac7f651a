-- ===== src/Finalize/Books.antt =====
-- What a line that passes the audit of finalize adds to the sums and to the amounts of the bank
-- (app/application/use_cases/payment_validation_finalize.py).
use automitizacion_hbi_capit.Base.{
  and-false, String, ◌≡◌, refl, sym, ap, ◌∙◌, inl, inr, Bool, true, false, not, ◌&&◌, ◌||◌, Option,
  none, some, List, [], ◌∷◌, if◌then◌else◌, ◌==◌, eq→≡, member, Bool-cases, Option-cases, or_else,
}
use automitizacion_hbi_capit.Base.Signed.{ℤ, ◌+ℤ◌}
use automitizacion_hbi_capit.Json.{Value, money, Dict}
use automitizacion_hbi_capit.Json.Ops.{lookup, insert, contains, lookup-insert}
use automitizacion_hbi_capit.Effects.{ok-injective, ok}
use automitizacion_hbi_capit.Review.{
  cell_text, observacion_col, id_pago_col, monto_banco_col, counters_positive_total,
  is_validar_pago_si,
}
use automitizacion_hbi_capit.Sheets.{safe_float}
use automitizacion_hbi_capit.Finalize.{estado_of, str_or_none, include_in_validation_outputs}
use automitizacion_hbi_capit.Finalize.Lines.{
  counts, total_of, noted, is_positive, cents, Books, with_monto, settle, check_line,
}
use automitizacion_hbi_capit.Finalize.Noted.{guard-ok, noted-total, noted-id, include-noted}
use automitizacion_hbi_capit.Finalize.Audit.{check_line-noted}

abbrev pub id_of : Dict → String
id_of line = str_or_none (lookup id_pago_col line)

-- The lines that count for a payment.
abbrev pub is_of : String → Dict → Bool
is_of k line = include_in_validation_outputs line && id_of line == k

unfoldable pub any_of : String → List Dict → Bool
any_of k [] = false
any_of k (line ∷ lines) = is_of k line || any_of k lines

-- The sum of the totals of the lines that count for a payment, after `z`.
unfoldable pub applied : String → ℤ → List Dict → ℤ
applied k z [] = z
applied k z (line ∷ lines) =
    applied k (if is_of k line then z +ℤ cents (lookup "total_f" line) else z) lines

-- The amount on the first line of a payment.
unfoldable pub first_monto : String → List Dict → Option Value
first_monto k [] = none
first_monto k (line ∷ lines) =
    let rest = first_monto k lines in
    if id_of line == k then some (money (safe_float (lookup monto_banco_col line))) else rest

noted-monto : (dist : Dict) → lookup monto_banco_col (noted dist) ≡ lookup monto_banco_col dist
unfolding noted
noted-monto dist = simp lookup-insert

id_of-noted : (dist : Dict) → id_of (noted dist) ≡ id_of dist
id_of-noted dist = ap str_or_none (noted-id dist)

is_of-noted :
    (k : String) (dist : Dict)
    → is_of k (noted dist) ≡ (counts (estado_of dist) (is_validar_pago_si dist) && id_of dist == k)
is_of-noted k dist = rw (include-noted dist, id_of-noted dist) refl

-- The sum of a payment after the line.
abbrev pub summed : Bool → Option Value → ℤ → Option Value
summed true o t = some (money (cents o +ℤ t))
summed false o t = o

settle-sums :
    (e : String) (vp : Bool) (dist sums sums' : Dict)
    → settle e vp dist sums ≡ ok sums'
    → sums' ≡ (
        if counts e vp
        then insert (id_of dist) (money (cents (lookup (id_of dist) sums) +ℤ total_of dist)) sums
        else sums)
unfolding settle
settle-sums e true dist sums sums' h = elim (Bool-cases (counts e true)) [
  | inl c ↦
      let g =
        guard-ok (not (is_positive (total_of dist))) _ _ sums'
          (rw (and-false (e == "NORMAL" || e == "INCOMPLETO"), c) at h) in
      rw c (sym (ok-injective _ sums' g.1))
  | inr c ↦
      rw c
        (sym (ok-injective _ sums' (rw (and-false (e == "NORMAL" || e == "INCOMPLETO"), c) at h)))
]
settle-sums e false dist sums sums' h =
    rw (and-false (member e counters_positive_total))
      (elim (Bool-cases ((e == "NORMAL" || e == "INCOMPLETO") && true)) [
        | inl q ↦ sym (
            ok-injective _ sums'
              (guard-ok (cell_text (lookup observacion_col dist) == "") _ _ sums' (rw q at h)).1)
        | inr q ↦
            sym (ok-injective _ sums' (rw (q, and-false (member e counters_positive_total)) at h))
      ])

if-summed :
    (k id : String) (b : Bool) (t : ℤ) (sums : Dict)
    → lookup k (if b then insert id (money (cents (lookup id sums) +ℤ t)) sums else sums)
      ≡ summed (b && id == k) (lookup k sums) t
if-summed k id true t sums = elim (Bool-cases (id == k)) [
  | inl q ↦
      rw (lookup-insert id k (money (cents (lookup id sums) +ℤ t)) sums, q)
        (ap (λ j. some (money (cents (lookup j sums) +ℤ t))) (eq→≡ id k q))
  | inr q ↦ rw (lookup-insert id k (money (cents (lookup id sums) +ℤ t)) sums, q) refl
]
if-summed k id false t sums = refl

-- The two books after a line.
abbrev pub Noted : String → Books → Dict → Books → Type 0
Noted k books line books' =
    (lookup k books'.1 ≡ summed (is_of k line) (lookup k books.1) (cents (lookup "total_f" line)))
    × (lookup k books'.0 ≡ or_else (lookup k books.0) (first_monto k (line ∷ [])))

pub or_else-none : (o : Option Value) → or_else o none ≡ o
or_else-none none = refl
or_else-none (some v) = refl

-- `if k not in d: d[k] = v`
insert_new :
    (id k : String) (v : Value) (d : Dict)
    → lookup k (if contains id d then d else insert id v d)
      ≡ or_else (lookup k d) (if id == k then some v else none)
unfolding contains
insert_new id k v d = elim (Bool-cases (id == k)) [
  | inl q ↦ elim (Option-cases (lookup id d)) [
    | inl o ↦ rw (o, lookup-insert id k v d, q, ← eq→≡ id k q, o) refl
    | inr (w, o) ↦ rw (o, q, ← eq→≡ id k q, o) refl
  ]
  | inr q ↦ elim (Option-cases (lookup id d)) [
    | inl o ↦ rw (o, lookup-insert id k v d, q) (sym (or_else-none (lookup k d)))
    | inr (w, o) ↦ rw (o, q) (sym (or_else-none (lookup k d)))
  ]
]

with_monto-lookup :
    (k : String) (dist montos : Dict)
    → lookup k (with_monto (id_of dist) dist montos)
      ≡ or_else (lookup k montos) (first_monto k (dist ∷ []))
unfolding with_monto first_monto
with_monto-lookup k dist montos = insert_new (id_of dist) k _ montos

first-noted :
    (k : String) (dist : Dict) → first_monto k (noted dist ∷ []) ≡ first_monto k (dist ∷ [])
unfolding first_monto
first-noted k dist = rw (id_of-noted dist, noted-monto dist) refl

pub books-after :
    (k : String) (books books' : Books) (dist : Dict)
    → check_line books dist ≡ ok (books', noted dist)
    → Noted k books (noted dist) books'
books-after k books books' dist h =
    let (ce, cl, cs, m, n) = check_line-noted books dist (books', noted dist) h in
    (
      ap (lookup k) (settle-sums _ _ dist books.1 books'.1 cs)
          ∙ if-summed k (id_of dist) (counts (estado_of dist) (is_validar_pago_si dist))
              (total_of dist) books.1
          ∙ (rw (is_of-noted k dist, noted-total dist) refl),
      ap (lookup k) m
          ∙ with_monto-lookup k dist books.0
          ∙ ap (or_else (lookup k books.0)) (sym (first-noted k dist)),
    )
