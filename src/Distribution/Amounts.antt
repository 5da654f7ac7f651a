-- ===== src/Distribution/Amounts.antt =====
-- Where the amount of a payment stands in the review workbook, when it is on its first line only
-- (app/application/use_cases/payment_validation_generate.py).
use automitizacion_hbi_capit.Base.{
  String, ◌≡◌, refl, ap, ◌∙◌, ◌⊎◌, inl, inr, Bool, true, false, Option, some, List, [], ◌∷◌,
  if◌then◌else◌, ◌==◌, eq_iff, eq_refl, eq→≡, arith, member, Bool-cases,
}
use automitizacion_hbi_capit.Json.{Value, null, Dict}
use automitizacion_hbi_capit.Json.Ops.{lookup, insert, lookup-insert}
use automitizacion_hbi_capit.Review.{id_pago_col, monto_banco_col}
use automitizacion_hbi_capit.Distribution.{pid_of, leading_from, monto_only_leading_rows}

-- The amounts on the lines of one payment, in their order.
unfoldable pub cells : String → List Dict → List (Option Value)
cells k [] = []
cells k (row ∷ rows) =
    let rest = cells k rows in if pid_of row == k then lookup monto_banco_col row ∷ rest else rest

abbrev pub cleared : List (Option Value) → List (Option Value)
cleared [] = []
cleared (v ∷ vs) = some null ∷ cleared vs

abbrev pub first_kept : List (Option Value) → List (Option Value)
first_kept [] = []
first_kept (v ∷ vs) = v ∷ cleared vs

-- A column of the workbook.
abbrev pub column : String → List Dict → List (Option Value)
column j [] = []
column j (row ∷ rows) = lookup j row ∷ column j rows

pid-cleared : (row : Dict) → pid_of (insert monto_banco_col null row) ≡ pid_of row
pid-cleared row = rw (lookup-insert monto_banco_col id_pago_col null row) refl

monto-cleared : (row : Dict) → lookup monto_banco_col (insert monto_banco_col null row) ≡ some null
monto-cleared row = rw (lookup-insert monto_banco_col monto_banco_col null row) refl

cells-skip :
    (k : String) (row : Dict) (rows : List Dict)
    → (pid_of row == k) ≡ false
    → cells k (row ∷ rows) ≡ cells k rows
unfolding cells
cells-skip k row rows h = rw h refl

cells-take :
    (k : String) (row : Dict) (rows : List Dict)
    → (pid_of row == k) ≡ true
    → cells k (row ∷ rows) ≡ lookup monto_banco_col row ∷ cells k rows
unfolding cells
cells-take k row rows h = rw h refl

-- What becomes of the amounts of a payment that has been seen, or has not.
abbrev kept : Bool → List (Option Value) → List (Option Value)
kept true vs = cleared vs
kept false vs = first_kept vs

leading-blank :
    (seen : List String) (row : Dict) (rows : List Dict)
    → (pid_of row == "") ≡ true
    → leading_from seen (row ∷ rows) ≡ row ∷ leading_from seen rows
unfolding leading_from
leading-blank seen row rows h = rw h refl

leading-seen :
    (seen : List String) (row : Dict) (rows : List Dict)
    → (pid_of row == "") ≡ false
    → member (pid_of row) seen ≡ true
    → leading_from seen (row ∷ rows) ≡ insert monto_banco_col null row ∷ leading_from seen rows
unfolding leading_from
leading-seen seen row rows h m = rw (h, m) refl

leading-new :
    (seen : List String) (row : Dict) (rows : List Dict)
    → (pid_of row == "") ≡ false
    → member (pid_of row) seen ≡ false
    → leading_from seen (row ∷ rows) ≡ row ∷ leading_from (pid_of row ∷ seen) rows
unfolding leading_from
leading-new seen row rows h m = rw (h, m) refl

-- A test on texts in either order.
eq-false_flip : (s t : String) → (s == t) ≡ false → (t == s) ≡ false
eq-false_flip s t h = ground (arith, eq_iff s t, eq_iff t s)

differ_blank : (s k : String) → (k == "") ≡ false → (s == k) ≡ true → (s == "") ≡ false
differ_blank s k h e = ground (arith, eq_iff s k, eq_iff s "", eq_iff k "")

own_seen :
    (k : String) (seen : List String) (row : Dict) (rows : List Dict)
    → (k == "") ≡ false
    → (pid_of row == k) ≡ true
    → member k seen ≡ true
    → cells k (leading_from seen (row ∷ rows)) ≡ some null ∷ cells k (leading_from seen rows)
own_seen k seen row rows hk e m =
    let p = eq→≡ (pid_of row) k e in
    rw
      (leading-seen seen row rows (differ_blank (pid_of row) k hk e)
        (ap (λ t. member t seen) p ∙ m))
      (cells-take k _ (leading_from seen rows) (ap (λ t. t == k) (pid-cleared row) ∙ e)
        ∙ ap (λ v. v ∷ cells k (leading_from seen rows)) (monto-cleared row))

own_new :
    (k : String) (seen : List String) (row : Dict) (rows : List Dict)
    → (k == "") ≡ false
    → (pid_of row == k) ≡ true
    → member k seen ≡ false
    → cells k (leading_from seen (row ∷ rows))
      ≡ lookup monto_banco_col row ∷ cells k (leading_from (k ∷ seen) rows)
own_new k seen row rows hk e m =
    let p = eq→≡ (pid_of row) k e in
    rw
      (leading-new seen row rows (differ_blank (pid_of row) k hk e) (ap (λ t. member t seen) p ∙ m))
      (cells-take k row _ e
        ∙ ap (λ t. lookup monto_banco_col row ∷ cells k (leading_from (t ∷ seen) rows)) p)

-- The lines of other payments do not show.
other_line :
    (k : String) (seen : List String) (row : Dict) (rows : List Dict)
    → (pid_of row == k) ≡ false
    → (cells k (leading_from seen (row ∷ rows)) ≡ cells k (leading_from seen rows))
      ⊎ (cells k (leading_from seen (row ∷ rows)) ≡ cells k (leading_from (pid_of row ∷ seen) rows))
other_line k seen row rows n = elim (Bool-cases (pid_of row == "")) [
  | inl b ↦ inl (rw (leading-blank seen row rows b) (cells-skip k row _ n))
  | inr b ↦ elim (Bool-cases (member (pid_of row) seen)) [
    | inl m ↦ inl (
        rw (leading-seen seen row rows b m)
          (cells-skip k _ (leading_from seen rows) (ap (λ t. t == k) (pid-cleared row) ∙ n)))
    | inr m ↦ inr (rw (leading-new seen row rows b m) (cells-skip k row _ n))
  ]
]

member-other :
    (k t : String) (seen : List String) → (t == k) ≡ false → member k (t ∷ seen) ≡ member k seen
member-other k t seen n = rw (eq-false_flip t k n) refl

member_self : (k : String) (seen : List String) → member k (k ∷ seen) ≡ true
member_self k seen = rw (eq_refl k) refl

cells-leading_from :
    (k : String)
    → (k == "") ≡ false
    → (seen : List String) (rows : List Dict)
    → cells k (leading_from seen rows) ≡ kept (member k seen) (cells k rows)
unfolding leading_from cells
cells-leading_from k hk seen [] = elim (Bool-cases (member k seen)) [
  | inl m ↦ rw m refl
  | inr m ↦ rw m refl
]
cells-leading_from k hk seen (row ∷ rows) = elim (Bool-cases (pid_of row == k)) [
  | inl e ↦ rw (cells-take k row rows e) (elim (Bool-cases (member k seen)) [
    | inl m ↦ rw m (
        own_seen k seen row rows hk e m
        ∙ ap (λ vs. some null ∷ vs)
            (cells-leading_from k hk seen rows ∙ ap (λ b. kept b (cells k rows)) m))
    | inr m ↦ rw m (
        own_new k seen row rows hk e m
        ∙ ap (λ vs. lookup monto_banco_col row ∷ vs)
            (cells-leading_from k hk (k ∷ seen) rows
              ∙ ap (λ b. kept b (cells k rows)) (member_self k seen)))
  ])
  | inr n ↦ rw (cells-skip k row rows n) (elim (other_line k seen row rows n) [
    | inl q ↦ q ∙ cells-leading_from k hk seen rows
    | inr q ↦
        q
        ∙ cells-leading_from k hk (pid_of row ∷ seen) rows
        ∙ ap (λ b. kept b (cells k rows)) (member-other k (pid_of row) seen n)
  ])
]

column-leading_from :
    (j : String)
    → (monto_banco_col == j) ≡ false
    → (seen : List String) (rows : List Dict) → column j (leading_from seen rows) ≡ column j rows
unfolding leading_from
column-leading_from j h seen [] = refl
column-leading_from j h seen (row ∷ rows) = elim (Bool-cases (pid_of row == "")) [
  | inl b ↦ rw b (ap (λ vs. lookup j row ∷ vs) (column-leading_from j h seen rows))
  | inr b ↦ elim (Bool-cases (member (pid_of row) seen)) [
    | inl m ↦
        rw (b, m, lookup-insert monto_banco_col j null row, h)
          (ap (λ vs. lookup j row ∷ vs) (column-leading_from j h seen rows))
    | inr m ↦
        rw (b, m) (ap (λ vs. lookup j row ∷ vs) (column-leading_from j h (pid_of row ∷ seen) rows))
  ]
]

-- The first line of a payment that has an ID keeps its amount, its other lines hold none, and no other
-- column of the workbook changes.
pub monto_only_leading_rows-first_kept :
    (rows : List Dict)
    → ((k : String)
        → (k == "") ≡ false
        → cells k (monto_only_leading_rows rows) ≡ first_kept (cells k rows))
      × ((j : String)
          → (monto_banco_col == j) ≡ false
          → column j (monto_only_leading_rows rows) ≡ column j rows)
unfolding monto_only_leading_rows
monto_only_leading_rows-first_kept rows =
    ((λ k hk. cells-leading_from k hk [] rows), λ j h. column-leading_from j h [] rows)
