-- ===== src/Review/Migration.antt =====
-- What the migration of a line of an old workbook gives (app/application/services/review_schema.py).
use automitizacion_hbi_capit.Base.{
  String, ◌≡◌, refl, sym, ap, ◌∙◌, inl, inr, Bool, true, false, ◌||◌, Option, none, some, [], ◌∷◌,
  if◌then◌else◌, ◌==◌, eq→≡, member, Bool-cases,
}
use automitizacion_hbi_capit.Base.Texts.{strip, upper}
use automitizacion_hbi_capit.Json.{Value, text, Dict}
use automitizacion_hbi_capit.Json.Ops.{lookup, lookup-insert}
use automitizacion_hbi_capit.Base.{all_members, eq→≡, ◌∙◌, sym, ap}
use automitizacion_hbi_capit.Json.Ops.{lookup-insert}
use automitizacion_hbi_capit.Review.{
  estado_pago_col, validar_pago_col, allowed_estados, cell_text, normalize_validar_pago,
  legacy_estado_to_pair, with_pair, or_no, migrate_by, apply_legacy_estado_migration,
}

-- A line whose two columns hold one of the states and SI or NO, spelled as the code spells them.
pub record IsCanonical (row : Dict) : Type 0 where
  pub estado : String
  pub validar : String
  pub estado_allowed : member estado allowed_estados ≡ true
  pub validar_known : member validar ("SI" ∷ "NO" ∷ []) ≡ true
  pub estado_cell : lookup estado_pago_col row ≡ some (text estado)
  pub validar_cell : lookup validar_pago_col row ≡ some (text validar)

-- The state that a line names, and whether the migration knows it.
abbrev pub token_of : Dict → String
token_of row = upper (cell_text (lookup estado_pago_col row))

abbrev pub is_pair : Option (String × String) → Bool
is_pair none = false
is_pair (some _) = true

abbrev pub is_known : String → Bool
is_known token = member token allowed_estados || is_pair (legacy_estado_to_pair token)

with_pair-IsCanonical :
    (e v : String) (row : Dict)
    → member e allowed_estados ≡ true
    → member v ("SI" ∷ "NO" ∷ []) ≡ true
    → IsCanonical (with_pair e v row)
with_pair-IsCanonical e v row he hv = record {
  estado = e;
  validar = v;
  estado_allowed = he;
  validar_known = hv;
  estado_cell = simp lookup-insert;
  validar_cell = simp lookup-insert;
}

normalize_known :
    (raw : Option Value) → member (or_no (normalize_validar_pago raw)) ("SI" ∷ "NO" ∷ []) ≡ true
unfolding normalize_validar_pago
normalize_known raw =
    elim (Bool-cases
      (member (upper (cell_text raw)) ("SI" ∷ "SÍ" ∷ "YES" ∷ "TRUE" ∷ "1" ∷ "Y" ∷ []))) [
        | inl y ↦ rw y refl
        | inr n ↦
            elim (Bool-cases (member (upper (cell_text raw)) ("NO" ∷ "N" ∷ "FALSE" ∷ "0" ∷ []))) [
              | inl m ↦ rw (n, m) refl
              | inr m ↦ rw (n, m) refl
            ]
      ]

-- The pairs of the table are canonical.
abbrev IsPair : Option (String × String) → Type 0
IsPair none = Unit {0}
IsPair (some p) = (member p.0 allowed_estados ≡ true) × (member p.1 ("SI" ∷ "NO" ∷ []) ≡ true)

if-IsPair :
    (b : Bool) (p q : Option (String × String)) → IsPair p → IsPair q → IsPair (if b then p else q)
if-IsPair true p q hp hq = hp
if-IsPair false p q hp hq = hq

legacy-IsPair : (token : String) → IsPair (legacy_estado_to_pair token)
unfolding legacy_estado_to_pair
legacy-IsPair token =
    if-IsPair (token == "VALIDAR") _ _ (refl, refl)
      (if-IsPair (token == "VALIDAR_PARCIAL") _ _ (refl, refl)
        (if-IsPair (token == "REPROGRAMAR") _ _ (refl, refl)
          (if-IsPair (token == "NO_VALIDAR") _ _ (refl, refl)
            (if-IsPair (token == "PENDIENTE_MORA") _ _ (refl, refl)
              (if-IsPair (token == "REVISION_MANUAL") _ _ (refl, refl) tt)))))

migrate_by-IsCanonical :
    (p : Option (String × String)) (raw vp : String) (row : Dict)
    → IsPair p
    → is_pair p ≡ true
    → IsCanonical (migrate_by p raw vp row)
migrate_by-IsCanonical none raw vp row i h = cc
migrate_by-IsCanonical (some (e, v)) raw vp row i h = with_pair-IsCanonical e v row i.0 i.1

migrated-IsCanonical :
    (row : Dict) → is_known (token_of row) ≡ true → IsCanonical (apply_legacy_estado_migration row)
unfolding apply_legacy_estado_migration
migrated-IsCanonical row h = elim (Bool-cases (member (token_of row) allowed_estados)) [
  | inl a ↦ rw a (with_pair-IsCanonical _ _ row a (normalize_known (lookup validar_pago_col row)))
  | inr n ↦ rw n (
      migrate_by-IsCanonical (legacy_estado_to_pair (token_of row)) _ _ row
        (legacy-IsPair (token_of row)) (rw n at h))
]

-- The spellings that the code writes are read back as they are.
allowed-token :
    (e : String) → member e allowed_estados ≡ true → upper (cell_text (some (text e))) ≡ e
unfolding cell_text upper strip
allowed-token =
    all_members (λ e. upper (cell_text (some (text e))) ≡ e) allowed_estados
      (refl, (refl, (refl, (refl, (refl, tt)))))

validar-read :
    (v : String)
    → member v ("SI" ∷ "NO" ∷ []) ≡ true
    → or_no (normalize_validar_pago (some (text v))) ≡ v
unfolding normalize_validar_pago cell_text upper strip
validar-read =
    all_members (λ v. or_no (normalize_validar_pago (some (text v))) ≡ v) ("SI" ∷ "NO" ∷ [])
      (refl, (refl, tt))

lookup-with_pair :
    (e v k : String) (row : Dict)
    → lookup estado_pago_col row ≡ some (text e)
    → lookup validar_pago_col row ≡ some (text v)
    → lookup k (with_pair e v row) ≡ lookup k row
lookup-with_pair e v k row he hv =
    rw (lookup-insert validar_pago_col k, lookup-insert estado_pago_col k)
      (elim (Bool-cases (validar_pago_col == k)) [
        | inl a ↦ rw a (rw (← eq→≡ validar_pago_col k a) (sym hv))
        | inr n ↦ elim (Bool-cases (estado_pago_col == k)) [
          | inl b ↦ rw (n, b) (rw (← eq→≡ estado_pago_col k b) (sym he))
          | inr m ↦ rw (n, m) refl
        ]
      ])

pub canonical-fixed :
    (row : Dict)
    → IsCanonical row
    → (k : String) → lookup k (apply_legacy_estado_migration row) ≡ lookup k row
unfolding apply_legacy_estado_migration
canonical-fixed row c k =
    let t = ap (λ o. upper (cell_text o)) c.estado_cell ∙ allowed-token c.estado c.estado_allowed in
    let v =
      ap (λ o. or_no (normalize_validar_pago o)) c.validar_cell
      ∙ validar-read c.validar c.validar_known in
    rw (t, c.estado_allowed, v)
      (lookup-with_pair c.estado c.validar k row c.estado_cell c.validar_cell)

-- A line whose state the migration knows, of today or of old, comes out with one of the states and SI
-- or NO, and a second migration changes no column of it.
pub apply_legacy_estado_migration-IsCanonical :
    (row : Dict)
    → is_known (token_of row) ≡ true
    → let row' = apply_legacy_estado_migration row in
      IsCanonical row'
      × ((k : String) → lookup k (apply_legacy_estado_migration row') ≡ lookup k row')
apply_legacy_estado_migration-IsCanonical row h =
    let c = migrated-IsCanonical row h in (c, canonical-fixed _ c)
