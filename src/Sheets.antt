-- ===== src/Sheets.antt =====
-- The sheets of the review workbook as app/application/use_cases/payment_validation_finalize.py reads
-- them: rows of cells, a table under the row of its headers, and the amounts in cells. A number text
-- is a sign and decimals; exponents, "inf", "nan" and digits joined by "_" are left out, and a third
-- decimal is dropped.
use automitizacion_hbi_capit.Base.{
  ℕ, zero, suc, ◌+◌, ◌-◌, ◌*◌, String, Bool, true, false, ◌&&◌, ◌||◌, Option, none, some, List, [],
  ◌∷◌, if◌then◌else◌, ◌==◌, leb, eqb, or_else,
}
use automitizacion_hbi_capit.Base.Signed.{ℤ, pos, negsuc}
use automitizacion_hbi_capit.Base.Texts.{strip}
use automitizacion_hbi_capit.Json.{Value, null, bool, num, money, text, Dict, empty, truthy}
use automitizacion_hbi_capit.Json.Ops.{insert}
use automitizacion_hbi_capit.Effects.{Exn, error, Result, ok, raised}
use mathlib.Core.Option.{map as option_map}
use Prim.Native.Char.{Char, code}
use Prim.Native.String.{◌++◌ as ◌+++◌}
use automitizacion_hbi_capit.Review.{str_of, cell_text}

abbrev pub Row : Type 0
Row = List Value

abbrev pub Sheet : Type 0
Sheet = List Row

-- `str(row[0]).strip() == marker` of a row that is not empty
abbrev starts_with : String → Row → Bool
starts_with marker [] = false
starts_with marker (v ∷ row) = strip (str_of v) == marker

abbrev or_raise {ℓ} : {A : Type ℓ} → Exn → Option A → Result A
or_raise e none = raised e
or_raise e (some a) = ok a

-- The rows are counted from 1.
unfoldable pub header_from : String → ℕ → Sheet → Option ℕ
unfolding str_of strip
header_from marker i [] = none
header_from marker i (row ∷ rows) =
    let rest = header_from marker (suc i) rows in if starts_with marker row then some i else rest

unfoldable pub find_table_header_row : Sheet → String → Result ℕ
unfolding header_from strip
find_table_header_row sheet marker =
    or_raise (error "ValueError" "missing_sheet_headers") (header_from (strip marker) 1 sheet)

-- `any(row)`
abbrev pub any_cell : Row → Bool
any_cell [] = false
any_cell (v ∷ row) = truthy v || any_cell row

-- `[str(v).strip() if v else "" for v in row]`
unfoldable pub header_texts : Row → List String
unfolding cell_text
header_texts [] = []
header_texts (v ∷ row) = cell_text (some v) ∷ header_texts row

-- `dict(zip(headers, row))`, after `d`
unfoldable pub zip_dict : List String → Row → Dict → Dict
unfolding insert
zip_dict [] row d = d
zip_dict (h ∷ headers) [] d = d
zip_dict (h ∷ headers) (v ∷ row) d = zip_dict headers row (insert h v d)

-- The loop over the rows of a sheet: those above the headers and the empty ones are left out, and the
-- others come with their number.
unfoldable pub table_rows : ℕ → ℕ → List String → Sheet → List (ℕ × Dict)
unfolding header_texts zip_dict
table_rows header i headers [] = []
table_rows header i headers (row ∷ rows) =
    let headers' = if eqb i header then header_texts row else headers in
    let rest = table_rows header (suc i) headers' rows in
    if leb i header
    then rest
    else if any_cell row
    then (i, zip_dict headers row empty) ∷ rest
    else rest

-- The table whose header row starts with `marker`.
unfoldable pub read_table : String → Sheet → Result (List (ℕ × Dict))
unfolding find_table_header_row table_rows
read_table marker sheet = elim (find_table_header_row sheet marker) [
  | ok header ↦ ok (table_rows header 1 [] sheet)
  | raised e ↦ raised e
]

-- `float` on a text, in cents.
abbrev is_digit : Char → Bool
is_digit c = leb 48 (code c) && leb (code c) 57

abbrev weight : ℕ → ℕ
weight zero = 10
weight (suc zero) = 1
weight (suc (suc i)) = 0

unfoldable fraction : String → ℕ → ℕ → Bool → Option ℕ
fraction String.[] i n seen = if seen then some n else none
fraction (String.◌∷◌ c s) i n seen =
    let rest = fraction s (suc i) (n + weight i * (code c - 48)) true in
    if is_digit c then rest else none

unfoldable whole : String → ℕ → Bool → Option ℕ
unfolding fraction
whole String.[] n seen = if seen then some (n * 100) else none
whole (String.◌∷◌ c s) n seen =
    let rest = whole s (n * 10 + (code c - 48)) true in
    if is_digit c then rest else if eqb (code c) 46 then fraction s 0 (n * 100) seen else none

abbrev negate : ℕ → ℤ
negate zero = pos 0
negate (suc n) = negsuc n

unfoldable signed : String → Option ℤ
unfolding whole
signed String.[] = none
signed (String.◌∷◌ c s) =
    if eqb (code c) 45
    then option_map negate (whole s 0 false)
    else if eqb (code c) 43
    then option_map pos (whole s 0 false)
    else option_map pos (whole (String.◌∷◌ c s) 0 false)

unfoldable pub float_of_text : String → Option ℤ
unfolding signed strip
float_of_text t = signed (strip t)

-- `t.replace(".", "").replace(",", ".")`
unfoldable pub from_comma : String → String
from_comma String.[] = String.[]
from_comma (String.◌∷◌ c s) =
    let rest = from_comma s in
    if eqb (code c) 46 then rest else if eqb (code c) 44 then "." +++ rest else String.◌∷◌ c rest

-- `float(v or 0)`
unfoldable pub float_of : Option Value → Result ℤ
unfolding float_of_text
float_of none = ok (pos 0)
float_of (some null) = ok (pos 0)
float_of (some (bool b)) = ok (pos (if b then 100 else 0))
float_of (some (num n)) = ok (pos (n * 100))
float_of (some (money z)) = ok z
float_of (some (text t)) =
    if t == ""
    then ok (pos 0)
    else or_raise (error "ValueError" "could not convert string to float") (float_of_text t)
float_of (some _) = raised (error "TypeError" "float() argument")

abbrev or_zero : Option ℤ → ℤ
or_zero none = pos 0
or_zero (some z) = z

starts_equal : String → Bool
starts_equal String.[] = false
starts_equal (String.◌∷◌ c s) = eqb (code c) 61

-- `safe_float` on a text
abbrev safe_text : String → ℤ
safe_text t =
    if t == "" || starts_equal t
    then pos 0
    else or_zero (or_else (float_of_text t) (float_of_text (from_comma t)))

unfoldable pub safe_float : Option Value → ℤ
unfolding float_of_text from_comma strip str_of starts_equal
safe_float none = pos 0
safe_float (some null) = pos 0
safe_float (some (bool b)) = pos (if b then 100 else 0)
safe_float (some (num n)) = pos (n * 100)
safe_float (some (money z)) = z
safe_float (some v) = safe_text (strip (str_of v))
