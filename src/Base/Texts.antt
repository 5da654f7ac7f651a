-- ===== src/Base/Texts.antt =====
-- Python's `strip`, `upper` and `lower` on texts: the blanks and the letters of ASCII and Latin-1.
use Prim.Native.Nat.{ℕ, zero, suc, ◌-◌, ◌*◌}
use Prim.Native.Char.{Char, code}
use Prim.Native.String.{String, char_at}
use mathlib.Core.Bool.{Bool, not, ◌&&◌, ◌||◌}
use automitizacion_hbi_capit.Base.Tests.{leb, eqb, if◌then◌else◌}
use package.text.Mathlib.Text.{◌==◌}

abbrev is_blank : ℕ → Bool
is_blank c = (leb 9 c && leb c 13) || (leb 28 c && leb c 32) || eqb c 133 || eqb c 160

abbrev is_between : ℕ → ℕ → ℕ → Bool
is_between a b c = leb a c && leb c b

-- 247 and 215 are signs, not letters.
abbrev upper_char : Char → Char
upper_char c =
    if is_between 97 122 (code c)
    then char_at "ABCDEFGHIJKLMNOPQRSTUVWXYZ" (code c - 97)
    else if is_between 224 254 (code c) && not (eqb (code c) 247)
    then char_at "ÀÁÂÃÄÅÆÇÈÉÊËÌÍÎÏÐÑÒÓÔÕÖ×ØÙÚÛÜÝÞ" ((code c - 224) * 2)
    else c

abbrev lower_char : Char → Char
lower_char c =
    if is_between 65 90 (code c)
    then char_at "abcdefghijklmnopqrstuvwxyz" (code c - 65)
    else if is_between 192 222 (code c) && not (eqb (code c) 215)
    then char_at "àáâãäåæçèéêëìíîïðñòóôõö÷øùúûüýþ" ((code c - 192) * 2)
    else c

unfoldable pub upper : String → String
upper String.[] = String.[]
upper (String.◌∷◌ c s) = String.◌∷◌ (upper_char c) (upper s)

unfoldable pub lower : String → String
lower String.[] = String.[]
lower (String.◌∷◌ c s) = String.◌∷◌ (lower_char c) (lower s)

unfoldable pub lstrip : String → String
lstrip String.[] = String.[]
lstrip (String.◌∷◌ c s) = let rest = lstrip s in if is_blank (code c) then rest else String.◌∷◌ c s

unfoldable pub rstrip : String → String
rstrip String.[] = String.[]
rstrip (String.◌∷◌ c s) =
    let rest = rstrip s in if is_blank (code c) && rest == "" then String.[] else String.◌∷◌ c rest

unfoldable pub strip : String → String
unfolding lstrip rstrip
strip s = rstrip (lstrip s)

-- `strip("/")`
unfoldable lstrip_slashes : String → String
lstrip_slashes String.[] = String.[]
lstrip_slashes (String.◌∷◌ c s) =
    let rest = lstrip_slashes s in if eqb (code c) 47 then rest else String.◌∷◌ c s

unfoldable rstrip_slashes : String → String
rstrip_slashes String.[] = String.[]
rstrip_slashes (String.◌∷◌ c s) =
    let rest = rstrip_slashes s in
    if eqb (code c) 47 && rest == "" then String.[] else String.◌∷◌ c rest

unfoldable pub strip_slashes : String → String
unfolding lstrip_slashes rstrip_slashes
strip_slashes s = rstrip_slashes (lstrip_slashes s)

-- `s[:n]`
unfoldable pub take_chars : ℕ → String → String
take_chars zero s = ""
take_chars (suc n) String.[] = ""
take_chars (suc n) (String.◌∷◌ c s) = String.◌∷◌ c (take_chars n s)
