-- ===== src/Json.antt =====
-- The values that job documents, lock records and rows hold: Python's JSON-like values, with texts
-- that are ISO timestamps or Blob paths told apart from other texts. An amount of money is in whole cents.
pub mod Ops
use automitizacion_hbi_capit.Base.Signed.{ℤ}
use automitizacion_hbi_capit.Base.{ℕ, String, Bool, true, false, not, Option, none, some, ◌==◌, eqb}

-- A text as `datetime.fromisoformat` reads it (app/application/lock_utils.py): the empty text, a
-- text that it refuses, an instant with no offset, an instant with one. Instants are microseconds.
pub data IsoText : Type 0 where
  blank malformed : IsoText
  naive aware : ℕ → IsoText

-- The Blob layout of app/adapters/secondary/vercel_blob_job_store.py.
pub data BlobPath : Type 0 where
  meta result full_result events : String → BlobPath
  lock : String → BlobPath
  other : String → BlobPath

mutual
  pub data Value : Type 0 where
    null : Value
    bool : Bool → Value
    num : ℕ → Value
    money : ℤ → Value
    text : String → Value
    iso : IsoText → Value
    ref : BlobPath → Value
    arr : Items → Value
    obj : Dict → Value

  pub data Items : Type 0 where
    nil : Items
    cons : Value → Items → Items

  pub data Dict : Type 0 where
    empty : Dict
    entry : String → Value → Dict → Dict

abbrev is_zero : ℤ → Bool
is_zero (ℤ.pos n) = eqb n 0
is_zero (ℤ.negsuc n) = false

-- `bool(v)`
abbrev pub truthy : Value → Bool
truthy null = false
truthy (bool b) = b
truthy (num n) = not (eqb n 0)
truthy (money z) = not (is_zero z)
truthy (text t) = not (t == "")
truthy (iso blank) = false
truthy (iso _) = true
truthy (ref _) = true
truthy (arr nil) = false
truthy (arr _) = true
truthy (obj empty) = false
truthy (obj _) = true

-- `bool(d.get(k))` on the result of a lookup
abbrev pub holds : Option Value → Bool
holds none = false
holds (some v) = truthy v

-- `str(d.get(k) or "")` where the field is written as a text or as None; any other value is none of
-- the words that the code compares with.
abbrev pub text_of : Option Value → String
text_of (some (text t)) = t
text_of _ = ""

-- `v == t` against a text
abbrev pub is_text : Option Value → String → Bool
is_text (some (text t)) u = t == u
is_text _ u = false
