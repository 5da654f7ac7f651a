-- ===== src/Locks.antt =====
-- app/application/lock_utils.py: locks with a time to live, shared by both stores. Instants are
-- microseconds since the epoch; `now` is the reading of `datetime.now(timezone.utc)`.
pub mod Expiry
use automitizacion_hbi_capit.Base.{
  ℕ, ◌+◌, ◌-◌, ◌*◌, ◌/◌, String, Bool, true, false, not, Option, none, some, ltb, leb,
  if◌then◌else◌,
}
use automitizacion_hbi_capit.Base.Signed.{ℤ, pos, negsuc, ltb_ℤ}
use automitizacion_hbi_capit.Json.{IsoText, blank, malformed, naive, aware, Value, iso, Dict, holds}
use automitizacion_hbi_capit.Json.Ops.{lookup}

-- The text that a field holds, as `fromisoformat` would read it; a false value is no text.
abbrev pub iso_of : Option Value → Option IsoText
iso_of (some (iso t)) = some t
iso_of v = if holds v then some malformed else none

-- A naive timestamp is taken for UTC.
unfoldable pub parse_expires_at : Option IsoText → Option ℕ
parse_expires_at none = none
parse_expires_at (some blank) = none
parse_expires_at (some malformed) = none
parse_expires_at (some (naive t)) = some t
parse_expires_at (some (aware t)) = some t

-- `bool(expires_at)`
abbrev pub has_text : Option IsoText → Bool
has_text none = false
has_text (some blank) = false
has_text (some _) = true

unfoldable pub is_lock_expired : ℕ → Option IsoText → Bool
unfolding parse_expires_at
is_lock_expired now expires_at = elim (parse_expires_at expires_at) [
  | none ↦ has_text expires_at
  | some exp ↦ leb exp now
]

abbrev pub micros : ℕ
micros = 1_000_000

-- `int((b - a).total_seconds())`, which rounds towards zero
unfoldable pub whole_seconds : ℕ → ℕ → ℤ
whole_seconds a b =
    if leb a b
    then pos ((b - a) / micros)
    else if ltb (a - b) micros
    then pos 0
    else negsuc ((a - b) / micros - 1)

unfoldable pub seconds_until_expiry : ℕ → Option IsoText → Option ℤ
unfolding parse_expires_at whole_seconds
seconds_until_expiry now expires_at = elim (parse_expires_at expires_at) [
  | none ↦ none
  | some exp ↦ some (whole_seconds now exp)
]

unfoldable pub lock_granted_ttl_seconds : Option IsoText → Option IsoText → Option ℤ
unfolding parse_expires_at whole_seconds
lock_granted_ttl_seconds created_at expires_at = elim (parse_expires_at created_at) [
  | none ↦ none
  | some created ↦ elim (parse_expires_at expires_at) [
    | none ↦ none
    | some expires ↦ some (whole_seconds created expires)
  ]
]

-- `max(60, int(ttl * 0.1))`
unfoldable pub slack : ℕ → ℕ
slack ttl = if ltb 60 (ttl / 10) then ttl / 10 else 60

-- `if not record` in a caller is the case `none` there; an empty record has no timestamps.
unfoldable pub is_legacy_oversized_lock : ℕ → ℕ → Dict → Bool
unfolding lock_granted_ttl_seconds seconds_until_expiry slack
is_legacy_oversized_lock now ttl record' =
    let expires_at = iso_of (lookup "expires_at" record') in
    elim (lock_granted_ttl_seconds (iso_of (lookup "created_at" record')) expires_at) [
      | some granted ↦ ltb_ℤ (pos (ttl + slack ttl)) granted
      | none ↦ elim (seconds_until_expiry now expires_at) [
        | none ↦ false
        | some remaining ↦ ltb_ℤ (pos (ttl * 2)) remaining
      ]
    ]

unfoldable pub should_relinquish_lock : ℕ → ℕ → Dict → Bool
unfolding is_lock_expired is_legacy_oversized_lock
should_relinquish_lock now ttl record' =
    if is_lock_expired now (iso_of (lookup "expires_at" record'))
    then true
    else is_legacy_oversized_lock now ttl record'
