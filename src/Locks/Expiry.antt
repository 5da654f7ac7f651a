-- ===== src/Locks/Expiry.antt =====
-- What the expiry tests of app/application/lock_utils.py say of a lock that a store has written.
use automitizacion_hbi_capit.Base.{ℕ, ◌+◌, ◌*◌, ◌≤◌, ◌<◌, ◌≡◌, true, some, arith, ◌↔◌, ◌⊎◌}
use automitizacion_hbi_capit.Json.{aware, iso, Dict}
use automitizacion_hbi_capit.Json.Ops.{lookup}
use automitizacion_hbi_capit.Base.Signed.{ℤ}
use automitizacion_hbi_capit.Locks.{micros, should_relinquish_lock, slack, whole_seconds}

-- A whole number of seconds is read back as it was granted.
pub whole_seconds-add : (a ttl : ℕ) → whole_seconds a (a + ttl * micros) ≡ ℤ.pos ttl
unfolding whole_seconds
whole_seconds-add a ttl = ground arith

-- A lock that was written at `created` for `granted` seconds is given up at `now`, under a
-- configured time to live `ttl`, exactly if it has run out or was granted for more than `ttl` and
-- the slack.
pub should_relinquish_lock_iff :
    (now created granted ttl : ℕ) (record' : Dict)
    → lookup "created_at" record' ≡ some (iso (aware created))
    → lookup "expires_at" record' ≡ some (iso (aware (created + granted * micros)))
    → (should_relinquish_lock now ttl record' ≡ true)
      ↔ ((created + granted * micros ≤ now) ⊎ (ttl + slack ttl < granted))
unfolding should_relinquish_lock
should_relinquish_lock_iff now created granted ttl record' c e =
    ground (arith, whole_seconds-add created granted)
