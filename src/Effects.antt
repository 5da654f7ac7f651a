-- ===== src/Effects.antt =====
-- Asynchronous code as a state monad with exceptions: a call takes the world and returns a value or
-- an exception, and the world after it. Calls of other tasks come between two calls, not within one.
-- Exceptions outside `Exception` (a killed process, a cancelled task) are not modelled.
use automitizacion_hbi_capit.Base.{String, Option, if◌then◌else◌, Bool, ◌≡◌, refl, ap}

-- The message of `JobExecutionSkipped` (app/application/jobs/job_run_guard.py).
pub data Reason : Type 0 where
  already : String → Reason
  already_running : Reason
  unexpected : String → Reason

-- `error name message` is any other exception, by the name of its class.
pub data Exn : Type 0 where
  skipped : Reason → Exn
  error : String → String → Exn

pub data Result {ℓ} (A : Type ℓ) : Type ℓ where
  ok : A → Result A
  raised : Exn → Result A

pub ok-injective {ℓ} : {A : Type ℓ} (a b : A) → Path (Result A) (ok a) (ok b) → a ≡ b
ok-injective a b h = cc

abbrev pub Act : Type 0 → Type 0 → Type 0
Act S A = S → Result A × S

module _ {S : Type 0} where
  abbrev pub pure : {A : Type 0} → A → Act S A
  pure a s = (ok a, s)

  abbrev pub raise : {A : Type 0} → Exn → Act S A
  raise e s = (raised e, s)

  abbrev pub bind_from : {A B : Type 0} → Result A × S → (A → Act S B) → Result B × S
  bind_from (ok a, s) f = f a s
  bind_from (raised e, s) f = (raised e, s)

  infixl 5 ◌>>=◌ ◌>>◌
  abbrev pub ◌>>=◌ : {A B : Type 0} → Act S A → (A → Act S B) → Act S B
  ◌>>=◌ m f s = bind_from (m s) f

  abbrev pub ◌>>◌ : {B : Type 0} → Act S (Unit {0}) → Act S B → Act S B
  m >> k = m >>= λ _. k

  -- `try: m`, with what it returned or raised as a value
  abbrev pub attempt : {A : Type 0} → Act S A → Act S (Result A)
  attempt m s = let r = m s in (ok r.0, r.1)

  abbrev pub reraise : {A : Type 0} → Result A → Act S A
  reraise r s = (r, s)

  abbrev pub gets : {A : Type 0} → (S → A) → Act S A
  gets f s = (ok (f s), s)

-- A sequence keeps a promise `P` if its second part does wherever the first one's promise `Q` holds.
module _ {S A B : Type 0} (Q : Result A × S → Type 0) (P : Result B × S → Type 0) where
  bind_from_rule :
      (r : Result A × S) (f : A → Act S B)
      → Q r
      → ((a : A) (s' : S) → Q (ok a, s') → P (f a s'))
      → ((e : Exn) (s' : S) → Q (raised e, s') → P (raised e, s'))
      → P (bind_from r f)
  bind_from_rule (ok a, s') f q k x = k a s' q
  bind_from_rule (raised e, s') f q k x = x e s' q

  pub bind_rule :
      (m : Act S A) (f : A → Act S B) (s : S)
      → Q (m s)
      → ((a : A) (s' : S) → Q (ok a, s') → P (f a s'))
      → ((e : Exn) (s' : S) → Q (raised e, s') → P (raised e, s'))
      → P ((m >>= f) s)
  bind_rule m f s = bind_from_rule (m s) f

-- What follows a computation that returned.
abbrev pub and_then {ℓ κ} : {A : Type ℓ} {B : Type κ} → Result A → (A → Result B) → Result B
and_then (ok a) f = f a
and_then (raised e) f = raised e

-- A map from keys to values, with one key changed: `none` removes it.
abbrev pub assign {ℓ κ} :
    {K : Type ℓ} {V : Type κ} → (K → K → Bool) → K → Option V → (K → Option V) → K → Option V
assign eq k v f j = if eq k j then v else f j

-- A sequence that succeeds, taken apart.
module _ {S A B : Type 0} where
  bind_from-ok :
      (r : Result A × S) (f : A → Act S B) (b : B) (s'' : S)
      → bind_from r f ≡ (ok b, s'')
      → (a : A) × (s' : S) × (r ≡ (ok a, s')) × (f a s' ≡ (ok b, s''))
  bind_from-ok (ok a, s') f b s'' h = (a, s', refl, h)
  bind_from-ok (raised e, s') f b s'' h = let x = ap (λ q. q.0) h in cc

  pub bind-ok :
      (m : Act S A) (f : A → Act S B) (s : S) (b : B) (s'' : S)
      → (m >>= f) s ≡ (ok b, s'')
      → (a : A) × (s' : S) × (m s ≡ (ok a, s')) × (f a s' ≡ (ok b, s''))
  bind-ok m f s = bind_from-ok (m s) f
