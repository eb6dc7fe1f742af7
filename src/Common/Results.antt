-- ===== src/Common/Results.antt =====
-- What a request ends in: a value, or the exception that it raises. A Prisma transaction that raises
-- writes nothing, so a failed step carries no state.
use mathlib.Core.Path.{◌≡◌, refl}
use mathlib.Core.Bool.{Bool, true, false}
use mathlib.Core.Option.{Option, none, some}

-- NestJS's HTTP exceptions by class, a plain `Error`, and PostgreSQL's refusal of a CHECK.
pub data Exception : Type 0 where
  bad_request unauthorized forbidden not_found conflict plain_error check_violation : Exception

pub data Result {ℓ} (T : Type ℓ) : Type ℓ where
  err : Exception → Result T
  ok : T → Result T

abbrev pub is_ok {ℓ} : {T : Type ℓ} → Result T → Bool
is_ok (err x) = false
is_ok (ok value) = true

-- `if (!found) throw e`
abbrev pub or_throw {ℓ} : {T : Type ℓ} → Option T → Exception → Result T
or_throw (some value) x = ok value
or_throw none x = err x

-- `await`: the rest of the method runs on the value
infixl 5 ◌>>=◌
abbrev pub ◌>>=◌ {ℓ κ} : {T : Type ℓ} {U : Type κ} → Result T → (T → Result U) → Result U
err x >>= rest = err x
ok value >>= rest = rest value

-- `if (c) throw e`
abbrev pub throw_if : Bool → Exception → Result (Unit {0})
throw_if true x = err x
throw_if false x = ok tt

infixl 5 ◌>>◌
abbrev pub ◌>>◌ {κ} : {U : Type κ} → Result (Unit {0}) → Result U → Result U
check >> rest = check >>= λ _. rest

-- Inversion of a step that went through.
pub >>=-eq-ok {ℓ κ} :
    {T : Type ℓ} {U : Type κ} (step : Result T) (rest : T → Result U) {last : U}
    → (step >>= rest) ≡ ok last
    → (value : T) × (step ≡ ok value) × (rest value ≡ ok last)
>>=-eq-ok (err x) rest e = cc
>>=-eq-ok (ok value) rest e = (value, refl, e)

-- Inversion of a request that passed a check, or found its row.
pub throw_if->>-eq-ok {ℓ} :
    {A : Type ℓ} (c : Bool) (e : Exception) (k : Result A) {a : A}
    → (throw_if c e >> k) ≡ ok a
    → (c ≡ false) × (k ≡ ok a)
throw_if->>-eq-ok true e k h = cc
throw_if->>-eq-ok false e k h = (refl, h)

pub or_throw->>=-eq-ok {ℓ κ} :
    {A : Type ℓ} {B : Type κ} (o : Option A) (e : Exception) (f : A → Result B) {b : B}
    → (or_throw o e >>= f) ≡ ok b
    → (a : A) × (o ≡ some a) × (f a ≡ ok b)
or_throw->>=-eq-ok (some a) e f h = (a, refl, h)
or_throw->>=-eq-ok none e f h = cc

pub ok-injective {ℓ} : {A : Type ℓ} {x y : A} → ok x ≡ ok y → x ≡ y
ok-injective h = cc
