-- ===== src/Resilience.antt =====
-- Bounded retry with jittered backoff (src/common/http/with-resilience.ts). The operation is a
-- parameter: the outcome of its n-th call. `Math.random()` is a multiple of 2^-53.
pub mod Attempts
use e_commerce_backend.Common.{
  ℕ, zero, suc, ◌+◌, ◌-◌, ◌*◌, ◌/◌, ◌^◌, min, Bool, true, false, not, Option, none, some, List, [],
  ◌∷◌, ◌==◌, ◌||◌, ◌&&◌, leb, ltb, if◌then◌else◌,
}

-- `backoffDelayMs`, where `random` is the numerator over 2^53
unfoldable pub backoff_delay_ms : ℕ → ℕ → ℕ → ℕ → ℕ
backoff_delay_ms attempt base_delay max_delay random =
    random * min max_delay (base_delay * 2 ^ attempt) / 2 ^ 53

-- What a settled call brings: a value, or an error.
pub data Outcome {ℓ κ} (A : Type ℓ) (E : Type κ) : Type (ℓ ⊔ κ) where
  returned : A → Outcome A E
  threw : E → Outcome A E

-- The first candidate status that is an HTTP status, as `extractStatus` tries them.
unfoldable pub extract_status : List (Option ℕ) → Option ℕ
extract_status [] = none
extract_status (none ∷ rest) = extract_status rest
extract_status (some n ∷ rest) =
    let later = extract_status rest in if leb 100 n && ltb n 600 then some n else later

-- `isTransientError` by the error's status candidates, and by whether its name or code is listed
unfoldable pub is_transient_error : List (Option ℕ) → Bool → Bool
is_transient_error candidates is_network_fault = elim (extract_status candidates) [
  | some status ↦ status == 429 || leb 500 status
  | none ↦ is_network_fault
]

-- How a run of `withResilience` ends: the outcome of the last call, after so many calls, with the
-- delays that were slept between them.
pub record Run {ℓ κ} (A : Type ℓ) (E : Type κ) : Type (ℓ ⊔ κ) where
  pub outcome : Outcome A E
  pub calls : ℕ
  pub delays : List ℕ

module _ {ℓ κ} {A : Type ℓ} {E : Type κ} (op : ℕ → Outcome A E) (retry_on : E → Bool)
    (base_delay max_delay : ℕ) (random : ℕ → ℕ) where
  -- The loop, at a zero-based attempt, with the retries that are left.
  unfoldable pub attempt_from : ℕ → ℕ → Run A E
  attempt_from attempt zero = record { outcome = op attempt; calls = 1; delays = [] }
  attempt_from attempt (suc left) =
      let rest = attempt_from (attempt + 1) left in
      elim (op attempt) [
        | returned a ↦ record { outcome = returned a; calls = 1; delays = [] }
        | threw e ↦
            if retry_on e
            then record {
              outcome = rest.outcome;
              calls = rest.calls + 1;
              delays = backoff_delay_ms attempt base_delay max_delay (random attempt) ∷ rest.delays;
            }
            else record { outcome = threw e; calls = 1; delays = [] }
      ]

  -- `withResilience`
  unfoldable pub with_resilience : ℕ → Run A E
  unfolding attempt_from
  with_resilience retries = attempt_from 0 retries
