-- ===== src/Resilience/Attempts.antt =====
-- How often an operation is called, and with which outcome a run ends.
use e_commerce_backend.Common.{
  ℕ, zero, suc, ◌+◌, ◌≤◌, ◌<◌, ◌≡◌, ◌⊎◌, inl, inr, refl, ap, ◌∙◌, subst, Bool, true, false, List,
  [], ◌∷◌, arith, Bool-cases,
}
use e_commerce_backend.Resilience.{Outcome, Run, attempt_from, with_resilience}

-- An outcome after which the loop does not call again: a value, or an error that is not to be retried.
abbrev pub IsFinal {ℓ κ} : {A : Type ℓ} {E : Type κ} → (E → Bool) → Outcome A E → Type 0
IsFinal retry_on (Outcome.returned a) = Unit
IsFinal retry_on (Outcome.threw e) = retry_on e ≡ false

abbrev pub IsRetried {ℓ κ} : {A : Type ℓ} {E : Type κ} → (E → Bool) → Outcome A E → Type 0
IsRetried retry_on (Outcome.returned a) = ⊥
IsRetried retry_on (Outcome.threw e) = retry_on e ≡ true

Outcome-cases {ℓ κ} :
    {A : Type ℓ} {E : Type κ} (o : Outcome A E)
    → ((a : A) × (o ≡ Outcome.returned a)) ⊎ ((e : E) × (o ≡ Outcome.threw e))
Outcome-cases (Outcome.returned a) = inl (a, refl)
Outcome-cases (Outcome.threw e) = inr (e, refl)

module _ {ℓ κ} {A : Type ℓ} {E : Type κ} (op : ℕ → Outcome A E) (retry_on : E → Bool)
    (base_delay max_delay : ℕ) (random : ℕ → ℕ) where
  -- A run that starts at an attempt ends at a later one, or the same.
  pub record Settles (attempt left : ℕ) (r : Run A E) : Type (ℓ ⊔ κ) where
    pub last : ℕ
    pub called : r.calls ≡ last + 1
    pub bounded : last ≤ left
    pub outcome : r.outcome ≡ op (attempt + last)
    pub ends : IsFinal retry_on (op (attempt + last)) ⊎ (last ≡ left)
    pub earlier : (i : ℕ) → i < last → IsRetried retry_on (op (attempt + i))

  one_call :
      (attempt left : ℕ) (delays : List ℕ)
      → IsFinal retry_on (op attempt) ⊎ (0 ≡ left)
      → Settles attempt left (record { outcome = op attempt; calls = 1; delays = delays })
  one_call attempt left delays h =
      let here : op attempt ≡ op (attempt + 0) = ap op (omega arith) in
      record {
        last = 0;
        called = refl;
        bounded = omega arith;
        outcome = here;
        ends = subst (λ o. IsFinal retry_on o ⊎ (0 ≡ left)) here h;
        earlier = λ i lt. absurd (not_below i lt);
      }
    where
      not_below : (i : ℕ) → i < 0 → ⊥
      not_below i lt = omega arith

  one_more :
      (attempt left : ℕ) (r : Run A E) (delay : ℕ)
      → IsRetried retry_on (op attempt)
      → Settles (attempt + 1) left r
      → Settles attempt
          (suc left)
          (record { outcome = r.outcome; calls = r.calls + 1; delays = delay ∷ r.delays })
  one_more attempt left r delay again s =
      let here : op (attempt + 1 + s.last) ≡ op (attempt + (s.last + 1)) = ap op (omega arith) in
      record {
        last = s.last + 1;
        called = omega (arith, s.called);
        bounded = omega (arith, s.bounded);
        outcome = s.outcome ∙ here;
        ends = elim s.ends [
          | inl f ↦ inl (subst (IsFinal retry_on) here f)
          | inr e ↦ inr (omega (arith, e))
        ];
        earlier = λ i lt. earlier i lt;
      }
    where
      earlier : (i : ℕ) → i < s.last + 1 → IsRetried retry_on (op (attempt + i))
      earlier zero lt = subst (λ n. IsRetried retry_on (op n)) (omega arith) again
      earlier (suc i) lt =
          subst (λ n. IsRetried retry_on (op n)) (omega arith) (s.earlier i (omega (arith, lt)))

  attempt_from-Settles :
      (attempt left : ℕ)
      → Settles attempt left (attempt_from op retry_on base_delay max_delay random attempt left)
  unfolding attempt_from
  attempt_from-Settles attempt zero = one_call attempt zero [] (inr refl)
  attempt_from-Settles attempt (suc left) =
      let rest = attempt_from-Settles (attempt + 1) left in
      elim (Outcome-cases (op attempt)) [
        | inl (a, e) ↦
            subst (Settles attempt (suc left)) (rw (e, attempt_from))
              (one_call attempt (suc left) [] (inl (rw e tt)))
        | inr (x, e) ↦ elim (Bool-cases (retry_on x)) [
          | inl r ↦
              rw (e, attempt_from)
                (rw r (
                  one_more attempt left
                    (attempt_from op retry_on base_delay max_delay random (attempt + 1) left) _
                    (rw e r) rest))
          | inr r ↦
              subst (Settles attempt (suc left)) (rw (e, attempt_from) (rw r))
                (one_call attempt (suc left) [] (inl (rw e r)))
        ]
      ]

  -- A call with retries ends with the outcome of its last call. Every call before it threw an error
  -- that is to be retried; the last one did not, or it was the last that the retries allow, so there are
  -- at most one more calls than retries.
  pub with_resilience-Settles :
      (retries : ℕ)
      → Settles 0 retries (with_resilience op retry_on base_delay max_delay random retries)
  unfolding with_resilience
  with_resilience-Settles retries = attempt_from-Settles 0 retries
