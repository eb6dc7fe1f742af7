-- ===== src/Outbox/Retries.antt =====
-- How often a failing event is retried.
use e_commerce_backend.Common.{
  ℕ, zero, suc, ◌≡◌, refl, Option, none, some, List, arith, if◌then◌else◌, ltb,
}
use e_commerce_backend.Outbox.{OutboxStatus, OutboxEvent, on_failure, settle, process}

-- `n` runs of the handler that fail, at any times and with any errors.
abbrev pub fail_times : ℕ → ℕ → (ℕ → ℕ) → (ℕ → ℕ) → (ℕ → ℕ) → List OutboxEvent → List OutboxEvent
fail_times k zero errors times randoms events = events
fail_times k (suc n) errors times randoms events =
    process k (λ _. some (errors n)) (times n) (randoms n)
      (fail_times k n errors times randoms events)

pub settle-id :
    (read : OutboxEvent) (r : Option ℕ) (now random : ℕ) (e : OutboxEvent)
    → (settle read r now random e).id ≡ e.id
unfolding settle on_failure
settle-id read none now random e = refl
settle-id read (some x) now random e = ground arith

-- An event in its retry budget after `n` failing runs: parked once the budget is used up, not before.
pub record Failing (n : ℕ) (start e : OutboxEvent) : Type 0 where
  pub budget : e.max_attempts ≡ start.max_attempts
  pub attempts : e.attempts ≡ n
  pub status :
      e.status ≡ (if ltb n start.max_attempts then OutboxStatus.pending else OutboxStatus.failed)
