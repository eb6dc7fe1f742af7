-- ===== src/Outbox/Lifecycle.antt =====
-- What holds of the outbox whatever the relay, the workers and the queue do.
use e_commerce_backend.Common.{
  ℕ, ◌<◌, ◌≡◌, sym, subst, Bool, true, false, List, map, Memᴰ, arith, includes, Bool-cases, inl,
  inr,
}
use e_commerce_backend.Outbox.{
  OutboxStatus, OutboxEvent, Outbox, is_due, set_event, reclaim, claim, claimed_rows, ids_of,
}
use e_commerce_backend.Outbox.Events.{
  is_distinct, included, same_row, claimed_rows-due, Memᴰ-map, Memᴰ-set_event,
}

-- An event that may still be run has attempts left.
abbrev pub is_open : OutboxStatus → Bool
is_open OutboxStatus.pending = true
is_open OutboxStatus.processing = true
is_open _ = false

pub record IsBudgeted (e : OutboxEvent) : Type 0 where
  pub budget : e.max_attempts ≡ 8
  pub has_attempts : is_open e.status ≡ true → e.attempts < 8

abbrev pub AreBudgeted : List OutboxEvent → Type 0
AreBudgeted es = (e : OutboxEvent) → Memᴰ e es → IsBudgeted e

-- Every event is within its budget, identifiers are a key, and no event has two live jobs.
pub record IsSound (o : Outbox) : Type 0 where
  pub budgets : AreBudgeted o.events
  pub keys : is_distinct (ids_of o.events) ≡ true
  pub jobs : is_distinct o.jobs ≡ true

pub reclaim-IsBudgeted : (now : ℕ) (e : OutboxEvent) → IsBudgeted e → IsBudgeted (reclaim now e)
reclaim-IsBudgeted now e b = record {
  budget = ground (arith, b.budget);
  has_attempts = λ h. ground (arith, b.has_attempts);
}

pub reclaim-id : (now : ℕ) (e : OutboxEvent) → (reclaim now e).id ≡ e.id
reclaim-id now e = ground arith

pub claim-id : (now : ℕ) (ids : List ℕ) (e : OutboxEvent) → (claim now ids e).id ≡ e.id
claim-id now ids e = ground arith

pub is_due-open : (now : ℕ) (e : OutboxEvent) → is_due now e ≡ true → is_open e.status ≡ true
is_due-open now e h = ground arith

-- A row that a claim turns into PROCESSING was due.
pub claimed-due :
    (now : ℕ) (e : OutboxEvent) (es : List OutboxEvent)
    → is_distinct (ids_of es) ≡ true
    → Memᴰ e es
    → includes e.id (ids_of (claimed_rows now es)) ≡ true
    → is_due now e ≡ true
claimed-due now e es d m h =
    let (r, n, same) = included e.id (claimed_rows now es) h in
    let (k, due) = claimed_rows-due now es r n in
    subst (λ (x : OutboxEvent). is_due now x ≡ true) (same_row r e es d k m same) due

pub claim-IsBudgeted :
    (now : ℕ) (es : List OutboxEvent)
    → is_distinct (ids_of es) ≡ true
    → AreBudgeted es
    → AreBudgeted (map (claim now (ids_of (claimed_rows now es))) es)
claim-IsBudgeted now es d b e m =
    let (x, n, q) = Memᴰ-map _ e es m in
    let bx = b x n in
    elim (Bool-cases (includes x.id (ids_of (claimed_rows now es)))) [
      | inl h ↦
          let due = is_due-open now x (claimed-due now x es d n h) in
          record {
            budget = ground (arith, bx.budget);
            has_attempts = λ _. ground (arith, bx.has_attempts due);
          }
      | inr h ↦ subst IsBudgeted (ground arith) bx
    ]

-- The rows to dispatch have attempts left in the table.
abbrev pub HaveAttempts : List OutboxEvent → List OutboxEvent → Type 0
HaveAttempts rows es =
    (r : OutboxEvent) (e : OutboxEvent) → Memᴰ r rows → Memᴰ e es → e.id ≡ r.id → e.attempts < 8

pub set_event-HaveAttempts :
    (k : ℕ) (f : OutboxEvent → OutboxEvent) (rows es : List OutboxEvent)
    → ((e : OutboxEvent) → ((f e).id ≡ e.id) × ((f e).attempts ≡ e.attempts))
    → HaveAttempts rows es
    → HaveAttempts rows (set_event k f es)
set_event-HaveAttempts k f rows es same h r e m n q =
    let (d, l, c) = Memᴰ-set_event k f e es n in
    elim c [
      | inl (own, eq) ↦ let (a, b) = same d in let lt = h r d m l (ground arith) in ground arith
      | inr eq ↦ let lt = h r d m l (ground arith) in ground arith
    ]

pub set_event-IsBudgeted :
    (k : ℕ) (f : OutboxEvent → OutboxEvent) (es : List OutboxEvent)
    → ((e : OutboxEvent) → Memᴰ e es → e.id ≡ k → IsBudgeted (f e))
    → AreBudgeted es
    → AreBudgeted (set_event k f es)
set_event-IsBudgeted k f es h b e m =
    let (d, n, c) = Memᴰ-set_event k f e es m in
    elim c [
      | inl (own, eq) ↦ subst IsBudgeted (sym eq) (h d n own)
      | inr eq ↦ subst IsBudgeted (sym eq) (b d n)
    ]
