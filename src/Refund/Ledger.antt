-- ===== src/Refund/Ledger.antt =====
-- The abstract ledger of refunds against captured payments, and its ceiling.
use e_commerce_backend.Common.{
  ℕ, ◌+◌, ◌≤◌, ◌≡◌, ap, ◌∙◌, sym, Bool, true, false, Option, none, some, List, [], ◌∷◌, arith, ◌==◌,
  ◌⊎◌, subst, some-injective, All, if◌then◌else◌, Bool-cases, inl, inr,
}
use e_commerce_backend.Finance.{Refund, RefundStatus, find_refund, set_refund, is_held}
use e_commerce_backend.Refund.{sum_refunds, sum_other_refunds}
use e_commerce_backend.Refund.Table.{
  AreUnique, Keeps, set_refund-absent, set_refund-AreUnique, sum-set_refund, held_of,
  sum_other_refunds-split,
}
use e_commerce_backend.Refund.Execution.{is_open_refund}

-- What was captured with every payment.
abbrev pub Captured : Type 0
Captured = ℕ → Option ℕ

-- One change of status. To take money from the payment, the other refunds that hold some must leave
-- enough, up to one paisa.
pub data Advance (captured : Captured) (others : ℕ) (r s : Refund) : Type 0 where
  takes :
      (n : ℕ)
      → is_open_refund r.status ≡ true
      → captured r.payment_id ≡ some n
      → others + r.amount ≤ n + 1
      → is_held s.status ≡ true
      → s.gateway_refund_id ≡ r.gateway_refund_id
      → Advance captured others r s
  settles :
      r.status ≡ RefundStatus.processing
      → (s.status ≡ RefundStatus.processed) ⊎ (s.status ≡ RefundStatus.failed)
      → Advance captured others r s
  refuses :
      r.status ≡ RefundStatus.requested
      → s.status ≡ RefundStatus.rejected
      → s.gateway_refund_id ≡ r.gateway_refund_id
      → Advance captured others r s
  is_answered :
      r.status ≡ RefundStatus.processing
      → s.status ≡ RefundStatus.processing
      → Advance captured others r s
  is_signed :
      s.status ≡ r.status → s.gateway_refund_id ≡ r.gateway_refund_id → Advance captured others r s

-- One entry: a refund is requested, or one refund advances.
pub data Entry (captured : Captured) : List Refund → List Refund → Type 0 where
  opens :
      (r : Refund) (rs : List Refund)
      → find_refund r.id rs ≡ none
      → r.status ≡ RefundStatus.requested
      → r.gateway_refund_id ≡ none
      → Entry captured rs (r ∷ rs)
  advances :
      (k : ℕ) (f : Refund → Refund) (r : Refund) (rs : List Refund)
      → Keeps f
      → find_refund k rs ≡ some r
      → Advance captured (sum_other_refunds is_held r.payment_id k rs) r (f r)
      → Entry captured rs (set_refund k f rs)

pub data Entries (captured : Captured) : List Refund → List Refund → Type 0 where
  nothing : (rs : List Refund) → Entries captured rs rs
  then :
      {rs ss ts : List Refund}
      → Entries captured rs ss
      → Entry captured ss ts
      → Entries captured rs ts

-- A refund that the gateway knows has been executed.
abbrev pub was_executed : RefundStatus → Bool
was_executed RefundStatus.processing = true
was_executed RefundStatus.processed = true
was_executed RefundStatus.failed = true
was_executed _ = false

abbrev pub IsExecuted : Refund → Type 0
IsExecuted r = (elim r.gateway_refund_id [ none ↦ true | some g ↦ was_executed r.status ]) ≡ true

-- The identifiers differ, every payment covers the refunds that hold money, up to one paisa, and only
-- an executed refund has a gateway's identifier.
pub record IsCovered (captured : Captured) (rs : List Refund) : Type 0 where
  pub unique : AreUnique rs
  pub covered : (k n : ℕ) → captured k ≡ some n → sum_refunds is_held k rs ≤ n + 1
  pub executed : All IsExecuted rs

All-set_refund :
    (k : ℕ) (f : Refund → Refund) (rs : List Refund) (r : Refund)
    → AreUnique rs
    → find_refund k rs ≡ some r
    → IsExecuted (f r)
    → All IsExecuted rs
    → All IsExecuted (set_refund k f rs)
All-set_refund k f [] r u e h hs = tt
All-set_refund k f (x ∷ rs) r (n, u) e h (y, ys) = elim (Bool-cases (x.id == k)) [
  | inl q ↦
      let same : x ≡ r = some-injective (rw q at e) in
      let gone : find_refund k rs ≡ none = ground (arith, n) in
      (
        subst (λ b. IsExecuted (if b then f x else x)) (sym q)
            (subst (λ z. IsExecuted (f z)) (sym same) h),
        subst (All IsExecuted) (sym (set_refund-absent k f rs gone)) ys,
      )
  | inr q ↦ (
    subst (λ b. IsExecuted (if b then f x else x)) (sym q) y,
    All-set_refund k f rs r u (rw q at e) h ys,
  )
]

Advance-IsExecuted :
    (captured : Captured) (others : ℕ) (r s : Refund)
    → Advance captured others r s
    → IsExecuted r
    → IsExecuted s
Advance-IsExecuted captured others r s (Advance.takes n o c l h g) x = ground arith
Advance-IsExecuted captured others r s (Advance.settles p q) x = ground arith
Advance-IsExecuted captured others r s (Advance.refuses p q g) x = ground arith
Advance-IsExecuted captured others r s (Advance.is_answered p q) x = ground arith
Advance-IsExecuted captured others r s (Advance.is_signed p g) x = ground arith

pub found-IsExecuted :
    (k : ℕ) (rs : List Refund) (r : Refund)
    → find_refund k rs ≡ some r
    → All IsExecuted rs
    → IsExecuted r
found-IsExecuted k [] r e h = cc
found-IsExecuted k (x ∷ rs) r e (y, ys) = elim (Bool-cases (x.id == k)) [
  | inl q ↦ subst IsExecuted (some-injective (rw q at e)) y
  | inr q ↦ found-IsExecuted k rs r (rw q at e) ys
]

lighter :
    (k p : ℕ) (f : Refund → Refund) (r : Refund) (rs : List Refund)
    → AreUnique rs
    → find_refund k rs ≡ some r
    → held_of p (f r) ≤ held_of p r
    → sum_refunds is_held p (set_refund k f rs) ≤ sum_refunds is_held p rs
lighter k p f r rs u e l = omega (arith, l, sum-set_refund (held_of p) k f rs r u e)

Advance-covered :
    (captured : Captured) (k : ℕ) (f : Refund → Refund) (r : Refund) (rs : List Refund)
    → Keeps f
    → find_refund k rs ≡ some r
    → IsCovered captured rs
    → Advance captured (sum_other_refunds is_held r.payment_id k rs) r (f r)
    → (p n : ℕ) → captured p ≡ some n
    → sum_refunds is_held p (set_refund k f rs) ≤ n + 1
Advance-covered captured k f r rs keeps e c (Advance.takes m o here l h g) p n q =
    let weigh = sum-set_refund (held_of p) k f rs r c.unique e in
    let split = sum_other_refunds-split p k rs r c.unique e in
    elim (Bool-cases (r.payment_id == p)) [
      | inl own ↦
          let same : r.payment_id ≡ p = ground arith in
          let enough : m ≡ n = some-injective (sym here ∙ ap captured same ∙ q) in
          let limit : sum_other_refunds is_held p k rs + r.amount ≤ m + 1 =
            subst (λ z. sum_other_refunds is_held z k rs + r.amount ≤ m + 1) same l in
          let own_part : held_of p (f r) ≤ r.amount = ground (arith, keeps.amount r) in
          omega (arith, weigh, split, enough, limit, own_part)
      | inr other ↦
          let l : held_of p (f r) ≤ held_of p r = ground (arith, keeps.payment r) in
          omega (arith, lighter k p f r rs c.unique e l, c.covered p n q)
    ]
Advance-covered captured k f r rs keeps e c (Advance.settles a b) p n q =
    let l : held_of p (f r) ≤ held_of p r = ground (arith, keeps.amount r, keeps.payment r) in
    omega (arith, lighter k p f r rs c.unique e l, c.covered p n q)
Advance-covered captured k f r rs keeps e c (Advance.refuses a b g) p n q =
    let l : held_of p (f r) ≤ held_of p r = ground (arith, keeps.amount r, keeps.payment r) in
    omega (arith, lighter k p f r rs c.unique e l, c.covered p n q)
Advance-covered captured k f r rs keeps e c (Advance.is_answered a b) p n q =
    let l : held_of p (f r) ≤ held_of p r = ground (arith, keeps.amount r, keeps.payment r) in
    omega (arith, lighter k p f r rs c.unique e l, c.covered p n q)
Advance-covered captured k f r rs keeps e c (Advance.is_signed a g) p n q =
    let l : held_of p (f r) ≤ held_of p r = ground (arith, keeps.amount r, keeps.payment r) in
    omega (arith, lighter k p f r rs c.unique e l, c.covered p n q)

pub Entry-IsCovered :
    (captured : Captured) {rs ss : List Refund}
    → Entry captured rs ss
    → IsCovered captured rs
    → IsCovered captured ss
Entry-IsCovered captured (Entry.opens r rs n s g) c = record {
  unique = (n, c.unique);
  covered = λ p m q. ground (arith, c.covered p m q);
  executed = (ground arith, c.executed);
}
Entry-IsCovered captured (Entry.advances k f r rs keeps e a) c = record {
  unique = set_refund-AreUnique k f rs keeps.id c.unique;
  covered = Advance-covered captured k f r rs keeps e c a;
  executed =
      All-set_refund k f rs r c.unique e
        (Advance-IsExecuted captured _ r (f r) a (found-IsExecuted k rs r e c.executed)) c.executed;
}

pub Entries-IsCovered :
    (captured : Captured) {rs ss : List Refund}
    → Entries captured rs ss
    → IsCovered captured rs
    → IsCovered captured ss
Entries-IsCovered captured (Entries.nothing rs) c = c
Entries-IsCovered captured (Entries.then es e) c =
    Entry-IsCovered captured e (Entries-IsCovered captured es c)
