-- ===== src/Refund/Approval.antt =====
-- Approvals and rejections implement entries of the abstract ledger.
use e_commerce_backend.Common.{
  ℕ, ◌+◌, ◌≤◌, ◌≡◌, refl, sym, ap, subst, Bool, true, false, not, ◌&&◌, some, List, [], ◌∷◌, arith,
  ◌⊎◌, inl, inr, ok, err, Result, Exception, Bool-cases, Option-cases, or_throw->>=-eq-ok,
  throw_if->>-eq-ok, ok-injective, plain_error, bad_request, not_found,
}
use e_commerce_backend.Finance.{
  Books, Payment, Refund, RefundStatus, find_payment, find_refund, update_refund, is_processed,
  is_held,
}
use e_commerce_backend.Refund.{sum_other_refunds, is_manual, has_payout_in_flight}
use e_commerce_backend.Refund.Table.{found-id, find-set_refund}
use e_commerce_backend.Refund.Ledger.{Advance}
use e_commerce_backend.Refund.Execution.{
  log_call, set_gateway, GatewayReply, check_approve, execute, record_answer, is_taken, exceeds,
  is_open_refund, start_processing, approve_refund, is_requested, reject_refund,
}
use e_commerce_backend.Refund.Settlement.{scoped_orders}
use e_commerce_backend.Refund.Effects.{amount_in}
use e_commerce_backend.Refund.Refinement.{
  captured_in, Implements, same-Implements, status-Keeps, Advance-Implements,
  settle_result-Implements,
}

pub payment-id : (k : ℕ) (ps : List Payment) (p : Payment) → find_payment k ps ≡ some p → p.id ≡ k
payment-id k [] p e = cc
payment-id k (x ∷ ps) p e = ground (arith, payment-id k ps p)

-- The checks that approval and manual disbursement share let a refund take its money.
pub checked-takes :
    (b : Books) (r s : Refund) (p : Payment)
    → is_open_refund r.status ≡ true
    → find_payment r.payment_id b.payments ≡ some p
    → exceeds r p b.refunds ≡ false
    → is_held s.status ≡ true
    → s.gateway_refund_id ≡ r.gateway_refund_id
    → Advance (captured_in b) (sum_other_refunds is_held r.payment_id r.id b.refunds) r s
checked-takes b r s p o found enough h g =
    let own = payment-id r.payment_id b.payments p found in
    let room : sum_other_refunds is_held p.id r.id b.refunds + r.amount ≤ p.amount + 1 =
      ground arith in
    Advance.takes p.amount o (ap amount_in found)
      (subst (λ k. sum_other_refunds is_held k r.id b.refunds + r.amount ≤ p.amount + 1) own room) h
      g

pub check_approve-parts :
    (guarded : Bool) (r : Refund) (b : Books) {p : Payment}
    → check_approve guarded r b ≡ ok p
    → (is_open_refund r.status ≡ true)
      × (find_payment r.payment_id b.payments ≡ some p)
      × (is_manual p ≡ false)
      × (exceeds r p b.refunds ≡ false)
      × ((guarded && has_payout_in_flight (scoped_orders r b.shop)) ≡ false)
unfolding check_approve
check_approve-parts guarded r b {p} e =
    let (c0, e1) = throw_if->>-eq-ok (not (is_open_refund r.status)) bad_request _ e in
    let (q, c1, e2) = or_throw->>=-eq-ok (find_payment r.payment_id b.payments) plain_error _ e1 in
    let (c2, e3) = throw_if->>-eq-ok (is_manual q) bad_request _ e2 in
    let (c3, e4) = throw_if->>-eq-ok (exceeds r q b.refunds) bad_request _ e3 in
    let (c4, e5) =
      throw_if->>-eq-ok (guarded && has_payout_in_flight (scoped_orders r b.shop)) bad_request _
        e4 in
    let same = ok-injective e5 in
    (
      ground arith,
      subst (λ z. find_payment r.payment_id b.payments ≡ some z) same c1,
      subst (λ z. is_manual z ≡ false) same c2,
      subst (λ z. exceeds r z b.refunds ≡ false) same c3,
      c4,
    )

abbrev pub started : ℕ → Refund → Refund
started admin r = record r { status = RefundStatus.processing; approved_by_id = some admin }

start_processing-Implements :
    (admin : ℕ) (b : Books) (r : Refund) (p : Payment)
    → find_refund r.id b.refunds ≡ some r
    → is_open_refund r.status ≡ true
    → find_payment r.payment_id b.payments ≡ some p
    → exceeds r p b.refunds ≡ false
    → Implements b (start_processing admin r.id b)
start_processing-Implements admin b r p found o paid enough =
    Advance-Implements b b r.id _ r (status-Keeps _ (λ x. (refl, refl, refl))) (same-Implements b)
      found (checked-takes b r _ p o paid enough refl refl)

-- From the gateway's answer on, for a refund that is being processed.
record_answer-Implements :
    (a b : Books) (r s : Refund) (gid : ℕ) (is_done : Bool)
    → Implements a b
    → find_refund r.id b.refunds ≡ some s
    → s.status ≡ RefundStatus.processing
    → Implements a (record_answer r gid is_done b).0
unfolding record_answer
record_answer-Implements a b r s gid is_done i found busy =
    let called : Implements a (log_call r b) = record {
      amounts = i.amounts;
      entries = i.entries;
    } in
    let stored : Implements a (update_refund r.id (set_gateway gid) (log_call r b)) =
      Advance-Implements a (log_call r b) r.id (set_gateway gid) s
        (status-Keeps (set_gateway gid) (λ x. (refl, refl, refl))) called found
        (Advance.is_answered busy busy) in
    elim (Bool-cases (is_taken gid r.id b.refunds)) [
      | inl t ↦ rw t called
      | inr t ↦ rw t (elim (Bool-cases is_done) [
        | inl d ↦ rw d (
            settle_result-Implements a (update_refund r.id (set_gateway gid) (log_call r b)) r.id
              (set_gateway gid s) stored
              (find-set_refund r.id (set_gateway gid) b.refunds s (λ x. refl) found)
              (Advance.settles busy (inl refl)))
        | inr d ↦ rw d stored
      ])
    ]

execute-Implements :
    (admin : ℕ) (reply : GatewayReply) (b : Books) (r : Refund) (p : Payment)
    → find_refund r.id b.refunds ≡ some r
    → is_open_refund r.status ≡ true
    → find_payment r.payment_id b.payments ≡ some p
    → exceeds r p b.refunds ≡ false
    → Implements b (execute admin reply r b).0
unfolding execute
execute-Implements admin GatewayReply.unavailable b r p found o paid enough =
    start_processing-Implements admin b r p found o paid enough
execute-Implements admin GatewayReply.refuses b r p found o paid enough =
    Advance-Implements b (start_processing admin r.id b) r.id _ (started admin r)
      (status-Keeps _ (λ x. (refl, refl, refl)))
      (start_processing-Implements admin b r p found o paid enough)
      (find-set_refund r.id (started admin) b.refunds r (λ x. refl) found)
      (Advance.settles refl (inr refl))
execute-Implements admin (GatewayReply.answers gid is_done) b r p found o paid enough =
    record_answer-Implements b (start_processing admin r.id b) r (started admin r) gid is_done
      (start_processing-Implements admin b r p found o paid enough)
      (find-set_refund r.id (started admin) b.refunds r (λ x. refl) found) refl

pub payment_cases :
    (q : Result Payment) → ((e : Exception) × (q ≡ err e)) ⊎ ((v : Payment) × (q ≡ ok v))
payment_cases (err e) = inl (e, refl)
payment_cases (ok v) = inr (v, refl)

pub approve_refund-Implements :
    (admin : ℕ) (guarded : Bool) (reply : GatewayReply) (k : ℕ) (b : Books)
    → Implements b (approve_refund admin guarded reply k b).0
unfolding approve_refund
approve_refund-Implements admin guarded reply k b = elim (Option-cases (find_refund k b.refunds)) [
  | inl gone ↦ rw (gone, approve_refund) (same-Implements b)
  | inr (r, found) ↦
      rw (found, approve_refund)
        (elim (Bool-cases (is_processed r.status)) [
          | inl done ↦ rw done (same-Implements b)
          | inr due ↦ rw due (elim (payment_cases (check_approve guarded r b)) [
            | inl (e, refused) ↦ rw refused (same-Implements b)
            | inr (p, passed) ↦
                let (o, paid, m, enough, g) = check_approve-parts guarded r b passed in
                rw passed (
                  execute-Implements admin reply b r p
                    (subst (λ j. find_refund j b.refunds ≡ some r)
                      (sym (found-id k b.refunds r found)) found)
                    o paid enough)
          ])
        ])
]

pub reject_refund-Implements :
    (admin k : ℕ) (b : Books) {after : Books}
    → reject_refund admin k b ≡ ok after
    → Implements b after
unfolding reject_refund
reject_refund-Implements admin k b {after} e =
    let (r, found, e1) = or_throw->>=-eq-ok (find_refund k b.refunds) not_found _ e in
    let (c, e2) = throw_if->>-eq-ok (not (is_requested r.status)) bad_request _ e1 in
    subst (Implements b) (ok-injective e2) (
      Advance-Implements b b k _ r (status-Keeps _ (λ x. (refl, refl, refl))) (same-Implements b)
        found (Advance.refuses (ground arith) refl refl))
