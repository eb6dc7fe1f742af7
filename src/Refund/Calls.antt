-- ===== src/Refund/Calls.antt =====
-- Manual disbursements and webhooks implement entries of the abstract ledger.
use e_commerce_backend.Common.{
  ℕ, ◌≡◌, refl, subst, true, false, not, Option, none, some, List, [], ◌∷◌, arith, ◌==◌, inl, inr,
  find, ok, Bool-cases, Option-cases, or_throw->>=-eq-ok, throw_if->>-eq-ok, ok-injective,
  some-injective, plain_error, bad_request,
}
use e_commerce_backend.Common.Text.{Text, trim, is_blank}
use e_commerce_backend.Finance.{
  Books, Payment, Refund, RefundStatus, find_payment, find_refund, update_refund, is_processed,
  is_held,
}
use e_commerce_backend.Refund.{sum_other_refunds, is_manual}
use e_commerce_backend.Refund.Table.{AreUnique, found-id, find-set_refund, sum_other_refunds-set}
use e_commerce_backend.Refund.Ledger.{IsExecuted, Advance, IsCovered, found-IsExecuted}
use e_commerce_backend.Refund.Execution.{
  Outcome, settle_result, exceeds, is_open_refund, check_disburse, disburse_manual_refund,
  WebhookStatus, is_settled_refund, has_gateway_refund, handle_refund_webhook,
}
use e_commerce_backend.Refund.Settlement.{finalize_refund, set_processed}
use e_commerce_backend.Refund.Refinement.{
  captured_in, Implements, same-Implements, status-Keeps, Advance-Implements,
  settle_result-Implements,
}
use e_commerce_backend.Refund.Approval.{checked-takes, payment_cases}

check_disburse-parts :
    (r : Refund) (b : Books) {p : Payment}
    → check_disburse r b ≡ ok p
    → (is_open_refund r.status ≡ true)
      × (find_payment r.payment_id b.payments ≡ some p)
      × (is_manual p ≡ true)
      × (exceeds r p b.refunds ≡ false)
unfolding check_disburse
check_disburse-parts r b {p} e =
    let (c0, e1) = throw_if->>-eq-ok (not (is_open_refund r.status)) bad_request _ e in
    let (q, c1, e2) = or_throw->>=-eq-ok (find_payment r.payment_id b.payments) plain_error _ e1 in
    let (c2, e3) = throw_if->>-eq-ok (not (is_manual q)) bad_request _ e2 in
    let (c3, e4) = throw_if->>-eq-ok (exceeds r q b.refunds) bad_request _ e3 in
    let same = ok-injective e4 in
    let manual : is_manual q ≡ true = ground arith in
    (
      ground arith,
      subst (λ z. find_payment r.payment_id b.payments ≡ some z) same c1,
      subst (λ z. is_manual z ≡ true) same manual,
      subst (λ z. exceeds r z b.refunds ≡ false) same c3,
    )

abbrev sign : ℕ → Refund → Refund
sign admin r = record r { approved_by_id = some admin }

disburse-Implements :
    (admin k : ℕ) (b : Books) (r : Refund) (p : Payment)
    → find_refund k b.refunds ≡ some r
    → check_disburse r b ≡ ok p
    → Implements b
        (settle_result
          (update_refund k (sign admin) b)
          (finalize_refund k (update_refund k (sign admin) b))).0
disburse-Implements admin k b r p found passed =
    let (o, paid, m, enough) = check_disburse-parts r b passed in
    let own = found-id k b.refunds r found in
    let takes =
      subst
        (λ j.
          Advance (captured_in b) (sum_other_refunds is_held r.payment_id j b.refunds)
            (sign admin r) (set_processed (sign admin r)))
        own (retake (checked-takes b r (set_processed r) p o paid enough refl refl)) in
    settle_result-Implements b (update_refund k (sign admin) b) k (sign admin r)
      (Advance-Implements b b k (sign admin) r (status-Keeps (sign admin) (λ x. (refl, refl, refl)))
        (same-Implements b) found (Advance.is_signed refl refl))
      (find-set_refund k (sign admin) b.refunds r (λ x. refl) found)
      (rw (sum_other_refunds-set r.payment_id k (sign admin) b.refunds (λ x. refl)) takes)
  where
    retake :
        Advance
          (captured_in b)
          (sum_other_refunds is_held r.payment_id r.id b.refunds)
          r
          (set_processed r)
        → Advance
            (captured_in b)
            (sum_other_refunds is_held r.payment_id r.id b.refunds)
            (sign admin r)
            (set_processed (sign admin r))
    retake (Advance.takes n a c d h g) = Advance.takes n a c d h g
    retake (Advance.settles a d) = Advance.settles a d
    retake (Advance.refuses a d g) = Advance.refuses a d g
    retake (Advance.is_answered a d) = Advance.is_answered a d
    retake (Advance.is_signed a g) = Advance.is_signed a g

pub disburse_manual_refund-Implements :
    (admin k : ℕ) (reference : Text) (b : Books)
    → Implements b (disburse_manual_refund admin k reference b).0
unfolding disburse_manual_refund
disburse_manual_refund-Implements admin k reference b =
    elim (Bool-cases (is_blank (trim reference))) [
      | inl blank ↦ rw blank (same-Implements b)
      | inr given ↦ rw given (elim (Option-cases (find_refund k b.refunds)) [
        | inl gone ↦ rw (gone, disburse_manual_refund) (same-Implements b)
        | inr (r, found) ↦
            rw (found, disburse_manual_refund)
              (elim (Bool-cases (is_processed r.status)) [
                | inl done ↦ rw done (same-Implements b)
                | inr due ↦ rw due (elim (payment_cases (check_disburse r b)) [
                  | inl (e, refused) ↦ rw refused (same-Implements b)
                  | inr (p, passed) ↦ rw passed (disburse-Implements admin k b r p found passed)
                ])
              ])
      ])
    ]

gateway_refund :
    (gid : ℕ) (o : Option ℕ) → (elim o [ none ↦ false | some g ↦ g == gid ]) ≡ true → o ≡ some gid
gateway_refund gid none h = cc
gateway_refund gid (some g) h = ground arith

found_by_gateway :
    (gid : ℕ) (rs : List Refund) (r : Refund)
    → AreUnique rs
    → find (has_gateway_refund gid) rs ≡ some r
    → (find_refund r.id rs ≡ some r) × (r.gateway_refund_id ≡ some gid)
found_by_gateway gid [] r u e = cc
found_by_gateway gid (x ∷ rs) r (n, u) e = elim (Bool-cases (has_gateway_refund gid x)) [
  | inl q ↦
      let same : x ≡ r = some-injective (rw q at e) in
      subst (λ z. (find_refund z.id (x ∷ rs) ≡ some z) × (z.gateway_refund_id ≡ some gid)) same
        (ground arith, gateway_refund gid x.gateway_refund_id q)
  | inr q ↦ let (f, g) = found_by_gateway gid rs r u (rw q at e) in (ground (arith, f, n), g)
]

executed-processing :
    (r : Refund) (gid : ℕ)
    → r.gateway_refund_id ≡ some gid
    → IsExecuted r
    → is_settled_refund r.status ≡ false
    → r.status ≡ RefundStatus.processing
executed-processing r gid g x s = let h = rw g at x in ground arith

pub handle_refund_webhook-Implements :
    (gid : ℕ) (status : WebhookStatus) (b : Books)
    → IsCovered (captured_in b) b.refunds
    → Implements b (handle_refund_webhook gid status b).0
unfolding handle_refund_webhook
handle_refund_webhook-Implements gid status b c =
    elim (Option-cases (find (has_gateway_refund gid) b.refunds)) [
      | inl gone ↦ rw (gone, handle_refund_webhook) (same-Implements b)
      | inr (r, known) ↦
          rw (known, handle_refund_webhook)
            (elim (Bool-cases (is_settled_refund r.status)) [
              | inl settled ↦ rw settled (same-Implements b)
              | inr busy ↦
                  let (found, g) = found_by_gateway gid b.refunds r c.unique known in
                  let at_work =
                    executed-processing r gid g (found-IsExecuted r.id b.refunds r found c.executed)
                      busy in
                  rw busy (heard status r found at_work)
            ])
    ]
  where
    heard :
        (status : WebhookStatus) (r : Refund)
        → find_refund r.id b.refunds ≡ some r
        → r.status ≡ RefundStatus.processing
        → Implements b
            (elim status as (λ x. Outcome) [
              | WebhookStatus.processed ↦ settle_result b (finalize_refund r.id b)
              | WebhookStatus.failed ↦
                  (update_refund r.id (λ x. record x { status = RefundStatus.failed }) b, none)
              | WebhookStatus.other ↦ (b, none)
            ]).0
    heard WebhookStatus.processed r found at_work =
        settle_result-Implements b b r.id r (same-Implements b) found
          (Advance.settles at_work (inl refl))
    heard WebhookStatus.failed r found at_work =
        Advance-Implements b b r.id _ r (status-Keeps _ (λ x. (refl, refl, refl)))
          (same-Implements b) found (Advance.settles at_work (inr refl))
    heard WebhookStatus.other r found at_work = same-Implements b
