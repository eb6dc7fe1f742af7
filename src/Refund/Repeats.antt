-- ===== src/Refund/Repeats.antt =====
-- What repeated calls of the refund service do: a second approval while the gateway is still working, and
-- a second refund of an order.
use e_commerce_backend.Common.{
  ℕ, ◌+◌, ◌≡◌, refl, sym, ap, ◌∙◌, subst, Bool, true, false, not, ◌&&◌, none, some, List, [], ◌∷◌,
  arith, ◌==◌, any_of, ltb, ok, err, bad_request, some-injective,
}
use e_commerce_backend.Finance.{
  Books, Payment, Refund, RefundStatus, ReturnRequest, find_payment, find_refund, set_payment,
  set_refund, update_refund, is_captured_payment, is_processed,
}
use e_commerce_backend.Refund.{
  captured_payment, get_refundable_payment, is_manual, has_payout_in_flight,
}
use e_commerce_backend.Refund.Table.{found-id, find-set_refund, sum_other_refunds-set}
use e_commerce_backend.Refund.Execution.{
  Outcome, GatewayReply, approve_refund, check_approve, execute, record_answer, is_taken, log_call,
  set_gateway, start_processing, is_open_refund, exceeds,
}
use e_commerce_backend.Refund.Settlement.{scoped_orders, transaction_or_part, finalize_refund}
use e_commerce_backend.Refund.Sellers.{refund_for_return, reserved}
use e_commerce_backend.Refund.Effects.{finalize_due-Finalized}
use e_commerce_backend.Refund.Approval.{check_approve-parts, payment-id, started}

is_taken-set :
    (gid k : ℕ) (f : Refund → Refund) (rs : List Refund)
    → ((x : Refund) → (f x).id ≡ x.id)
    → is_taken gid k (set_refund k f rs) ≡ is_taken gid k rs
is_taken-set gid k f [] same = refl
is_taken-set gid k f (x ∷ rs) same = ground (arith, same x, is_taken-set gid k f rs same)

-- The books after an approval that the gateway answers with `pending`.
abbrev pub pending_answer : ℕ → ℕ → Refund → Books → Books
pending_answer admin gid r b =
    update_refund r.id (set_gateway gid) (log_call r (start_processing admin r.id b))

abbrev pub answered : ℕ → ℕ → Refund → Refund
answered admin gid r = record r {
  status = RefundStatus.processing;
  approved_by_id = some admin;
  gateway_refund_id = some gid;
}

approve_refund-pending :
    (admin gid k : ℕ) (b : Books) {r : Refund} {p : Payment}
    → find_refund k b.refunds ≡ some r
    → is_processed r.status ≡ false
    → check_approve true r b ≡ ok p
    → is_taken gid r.id b.refunds ≡ false
    → approve_refund admin true (GatewayReply.answers gid false) k b
      ≡ (pending_answer admin gid r b, none)
unfolding approve_refund execute record_answer
approve_refund-pending admin gid k b {r} {p} found due passed free =
    rw (found, approve_refund)
      (rw due
        (rw passed (rw (is_taken-set gid r.id (started admin) b.refunds (λ x. refl), free) refl)))

check_approve-passes :
    (r : Refund) (b : Books) {p : Payment}
    → is_open_refund r.status ≡ true
    → find_payment r.payment_id b.payments ≡ some p
    → is_manual p ≡ false
    → exceeds r p b.refunds ≡ false
    → has_payout_in_flight (scoped_orders r b.shop) ≡ false
    → check_approve true r b ≡ ok p
unfolding check_approve
check_approve-passes r b {p} o paid m enough free = rw o (rw paid (rw m (rw enough (rw free refl))))

exceeds-answered :
    (admin gid : ℕ) (r : Refund) (p : Payment) (b : Books)
    → exceeds (answered admin gid r) p (pending_answer admin gid r b).refunds
      ≡ exceeds r p b.refunds
exceeds-answered admin gid r p b =
    ap (λ n. ltb (p.amount + 1) (n + r.amount))
      (sum_other_refunds-set p.id r.id (set_gateway gid) (start_processing admin r.id b).refunds
          (λ x. refl)
        ∙ sum_other_refunds-set p.id r.id (started admin) b.refunds (λ x. refl))

-- Where the approval of a refund that is not processed passes its checks and the gateway answers
-- `pending` twice, with two identifiers that no other refund has, two approvals of the refund both end
-- without an exception, and the gateway has been asked for its amount twice.
pub approve_refund-pays_twice :
    (admin gid again k : ℕ) (b : Books) {r : Refund} {p : Payment}
    → find_refund k b.refunds ≡ some r
    → is_processed r.status ≡ false
    → check_approve true r b ≡ ok p
    → is_taken gid k b.refunds ≡ false
    → is_taken again k b.refunds ≡ false
    → (approve_refund admin true (GatewayReply.answers gid false) k b).1 ≡ none
      × (approve_refund admin true
          (GatewayReply.answers again false)
          k
          (approve_refund admin true (GatewayReply.answers gid false) k b).0).1
        ≡ none
      × (approve_refund admin true
          (GatewayReply.answers again false)
          k
          (approve_refund admin true (GatewayReply.answers gid false) k b).0).0.gateway_calls
        ≡ record { refund_id = k; amount = r.amount }
          ∷ record { refund_id = k; amount = r.amount }
          ∷ b.gateway_calls
approve_refund-pays_twice admin gid again k b {r} {p} found due passed free free2 =
    let key = found-id k b.refunds r found in
    let (o, paid, m, enough, g) = check_approve-parts true r b passed in
    let own = subst (λ j. find_refund j b.refunds ≡ some r) (sym key) found in
    let mid = pending_answer admin gid r b in
    let one =
      approve_refund-pending admin gid k b found due passed
        (subst (λ j. is_taken gid j b.refunds ≡ false) (sym key) free) in
    let started_found = find-set_refund r.id (started admin) b.refunds r (λ x. refl) own in
    let found2 =
      find-set_refund r.id (set_gateway gid) (start_processing admin r.id b).refunds
        (started admin r) (λ x. refl) started_found in
    let passed2 =
      check_approve-passes (answered admin gid r) mid refl paid m
        (exceeds-answered admin gid r p b ∙ enough) g in
    let untaken =
      is_taken-set again r.id (set_gateway gid) (start_processing admin r.id b).refunds (λ x. refl)
      ∙ is_taken-set again r.id (started admin) b.refunds (λ x. refl)
      ∙ subst (λ j. is_taken again j b.refunds ≡ false) (sym key) free2 in
    let two =
      approve_refund-pending admin again k mid
        (subst (λ j. find_refund j mid.refunds ≡ some (answered admin gid r)) key found2) refl
        passed2 untaken in
    let both =
      ap (λ (x : Outcome). approve_refund admin true (GatewayReply.answers again false) k x.0) one
      ∙ two in
    (
      ap (λ (x : Outcome). x.1) one,
      ap (λ (x : Outcome). x.1) both,
      subst
          (λ j.
            (approve_refund admin true (GatewayReply.answers again false) k
              (approve_refund admin true (GatewayReply.answers gid false) k b).0).0.gateway_calls
            ≡ record { refund_id = j; amount = r.amount }
              ∷ record { refund_id = j; amount = r.amount }
              ∷ b.gateway_calls)
          key (ap (λ (x : Outcome). x.0.gateway_calls) both),
    )

-- Whether a payment is another captured payment of the order.
abbrev pub is_another : ℕ → ℕ → Payment → Bool
is_another order_id k p =
    (p.order_id == order_id && is_captured_payment p.status) && not (p.id == k)

transaction_or_part-uncaptured :
    (whole : Bool) → is_captured_payment (transaction_or_part whole) ≡ false
transaction_or_part-uncaptured true = refl
transaction_or_part-uncaptured false = refl

captured_payment-set :
    (o k : ℕ) (whole : Bool) (ps : List Payment)
    → any_of (is_another o k) ps ≡ false
    → captured_payment o (set_payment k (λ x. record x { status = transaction_or_part whole }) ps)
      ≡ none
captured_payment-set o k whole [] h = refl
captured_payment-set o k whole (p ∷ ps) h =
    ground (arith, transaction_or_part-uncaptured whole, captured_payment-set o k whole ps)

-- When a refund of the only captured payment of an order is finalized, in full or in part, the order
-- has no refundable payment any more: every later request of a refund is refused, and a return of the
-- order, also the one that this refund belongs to, cannot be refunded or resumed.
pub finalize_refund-blocks :
    (k : ℕ) (b : Books) {r : Refund} {after : Books} (ret : ReturnRequest) (amount actor fresh : ℕ)
    (reply : GatewayReply)
    → find_refund k b.refunds ≡ some r
    → is_processed r.status ≡ false
    → any_of (is_another r.order_id r.payment_id) b.payments ≡ false
    → finalize_refund k b ≡ ok after
    → ret.order_id ≡ r.order_id
    → (get_refundable_payment r.order_id after ≡ err bad_request)
      × (refund_for_return ret amount actor fresh reply after ≡ (after, some bad_request))
unfolding get_refundable_payment refund_for_return reserved
finalize_refund-blocks k b {r} {after} ret amount actor fresh reply found due only e same =
    let f = finalize_due-Finalized k b found due e in
    let row = some-injective (sym f.found ∙ found) in
    let key = payment-id r.payment_id b.payments f.payment (
      subst (λ (x : Refund). find_payment x.payment_id b.payments ≡ some f.payment) row
        f.paid_by) in
    let none_left : captured_payment r.order_id after.payments ≡ none =
      ap (captured_payment r.order_id) f.payments
      ∙ captured_payment-set r.order_id f.payment.id _ b.payments
          (subst (λ j. any_of (is_another r.order_id j) b.payments ≡ false) (sym key) only) in
    let none_for : captured_payment ret.order_id after.payments ≡ none =
      ap (λ o. captured_payment o after.payments) same ∙ none_left in
    (rw none_left refl, rw (none_for, refund_for_return) refl)
