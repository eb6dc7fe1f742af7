-- ===== src/Refund/Execution.antt =====
-- The calls that carry a refund out (src/modules/ecommerce/payment/refund.service.ts): approval, rejection,
-- manual disbursement and the gateway's webhook. Refund/Settlement has the transaction that they share.
use e_commerce_backend.Common.{
  ℕ, ◌+◌, Bool, true, false, not, ◌&&◌, Option, none, some, List, ◌∷◌, ◌==◌, ltb, any_of, find,
  if◌then◌else◌, Exception, bad_request, not_found, plain_error, Result, ok, err, ◌>>=◌, ◌>>◌,
  throw_if, or_throw,
}
use e_commerce_backend.Common.Text.{Text, trim, is_blank}
use e_commerce_backend.Finance.{
  Books, Payment, Refund, RefundStatus, find_payment, find_refund, update_refund, is_held,
  is_processed,
}
use e_commerce_backend.Refund.{sum_other_refunds, is_manual, has_payout_in_flight}
use e_commerce_backend.Refund.Settlement.{finalize_refund, scoped_orders}

abbrev pub is_open_refund : RefundStatus → Bool
is_open_refund RefundStatus.requested = true
is_open_refund RefundStatus.processing = true
is_open_refund _ = false

-- The ceiling, asserted again: `otherRefunded + amount > payment.amount + EPSILON`
abbrev pub exceeds : Refund → Payment → List Refund → Bool
exceeds r p refunds = ltb (p.amount + 1) (sum_other_refunds is_held p.id r.id refunds + r.amount)

-- The checks of `approveRefund`; `guarded` is false for a return.
unfoldable pub check_approve : Bool → Refund → Books → Result Payment
check_approve guarded r b = do
  throw_if (not (is_open_refund r.status)) bad_request
  p ← or_throw (find_payment r.payment_id b.payments) plain_error
  throw_if (is_manual p) bad_request
  throw_if (exceeds r p b.refunds) bad_request
  throw_if (guarded && has_payout_in_flight (scoped_orders r b.shop)) bad_request
  ok p

-- What the gateway does with a refund: no gateway or credentials, an error, or an answer with its
-- identifier and whether the refund is done already.
pub data GatewayReply : Type 0 where
  unavailable refuses : GatewayReply
  answers : ℕ → Bool → GatewayReply

-- What a call has written, and the exception it ended in.
abbrev pub Outcome : Type 0
Outcome = Books × Option Exception

abbrev pub settle_result : Books → Result Books → Outcome
settle_result before (ok b) = (b, none)
settle_result before (err e) = (before, some e)

abbrev pub is_taken : ℕ → ℕ → List Refund → Bool
is_taken gid k =
    any_of (λ r. not (r.id == k) && (elim r.gateway_refund_id [ none ↦ false | some g ↦ g == gid ]))

abbrev pub log_call : Refund → Books → Books
log_call r b = record b {
  gateway_calls = record { refund_id = r.id; amount = r.amount } ∷ b.gateway_calls;
}

abbrev pub set_gateway : ℕ → Refund → Refund
set_gateway gid r = record r { gateway_refund_id = some gid }

-- The rest of `approveRefund` from the gateway's answer on. Another refund with the same identifier
-- breaks the unique key.
unfoldable pub record_answer : Refund → ℕ → Bool → Books → Outcome
unfolding finalize_refund
record_answer r gid is_done b =
    let stored = update_refund r.id (set_gateway gid) (log_call r b) in
    if is_taken gid r.id b.refunds
    then (log_call r b, some plain_error)
    else if is_done
    then settle_result stored (finalize_refund r.id stored)
    else (stored, none)

abbrev pub start_processing : ℕ → ℕ → Books → Books
start_processing admin k =
    update_refund k
      (λ x. record x { status = RefundStatus.processing; approved_by_id = some admin })

unfoldable pub execute : ℕ → GatewayReply → Refund → Books → Outcome
unfolding record_answer
execute admin GatewayReply.unavailable r b = (start_processing admin r.id b, some bad_request)
execute admin GatewayReply.refuses r b = (
  update_refund r.id (λ x. record x { status = RefundStatus.failed })
      (start_processing admin r.id b),
  some bad_request,
)
execute admin (GatewayReply.answers gid is_done) r b =
    record_answer r gid is_done (start_processing admin r.id b)

-- `approveRefund`
unfoldable pub approve_refund : ℕ → Bool → GatewayReply → ℕ → Books → Outcome
unfolding check_approve execute
approve_refund admin guarded reply k b = elim (find_refund k b.refunds) [
  | none ↦ (b, some not_found)
  | some r ↦
      if is_processed r.status
      then (b, none)
      else elim (check_approve guarded r b) [ err e ↦ (b, some e) | ok p ↦ execute admin reply r b ]
]

abbrev pub is_requested : RefundStatus → Bool
is_requested RefundStatus.requested = true
is_requested _ = false

-- `rejectRefund`
unfoldable pub reject_refund : ℕ → ℕ → Books → Result Books
reject_refund admin k b = do
  r ← or_throw (find_refund k b.refunds) not_found
  throw_if (not (is_requested r.status)) bad_request
  ok (
      update_refund k
        (λ x. record x { status = RefundStatus.rejected; approved_by_id = some admin }) b)

-- The checks of `disburseManualRefund`
unfoldable pub check_disburse : Refund → Books → Result Payment
check_disburse r b = do
  throw_if (not (is_open_refund r.status)) bad_request
  p ← or_throw (find_payment r.payment_id b.payments) plain_error
  throw_if (not (is_manual p)) bad_request
  throw_if (exceeds r p b.refunds) bad_request
  ok p

-- `disburseManualRefund`
unfoldable pub disburse_manual_refund : ℕ → ℕ → Text → Books → Outcome
unfolding check_disburse finalize_refund
disburse_manual_refund admin k reference b =
    if is_blank (trim reference) then (b, some bad_request) else elim (find_refund k b.refunds) [
      | none ↦ (b, some not_found)
      | some r ↦ if is_processed r.status then (b, none) else elim (check_disburse r b) [
        | err e ↦ (b, some e)
        | ok p ↦
            let signed = update_refund k (λ x. record x { approved_by_id = some admin }) b in
            settle_result signed (finalize_refund k signed)
      ]
    ]

-- The status of the webhook's entity.
pub data WebhookStatus : Type 0 where
  processed failed other : WebhookStatus

abbrev pub is_settled_refund : RefundStatus → Bool
is_settled_refund RefundStatus.processed = true
is_settled_refund RefundStatus.failed = true
is_settled_refund _ = false

abbrev pub has_gateway_refund : ℕ → Refund → Bool
has_gateway_refund gid r = elim r.gateway_refund_id [ none ↦ false | some g ↦ g == gid ]

-- `handleRefundWebhook`
unfoldable pub handle_refund_webhook : ℕ → WebhookStatus → Books → Outcome
unfolding finalize_refund
handle_refund_webhook gid status b = elim (find (has_gateway_refund gid) b.refunds) [
  | none ↦ (b, none)
  | some r ↦ if is_settled_refund r.status then (b, none) else elim status [
    | WebhookStatus.processed ↦ settle_result b (finalize_refund r.id b)
    | WebhookStatus.failed ↦
        (update_refund r.id (λ x. record x { status = RefundStatus.failed }) b, none)
    | WebhookStatus.other ↦ (b, none)
  ]
]
