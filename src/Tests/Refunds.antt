-- ===== src/Tests/Refunds.antt =====
-- The theorems on refunds, at concrete inputs.
use e_commerce_backend.Common.{
  ◌≡◌, refl, true, false, none, some, [], ◌∷◌, arith, Result, ok, err, bad_request,
}
use e_commerce_backend.Common.Int.{pos, ◌-ℤ◌, ◌+ℤ◌}
use e_commerce_backend.Order.Status.{OrderStatus, compute_parent_status}
use e_commerce_backend.Database.{Database}
use e_commerce_backend.Finance.{
  Books, Payment, TransactionStatus, Refund, RefundStatus, ReturnRequest, ReturnStatus,
  ResolutionType,
}
use e_commerce_backend.Refund.{
  RefundInput, request_refund, resolve_scope, customer_of, get_refundable_payment, check_amount,
}
use e_commerce_backend.Refund.Execution.{
  GatewayReply, WebhookStatus, approve_refund, check_approve, handle_refund_webhook,
}
use e_commerce_backend.Refund.Settlement.{
  finalize_refund, finalize_transaction, settle_orders, settle_slices, settle_slice, settle_parent,
}
use e_commerce_backend.Refund.Sellers.{refund_for_return}
use e_commerce_backend.Refund.Ledger.{IsCovered}
use e_commerce_backend.Refund.Refinement.{captured_in, Implements}
use e_commerce_backend.Refund.Reach.{Call, Calls, Calls-Implements, Calls-IsCovered}
use e_commerce_backend.Refund.Repeats.{approve_refund-pays_twice, finalize_refund-blocks}
use e_commerce_backend.Refund.Restock.{restock}
use e_commerce_backend.Tests.{level, placed, sub_order_of, get_or_start}

abbrev pub prepaid : Payment
prepaid = record {
  id = 500;
  order_id = 7;
  is_cod = false;
  has_gateway_id = true;
  amount = 27600;
  status = TransactionStatus.captured;
}

-- the order for two units is paid online
abbrev pub paid_books : Database → Books
paid_books db = record {
  shop = db;
  payments = prepaid ∷ [];
  refunds = [];
  returns = [];
  return_events = [];
  clawbacks = [];
  payouts = [];
  payout_items = [];
  gateway_calls = [];
  mails = [];
  tcs_reversals = [];
}

abbrev pub books_or : Books → Result Books → Books
books_or b (ok after) = after
books_or b (err e) = b

abbrev start : Books
start = paid_books (placed OrderStatus.pending (level 3 2 5))

abbrev part : RefundInput
part = record {
  order_id = some 7;
  seller_order_id = none;
  amount = some (pos 10000);
  restock = false;
}

abbrev requested : Books
requested = books_or start (request_refund 20 part 900 start)

abbrev approved : Books
approved = (approve_refund 1 true (GatewayReply.answers 77 false) 900 requested).0

abbrev settled : Books
settled = (handle_refund_webhook 77 WebhookStatus.processed approved).0

history : Calls start settled
unfolding request_refund resolve_scope customer_of get_refundable_payment check_amount ◌-ℤ◌ ◌+ℤ◌
history =
    Calls.then
      (Calls.then
        (Calls.then (Calls.none_yet start) (Call.requests 20 part 900 start requested refl refl))
        (Call.approves 1 (GatewayReply.answers 77 false) 900 requested))
      (Call.hears_from_gateway 77 WebhookStatus.processed approved)

nothing_held : IsCovered (captured_in start) start.refunds
nothing_held = record { unique = tt; covered = λ k n e. omega arith; executed = tt }

-- a customer asks for a part, an administrator approves it, and the gateway reports it as done
Calls-IsCovered_example : IsCovered (captured_in settled) settled.refunds
Calls-IsCovered_example = Calls-IsCovered history nothing_held

Calls-Implements_example : Implements start settled
Calls-Implements_example = Calls-Implements history nothing_held

abbrev asked : Refund
asked = record {
  id = 900;
  order_id = 7;
  seller_order_id = none;
  payment_id = 500;
  amount = 10000;
  status = RefundStatus.requested;
  restock = false;
  gateway_refund_id = none;
  requested_by_id = some 20;
  approved_by_id = none;
}

abbrev waiting : Books
waiting = record start { refunds = asked ∷ [] }

approve_refund-pays_twice_example :
    (approve_refund 1 true (GatewayReply.answers 77 false) 900 waiting).1 ≡ none
    × (approve_refund 1 true
        (GatewayReply.answers 78 false)
        900
        (approve_refund 1 true (GatewayReply.answers 77 false) 900 waiting).0).1
      ≡ none
    × (approve_refund 1 true
        (GatewayReply.answers 78 false)
        900
        (approve_refund 1 true (GatewayReply.answers 77 false) 900 waiting).0).0.gateway_calls
      ≡ record { refund_id = 900; amount = 10000 } ∷ record { refund_id = 900; amount = 10000 } ∷ []
unfolding check_approve
approve_refund-pays_twice_example =
    approve_refund-pays_twice 1 77 78 900 waiting refl refl refl refl refl

abbrev one_unit_back : ReturnRequest
one_unit_back = record {
  id = 800;
  order_id = 7;
  seller_order_id = 70;
  seller_id = 3;
  customer_id = 4;
  status = ReturnStatus.qc_passed;
  resolution_type = ResolutionType.refund;
  items = record { order_item_id = 700; quantity = 1 } ∷ [];
  refund_id = some 900;
  refund_amount = none;
  approved_by_id = none;
}

abbrev refunded_in_part : Books
refunded_in_part = books_or waiting (finalize_refund 900 waiting)

finalize_refund-blocks_example :
    (get_refundable_payment 7 refunded_in_part ≡ err bad_request)
    × (refund_for_return one_unit_back 5000 1 901 (GatewayReply.answers 79 true) refunded_in_part
        ≡ (refunded_in_part, some bad_request))
unfolding finalize_refund finalize_transaction settle_orders settle_slices settle_slice
    settle_parent compute_parent_status ◌-ℤ◌ ◌+ℤ◌
finalize_refund-blocks_example =
    finalize_refund-blocks 900 waiting one_unit_back 5000 1 901 (GatewayReply.answers 79 true) refl
      refl refl refl refl

abbrev shipped : Database
shipped = placed OrderStatus.delivered (level 3 0 3)

abbrev restocked : Database
restocked =
    get_or_start
      (restock none 900 7 (sub_order_of OrderStatus.delivered ∷ []) (one_unit_back ∷ []) shipped)
