-- ===== src/Tests/Returns.antt =====
-- The theorems on returns, at concrete inputs.
use e_commerce_backend.Common.{◌+◌, ◌≤◌, ◌≡◌, refl, true, false, none, some, [], ◌∷◌, arith}
use e_commerce_backend.Common.Int.{clip, ◌-ℤ◌, ◌+ℤ◌}
use e_commerce_backend.Order.Status.{OrderStatus}
use e_commerce_backend.Database.{SellerOrder, PayoutStatus}
use e_commerce_backend.Finance.{
  Books, ReturnStatus, ResolutionType, ReturnRequest, seller_order_total,
}
use e_commerce_backend.Refund.Execution.{GatewayReply}
use e_commerce_backend.Returns.{
  ReturnInput, check_return, get_customer, collect_lines, open_return, request_return,
}
use e_commerce_backend.Returns.Calls.{approve_transaction, move_transaction, transition_to_received}
use e_commerce_backend.Returns.Resolution.{
  clawback_amount, complete_qc_passed_refund, complete_qc_passed,
}
use e_commerce_backend.Returns.Ledger.{IsTraced}
use e_commerce_backend.Returns.Within.{IsBounded}
use e_commerce_backend.Returns.Moves.{log_of}
use e_commerce_backend.Returns.Reach.{Step, Steps, Steps-IsTraced, Steps-IsBounded}
use e_commerce_backend.Returns.Clawback.{clawback_amount-bounded}
use e_commerce_backend.Returns.Replacement.{swapped, complete_qc_passed-swaps}
use e_commerce_backend.Tests.{level, placed, sub_order_of}
use e_commerce_backend.Tests.Refunds.{paid_books, books_or}

-- delivered, and paid out to the seller
abbrev settled_slice : SellerOrder
settled_slice = record (sub_order_of OrderStatus.delivered) {
  delivered_at = some 1000;
  payout_status = PayoutStatus.paid;
}

abbrev start : Books
start =
    paid_books
      (record (placed OrderStatus.delivered (level 3 0 3)) { seller_orders = settled_slice ∷ [] })

-- one item in two lines
abbrev both_back : ReturnInput
both_back = record {
  seller_order_id = 70;
  resolution_type = none;
  items =
      record { order_item_id = 700; quantity = 1 }
      ∷ record { order_item_id = 700; quantity = 1 }
      ∷ [];
}

abbrev asked : Books
asked = books_or start (request_return 20 false both_back 2000 800 start)

abbrev accepted : Books
accepted = approve_transaction 10 800 asked

abbrev collected : Books
collected =
    move_transaction 800 ReturnStatus.approved ReturnStatus.pickup_scheduled (some 10) accepted

abbrev back : Books
back = transition_to_received 800 none collected

abbrev checked : Books
checked = move_transaction 800 ReturnStatus.received ReturnStatus.qc_passed (some 10) back

abbrev whole_return : ReturnStatus → ResolutionType → ReturnRequest
whole_return status resolution = record {
  id = 800;
  order_id = 7;
  seller_order_id = 70;
  seller_id = 3;
  customer_id = 4;
  status = status;
  resolution_type = resolution;
  items = record { order_item_id = 700; quantity = 2 } ∷ [];
  refund_id = none;
  refund_amount = none;
  approved_by_id = some 10;
}

abbrev repaid : Books
repaid =
    (complete_qc_passed_refund (whole_return ReturnStatus.qc_passed ResolutionType.refund) (some 10)
      900 910 (GatewayReply.answers 77 true) checked).0

history : Steps start repaid
unfolding request_return check_return get_customer collect_lines open_return
history =
    Steps.then
      (Steps.then
        (Steps.then
          (Steps.then
            (Steps.then
              (Steps.then (Steps.none_yet start) (
                Step.requests 20 false both_back 2000 800 start.shop start asked 4 settled_slice
                  (record { order_item_id = 700; quantity = 2 } ∷ []) refl refl refl refl))
              (Step.approves 10 800 asked))
            (Step.schedules 10 800 accepted))
          (Step.receives 800 none collected))
        (Step.inspects 10 800 true back))
      (Step.refunds (whole_return ReturnStatus.qc_passed ResolutionType.refund) (some 10) 900 910
        (GatewayReply.answers 77 true) checked)

Steps-IsTraced_example : IsTraced (log_of repaid)
Steps-IsTraced_example =
    Steps-IsTraced history (record { traced = λ k r e. cc; known = λ k e. refl })

Steps-IsBounded_example : IsBounded repaid.shop.order_items repaid.returns
Steps-IsBounded_example =
    Steps-IsBounded history (record { unique = tt; within = λ so k oi e. omega arith })

clawback_amount-bounded_example :
    (clawback_amount settled_slice 11800 ≤ 25600)
    × (clawback_amount settled_slice 11800 ≤ clawback_amount settled_slice 12800)
    × (clawback_amount settled_slice (clip (seller_order_total settled_slice) + 1000) ≡ 25600)
unfolding ◌-ℤ◌ ◌+ℤ◌
clawback_amount-bounded_example =
    clawback_amount-bounded settled_slice 11800 1000 refl (omega arith)

abbrev to_be_swapped : Books
to_be_swapped = record start {
  returns = whole_return ReturnStatus.qc_passed ResolutionType.replacement ∷ [];
}

complete_qc_passed-swaps_example :
    (complete_qc_passed 800 (some 10) 900 910 GatewayReply.refuses to_be_swapped
      ≡ (swapped 800 (some 10) to_be_swapped, none))
    × (complete_qc_passed 800
          (some 10)
          900
          910
          GatewayReply.refuses
          (swapped 800 (some 10) to_be_swapped)
        ≡ (swapped 800 (some 10) to_be_swapped, none))
complete_qc_passed-swaps_example =
    complete_qc_passed-swaps 800 (some 10) 900 910 GatewayReply.refuses to_be_swapped refl refl refl
