-- ===== src/Tests/Payouts.antt =====
-- The theorems on payouts, at concrete inputs.
use e_commerce_backend.Common.{ℕ, ◌≡◌, refl, none, [], ◌∷◌, All, ok}
use e_commerce_backend.Common.Int.{pos}
use e_commerce_backend.Order.Status.{OrderStatus, PaymentStatus}
use e_commerce_backend.Database.{SellerOrder, find_seller_order}
use e_commerce_backend.Finance.{Books, AdjustmentStatus}
use e_commerce_backend.Payouts.{Preview, build_preview, group_orders, absorb_all, absorb}
use e_commerce_backend.Payouts.Runs.{
  create_payout, create_items, apply_clawbacks, mark_payout_failed,
}
use e_commerce_backend.Payouts.Totals.{TiesOut, build_preview-TiesOut}
use e_commerce_backend.Payouts.RoundTrip.{failed, mark_payout_failed-create_payout}
use e_commerce_backend.Payouts.Ledger.{IsInStep}
use e_commerce_backend.Payouts.Steps.{Step, Steps, Steps-IsInStep}
use e_commerce_backend.Tests.{level, placed, sub_order_of}
use e_commerce_backend.Tests.Refunds.{paid_books, books_or}

abbrev delivered_slice : SellerOrder
delivered_slice = record (sub_order_of OrderStatus.delivered) {
  payment_status = PaymentStatus.paid;
}

-- the seller owes 5000 paise for a return
abbrev before : Books
before =
    record (paid_books (record (placed OrderStatus.delivered (level 3 0 3)) {
      seller_orders = delivered_slice ∷ [];
    })) {
      clawbacks =
          record {
            id = 910;
            seller_id = 3;
            return_id = 800;
            amount = 5000;
            status = AdjustmentStatus.pending;
            payout_id = none;
          }
          ∷ [];
    }

-- the preview, with 200 paise of tax
abbrev one_payout : Preview
one_payout = record {
  seller_id = 3;
  gross_amount = 25600;
  refund_adjustment = 0;
  tcs_adjustment = 200;
  clawback_adjustment = 5000;
  net_amount = 20400;
  items =
      record { seller_order_id = 70; amount = 25400; refunded_amount = 0; tcs_deducted = 200 } ∷ [];
  applied = 910 ∷ [];
}

previewed : build_preview (λ k. pos 200) none before ≡ one_payout ∷ []
unfolding build_preview group_orders absorb_all absorb
previewed = refl

build_preview-TiesOut_example : All TiesOut (build_preview (λ k. pos 200) none before)
build_preview-TiesOut_example = build_preview-TiesOut (λ k. pos 200) none before

abbrev created : Books
created = books_or before (create_payout 920 one_payout before)

mark_payout_failed-create_payout_example :
    (mark_payout_failed 920 created ≡ ok (failed 920 created))
    × ((j : ℕ) → find_seller_order j (failed 920 created).shop ≡ find_seller_order j before.shop)
    × ((failed 920 created).payout_items ≡ [])
    × ((failed 920 created).clawbacks ≡ before.clawbacks)
unfolding create_payout create_items apply_clawbacks
mark_payout_failed-create_payout_example =
    mark_payout_failed-create_payout 920 one_payout before tt (refl, tt) refl

Steps-IsInStep_example : IsInStep created
unfolding create_payout create_items apply_clawbacks
Steps-IsInStep_example =
    Steps-IsInStep
      (Steps.then (Steps.none_yet before) (Step.runs 920 one_payout before created refl refl))
      (record { single = tt; settled = tt })
