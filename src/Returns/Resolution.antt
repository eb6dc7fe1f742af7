-- ===== src/Returns/Resolution.antt =====
-- The inspection of a return and what follows it (src/modules/ecommerce/returns/returns.service.ts): a
-- refund with the clawback of the seller's payout, or a replacement.
use e_commerce_backend.Common.{
  ℕ, ◌+◌, ◌-◌, ◌*◌, min, zero, suc, Bool, not, ◌&&◌, ◌||◌, Option, none, some, List, [], ◌∷◌, ◌++◌,
  ◌==◌, leb, any_of, select, get_or, if◌then◌else◌, bad_request, not_found, ok, err,
}
use e_commerce_backend.Common.Int.{clip}
use e_commerce_backend.Common.Rounding.{round_half_up}
use e_commerce_backend.Database.{SellerOrder, OrderItem, find_seller_order}
use e_commerce_backend.Finance.{
  Books, Refund, ReturnStatus, ReturnItem, ReturnRequest, AdjustmentStatus, Clawback,
  return_refunded, replacement_approved, find_refund, find_return, is_in_payout, is_processed,
  seller_order_total,
}
use e_commerce_backend.Refund.Execution.{Outcome, GatewayReply}
use e_commerce_backend.Refund.Sellers.{refund_for_return}
use e_commerce_backend.Returns.{◌=r◌, is_replacement, items_of, item_in}
use e_commerce_backend.Returns.Calls.{
  move, and_then, send_mail, same_columns, check_move, move_transaction,
}

-- A sum of fractions, (plus - minus) / over.
pub record Fraction : Type 0 where
  pub plus : ℕ
  pub minus : ℕ
  pub over : ℕ

-- `total.add(lineGross.mul(frac))`
abbrev pub add_share : Fraction → OrderItem → ℕ → Fraction
add_share f oi returned = record {
  plus = f.plus * oi.quantity + (oi.total_price + oi.tax_amount) * returned * f.over;
  minus = f.minus * oi.quantity + oi.discount_amount * returned * f.over;
  over = f.over * oi.quantity;
}

-- The loop of `computeReturnRefundAmount`.
unfoldable pub return_total : List OrderItem → List ReturnItem → Fraction → Fraction
return_total items [] f = f
return_total items (r ∷ rs) f = elim (item_in r.order_item_id items) [
  | none ↦ return_total items rs f
  | some oi ↦ return_total items rs (if leb oi.quantity 0 then f else add_share f oi r.quantity)
]

-- `computeReturnRefundAmount`; shipping is never included, and a negative total is refused like zero
unfoldable pub compute_return_refund_amount : List OrderItem → List ReturnItem → ℕ
unfolding return_total
compute_return_refund_amount items returned =
    let f = return_total items returned (record { plus = 0; minus = 0; over = 1 }) in
    round_half_up (f.plus - f.minus) f.over

-- The share of the payout that the refund takes back, when the payout has been made or is being made.
unfoldable pub clawback_amount : SellerOrder → ℕ → ℕ
clawback_amount so refunded =
    let gross = clip (seller_order_total so) in
    if is_in_payout so.payout_status && not (leb gross 0)
    then round_half_up (so.payout_amount * min refunded gross) gross
    else 0

abbrev pub is_clawback_of : ℕ → Clawback → Bool
is_clawback_of k c = c.return_id == k

-- `createMany` with `skipDuplicates`: one clawback for a return
abbrev pub add_clawback : ReturnRequest → ℕ → ℕ → Books → Books
add_clawback rr amount fresh b =
    if leb amount 0 || any_of (is_clawback_of rr.id) b.clawbacks then b else record b {
      clawbacks =
          record {
            id = fresh;
            seller_id = rr.seller_id;
            return_id = rr.id;
            amount = amount;
            status = AdjustmentStatus.pending;
            payout_id = none;
          }
          ∷ b.clawbacks;
    }

abbrev pub announce_refund : ReturnRequest → Refund → Books → Books
announce_refund rr refund b =
    if is_processed refund.status
    then record b {
      tcs_reversals = b.tcs_reversals ++ (refund.id ∷ []);
      mails = b.mails ++ (return_refunded rr.id ∷ []);
    }
    else b

abbrev pub set_refunded : Refund → ReturnRequest → ReturnRequest
set_refunded refund r = record r { refund_id = some refund.id; refund_amount = some refund.amount }

-- The transaction of `completeQcPassedRefund`.
unfoldable pub refund_transaction :
    ReturnRequest → SellerOrder → Refund → Option ℕ → ℕ → Books → Books
unfolding move clawback_amount
refund_transaction rr so refund actor fresh b =
    and_then b
      (λ after.
        announce_refund rr refund (add_clawback rr (clawback_amount so refund.amount) fresh after))
      (move rr.id ReturnStatus.qc_passed ReturnStatus.refunded actor (set_refunded refund) b)

-- `'system'`, who approves when nobody acts
abbrev pub system : ℕ
system = 0

-- The rest of `completeQcPassedRefund` once the buyer's refund has been asked for.
unfoldable pub settle_return : ReturnRequest → SellerOrder → Option ℕ → ℕ → ℕ → Outcome → Outcome
unfolding refund_transaction
settle_return rr so actor fresh fresh_clawback (b, some e) = (b, some e)
settle_return rr so actor fresh fresh_clawback (b, none) =
    elim (find_refund (get_or rr.refund_id fresh) b.refunds) [
      | none ↦ (b, some not_found)
      | some refund ↦ (refund_transaction rr so refund actor fresh_clawback b, none)
    ]

-- `completeQcPassedRefund`, for a return that was found
unfoldable pub complete_qc_passed_refund :
    ReturnRequest → Option ℕ → ℕ → ℕ → GatewayReply → Books → Outcome
unfolding compute_return_refund_amount refund_for_return settle_return
complete_qc_passed_refund rr actor fresh fresh_clawback reply b =
    if not (rr.status =r ReturnStatus.qc_passed)
    then (b, none)
    else if is_replacement rr.resolution_type
    then (b, some bad_request)
    else elim (find_seller_order rr.seller_order_id b.shop) [
      | none ↦ (b, some not_found)
      | some so ↦
          let amount = compute_return_refund_amount (items_of so.id b.shop) rr.items in
          settle_return rr so actor fresh fresh_clawback
            (refund_for_return rr amount (get_or actor system) fresh reply b)
    ]

-- `completeQcPassedReplacement`, for a return that was found
unfoldable pub complete_qc_passed_replacement : ReturnRequest → Option ℕ → Books → Outcome
unfolding move
complete_qc_passed_replacement rr actor b =
    if not (rr.status =r ReturnStatus.qc_passed)
    then (b, none)
    else if not (is_replacement rr.resolution_type)
    then (b, some bad_request)
    else (
      and_then b (send_mail (replacement_approved rr.id)) (
          move rr.id ReturnStatus.qc_passed ReturnStatus.replacement_approved actor same_columns b),
      none,
    )

-- `completeQcPassed`
unfoldable pub complete_qc_passed : ℕ → Option ℕ → ℕ → ℕ → GatewayReply → Books → Outcome
unfolding complete_qc_passed_refund complete_qc_passed_replacement
complete_qc_passed k actor fresh fresh_clawback reply b = elim (find_return k b.returns) [
  | none ↦ (b, none)
  | some rr ↦
      if is_replacement rr.resolution_type
      then complete_qc_passed_replacement rr actor b
      else complete_qc_passed_refund rr actor fresh fresh_clawback reply b
]

-- `qcReturn`
unfoldable pub qc_return : ℕ → ℕ → Bool → ℕ → ℕ → GatewayReply → Books → Outcome
unfolding check_move move_transaction complete_qc_passed
qc_return user_id k pass fresh fresh_clawback reply b =
    if not pass
    then elim (check_move user_id k ReturnStatus.qc_failed b) [
      | err e ↦ (b, some e)
      | ok rr ↦
          (move_transaction k ReturnStatus.received ReturnStatus.qc_failed (some user_id) b, none)
    ]
    else elim (check_move user_id k ReturnStatus.qc_passed b) [
      | err e ↦ (b, some e)
      | ok rr ↦
          complete_qc_passed k (some user_id) fresh fresh_clawback reply
            (move_transaction k ReturnStatus.received ReturnStatus.qc_passed (some user_id) b)
    ]

-- The loop of `reconcileStuckReturns` over the rows that were read: an exception is logged and dropped.
unfoldable pub resume_all :
    (ℕ → ℕ) → (ℕ → ℕ) → (ℕ → GatewayReply) → List ReturnRequest → Books → Books
unfolding complete_qc_passed
resume_all fresh fresh_clawback reply [] b = b
resume_all fresh fresh_clawback reply (r ∷ rs) b =
    resume_all fresh fresh_clawback reply rs
      (complete_qc_passed r.id r.approved_by_id (fresh r.id) (fresh_clawback r.id) (reply r.id) b).0

abbrev pub first_rows : ℕ → List ReturnRequest → List ReturnRequest
first_rows zero rs = []
first_rows (suc n) [] = []
first_rows (suc n) (r ∷ rs) = r ∷ first_rows n rs

-- `reconcileStuckReturns`, with the identifiers and the gateway's answer for every return
unfoldable pub reconcile_stuck_returns : (ℕ → ℕ) → (ℕ → ℕ) → (ℕ → GatewayReply) → Books → Books
unfolding resume_all
reconcile_stuck_returns fresh fresh_clawback reply b =
    resume_all fresh fresh_clawback reply
      (first_rows 50 (select (λ (r : ReturnRequest). r.status =r ReturnStatus.qc_passed) b.returns))
      b
