-- ===== src/Payouts/Runs.antt =====
-- The run of payouts and the marks of finance (src/modules/ecommerce/payout/payout.service.ts).
use e_commerce_backend.Common.{
  ℕ, Bool, true, false, not, ◌&&◌, ◌||◌, Option, none, some, List, [], ◌∷◌, ◌==◌, leb, find, map,
  select, length, includes, if◌then◌else◌, bad_request, not_found, conflict, Result, ok, err, ◌>>=◌,
  ◌>>◌, throw_if, or_throw,
}
use e_commerce_backend.Common.Int.{ℤ}
use e_commerce_backend.Database.{
  Database, SellerOrder, PayoutStatus, find_seller_order, update_seller_order,
}
use e_commerce_backend.Finance.{Books, AdjustmentStatus, Clawback, Payout, PayoutItem}
use e_commerce_backend.Payouts.{
  Preview, PreviewItem, build_preview, has_item, is_applied, is_pending, is_pending_payout,
}

abbrev pub set_payout_status : PayoutStatus → SellerOrder → SellerOrder
set_payout_status status so = record so { payout_status = status }

-- The loop that writes the items: a second item of a sub-order breaks the unique key, and a sub-order
-- that is not pending any more ends the run of the seller.
unfoldable pub create_items : ℕ → List PreviewItem → Books → Result Books
create_items payout [] b = ok b
create_items payout (i ∷ is) b =
    throw_if (has_item i.seller_order_id b.payout_items) conflict
    >> (or_throw (find_seller_order i.seller_order_id b.shop) conflict >>= λ so.
        throw_if (not (is_pending_payout so.payout_status)) conflict
        >> create_items payout is (record b {
          shop =
              update_seller_order i.seller_order_id (set_payout_status PayoutStatus.processing)
                b.shop;
          payout_items =
              record {
                payout_id = payout;
                seller_order_id = i.seller_order_id;
                amount = i.amount;
                refunded_amount = i.refunded_amount;
                tcs_deducted = i.tcs_deducted;
              }
              ∷ b.payout_items;
        }))

-- the rows of `updateMany({ where: { id: { in: ids }, status: 'PENDING' } })`
abbrev pub is_taken_up : List ℕ → Clawback → Bool
is_taken_up ids c = includes c.id ids && is_pending c.status

abbrev pub apply_to : ℕ → List ℕ → Clawback → Clawback
apply_to payout ids c =
    if is_taken_up ids c
    then record c { status = AdjustmentStatus.applied; payout_id = some payout }
    else c

unfoldable pub apply_clawbacks : ℕ → List ℕ → Books → Result Books
apply_clawbacks payout ids b =
    throw_if (not (length (select (is_taken_up ids) b.clawbacks) == length ids)) conflict
    >> ok (record b { clawbacks = map (apply_to payout ids) b.clawbacks })

abbrev pub new_payout : ℕ → Preview → Payout
new_payout fresh p = record {
  id = fresh;
  seller_id = p.seller_id;
  status = PayoutStatus.processing;
  gross_amount = p.gross_amount;
  refund_adjustment = p.refund_adjustment;
  tcs_adjustment = p.tcs_adjustment;
  clawback_adjustment = p.clawback_adjustment;
  net_amount = p.net_amount;
}

-- The transaction for one seller.
unfoldable pub create_payout : ℕ → Preview → Books → Result Books
unfolding create_items apply_clawbacks
create_payout fresh p b =
    create_items fresh p.items (record b { payouts = new_payout fresh p ∷ b.payouts }) >>= λ after.
    apply_clawbacks fresh p.applied after

abbrev pub is_worthless : Preview → Bool
is_worthless p = leb (length p.items) 0 || (leb p.net_amount 0 && leb p.clawback_adjustment 0)

abbrev pub or_before : Books → Result Books → Books
or_before b (ok after) = after
or_before b (err e) = b

-- The loop of `createPayoutRun`: a race skips the seller.
unfoldable pub create_payouts : (ℕ → ℕ) → List Preview → Books → Books
unfolding create_payout
create_payouts fresh [] b = b
create_payouts fresh (p ∷ ps) b =
    create_payouts fresh ps
      (if is_worthless p then b else or_before b (create_payout (fresh p.seller_id) p b))

-- `createPayoutRun`
unfoldable pub create_payout_run : (ℕ → ℤ) → Option ℕ → (ℕ → ℕ) → Books → Books
unfolding build_preview create_payouts
create_payout_run tcs seller fresh b = create_payouts fresh (build_preview tcs seller b) b

abbrev pub find_payout : ℕ → List Payout → Option Payout
find_payout k = find (λ (p : Payout). p.id == k)

abbrev pub set_payout : ℕ → PayoutStatus → List Payout → List Payout
set_payout k status = map (λ (p : Payout). if p.id == k then record p { status = status } else p)

-- the sub-orders of a payout
abbrev pub orders_of : ℕ → List PayoutItem → List ℕ
orders_of payout items =
    map (λ (i : PayoutItem). i.seller_order_id)
      (select (λ (i : PayoutItem). i.payout_id == payout) items)

abbrev pub settle_all : List ℕ → PayoutStatus → Database → Database
settle_all ids status db = record db {
  seller_orders =
      map (λ (s : SellerOrder). if includes s.id ids then set_payout_status status s else s)
        db.seller_orders;
}

abbrev pub is_in_progress : PayoutStatus → Bool
is_in_progress PayoutStatus.processing = true
is_in_progress _ = false

abbrev pub is_paid_out : PayoutStatus → Bool
is_paid_out PayoutStatus.paid = true
is_paid_out _ = false

-- `markPayoutPaid`
unfoldable pub mark_payout_paid : ℕ → Books → Result Books
mark_payout_paid k b = or_throw (find_payout k b.payouts) not_found >>= λ p.
    let paid : Result Books =
      throw_if (not (is_in_progress p.status)) bad_request
      >> ok (record b {
        payouts = set_payout k PayoutStatus.paid b.payouts;
        shop = settle_all (orders_of k b.payout_items) PayoutStatus.paid b.shop;
      }) in
    if is_paid_out p.status then ok b else paid

abbrev pub is_applied_to : ℕ → Clawback → Bool
is_applied_to payout c =
    (elim c.payout_id [ none ↦ false | some k ↦ k == payout ]) && is_applied c.status

abbrev pub free_from : ℕ → Clawback → Clawback
free_from payout c =
    if is_applied_to payout c
    then record c { status = AdjustmentStatus.pending; payout_id = none }
    else c

-- `markPayoutFailed`
unfoldable pub mark_payout_failed : ℕ → Books → Result Books
mark_payout_failed k b = or_throw (find_payout k b.payouts) not_found >>= λ p.
    throw_if (not (is_in_progress p.status)) bad_request
    >> ok (record b {
      shop = settle_all (orders_of k b.payout_items) PayoutStatus.pending b.shop;
      payout_items = select (λ (i : PayoutItem). not (i.payout_id == k)) b.payout_items;
      clawbacks = map (free_from k) b.clawbacks;
      payouts = set_payout k PayoutStatus.failed b.payouts;
    })
