-- ===== src/Payouts.antt =====
-- Payouts of sellers (src/modules/ecommerce/payout/payout.service.ts): the preview with refunds, tax and
-- clawbacks netted. Payouts/Runs has the run that settles it and the marks that finance sets. The tax
-- that `TcsService.netForSellerOrders` finds is an argument, as is the identifier of a new payout. The
-- account of the seller, the reference of the transfer, audit rows and e-mails are left out.
pub mod Failure
pub mod Ledger
pub mod Marks
pub mod RoundTrip
pub mod Runs
pub mod Steps
pub mod Totals
use e_commerce_backend.Common.{
  ℕ, ◌+◌, ◌-◌, min, Bool, true, false, not, ◌&&◌, ◌||◌, Option, none, some, List, [], ◌∷◌, ◌++◌,
  ◌==◌, leb, ltb, any_of, find, map, select, sum_by, length, includes, if◌then◌else◌, Exception,
  bad_request, not_found, conflict, Result, ok, err, ◌>>=◌, ◌>>◌, throw_if, or_throw,
}
use e_commerce_backend.Common.Int.{ℤ, clip}
use e_commerce_backend.Order.Status.{OrderStatus, PaymentStatus, ◌=s◌}
use e_commerce_backend.Database.{
  Database, SellerOrder, PayoutStatus, find_seller_order, update_seller_order,
}
use e_commerce_backend.Finance.{
  Books, Refund, AdjustmentStatus, Clawback, Payout, PayoutItem, is_processed, set_shop,
}
use e_commerce_backend.Refund.{sum_slice_refunds}

-- `Preview['items']`
pub record PreviewItem : Type 0 where
  pub seller_order_id : ℕ
  pub amount : ℕ
  pub refunded_amount : ℕ
  pub tcs_deducted : ℕ

-- `Preview`
pub record Preview : Type 0 where
  pub seller_id : ℕ
  pub gross_amount : ℕ
  pub refund_adjustment : ℕ
  pub tcs_adjustment : ℕ
  pub clawback_adjustment : ℕ
  pub net_amount : ℕ
  pub items : List PreviewItem
  pub applied : List ℕ

abbrev pub is_pending_payout : PayoutStatus → Bool
is_pending_payout PayoutStatus.pending = true
is_pending_payout _ = false

abbrev pub is_settled_payment : PaymentStatus → Bool
is_settled_payment PaymentStatus.paid = true
is_settled_payment PaymentStatus.partially_refunded = true
is_settled_payment _ = false

abbrev pub has_item : ℕ → List PayoutItem → Bool
has_item so = any_of (λ (i : PayoutItem). i.seller_order_id == so)

abbrev pub is_for : Option ℕ → ℕ → Bool
is_for none seller = true
is_for (some k) seller = seller == k

-- the `where` of `buildPreview`
abbrev pub is_eligible : Option ℕ → List PayoutItem → SellerOrder → Bool
is_eligible seller items so =
    (not so.is_deleted && so.status =s OrderStatus.delivered)
    && (is_pending_payout so.payout_status && is_settled_payment so.payment_status)
    && (not (has_item so.id items) && is_for seller so.seller_id)

-- `refunded`, `tcs` and `net` of a sub-order
abbrev pub refunded_of : List Refund → SellerOrder → ℕ
refunded_of refunds so = min (sum_slice_refunds is_processed so.id refunds) so.payout_amount

abbrev pub tcs_of : (ℕ → ℤ) → List Refund → SellerOrder → ℕ
tcs_of tcs refunds so = min (clip (tcs so.id)) (so.payout_amount - refunded_of refunds so)

abbrev pub net_of : (ℕ → ℤ) → List Refund → SellerOrder → ℕ
net_of tcs refunds so = so.payout_amount - refunded_of refunds so - tcs_of tcs refunds so

abbrev pub item_of : (ℕ → ℤ) → List Refund → SellerOrder → PreviewItem
item_of tcs refunds so = record {
  seller_order_id = so.id;
  amount = net_of tcs refunds so;
  refunded_amount = refunded_of refunds so;
  tcs_deducted = tcs_of tcs refunds so;
}

abbrev pub empty_preview : ℕ → Preview
empty_preview seller = record {
  seller_id = seller;
  gross_amount = 0;
  refund_adjustment = 0;
  tcs_adjustment = 0;
  clawback_adjustment = 0;
  net_amount = 0;
  items = [];
  applied = [];
}

abbrev pub add_to : (ℕ → ℤ) → List Refund → SellerOrder → Preview → Preview
add_to tcs refunds so p = record p {
  gross_amount = p.gross_amount + so.payout_amount;
  refund_adjustment = p.refund_adjustment + refunded_of refunds so;
  tcs_adjustment = p.tcs_adjustment + tcs_of tcs refunds so;
  net_amount = p.net_amount + net_of tcs refunds so;
  items = p.items ++ (item_of tcs refunds so ∷ []);
}

-- `bySeller.get(so.sellerId)`, or a new entry at the end
abbrev pub add_order : (ℕ → ℤ) → List Refund → SellerOrder → List Preview → List Preview
add_order tcs refunds so [] = add_to tcs refunds so (empty_preview so.seller_id) ∷ []
add_order tcs refunds so (p ∷ ps) =
    if p.seller_id == so.seller_id
    then add_to tcs refunds so p ∷ ps
    else p ∷ add_order tcs refunds so ps

-- The loop over the sub-orders.
unfoldable pub group_orders : (ℕ → ℤ) → List Refund → List SellerOrder → List Preview → List Preview
group_orders tcs refunds [] ps = ps
group_orders tcs refunds (so ∷ sos) ps =
    group_orders tcs refunds sos
      (if leb (net_of tcs refunds so) 0 then ps else add_order tcs refunds so ps)

abbrev pub is_pending : AdjustmentStatus → Bool
is_pending AdjustmentStatus.pending = true
is_pending _ = false

abbrev pub is_applied : AdjustmentStatus → Bool
is_applied AdjustmentStatus.applied = true
is_applied _ = false

-- `orderBy: { createdAt: 'asc' }`
abbrev pub oldest_first : List Clawback → List Clawback
oldest_first [] = []
oldest_first (c ∷ cs) = oldest_first cs ++ (c ∷ [])

abbrev pub pending_of : ℕ → List Clawback → List Clawback
pending_of seller cs =
    oldest_first (select (λ (c : Clawback). c.seller_id == seller && is_pending c.status) cs)

-- The loop that absorbs clawbacks, as long as the payout stays at zero or more.
unfoldable pub absorb : List Clawback → Preview → Preview
absorb [] p = p
absorb (c ∷ cs) p =
    let rest = absorb cs (record p {
      clawback_adjustment = p.clawback_adjustment + c.amount;
      net_amount = p.net_amount - c.amount;
      applied = p.applied ++ (c.id ∷ []);
    }) in
    if ltb p.net_amount c.amount then p else rest

unfoldable pub absorb_all : List Clawback → List Preview → List Preview
unfolding absorb
absorb_all cs [] = []
absorb_all cs (p ∷ ps) = absorb (pending_of p.seller_id cs) p ∷ absorb_all cs ps

-- `buildPreview`
unfoldable pub build_preview : (ℕ → ℤ) → Option ℕ → Books → List Preview
unfolding group_orders absorb_all
build_preview tcs seller b = absorb_all b.clawbacks (
    group_orders tcs b.refunds (select (is_eligible seller b.payout_items) b.shop.seller_orders) [])
