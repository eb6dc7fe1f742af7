-- ===== src/Refund/Settlement.antt =====
-- The transaction that settles a refund, `finalizeRefund` in src/modules/ecommerce/payment/refund.service.ts.
use e_commerce_backend.Common.{
  ℕ, ◌+◌, Bool, true, false, not, ◌&&◌, ◌||◌, Option, none, some, List, [], ◌∷◌, ◌++◌, ◌==◌, leb,
  map, select, if◌then◌else◌, plain_error, Result, ok, ◌>>=◌, or_throw,
}
use e_commerce_backend.Common.Int.{pos, leb_ℤ}
use e_commerce_backend.Order.Status.{OrderStatus, PaymentStatus, ◌=s◌, compute_parent_status}
use e_commerce_backend.Database.{
  Database, Order, SellerOrder, find_order, update_order, update_seller_order, add_history,
}
use e_commerce_backend.Finance.{
  Books, Payment, TransactionStatus, Refund, RefundStatus, order_refunded, find_payment,
  find_refund, set_payment, update_refund, live_sub_orders, is_processed, seller_order_total,
}
use e_commerce_backend.Refund.{sum_refunds, sum_slice_refunds}
use e_commerce_backend.Refund.Restock.{restock}

-- `{ ...(sellerOrderId ? { id: sellerOrderId } : {}) }`
abbrev pub in_scope : Option ℕ → SellerOrder → Bool
in_scope none so = true
in_scope (some k) so = so.id == k

abbrev pub scoped_orders : Refund → Database → List SellerOrder
scoped_orders r db = select (in_scope r.seller_order_id) (live_sub_orders r.order_id db)

-- `paymentFull` and the test of a sub-order, up to one paisa
abbrev pub is_fully_refunded : Payment → List Refund → Bool
is_fully_refunded p refunds = leb p.amount (sum_refunds is_processed p.id refunds + 1)

abbrev pub is_slice_full : Bool → SellerOrder → List Refund → Bool
is_slice_full whole so refunds =
    whole || leb_ℤ (seller_order_total so) (pos (sum_slice_refunds is_processed so.id refunds + 1))

abbrev pub refunded_or_part : Bool → PaymentStatus
refunded_or_part true = PaymentStatus.refunded
refunded_or_part false = PaymentStatus.partially_refunded

abbrev pub transaction_or_part : Bool → TransactionStatus
transaction_or_part true = TransactionStatus.refunded
transaction_or_part false = TransactionStatus.partially_refunded

abbrev pub becomes_refunded : Bool → SellerOrder → Bool
becomes_refunded full so =
    full && (not (so.status =s OrderStatus.refunded) && not (so.status =s OrderStatus.cancelled))

-- One round of the loop over the sub-orders in scope.
unfoldable pub settle_slice : Option ℕ → Bool → SellerOrder → Database → Database
settle_slice actor full so db =
    let paid =
      update_seller_order so.id (λ s. record s { payment_status = refunded_or_part full }) db in
    let moved =
      update_seller_order so.id
        (λ s. record s { payment_status = refunded_or_part full; status = OrderStatus.refunded })
        db in
    if becomes_refunded full so
    then add_history
        (record {
          order_id = none;
          seller_order_id = some so.id;
          from_status = some so.status;
          to_status = OrderStatus.refunded;
          changed_by_id = actor;
        })
        moved
    else paid

unfoldable pub settle_slices :
    Option ℕ → Bool → List Refund → List SellerOrder → Database → Database
unfolding settle_slice
settle_slices actor whole refunds [] db = db
settle_slices actor whole refunds (so ∷ sos) db =
    settle_slices actor whole refunds sos
      (settle_slice actor (is_slice_full whole so refunds) so db)

-- The roll-up of the parent order, as it was read before the transaction.
unfoldable pub settle_parent : Option ℕ → Bool → Order → Database → Database
settle_parent actor whole o db =
    let status =
      compute_parent_status (map (λ (s : SellerOrder). s.status) (live_sub_orders o.id db)) in
    let moved =
      add_history
        (record {
          order_id = some o.id;
          seller_order_id = none;
          from_status = some o.status;
          to_status = status;
          changed_by_id = actor;
        })
        (update_order o.id
          (λ x. record x { status = status; payment_status = refunded_or_part whole }) db) in
    let kept = update_order o.id (λ x. record x { payment_status = refunded_or_part whole }) db in
    if status =s o.status then kept else moved

abbrev pub set_processed : Refund → Refund
set_processed r = record r { status = RefundStatus.processed }

-- What the transaction of `finalizeRefund` writes on orders and stock. `refunds` has the flipped row.
unfoldable pub settle_orders : Refund → Payment → Order → List Refund → Books → Result Database
unfolding settle_slices settle_parent
settle_orders r p o refunds b =
    let whole = is_fully_refunded p refunds in
    let scoped = scoped_orders r b.shop in
    let settled =
      settle_parent r.approved_by_id whole o
        (settle_slices r.approved_by_id whole refunds scoped b.shop) in
    if r.restock then restock r.approved_by_id r.id o.id scoped b.returns settled else ok settled

-- The transaction of `finalizeRefund`, on the rows that were read before it.
unfoldable pub finalize_transaction : Refund → Payment → Order → Books → Result Books
unfolding settle_orders
finalize_transaction r p o b =
    let flipped = update_refund r.id set_processed b in
    settle_orders r p o flipped.refunds b >>= λ db. ok (record flipped {
      shop = db;
      payments =
          set_payment p.id
            (λ x. record x { status = transaction_or_part (is_fully_refunded p flipped.refunds) })
            b.payments;
      mails = b.mails ++ (order_refunded r.id ∷ []);
      tcs_reversals = b.tcs_reversals ++ (r.id ∷ []);
    })

-- `finalizeRefund`. A refund's payment and order exist, by its foreign keys.
unfoldable pub finalize_refund : ℕ → Books → Result Books
unfolding finalize_transaction
finalize_refund k b = elim (find_refund k b.refunds) [
  | none ↦ ok b
  | some r ↦
      if is_processed r.status
      then ok b
      else (or_throw (find_payment r.payment_id b.payments) plain_error >>= λ p.
          or_throw (find_order r.order_id b.shop) plain_error >>= λ o. finalize_transaction r p o b)
]
