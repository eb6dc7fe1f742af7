-- ===== src/Refund.antt =====
-- Refunds of buyers (src/modules/ecommerce/payment/refund.service.ts). The gateway's answer is an
-- argument of a call. A call that raises returns what it has written before; a transaction that raises
-- has written nothing. `EPSILON` is one paisa. Audit rows, metrics and reads that only list rows are
-- left out; `TcsService.reverse` is recorded as a call.
pub mod Execution
pub mod Approval
pub mod Calls
pub mod Ledger
pub mod Effects
pub mod Reach
pub mod Repeats
pub mod Refinement
pub mod Restock
pub mod Scope
pub mod Sellers
pub mod Settlement
pub mod Table
use e_commerce_backend.Common.{
  ℕ, ◌+◌, min, Bool, true, false, not, ◌&&◌, ◌||◌, Option, none, some, List, [], ◌∷◌, ◌++◌, ◌==◌,
  leb, ltb, any_of, find, map, select, sum_by, get_or, if◌then◌else◌, Exception, bad_request,
  forbidden, not_found, plain_error, Result, ok, err, ◌>>=◌, ◌>>◌, throw_if, or_throw,
}
use e_commerce_backend.Common.Int.{ℤ, pos, ◌-ℤ◌, ◌+ℤ◌, leb_ℤ, ltb_ℤ, clip}
use e_commerce_backend.Common.Text.{Text, trim, is_blank}
use e_commerce_backend.Order.Status.{OrderStatus, PaymentStatus, ◌=s◌, compute_parent_status}
use e_commerce_backend.Database.{
  Database, Order, SellerOrder, HistoryEntry, find_order, find_seller_order, update_order,
  update_seller_order, add_history,
}
use e_commerce_backend.Finance.{
  Books, Payment, TransactionStatus, Refund, RefundStatus, GatewayCall, MailEvent, find_payment,
  find_refund, set_payment, update_refund, set_shop, live_sub_orders, is_in_payout,
  is_captured_payment, is_held, is_processed, seller_order_total,
}

-- `sumRefunds`, of the refunds of a payment whose status passes the test
abbrev pub sum_refunds : (RefundStatus → Bool) → ℕ → List Refund → ℕ
sum_refunds counts payment_id =
    sum_by (λ r. if r.payment_id == payment_id && counts r.status then r.amount else 0)

-- `sumRefunds` with `excludeRefundId`
abbrev pub sum_other_refunds : (RefundStatus → Bool) → ℕ → ℕ → List Refund → ℕ
sum_other_refunds counts payment_id refund_id = sum_by (λ r.
    if (r.payment_id == payment_id && counts r.status) && not (r.id == refund_id)
    then r.amount
    else 0)

abbrev pub is_of : ℕ → Option ℕ → Bool
is_of k none = false
is_of k (some j) = j == k

-- the refunds of one sub-order whose status passes the test
abbrev pub sum_slice_refunds : (RefundStatus → Bool) → ℕ → List Refund → ℕ
sum_slice_refunds counts so =
    sum_by (λ r. if is_of so r.seller_order_id && counts r.status then r.amount else 0)

-- `computeMaxRefundable`
abbrev pub compute_max_refundable : Payment → List Refund → ℤ
compute_max_refundable p refunds = pos p.amount -ℤ pos (sum_refunds is_held p.id refunds)

-- `RequestRefundInput`
pub record RefundInput : Type 0 where
  pub order_id : Option ℕ
  pub seller_order_id : Option ℕ
  pub amount : Option ℤ
  pub restock : Bool

-- `resolveScope`
unfoldable pub resolve_scope : RefundInput → Database → Result (Order × Option SellerOrder)
resolve_scope input db = elim input.seller_order_id [
  | some k ↦ or_throw (find_seller_order k db) not_found >>= λ so.
      throw_if so.is_deleted not_found
      >> (or_throw (find_order so.order_id db) plain_error >>= λ o. ok (o, some so))
  | none ↦ elim input.order_id [
    | some k ↦ or_throw (find_order k db) not_found >>= λ o.
        throw_if o.is_deleted not_found >> ok (o, none)
    | none ↦ err bad_request
  ]
]

-- `getCustomerId` and the seller of `loadOwnedSellerOrder`: an archived account still counts
unfoldable pub customer_of : ℕ → Database → Result ℕ
customer_of user_id db = do
  c ← or_throw (find (λ c. c.user_id == user_id) db.customers) forbidden
  ok c.id

abbrev pub is_manual : Payment → Bool
is_manual p = p.is_cod || not p.has_gateway_id

-- `getRefundablePayment`: the newest payment of the order that is captured
abbrev pub captured_payment : ℕ → List Payment → Option Payment
captured_payment order_id = find (λ p. p.order_id == order_id && is_captured_payment p.status)

unfoldable pub get_refundable_payment : ℕ → Books → Result Payment
get_refundable_payment order_id b = do
  p ← or_throw (captured_payment order_id b.payments) bad_request
  throw_if (is_manual p) bad_request
  ok p

-- `assertNoPayoutInFlight`
abbrev pub has_payout_in_flight : List SellerOrder → Bool
has_payout_in_flight = any_of (λ so. is_in_payout so.payout_status)

abbrev pub scope_of : Order → Option SellerOrder → Database → List SellerOrder
scope_of o (some so) db = so ∷ []
scope_of o none db = live_sub_orders o.id db

abbrev pub min_ℤ : ℤ → ℤ → ℤ
min_ℤ a b = if leb_ℤ a b then a else b

abbrev pub default_amount : Option SellerOrder → ℤ → ℤ
default_amount (some so) most = min_ℤ (seller_order_total so) most
default_amount none most = most

abbrev pub slice_id : Option SellerOrder → Option ℕ
slice_id none = none
slice_id (some so) = some so.id

-- `amount <= 0` and `amount > max + EPSILON`
unfoldable pub check_amount : ℤ → ℤ → Result (Unit {0})
check_amount amount most = do
  throw_if (leb_ℤ amount (pos 0)) bad_request
  throw_if (ltb_ℤ (most +ℤ pos 1) amount) bad_request

abbrev pub new_refund : ℕ → ℕ → Option ℕ → ℕ → ℕ → Bool → Option ℕ → Refund
new_refund fresh order_id so payment_id amount restock user_id = record {
  id = fresh;
  order_id = order_id;
  seller_order_id = so;
  payment_id = payment_id;
  amount = amount;
  status = RefundStatus.requested;
  restock = restock;
  gateway_refund_id = none;
  requested_by_id = user_id;
  approved_by_id = none;
}

abbrev pub add_refund : Refund → Books → Books
add_refund r b = record b { refunds = r ∷ b.refunds }

-- `requestRefund`
unfoldable pub request_refund : ℕ → RefundInput → ℕ → Books → Result Books
unfolding resolve_scope customer_of get_refundable_payment check_amount
request_refund user_id input fresh b = do
  scope ← resolve_scope input b.shop
  customer ← customer_of user_id b.shop
  throw_if (not (scope.0.customer_id == customer)) forbidden
  payment ← get_refundable_payment scope.0.id b
  throw_if (has_payout_in_flight (scope_of scope.0 scope.1 b.shop)) bad_request
  let most = compute_max_refundable payment b.refunds
  throw_if (leb_ℤ most (pos 0)) bad_request
  let amount = get_or input.amount (default_amount scope.1 most)
  check_amount amount most
  ok (
      add_refund
        (new_refund fresh scope.0.id (slice_id scope.1) payment.id (clip amount) input.restock
          (some user_id))
        b)
