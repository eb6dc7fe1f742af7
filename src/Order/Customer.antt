-- ===== src/Order/Customer.antt =====
-- The cancellations of a whole order: by the customer, by a failed payment and by an administrator
-- (src/modules/ecommerce/order/order.service.ts and order-admin.service.ts). A call returns the
-- database after the transaction. The e-mails that follow it and the audit row are left out.
pub mod Cancellation
pub mod Statuses
use e_commerce_backend.Common.{
  ℕ, Bool, true, false, not, Option, none, some, List, [], ◌∷◌, ◌==◌, ◌&&◌, ◌||◌, any_of, find,
  select, if◌then◌else◌, Exception, bad_request, forbidden, not_found, Result, ok, err, ◌>>=◌, ◌>>◌,
  throw_if, or_throw,
}
use e_commerce_backend.Order.Status.{OrderStatus, PaymentStatus, ◌=s◌}
use e_commerce_backend.Order.Movements.{sort_by_inventory, is_placement_of, release_all}
use e_commerce_backend.Database.{
  Database, Customer, Order, SellerOrder, HistoryEntry, find_order, sub_orders, update_order,
  update_seller_order, add_history,
}

-- `getCustomerId`
unfoldable pub get_customer_id : ℕ → Database → Result ℕ
get_customer_id user_id db = do
  c ← or_throw (find (λ c. c.user_id == user_id) db.customers) forbidden
  throw_if c.is_deleted forbidden
  ok c.id

-- What both cancellations write on a sub-order and on the parent.
abbrev pub cancel_sub : Option PaymentStatus → ℕ → SellerOrder → SellerOrder
cancel_sub none now s = record s { status = OrderStatus.cancelled; cancelled_at = some now }
cancel_sub (some p) now s = record s {
  status = OrderStatus.cancelled;
  payment_status = p;
  cancelled_at = some now;
}

abbrev pub cancel_parent : Option PaymentStatus → ℕ → Order → Order
cancel_parent none now o = record o { status = OrderStatus.cancelled; cancelled_at = some now }
cancel_parent (some p) now o = record o {
  status = OrderStatus.cancelled;
  payment_status = p;
  cancelled_at = some now;
}

-- One round of the loop over the sub-orders; one that is cancelled already is skipped.
unfoldable pub cancel_one : Option ℕ → Option PaymentStatus → ℕ → SellerOrder → Database → Database
cancel_one actor paid now so db =
    if so.status =s OrderStatus.cancelled
    then db
    else add_history
        (record {
          order_id = none;
          seller_order_id = some so.id;
          from_status = some so.status;
          to_status = OrderStatus.cancelled;
          changed_by_id = actor;
        })
        (update_seller_order so.id (cancel_sub paid now) db)

unfoldable pub cancel_subs :
    Option ℕ → Option PaymentStatus → ℕ → List SellerOrder → Database → Database
unfolding cancel_one
cancel_subs actor paid now [] db = db
cancel_subs actor paid now (so ∷ sos) db =
    cancel_subs actor paid now sos (cancel_one actor paid now so db)

-- The status writes of both cancellations, on the order as it was read before.
unfoldable pub cancel_rows :
    Option ℕ → Option PaymentStatus → ℕ → Order → List SellerOrder → Database → Database
unfolding cancel_subs
cancel_rows actor paid now order subs db =
    add_history
      (record {
        order_id = some order.id;
        seller_order_id = none;
        from_status = some order.status;
        to_status = OrderStatus.cancelled;
        changed_by_id = actor;
      })
      (update_order order.id (cancel_parent paid now) (cancel_subs actor paid now subs db))

-- The transaction of both cancellations: the status writes, and the release of every movement that
-- placement wrote for the order.
unfoldable pub cancel_transaction :
    Option ℕ → Option PaymentStatus → ℕ → Order → List SellerOrder → Database → Result Database
unfolding cancel_rows
cancel_transaction actor paid now order subs db =
    let written = cancel_rows actor paid now order subs db in
    release_all actor order.id
      (sort_by_inventory (select (is_placement_of order.id) written.movements)) written

-- A sub-order that keeps the customer from cancelling.
abbrev pub is_started : SellerOrder → Bool
is_started so = not (so.status =s OrderStatus.pending) && not (so.status =s OrderStatus.cancelled)

-- The checks of `cancelMyOrder`: the order to cancel.
unfoldable pub check_cancel : ℕ → ℕ → Database → Result Order
unfolding get_customer_id
check_cancel user_id order_id db = do
  customer_id ← get_customer_id user_id db
  order ← or_throw (find_order order_id db) not_found
  throw_if order.is_deleted not_found
  throw_if (not (order.customer_id == customer_id)) forbidden
  throw_if (not (order.status =s OrderStatus.pending)) bad_request
  throw_if (any_of is_started (sub_orders order_id db)) bad_request
  ok order

-- `cancelMyOrder`
unfoldable pub cancel_my_order : ℕ → ℕ → ℕ → Database → Result Database
unfolding check_cancel cancel_transaction
cancel_my_order user_id order_id now db = do
  order ← check_cancel user_id order_id db
  cancel_transaction (some user_id) none now order (sub_orders order_id db) db

abbrev pub is_paid : PaymentStatus → Bool
is_paid PaymentStatus.paid = true
is_paid _ = false

-- `cancelForPaymentFailure`: nothing happens to an order that is missing, cancelled or paid.
unfoldable pub cancel_for_payment_failure : ℕ → ℕ → Database → Result Database
unfolding cancel_transaction
cancel_for_payment_failure order_id now db = elim (find_order order_id db) [
  | none ↦ ok db
  | some order ↦
      if order.is_deleted || (order.status =s OrderStatus.cancelled || is_paid order.payment_status)
      then ok db
      else cancel_transaction none (some PaymentStatus.failed) now order (sub_orders order_id db) db
]

-- `PAID_STATES`
abbrev pub has_moved_money : PaymentStatus → Bool
has_moved_money PaymentStatus.paid = true
has_moved_money PaymentStatus.partially_paid = true
has_moved_money PaymentStatus.partially_refunded = true
has_moved_money PaymentStatus.refunded = true
has_moved_money _ = false

abbrev pub is_fulfilling : SellerOrder → Bool
is_fulfilling so =
    so.status =s OrderStatus.packed
    || so.status =s OrderStatus.shipped
    || so.status =s OrderStatus.delivered

-- `CANCELLABLE.includes`
abbrev pub is_cancellable : OrderStatus → Bool
is_cancellable s = s =s OrderStatus.pending || s =s OrderStatus.confirmed

-- The checks of `adminCancelOrder` on an order that is not cancelled.
unfoldable pub check_admin_cancel : Order → Database → Result (Unit {0})
check_admin_cancel order db = do
  throw_if (has_moved_money order.payment_status) bad_request
  throw_if (not (is_cancellable order.status) || any_of is_fulfilling (sub_orders order.id db))
      bad_request

-- `adminCancelOrder`
unfoldable pub admin_cancel_order : ℕ → ℕ → Database → Result Database
unfolding cancel_for_payment_failure check_admin_cancel
admin_cancel_order order_id now db = do
  order ← or_throw (find_order order_id db) not_found
  throw_if order.is_deleted not_found
  if order.status =s OrderStatus.cancelled
      then ok db
      else (check_admin_cancel order db >> cancel_for_payment_failure order_id now db)
