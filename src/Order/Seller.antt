-- ===== src/Order/Seller.antt =====
-- The seller's status changes of a sub-order (src/modules/ecommerce/order/seller-order.service.ts).
pub mod Guards
pub mod Effects
pub mod DoubleRelease
use e_commerce_backend.Common.{
  ℕ, Bool, true, false, not, Option, none, some, List, [], ◌∷◌, ◌++◌, map, ◌==◌, ◌&&◌, ◌||◌, all_of,
  find, select, if◌then◌else◌, Exception, bad_request, forbidden, not_found, plain_error, Result,
  ok, err, ◌>>=◌, ◌>>◌, throw_if, or_throw,
}
use e_commerce_backend.Common.Text.{Text, trim, is_blank}
use e_commerce_backend.Order.Status.{
  OrderStatus, PaymentStatus, PaymentMethod, ◌=s◌, is_valid_transition,
}
use e_commerce_backend.Order.Movements.{slice_movements, release_all, ship_all}
use e_commerce_backend.Database.{
  Database, Seller, Order, SellerOrder, OrderItem, HistoryEntry, find_order, find_seller_order,
  sub_orders, update_order, update_seller_order, add_history,
}

-- `UpdateSellerOrderStatusInput`; an absent optional field is `none`
pub record StatusInput : Type 0 where
  pub seller_order_id : ℕ
  pub status : OrderStatus
  pub tracking_number : Option Text
  pub carrier : Option Text
  pub tracking_url : Option Text
  pub expected_delivery_at : Option ℕ

-- What is started after the transaction and not awaited.
pub data Effect : Type 0 where
  status_email : ℕ → OrderStatus → Effect
  generate_invoice : ℕ → Effect
  create_courier_order : ℕ → Effect

-- `getSellerId`
unfoldable pub get_seller_id : ℕ → Database → Result ℕ
get_seller_id user_id db = do
  s ← or_throw (find (λ s. s.user_id == user_id) db.sellers) forbidden
  throw_if s.is_deleted forbidden
  ok s.id

abbrev pub is_cod : PaymentMethod → Bool
is_cod PaymentMethod.cod = true
is_cod _ = false

abbrev pub is_captured : PaymentStatus → Bool
is_captured PaymentStatus.paid = true
is_captured _ = false

-- `!input.trackingNumber || !input.trackingNumber.trim()`
unfoldable pub lacks_tracking : Option Text → Bool
lacks_tracking none = true
lacks_tracking (some t) = is_blank (trim t)

-- The checks of `updateStatus`: the sub-order as it was read.
unfoldable pub check_update : ℕ → StatusInput → Database → Result SellerOrder
check_update user_id input db = do
  seller_id ← get_seller_id user_id db
  existing ← or_throw (find_seller_order input.seller_order_id db) not_found
  throw_if existing.is_deleted not_found
  throw_if (not (existing.seller_id == seller_id)) forbidden
  parent ← or_throw (find_order existing.order_id db) plain_error
  throw_if
      (not (input.status =s OrderStatus.cancelled)
        && (not (is_cod parent.payment_method) && not (is_captured parent.payment_status)))
      bad_request
  throw_if (not (is_valid_transition existing.status input.status)) bad_request
  throw_if (input.status =s OrderStatus.shipped && lacks_tracking input.tracking_number) bad_request
  ok existing

-- `if (text) column = text.trim()`
unfoldable pub trimmed_or : Option Text → Option Text → Option Text
trimmed_or none old = old
trimmed_or (some t) old = if is_blank t then old else some (trim t)

-- `stampPatch`
unfoldable pub stamp : StatusInput → ℕ → SellerOrder → SellerOrder
unfolding trimmed_or
stamp input now s = elim input.status [
  | OrderStatus.packed ↦ record s { status = OrderStatus.packed; packed_at = some now }
  | OrderStatus.shipped ↦ record s {
    status = OrderStatus.shipped;
    shipped_at = some now;
    dispatched_at = some now;
    tracking_number = elim input.tracking_number [
      | none ↦ s.tracking_number
      | some t ↦ some (trim t)
    ];
    carrier = trimmed_or input.carrier s.carrier;
    tracking_url = trimmed_or input.tracking_url s.tracking_url;
    expected_delivery_at = elim input.expected_delivery_at [
      | none ↦ s.expected_delivery_at
      | some d ↦ some d
    ];
  }
  | OrderStatus.delivered ↦ record s { status = OrderStatus.delivered; delivered_at = some now }
  | OrderStatus.cancelled ↦ record s { status = OrderStatus.cancelled; cancelled_at = some now }
  | other ↦ record s { status = other }
]

-- The parent is stamped when the last of its sub-orders is delivered.
unfoldable pub roll_up_delivery : Option ℕ → Bool → ℕ → ℕ → Database → Database
roll_up_delivery actor logs order_id now db =
    let db' =
      update_order order_id
        (λ o. record o { delivered_at = some now; status = OrderStatus.delivered }) db in
    let entry : HistoryEntry = record {
      order_id = some order_id;
      seller_order_id = none;
      from_status = none;
      to_status = OrderStatus.delivered;
      changed_by_id = actor;
    } in
    if all_of (λ s. s.status =s OrderStatus.delivered) (sub_orders order_id db)
    then (if logs then add_history entry db' else db')
    else db

-- The variants of a sub-order's items.
abbrev pub slice_variants : ℕ → Database → List ℕ
slice_variants k db =
    map (λ (i : OrderItem). i.variant_id) (select (λ i. i.seller_order_id == k) db.order_items)

-- What the transaction does besides the row and its history, by the new status.
unfoldable pub apply_status : ℕ → SellerOrder → OrderStatus → ℕ → Database → Result Database
unfolding roll_up_delivery
apply_status user_id existing status now db =
    let moved =
      slice_movements existing.order_id (slice_variants existing.id db) existing.store_id db in
    elim status [
      | OrderStatus.delivered ↦ ok (roll_up_delivery (some user_id) true existing.order_id now db)
      | OrderStatus.shipped ↦ ship_all user_id existing.id moved db
      | OrderStatus.cancelled ↦ release_all (some user_id) existing.order_id moved db
      | _ ↦ ok db
    ]

-- `isConfirmation` and `isCodConfirmation`
abbrev pub is_confirmation : SellerOrder → OrderStatus → Bool
is_confirmation existing status =
    existing.status =s OrderStatus.pending && status =s OrderStatus.confirmed

abbrev pub is_cod_confirmation : SellerOrder → OrderStatus → Bool
is_cod_confirmation existing status = is_confirmation existing status && not existing.has_invoice

abbrev pub accrue_tcs : ℕ → Database → Database
accrue_tcs k db = record db { tcs_accruals = db.tcs_accruals ++ (k ∷ []) }

-- The transaction of `updateStatus`, on the sub-order as it was read before.
unfoldable pub update_transaction : ℕ → StatusInput → ℕ → SellerOrder → Database → Result Database
unfolding stamp apply_status
update_transaction user_id input now existing db =
    let db1 =
      add_history
        (record {
          order_id = none;
          seller_order_id = some existing.id;
          from_status = some existing.status;
          to_status = input.status;
          changed_by_id = some user_id;
        })
        (update_seller_order existing.id (stamp input now) db) in
    let db2 =
      if is_cod_confirmation existing input.status then accrue_tcs existing.id db1 else db1 in
    apply_status user_id existing input.status now db2

abbrev pub effects_of : SellerOrder → OrderStatus → List Effect
effects_of existing status =
    status_email existing.id status
    ∷ ((if is_cod_confirmation existing status then generate_invoice existing.id ∷ [] else [])
        ++ (if is_confirmation existing status then create_courier_order existing.id ∷ [] else []))

-- `updateStatus`
unfoldable pub update_status : ℕ → StatusInput → ℕ → Database → Result (Database × List Effect)
unfolding check_update update_transaction
update_status user_id input now db = do
  existing ← check_update user_id input db
  after ← update_transaction user_id input now existing db
  ok (after, effects_of existing input.status)

-- The target of a courier's report: a status, or one of the two exceptions.
pub data CourierTarget : Type 0 where
  to_status : OrderStatus → CourierTarget
  ndr rto : CourierTarget

abbrev pub courier_exception : (SellerOrder → SellerOrder) → SellerOrder → Database → Database
courier_exception flag so db =
    add_history
      (record {
        order_id = none;
        seller_order_id = some so.id;
        from_status = some so.status;
        to_status = so.status;
        changed_by_id = none;
      })
      (update_seller_order so.id flag db)

-- `stamp` of `applyCourierStatus`
unfoldable pub courier_stamp : SellerOrder → OrderStatus → ℕ → SellerOrder → SellerOrder
courier_stamp so target now s = elim target [
  | OrderStatus.shipped ↦ record s {
    status = OrderStatus.shipped;
    shipped_at = elim so.shipped_at [ none ↦ some now | some t ↦ some t ];
  }
  | OrderStatus.delivered ↦ record s { status = OrderStatus.delivered; delivered_at = some now }
  | other ↦ record s { status = other }
]

unfoldable pub courier_transaction : SellerOrder → OrderStatus → ℕ → Database → Database
unfolding courier_stamp roll_up_delivery
courier_transaction so target now db =
    let db' =
      add_history
        (record {
          order_id = none;
          seller_order_id = some so.id;
          from_status = some so.status;
          to_status = target;
          changed_by_id = none;
        })
        (update_seller_order so.id (courier_stamp so target now) db) in
    if target =s OrderStatus.delivered then roll_up_delivery none false so.order_id now db' else db'

unfoldable pub courier_update : SellerOrder → CourierTarget → ℕ → Database → Database
unfolding courier_transaction
courier_update so CourierTarget.ndr now db =
    courier_exception (λ s. record s { ndr_at = some now }) so db
courier_update so CourierTarget.rto now db =
    courier_exception (λ s. record s { rto_at = some now }) so db
courier_update so (CourierTarget.to_status target) now db =
    if so.status =s target || not (is_valid_transition so.status target)
    then db
    else courier_transaction so target now db

-- `applyCourierStatus`
unfoldable pub apply_courier_status : ℕ → CourierTarget → ℕ → Database → Database
unfolding courier_update
apply_courier_status seller_order_id target now db = elim (find_seller_order seller_order_id db) [
  | none ↦ db
  | some so ↦ if so.is_deleted then db else courier_update so target now db
]
