-- ===== src/Database.antt =====
-- The tables that the order and inventory services read and write (prisma/schema), one list of rows
-- each. A column that no modelled code reads is left out: names, addresses, notes and the like.
-- Identifiers are only compared, and times are milliseconds, so both are naturals.
use e_commerce_backend.Common.{
  ℕ, Bool, false, Option, none, some, List, [], ◌∷◌, ◌++◌, ◌==◌, find, select, if◌then◌else◌,
  Result, ok, ◌>>=◌,
}
use e_commerce_backend.Common.Int.{ℤ}
use e_commerce_backend.Common.Text.{Text}
use e_commerce_backend.Order.Status.{OrderStatus, PaymentStatus, PaymentMethod}
use e_commerce_backend.Stock.{Stock, InventoryRow, update_stock}

pub record Seller : Type 0 where
  pub id : ℕ
  pub user_id : ℕ
  pub is_deleted : Bool

pub record Customer : Type 0 where
  pub id : ℕ
  pub user_id : ℕ
  pub is_deleted : Bool

-- A product variant, with the store of its product and the user behind that store.
pub record Variant : Type 0 where
  pub id : ℕ
  pub store_id : ℕ
  pub seller_user_id : Option ℕ
  pub is_deleted : Bool

pub record Warehouse : Type 0 where
  pub id : ℕ
  pub store_id : ℕ
  pub is_default : Bool
  pub is_deleted : Bool

pub data MovementType : Type 0 where
  purchase sale return adjustment transfer damage expired : MovementType

-- `referenceType`; a manual adjustment has none
pub data ReferenceType : Type 0 where
  order order_cancel order_ship order_refund : ReferenceType

pub record Movement : Type 0 where
  pub inventory_id : ℕ
  pub variant_id : ℕ
  pub warehouse_id : ℕ
  pub movement_type : MovementType
  pub quantity_change : ℤ
  pub quantity_before : ℤ
  pub quantity_after : ℤ
  pub reference_type : Option ReferenceType
  pub reference_id : Option ℕ
  pub created_by_id : Option ℕ

pub data PayoutStatus : Type 0 where
  pending processing paid failed : PayoutStatus

-- Amounts are in paise.
pub record Order : Type 0 where
  pub id : ℕ
  pub customer_id : ℕ
  pub status : OrderStatus
  pub payment_status : PaymentStatus
  pub payment_method : PaymentMethod
  pub is_deleted : Bool
  pub delivered_at : Option ℕ
  pub cancelled_at : Option ℕ

pub record SellerOrder : Type 0 where
  pub id : ℕ
  pub order_id : ℕ
  pub seller_id : ℕ
  pub store_id : ℕ
  pub status : OrderStatus
  pub payment_status : PaymentStatus
  pub has_invoice : Bool
  pub is_deleted : Bool
  pub packed_at : Option ℕ
  pub shipped_at : Option ℕ
  pub dispatched_at : Option ℕ
  pub delivered_at : Option ℕ
  pub cancelled_at : Option ℕ
  pub tracking_number : Option Text
  pub carrier : Option Text
  pub tracking_url : Option Text
  pub expected_delivery_at : Option ℕ
  pub ndr_at : Option ℕ
  pub rto_at : Option ℕ
  pub subtotal : ℕ
  pub tax_amount : ℕ
  pub shipping_amount : ℕ
  pub discount_amount : ℕ
  pub payout_amount : ℕ
  pub payout_status : PayoutStatus

pub record OrderItem : Type 0 where
  pub id : ℕ
  pub seller_order_id : ℕ
  pub variant_id : ℕ
  pub quantity : ℕ
  pub total_price : ℕ
  pub tax_amount : ℕ
  pub discount_amount : ℕ

-- An `OrderStatusHistory` row: of a parent order or of a sub-order.
pub record HistoryEntry : Type 0 where
  pub order_id : Option ℕ
  pub seller_order_id : Option ℕ
  pub from_status : Option OrderStatus
  pub to_status : OrderStatus
  pub changed_by_id : Option ℕ

pub record Database : Type 0 where
  pub sellers : List Seller
  pub customers : List Customer
  pub variants : List Variant
  pub warehouses : List Warehouse
  pub inventory : List InventoryRow
  pub movements : List Movement
  pub orders : List Order
  pub seller_orders : List SellerOrder
  pub order_items : List OrderItem
  pub status_history : List HistoryEntry
  -- the sub-orders for which `TcsService.accrue` was called
  pub tcs_accruals : List ℕ

-- `findUnique({ where: { id } })`
abbrev pub find_order : ℕ → Database → Option Order
find_order k db = find (λ o. o.id == k) db.orders

abbrev pub find_seller_order : ℕ → Database → Option SellerOrder
find_seller_order k db = find (λ s. s.id == k) db.seller_orders

-- the rows of one parent order, as `include: { sellerOrders }` reads them
abbrev pub sub_orders : ℕ → Database → List SellerOrder
sub_orders k db = select (λ s. s.order_id == k) db.seller_orders

-- `update({ where: { id }, data })`
abbrev pub set_order : ℕ → (Order → Order) → List Order → List Order
set_order k f [] = []
set_order k f (o ∷ os) = (if o.id == k then f o else o) ∷ set_order k f os

abbrev pub set_seller_order : ℕ → (SellerOrder → SellerOrder) → List SellerOrder → List SellerOrder
set_seller_order k f [] = []
set_seller_order k f (s ∷ ss) = (if s.id == k then f s else s) ∷ set_seller_order k f ss

abbrev pub update_order : ℕ → (Order → Order) → Database → Database
update_order k f db = record db { orders = set_order k f db.orders }

abbrev pub update_seller_order : ℕ → (SellerOrder → SellerOrder) → Database → Database
update_seller_order k f db = record db { seller_orders = set_seller_order k f db.seller_orders }

abbrev pub add_history : HistoryEntry → Database → Database
add_history h db = record db { status_history = db.status_history ++ (h ∷ []) }

abbrev pub add_movement : Movement → Database → Database
add_movement m db = record db { movements = db.movements ++ (m ∷ []) }

-- A write to one inventory row inside a transaction, with the row after it.
unfoldable pub change_stock : ℕ → (Stock → Result Stock) → Database → Result (Stock × Database)
change_stock k f db = do p ← update_stock k f db.inventory; ok (p.0, record db { inventory = p.1 })

-- The store that a movement's warehouse belongs to, in `warehouse: { storeId }`.
abbrev pub in_store : ℕ → ℕ → Database → Bool
in_store store warehouse db = elim (find (λ w. w.id == warehouse) db.warehouses) [
  | none ↦ false
  | some w ↦ w.store_id == store
]
