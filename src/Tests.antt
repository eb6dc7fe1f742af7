-- ===== src/Tests.antt =====
-- A small shop on which the operations are run, and the cases that the theorems are applied to.
pub mod Orders
pub mod Placements
pub mod Prices
pub mod Rates
pub mod Shops
pub mod Services
pub mod Background
pub mod Books
pub mod Refunds
pub mod Returns
pub mod Payouts
pub mod Taxes
use e_commerce_backend.Common.{
  ℕ, Bool, true, false, Option, none, some, List, [], ◌∷◌, Result, ok, err,
}
use e_commerce_backend.Common.Int.{ℤ, pos, negsuc}
use e_commerce_backend.Common.Text.{Text}
use e_commerce_backend.Stock.{Stock, InventoryRow}
use e_commerce_backend.Order.Status.{OrderStatus, PaymentStatus, PaymentMethod}
use e_commerce_backend.Database.{
  Database, Seller, Customer, Variant, Warehouse, Order, SellerOrder, OrderItem, Movement,
  MovementType, ReferenceType, PayoutStatus,
}
use e_commerce_backend.Order.Seller.{StatusInput}
use e_commerce_backend.Placement.{Deduction}

abbrev pub level : ℕ → ℕ → ℕ → Stock
level available reserved on_hand = record {
  available = available;
  reserved = reserved;
  on_hand = pos on_hand;
}

abbrev pub row : ℕ → ℕ → Stock → InventoryRow
row k warehouse s = record {
  id = k;
  variant_id = 1;
  warehouse_id = warehouse;
  stock = s;
  reorder_point = 0;
  reorder_quantity = 0;
  last_counted_at = none;
  is_deleted = false;
}

-- user 10 sells from store 5, user 20 buys
abbrev pub shop : Stock → Database
shop s = record {
  sellers = record { id = 3; user_id = 10; is_deleted = false } ∷ [];
  customers = record { id = 4; user_id = 20; is_deleted = false } ∷ [];
  variants = record { id = 1; store_id = 5; seller_user_id = some 10; is_deleted = false } ∷ [];
  warehouses = record { id = 6; store_id = 5; is_default = true; is_deleted = false } ∷ [];
  inventory = row 100 6 s ∷ [];
  movements = [];
  orders = [];
  seller_orders = [];
  order_items = [];
  status_history = [];
  tcs_accruals = [];
}

abbrev pub order_of : OrderStatus → Order
order_of status = record {
  id = 7;
  customer_id = 4;
  status = status;
  payment_status = PaymentStatus.pending;
  payment_method = PaymentMethod.cod;
  is_deleted = false;
  delivered_at = none;
  cancelled_at = none;
}

abbrev pub sub_order_of : OrderStatus → SellerOrder
sub_order_of status = record {
  id = 70;
  order_id = 7;
  seller_id = 3;
  store_id = 5;
  status = status;
  payment_status = PaymentStatus.pending;
  has_invoice = false;
  is_deleted = false;
  packed_at = none;
  shipped_at = none;
  dispatched_at = none;
  delivered_at = none;
  cancelled_at = none;
  tracking_number = none;
  carrier = none;
  tracking_url = none;
  expected_delivery_at = none;
  ndr_at = none;
  rto_at = none;
  subtotal = 20000;
  tax_amount = 3600;
  shipping_amount = 4000;
  discount_amount = 0;
  payout_amount = 25600;
  payout_status = PayoutStatus.pending;
}

-- what placement logged for two units
abbrev pub two_units : Movement
two_units = record {
  inventory_id = 100;
  variant_id = 1;
  warehouse_id = 6;
  movement_type = MovementType.sale;
  quantity_change = negsuc 1;
  quantity_before = pos 5;
  quantity_after = pos 3;
  reference_type = some ReferenceType.order;
  reference_id = some 7;
  created_by_id = some 20;
}

abbrev pub two_of_one : OrderItem
two_of_one = record {
  id = 700;
  seller_order_id = 70;
  variant_id = 1;
  quantity = 2;
  total_price = 20000;
  tax_amount = 3600;
  discount_amount = 0;
}

-- an order for two of five units, with its sub-order in the given status
abbrev pub placed : OrderStatus → Stock → Database
placed status s = record (shop s) {
  movements = two_units ∷ [];
  orders = order_of OrderStatus.pending ∷ [];
  seller_orders = sub_order_of status ∷ [];
  order_items = two_of_one ∷ [];
}

abbrev pub input_to : OrderStatus → Option Text → StatusInput
input_to status tracking = record {
  seller_order_id = 70;
  status = status;
  tracking_number = tracking;
  carrier = none;
  tracking_url = none;
  expected_delivery_at = none;
}

abbrev pub two_planned : Deduction
two_planned = record { inventory_id = 100; variant_id = 1; warehouse_id = 6; quantity = 2 }

-- the database after a request, or the empty shop
abbrev pub get_or_start : Result Database → Database
get_or_start (ok db) = db
get_or_start (err e) = shop (level 0 0 0)
