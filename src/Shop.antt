-- ===== src/Shop.antt =====
-- The shop as a whole: what the services may do to its tables, in any order.
pub mod Adjustments
pub mod Balance
pub mod Books
pub mod Reservations
pub mod Restocks
pub mod Statuses
use e_commerce_backend.Common.{ℕ, ◌≡◌, List, ◌∷◌, ◌++◌, Option, Result, ok}
use e_commerce_backend.Database.{Database, Order, SellerOrder, OrderItem}
use e_commerce_backend.Order.Customer.{
  cancel_my_order, cancel_for_payment_failure, admin_cancel_order,
}
use e_commerce_backend.Order.Seller.{
  StatusInput, Effect, CourierTarget, update_status, apply_courier_status,
}
use e_commerce_backend.Placement.{Deduction, take_stock}
use e_commerce_backend.Finance.{ReturnRequest}
use e_commerce_backend.Refund.Restock.{restock}
use e_commerce_backend.Inventory.{AdjustInput, ReorderInput, adjust_inventory, set_reorder_point}

-- One call that succeeds. Placement takes its stock and adds its rows.
pub data Step : Database → Database → Type 0 where
  places :
      (user_id : ℕ) (planned : List Deduction) (order : Order) (subs : List SellerOrder)
      (items : List OrderItem) (a mid : Database)
      → take_stock user_id order.id planned a ≡ ok mid
      → Step a (record mid {
        orders = order ∷ mid.orders;
        seller_orders = subs ++ mid.seller_orders;
        order_items = items ++ mid.order_items;
      })
  updates_status :
      (user_id : ℕ) (input : StatusInput) (now : ℕ) (effects : List Effect) (a b : Database)
      → update_status user_id input now a ≡ ok (b, effects)
      → Step a b
  hears_from_courier :
      (k : ℕ) (target : CourierTarget) (now : ℕ) (a : Database)
      → Step a (apply_courier_status k target now a)
  cancels :
      (user_id order_id now : ℕ) (a b : Database)
      → cancel_my_order user_id order_id now a ≡ ok b
      → Step a b
  fails_payment :
      (order_id now : ℕ) (a b : Database)
      → cancel_for_payment_failure order_id now a ≡ ok b
      → Step a b
  cancels_as_admin :
      (order_id now : ℕ) (a b : Database) → admin_cancel_order order_id now a ≡ ok b → Step a b
  adjusts :
      (user_id : ℕ) (input : AdjustInput) (fresh now : ℕ) (a b : Database)
      → adjust_inventory user_id input fresh now a ≡ ok b
      → Step a b
  sets_reorder_point :
      (user_id : ℕ) (input : ReorderInput) (fresh : ℕ) (a b : Database)
      → set_reorder_point user_id input fresh a ≡ ok b
      → Step a b
  restocks :
      (actor : Option ℕ) (refund_id order_id : ℕ) (scoped : List SellerOrder)
      (returns : List ReturnRequest) (a b : Database)
      → restock actor refund_id order_id scoped returns a ≡ ok b
      → Step a b

-- A sequence of calls.

pub data Steps : Database → Database → Type 0 where
  none_yet : (a : Database) → Steps a a
  then : {a b c : Database} → Steps a b → Step b c → Steps a c
