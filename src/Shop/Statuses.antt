-- ===== src/Shop/Statuses.antt =====
-- The status changes of a sub-order keep the inventory balanced.
use e_commerce_backend.Common.{ℕ, ◌≡◌, sym, subst, inl, inr, some, List, ok, Bool-cases}
use e_commerce_backend.Order.Status.{OrderStatus}
use e_commerce_backend.Stock.Table.{AreBalanced}
use e_commerce_backend.Database.{Database, SellerOrder}
use e_commerce_backend.Shop.Balance.{ship_all-AreBalanced, release_all-AreBalanced}
use e_commerce_backend.Order.Seller.{
  StatusInput, Effect, CourierTarget, apply_status, update_transaction, update_status,
  is_cod_confirmation, apply_courier_status,
}
use e_commerce_backend.Order.Seller.Guards.{update_status-parts}
use e_commerce_backend.Order.Seller.Effects.{
  slice_of, apply_status-MovesStock, apply_courier_status-inventory,
}

apply_status-AreBalanced :
    (u : ℕ) (so : SellerOrder) (status : OrderStatus) (now : ℕ) (db : Database) {after : Database}
    → AreBalanced db.inventory
    → apply_status u so status now db ≡ ok after
    → AreBalanced after.inventory
unfolding apply_status
apply_status-AreBalanced u so OrderStatus.shipped now db h e =
    ship_all-AreBalanced u so.id (slice_of so db) db h e
apply_status-AreBalanced u so OrderStatus.cancelled now db h e =
    release_all-AreBalanced (some u) so.order_id (slice_of so db) db h e
apply_status-AreBalanced u so OrderStatus.delivered now db h e =
    subst AreBalanced (sym (apply_status-MovesStock u so OrderStatus.delivered now db e)) h
apply_status-AreBalanced u so OrderStatus.pending now db h e =
    subst AreBalanced (sym (apply_status-MovesStock u so OrderStatus.pending now db e)) h
apply_status-AreBalanced u so OrderStatus.confirmed now db h e =
    subst AreBalanced (sym (apply_status-MovesStock u so OrderStatus.confirmed now db e)) h
apply_status-AreBalanced u so OrderStatus.packed now db h e =
    subst AreBalanced (sym (apply_status-MovesStock u so OrderStatus.packed now db e)) h
apply_status-AreBalanced u so OrderStatus.refunded now db h e =
    subst AreBalanced (sym (apply_status-MovesStock u so OrderStatus.refunded now db e)) h

update_transaction-AreBalanced :
    (u : ℕ) (input : StatusInput) (now : ℕ) (so : SellerOrder) (db : Database) {after : Database}
    → AreBalanced db.inventory
    → update_transaction u input now so db ≡ ok after
    → AreBalanced after.inventory
unfolding update_transaction
update_transaction-AreBalanced u input now so db h e =
    elim (Bool-cases (is_cod_confirmation so input.status)) [
      | inl c ↦ apply_status-AreBalanced u so input.status now _ h (rw c at e)
      | inr c ↦ apply_status-AreBalanced u so input.status now _ h (rw c at e)
    ]

pub update_status-AreBalanced :
    (u : ℕ) (input : StatusInput) (now : ℕ) (db : Database) {after : Database}
    {effects : List Effect}
    → AreBalanced db.inventory
    → update_status u input now db ≡ ok (after, effects)
    → AreBalanced after.inventory
update_status-AreBalanced u input now db h e =
    let (so, c, t, f) = update_status-parts u input now db e in
    update_transaction-AreBalanced u input now so db h t

pub apply_courier_status-AreBalanced :
    (k : ℕ) (target : CourierTarget) (now : ℕ) (db : Database)
    → AreBalanced db.inventory
    → AreBalanced (apply_courier_status k target now db).inventory
apply_courier_status-AreBalanced k target now db h =
    subst AreBalanced (sym (apply_courier_status-inventory k target now db)) h
