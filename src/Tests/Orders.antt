-- ===== src/Tests/Orders.antt =====
-- The theorems on orders and on placement, on the small shop.
use e_commerce_backend.Common.Int.{◌-ℤ◌}
use e_commerce_backend.Common.Text.{trim}
use e_commerce_backend.Common.{◌+◌, ◌≡◌, ◌≤◌, ◌↔◌, refl, All, none, some, [], ◌∷◌, ok}
use e_commerce_backend.Stock.{stock_at, commit, release, update_stock}
use e_commerce_backend.Order.Status.{
  OrderStatus, is_valid_transition, roll_up, earliest_of, compute_parent_status,
}
use e_commerce_backend.Order.Status.Workflow.{stage}
use e_commerce_backend.Order.Status.Parent.{Has, compute_parent_status-earliest}
use e_commerce_backend.Database.{Order, SellerOrder, find_seller_order, change_stock}
use e_commerce_backend.Order.Movements.{
  insert_by_inventory, sort_by_inventory, release_one, release_all, ship_row, ship_one, ship_all,
}
use e_commerce_backend.Order.Movements.Conservation.{claimed, placements, Regains}
use e_commerce_backend.Order.Customer.{
  get_customer_id, check_cancel, cancel_one, cancel_subs, cancel_rows, cancel_transaction,
  cancel_parent, cancel_my_order,
}
use e_commerce_backend.Order.Customer.Statuses.{Closed, cancel_my_order-closes}
use e_commerce_backend.Order.Customer.Cancellation.{IsCancellable, cancel_my_order-Released}
use e_commerce_backend.Order.Seller.{
  get_seller_id, check_update, lacks_tracking, trimmed_or, stamp, roll_up_delivery, apply_status,
  update_transaction, update_status, CourierTarget, apply_courier_status,
}
use e_commerce_backend.Order.Seller.Guards.{IsAllowed, check_update_iff}
use e_commerce_backend.Order.Seller.Effects.{
  MovesUnits, slice_of, update_status-Moves, apply_courier_status-keeps_stock,
}
use e_commerce_backend.Order.Seller.DoubleRelease.{cancel_my_order-releases_twice}
use e_commerce_backend.Tests.{level, placed, sub_order_of, input_to, get_or_start}

update_status-Moves_example :
    (so : SellerOrder) × IsAllowed 10
      (input_to OrderStatus.shipped (some (65 ∷ [])))
      (placed OrderStatus.packed (level 3 2 5))
      so
    × MovesUnits OrderStatus.shipped
        (claimed 100 (slice_of so (placed OrderStatus.packed (level 3 2 5))))
        (level 3 2 5)
        (some (level 3 0 3))
unfolding update_status get_seller_id check_update update_transaction stamp trimmed_or
    lacks_tracking apply_status ship_all ship_one ship_row change_stock update_stock commit stock_at
    roll_up_delivery trim is_valid_transition ◌-ℤ◌
update_status-Moves_example =
    update_status-Moves 10 (input_to OrderStatus.shipped (some (65 ∷ []))) 9
      (placed OrderStatus.packed (level 3 2 5)) refl 100 (level 3 2 5) refl

cancel_my_order-Released_example : Regains 2 (level 3 2 5) (some (level 5 0 5))
unfolding cancel_my_order get_customer_id check_cancel cancel_transaction cancel_rows cancel_subs
    cancel_one sort_by_inventory insert_by_inventory release_all release_one change_stock
    update_stock release stock_at ◌-ℤ◌
cancel_my_order-Released_example =
    cancel_my_order-Released 20 7 9 (placed OrderStatus.pending (level 3 2 5)) refl 100
      (level 3 2 5) refl

cancel_my_order-closes_example :
    (o : Order) × IsCancellable 20 7 (placed OrderStatus.pending (level 3 2 5)) o
    × Closed 7
        (cancel_parent none 9 o)
        (get_or_start (cancel_my_order 20 7 9 (placed OrderStatus.pending (level 3 2 5))))
unfolding cancel_my_order get_customer_id check_cancel cancel_transaction cancel_rows cancel_subs
    cancel_one sort_by_inventory insert_by_inventory release_all release_one change_stock
    update_stock release ◌-ℤ◌
cancel_my_order-closes_example =
    cancel_my_order-closes 20 7 9 (placed OrderStatus.pending (level 3 2 5)) refl

check_update_iff_example :
    (check_update 10 (input_to OrderStatus.packed none) (placed OrderStatus.confirmed (level 3 2 5))
      ≡ ok (sub_order_of OrderStatus.confirmed))
    ↔ IsAllowed 10
        (input_to OrderStatus.packed none)
        (placed OrderStatus.confirmed (level 3 2 5))
        (sub_order_of OrderStatus.confirmed)
check_update_iff_example =
    check_update_iff 10 (input_to OrderStatus.packed none)
      (placed OrderStatus.confirmed (level 3 2 5)) (sub_order_of OrderStatus.confirmed)

-- the order holds two of nine units; four of them are reserved, two for another order
cancel_my_order-releases_twice_example :
    (so : SellerOrder) × IsAllowed 10
      (input_to OrderStatus.cancelled none)
      (placed OrderStatus.pending (level 5 4 9))
      so
    × Regains
        (claimed 100 (slice_of so (placed OrderStatus.pending (level 5 4 9)))
          + claimed 100 (placements 7 (placed OrderStatus.pending (level 5 4 9))))
        (level 5 4 9)
        (some (level 9 0 9))
unfolding update_status get_seller_id check_update update_transaction stamp trimmed_or
    lacks_tracking apply_status release_all release_one change_stock update_stock release stock_at
    is_valid_transition ◌-ℤ◌ cancel_my_order get_customer_id check_cancel cancel_transaction
    cancel_rows cancel_subs cancel_one sort_by_inventory insert_by_inventory
cancel_my_order-releases_twice_example =
    cancel_my_order-releases_twice 10 20 7 8 9 (input_to OrderStatus.cancelled none)
      (placed OrderStatus.pending (level 5 4 9)) refl refl refl 100 (level 5 4 9) refl

apply_courier_status-keeps_stock_example :
    (s : SellerOrder) × (find_seller_order 70 (
        apply_courier_status 70
          (CourierTarget.to_status OrderStatus.shipped)
          9
          (placed OrderStatus.packed (level 3 2 5)))
      ≡ some s)
    × (s.status ≡ OrderStatus.shipped)
    × ((apply_courier_status 70
          (CourierTarget.to_status OrderStatus.shipped)
          9
          (placed OrderStatus.packed (level 3 2 5))).inventory
        ≡ (placed OrderStatus.packed (level 3 2 5)).inventory)
unfolding is_valid_transition
apply_courier_status-keeps_stock_example =
    apply_courier_status-keeps_stock 70 9 (placed OrderStatus.packed (level 3 2 5))
      (sub_order_of OrderStatus.packed) OrderStatus.shipped refl refl refl

compute_parent_status-earliest_example :
    Has OrderStatus.packed (OrderStatus.shipped ∷ OrderStatus.packed ∷ OrderStatus.cancelled ∷ [])
    × All
        (λ t. stage OrderStatus.packed ≤ stage t)
        (OrderStatus.shipped ∷ OrderStatus.packed ∷ OrderStatus.cancelled ∷ [])
unfolding compute_parent_status roll_up earliest_of
compute_parent_status-earliest_example =
    compute_parent_status-earliest OrderStatus.shipped
      (OrderStatus.packed ∷ OrderStatus.cancelled ∷ [])
