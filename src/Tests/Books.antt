-- ===== src/Tests/Books.antt =====
-- The balance of the inventory, through a small history of the shop.
use e_commerce_backend.Common.{refl, [], ◌∷◌, some, none}
use e_commerce_backend.Common.Int.{pos, ◌-ℤ◌, ◌+ℤ◌}
use e_commerce_backend.Stock.{reserve, release, update_stock, stock_at, adjust, adjust_from}
use e_commerce_backend.Stock.Table.{AreBalanced}
use e_commerce_backend.Order.Status.{OrderStatus}
use e_commerce_backend.Database.{Database, MovementType, change_stock}
use e_commerce_backend.Order.Movements.{
  insert_by_inventory, sort_by_inventory, release_one, release_all,
}
use e_commerce_backend.Order.Customer.{
  get_customer_id, check_cancel, cancel_one, cancel_subs, cancel_rows, cancel_transaction,
  cancel_my_order,
}
use e_commerce_backend.Placement.{
  insert_deduction, sort_deductions, reserve_one, reserve_all, take_stock,
}
use e_commerce_backend.Inventory.{
  AdjustInput, adjustment_of, assert_variant_ownership, resolve_warehouse_id, row_for, adjust_row,
  adjust_inventory,
}
use e_commerce_backend.Shop.{Step, Steps}
use e_commerce_backend.Shop.Books.{Steps-AreBalanced}
use e_commerce_backend.Tests.{
  level, shop, placed, order_of, sub_order_of, two_planned, two_of_one, get_or_start,
}

abbrev found_four : AdjustInput
found_four = record {
  variant_id = 1;
  warehouse_id = none;
  delta = some (pos 4);
  new_quantity_on_hand = none;
  movement_type = MovementType.adjustment;
}

abbrev with_order : Database
with_order = placed OrderStatus.pending (level 3 2 5)

abbrev with_four_more : Database
with_four_more = get_or_start (adjust_inventory 10 found_four 200 8 with_order)

abbrev after_cancellation : Database
after_cancellation = get_or_start (cancel_my_order 20 7 9 with_four_more)

-- two of five units are ordered, the seller finds four more, and the customer cancels
Steps-AreBalanced_example : AreBalanced after_cancellation.inventory
unfolding take_stock reserve_all reserve_one sort_deductions insert_deduction change_stock
    update_stock reserve stock_at ◌-ℤ◌ ◌+ℤ◌ adjust_inventory adjustment_of assert_variant_ownership
    resolve_warehouse_id row_for adjust_row adjust adjust_from cancel_my_order get_customer_id
    check_cancel cancel_transaction cancel_rows cancel_subs cancel_one sort_by_inventory
    insert_by_inventory release_all release_one release
Steps-AreBalanced_example =
    Steps-AreBalanced
      (Steps.then
        (Steps.then
          (Steps.then (Steps.none_yet (shop (level 5 0 5))) (
            Step.places 20 (two_planned ∷ []) (order_of OrderStatus.pending)
              (sub_order_of OrderStatus.pending ∷ []) (two_of_one ∷ []) (shop (level 5 0 5))
              (get_or_start (take_stock 20 7 (two_planned ∷ []) (shop (level 5 0 5)))) refl))
          (Step.adjusts 10 found_four 200 8 with_order with_four_more refl))
        (Step.cancels 20 7 9 with_four_more after_cancellation refl))
      (refl, tt)
