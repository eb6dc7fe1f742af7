-- ===== src/Tests/Placements.antt =====
-- The theorems on what placement plans and takes, on the small shop.
use e_commerce_backend.Common.{
  ◌≡◌, ◌≤◌, ◌↔◌, refl, true, some, List, [], ◌∷◌, is_ok, arith, All, sum_by,
}
use e_commerce_backend.Common.Int.{◌-ℤ◌}
use e_commerce_backend.Stock.{InventoryRow, stock_at, reserve, release, update_stock}
use e_commerce_backend.Order.Status.{OrderStatus}
use e_commerce_backend.Database.{change_stock}
use e_commerce_backend.Order.Movements.{
  insert_by_inventory, sort_by_inventory, release_one, release_all,
}
use e_commerce_backend.Order.Customer.{
  get_customer_id, check_cancel, cancel_one, cancel_subs, cancel_rows, cancel_transaction,
  cancel_my_order,
}
use e_commerce_backend.Placement.{
  InventoryDeduction, insert_by_available, sort_by_available, take_from, plan_inventory_deductions,
  insert_deduction, sort_deductions, reserve_one, reserve_all, take_stock,
}
use e_commerce_backend.Placement.Plan.{
  IsTaken, plan_inventory_deductions-exact, plan_inventory_deductions_iff,
}
use e_commerce_backend.Placement.Reservation.{SetsAside, take_stock-Reserved, take_stock-succeeds}
use e_commerce_backend.Placement.RoundTrip.{cancel_my_order-take_stock}
use e_commerce_backend.Tests.{level, row, shop, placed, two_planned, get_or_start}

-- two warehouses, with two and five units
abbrev two_rows : List InventoryRow
two_rows = row 100 6 (level 2 0 2) ∷ row 101 8 (level 5 0 5) ∷ []

abbrev both_deductions : List InventoryDeduction
both_deductions =
    record { inventory_id = 101; warehouse_id = 8; quantity = 5; before = 5; after = 0 }
    ∷ record { inventory_id = 100; warehouse_id = 6; quantity = 1; before = 2; after = 1 }
    ∷ []

plan_inventory_deductions-exact_example :
    (sum_by (λ (d : InventoryDeduction). d.quantity) both_deductions ≡ 6)
    × All (IsTaken 1 two_rows) both_deductions
unfolding plan_inventory_deductions sort_by_available insert_by_available take_from
plan_inventory_deductions-exact_example = plan_inventory_deductions-exact 1 6 two_rows refl

plan_inventory_deductions_iff_example :
    (is_ok (plan_inventory_deductions 1 8 two_rows) ≡ true) ↔ (8 ≤ 7)
plan_inventory_deductions_iff_example = plan_inventory_deductions_iff 1 8 two_rows

take_stock-Reserved_example : SetsAside 2 (level 5 0 5) (some (level 3 2 5))
unfolding take_stock reserve_all reserve_one sort_deductions insert_deduction change_stock
    update_stock reserve stock_at ◌-ℤ◌
take_stock-Reserved_example =
    take_stock-Reserved 20 7 (two_planned ∷ []) (shop (level 5 0 5)) refl 100 (level 5 0 5) refl

take_stock-succeeds_example :
    is_ok (take_stock 20 7 (two_planned ∷ two_planned ∷ []) (shop (level 4 0 4))) ≡ true
unfolding stock_at
take_stock-succeeds_example =
    take_stock-succeeds 20 7 (two_planned ∷ two_planned ∷ []) (shop (level 4 0 4))
      ((level 4 0 4, refl, omega arith), ((level 4 0 4, refl, omega arith), tt))

cancel_my_order-take_stock_example :
    stock_at 100
      (get_or_start (cancel_my_order 20 7 9 (placed OrderStatus.pending (level 3 2 5)))).inventory
    ≡ some (level 5 0 5)
unfolding take_stock reserve_all reserve_one sort_deductions insert_deduction change_stock
    update_stock reserve stock_at ◌-ℤ◌ cancel_my_order get_customer_id check_cancel
    cancel_transaction cancel_rows cancel_subs cancel_one sort_by_inventory insert_by_inventory
    release_all release_one release
cancel_my_order-take_stock_example =
    cancel_my_order-take_stock 20 7 20 9 (two_planned ∷ []) (shop (level 5 0 5))
      (placed OrderStatus.pending (level 3 2 5)) refl refl refl refl refl 100 (level 5 0 5) refl
