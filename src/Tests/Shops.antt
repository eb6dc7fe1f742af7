-- ===== src/Tests/Shops.antt =====
-- The theorems on inventory, tax, coupons and carts, at concrete inputs.
use e_commerce_backend.Common.{ℕ, ◌+◌, ◌≡◌, refl, none, some}
use e_commerce_backend.Common.Int.{pos, ◌+ℤ◌, ◌-ℤ◌}
use e_commerce_backend.Stock.{Adjustment, reserve, adjust, adjust_from, update_stock}
use e_commerce_backend.Stock.Balance.{adjust_from-stale}
use e_commerce_backend.Database.{Variant, MovementType, change_stock}
use e_commerce_backend.Inventory.{
  AdjustInput, adjustment_of, assert_variant_ownership, resolve_warehouse_id, row_for, adjust_row,
  adjust_inventory,
}
use e_commerce_backend.Inventory.Adjustments.{MayAdjust, Rebalances, adjust_inventory-Rebalances}
use e_commerce_backend.Tax.{TaxBreakup}
use e_commerce_backend.Tests.{level, shop, get_or_start}

abbrev recount : AdjustInput
recount = record {
  variant_id = 1;
  warehouse_id = none;
  delta = none;
  new_quantity_on_hand = some (pos 9);
  movement_type = MovementType.adjustment;
}

adjust_inventory-Rebalances_example :
    (a : Adjustment) × (v : Variant) × (warehouse : ℕ) × MayAdjust 10 recount
      (shop (level 1 2 5))
      a
      v
      warehouse
    × (let (r, found) = row_for 1 warehouse 200 (shop (level 1 2 5)) in
        Rebalances r.id a found.inventory
          (get_or_start (adjust_inventory 10 recount 200 9 (shop (level 1 2 5)))).inventory)
unfolding adjust_inventory adjustment_of assert_variant_ownership resolve_warehouse_id row_for
    adjust_row change_stock update_stock adjust adjust_from ◌-ℤ◌ ◌+ℤ◌
adjust_inventory-Rebalances_example =
    adjust_inventory-Rebalances 10 recount 200 9 (shop (level 1 2 5)) refl

-- a recount to nine units, over a reservation of two that came after its read
adjust_from-stale_example : pos (9 + 2) ≡ pos 9 +ℤ pos 2
unfolding reserve adjust_from ◌-ℤ◌ ◌+ℤ◌
adjust_from-stale_example =
    adjust_from-stale 2 (Adjustment.to_on_hand (pos 9)) (level 5 0 5) (level 3 2 5) refl refl

abbrev a_breakup : TaxBreakup
a_breakup = record {
  taxable_value = 100;
  cgst_rate = 90000;
  cgst_amount = 9;
  sgst_rate = 90000;
  sgst_amount = 9;
  igst_rate = 0;
  igst_amount = 0;
  cess_rate = 0;
  cess_amount = 0;
  total_tax = 18;
  total_with_tax = 118;
}
