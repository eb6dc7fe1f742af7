-- ===== src/Order/Movements.antt =====
-- The loops that move the stock of an order along its `InventoryMovement` rows: the release in
-- order.service.ts and seller-order.service.ts, and the commit at shipment in seller-order.service.ts.
pub mod Conservation
pub mod Shipment
use e_commerce_backend.Common.{
  ℕ, Bool, true, false, Option, none, some, List, [], ◌∷◌, ◌==◌, ◌&&◌, leb, select, if◌then◌else◌,
  Result, ok, ◌>>=◌, includes,
}
use e_commerce_backend.Common.Int.{ℤ, pos, ◌-ℤ◌, abs}
use e_commerce_backend.Stock.{Stock, commit, release, stock_at}
use e_commerce_backend.Database.{
  Database, Movement, MovementType, ReferenceType, change_stock, add_movement, in_store,
}

-- `orderBy: { inventoryId: 'asc' }`
unfoldable pub insert_by_inventory : Movement → List Movement → List Movement
insert_by_inventory m [] = m ∷ []
insert_by_inventory m (n ∷ ns) =
    let rest = insert_by_inventory m ns in
    if leb m.inventory_id n.inventory_id then m ∷ n ∷ ns else n ∷ rest

unfoldable pub sort_by_inventory : List Movement → List Movement
unfolding insert_by_inventory
sort_by_inventory [] = []
sort_by_inventory (m ∷ ms) = insert_by_inventory m (sort_by_inventory ms)

-- `referenceType: 'order', referenceId: orderId`
abbrev pub is_placement_of : ℕ → Movement → Bool
is_placement_of order_id m = elim m.reference_type [
  | some ReferenceType.order ↦ elim m.reference_id [ none ↦ false | some k ↦ k == order_id ]
  | _ ↦ false
]

-- The reservations of an order that belong to the given variants in the given store.
abbrev pub slice_movements : ℕ → List ℕ → ℕ → Database → List Movement
slice_movements order_id variant_ids store_id db =
    select
      (λ m.
        is_placement_of order_id m
        && includes m.variant_id variant_ids
        && in_store store_id m.warehouse_id db)
      db.movements

-- One round of a release loop. The row that is logged states the available stock around the write.
unfoldable pub release_one : Option ℕ → ℕ → Movement → Database → Result Database
release_one actor order_id m db = do
  p ← change_stock m.inventory_id (release (abs m.quantity_change)) db
  ok (
      add_movement
        (record {
          inventory_id = m.inventory_id;
          variant_id = m.variant_id;
          warehouse_id = m.warehouse_id;
          movement_type = MovementType.return;
          quantity_change = pos (abs m.quantity_change);
          quantity_before = pos p.0.available -ℤ pos (abs m.quantity_change);
          quantity_after = pos p.0.available;
          reference_type = some ReferenceType.order_cancel;
          reference_id = some order_id;
          created_by_id = actor;
        })
        p.1)

unfoldable pub release_all : Option ℕ → ℕ → List Movement → Database → Result Database
unfolding release_one
release_all actor order_id [] db = ok db
release_all actor order_id (m ∷ ms) db =
    release_one actor order_id m db >>= λ db'. release_all actor order_id ms db'

-- The rest of a round of the shipment loop, for a row that was found with `before`.
unfoldable pub ship_row : ℕ → ℕ → Movement → Stock → Database → Result Database
ship_row user_id seller_order_id m before db = do
  p ← change_stock m.inventory_id (commit (abs m.quantity_change)) db
  ok (
      add_movement
        (record {
          inventory_id = m.inventory_id;
          variant_id = m.variant_id;
          warehouse_id = m.warehouse_id;
          movement_type = MovementType.sale;
          quantity_change = pos 0 -ℤ pos (abs m.quantity_change);
          quantity_before = before.on_hand;
          quantity_after = p.0.on_hand;
          reference_type = some ReferenceType.order_ship;
          reference_id = some seller_order_id;
          created_by_id = some user_id;
        })
        p.1)

-- `if (!before) continue;`
unfoldable pub ship_one : ℕ → ℕ → Movement → Database → Result Database
unfolding ship_row
ship_one user_id seller_order_id m db = elim (stock_at m.inventory_id db.inventory) [
  | none ↦ ok db
  | some before ↦ ship_row user_id seller_order_id m before db
]

unfoldable pub ship_all : ℕ → ℕ → List Movement → Database → Result Database
unfolding ship_one
ship_all user_id seller_order_id [] db = ok db
ship_all user_id seller_order_id (m ∷ ms) db =
    ship_one user_id seller_order_id m db >>= λ db'. ship_all user_id seller_order_id ms db'
