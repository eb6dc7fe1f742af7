-- ===== src/Inventory.antt =====
-- The seller's inventory operations (src/modules/ecommerce/inventory/inventory.service.ts). A row that
-- is created takes the identifier `fresh`. The reads that only list or decorate rows are left out.
pub mod Adjustments
use e_commerce_backend.Common.{
  ℕ, Bool, true, false, not, Option, none, some, List, [], ◌∷◌, ◌++◌, ◌==◌, ◌&&◌, ◌||◌, find,
  get_or, if◌then◌else◌, Exception, bad_request, forbidden, not_found, conflict, plain_error,
  Result, ok, err, ◌>>=◌, ◌>>◌, throw_if, or_throw,
}
use e_commerce_backend.Common.Int.{ℤ, pos}
use e_commerce_backend.Stock.{
  Stock, Adjustment, by_delta, to_on_hand, delta_of, adjust, InventoryRow,
}
use e_commerce_backend.Database.{
  Database, Variant, Warehouse, MovementType, Movement, change_stock, add_movement,
}

pub record AdjustInput : Type 0 where
  pub variant_id : ℕ
  pub warehouse_id : Option ℕ
  pub delta : Option ℤ
  pub new_quantity_on_hand : Option ℤ
  pub movement_type : MovementType

pub record ReorderInput : Type 0 where
  pub variant_id : ℕ
  pub warehouse_id : Option ℕ
  pub reorder_point : ℕ
  pub reorder_quantity : Option ℕ

abbrev pub is_owner : ℕ → Option ℕ → Bool
is_owner user_id none = false
is_owner user_id (some k) = k == user_id

-- `assertVariantOwnership`
unfoldable pub assert_variant_ownership : ℕ → ℕ → Database → Result Variant
assert_variant_ownership user_id variant_id db = do
  v ← or_throw (find (λ v. v.id == variant_id) db.variants) not_found
  throw_if v.is_deleted not_found
  throw_if (not (is_owner user_id v.seller_user_id)) forbidden
  ok v

-- `resolveWarehouseId`
unfoldable pub resolve_warehouse_id : ℕ → Option ℕ → Database → Result ℕ
resolve_warehouse_id store (some k) db = do
  w ← or_throw (find (λ w. w.id == k) db.warehouses) bad_request
  throw_if (w.is_deleted || not (w.store_id == store)) bad_request
  ok w.id
resolve_warehouse_id store none db = do
  w ←
      or_throw (find (λ w. w.store_id == store && (w.is_default && not w.is_deleted)) db.warehouses)
        bad_request
  ok w.id

-- `findUnique({ where: { variantId_warehouseId } })`
abbrev pub find_row : ℕ → ℕ → List InventoryRow → Option InventoryRow
find_row variant warehouse = find (λ r. r.variant_id == variant && r.warehouse_id == warehouse)

-- a row as it is created
abbrev pub empty_row : ℕ → ℕ → ℕ → InventoryRow
empty_row fresh variant warehouse = record {
  id = fresh;
  variant_id = variant;
  warehouse_id = warehouse;
  stock = record { available = 0; reserved = 0; on_hand = pos 0 };
  reorder_point = 0;
  reorder_quantity = 0;
  last_counted_at = none;
  is_deleted = false;
}

abbrev pub add_row : InventoryRow → Database → Database
add_row r db = record db { inventory = r ∷ db.inventory }

-- `ensureInventoryRow`: a warehouse that is neither given nor the store's default means no row, and
-- to create the row again beside an archived one breaks the unique key of variant and warehouse.
unfoldable pub ensure_inventory_row : ℕ → ℕ → Option ℕ → ℕ → Database → Result Database
ensure_inventory_row variant store (some k) fresh db = elim (find_row variant k db.inventory) [
  | none ↦ ok (add_row (empty_row fresh variant k) db)
  | some r ↦ if r.is_deleted then err plain_error else ok db
]
ensure_inventory_row variant store none fresh db =
    elim (find (λ w. w.store_id == store && (w.is_default && not w.is_deleted)) db.warehouses) [
      | none ↦ ok db
      | some w ↦ elim (find_row variant w.id db.inventory) [
        | none ↦ ok (add_row (empty_row fresh variant w.id) db)
        | some r ↦ if r.is_deleted then err plain_error else ok db
      ]
    ]

-- Exactly one of `delta` and `newQuantityOnHand` must be given.
unfoldable pub adjustment_of : Option ℤ → Option ℤ → Result Adjustment
adjustment_of none none = err bad_request
adjustment_of (some d) (some n) = err bad_request
adjustment_of (some d) none = ok (by_delta d)
adjustment_of none (some n) = ok (to_on_hand n)

-- `if (!row) row = await tx.inventory.create(…)`
unfoldable pub row_for : ℕ → ℕ → ℕ → Database → InventoryRow × Database
row_for variant warehouse fresh db = elim (find_row variant warehouse db.inventory) [
  | none ↦ (empty_row fresh variant warehouse, add_row (empty_row fresh variant warehouse) db)
  | some r ↦ (r, db)
]

-- a recount: `movementType === ADJUSTMENT && newQuantityOnHand != null`
abbrev pub is_recount : MovementType → Adjustment → Bool
is_recount MovementType.adjustment (to_on_hand n) = true
is_recount _ _ = false

abbrev pub set_row : ℕ → (InventoryRow → InventoryRow) → List InventoryRow → List InventoryRow
set_row k f [] = []
set_row k f (r ∷ rs) = (if r.id == k then f r else r) ∷ set_row k f rs

-- The transaction of `adjustInventory` on the row that was found or created.
unfoldable pub adjust_row :
    ℕ → AdjustInput → ℕ → ℕ → Adjustment → InventoryRow → Database → Result Database
adjust_row user_id input warehouse now a row db = do
  throw_if row.is_deleted conflict
  p ← change_stock row.id (adjust a) db
  let counted =
      if is_recount input.movement_type a
      then set_row row.id (λ r. record r { last_counted_at = some now }) p.1.inventory
      else p.1.inventory
  ok (
      add_movement
        (record {
          inventory_id = row.id;
          variant_id = input.variant_id;
          warehouse_id = warehouse;
          movement_type = input.movement_type;
          quantity_change = delta_of a row.stock.on_hand;
          quantity_before = row.stock.on_hand;
          quantity_after = p.0.on_hand;
          reference_type = none;
          reference_id = none;
          created_by_id = some user_id;
        })
        (record p.1 { inventory = counted }))

-- `adjustInventory`
unfoldable pub adjust_inventory : ℕ → AdjustInput → ℕ → ℕ → Database → Result Database
unfolding row_for adjust_row
adjust_inventory user_id input fresh now db = do
  a ← adjustment_of input.delta input.new_quantity_on_hand
  v ← assert_variant_ownership user_id input.variant_id db
  warehouse ← resolve_warehouse_id v.store_id input.warehouse_id db
  let found = row_for input.variant_id warehouse fresh db
  adjust_row user_id input warehouse now a found.0 found.1

-- `setReorderPoint`
unfoldable pub set_reorder_point : ℕ → ReorderInput → ℕ → Database → Result Database
set_reorder_point user_id input fresh db = do
  v ← assert_variant_ownership user_id input.variant_id db
  warehouse ← resolve_warehouse_id v.store_id input.warehouse_id db
  ensured ← ensure_inventory_row input.variant_id v.store_id (some warehouse) fresh db
  row ← or_throw (find_row input.variant_id warehouse ensured.inventory) plain_error
  ok (record ensured {
    inventory =
        set_row row.id
          (λ r. record r {
            reorder_point = input.reorder_point;
            reorder_quantity = get_or input.reorder_quantity r.reorder_quantity;
          })
          ensured.inventory;
  })
