-- ===== src/Placement.antt =====
-- How placement takes stock (src/modules/ecommerce/order/order-placement.service.ts): the plan of
-- deductions over the warehouses, and the conditional updates of the transaction.
pub mod Plan
pub mod Pricing
pub mod Reservation
pub mod RoundTrip
use e_commerce_backend.Common.{
  ℕ, ◌+◌, ◌-◌, Bool, not, Option, none, some, List, [], ◌∷◌, ◌==◌, ◌&&◌, ltb, leb, min, select,
  sum_by, if◌then◌else◌, Exception, bad_request, conflict, Result, ok, err, ◌>>=◌, ◌>>◌, throw_if,
}
use e_commerce_backend.Common.Int.{pos, ◌-ℤ◌}
use e_commerce_backend.Stock.{Stock, InventoryRow, reserve, stock_at}
use e_commerce_backend.Database.{
  Database, Movement, MovementType, ReferenceType, change_stock, add_movement,
}

-- `InventoryDeduction`
pub record InventoryDeduction : Type 0 where
  pub inventory_id : ℕ
  pub warehouse_id : ℕ
  pub quantity : ℕ
  pub before : ℕ
  pub after : ℕ

-- `orderBy: { quantityAvailable: 'desc' }`; the database may order rows with equal stock either way
unfoldable pub insert_by_available : InventoryRow → List InventoryRow → List InventoryRow
insert_by_available r [] = r ∷ []
insert_by_available r (s ∷ rows) =
    let rest = insert_by_available r rows in
    if leb s.stock.available r.stock.available then r ∷ s ∷ rows else s ∷ rest

unfoldable pub sort_by_available : List InventoryRow → List InventoryRow
unfolding insert_by_available
sort_by_available [] = []
sort_by_available (r ∷ rows) = insert_by_available r (sort_by_available rows)

-- `where: { variantId, deletedAt: null, quantityAvailable: { gt: 0 } }`
abbrev pub can_supply : ℕ → InventoryRow → Bool
can_supply variant r = r.variant_id == variant && (not r.is_deleted && ltb 0 r.stock.available)

abbrev pub available_in : List InventoryRow → ℕ
available_in = sum_by (λ (r : InventoryRow). r.stock.available)

abbrev pub deduction_of : ℕ → InventoryRow → InventoryDeduction
deduction_of take r = record {
  inventory_id = r.id;
  warehouse_id = r.warehouse_id;
  quantity = take;
  before = r.stock.available;
  after = r.stock.available - take;
}

-- The loop over the rows, with the units that remain to be taken.
unfoldable pub take_from : ℕ → List InventoryRow → List InventoryDeduction
take_from remaining [] = []
take_from remaining (r ∷ rows) =
    let take = min r.stock.available remaining in
    let rest = take_from (remaining - take) rows in
    if leb remaining 0 then [] else deduction_of take r ∷ rest

-- `planInventoryDeductions`
unfoldable pub plan_inventory_deductions :
    ℕ → ℕ → List InventoryRow → Result (List InventoryDeduction)
plan_inventory_deductions variant quantity inventory =
    let rows = sort_by_available (select (can_supply variant) inventory) in
    do throw_if (ltb (available_in rows) quantity) bad_request; ok (take_from quantity rows)

-- A planned deduction with its variant, as the transaction flattens them.
pub record Deduction : Type 0 where
  pub inventory_id : ℕ
  pub variant_id : ℕ
  pub warehouse_id : ℕ
  pub quantity : ℕ

-- `.sort((a, b) => …)` on the inventory identifiers
unfoldable pub insert_deduction : Deduction → List Deduction → List Deduction
insert_deduction d [] = d ∷ []
insert_deduction d (e ∷ es) =
    let rest = insert_deduction d es in
    if leb d.inventory_id e.inventory_id then d ∷ e ∷ es else e ∷ rest

unfoldable pub sort_deductions : List Deduction → List Deduction
unfolding insert_deduction
sort_deductions [] = []
sort_deductions (d ∷ ds) = insert_deduction d (sort_deductions ds)

-- The movement that placement logs; `available` is what the UPDATE returns.
abbrev pub placement_movement : ℕ → ℕ → Deduction → ℕ → Movement
placement_movement user_id order_id d available = record {
  inventory_id = d.inventory_id;
  variant_id = d.variant_id;
  warehouse_id = d.warehouse_id;
  movement_type = MovementType.sale;
  quantity_change = pos 0 -ℤ pos d.quantity;
  quantity_before = pos (available + d.quantity);
  quantity_after = pos available;
  reference_type = some ReferenceType.order;
  reference_id = some order_id;
  created_by_id = some user_id;
}

-- One round: the conditional UPDATE must touch exactly one row.
unfoldable pub reserve_one : ℕ → ℕ → Deduction → Database → Result Database
reserve_one user_id order_id d db = elim (stock_at d.inventory_id db.inventory) [
  | none ↦ err conflict
  | some s ↦ change_stock d.inventory_id (reserve d.quantity) db >>= λ p.
      ok (add_movement (placement_movement user_id order_id d p.0.available) p.1)
]

unfoldable pub reserve_all : ℕ → ℕ → List Deduction → Database → Result Database
unfolding reserve_one
reserve_all user_id order_id [] db = ok db
reserve_all user_id order_id (d ∷ ds) db =
    reserve_one user_id order_id d db >>= λ db'. reserve_all user_id order_id ds db'

-- Step (e) of the placement transaction.
unfoldable pub take_stock : ℕ → ℕ → List Deduction → Database → Result Database
unfolding reserve_all
take_stock user_id order_id planned db = reserve_all user_id order_id (sort_deductions planned) db
