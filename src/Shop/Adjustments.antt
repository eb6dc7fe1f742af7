-- ===== src/Shop/Adjustments.antt =====
-- A seller's inventory operations keep the inventory balanced.
use e_commerce_backend.Common.{
  ℕ, ◌≡◌, refl, sym, subst, Bool, true, false, inl, inr, some, List, [], ◌∷◌, ◌==◌, ◌⊎◌, arith,
  if◌then◌else◌, ok, err, plain_error, >>=-eq-ok, ok-injective, throw_if->>-eq-ok,
  or_throw->>=-eq-ok, conflict, Option-cases, Bool-cases,
}
use e_commerce_backend.Stock.{Adjustment, adjust, InventoryRow}
use e_commerce_backend.Stock.Balance.{IsBalanced, adjust-IsBalanced}
use e_commerce_backend.Stock.Table.{AreBalanced, update_stock-AreBalanced}
use e_commerce_backend.Database.{Database, change_stock}
use e_commerce_backend.Order.Movements.Conservation.{change_stock-eq}
use e_commerce_backend.Inventory.{
  AdjustInput, ReorderInput, adjust_inventory, adjust_row, adjustment_of, assert_variant_ownership,
  resolve_warehouse_id, row_for, set_row, find_row, ensure_inventory_row, set_reorder_point,
}

set_row-AreBalanced :
    (k : ℕ) (f : InventoryRow → InventoryRow) (rows : List InventoryRow)
    → ((r : InventoryRow) → (f r).stock ≡ r.stock)
    → AreBalanced rows
    → AreBalanced (set_row k f rows)
set_row-AreBalanced k f [] same h = h
set_row-AreBalanced k f (r ∷ rows) same (b, h) =
    (first (Bool-cases (r.id == k)), set_row-AreBalanced k f rows same h)
  where
    first :
        ((r.id == k) ≡ true) ⊎ ((r.id == k) ≡ false)
        → IsBalanced (if r.id == k then f r else r).stock
    first (inl e) = rw e (subst IsBalanced (sym (same r)) b)
    first (inr e) = rw e b

counted-AreBalanced :
    (b : Bool) (k now : ℕ) (rows : List InventoryRow)
    → AreBalanced rows
    → AreBalanced
        (if b then set_row k (λ r. record r { last_counted_at = some now }) rows else rows)
counted-AreBalanced true k now rows h = set_row-AreBalanced k _ rows (λ r. refl) h
counted-AreBalanced false k now rows h = h

adjust_row-AreBalanced :
    (user_id : ℕ) (input : AdjustInput) (warehouse now : ℕ) (a : Adjustment) (row : InventoryRow)
    (db : Database) {after : Database}
    → AreBalanced db.inventory
    → adjust_row user_id input warehouse now a row db ≡ ok after
    → AreBalanced after.inventory
unfolding adjust_row
adjust_row-AreBalanced user_id input warehouse now a row db h e =
    let (kept, e1) = throw_if->>-eq-ok row.is_deleted conflict _ e in
    let ((s, mid), c, q) = >>=-eq-ok (change_stock row.id (adjust a) db) _ e1 in
    subst (λ (x : Database). AreBalanced x.inventory) (ok-injective q)
      (counted-AreBalanced _ row.id now mid.inventory (
        update_stock-AreBalanced row.id (adjust a) db.inventory (λ x y b. adjust-IsBalanced a x) h
          (change_stock-eq row.id (adjust a) db c).0))

row_for-AreBalanced :
    (variant warehouse fresh : ℕ) (db : Database)
    → AreBalanced db.inventory
    → AreBalanced (row_for variant warehouse fresh db).1.inventory
unfolding row_for
row_for-AreBalanced variant warehouse fresh db h =
    elim (Option-cases (find_row variant warehouse db.inventory)) [
      | inl gone ↦ rw (gone, row_for) (refl, h)
      | inr (r, found) ↦ rw (found, row_for) h
    ]

pub adjust_inventory-AreBalanced :
    (user_id : ℕ) (input : AdjustInput) (fresh now : ℕ) (db : Database) {after : Database}
    → AreBalanced db.inventory
    → adjust_inventory user_id input fresh now db ≡ ok after
    → AreBalanced after.inventory
unfolding adjust_inventory
adjust_inventory-AreBalanced user_id input fresh now db h e =
    let (a, p, e1) = >>=-eq-ok (adjustment_of input.delta input.new_quantity_on_hand) _ e in
    let (v, q, e2) = >>=-eq-ok (assert_variant_ownership user_id input.variant_id db) _ e1 in
    let (w, r, e3) = >>=-eq-ok (resolve_warehouse_id v.store_id input.warehouse_id db) _ e2 in
    let found = row_for input.variant_id w fresh db in
    adjust_row-AreBalanced user_id input w now a found.0 found.1
      (row_for-AreBalanced input.variant_id w fresh db h) e3

ensure_inventory_row-AreBalanced :
    (variant store warehouse fresh : ℕ) (db : Database) {after : Database}
    → AreBalanced db.inventory
    → ensure_inventory_row variant store (some warehouse) fresh db ≡ ok after
    → AreBalanced after.inventory
unfolding ensure_inventory_row
ensure_inventory_row-AreBalanced variant store warehouse fresh db {after} h e =
    elim (Option-cases (find_row variant warehouse db.inventory)) [
      | inl gone ↦
          subst (λ (x : Database). AreBalanced x.inventory)
            (ok-injective (rw (gone, ensure_inventory_row) at e)) (refl, h)
      | inr (r, found) ↦ kept r (rw (found, ensure_inventory_row) at e)
    ]
  where
    kept :
        (r : InventoryRow)
        → (if r.is_deleted then err plain_error else ok db) ≡ ok after
        → AreBalanced after.inventory
    kept r q =
        let same : db ≡ after = ground arith in
        subst (λ (x : Database). AreBalanced x.inventory) same h

pub set_reorder_point-AreBalanced :
    (user_id : ℕ) (input : ReorderInput) (fresh : ℕ) (db : Database) {after : Database}
    → AreBalanced db.inventory
    → set_reorder_point user_id input fresh db ≡ ok after
    → AreBalanced after.inventory
unfolding set_reorder_point
set_reorder_point-AreBalanced user_id input fresh db h e =
    let (v, q, e1) = >>=-eq-ok (assert_variant_ownership user_id input.variant_id db) _ e in
    let (w, r, e2) = >>=-eq-ok (resolve_warehouse_id v.store_id input.warehouse_id db) _ e1 in
    let (ensured, s, e3) =
      >>=-eq-ok (ensure_inventory_row input.variant_id v.store_id (some w) fresh db) _ e2 in
    let (row, t, e4) =
      or_throw->>=-eq-ok (find_row input.variant_id w ensured.inventory) plain_error _ e3 in
    subst (λ (x : Database). AreBalanced x.inventory) (ok-injective e4)
      (set_row-AreBalanced row.id _ ensured.inventory (λ x. refl)
        (ensure_inventory_row-AreBalanced input.variant_id v.store_id w fresh db h s))
