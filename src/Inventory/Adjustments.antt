-- ===== src/Inventory/Adjustments.antt =====
-- What a seller's adjustment writes.
use e_commerce_backend.Common.{
  ℕ, ◌≡◌, refl, sym, ap, ◌∙◌, subst, Bool, true, false, not, Option, none, some, List, [], ◌∷◌,
  ◌==◌, arith, find, if◌then◌else◌, ok, >>=-eq-ok, ok-injective, throw_if->>-eq-ok,
  or_throw->>=-eq-ok, forbidden, not_found, conflict,
}
use e_commerce_backend.Stock.{Stock, Adjustment, adjust, InventoryRow, stock_at}
use e_commerce_backend.Stock.Balance.{IsBalanced, adjust-IsBalanced}
use e_commerce_backend.Database.{Database, Variant, change_stock}
use e_commerce_backend.Order.Movements.Conservation.{change_stock-Updates}
use e_commerce_backend.Inventory.{
  AdjustInput, adjust_inventory, adjust_row, adjustment_of, assert_variant_ownership,
  resolve_warehouse_id, row_for, set_row, is_owner,
}

-- A row's stock does not change when its other columns do.
stock_at-set_row :
    (k j : ℕ) (f : InventoryRow → InventoryRow) (rows : List InventoryRow)
    → ((r : InventoryRow) → ((f r).id ≡ r.id) × ((f r).stock ≡ r.stock))
    → stock_at j (set_row k f rows) ≡ stock_at j rows
unfolding stock_at
stock_at-set_row k j f [] h = refl
stock_at-set_row k j f (r ∷ rows) h =
    let (a, b) = h r in ground (arith, stock_at-set_row k j f rows h)

stock_at-counted :
    (b : Bool) (k now j : ℕ) (rows : List InventoryRow)
    → stock_at j (if b then set_row k (λ r. record r { last_counted_at = some now }) rows else rows)
      ≡ stock_at j rows
stock_at-counted true k now j rows = stock_at-set_row k j _ rows (λ r. (refl, refl))
stock_at-counted false k now j rows = refl

-- The row of the adjustment is balanced afterwards, and no other row has changed.
pub record Rebalances (k : ℕ) (a : Adjustment) (before after : List InventoryRow) : Type 0 where
  pub old : Stock
  pub new : Stock
  pub found : stock_at k before ≡ some old
  pub adjusted : adjust a old ≡ ok new
  pub balanced : IsBalanced new
  pub stored : (j : ℕ) → stock_at j after ≡ (if k == j then some new else stock_at j before)

adjust_row-Rebalances :
    (user_id : ℕ) (input : AdjustInput) (warehouse now : ℕ) (a : Adjustment) (row : InventoryRow)
    (db : Database) {after : Database}
    → adjust_row user_id input warehouse now a row db ≡ ok after
    → Rebalances row.id a db.inventory after.inventory
unfolding adjust_row
adjust_row-Rebalances user_id input warehouse now a row db {after} e =
    let (kept, e1) = throw_if->>-eq-ok row.is_deleted conflict _ e in
    let ((s, mid), c, q) = >>=-eq-ok (change_stock row.id (adjust a) db) _ e1 in
    let u = change_stock-Updates row.id (adjust a) db c in
    record {
      old = u.old;
      new = s;
      found = u.found;
      adjusted = u.changed;
      balanced = adjust-IsBalanced a u.old u.changed;
      stored = λ j.
          sym (ap (stock_at j) (ap (λ x. x.inventory) (ok-injective q)))
          ∙ stock_at-counted _ row.id now j mid.inventory
          ∙ u.stored j;
    }

-- What `adjustInventory` has checked when it goes on: the table holds the variant of the input, not
-- deleted, the caller owns its store, and the warehouse belongs to that store.
pub record MayAdjust (user_id : ℕ) (input : AdjustInput) (db : Database) (a : Adjustment)
    (v : Variant) (warehouse : ℕ) : Type 0 where
  pub adjustment : adjustment_of input.delta input.new_quantity_on_hand ≡ ok a
  pub found : find (λ v. v.id == input.variant_id) db.variants ≡ some v
  pub live : v.is_deleted ≡ false
  pub owned : v.seller_user_id ≡ some user_id
  pub here : resolve_warehouse_id v.store_id input.warehouse_id db ≡ ok warehouse

is_owner_sound : (u : ℕ) (o : Option ℕ) → not (is_owner u o) ≡ false → o ≡ some u
is_owner_sound u none h = ground arith
is_owner_sound u (some k) h = ground arith

assert_variant_ownership-owned :
    (user_id variant_id : ℕ) (db : Database) {v : Variant}
    → assert_variant_ownership user_id variant_id db ≡ ok v
    → (find (λ v. v.id == variant_id) db.variants ≡ some v)
      × (v.is_deleted ≡ false)
      × (v.seller_user_id ≡ some user_id)
unfolding assert_variant_ownership
assert_variant_ownership-owned user_id variant_id db {v} e =
    let (w, a, e1) =
      or_throw->>=-eq-ok (find (λ v. v.id == variant_id) db.variants) not_found _ e in
    let (b, e2) = throw_if->>-eq-ok w.is_deleted not_found _ e1 in
    let (c, e3) = throw_if->>-eq-ok (not (is_owner user_id w.seller_user_id)) forbidden _ e2 in
    subst
      (λ (x : Variant).
        (find (λ v. v.id == variant_id) db.variants ≡ some x)
        × (x.is_deleted ≡ false)
        × (x.seller_user_id ≡ some user_id))
      (ok-injective e3) (a, b, is_owner_sound user_id w.seller_user_id c)

-- A seller's adjustment that succeeds names a variant that the table holds and that is not deleted.
-- It was made by the owner of that variant's store, in one of that store's warehouses. It leaves the row of that variant and warehouse balanced, whatever it was
-- before: what is on hand is available or reserved. No other row changes.
pub adjust_inventory-Rebalances :
    (user_id : ℕ) (input : AdjustInput) (fresh now : ℕ) (db : Database) {after : Database}
    → adjust_inventory user_id input fresh now db ≡ ok after
    → (a : Adjustment) × (v : Variant) × (warehouse : ℕ) × MayAdjust user_id input db a v warehouse
      × (let (row, found) = row_for input.variant_id warehouse fresh db in
          Rebalances row.id a found.inventory after.inventory)
unfolding adjust_inventory
adjust_inventory-Rebalances user_id input fresh now db {after} e =
    let (a, p, e1) = >>=-eq-ok (adjustment_of input.delta input.new_quantity_on_hand) _ e in
    let (v, q, e2) = >>=-eq-ok (assert_variant_ownership user_id input.variant_id db) _ e1 in
    let (w, r, e3) = >>=-eq-ok (resolve_warehouse_id v.store_id input.warehouse_id db) _ e2 in
    let found = row_for input.variant_id w fresh db in
    let (listed, live, owned) = assert_variant_ownership-owned user_id input.variant_id db q in
    (
      a,
      v,
      w,
      record {
        adjustment = p;
        found = listed;
        live = live;
        owned = owned;
        here = r;
      },
      adjust_row-Rebalances user_id input w now a found.0 found.1 e3,
    )
