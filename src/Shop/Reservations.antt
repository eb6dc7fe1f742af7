-- ===== src/Shop/Reservations.antt =====
-- Placement keeps the inventory balanced.
use e_commerce_backend.Common.{
  ℕ, ◌≡◌, subst, inl, inr, List, [], ◌∷◌, ◌>>=◌, Option-cases, ok, >>=-eq-ok, ok-injective,
}
use e_commerce_backend.Stock.{reserve, stock_at}
use e_commerce_backend.Stock.Balance.{reserve-IsBalanced}
use e_commerce_backend.Stock.Table.{AreBalanced, update_stock-AreBalanced}
use e_commerce_backend.Database.{Database, change_stock, add_movement}
use e_commerce_backend.Order.Movements.Conservation.{change_stock-eq}
use e_commerce_backend.Placement.{
  Deduction, sort_deductions, placement_movement, reserve_one, reserve_all, take_stock,
}

reserve_one-AreBalanced :
    (u k : ℕ) (d : Deduction) (db : Database) {after : Database}
    → AreBalanced db.inventory
    → reserve_one u k d db ≡ ok after
    → AreBalanced after.inventory
unfolding reserve_one
reserve_one-AreBalanced u k d db {after} h e =
    elim (Option-cases (stock_at d.inventory_id db.inventory)) [
      | inl gone ↦ cc (rw (gone, reserve_one) at e)
      | inr (s, found) ↦ stocked (rw (found, reserve_one) at e)
    ]
  where
    stocked :
        (change_stock d.inventory_id (reserve d.quantity) db >>= λ p.
        ok (add_movement (placement_movement u k d p.0.available) p.1))
          ≡ ok after
        → AreBalanced after.inventory
    stocked q =
        let ((t, mid), c, q') =
          >>=-eq-ok (change_stock d.inventory_id (reserve d.quantity) db) _ q in
        subst (λ (x : Database). AreBalanced x.inventory) (ok-injective q')
          (update_stock-AreBalanced d.inventory_id _ db.inventory
            (λ x y. reserve-IsBalanced d.quantity x) h (change_stock-eq d.inventory_id _ db c).0)

reserve_all-AreBalanced :
    (u k : ℕ) (ds : List Deduction) (db : Database) {after : Database}
    → AreBalanced db.inventory
    → reserve_all u k ds db ≡ ok after
    → AreBalanced after.inventory
unfolding reserve_all
reserve_all-AreBalanced u k [] db h e =
    subst (λ (x : Database). AreBalanced x.inventory) (ok-injective e) h
reserve_all-AreBalanced u k (d ∷ ds) db h e =
    let (mid, a, b) = >>=-eq-ok (reserve_one u k d db) _ e in
    reserve_all-AreBalanced u k ds mid (reserve_one-AreBalanced u k d db h a) b

pub take_stock-AreBalanced :
    (u k : ℕ) (ds : List Deduction) (db : Database) {after : Database}
    → AreBalanced db.inventory
    → take_stock u k ds db ≡ ok after
    → AreBalanced after.inventory
unfolding take_stock
take_stock-AreBalanced u k ds db h e = reserve_all-AreBalanced u k (sort_deductions ds) db h e
