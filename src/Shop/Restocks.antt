-- ===== src/Shop/Restocks.antt =====
-- The restock of a refund keeps the inventory balanced.
use e_commerce_backend.Common.{
  ℕ, ◌≡◌, subst, Bool, true, false, Option, List, [], ◌∷◌, arith, ok, >>=-eq-ok, ok-injective,
  any_of, Bool-cases, inl, inr,
}
use e_commerce_backend.Common.Int.{◌+ℤ◌}
use e_commerce_backend.Stock.{Stock}
use e_commerce_backend.Stock.Balance.{IsBalanced, release-IsBalanced}
use e_commerce_backend.Stock.Table.{AreBalanced, update_stock-AreBalanced}
use e_commerce_backend.Database.{Database, SellerOrder, Movement, change_stock}
use e_commerce_backend.Order.Movements.{slice_movements, sort_by_inventory}
use e_commerce_backend.Order.Movements.Conservation.{change_stock-eq}
use e_commerce_backend.Finance.{ReturnRequest}
use e_commerce_backend.Refund.Restock.{
  Caps, is_refund_of, restore, allowance, is_skipped, restock_row, restock_all, has_left,
  variants_of, restock_slices, restock,
}

restore-IsBalanced :
    (shipped : Bool) (qty : ℕ) (s : Stock) {t : Stock}
    → IsBalanced s
    → restore shipped qty s ≡ ok t
    → IsBalanced t
unfolding restore ◌+ℤ◌
restore-IsBalanced true qty s h e = ground arith
restore-IsBalanced false qty s h e = release-IsBalanced qty s h e

restock_row-AreBalanced :
    (actor : Option ℕ) (k : ℕ) (shipped : Bool) (units : ℕ) (m : Movement) (db : Database)
    {after : Database}
    → AreBalanced db.inventory
    → restock_row actor k shipped units m db ≡ ok after
    → AreBalanced after.inventory
unfolding restock_row
restock_row-AreBalanced actor k shipped units m db h e =
    let ((s, mid), c, q) = >>=-eq-ok (change_stock m.inventory_id (restore shipped units) db) _ e in
    subst (λ (x : Database). AreBalanced x.inventory) (ok-injective q)
      (update_stock-AreBalanced m.inventory_id _ db.inventory
        (λ x y. restore-IsBalanced shipped units x) h (change_stock-eq m.inventory_id _ db c).0)

restock_all-AreBalanced :
    (actor : Option ℕ) (k : ℕ) (shipped : Bool) (ms : List Movement) (caps : Option Caps)
    (db : Database) {q : Option Caps} {after : Database}
    → AreBalanced db.inventory
    → restock_all actor k shipped caps ms db ≡ ok (q, after)
    → AreBalanced after.inventory
unfolding restock_all
restock_all-AreBalanced actor k shipped [] caps db h e =
    subst (λ (x : Option Caps × Database). AreBalanced x.1.inventory) (ok-injective e) h
restock_all-AreBalanced actor k shipped (m ∷ ms) caps db h e =
    elim (Bool-cases (is_skipped caps m)) [
      | inl skip ↦ restock_all-AreBalanced actor k shipped ms caps db h (rw skip at e)
      | inr go ↦
          let (units, rest) = allowance caps m in
          let (mid, a, b) =
            >>=-eq-ok (restock_row actor k shipped (allowance caps m).0 m db) _ (rw go at e) in
          restock_all-AreBalanced actor k shipped ms (allowance caps m).1 mid
            (restock_row-AreBalanced actor k shipped (allowance caps m).0 m db h a) b
    ]

restock_slices-AreBalanced :
    (actor : Option ℕ) (k order_id : ℕ) (caps : Option Caps) (sos : List SellerOrder)
    (db : Database) {after : Database}
    → AreBalanced db.inventory
    → restock_slices actor k order_id caps sos db ≡ ok after
    → AreBalanced after.inventory
unfolding restock_slices
restock_slices-AreBalanced actor k order_id caps [] db h e =
    subst (λ (x : Database). AreBalanced x.inventory) (ok-injective e) h
restock_slices-AreBalanced actor k order_id caps (so ∷ sos) db h e =
    let ms = sort_by_inventory (slice_movements order_id (variants_of so db) so.store_id db) in
    let ((q, mid), a, b) = >>=-eq-ok (restock_all actor k (has_left so db) caps ms db) _ e in
    restock_slices-AreBalanced actor k order_id q sos mid
      (restock_all-AreBalanced actor k (has_left so db) ms caps db h a) b

pub restock-AreBalanced :
    (actor : Option ℕ) (k order_id : ℕ) (scoped : List SellerOrder) (returns : List ReturnRequest)
    (db : Database) {after : Database}
    → AreBalanced db.inventory
    → restock actor k order_id scoped returns db ≡ ok after
    → AreBalanced after.inventory
unfolding restock
restock-AreBalanced actor k order_id scoped returns db h e =
    elim (Bool-cases (any_of (is_refund_of k) db.movements)) [
      | inl again ↦
          subst (λ (x : Database). AreBalanced x.inventory) (ok-injective (rw again at e)) h
      | inr first ↦ restock_slices-AreBalanced actor k order_id _ scoped db h (rw first at e)
    ]
