-- ===== src/Shop/Balance.antt =====
-- Each service keeps the inventory balanced.
use e_commerce_backend.Common.{
  ℕ, ◌≡◌, subst, sym, inl, inr, Option, none, some, List, [], ◌∷◌, ◌||◌, Bool-cases, Option-cases,
  ok, not_found, >>=-eq-ok, or_throw->>=-eq-ok, throw_if->>-eq-ok, ok-injective,
}
use e_commerce_backend.Common.Int.{abs}
use e_commerce_backend.Stock.{stock_at}
use e_commerce_backend.Stock.Balance.{commit-IsBalanced, release-IsBalanced}
use e_commerce_backend.Stock.Table.{AreBalanced, update_stock-AreBalanced}
use e_commerce_backend.Order.Status.{OrderStatus, PaymentStatus, ◌=s◌}
use e_commerce_backend.Database.{Database, Order, SellerOrder, Movement, find_order, sub_orders}
use e_commerce_backend.Order.Movements.{release_one, release_all, ship_one, ship_all}
use e_commerce_backend.Order.Movements.Conservation.{release_one-eq}
use e_commerce_backend.Order.Movements.Shipment.{ship_row-eq}
use e_commerce_backend.Order.Customer.{
  cancel_rows, cancel_transaction, cancel_my_order, is_paid, cancel_for_payment_failure,
  check_admin_cancel, admin_cancel_order,
}
use e_commerce_backend.Order.Customer.Cancellation.{cancel_rows-keeps, cancel_my_order-parts}

pub release_all-AreBalanced :
    (actor : Option ℕ) (k : ℕ) (ms : List Movement) (db : Database) {after : Database}
    → AreBalanced db.inventory
    → release_all actor k ms db ≡ ok after
    → AreBalanced after.inventory
unfolding release_all
release_all-AreBalanced actor k [] db h e =
    subst (λ (x : Database). AreBalanced x.inventory) (ok-injective e) h
release_all-AreBalanced actor k (m ∷ ms) db h e =
    let (mid, a, b) = >>=-eq-ok (release_one actor k m db) _ e in
    let (t, u) = release_one-eq actor k m db a in
    release_all-AreBalanced actor k ms mid
      (update_stock-AreBalanced m.inventory_id _ db.inventory
        (λ x y. release-IsBalanced (abs m.quantity_change) x) h u)
      b

ship_one-AreBalanced :
    (u k : ℕ) (m : Movement) (db : Database) {after : Database}
    → AreBalanced db.inventory
    → ship_one u k m db ≡ ok after
    → AreBalanced after.inventory
unfolding ship_one
ship_one-AreBalanced u k m db {after} h e =
    elim (Option-cases (stock_at m.inventory_id db.inventory)) [
      | inl gone ↦
          subst (λ (x : Database). AreBalanced x.inventory)
            (ok-injective (rw (gone, ship_one) at e)) h
      | inr (s, found) ↦
          let (t, w) = ship_row-eq u k m s db (rw (found, ship_one) at e) in
          update_stock-AreBalanced m.inventory_id _ db.inventory
            (λ x y. commit-IsBalanced (abs m.quantity_change) x) h w
    ]

pub ship_all-AreBalanced :
    (u k : ℕ) (ms : List Movement) (db : Database) {after : Database}
    → AreBalanced db.inventory
    → ship_all u k ms db ≡ ok after
    → AreBalanced after.inventory
unfolding ship_all
ship_all-AreBalanced u k [] db h e =
    subst (λ (x : Database). AreBalanced x.inventory) (ok-injective e) h
ship_all-AreBalanced u k (m ∷ ms) db h e =
    let (mid, a, b) = >>=-eq-ok (ship_one u k m db) _ e in
    ship_all-AreBalanced u k ms mid (ship_one-AreBalanced u k m db h a) b

cancel_transaction-AreBalanced :
    (actor : Option ℕ) (paid : Option PaymentStatus) (now : ℕ) (order : Order)
    (subs : List SellerOrder) (db : Database) {after : Database}
    → AreBalanced db.inventory
    → cancel_transaction actor paid now order subs db ≡ ok after
    → AreBalanced after.inventory
unfolding cancel_transaction
cancel_transaction-AreBalanced actor paid now order subs db h e =
    release_all-AreBalanced actor order.id _ (cancel_rows actor paid now order subs db)
      (subst AreBalanced (sym (cancel_rows-keeps actor paid now order subs db).0) h) e

pub cancel_my_order-AreBalanced :
    (user_id order_id now : ℕ) (db : Database) {after : Database}
    → AreBalanced db.inventory
    → cancel_my_order user_id order_id now db ≡ ok after
    → AreBalanced after.inventory
cancel_my_order-AreBalanced user_id order_id now db h e =
    let (o, c, same, t) = cancel_my_order-parts user_id order_id now db e in
    cancel_transaction-AreBalanced (some user_id) none now o (sub_orders order_id db) db h t

pub cancel_for_payment_failure-AreBalanced :
    (order_id now : ℕ) (db : Database) {after : Database}
    → AreBalanced db.inventory
    → cancel_for_payment_failure order_id now db ≡ ok after
    → AreBalanced after.inventory
unfolding cancel_for_payment_failure
cancel_for_payment_failure-AreBalanced order_id now db {after} h e =
    elim (Option-cases (find_order order_id db)) [
      | inl gone ↦ unchanged (rw (gone, cancel_for_payment_failure) at e)
      | inr (o, found) ↦
          let e1 = rw (found, cancel_for_payment_failure) at e in
          elim (Bool-cases
            (o.is_deleted || (o.status =s OrderStatus.cancelled || is_paid o.payment_status))) [
              | inl skip ↦ unchanged (rw skip at e1)
              | inr go ↦
                  cancel_transaction-AreBalanced none (some PaymentStatus.failed) now o
                    (sub_orders order_id db) db h (rw go at e1)
            ]
    ]
  where
    unchanged : ok db ≡ ok after → AreBalanced after.inventory
    unchanged q = subst (λ (x : Database). AreBalanced x.inventory) (ok-injective q) h

pub admin_cancel_order-AreBalanced :
    (order_id now : ℕ) (db : Database) {after : Database}
    → AreBalanced db.inventory
    → admin_cancel_order order_id now db ≡ ok after
    → AreBalanced after.inventory
unfolding admin_cancel_order
admin_cancel_order-AreBalanced order_id now db {after} h e =
    let (o, a, e1) = or_throw->>=-eq-ok (find_order order_id db) not_found _ e in
    let (b, e2) = throw_if->>-eq-ok o.is_deleted not_found _ e1 in
    elim (Bool-cases (o.status =s OrderStatus.cancelled)) [
      | inl done ↦
          subst (λ (x : Database). AreBalanced x.inventory) (ok-injective (rw done at e2)) h
      | inr live ↦
          let (u, c, e3) = >>=-eq-ok (check_admin_cancel o db) _ (rw live at e2) in
          cancel_for_payment_failure-AreBalanced order_id now db h e3
    ]
