-- ===== src/Order/Customer/Cancellation.antt =====
-- What a successful cancellation of a whole order has done to stock, parent and sub-orders.
use e_commerce_backend.Common.{
  ℕ, ◌≡◌, refl, ap, ◌∙◌, subst, false, inl, inr, none, some, Option, List, [], ◌∷◌, arith, ◌==◌,
  any_of, select, find, Bool-cases, ok, >>=-eq-ok, or_throw->>=-eq-ok, throw_if->>-eq-ok, not,
  bad_request, forbidden, not_found,
}
use e_commerce_backend.Order.Status.{OrderStatus, PaymentStatus, ◌=s◌}
use e_commerce_backend.Order.Movements.{sort_by_inventory, is_placement_of}
use e_commerce_backend.Order.Movements.Conservation.{
  Regains, claimed, claimed-sort, Released, release_all-Released, Keeps, release_all-Keeps,
}
use e_commerce_backend.Stock.{Stock, stock_at}
use e_commerce_backend.Database.{Database, Order, SellerOrder, find_order, sub_orders}
use e_commerce_backend.Order.Customer.{
  get_customer_id, cancel_one, cancel_subs, cancel_rows, cancel_transaction, check_cancel,
  cancel_my_order, is_started,
}

-- The status writes touch no stock and no movement.
cancel_one-keeps :
    (actor : Option ℕ) (paid : Option PaymentStatus) (now : ℕ) (so : SellerOrder) (db : Database)
    → let after = cancel_one actor paid now so db in
      (after.inventory ≡ db.inventory)
      × (after.movements ≡ db.movements)
      × (after.orders ≡ db.orders)
unfolding cancel_one
cancel_one-keeps actor paid now so db = elim (Bool-cases (so.status =s OrderStatus.cancelled)) [
  | inl e ↦ rw e (refl, refl, refl)
  | inr e ↦ rw e (refl, refl, refl)
]

pub cancel_subs-keeps :
    (actor : Option ℕ) (paid : Option PaymentStatus) (now : ℕ) (sos : List SellerOrder)
    (db : Database)
    → let after = cancel_subs actor paid now sos db in
      (after.inventory ≡ db.inventory)
      × (after.movements ≡ db.movements)
      × (after.orders ≡ db.orders)
unfolding cancel_subs
cancel_subs-keeps actor paid now [] db = (refl, refl, refl)
cancel_subs-keeps actor paid now (so ∷ sos) db =
    let (a, b, c) = cancel_one-keeps actor paid now so db in
    let (d, e, f) = cancel_subs-keeps actor paid now sos (cancel_one actor paid now so db) in
    (d ∙ a, e ∙ b, f ∙ c)

pub cancel_rows-keeps :
    (actor : Option ℕ) (paid : Option PaymentStatus) (now : ℕ) (order : Order)
    (subs : List SellerOrder) (db : Database)
    → let after = cancel_rows actor paid now order subs db in
      (after.inventory ≡ db.inventory) × (after.movements ≡ db.movements)
unfolding cancel_rows
cancel_rows-keeps actor paid now order subs db =
    let (a, b, c) = cancel_subs-keeps actor paid now subs db in (a, b)

pub cancel_transaction-Released :
    (actor : Option ℕ) (paid : Option PaymentStatus) (now : ℕ) (order : Order)
    (subs : List SellerOrder) (db : Database) {after : Database}
    → cancel_transaction actor paid now order subs db ≡ ok after
    → Released (select (is_placement_of order.id) db.movements) db after
unfolding cancel_transaction
cancel_transaction-Released actor paid now order subs db {after} e j s h =
    let written = cancel_rows actor paid now order subs db in
    let (inv, mov) = cancel_rows-keeps actor paid now order subs db in
    let (fits, fin) =
      release_all-Released actor order.id _ written e j s (ap (stock_at j) inv ∙ h) in
    let count : claimed j (sort_by_inventory (select (is_placement_of order.id) written.movements))
        ≡ claimed j (select (is_placement_of order.id) db.movements) =
      claimed-sort j (select (is_placement_of order.id) written.movements)
      ∙ ap (λ x. claimed j (select (is_placement_of order.id) x)) mov in
    rw (← count) (fits, fin)

find-id : (k : ℕ) (os : List Order) (o : Order) → find (λ x. x.id == k) os ≡ some o → o.id ≡ k
find-id k [] o e = cc
find-id k (x ∷ os) o e = ground (arith, find-id k os o)

-- What `cancelMyOrder` has checked when it goes on.
pub record IsCancellable (user_id order_id : ℕ) (db : Database) (o : Order) : Type 0 where
  pub found : find_order order_id db ≡ some o
  pub owned : get_customer_id user_id db ≡ ok o.customer_id
  pub kept : o.is_deleted ≡ false
  pub pending : o.status ≡ OrderStatus.pending
  pub unstarted : any_of is_started (sub_orders order_id db) ≡ false

pub check_cancel-IsCancellable :
    (user_id order_id : ℕ) (db : Database) {o : Order}
    → check_cancel user_id order_id db ≡ ok o
    → IsCancellable user_id order_id db o
unfolding check_cancel
check_cancel-IsCancellable user_id order_id db {o} e =
    let (c, a1, e1) = >>=-eq-ok (get_customer_id user_id db) _ e in
    let (p, a2, e2) = or_throw->>=-eq-ok (find_order order_id db) not_found _ e1 in
    let (b1, e3) = throw_if->>-eq-ok p.is_deleted not_found _ e2 in
    let (b2, e4) = throw_if->>-eq-ok (not (p.customer_id == c)) forbidden _ e3 in
    let (b3, e5) = throw_if->>-eq-ok (not (p.status =s OrderStatus.pending)) bad_request _ e4 in
    let (b4, e6) =
      throw_if->>-eq-ok (any_of is_started (sub_orders order_id db)) bad_request _ e5 in
    let same : p ≡ o = cc e6 in
    record {
      found = ground arith;
      owned = ground arith;
      kept = ground arith;
      pending = ground arith;
      unstarted = b4;
    }

-- A release writes neither orders nor sub-orders.
pub cancel_transaction-Keeps :
    (actor : Option ℕ) (paid : Option PaymentStatus) (now : ℕ) (order : Order)
    (subs : List SellerOrder) (db : Database) {after : Database}
    → cancel_transaction actor paid now order subs db ≡ ok after
    → Keeps (cancel_rows actor paid now order subs db) after
unfolding cancel_transaction
cancel_transaction-Keeps actor paid now order subs db e =
    release_all-Keeps actor order.id _ (cancel_rows actor paid now order subs db) e

-- A successful `cancelMyOrder` is a passed check and a finished transaction.
pub cancel_my_order-parts :
    (user_id order_id now : ℕ) (db : Database) {after : Database}
    → cancel_my_order user_id order_id now db ≡ ok after
    → (o : Order) × IsCancellable user_id order_id db o
      × (o.id ≡ order_id)
      × (cancel_transaction (some user_id) none now o (sub_orders order_id db) db ≡ ok after)
unfolding cancel_my_order
cancel_my_order-parts user_id order_id now db e =
    let (o, a, b) = >>=-eq-ok (check_cancel user_id order_id db) _ e in
    let c = check_cancel-IsCancellable user_id order_id db a in
    (o, c, find-id order_id db.orders o c.found, b)

-- A customer's cancellation that succeeds hands back, for every inventory row, exactly the units
-- that placement took from it for this order: they are available again and no longer reserved.
pub cancel_my_order-Released :
    (user_id order_id now : ℕ) (db : Database) {after : Database}
    → cancel_my_order user_id order_id now db ≡ ok after
    → (j : ℕ) (s : Stock) → stock_at j db.inventory ≡ some s
    → Regains
        (claimed j (select (is_placement_of order_id) db.movements))
        s
        (stock_at j after.inventory)
cancel_my_order-Released user_id order_id now db {after} e =
    let (o, c, same, t) = cancel_my_order-parts user_id order_id now db e in
    subst (λ k. Released (select (is_placement_of k) db.movements) db after) same
      (cancel_transaction-Released (some user_id) none now o (sub_orders order_id db) db t)
