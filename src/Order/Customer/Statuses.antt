-- ===== src/Order/Customer/Statuses.antt =====
-- After a cancellation of a whole order the parent and all its sub-orders are cancelled.
use e_commerce_backend.Common.{
  ℕ, ◌≡◌, refl, sym, ap, ◌∙◌, subst, Bool, true, false, not, ◌&&◌, ◌||◌, inl, inr, some, none,
  Option, List, [], ◌∷◌, arith, ◌==◌, if◌then◌else◌, any_of, all_of, select, find, All, Bool-cases,
  ok,
}
use e_commerce_backend.Order.Status.{OrderStatus, PaymentStatus, ◌=s◌}
use e_commerce_backend.Database.{
  Database, Order, SellerOrder, find_order, sub_orders, set_order, set_seller_order,
}
use e_commerce_backend.Order.Customer.Cancellation.{
  cancel_subs-keeps, cancel_transaction-Keeps, IsCancellable, cancel_my_order-parts,
}
use e_commerce_backend.Order.Customer.{
  cancel_one, cancel_subs, cancel_rows, cancel_transaction, cancel_my_order, cancel_sub,
  cancel_parent,
}

abbrev is_open : SellerOrder → Bool
is_open s = not (s.status =s OrderStatus.cancelled)

-- A row of the order that is still open has its id among the rows that the loop will visit.
abbrev will_close : ℕ → List SellerOrder → SellerOrder → Bool
will_close k sos s =
    not (s.order_id == k) || (not (is_open s) || any_of (λ x. x.id == s.id && is_open x) sos)

abbrev AllClose : ℕ → List SellerOrder → List SellerOrder → Type 0
AllClose k sos = All (λ s. will_close k sos s ≡ true)

closes_row :
    (k now : ℕ) (paid : Option PaymentStatus) (so : SellerOrder) (sos : List SellerOrder)
    (s : SellerOrder)
    → is_open so ≡ true
    → will_close k (so ∷ sos) s ≡ true
    → will_close k sos (if s.id == so.id then cancel_sub paid now s else s) ≡ true
closes_row k now none so sos s o h = ground arith
closes_row k now (some p) so sos s o h = ground arith

closes_rows :
    (k now : ℕ) (paid : Option PaymentStatus) (so : SellerOrder) (sos rows : List SellerOrder)
    → is_open so ≡ true
    → AllClose k (so ∷ sos) rows
    → AllClose k sos (set_seller_order so.id (cancel_sub paid now) rows)
closes_rows k now paid so sos [] o h = tt
closes_rows k now paid so sos (s ∷ rows) o (h, hs) =
    (closes_row k now paid so sos s o h, closes_rows k now paid so sos rows o hs)

skips_row :
    (k : ℕ) (so : SellerOrder) (sos : List SellerOrder) (s : SellerOrder)
    → is_open so ≡ false
    → will_close k (so ∷ sos) s ≡ true
    → will_close k sos s ≡ true
skips_row k so sos s o h = ground arith

skips_rows :
    (k : ℕ) (so : SellerOrder) (sos rows : List SellerOrder)
    → is_open so ≡ false
    → AllClose k (so ∷ sos) rows
    → AllClose k sos rows
skips_rows k so sos [] o h = tt
skips_rows k so sos (s ∷ rows) o (h, hs) = (skips_row k so sos s o h, skips_rows k so sos rows o hs)

cancel_one-AllClose :
    (actor : Option ℕ) (paid : Option PaymentStatus) (k now : ℕ) (so : SellerOrder)
    (sos : List SellerOrder) (db : Database)
    → AllClose k (so ∷ sos) db.seller_orders
    → AllClose k sos (cancel_one actor paid now so db).seller_orders
unfolding cancel_one
cancel_one-AllClose actor paid k now so sos db h =
    elim (Bool-cases (so.status =s OrderStatus.cancelled)) [
      | inl e ↦ rw e (skips_rows k so sos db.seller_orders (ap not e) h)
      | inr e ↦ rw e (closes_rows k now paid so sos db.seller_orders (ap not e) h)
    ]

cancel_subs-AllClose :
    (actor : Option ℕ) (paid : Option PaymentStatus) (k now : ℕ) (sos : List SellerOrder)
    (db : Database)
    → AllClose k sos db.seller_orders
    → AllClose k [] (cancel_subs actor paid now sos db).seller_orders
unfolding cancel_subs
cancel_subs-AllClose actor paid k now [] db h = h
cancel_subs-AllClose actor paid k now (so ∷ sos) db h =
    cancel_subs-AllClose actor paid k now sos (cancel_one actor paid now so db)
      (cancel_one-AllClose actor paid k now so sos db h)

-- The rows that the loop visits are those of the order, so each of them will be closed.
widen :
    (k : ℕ) (x : SellerOrder) (sos rows : List SellerOrder)
    → AllClose k sos rows
    → AllClose k (x ∷ sos) rows
widen k x sos [] h = tt
widen k x sos (s ∷ rows) (h, hs) = (ground arith, widen k x sos rows hs)

sub_orders-AllClose :
    (k : ℕ) (rows : List SellerOrder) → AllClose k (select (λ s. s.order_id == k) rows) rows
sub_orders-AllClose k [] = tt
sub_orders-AllClose k (s ∷ rows) = elim (Bool-cases (s.order_id == k)) [
  | inl e ↦
      let taken : select (λ s. s.order_id == k) (s ∷ rows)
          ≡ s ∷ select (λ s. s.order_id == k) rows =
        rw e in
      subst (λ x. AllClose k x (s ∷ rows)) (sym taken)
        (ground arith, widen k s _ rows (sub_orders-AllClose k rows))
  | inr e ↦
      let left : select (λ s. s.order_id == k) (s ∷ rows) ≡ select (λ s. s.order_id == k) rows =
        rw e in
      subst (λ x. AllClose k x (s ∷ rows)) (sym left) (ground arith, sub_orders-AllClose k rows)
]

closed_all :
    (k : ℕ) (rows : List SellerOrder)
    → AllClose k [] rows
    → all_of (λ s. s.status =s OrderStatus.cancelled) (select (λ s. s.order_id == k) rows) ≡ true
closed_all k [] h = refl
closed_all k (s ∷ rows) (h, hs) = ground (arith, closed_all k rows hs)

find-set_order :
    (k : ℕ) (f : Order → Order) (os : List Order) (o : Order)
    → ((x : Order) → (f x).id ≡ x.id)
    → find (λ x. x.id == k) os ≡ some o
    → find (λ x. x.id == k) (set_order k f os) ≡ some (f o)
find-set_order k f [] o same e = cc
find-set_order k f (x ∷ os) o same e = ground (arith, same x, find-set_order k f os o same)

cancel_parent-id :
    (paid : Option PaymentStatus) (now : ℕ) (o : Order) → (cancel_parent paid now o).id ≡ o.id
cancel_parent-id none now o = refl
cancel_parent-id (some p) now o = refl

-- The status writes of a cancellation: the parent and all its sub-orders are cancelled.
pub cancel_rows-closes :
    (actor : Option ℕ) (paid : Option PaymentStatus) (now : ℕ) (o : Order) (db : Database)
    → find_order o.id db ≡ some o
    → let after = cancel_rows actor paid now o (sub_orders o.id db) db in
      (find_order o.id after ≡ some (cancel_parent paid now o))
      × (all_of (λ s. s.status =s OrderStatus.cancelled) (sub_orders o.id after) ≡ true)
unfolding cancel_rows
cancel_rows-closes actor paid now o db h =
    let (inv, mov, ord) = cancel_subs-keeps actor paid now (sub_orders o.id db) db in
    (
      find-set_order o.id (cancel_parent paid now) _ o (cancel_parent-id paid now)
          (ap (find (λ x. x.id == o.id)) ord ∙ h),
      closed_all o.id _ (
          cancel_subs-AllClose actor paid o.id now (sub_orders o.id db) db
            (sub_orders-AllClose o.id db.seller_orders)),
    )

-- What a finished cancellation of the order `k` leaves.
abbrev pub Closed : ℕ → Order → Database → Type 0
Closed k o after =
    (find_order k after ≡ some o)
    × (all_of (λ s. s.status =s OrderStatus.cancelled) (sub_orders k after) ≡ true)

pub cancel_transaction-Closed :
    (actor : Option ℕ) (paid : Option PaymentStatus) (k now : ℕ) (o : Order) (db : Database)
    {after : Database}
    → o.id ≡ k
    → find_order k db ≡ some o
    → cancel_transaction actor paid now o (sub_orders k db) db ≡ ok after
    → Closed k (cancel_parent paid now o) after
cancel_transaction-Closed actor paid k now o db {after} same found t =
    let found' = subst (λ x. find_order x db ≡ some o) (sym same) found in
    let t' =
      subst (λ x. cancel_transaction actor paid now o (sub_orders x db) db ≡ ok after) (sym same)
        t in
    let keeps = cancel_transaction-Keeps actor paid now o (sub_orders o.id db) db t' in
    let (a, b) = cancel_rows-closes actor paid now o db found' in
    subst (λ x. Closed x (cancel_parent paid now o) after) same
      (
        ap (find (λ x. x.id == o.id)) keeps.orders ∙ a,
        ap
              (λ x.
                all_of (λ s. s.status =s OrderStatus.cancelled)
                  (select (λ s. s.order_id == o.id) x))
              keeps.seller_orders
            ∙ b,
      )

-- A customer's cancellation that succeeds was one of the customer's own order, pending, with no
-- sub-order beyond PENDING but cancelled ones; afterwards the parent and every sub-order are
-- CANCELLED.
pub cancel_my_order-closes :
    (user_id order_id now : ℕ) (db : Database) {after : Database}
    → cancel_my_order user_id order_id now db ≡ ok after
    → (o : Order) × IsCancellable user_id order_id db o
      × Closed order_id (cancel_parent none now o) after
cancel_my_order-closes user_id order_id now db e =
    let (o, c, same, t) = cancel_my_order-parts user_id order_id now db e in
    (o, c, cancel_transaction-Closed (some user_id) none order_id now o db same c.found t)
