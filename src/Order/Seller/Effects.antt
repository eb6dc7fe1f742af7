-- ===== src/Order/Seller/Effects.antt =====
-- What a seller's status change does to stock, by the new status, and what a courier's report does.
use e_commerce_backend.Common.{
  ℕ, ◌≡◌, refl, sym, ap, ◌∙◌, subst, Bool, true, false, not, ◌||◌, ◌==◌, inl, inr, some, none,
  Option, List, [], ◌∷◌, arith, find, if◌then◌else◌, ok, Bool-cases, Option-cases,
}
use e_commerce_backend.Order.Status.{OrderStatus, ◌=s◌, is_valid_transition}
use e_commerce_backend.Order.Movements.{slice_movements}
use e_commerce_backend.Stock.{Stock, stock_at}
use e_commerce_backend.Order.Movements.Conservation.{
  Released, Regains, claimed, release_all-Released, placements, release_all-placements,
}
use e_commerce_backend.Order.Movements.Shipment.{Shipped, Leaves, ship_all-Shipped}
use e_commerce_backend.Database.{
  Database, Movement, SellerOrder, HistoryEntry, find_seller_order, set_seller_order,
}
use e_commerce_backend.Order.Seller.{
  StatusInput, Effect, CourierTarget, slice_variants, roll_up_delivery, apply_status,
  update_transaction, update_status, is_cod_confirmation, courier_stamp, courier_transaction,
  courier_update, apply_courier_status,
}
use e_commerce_backend.Order.Seller.Guards.{IsAllowed, update_status-parts}

-- The reservations that placement made for the items of one sub-order.
abbrev pub slice_of : SellerOrder → Database → List Movement
slice_of so db = slice_movements so.order_id (slice_variants so.id db) so.store_id db

-- A shipment takes the sub-order's units off hand, a cancellation makes them available again, and
-- no other status moves stock.
abbrev pub MovesStock : OrderStatus → List Movement → Database → Database → Type 0
MovesStock OrderStatus.shipped ms before after = Shipped ms before after
MovesStock OrderStatus.cancelled ms before after = Released ms before after
MovesStock _ ms before after = after.inventory ≡ before.inventory

pub roll_up_delivery-inventory :
    (actor : Option ℕ) (logs : Bool) (order_id now : ℕ) (db : Database)
    → (roll_up_delivery actor logs order_id now db).inventory ≡ db.inventory
unfolding roll_up_delivery
roll_up_delivery-inventory actor logs order_id now db = ground arith

pub apply_status-MovesStock :
    (user_id : ℕ) (so : SellerOrder) (status : OrderStatus) (now : ℕ) (db : Database)
    {after : Database}
    → apply_status user_id so status now db ≡ ok after
    → MovesStock status (slice_of so db) db after
unfolding apply_status
apply_status-MovesStock user_id so OrderStatus.shipped now db e =
    ship_all-Shipped user_id so.id (slice_of so db) db e
apply_status-MovesStock user_id so OrderStatus.cancelled now db e =
    release_all-Released (some user_id) so.order_id (slice_of so db) db e
apply_status-MovesStock user_id so OrderStatus.delivered now db e =
    ground (arith, roll_up_delivery-inventory (some user_id) true so.order_id now db)
apply_status-MovesStock user_id so OrderStatus.pending now db e = ground arith
apply_status-MovesStock user_id so OrderStatus.confirmed now db e = ground arith
apply_status-MovesStock user_id so OrderStatus.packed now db e = ground arith
apply_status-MovesStock user_id so OrderStatus.refunded now db e = ground arith

-- Writes to other tables before the stock moves do not matter to it.
MovesStock-before :
    (status : OrderStatus) (ms : List Movement) (db after : Database) (sos : List SellerOrder)
    (history : List HistoryEntry) (accruals : List ℕ)
    → MovesStock status ms
        (record db { seller_orders = sos; status_history = history; tcs_accruals = accruals })
        after
    → MovesStock status ms db after
MovesStock-before OrderStatus.shipped ms db after sos history accruals m = m
MovesStock-before OrderStatus.cancelled ms db after sos history accruals m = m
MovesStock-before _ ms db after sos history accruals m = m

pub update_transaction-MovesStock :
    (user_id : ℕ) (input : StatusInput) (now : ℕ) (so : SellerOrder) (db : Database)
    {after : Database}
    → update_transaction user_id input now so db ≡ ok after
    → MovesStock input.status (slice_of so db) db after
unfolding update_transaction
update_transaction-MovesStock user_id input now so db {after} e =
    elim (Bool-cases (is_cod_confirmation so input.status)) [
      | inl c ↦
          MovesStock-before input.status (slice_of so db) db after _ _ _
            (apply_status-MovesStock user_id so input.status now _ (rw c at e))
      | inr c ↦
          MovesStock-before input.status (slice_of so db) db after _ _ _
            (apply_status-MovesStock user_id so input.status now _ (rw c at e))
    ]

-- A seller's cancellation leaves the movements that placement wrote.
pub update_transaction-placements :
    (user_id : ℕ) (input : StatusInput) (now : ℕ) (so : SellerOrder) (k : ℕ) (db : Database)
    {after : Database}
    → input.status ≡ OrderStatus.cancelled
    → update_transaction user_id input now so db ≡ ok after
    → placements k after ≡ placements k db
unfolding update_transaction apply_status
update_transaction-placements user_id input now so k db {after} c e =
    elim (Bool-cases (is_cod_confirmation so input.status)) [
      | inl d ↦ release_all-placements (some user_id) so.order_id _ k _ (rw c at (rw d at e))
      | inr d ↦ release_all-placements (some user_id) so.order_id _ k _ (rw c at (rw d at e))
    ]

-- What a new status does to a row that holds `q` units of the sub-order.
abbrev pub MovesUnits : OrderStatus → ℕ → Stock → Option Stock → Type 0
MovesUnits OrderStatus.shipped q s after = Leaves q s after
MovesUnits OrderStatus.cancelled q s after = Regains q s after
MovesUnits _ q s after = after ≡ some s

MovesStock-row :
    (status : OrderStatus) (ms : List Movement) (db after : Database) (j : ℕ) (s : Stock)
    → MovesStock status ms db after
    → stock_at j db.inventory ≡ some s
    → MovesUnits status (claimed j ms) s (stock_at j after.inventory)
MovesStock-row OrderStatus.shipped ms db after j s m h = m j s h
MovesStock-row OrderStatus.cancelled ms db after j s m h = m j s h
MovesStock-row _ ms db after j s m h = ap (stock_at j) m ∙ h

-- A status change by the seller was allowed, and moves the stock that placement reserved for this
-- sub-order's items in this seller's store, and no other stock: of every inventory row, a shipment
-- takes these units off hand and off reserve, a cancellation puts them back on sale, and any other
-- status leaves the row as it was.
pub update_status-Moves :
    (user_id : ℕ) (input : StatusInput) (now : ℕ) (db : Database) {after : Database}
    {effects : List Effect}
    → update_status user_id input now db ≡ ok (after, effects)
    → (j : ℕ) (s : Stock) → stock_at j db.inventory ≡ some s
    → (so : SellerOrder) × IsAllowed user_id input db so
      × MovesUnits input.status (claimed j (slice_of so db)) s (stock_at j after.inventory)
update_status-Moves user_id input now db {after} e j s h =
    let (so, a, t, f) = update_status-parts user_id input now db e in
    (
      so,
      a,
      MovesStock-row input.status (slice_of so db) db after j s
          (update_transaction-MovesStock user_id input now so db t) h,
    )

courier_transaction-inventory :
    (so : SellerOrder) (target : OrderStatus) (now : ℕ) (db : Database)
    → (courier_transaction so target now db).inventory ≡ db.inventory
unfolding courier_transaction
courier_transaction-inventory so target now db =
    elim (Bool-cases (target =s OrderStatus.delivered)) [
      | inl e ↦ rw e (roll_up_delivery-inventory none false so.order_id now _)
      | inr e ↦ rw e
    ]

courier_update-inventory :
    (so : SellerOrder) (target : CourierTarget) (now : ℕ) (db : Database)
    → (courier_update so target now db).inventory ≡ db.inventory
unfolding courier_update
courier_update-inventory so CourierTarget.ndr now db = refl
courier_update-inventory so CourierTarget.rto now db = refl
courier_update-inventory so (CourierTarget.to_status t) now db =
    elim (Bool-cases (so.status =s t || not (is_valid_transition so.status t))) [
      | inl e ↦ rw e
      | inr e ↦ rw e (courier_transaction-inventory so t now db)
    ]

-- A courier's report never moves stock, whatever status it brings.
pub apply_courier_status-inventory :
    (seller_order_id : ℕ) (target : CourierTarget) (now : ℕ) (db : Database)
    → (apply_courier_status seller_order_id target now db).inventory ≡ db.inventory
unfolding apply_courier_status
apply_courier_status-inventory k target now db = elim (Option-cases (find_seller_order k db)) [
  | inl gone ↦ rw (gone, apply_courier_status)
  | inr (so, found) ↦ rw (found, apply_courier_status) (pick so)
]
  where
    pick :
        (so : SellerOrder)
        → (if so.is_deleted then db else courier_update so target now db).inventory ≡ db.inventory
    pick so = ground (arith, courier_update-inventory so target now db)

find-set_seller_order :
    (k : ℕ) (f : SellerOrder → SellerOrder) (rows : List SellerOrder) (s : SellerOrder)
    → ((x : SellerOrder) → (f x).id ≡ x.id)
    → find (λ x. x.id == k) rows ≡ some s
    → find (λ x. x.id == k) (set_seller_order k f rows) ≡ some (f s)
find-set_seller_order k f [] s same e = cc
find-set_seller_order k f (x ∷ rows) s same e =
    ground (arith, same x, find-set_seller_order k f rows s same)

found-id :
    (k : ℕ) (rows : List SellerOrder) (s : SellerOrder)
    → find (λ x. x.id == k) rows ≡ some s
    → s.id ≡ k
found-id k [] s e = cc
found-id k (x ∷ rows) s e = ground (arith, found-id k rows s)

moves_on : (a b : OrderStatus) → is_valid_transition a b ≡ true → (a =s b) ≡ false
unfolding is_valid_transition
moves_on a b h = ground arith

courier_stamp-status :
    (so : SellerOrder) (target : OrderStatus) (now : ℕ) (s : SellerOrder)
    → ((courier_stamp so target now s).status ≡ target)
      × ((courier_stamp so target now s).id ≡ s.id)
unfolding courier_stamp
courier_stamp-status so OrderStatus.pending now s = (refl, refl)
courier_stamp-status so OrderStatus.confirmed now s = (refl, refl)
courier_stamp-status so OrderStatus.packed now s = (refl, refl)
courier_stamp-status so OrderStatus.shipped now s = (refl, refl)
courier_stamp-status so OrderStatus.delivered now s = (refl, refl)
courier_stamp-status so OrderStatus.cancelled now s = (refl, refl)
courier_stamp-status so OrderStatus.refunded now s = (refl, refl)

roll_up_delivery-seller_orders :
    (actor : Option ℕ) (logs : Bool) (order_id now : ℕ) (db : Database)
    → (roll_up_delivery actor logs order_id now db).seller_orders ≡ db.seller_orders
unfolding roll_up_delivery
roll_up_delivery-seller_orders actor logs order_id now db = ground arith

courier_transaction-seller_orders :
    (so : SellerOrder) (target : OrderStatus) (now : ℕ) (db : Database)
    → (courier_transaction so target now db).seller_orders
      ≡ set_seller_order so.id (courier_stamp so target now) db.seller_orders
unfolding courier_transaction
courier_transaction-seller_orders so target now db =
    elim (Bool-cases (target =s OrderStatus.delivered)) [
      | inl e ↦ rw e (roll_up_delivery-seller_orders none false so.order_id now _)
      | inr e ↦ rw e
    ]

apply_courier_status-eq :
    (k now : ℕ) (db : Database) (so : SellerOrder) (target : OrderStatus)
    → find_seller_order k db ≡ some so
    → so.is_deleted ≡ false
    → is_valid_transition so.status target ≡ true
    → apply_courier_status k (CourierTarget.to_status target) now db
      ≡ courier_transaction so target now db
unfolding apply_courier_status courier_update
apply_courier_status-eq k now db so target found kept valid =
    rw (found, apply_courier_status) (rw kept (rw (moves_on so.status target valid) (rw valid)))

-- A courier's report of a status that the workflow allows next is written to the sub-order, and moves
-- no stock. So a reported pick-up of a packed sub-order leaves its units on hand and reserved, and a
-- reported cancellation leaves them reserved.
pub apply_courier_status-keeps_stock :
    (k now : ℕ) (db : Database) (so : SellerOrder) (target : OrderStatus)
    → find_seller_order k db ≡ some so
    → so.is_deleted ≡ false
    → is_valid_transition so.status target ≡ true
    → let after = apply_courier_status k (CourierTarget.to_status target) now db in
      (s : SellerOrder) × (find_seller_order k after ≡ some s)
      × (s.status ≡ target)
      × (after.inventory ≡ db.inventory)
apply_courier_status-keeps_stock k now db so target found kept valid =
    let eq = apply_courier_status-eq k now db so target found kept valid in
    let own = found-id k db.seller_orders so found in
    (
      courier_stamp so target now so,
      ap (find_seller_order k) eq
          ∙ ap (find (λ x. x.id == k)) (courier_transaction-seller_orders so target now db)
          ∙ subst
              (λ i.
                find (λ x. x.id == k)
                  (set_seller_order i (courier_stamp so target now) db.seller_orders)
                ≡ some (courier_stamp so target now so))
              (sym own)
              (find-set_seller_order k (courier_stamp so target now) db.seller_orders so
                (λ x. (courier_stamp-status so target now x).1) found),
      (courier_stamp-status so target now so).0,
      apply_courier_status-inventory k (CourierTarget.to_status target) now db,
    )
