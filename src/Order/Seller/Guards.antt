-- ===== src/Order/Seller/Guards.antt =====
-- What a seller's status change has checked before it writes.
use e_commerce_backend.Common.{
  ℕ, ◌≡◌, ◌↔◌, Bool, true, false, not, ◌&&◌, ◌==◌, some, List, arith, ok, bad_request, forbidden,
  not_found, plain_error, >>=-eq-ok, throw_if->>-eq-ok, or_throw->>=-eq-ok,
}
use e_commerce_backend.Order.Status.{OrderStatus, ◌=s◌, is_valid_transition}
use e_commerce_backend.Database.{Database, Order, SellerOrder, find_order, find_seller_order}
use e_commerce_backend.Order.Seller.{
  StatusInput, Effect, get_seller_id, is_cod, is_captured, lacks_tracking, check_update,
  update_transaction, effects_of, update_status,
}

-- A prepaid order whose payment is not captured blocks everything but its cancellation.
abbrev pub is_blocked : OrderStatus → Order → Bool
is_blocked target parent =
    not (target =s OrderStatus.cancelled)
    && (not (is_cod parent.payment_method) && not (is_captured parent.payment_status))

pub record IsAllowed (user_id : ℕ) (input : StatusInput) (db : Database) (so : SellerOrder)
    : Type 0 where
  pub found : find_seller_order input.seller_order_id db ≡ some so
  pub kept : so.is_deleted ≡ false
  pub owned : get_seller_id user_id db ≡ ok so.seller_id
  pub parent : Order
  pub of_parent : find_order so.order_id db ≡ some parent
  pub unblocked : is_blocked input.status parent ≡ false
  pub valid : is_valid_transition so.status input.status ≡ true
  pub tracked :
      (input.status =s OrderStatus.shipped && lacks_tracking input.tracking_number) ≡ false

pub check_update-IsAllowed :
    (user_id : ℕ) (input : StatusInput) (db : Database) {so : SellerOrder}
    → check_update user_id input db ≡ ok so
    → IsAllowed user_id input db so
unfolding check_update
check_update-IsAllowed user_id input db {so} e =
    let (seller_id, a1, e1) = >>=-eq-ok (get_seller_id user_id db) _ e in
    let (x, a2, e2) =
      or_throw->>=-eq-ok (find_seller_order input.seller_order_id db) not_found _ e1 in
    let (b1, e3) = throw_if->>-eq-ok x.is_deleted not_found _ e2 in
    let (b2, e4) = throw_if->>-eq-ok (not (x.seller_id == seller_id)) forbidden _ e3 in
    let (p, a3, e5) = or_throw->>=-eq-ok (find_order x.order_id db) plain_error _ e4 in
    let (b3, e6) = throw_if->>-eq-ok (is_blocked input.status p) bad_request _ e5 in
    let (b4, e7) =
      throw_if->>-eq-ok (not (is_valid_transition x.status input.status)) bad_request _ e6 in
    let (b5, e8) =
      throw_if->>-eq-ok
        (input.status =s OrderStatus.shipped && lacks_tracking input.tracking_number) bad_request _
        e7 in
    let same : x ≡ so = cc e8 in
    record {
      found = ground arith;
      kept = ground arith;
      owned = ground arith;
      parent = p;
      of_parent = ground arith;
      unblocked = b3;
      valid = ground arith;
      tracked = b5;
    }

check_update_complete :
    (user_id : ℕ) (input : StatusInput) (db : Database) {so : SellerOrder}
    → IsAllowed user_id input db so
    → check_update user_id input db ≡ ok so
unfolding check_update
check_update_complete user_id input db {so} a =
    let mine : (so.seller_id == so.seller_id) ≡ true = ground arith in
    rw (a.owned) (
      rw (a.found) (
        rw (a.kept)
          (rw mine (rw (a.of_parent) (rw (a.unblocked) (rw (a.valid) (rw (a.tracked))))))))

-- The checks let a status change through exactly when the caller owns the sub-order, which is not
-- deleted, the change is an arrow of the workflow, a prepaid order is paid (or the change is a
-- cancellation), and a shipment has a tracking number that is not blank.
pub check_update_iff :
    (user_id : ℕ) (input : StatusInput) (db : Database) (so : SellerOrder)
    → (check_update user_id input db ≡ ok so) ↔ IsAllowed user_id input db so
check_update_iff user_id input db so =
    (check_update-IsAllowed user_id input db, check_update_complete user_id input db)

pub update_status-parts :
    (user_id : ℕ) (input : StatusInput) (now : ℕ) (db : Database) {after : Database}
    {effects : List Effect}
    → update_status user_id input now db ≡ ok (after, effects)
    → (so : SellerOrder) × IsAllowed user_id input db so
      × (update_transaction user_id input now so db ≡ ok after)
      × (effects ≡ effects_of so input.status)
unfolding update_status
update_status-parts user_id input now db {after} {effects} e =
    let (so, a, e1) = >>=-eq-ok (check_update user_id input db) _ e in
    let (x, b, e2) = >>=-eq-ok (update_transaction user_id input now so db) _ e1 in
    (so, check_update-IsAllowed user_id input db a, ground arith, ground arith)
