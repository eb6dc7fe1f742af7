-- ===== src/Order/Seller/DoubleRelease.antt =====
-- What happens to stock when the seller cancels a sub-order and the customer then cancels the order.
use e_commerce_backend.Common.{ℕ, ◌+◌, ◌≡◌, ap, subst, some, ok, arith, List}
use e_commerce_backend.Order.Status.{OrderStatus}
use e_commerce_backend.Stock.{Stock, stock_at}
use e_commerce_backend.Database.{Database, SellerOrder}
use e_commerce_backend.Order.Movements.Conservation.{Released, Regains, claimed, placements}
use e_commerce_backend.Order.Customer.{cancel_my_order}
use e_commerce_backend.Order.Customer.Cancellation.{cancel_my_order-Released}
use e_commerce_backend.Order.Seller.{StatusInput, Effect, update_status}
use e_commerce_backend.Order.Seller.Guards.{IsAllowed, update_status-parts}
use e_commerce_backend.Order.Seller.Effects.{
  slice_of, MovesStock, update_transaction-MovesStock, update_transaction-placements,
}

-- A sub-order that its seller cancels does not keep the customer from cancelling the pending order.
-- When both succeed, the units that placement reserved for the sub-order are put back on sale twice:
-- once by the seller's cancellation, and once more with all that was placed for the order.
pub cancel_my_order-releases_twice :
    (seller_user customer_user order_id now later : ℕ) (input : StatusInput) (db : Database)
    {mid after : Database} {effects : List Effect}
    → input.status ≡ OrderStatus.cancelled
    → update_status seller_user input now db ≡ ok (mid, effects)
    → cancel_my_order customer_user order_id later mid ≡ ok after
    → (j : ℕ) (s : Stock) → stock_at j db.inventory ≡ some s
    → (so : SellerOrder) × IsAllowed seller_user input db so
      × Regains
          (claimed j (slice_of so db) + claimed j (placements order_id db))
          s
          (stock_at j after.inventory)
cancel_my_order-releases_twice seller_user customer_user order_id now later input db {mid} {after} c
      first second j s h =
    let (so, allowed, t, f) = update_status-parts seller_user input now db first in
    let moved : Released (slice_of so db) db mid =
      subst (λ x. MovesStock x (slice_of so db) db mid) c
        (update_transaction-MovesStock seller_user input now so db t) in
    let kept = update_transaction-placements seller_user input now so order_id db c t in
    let (fits, one) = moved j s h in
    let (rest, two) = cancel_my_order-Released customer_user order_id later mid second j _ one in
    let same : claimed j (placements order_id mid) ≡ claimed j (placements order_id db) =
      ap (claimed j) kept in
    (so, allowed, (omega (arith, fits, rest, same), ground (arith, two, same)))
