-- ===== src/Shop/Books.antt =====
-- The inventory stays balanced through any sequence of calls.
use e_commerce_backend.Stock.Table.{AreBalanced}
use e_commerce_backend.Database.{Database}
use e_commerce_backend.Shop.{Step, Steps}
use e_commerce_backend.Shop.Adjustments.{
  adjust_inventory-AreBalanced, set_reorder_point-AreBalanced,
}
use e_commerce_backend.Shop.Balance.{
  cancel_my_order-AreBalanced, cancel_for_payment_failure-AreBalanced,
  admin_cancel_order-AreBalanced,
}
use e_commerce_backend.Shop.Reservations.{take_stock-AreBalanced}
use e_commerce_backend.Shop.Restocks.{restock-AreBalanced}
use e_commerce_backend.Shop.Statuses.{update_status-AreBalanced, apply_courier_status-AreBalanced}

Step-AreBalanced : {a b : Database} → Step a b → AreBalanced a.inventory → AreBalanced b.inventory
Step-AreBalanced (Step.places user_id planned order subs items a mid e) h =
    take_stock-AreBalanced user_id order.id planned a h e
Step-AreBalanced (Step.updates_status user_id input now effects a b e) h =
    update_status-AreBalanced user_id input now a h e
Step-AreBalanced (Step.hears_from_courier k target now a) h =
    apply_courier_status-AreBalanced k target now a h
Step-AreBalanced (Step.cancels user_id order_id now a b e) h =
    cancel_my_order-AreBalanced user_id order_id now a h e
Step-AreBalanced (Step.fails_payment order_id now a b e) h =
    cancel_for_payment_failure-AreBalanced order_id now a h e
Step-AreBalanced (Step.cancels_as_admin order_id now a b e) h =
    admin_cancel_order-AreBalanced order_id now a h e
Step-AreBalanced (Step.adjusts user_id input fresh now a b e) h =
    adjust_inventory-AreBalanced user_id input fresh now a h e
Step-AreBalanced (Step.sets_reorder_point user_id input fresh a b e) h =
    set_reorder_point-AreBalanced user_id input fresh a h e
Step-AreBalanced (Step.restocks actor refund_id order_id scoped returns a b e) h =
    restock-AreBalanced actor refund_id order_id scoped returns a h e

-- Where every inventory row is balanced, that is, what is on hand is available or reserved, every row is
-- balanced after any sequence of successful calls that run one at a time: placements, status changes
-- by sellers, reports of couriers, cancellations by customers, by failed payments and by
-- administrators, stock adjustments, changes
-- of the reorder point, and restocks by refunds.
pub Steps-AreBalanced :
    {a b : Database} → Steps a b → AreBalanced a.inventory → AreBalanced b.inventory
Steps-AreBalanced (Steps.none_yet a) h = h
Steps-AreBalanced (Steps.then steps step) h = Step-AreBalanced step (Steps-AreBalanced steps h)
