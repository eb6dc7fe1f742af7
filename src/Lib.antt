-- ===== src/Lib.antt =====
-- Verification of the order and money core of an e-commerce backend (NestJS, Prisma, PostgreSQL).
--
-- The program takes orders for several sellers at once. Placement plans from which warehouses the units
-- of every item come and moves them from available to reserved; it logs one movement for each deduction.
-- The parent order has one sub-order for each seller. A seller moves a sub-order along the workflow:
-- a shipment takes its units off hand, a cancellation makes them available again. A customer, a failed
-- payment or an administrator cancels the whole order, which releases what placement logged for it. A
-- seller also adjusts stock by hand. Carts feed placement, coupons and tax determine its amounts, and
-- side effects leave the transaction through an outbox that a relay and workers drain.
--
-- A refund is requested by a customer, a seller or a return, is approved and executed by the gateway or by
-- hand, and settles payment, orders and stock. A return moves from the customer's request through pickup
-- and inspection to a refund or a replacement; the refund of a sub-order whose payout was made is clawed
-- back from the seller. A payout settles the delivered sub-orders of a seller, net of refunds, of the tax
-- that is collected at source and of clawbacks.
--
-- The files and the code they model, with paths from the repository's root:
--   Database          the rows of prisma/schema that the order and inventory services share
--   Stock             the quantities of an inventory row, and the four ways they change
--   Order/Status      order/order.helpers.ts: TRANSITIONS, isValidTransition, computeParentStatus
--   Order/Movements   the loops that release and commit stock along the logged movements
--   Order/Customer    order/order.service.ts: cancelMyOrder, cancelForPaymentFailure, and
--                     order/order-admin.service.ts: adminCancelOrder
--   Order/Seller      order/seller-order.service.ts: updateStatus, applyCourierStatus
--   Placement         order/order-placement.service.ts: planInventoryDeductions, the amounts of an order
--                     (Placement/Pricing) and the stock step
--   Finance           the rows of payments, refunds, returns and payouts
--   Refund            payment/refund.service.ts: requestRefund, createSellerRefund, refundForReturn,
--                     approveRefund, rejectRefund, disburseManualRefund, handleRefundWebhook
--   Returns           returns/returns.constants.ts and returns/returns.service.ts: requestReturn,
--                     approveReturn, rejectReturn, scheduleReturnPickup, markReturnReceived, qcReturn,
--                     completeQcPassed, markReplacementShipped, advanceFromReverseScan,
--                     reconcileStuckReturns
--   Payouts           payout/payout.service.ts: buildPreview, createPayoutRun, markPayoutPaid,
--                     markPayoutFailed
--   Tcs               src/modules/compliance/tcs/tcs.service.ts: accrue, reverse, netForSellerOrders
--   Shop              the calls of all these services in sequence, as a step relation
--   Inventory         inventory/inventory.service.ts: adjustInventory, setReorderPoint
--   Shipping          shipping/shipping-rate.ts: parseShippingConfig, computeSellerShipping,
--                     isCodEligible, and store/store.service.ts: updateMyStoreShipping
--   Tax               tax/place-of-supply.ts and src/common/pricing/price-with-tax.util.ts
--   Coupon            coupon/coupon.service.ts: create, update, softDelete, validateAndCompute
--   Cart              cart/cart.service.ts: add, updateQty, remove, clear, mergeGuestIntoCustomer,
--                     buildValidation
--   Outbox            src/modules/outbox: enqueue, relay, process
--   Resilience        src/common/http/with-resilience.ts: withResilience, backoffDelayMs
--   Common            Booleans, lists, results, signed integers, rounding and texts
--   Tests             a small shop, and the theorems applied to it
-- where a path without src/ stands under src/modules/ecommerce.
--
-- How the code is read:
--   - A service method is a function of its arguments and of the tables; it returns the tables after
--     it, or the exception. A transaction that raises writes nothing, so an exception carries no state.
--   - An identifier is only compared, so it is a natural number; a time is a number of milliseconds,
--     and the present is an argument, as is the identifier of a row that is created.
--   - Available and reserved quantities are natural numbers: migration 20260708000000 has a CHECK, and
--     a write that would break it raises. On-hand quantities are signed.
--   - Amounts are exact decimals in units of a paisa or of a ten-thousandth of a rupee. The error of
--     JavaScript's floating point is not modelled.
--   - Placement/Pricing takes the shipping charge of a sub-order and its store's discount as given.
--   - A text is a list of UTF-16 code units. `toUpperCase`, the queue, the handlers and outbound calls
--     are parameters.
--   - Shop runs one call at a time. Of placement it has the stock step, after which the order's rows
--     are added whatever they are.
--   - Where a query has no order, the rows come in the order of the table.
--   - Every loop runs over a list or a number of retries that gets smaller, so no fuel is needed.
--
-- Not modelled: the checks of cart and address and the idempotency key of placement, the capture of
-- payments, couriers, invoices, serviceability, the catalogue, identity, content, notification, and
-- compliance but for the ledger of TCS, whose calls the order and refund services record; e-mails, audit
-- rows, notes and reads that only list rows; transactions that interleave, but for the adjustment and
-- the reservation in Stock/Balance and the transactions of Returns. Identifiers of new rows are arguments,
-- and so are the answers of the payment gateway and of the courier.
pub mod Cart
pub mod Common
pub mod Coupon
pub mod Database
pub mod Finance
pub mod Inventory
pub mod Order
pub mod Outbox
pub mod Payouts
pub mod Placement
pub mod Refund
pub mod Resilience
pub mod Returns
pub mod Shipping
pub mod Shop
pub mod Stock
pub mod Tax
pub mod Tcs
pub mod Tests
