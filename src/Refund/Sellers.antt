-- ===== src/Refund/Sellers.antt =====
-- The refunds that a seller or a return starts (src/modules/ecommerce/payment/refund.service.ts).
use e_commerce_backend.Common.{
  ℕ, true, false, not, Option, none, some, List, ◌==◌, find, get_or, if◌then◌else◌, bad_request,
  forbidden, not_found, Result, ok, err, ◌>>=◌, ◌>>◌, throw_if, or_throw,
}
use e_commerce_backend.Common.Int.{ℤ, pos, ◌-ℤ◌, leb_ℤ, clip}
use e_commerce_backend.Order.Status.{OrderStatus, ◌=s◌}
use e_commerce_backend.Database.{Database, SellerOrder, find_seller_order}
use e_commerce_backend.Finance.{
  Books, Payment, Refund, ReturnRequest, find_refund, set_return, is_in_payout, is_held,
  seller_order_total,
}
use e_commerce_backend.Refund.{
  sum_slice_refunds, compute_max_refundable, is_manual, captured_payment, min_ℤ, new_refund,
  add_refund, check_amount,
}
use e_commerce_backend.Refund.Execution.{Outcome, GatewayReply, approve_refund}

-- `loadOwnedSellerOrder`; an archived seller account still counts
unfoldable pub load_owned_seller_order : ℕ → ℕ → Database → Result SellerOrder
load_owned_seller_order user_id k db = do
  seller ← or_throw (find (λ s. s.user_id == user_id) db.sellers) forbidden
  so ← or_throw (find_seller_order k db) not_found
  throw_if so.is_deleted not_found
  throw_if (not (so.seller_id == seller.id)) forbidden
  ok so

abbrev pub max_0 : ℤ → ℤ
max_0 x = pos (clip x)

-- The least of what is left of the payment and of the sub-order.
unfoldable pub seller_ceiling : SellerOrder → Payment → List Refund → ℤ
seller_ceiling so p refunds = max_0 (
    min_ℤ (compute_max_refundable p refunds)
      (seller_order_total so -ℤ pos (sum_slice_refunds is_held so.id refunds)))

-- `assessSellerRefund`: the payment and the ceiling, or the reason against a refund. Every reason is
-- raised as the same exception.
unfoldable pub assess_seller_refund : SellerOrder → Books → Result (Payment × ℤ)
unfolding seller_ceiling
assess_seller_refund so b = do
  throw_if (not (so.status =s OrderStatus.cancelled)) bad_request
  p ← or_throw (captured_payment so.order_id b.payments) bad_request
  throw_if (is_manual p) bad_request
  throw_if (is_in_payout so.payout_status) bad_request
  throw_if (leb_ℤ (seller_ceiling so p b.refunds) (pos 0)) bad_request
  ok (p, seller_ceiling so p b.refunds)

-- The transaction of `createSellerRefund`.
unfoldable pub create_in_slice : ℕ → SellerOrder → Option ℤ → ℕ → Books → Result Books
unfolding assess_seller_refund check_amount
create_in_slice user_id so asked fresh b = do
  q ← assess_seller_refund so b
  let amount = get_or asked q.1
  check_amount amount q.1
  ok (
      add_refund
        (new_refund fresh so.order_id (some so.id) q.0.id (clip amount) false (some user_id)) b)

-- `createSellerRefund`
unfoldable pub create_seller_refund : ℕ → ℕ → Option ℤ → ℕ → GatewayReply → Books → Outcome
unfolding load_owned_seller_order create_in_slice
create_seller_refund user_id k asked fresh reply b =
    elim (load_owned_seller_order user_id k b.shop >>= λ so.
    create_in_slice user_id so asked fresh b) [
      | err e ↦ (b, some e)
      | ok created ↦ approve_refund user_id true reply fresh created
    ]

-- `refundForReturn` until the refund is linked to the return: the refund's identifier.
unfoldable pub reserve_refund : ReturnRequest → Payment → ℕ → ℕ → Books → Result (ℕ × Books)
reserve_refund ret p amount fresh b = elim ret.refund_id [
  | some k ↦ ok (k, b)
  | none ↦
      let most = compute_max_refundable p b.refunds in
      let paid = min_ℤ (pos amount) most in
      let created =
        add_refund
          (new_refund fresh ret.order_id (some ret.seller_order_id) p.id (clip paid) true none) b in
      let linked = record created {
        returns = set_return ret.id (λ r. record r { refund_id = some fresh }) b.returns;
      } in
      throw_if (leb_ℤ paid (pos 0)) bad_request >> ok (fresh, linked)
]

-- The payment, the refund's identifier and what has been written before the refund is executed.
unfoldable pub reserved : ReturnRequest → ℕ → ℕ → Books → Result (Payment × ℕ × Books)
unfolding reserve_refund
reserved ret amount fresh b =
    or_throw (captured_payment ret.order_id b.payments) bad_request >>= λ p.
    reserve_refund ret p amount fresh b >>= λ q.
    (let parts : Payment × ℕ × Books = (p, q.0, q.1) in ok parts)

-- `refundForReturn`
unfoldable pub refund_for_return : ReturnRequest → ℕ → ℕ → ℕ → GatewayReply → Books → Outcome
unfolding reserved
refund_for_return ret amount actor fresh reply b = elim (reserved ret amount fresh b) [
  | err e ↦ (b, some e)
  | ok (p, k, linked) ↦ elim (find_refund k linked.refunds) [
    | none ↦ (linked, some not_found)
    | some r ↦ if is_manual p then (linked, none) else approve_refund actor false reply k linked
  ]
]
