-- ===== src/Finance.antt =====
-- The tables of payments, refunds, returns and payouts (prisma/schema) beside those of the shop, and
-- what their services share. Amounts are in paise. The rows of a table stand newest first.
use e_commerce_backend.Common.{
  ℕ, ◌+◌, Bool, true, false, Option, List, [], ◌∷◌, ◌==◌, find, if◌then◌else◌, not, select,
}
use e_commerce_backend.Common.Int.{ℤ, pos, ◌-ℤ◌}
use e_commerce_backend.Database.{Database, SellerOrder, PayoutStatus, sub_orders}

pub data TransactionStatus : Type 0 where
  created authorized captured failed refunded partially_refunded expired : TransactionStatus

-- `gateway_payment_id`: whether there is one
pub record Payment : Type 0 where
  pub id : ℕ
  pub order_id : ℕ
  pub is_cod : Bool
  pub has_gateway_id : Bool
  pub amount : ℕ
  pub status : TransactionStatus

pub data RefundStatus : Type 0 where
  requested rejected processing processed failed cancelled : RefundStatus

pub record Refund : Type 0 where
  pub id : ℕ
  pub order_id : ℕ
  pub seller_order_id : Option ℕ
  pub payment_id : ℕ
  pub amount : ℕ
  pub status : RefundStatus
  pub restock : Bool
  pub gateway_refund_id : Option ℕ
  pub requested_by_id : Option ℕ
  pub approved_by_id : Option ℕ

pub data ReturnStatus : Type 0 where
  requested approved pickup_scheduled in_transit received qc_passed qc_failed refunded
        replacement_approved replacement_shipped closed rejected :
      ReturnStatus

pub data ResolutionType : Type 0 where
  refund replacement : ResolutionType

pub record ReturnItem : Type 0 where
  pub order_item_id : ℕ
  pub quantity : ℕ

pub record ReturnRequest : Type 0 where
  pub id : ℕ
  pub order_id : ℕ
  pub seller_order_id : ℕ
  pub seller_id : ℕ
  pub customer_id : ℕ
  pub status : ReturnStatus
  pub resolution_type : ResolutionType
  pub items : List ReturnItem
  pub refund_id : Option ℕ
  pub refund_amount : Option ℕ
  pub approved_by_id : Option ℕ

pub record ReturnEvent : Type 0 where
  pub return_id : ℕ
  pub from_status : Option ReturnStatus
  pub to_status : ReturnStatus
  pub actor_user_id : Option ℕ

pub data AdjustmentStatus : Type 0 where
  pending applied void : AdjustmentStatus

-- A `PayoutAdjustment`: the clawback for a return.
pub record Clawback : Type 0 where
  pub id : ℕ
  pub seller_id : ℕ
  pub return_id : ℕ
  pub amount : ℕ
  pub status : AdjustmentStatus
  pub payout_id : Option ℕ

pub record PayoutItem : Type 0 where
  pub payout_id : ℕ
  pub seller_order_id : ℕ
  pub amount : ℕ
  pub refunded_amount : ℕ
  pub tcs_deducted : ℕ

pub record Payout : Type 0 where
  pub id : ℕ
  pub seller_id : ℕ
  pub status : PayoutStatus
  pub gross_amount : ℕ
  pub refund_adjustment : ℕ
  pub tcs_adjustment : ℕ
  pub clawback_adjustment : ℕ
  pub net_amount : ℕ

-- What the gateway was asked to pay back, and answered that it does or will.
pub record GatewayCall : Type 0 where
  pub refund_id : ℕ
  pub amount : ℕ

pub data MailEvent : Type 0 where
  order_refunded return_approved return_received return_refunded replacement_approved
        replacement_shipped :
      ℕ → MailEvent

pub record Books : Type 0 where
  pub shop : Database
  pub payments : List Payment
  pub refunds : List Refund
  pub returns : List ReturnRequest
  pub return_events : List ReturnEvent
  pub clawbacks : List Clawback
  pub payouts : List Payout
  pub payout_items : List PayoutItem
  pub gateway_calls : List GatewayCall
  -- the e-mails that the outbox was asked to send
  pub mails : List MailEvent
  -- the refunds for which `TcsService.reverse` was called
  pub tcs_reversals : List ℕ

abbrev pub find_payment : ℕ → List Payment → Option Payment
find_payment k = find (λ p. p.id == k)

abbrev pub find_refund : ℕ → List Refund → Option Refund
find_refund k = find (λ r. r.id == k)

abbrev pub find_return : ℕ → List ReturnRequest → Option ReturnRequest
find_return k = find (λ r. r.id == k)

-- `update({ where: { id }, data })`
abbrev pub set_payment : ℕ → (Payment → Payment) → List Payment → List Payment
set_payment k f [] = []
set_payment k f (p ∷ ps) = (if p.id == k then f p else p) ∷ set_payment k f ps

abbrev pub set_refund : ℕ → (Refund → Refund) → List Refund → List Refund
set_refund k f [] = []
set_refund k f (r ∷ rs) = (if r.id == k then f r else r) ∷ set_refund k f rs

abbrev pub set_return :
    ℕ → (ReturnRequest → ReturnRequest) → List ReturnRequest → List ReturnRequest
set_return k f [] = []
set_return k f (r ∷ rs) = (if r.id == k then f r else r) ∷ set_return k f rs

abbrev pub update_refund : ℕ → (Refund → Refund) → Books → Books
update_refund k f b = record b { refunds = set_refund k f b.refunds }

abbrev pub set_shop : Database → Books → Books
set_shop db b = record b { shop = db }

-- the sub-orders of an order that are not deleted
abbrev pub live_sub_orders : ℕ → Database → List SellerOrder
live_sub_orders k db = select (λ s. not s.is_deleted) (sub_orders k db)

abbrev pub is_in_payout : PayoutStatus → Bool
is_in_payout PayoutStatus.processing = true
is_in_payout PayoutStatus.paid = true
is_in_payout _ = false

abbrev pub is_captured_payment : TransactionStatus → Bool
is_captured_payment TransactionStatus.captured = true
is_captured_payment _ = false

-- the statuses that count against the payment: PROCESSING and PROCESSED
abbrev pub is_held : RefundStatus → Bool
is_held RefundStatus.processing = true
is_held RefundStatus.processed = true
is_held _ = false

abbrev pub is_processed : RefundStatus → Bool
is_processed RefundStatus.processed = true
is_processed _ = false

-- `sellerOrderTotal`
abbrev pub seller_order_total : SellerOrder → ℤ
seller_order_total so =
    pos (so.subtotal + so.tax_amount + so.shipping_amount) -ℤ pos so.discount_amount
