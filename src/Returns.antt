-- ===== src/Returns.antt =====
-- Returns of delivered goods (src/modules/ecommerce/returns/returns.constants.ts, returns.service.ts): the
-- transition table and the request of a customer. Returns/Calls has the moves that a seller and the
-- courier make, Returns/Resolution what follows an inspection. A call is cut at its transaction where it
-- reads before it, so that the parts can interleave. Notes, bells and reads are left out; an e-mail is
-- what the outbox is asked to send.
pub mod Handlers
pub mod Ledger
pub mod Lines
pub mod Calls
pub mod Clawback
pub mod Completion
pub mod Moves
pub mod Reach
pub mod Replacement
pub mod Resolution
pub mod Seller
pub mod Trails
pub mod Within
use e_commerce_backend.Common.{
  ℕ, ◌+◌, ◌-◌, Bool, true, false, not, ◌&&◌, ◌||◌, Option, none, some, List, [], ◌∷◌, ◌++◌, ◌==◌,
  ltb, leb, any_of, all_of, find, select, sum_by, if◌then◌else◌, Exception, bad_request, forbidden,
  not_found, Result, ok, err, ◌>>=◌, ◌>>◌, throw_if, or_throw,
}
use e_commerce_backend.Order.Status.{OrderStatus, ◌=s◌}
use e_commerce_backend.Database.{
  Database, Order, SellerOrder, OrderItem, find_order, find_seller_order,
}
use e_commerce_backend.Finance.{
  Books, ReturnStatus, ResolutionType, ReturnItem, ReturnRequest, ReturnEvent, MailEvent,
  return_approved, return_received, replacement_shipped, find_return, set_return,
}

-- `===` on statuses
infix 50 ◌=r◌
abbrev pub ◌=r◌ : ReturnStatus → ReturnStatus → Bool
ReturnStatus.requested =r ReturnStatus.requested = true
ReturnStatus.approved =r ReturnStatus.approved = true
ReturnStatus.pickup_scheduled =r ReturnStatus.pickup_scheduled = true
ReturnStatus.in_transit =r ReturnStatus.in_transit = true
ReturnStatus.received =r ReturnStatus.received = true
ReturnStatus.qc_passed =r ReturnStatus.qc_passed = true
ReturnStatus.qc_failed =r ReturnStatus.qc_failed = true
ReturnStatus.refunded =r ReturnStatus.refunded = true
ReturnStatus.replacement_approved =r ReturnStatus.replacement_approved = true
ReturnStatus.replacement_shipped =r ReturnStatus.replacement_shipped = true
ReturnStatus.closed =r ReturnStatus.closed = true
ReturnStatus.rejected =r ReturnStatus.rejected = true
_ =r _ = false

-- `RETURN_TRANSITIONS`
abbrev pub return_transitions : ReturnStatus → List ReturnStatus
return_transitions ReturnStatus.requested = ReturnStatus.approved ∷ ReturnStatus.rejected ∷ []
return_transitions ReturnStatus.approved =
    ReturnStatus.pickup_scheduled ∷ ReturnStatus.rejected ∷ []
return_transitions ReturnStatus.pickup_scheduled =
    ReturnStatus.in_transit ∷ ReturnStatus.received ∷ []
return_transitions ReturnStatus.in_transit = ReturnStatus.received ∷ []
return_transitions ReturnStatus.received = ReturnStatus.qc_passed ∷ ReturnStatus.qc_failed ∷ []
return_transitions ReturnStatus.qc_passed =
    ReturnStatus.refunded ∷ ReturnStatus.replacement_approved ∷ []
return_transitions ReturnStatus.qc_failed = ReturnStatus.rejected ∷ ReturnStatus.closed ∷ []
return_transitions ReturnStatus.refunded = ReturnStatus.closed ∷ []
return_transitions ReturnStatus.replacement_approved = ReturnStatus.replacement_shipped ∷ []
return_transitions ReturnStatus.replacement_shipped = ReturnStatus.closed ∷ []
return_transitions ReturnStatus.closed = []
return_transitions ReturnStatus.rejected = []

-- `isValidReturnTransition`
unfoldable pub is_valid_return_transition : ReturnStatus → ReturnStatus → Bool
is_valid_return_transition from to = any_of (λ s. s =r to) (return_transitions from)

-- `RETURN_WINDOW_DAYS`, in milliseconds
abbrev pub return_window : ℕ
return_window = 604800000

pub record ReturnInput : Type 0 where
  pub seller_order_id : ℕ
  pub resolution_type : Option ResolutionType
  pub items : List ReturnItem

abbrev pub items_in : ℕ → List OrderItem → List OrderItem
items_in so = select (λ (i : OrderItem). i.seller_order_id == so)

abbrev pub items_of : ℕ → Database → List OrderItem
items_of so db = items_in so db.order_items

abbrev pub item_in : ℕ → List OrderItem → Option OrderItem
item_in k = find (λ (i : OrderItem). i.id == k)

-- `requestedByItem.set(id, prev + quantity)`
abbrev pub add_line : ReturnItem → List ReturnItem → List ReturnItem
add_line line [] = line ∷ []
add_line line (r ∷ rs) =
    if r.order_item_id == line.order_item_id
    then record r { quantity = r.quantity + line.quantity } ∷ rs
    else r ∷ add_line line rs

-- The loop that sums the lines of every item and refuses items of other orders.
unfoldable pub collect_lines :
    List OrderItem → List ReturnItem → List ReturnItem → Result (List ReturnItem)
collect_lines items [] collected = ok collected
collect_lines items (line ∷ lines) collected = elim (item_in line.order_item_id items) [
  | none ↦ err bad_request
  | some i ↦ collect_lines items lines (add_line line collected)
]

-- the statuses that `returnedQtyByOrderItem` counts
abbrev pub is_counted : ReturnStatus → Bool
is_counted s = not (s =r ReturnStatus.rejected) && not (s =r ReturnStatus.qc_failed)

abbrev pub quantity_in : ℕ → List ReturnItem → ℕ
quantity_in k = sum_by (λ (i : ReturnItem). if i.order_item_id == k then i.quantity else 0)

-- `returnedQtyByOrderItem`, for one item
abbrev pub returned_qty : ℕ → ℕ → List ReturnRequest → ℕ
returned_qty so k = sum_by (λ (r : ReturnRequest).
    if r.seller_order_id == so && is_counted r.status then quantity_in k r.items else 0)

-- The loop that compares the summed quantities with what is left to return.
abbrev pub fits : ℕ → List OrderItem → List ReturnRequest → ReturnItem → Bool
fits so items returns req = elim (item_in req.order_item_id items) [
  | none ↦ false
  | some oi ↦ leb (returned_qty so req.order_item_id returns + req.quantity) oi.quantity
]

unfoldable pub get_customer : ℕ → Database → Result ℕ
get_customer user_id db = do
  c ← or_throw (find (λ c. c.user_id == user_id) db.customers) forbidden
  ok c.id

-- `getSellerId`; an archived seller account still counts
unfoldable pub get_seller : ℕ → Database → Result ℕ
get_seller user_id db = do
  s ← or_throw (find (λ s. s.user_id == user_id) db.sellers) forbidden
  ok s.id

abbrev pub or_else : Option ℕ → Option ℕ → Option ℕ
or_else (some t) other = some t
or_else none other = other

abbrev pub resolution_or_refund : Option ResolutionType → ResolutionType
resolution_or_refund none = ResolutionType.refund
resolution_or_refund (some t) = t

abbrev pub is_replacement : ResolutionType → Bool
is_replacement ResolutionType.replacement = true
is_replacement ResolutionType.refund = false

-- The checks of `requestReturn` before its transaction: the sub-order and the summed lines.
unfoldable pub check_return :
    ℕ → Bool → ReturnInput → ℕ → Database → Result (ℕ × SellerOrder × List ReturnItem)
unfolding get_customer collect_lines
check_return user_id replacement_enabled input now db = do
  customer ← get_customer user_id db
  throw_if (is_replacement (resolution_or_refund input.resolution_type) && not replacement_enabled)
      bad_request
  so ← or_throw (find_seller_order input.seller_order_id db) not_found
  throw_if so.is_deleted not_found
  o ← or_throw (find_order so.order_id db) not_found
  throw_if (not (o.customer_id == customer)) forbidden
  throw_if (not (so.status =s OrderStatus.delivered)) bad_request
  delivered ← or_throw (or_else so.delivered_at o.delivered_at) bad_request
  throw_if (ltb (delivered + return_window) now) bad_request
  lines ← collect_lines (items_of so.id db) input.items []
  let parts : ℕ × SellerOrder × List ReturnItem = (customer, so, lines)
  ok parts

abbrev pub new_return : ℕ → ℕ → SellerOrder → ResolutionType → List ReturnItem → ReturnRequest
new_return fresh customer so resolution lines = record {
  id = fresh;
  order_id = so.order_id;
  seller_order_id = so.id;
  seller_id = so.seller_id;
  customer_id = customer;
  status = ReturnStatus.requested;
  resolution_type = resolution;
  items = lines;
  refund_id = none;
  refund_amount = none;
  approved_by_id = none;
}

-- The transaction of `requestReturn`, under the lock of the sub-order.
unfoldable pub open_return :
    ℕ → ResolutionType → ℕ → ℕ → SellerOrder → List ReturnItem → Books → Result Books
open_return user_id resolution fresh customer so lines b =
    throw_if (not (all_of (fits so.id (items_of so.id b.shop) b.returns) lines)) bad_request
    >> ok (record b {
      returns = new_return fresh customer so resolution lines ∷ b.returns;
      return_events =
          record {
            return_id = fresh;
            from_status = none;
            to_status = ReturnStatus.requested;
            actor_user_id = some user_id;
          }
          ∷ b.return_events;
    })

-- `requestReturn`
unfoldable pub request_return : ℕ → Bool → ReturnInput → ℕ → ℕ → Books → Result Books
unfolding check_return open_return
request_return user_id replacement_enabled input now fresh b = do
  checked ← check_return user_id replacement_enabled input now b.shop
  open_return user_id (resolution_or_refund input.resolution_type) fresh checked.0 checked.1
      checked.2 b
