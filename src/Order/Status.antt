-- ===== src/Order/Status.antt =====
-- The statuses of orders and payments (prisma/schema/order.prisma), the status workflow and the
-- status of a parent order (src/modules/ecommerce/order/order.helpers.ts).
pub mod Workflow
pub mod Parent
use e_commerce_backend.Common.{
  ℕ, suc, ◌+◌, ◌-◌, Bool, true, false, not, ◌&&◌, ◌||◌, Option, none, some, List, [], ◌∷◌, map, ltb,
  if◌then◌else◌, length, select, any_of,
}

pub data OrderStatus : Type 0 where
  pending confirmed packed shipped delivered cancelled refunded : OrderStatus

pub data PaymentStatus : Type 0 where
  pending awaiting_payment paid partially_paid refunded partially_refunded failed : PaymentStatus

pub data PaymentMethod : Type 0 where
  cod card upi net_banking wallet : PaymentMethod

-- `===` on statuses
infix 50 ◌=s◌
abbrev pub ◌=s◌ : OrderStatus → OrderStatus → Bool
OrderStatus.pending =s OrderStatus.pending = true
OrderStatus.confirmed =s OrderStatus.confirmed = true
OrderStatus.packed =s OrderStatus.packed = true
OrderStatus.shipped =s OrderStatus.shipped = true
OrderStatus.delivered =s OrderStatus.delivered = true
OrderStatus.cancelled =s OrderStatus.cancelled = true
OrderStatus.refunded =s OrderStatus.refunded = true
_ =s _ = false

-- `TRANSITIONS`
abbrev pub transitions : OrderStatus → List OrderStatus
transitions OrderStatus.pending = OrderStatus.confirmed ∷ OrderStatus.cancelled ∷ []
transitions OrderStatus.confirmed = OrderStatus.packed ∷ OrderStatus.cancelled ∷ []
transitions OrderStatus.packed = OrderStatus.shipped ∷ OrderStatus.cancelled ∷ []
transitions OrderStatus.shipped = OrderStatus.delivered ∷ []
transitions OrderStatus.delivered = OrderStatus.refunded ∷ []
transitions OrderStatus.cancelled = []
transitions OrderStatus.refunded = []

unfoldable pub is_valid_transition : OrderStatus → OrderStatus → Bool
is_valid_transition from to = any_of (λ s. to =s s) (transitions from)

-- `ORDER_PROGRESS`
abbrev pub order_progress : List OrderStatus
order_progress =
    OrderStatus.pending ∷ OrderStatus.confirmed ∷ OrderStatus.packed ∷ OrderStatus.shipped
    ∷ OrderStatus.delivered ∷ []

abbrev pub next_index : Option ℕ → Option ℕ
next_index none = none
next_index (some i) = some (suc i)

-- `indexOf`; `none` is -1
abbrev pub index_of : List OrderStatus → OrderStatus → Option ℕ
index_of [] s = none
index_of (x ∷ xs) s = if x =s s then some 0 else next_index (index_of xs s)

-- `ORDER_PROGRESS[i]`; the loop only reads indices of the list, where the last is the fallback
abbrev pub progress_at : ℕ → OrderStatus
progress_at i =
    if ltb i 1
    then OrderStatus.pending
    else if ltb i 2
    then OrderStatus.confirmed
    else if ltb i 3
    then OrderStatus.packed
    else if ltb i 4
    then OrderStatus.shipped
    else OrderStatus.delivered

abbrev pub is_live : OrderStatus → Bool
is_live s = not (s =s OrderStatus.cancelled) && not (s =s OrderStatus.refunded)

-- one round of the loop over the live statuses
abbrev pub earlier : ℕ → OrderStatus → ℕ
earlier earliest s = elim (index_of order_progress s) [
  | none ↦ earliest
  | some idx ↦ if ltb idx earliest then idx else earliest
]

unfoldable pub earliest_of : ℕ → List OrderStatus → ℕ
earliest_of earliest [] = earliest
earliest_of earliest (s ∷ live) = earliest_of (earlier earliest s) live

-- The two ways that `computeParentStatus` ends, by the live statuses among `subs`.
unfoldable pub roll_up : List OrderStatus → List OrderStatus → OrderStatus
unfolding earliest_of
roll_up [] subs =
    if any_of (λ t. t =s OrderStatus.cancelled) subs
    then OrderStatus.cancelled
    else OrderStatus.refunded
roll_up (t ∷ ts) subs = progress_at (earliest_of (length order_progress - 1) (t ∷ ts))

unfoldable pub compute_parent_status : List OrderStatus → OrderStatus
unfolding roll_up
compute_parent_status [] = OrderStatus.pending
compute_parent_status (s ∷ rest) = roll_up (select is_live (s ∷ rest)) (s ∷ rest)

-- The status that `hydrateOrder` shows for a parent whose stored status is `stored`.
unfoldable pub shown_status : OrderStatus → List OrderStatus → OrderStatus
unfolding compute_parent_status
shown_status stored [] = stored
shown_status stored (s ∷ rest) = compute_parent_status (s ∷ rest)
