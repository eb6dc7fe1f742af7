-- ===== src/Order/Status/Workflow.antt =====
-- The workflow: which transitions are valid, and that every chain of them moves forward.
use e_commerce_backend.Common.{ℕ, ◌+◌, ◌≤◌, ◌<◌, ◌≡◌, refl, ◌↔◌, true, List, [], ◌∷◌, arith, length}
use e_commerce_backend.Order.Status.{OrderStatus, is_valid_transition}

-- The arrows of the workflow, one constructor each.
pub data Moves : OrderStatus → OrderStatus → Type 0 where
  accept : Moves OrderStatus.pending OrderStatus.confirmed
  decline : Moves OrderStatus.pending OrderStatus.cancelled
  pack : Moves OrderStatus.confirmed OrderStatus.packed
  withdraw : Moves OrderStatus.confirmed OrderStatus.cancelled
  ship : Moves OrderStatus.packed OrderStatus.shipped
  unpack : Moves OrderStatus.packed OrderStatus.cancelled
  deliver : Moves OrderStatus.shipped OrderStatus.delivered
  refund : Moves OrderStatus.delivered OrderStatus.refunded

Moves-of_valid : (a b : OrderStatus) → is_valid_transition a b ≡ true → Moves a b
unfolding is_valid_transition
Moves-of_valid OrderStatus.pending OrderStatus.confirmed h = accept
Moves-of_valid OrderStatus.pending OrderStatus.cancelled h = decline
Moves-of_valid OrderStatus.confirmed OrderStatus.packed h = pack
Moves-of_valid OrderStatus.confirmed OrderStatus.cancelled h = withdraw
Moves-of_valid OrderStatus.packed OrderStatus.shipped h = ship
Moves-of_valid OrderStatus.packed OrderStatus.cancelled h = unpack
Moves-of_valid OrderStatus.shipped OrderStatus.delivered h = deliver
Moves-of_valid OrderStatus.delivered OrderStatus.refunded h = refund
Moves-of_valid _ _ h = cc

valid_of_Moves : {a b : OrderStatus} → Moves a b → is_valid_transition a b ≡ true
unfolding is_valid_transition
valid_of_Moves accept = refl
valid_of_Moves decline = refl
valid_of_Moves pack = refl
valid_of_Moves withdraw = refl
valid_of_Moves ship = refl
valid_of_Moves unpack = refl
valid_of_Moves deliver = refl
valid_of_Moves refund = refl

-- How far a status is along the workflow; the two ends are last.
abbrev pub stage : OrderStatus → ℕ
stage OrderStatus.pending = 0
stage OrderStatus.confirmed = 1
stage OrderStatus.packed = 2
stage OrderStatus.shipped = 3
stage OrderStatus.delivered = 4
stage OrderStatus.cancelled = 5
stage OrderStatus.refunded = 5

-- A chain of statuses in which every step passes the check.
abbrev pub Chain : OrderStatus → List OrderStatus → Type 0
Chain from [] = Unit
Chain from (to ∷ rest) = (is_valid_transition from to ≡ true) × Chain to rest

stage-lt : {a b : OrderStatus} → Moves a b → stage a < stage b
stage-lt accept = omega arith
stage-lt decline = omega arith
stage-lt pack = omega arith
stage-lt withdraw = omega arith
stage-lt ship = omega arith
stage-lt unpack = omega arith
stage-lt deliver = omega arith
stage-lt refund = omega arith

stage-le-5 : (a : OrderStatus) → stage a ≤ 5
stage-le-5 a = ground arith

-- `isValidTransition` accepts a pair of statuses exactly when it is an arrow of the workflow.
pub is_valid_transition_iff : (a b : OrderStatus) → (is_valid_transition a b ≡ true) ↔ Moves a b
is_valid_transition_iff a b = (Moves-of_valid a b, valid_of_Moves)

-- No chain of valid transitions returns to a status or goes on for ever: a chain from `from` has at
-- most 5 - stage from steps.
pub Chain-bounded :
    (from : OrderStatus) (path : List OrderStatus) → Chain from path → length path + stage from ≤ 5
Chain-bounded from [] h = omega (arith, stage-le-5 from)
Chain-bounded from (to ∷ rest) h =
    omega (arith, stage-lt (Moves-of_valid from to h.0), Chain-bounded to rest h.1)
