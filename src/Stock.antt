-- ===== src/Stock.antt =====
-- Stock levels (prisma/schema/inventory.prisma) and the four ways that the services change them:
-- placement reserves, shipment commits, cancellation releases (order-placement.service.ts,
-- seller-order.service.ts, order.service.ts), and a seller adjusts (inventory.service.ts).
-- `quantityAvailable` and `quantityReserved` are naturals because of the CHECK of migration
-- 20260708000000; an update that would break the CHECK raises, and the transaction writes nothing.
pub mod Balance
pub mod Rows
pub mod Table
use e_commerce_backend.Common.{
  ℕ, ◌+◌, ◌-◌, Bool, true, false, Option, none, some, List, [], ◌∷◌, ◌==◌, ltb, leb, ◌&&◌,
  if◌then◌else◌, Exception, conflict, check_violation, bad_request, plain_error, Result, ok, err,
  ◌>>=◌, ◌>>◌, throw_if,
}
use e_commerce_backend.Common.Int.{ℤ, pos, ◌+ℤ◌, ◌-ℤ◌, ltb_ℤ, clip}

-- The three quantities of an `Inventory` row.
pub record Stock : Type 0 where
  pub available : ℕ
  pub reserved : ℕ
  pub on_hand : ℤ

pub data StockState : Type 0 where
  out_of_stock low_stock in_stock : StockState

-- `deriveStockState`
unfoldable pub derive_stock_state : ℕ → ℕ → StockState
derive_stock_state available reorder_point =
    if leb available 0
    then StockState.out_of_stock
    else if ltb 0 reorder_point && leb available reorder_point
    then StockState.low_stock
    else StockState.in_stock

-- `{ decrement: b }` on a column that the CHECK guards
abbrev pub checked_sub : ℕ → ℕ → Result ℕ
checked_sub a b = if ltb a b then err check_violation else ok (a - b)

-- The conditional UPDATE of placement: it touches the row only where enough is available.
unfoldable pub reserve : ℕ → Stock → Result Stock
reserve qty s =
    if leb qty s.available
    then ok (record s { available = s.available - qty; reserved = s.reserved + qty })
    else err conflict

-- The shipment branch of `updateStatus`.
unfoldable pub commit : ℕ → Stock → Result Stock
commit qty s = do
  reserved' ← checked_sub s.reserved qty
  ok (record s { reserved = reserved'; on_hand = s.on_hand -ℤ pos qty })

-- The release loop body of `cancelMyOrder`, `cancelForPaymentFailure` and `updateStatus`.
unfoldable pub release : ℕ → Stock → Result Stock
release qty s = do
  reserved' ← checked_sub s.reserved qty
  ok (record s { available = s.available + qty; reserved = reserved' })

-- The quantities that `adjustInventory` computes: `delta`, or a recount to `newQuantityOnHand`.
pub data Adjustment : Type 0 where
  by_delta : ℤ → Adjustment
  to_on_hand : ℤ → Adjustment

abbrev pub delta_of : Adjustment → ℤ → ℤ
delta_of (by_delta d) before = d
delta_of (to_on_hand n) before = n -ℤ before

-- The write of `adjustInventory`: the quantities come from the row as it was read.
unfoldable pub adjust_from : Stock → Adjustment → Stock → Result Stock
adjust_from read a s =
    let new_on_hand = read.on_hand +ℤ delta_of a read.on_hand in
    let new_available = new_on_hand -ℤ pos read.reserved in
    do
      throw_if (ltb_ℤ new_available (pos 0)) bad_request
      throw_if (ltb_ℤ new_on_hand (pos 0)) bad_request
      ok (record s { available = clip new_available; on_hand = new_on_hand })

-- No other write comes between the read and the write.
unfoldable pub adjust : Adjustment → Stock → Result Stock
unfolding adjust_from
adjust a s = adjust_from s a s

-- An `Inventory` row. Identifiers are only compared, so they are naturals.
pub record InventoryRow : Type 0 where
  pub id : ℕ
  pub variant_id : ℕ
  pub warehouse_id : ℕ
  pub stock : Stock
  pub reorder_point : ℕ
  pub reorder_quantity : ℕ
  pub last_counted_at : Option ℕ
  pub is_deleted : Bool

-- `inventory.update({ where: { id } })`: the row after the write, and the table. A missing row raises.
unfoldable pub update_stock :
    ℕ → (Stock → Result Stock) → List InventoryRow → Result (Stock × List InventoryRow)
update_stock k f [] = err plain_error
update_stock k f (r ∷ rows) =
    let rest = update_stock k f rows in
    if r.id == k
    then (f r.stock >>= λ s. ok (s, record r { stock = s } ∷ rows))
    else (rest >>= λ p. ok (p.0, r ∷ p.1))

-- `inventory.findUnique({ where: { id } })`
unfoldable pub stock_at : ℕ → List InventoryRow → Option Stock
stock_at k [] = none
stock_at k (r ∷ rows) = if r.id == k then some r.stock else stock_at k rows
