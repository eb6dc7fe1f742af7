-- ===== src/Placement/RoundTrip.antt =====
-- What placement takes is what a cancellation gives back.
use e_commerce_backend.Common.{
  ℕ, ◌+◌, ◌≡◌, ap, ◌∙◌, true, some, List, [], ◌∷◌, ◌++◌, arith, ◌==◌, if◌then◌else◌, sum_by-append,
  Bool-cases, inl, inr, select, ok, >>=-eq-ok,
}
use e_commerce_backend.Common.Int.{abs, pos, ◌-ℤ◌}
use e_commerce_backend.Stock.{Stock, stock_at}
use e_commerce_backend.Database.{Database, Movement}
use e_commerce_backend.Order.Movements.{is_placement_of}
use e_commerce_backend.Order.Movements.Conservation.{claimed, placements}
use e_commerce_backend.Order.Customer.{cancel_my_order}
use e_commerce_backend.Order.Customer.Cancellation.{cancel_my_order-Released}
use e_commerce_backend.Placement.{
  Deduction, placement_movement, reserve_one, reserve_all, take_stock, sort_deductions,
}
use e_commerce_backend.Placement.Reservation.{
  taken, taken-sort, take_stock-Reserved, reserve_one-Reserves,
}

abs-negated : (q : ℕ) → abs (pos 0 -ℤ pos q) ≡ q
unfolding ◌-ℤ◌
abs-negated q = ground arith

same_id : (k : ℕ) → (k == k) ≡ true
same_id k = ground arith

placements-append :
    (k : ℕ) (ms : List Movement) (m : Movement)
    → is_placement_of k m ≡ true
    → select (is_placement_of k) (ms ++ (m ∷ [])) ≡ select (is_placement_of k) ms ++ (m ∷ [])
placements-append k [] m h = rw h
placements-append k (n ∷ ns) m h = elim (Bool-cases (is_placement_of k n)) [
  | inl e ↦ rw (e, placements-append k ns m h)
  | inr e ↦ rw (e, placements-append k ns m h)
]

claimed-reserve_one :
    (user_id order_id j : ℕ) (d : Deduction) (db : Database) {after : Database}
    → reserve_one user_id order_id d db ≡ ok after
    → claimed j (placements order_id after)
      ≡ claimed j (placements order_id db) + (if d.inventory_id == j then d.quantity else 0)
claimed-reserve_one user_id order_id j d db {after} e =
    let r = reserve_one-Reserves user_id order_id d db e in
    let m = placement_movement user_id order_id d r.level.available in
    let a =
      ap (select (is_placement_of order_id)) r.logged
      ∙ placements-append order_id db.movements m (same_id order_id) in
    let b = ap (claimed j) a ∙ sum_by-append _ (placements order_id db) (m ∷ []) in
    ground (arith, b, abs-negated d.quantity)

claimed-reserve_all :
    (user_id order_id j : ℕ) (ds : List Deduction) (db : Database) {after : Database}
    → reserve_all user_id order_id ds db ≡ ok after
    → claimed j (placements order_id after) ≡ claimed j (placements order_id db) + taken j ds
unfolding reserve_all
claimed-reserve_all user_id order_id j [] db e = ground arith
claimed-reserve_all user_id order_id j (d ∷ ds) db e =
    let (mid, a, b) = >>=-eq-ok (reserve_one user_id order_id d db) _ e in
    omega (
      arith,
      claimed-reserve_one user_id order_id j d db a,
      claimed-reserve_all user_id order_id j ds mid b,
    )

-- An order that is placed and then cancelled by its customer, with nothing in between that moves stock
-- or logs a movement, leaves every inventory row with the stock it had before the placement.
pub cancel_my_order-take_stock :
    (user_id order_id customer_user now : ℕ) (planned : List Deduction) (db placed : Database)
    {reserved after : Database}
    → placements order_id db ≡ []
    → take_stock user_id order_id planned db ≡ ok reserved
    → placed.inventory ≡ reserved.inventory
    → placed.movements ≡ reserved.movements
    → cancel_my_order customer_user order_id now placed ≡ ok after
    → (j : ℕ) (s : Stock) → stock_at j db.inventory ≡ some s
    → stock_at j after.inventory ≡ some s
unfolding take_stock
cancel_my_order-take_stock user_id order_id customer_user now planned db placed {reserved} {after}
      fresh took inv mov cancel j s h =
    let (fits, one) = take_stock-Reserved user_id order_id planned db took j s h in
    let (back, two) =
      cancel_my_order-Released customer_user order_id now placed cancel j _
        (ap (stock_at j) inv ∙ one) in
    let placed_for = ap (λ l. claimed j (select (is_placement_of order_id) l)) mov in
    let made = claimed-reserve_all user_id order_id j (sort_deductions planned) db took in
    let none_before = ap (claimed j) fresh in
    let n : claimed j (placements order_id placed) ≡ taken j planned =
      omega (arith, placed_for, made, none_before, taken-sort j planned) in
    ground (arith, fits, one, back, two, n)
