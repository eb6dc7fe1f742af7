-- ===== src/Order/Movements/Shipment.antt =====
-- What the shipment loop does to every stock level.
use e_commerce_backend.Common.{
  ℕ, ◌+◌, ◌-◌, ◌≤◌, ◌≡◌, Bool, Option, inl, inr, none, some, List, [], ◌∷◌, arith, ◌==◌,
  Option-cases, ok, >>=-eq-ok,
}
use e_commerce_backend.Common.Int.{ℤ, pos, abs, ◌-ℤ◌, int_laws}
use e_commerce_backend.Stock.{Stock, commit, update_stock, stock_at}
use e_commerce_backend.Stock.Rows.{Updates, update_stock-Updates}
use e_commerce_backend.Database.{Database, Movement, change_stock}
use e_commerce_backend.Order.Movements.{ship_row, ship_one, ship_all}
use e_commerce_backend.Order.Movements.Conservation.{claimed, stored-cases}

-- `q` units leave: they are no longer reserved, nor on hand; what is available stays.
abbrev pub Leaves : ℕ → Stock → Option Stock → Type 0
Leaves q s after =
    (q ≤ s.reserved)
    × (after ≡ some (record s { reserved = s.reserved - q; on_hand = s.on_hand -ℤ pos q }))

-- A shipment takes the claimed units of every row away.
abbrev pub Shipped : List Movement → Database → Database → Type 0
Shipped ms before after =
    (j : ℕ) (s : Stock)
    → stock_at j before.inventory ≡ some s
    → Leaves (claimed j ms) s (stock_at j after.inventory)

commit-eq :
    (q : ℕ) (s : Stock) {t : Stock}
    → commit q s ≡ ok t
    → (q ≤ s.reserved) × (t ≡ record s { reserved = s.reserved - q; on_hand = s.on_hand -ℤ pos q })
unfolding commit
commit-eq q s e = (ground arith, ground arith)

sub-sub : (a : ℤ) (m n : ℕ) → a -ℤ pos m -ℤ pos n ≡ a -ℤ pos (m + n)
sub-sub a m n = omega int_laws

sub-zero : (a : ℤ) → a -ℤ pos 0 ≡ a
sub-zero a = omega int_laws

pub ship_row-eq :
    (u k : ℕ) (m : Movement) (s0 : Stock) (db : Database) {after : Database}
    → ship_row u k m s0 db ≡ ok after
    → (s : Stock) × (update_stock m.inventory_id (commit (abs m.quantity_change)) db.inventory
        ≡ ok (s, after.inventory))
unfolding ship_row change_stock
ship_row-eq u k m s0 db {after} e =
    let ((s, mid), c, q) =
      >>=-eq-ok (change_stock m.inventory_id (commit (abs m.quantity_change)) db) _ e in
    (s, ground arith)

Shipped-cons :
    (m : Movement) (ms : List Movement) (before mid after : Database) {t : Stock}
    → Updates m.inventory_id (commit (abs m.quantity_change)) before.inventory t mid.inventory
    → Shipped ms mid after
    → Shipped (m ∷ ms) before after
Shipped-cons m ms before mid after {t} u ih j s h =
    elim (stored-cases m.inventory_id j _ before.inventory mid.inventory u h) [
      | inl (same, c, now) ↦
          let (fits, eq) = commit-eq (abs m.quantity_change) s c in
          let (rest, fin) = ih j t now in
          (ground arith, ground (arith, sub-sub s.on_hand (abs m.quantity_change) (claimed j ms)))
      | inr (other, now) ↦ let (rest, fin) = ih j s now in (ground arith, ground arith)
    ]

-- A movement whose row is gone is skipped.
Shipped-skip :
    (m : Movement) (ms : List Movement) (before after : Database)
    → stock_at m.inventory_id before.inventory ≡ none
    → Shipped ms before after
    → Shipped (m ∷ ms) before after
Shipped-skip m ms before after gone ih j s h =
    let (rest, fin) = ih j s h in (ground (arith, differs), ground (arith, differs))
  where
    differs : (m.inventory_id == j) ≡ Bool.false
    differs = ground arith

ship_one-gone :
    (u k : ℕ) (m : Movement) (db : Database) {mid : Database}
    → stock_at m.inventory_id db.inventory ≡ none
    → ship_one u k m db ≡ ok mid
    → mid ≡ db
unfolding ship_one
ship_one-gone u k m db gone a = ground arith

ship_one-found :
    (u k : ℕ) (m : Movement) (before : Stock) (db : Database) {mid : Database}
    → stock_at m.inventory_id db.inventory ≡ some before
    → ship_one u k m db ≡ ok mid
    → ship_row u k m before db ≡ ok mid
unfolding ship_one
ship_one-found u k m before db found a = rw (found, ship_one) at a

-- A shipment loop that ends without an exception has taken exactly what its movements claim.
pub ship_all-Shipped :
    (u k : ℕ) (ms : List Movement) (db : Database) {after : Database}
    → ship_all u k ms db ≡ ok after
    → Shipped ms db after
unfolding ship_all
ship_all-Shipped u k [] db {after} e = λ j s h. (omega arith, ground (arith, sub-zero s.on_hand))
ship_all-Shipped u k (m ∷ ms) db {after} e =
    let (mid, a, b) = >>=-eq-ok (ship_one u k m db) _ e in
    let ih = ship_all-Shipped u k ms mid b in
    elim (Option-cases (stock_at m.inventory_id db.inventory)) [
      | inl gone ↦ Shipped-skip m ms db after gone (rw (ship_one-gone u k m db gone a) at ih)
      | inr (before, found) ↦
          let (t, w) =
            ship_row-eq u k m before db {after = mid} (ship_one-found u k m before db found a) in
          Shipped-cons m ms db mid after (update_stock-Updates m.inventory_id _ db.inventory w) ih
    ]
