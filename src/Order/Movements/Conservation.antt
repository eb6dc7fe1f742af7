-- ===== src/Order/Movements/Conservation.antt =====
-- What the release loop does to every stock level.
use e_commerce_backend.Common.{
  ℕ, ◌+◌, ◌-◌, ◌≤◌, ◌≡◌, refl, ◌∙◌, ap, ◌++◌, select, ◌⊎◌, true, false, inl, inr, some, List, [],
  ◌∷◌, arith, ◌==◌, if◌then◌else◌, sum_by, Bool-cases, Result, ok, >>=-eq-ok, Option,
}
use e_commerce_backend.Common.Int.{abs}
use e_commerce_backend.Stock.{Stock, InventoryRow, release, update_stock, stock_at}
use e_commerce_backend.Stock.Rows.{Updates, update_stock-Updates}
use e_commerce_backend.Database.{Database, Movement, change_stock}
use e_commerce_backend.Order.Movements.{
  release_one, release_all, insert_by_inventory, sort_by_inventory, is_placement_of,
}

-- The units that the movements claim from one inventory row.
abbrev pub claimed : ℕ → List Movement → ℕ
claimed j = sum_by (λ m. if m.inventory_id == j then abs m.quantity_change else 0)

pub change_stock-eq :
    (k : ℕ) (f : Stock → Result Stock) (db : Database) {s : Stock} {after : Database}
    → change_stock k f db ≡ ok (s, after)
    → (update_stock k f db.inventory ≡ ok (s, after.inventory))
      × (after ≡ record db { inventory = after.inventory })
unfolding change_stock
change_stock-eq k f db e = (ground arith, ground arith)

pub change_stock-Updates :
    (k : ℕ) (f : Stock → Result Stock) (db : Database) {s : Stock} {after : Database}
    → change_stock k f db ≡ ok (s, after)
    → Updates k f db.inventory s after.inventory
change_stock-Updates k f db e = update_stock-Updates k f db.inventory (change_stock-eq k f db e).0

-- `q` units are handed back: they are available again, and no longer reserved.
abbrev pub Regains : ℕ → Stock → Option Stock → Type 0
Regains q s after =
    (q ≤ s.reserved)
    × (after ≡ some (record s { available = s.available + q; reserved = s.reserved - q }))

-- A release hands the claimed units of every row back.
abbrev pub Released : List Movement → Database → Database → Type 0
Released ms before after =
    (j : ℕ) (s : Stock)
    → stock_at j before.inventory ≡ some s
    → Regains (claimed j ms) s (stock_at j after.inventory)

pub release_one-eq :
    (actor : Option ℕ) (k : ℕ) (m : Movement) (db : Database) {after : Database}
    → release_one actor k m db ≡ ok after
    → (s : Stock) × (update_stock m.inventory_id (release (abs m.quantity_change)) db.inventory
        ≡ ok (s, after.inventory))
unfolding release_one change_stock
release_one-eq actor k m db {after} e =
    let ((s, mid), c, q) =
      >>=-eq-ok (change_stock m.inventory_id (release (abs m.quantity_change)) db) _ e in
    (s, ground arith)

release-eq :
    (q : ℕ) (s : Stock) {t : Stock}
    → release q s ≡ ok t
    → (q ≤ s.reserved) × (t ≡ record s { available = s.available + q; reserved = s.reserved - q })
unfolding release
release-eq q s e = (ground arith, ground arith)

-- One write as the row `j` sees it.
pub stored-cases :
    (k j : ℕ) (f : Stock → Result Stock) (before after : List InventoryRow) {t s : Stock}
    → Updates k f before t after
    → stock_at j before ≡ some s
    → (((k == j) ≡ true) × (f s ≡ ok t) × (stock_at j after ≡ some t))
      ⊎ (((k == j) ≡ false) × (stock_at j after ≡ some s))
stored-cases k j f before after u h = elim (Bool-cases (k == j)) [
  | inl same ↦ inl (same, ground (arith, u.found, u.changed), ground (arith, u.stored j))
  | inr other ↦ inr (other, ground (arith, u.stored j))
]

Released-cons :
    (m : Movement) (ms : List Movement) (before mid after : Database) {t : Stock}
    → Updates m.inventory_id (release (abs m.quantity_change)) before.inventory t mid.inventory
    → Released ms mid after
    → Released (m ∷ ms) before after
Released-cons m ms before mid after {t} u ih j s h =
    elim (stored-cases m.inventory_id j _ before.inventory mid.inventory u h) [
      | inl (same, c, now) ↦
          let (fits, eq) = release-eq (abs m.quantity_change) s c in
          let (rest, fin) = ih j t now in (ground arith, ground arith)
      | inr (other, now) ↦ let (rest, fin) = ih j s now in (ground arith, ground arith)
    ]

-- A release loop that ends without an exception has handed back exactly what its movements claim.
pub release_all-Released :
    (actor : Option ℕ) (k : ℕ) (ms : List Movement) (db : Database) {after : Database}
    → release_all actor k ms db ≡ ok after
    → Released ms db after
unfolding release_all
release_all-Released actor k [] db {after} e = λ j s h. (omega arith, ground arith)
release_all-Released actor k (m ∷ ms) db {after} e =
    let (mid, a, b) = >>=-eq-ok (release_one actor k m db) _ e in
    let (t, u) = release_one-eq actor k m db a in
    Released-cons m ms db mid after (update_stock-Updates m.inventory_id _ db.inventory u)
      (release_all-Released actor k ms mid b)

claimed-insert :
    (j : ℕ) (m : Movement) (ms : List Movement)
    → claimed j (insert_by_inventory m ms) ≡ claimed j (m ∷ ms)
unfolding insert_by_inventory
claimed-insert j m [] = refl
claimed-insert j m (n ∷ ns) = ground (arith, claimed-insert j m ns)

-- The order in which the rows are locked does not change what is claimed.
pub claimed-sort : (j : ℕ) (ms : List Movement) → claimed j (sort_by_inventory ms) ≡ claimed j ms
unfolding sort_by_inventory
claimed-sort j [] = refl
claimed-sort j (m ∷ ms) =
    ground (arith, claimed-insert j m (sort_by_inventory ms), claimed-sort j ms)

-- What a release loop writes, besides stock and the log of movements: nothing.
pub record Keeps (before after : Database) : Type 0 where
  pub orders : after.orders ≡ before.orders
  pub seller_orders : after.seller_orders ≡ before.seller_orders
  pub status_history : after.status_history ≡ before.status_history

release_one-Keeps :
    (actor : Option ℕ) (k : ℕ) (m : Movement) (db : Database) {after : Database}
    → release_one actor k m db ≡ ok after
    → Keeps db after
unfolding release_one change_stock
release_one-Keeps actor k m db {after} e =
    let ((s, mid), c, q) =
      >>=-eq-ok (change_stock m.inventory_id (release (abs m.quantity_change)) db) _ e in
    ground arith

pub release_all-Keeps :
    (actor : Option ℕ) (k : ℕ) (ms : List Movement) (db : Database) {after : Database}
    → release_all actor k ms db ≡ ok after
    → Keeps db after
unfolding release_all
release_all-Keeps actor k [] db e = ground arith
release_all-Keeps actor k (m ∷ ms) db e =
    let (mid, a, b) = >>=-eq-ok (release_one actor k m db) _ e in
    let first = release_one-Keeps actor k m db a in
    let rest = release_all-Keeps actor k ms mid b in ground arith

-- The movements that placement wrote for an order.
abbrev pub placements : ℕ → Database → List Movement
placements k db = select (is_placement_of k) db.movements

select-append_none :
    (k : ℕ) (ms : List Movement) (m : Movement)
    → is_placement_of k m ≡ false
    → select (is_placement_of k) (ms ++ (m ∷ [])) ≡ select (is_placement_of k) ms
select-append_none k [] m h = rw h
select-append_none k (n ∷ ns) m h = rw (select-append_none k ns m h)

placements-ok :
    (k : ℕ) (db : Database) {x y : Database}
    → ok x ≡ ok y
    → placements k x ≡ placements k db
    → placements k y ≡ placements k db
placements-ok k db h e = cc

release_one-placements :
    (actor : Option ℕ) (order_id : ℕ) (m : Movement) (k : ℕ) (db : Database) {after : Database}
    → release_one actor order_id m db ≡ ok after
    → placements k after ≡ placements k db
unfolding release_one change_stock
release_one-placements actor order_id m k db {after} e =
    let ((s, mid), c, q) =
      >>=-eq-ok (change_stock m.inventory_id (release (abs m.quantity_change)) db) _ e in
    let kept : mid.movements ≡ db.movements =
      ap (λ x. x.movements) (change_stock-eq m.inventory_id _ db c).1 in
    placements-ok k db q
      (select-append_none k mid.movements _ refl ∙ ap (select (is_placement_of k)) kept)

-- A release logs `order_cancel` rows, and leaves the movements that placement wrote in place.
pub release_all-placements :
    (actor : Option ℕ) (order_id : ℕ) (ms : List Movement) (k : ℕ) (db : Database)
    {after : Database}
    → release_all actor order_id ms db ≡ ok after
    → placements k after ≡ placements k db
unfolding release_all
release_all-placements actor order_id [] k db e = ground arith
release_all-placements actor order_id (m ∷ ms) k db e =
    let (mid, a, b) = >>=-eq-ok (release_one actor order_id m db) _ e in
    release_all-placements actor order_id ms k mid b
    ∙ release_one-placements actor order_id m k db a
