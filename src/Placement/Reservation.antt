-- ===== src/Placement/Reservation.antt =====
-- The reservation loop takes what was planned, or nothing: it never sells what is not available.
use e_commerce_backend.Common.{
  ℕ, ◌+◌, ◌-◌, ◌≤◌, ◌≡◌, refl, sym, ap, ◌∙◌, subst, true, Option, some, List, [], ◌∷◌, ◌++◌, arith,
  ◌==◌, leb, if◌then◌else◌, le→leb, sum_by, All, All-imp, ◌>>=◌, Option-cases, Bool-cases, inl, inr,
  ok, is_ok, >>=-eq-ok, ok-injective,
}
use e_commerce_backend.Stock.{Stock, InventoryRow, reserve, stock_at}
use e_commerce_backend.Stock.Rows.{Updates, update_stock-possible}
use e_commerce_backend.Database.{Database, change_stock, add_movement}
use e_commerce_backend.Order.Movements.Conservation.{
  change_stock-Updates, change_stock-eq, stored-cases,
}
use e_commerce_backend.Placement.{
  Deduction, insert_deduction, sort_deductions, placement_movement, reserve_one, reserve_all,
  take_stock,
}

-- The units that the deductions take from one row.
abbrev pub taken : ℕ → List Deduction → ℕ
taken j = sum_by (λ d. if d.inventory_id == j then d.quantity else 0)

-- `q` units are taken: there were that many available, and they are reserved now.
abbrev pub SetsAside : ℕ → Stock → Option Stock → Type 0
SetsAside q s after =
    (q ≤ s.available)
    × (after ≡ some (record s { available = s.available - q; reserved = s.reserved + q }))

-- What the deductions take from every row.
abbrev pub Reserved : List Deduction → Database → Database → Type 0
Reserved ds before after =
    (j : ℕ) (s : Stock)
    → stock_at j before.inventory ≡ some s
    → SetsAside (taken j ds) s (stock_at j after.inventory)

-- One round of the loop.
pub record Reserves (user_id order_id : ℕ) (d : Deduction) (before after : Database) : Type 0 where
  pub level : Stock
  pub updates : Updates d.inventory_id (reserve d.quantity) before.inventory level after.inventory
  pub logged :
      after.movements
      ≡ before.movements ++ (placement_movement user_id order_id d level.available ∷ [])

pub reserve_one-Reserves :
    (user_id order_id : ℕ) (d : Deduction) (db : Database) {after : Database}
    → reserve_one user_id order_id d db ≡ ok after
    → Reserves user_id order_id d db after
unfolding reserve_one
reserve_one-Reserves user_id order_id d db {after} e =
    elim (Option-cases (stock_at d.inventory_id db.inventory)) [
      | inl gone ↦ cc (rw (gone, reserve_one) at e)
      | inr (s, found) ↦ stocked (rw (found, reserve_one) at e)
    ]
  where
    stocked :
        (change_stock d.inventory_id (reserve d.quantity) db >>= λ p.
        ok (add_movement (placement_movement user_id order_id d p.0.available) p.1))
          ≡ ok after
        → Reserves user_id order_id d db after
    stocked q =
        let ((t, mid), c, q') =
          >>=-eq-ok (change_stock d.inventory_id (reserve d.quantity) db) _ q in
        let same = ok-injective q' in
        let kept = ap (λ x. x.movements) (change_stock-eq d.inventory_id _ db c).1 in
        record {
          level = t;
          updates =
              subst
                (λ (x : Database).
                  Updates d.inventory_id (reserve d.quantity) db.inventory t x.inventory)
                same (change_stock-Updates d.inventory_id _ db c);
          logged =
              sym (ap (λ (x : Database). x.movements) same)
              ∙ ap (λ l. l ++ (placement_movement user_id order_id d t.available ∷ [])) kept;
        }

reserve-eq :
    (q : ℕ) (s : Stock) {t : Stock}
    → reserve q s ≡ ok t
    → (q ≤ s.available) × (t ≡ record s { available = s.available - q; reserved = s.reserved + q })
unfolding reserve
reserve-eq q s e = (ground arith, ground arith)

Reserved-cons :
    (d : Deduction) (ds : List Deduction) (before mid after : Database) {t : Stock}
    → Updates d.inventory_id (reserve d.quantity) before.inventory t mid.inventory
    → Reserved ds mid after
    → Reserved (d ∷ ds) before after
Reserved-cons d ds before mid after {t} u ih j s h =
    elim (stored-cases d.inventory_id j _ before.inventory mid.inventory u h) [
      | inl (same, c, now) ↦
          let (fits, eq) = reserve-eq d.quantity s c in
          let (rest, fin) = ih j t now in (ground arith, ground arith)
      | inr (other, now) ↦ let (rest, fin) = ih j s now in (ground arith, ground arith)
    ]

pub reserve_all-Reserved :
    (user_id order_id : ℕ) (ds : List Deduction) (db : Database) {after : Database}
    → reserve_all user_id order_id ds db ≡ ok after
    → Reserved ds db after
unfolding reserve_all
reserve_all-Reserved user_id order_id [] db e = λ j s h. (omega arith, ground arith)
reserve_all-Reserved user_id order_id (d ∷ ds) db {after} e =
    let (mid, a, b) = >>=-eq-ok (reserve_one user_id order_id d db) _ e in
    Reserved-cons d ds db mid after (reserve_one-Reserves user_id order_id d db a).updates
      (reserve_all-Reserved user_id order_id ds mid b)

taken-insert :
    (j : ℕ) (d : Deduction) (ds : List Deduction)
    → taken j (insert_deduction d ds) ≡ taken j (d ∷ ds)
unfolding insert_deduction
taken-insert j d [] = refl
taken-insert j d (e ∷ es) = ground (arith, taken-insert j d es)

pub taken-sort : (j : ℕ) (ds : List Deduction) → taken j (sort_deductions ds) ≡ taken j ds
unfolding sort_deductions
taken-sort j [] = refl
taken-sort j (d ∷ ds) = ground (arith, taken-insert j d (sort_deductions ds), taken-sort j ds)

-- A placement whose stock step succeeds has taken from every inventory row exactly what was planned,
-- and the row had it: what was available covers all deductions from the row together.
pub take_stock-Reserved :
    (user_id order_id : ℕ) (planned : List Deduction) (db : Database) {after : Database}
    → take_stock user_id order_id planned db ≡ ok after
    → (j : ℕ) (s : Stock) → stock_at j db.inventory ≡ some s
    → SetsAside (taken j planned) s (stock_at j after.inventory)
unfolding take_stock
take_stock-Reserved user_id order_id planned db {after} e j s h =
    rw (← taken-sort j planned)
      (reserve_all-Reserved user_id order_id (sort_deductions planned) db e j s h)

-- Every row that is planned for exists and has enough for all deductions from it.
abbrev pub IsPossible : List Deduction → List InventoryRow → Type 0
IsPossible ds rows =
    All
      (λ (d : Deduction).
        (s : Stock) × (stock_at d.inventory_id rows ≡ some s)
        × (taken d.inventory_id ds ≤ s.available))
      ds

reserve_one-possible :
    (user_id order_id : ℕ) (d : Deduction) (db : Database) (s : Stock)
    → stock_at d.inventory_id db.inventory ≡ some s
    → d.quantity ≤ s.available
    → (after : Database) × (reserve_one user_id order_id d db ≡ ok after)
unfolding reserve_one change_stock reserve
reserve_one-possible user_id order_id d db s found enough =
    let t : Stock = record s {
      available = s.available - d.quantity;
      reserved = s.reserved + d.quantity;
    } in
    let f : reserve d.quantity s ≡ ok t = rw (le→leb d.quantity s.available enough) in
    let (rows, u) =
      update_stock-possible d.inventory_id (reserve d.quantity) db.inventory found f in
    (
      add_movement (placement_movement user_id order_id d t.available)
          (record db { inventory = rows }),
      rw (found, reserve_one) (rw u),
    )

-- What is possible for all deductions stays possible after the first.
IsPossible-tail :
    (d : Deduction) (ds : List Deduction) (before after : List InventoryRow) {t : Stock}
    → Updates d.inventory_id (reserve d.quantity) before t after
    → All
        (λ (e : Deduction).
          (s : Stock) × (stock_at e.inventory_id before ≡ some s)
          × (taken e.inventory_id (d ∷ ds) ≤ s.available))
        ds
    → IsPossible ds after
IsPossible-tail d ds before after {t} u = All-imp _ _ ds (λ e (s, h, enough).
    elim (stored-cases d.inventory_id e.inventory_id _ before after u h) [
      | inl (same, c, now) ↦ (t, now, let (fits, eq) = reserve-eq d.quantity s c in ground arith)
      | inr (other, now) ↦ (s, now, ground arith)
    ])

reserve_all-possible :
    (user_id order_id : ℕ) (ds : List Deduction) (db : Database)
    → IsPossible ds db.inventory
    → is_ok (reserve_all user_id order_id ds db) ≡ true
unfolding reserve_all
reserve_all-possible user_id order_id [] db h = refl
reserve_all-possible user_id order_id (d ∷ ds) db ((s, found, enough), h) =
    let (mid, a) = reserve_one-possible user_id order_id d db s found (ground arith) in
    let u = (reserve_one-Reserves user_id order_id d db a).updates in
    rw a (
      reserve_all-possible user_id order_id ds mid
        (IsPossible-tail d ds db.inventory mid.inventory u h))

All-insert :
    (P : Deduction → Type 0) (d : Deduction) (ds : List Deduction)
    → P d
    → All P ds
    → All P (insert_deduction d ds)
unfolding insert_deduction
All-insert P d [] h hs = (h, tt)
All-insert P d (e ∷ es) h (g, hs) = elim (Bool-cases (leb d.inventory_id e.inventory_id)) [
  | inl le ↦ rw le (h, (g, hs))
  | inr gt ↦ rw gt (g, All-insert P d es h hs)
]

All-sort : (P : Deduction → Type 0) (ds : List Deduction) → All P ds → All P (sort_deductions ds)
unfolding sort_deductions
All-sort P [] h = tt
All-sort P (d ∷ ds) (h, hs) = All-insert P d (sort_deductions ds) h (All-sort P ds hs)

-- The stock step succeeds whenever every row that is planned for exists and has available all that
-- the plan takes from it, in whatever order the deductions were planned.
pub take_stock-succeeds :
    (user_id order_id : ℕ) (planned : List Deduction) (db : Database)
    → IsPossible planned db.inventory
    → is_ok (take_stock user_id order_id planned db) ≡ true
unfolding take_stock
take_stock-succeeds user_id order_id planned db h =
    reserve_all-possible user_id order_id (sort_deductions planned) db (
      All-imp _ _ (sort_deductions planned)
        (λ d (s, found, enough).
          (s, found, subst (λ n. n ≤ s.available) (sym (taken-sort d.inventory_id planned)) enough))
        (All-sort _ planned h))
