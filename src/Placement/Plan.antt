-- ===== src/Placement/Plan.antt =====
-- The plan takes exactly what is asked for, and no more from a row than the row has.
use e_commerce_backend.Common.{
  ℕ, ◌+◌, ◌-◌, ◌≤◌, ◌<◌, ◌≡◌, ◌↔◌, refl, Bool, true, false, List, [], ◌∷◌, Memᴰ, Memᴰ-select, All,
  All-imp, arith, leb, ltb, min, select, sum_by, ok, is_ok, throw_if->>-eq-ok, bad_request,
  ok-injective, Bool-cases, inl, inr, if◌then◌else◌, ap, ◌∙◌, subst,
}
use e_commerce_backend.Stock.{InventoryRow}
use e_commerce_backend.Placement.{
  InventoryDeduction, insert_by_available, sort_by_available, can_supply, available_in,
  deduction_of, take_from, plan_inventory_deductions,
}

available_in-insert :
    (r : InventoryRow) (rows : List InventoryRow)
    → available_in (insert_by_available r rows) ≡ r.stock.available + available_in rows
unfolding insert_by_available
available_in-insert r [] = refl
available_in-insert r (s ∷ rows) = ground (arith, available_in-insert r rows)

pub available_in-sort :
    (rows : List InventoryRow) → available_in (sort_by_available rows) ≡ available_in rows
unfolding sort_by_available
available_in-sort [] = refl
available_in-sort (r ∷ rows) =
    available_in-insert r (sort_by_available rows)
    ∙ ap (λ n. r.stock.available + n) (available_in-sort rows)

take_from-total :
    (q : ℕ) (rows : List InventoryRow)
    → q ≤ available_in rows
    → sum_by (λ (d : InventoryDeduction). d.quantity) (take_from q rows) ≡ q
unfolding take_from
take_from-total q [] h = omega (arith, h)
take_from-total q (r ∷ rows) h = ground (arith, take_from-total (q - min r.stock.available q) rows)

-- A deduction takes at least one unit of a row, no more than the row has, and notes its levels.
abbrev pub Covers : List InventoryRow → InventoryDeduction → Type 0
Covers rows d =
    (r : InventoryRow) × Memᴰ r rows
    × (d ≡ deduction_of d.quantity r)
    × (0 < d.quantity)
    × (d.quantity ≤ r.stock.available)

-- Every row has stock, as the query asks.
take_from-Covers :
    (q : ℕ) (rows : List InventoryRow)
    → All (λ (r : InventoryRow). 0 < r.stock.available) rows
    → All (Covers rows) (take_from q rows)
unfolding take_from
take_from-Covers q [] h = tt
take_from-Covers q (r ∷ rows) (h, hs) =
    let rest =
      All-imp (Covers rows) (Covers (r ∷ rows)) _ (λ d (x, m, a, b, c). (x, Memᴰ.tail m, a, b, c))
        (take_from-Covers (q - min r.stock.available q) rows hs) in
    elim (Bool-cases (leb q 0)) [
      | inl e ↦ rw e tt
      | inr e ↦ rw e ((r, Memᴰ.head refl, refl, ground arith, ground arith), rest)
    ]

Memᴰ-insert :
    (x r : InventoryRow) (rows : List InventoryRow)
    → Memᴰ x (insert_by_available r rows)
    → Memᴰ x (r ∷ rows)
unfolding insert_by_available
Memᴰ-insert x r [] m = m
Memᴰ-insert x r (s ∷ rows) m = go (leb s.stock.available r.stock.available) (Memᴰ-insert x r rows) m
  where
    go :
        (b : Bool)
        → (Memᴰ x (insert_by_available r rows) → Memᴰ x (r ∷ rows))
        → Memᴰ x (if b then r ∷ s ∷ rows else s ∷ insert_by_available r rows)
        → Memᴰ x (r ∷ s ∷ rows)
    go true rest k = k
    go false rest (Memᴰ.head e) = Memᴰ.tail (Memᴰ.head e)
    go false rest (Memᴰ.tail k) = elim (rest k) [
      | Memᴰ.head e ↦ Memᴰ.head e
      | Memᴰ.tail l ↦ Memᴰ.tail (Memᴰ.tail l)
    ]

Memᴰ-sort :
    (x : InventoryRow) (rows : List InventoryRow) → Memᴰ x (sort_by_available rows) → Memᴰ x rows
unfolding sort_by_available
Memᴰ-sort x [] m = m
Memᴰ-sort x (r ∷ rows) m = elim (Memᴰ-insert x r (sort_by_available rows) m) [
  | Memᴰ.head e ↦ Memᴰ.head e
  | Memᴰ.tail k ↦ Memᴰ.tail (Memᴰ-sort x rows k)
]

All-of_members {κ} :
    (P : InventoryRow → Type κ) (rows : List InventoryRow)
    → ((r : InventoryRow) → Memᴰ r rows → P r)
    → All P rows
All-of_members P [] f = tt
All-of_members P (r ∷ rows) f =
    (f r (Memᴰ.head refl), All-of_members P rows (λ x m. f x (Memᴰ.tail m)))

can_supply-available :
    (variant : ℕ) (r : InventoryRow) → can_supply variant r ≡ true → 0 < r.stock.available
can_supply-available variant r h = ground arith

-- A row that the plan may take from.
abbrev pub IsTaken : ℕ → List InventoryRow → InventoryDeduction → Type 0
IsTaken variant inventory d =
    (r : InventoryRow) × Memᴰ r inventory
    × (can_supply variant r ≡ true)
    × (d ≡ deduction_of d.quantity r)
    × (0 < d.quantity)
    × (d.quantity ≤ r.stock.available)

plan-parts :
    (variant quantity : ℕ) (inventory : List InventoryRow) {ds : List InventoryDeduction}
    → plan_inventory_deductions variant quantity inventory ≡ ok ds
    → (ltb (available_in (sort_by_available (select (can_supply variant) inventory))) quantity
        ≡ false)
      × (take_from quantity (sort_by_available (select (can_supply variant) inventory)) ≡ ds)
unfolding plan_inventory_deductions
plan-parts variant quantity inventory e =
    let rows = sort_by_available (select (can_supply variant) inventory) in
    let (a, b) = throw_if->>-eq-ok (ltb (available_in rows) quantity) bad_request _ e in
    (a, ok-injective b)

-- A plan that is made takes exactly the quantity that was asked for, in deductions of at least one
-- unit from rows of this variant that are not archived, none above what its row has available.
pub plan_inventory_deductions-exact :
    (variant quantity : ℕ) (inventory : List InventoryRow) {ds : List InventoryDeduction}
    → plan_inventory_deductions variant quantity inventory ≡ ok ds
    → (sum_by (λ (d : InventoryDeduction). d.quantity) ds ≡ quantity)
      × All (IsTaken variant inventory) ds
plan_inventory_deductions-exact variant quantity inventory {ds} e =
    let rows = sort_by_available (select (can_supply variant) inventory) in
    let (enough, same) = plan-parts variant quantity inventory e in
    let from : (r : InventoryRow) → Memᴰ r rows → Memᴰ r inventory × (can_supply variant r ≡ true) =
      λ r m. Memᴰ-select (can_supply variant) r inventory (Memᴰ-sort r _ m) in
    let stocked = All-of_members _ rows (λ r m. can_supply-available variant r (from r m).1) in
    (
      subst (λ l. sum_by (λ (d : InventoryDeduction). d.quantity) l ≡ quantity) same
          (take_from-total quantity rows (ground arith)),
      subst (All (IsTaken variant inventory)) same (
          All-imp (Covers rows) (IsTaken variant inventory) _
            (λ d (r, m, a, b, c). (r, (from r m).0, (from r m).1, a, b, c))
            (take_from-Covers quantity rows stocked)),
    )

-- A plan is made exactly when the rows that may supply the variant hold the quantity between them.
pub plan_inventory_deductions_iff :
    (variant quantity : ℕ) (inventory : List InventoryRow)
    → (is_ok (plan_inventory_deductions variant quantity inventory) ≡ true)
      ↔ (quantity ≤ available_in (select (can_supply variant) inventory))
unfolding plan_inventory_deductions
plan_inventory_deductions_iff variant quantity inventory =
    ground (arith, available_in-sort (select (can_supply variant) inventory))
