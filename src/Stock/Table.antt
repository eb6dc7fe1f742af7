-- ===== src/Stock/Table.antt =====
-- A table of inventory rows that are all balanced, through the writes of one row.
use e_commerce_backend.Common.{
  ℕ, ◌≡◌, inl, inr, List, [], ◌∷◌, All, ◌==◌, subst, sym, Bool-cases, Result, ok,
}
use e_commerce_backend.Stock.{Stock, InventoryRow, update_stock}
use e_commerce_backend.Stock.Balance.{IsBalanced}
use e_commerce_backend.Stock.Rows.{update_stock-here, update_stock-there}

-- Of every row, what is on hand is available or reserved.
abbrev pub AreBalanced : List InventoryRow → Type 0
AreBalanced = All (λ (r : InventoryRow). IsBalanced r.stock)

-- A change of one stock level that keeps it balanced.
abbrev pub KeepsBalance : (Stock → Result Stock) → Type 0
KeepsBalance f = (s t : Stock) → IsBalanced s → f s ≡ ok t → IsBalanced t

pub update_stock-AreBalanced :
    (k : ℕ) (f : Stock → Result Stock) (rows : List InventoryRow) {s : Stock}
    {after : List InventoryRow}
    → KeepsBalance f
    → AreBalanced rows
    → update_stock k f rows ≡ ok (s, after)
    → AreBalanced after
unfolding update_stock
update_stock-AreBalanced k f [] keeps h e = cc
update_stock-AreBalanced k f (r ∷ rows) {s} {after} keeps (b, h) e = elim (Bool-cases (r.id == k)) [
  | inl here ↦
      let (c, a) = update_stock-here k f r rows s after here e in
      subst AreBalanced (sym a) (keeps r.stock s b c, h)
  | inr there ↦
      let (rest, m, a) = update_stock-there k f r rows s after there e in
      subst AreBalanced (sym a) (b, update_stock-AreBalanced k f rows keeps h m)
]
