-- ===== src/Stock/Rows.antt =====
-- A write to one inventory row: what it stores, and what it leaves alone.
use e_commerce_backend.Common.{
  ℕ, ◌≡◌, true, false, inl, inr, some, List, [], ◌∷◌, arith, ◌==◌, if◌then◌else◌, Bool-cases,
  some-injective, Result, ok, ◌>>=◌, >>=-eq-ok,
}
use e_commerce_backend.Stock.{Stock, InventoryRow, update_stock, stock_at}

-- What a successful `update_stock k f rows` has done.
pub record Updates (k : ℕ) (f : Stock → Result Stock) (before : List InventoryRow) (s : Stock)
    (after : List InventoryRow) : Type 0 where
  pub old : Stock
  pub found : stock_at k before ≡ some old
  pub changed : f old ≡ ok s
  pub stored : (j : ℕ) → stock_at j after ≡ (if k == j then some s else stock_at j before)

-- The written row is the first.
pub update_stock-here :
    (k : ℕ) (f : Stock → Result Stock) (r : InventoryRow) (rows : List InventoryRow) (s : Stock)
    (after : List InventoryRow)
    → (r.id == k) ≡ true
    → update_stock k f (r ∷ rows) ≡ ok (s, after)
    → (f r.stock ≡ ok s) × (after ≡ record r { stock = s } ∷ rows)
unfolding update_stock
update_stock-here k f r rows s after h e = ground arith

-- The written row is in the rest.
pub update_stock-there :
    (k : ℕ) (f : Stock → Result Stock) (r : InventoryRow) (rows : List InventoryRow) (s : Stock)
    (after : List InventoryRow)
    → (r.id == k) ≡ false
    → update_stock k f (r ∷ rows) ≡ ok (s, after)
    → (rest : List InventoryRow) × (update_stock k f rows ≡ ok (s, rest)) × (after ≡ r ∷ rest)
unfolding update_stock
update_stock-there k f r rows s after h e =
    let e' : (update_stock k f rows >>= λ p. ok (p.0, r ∷ p.1)) ≡ ok (s, after) = rw h at e in
    let ((t, rest), m, q) = >>=-eq-ok (update_stock k f rows) _ e' in
    (rest, ground arith, ground arith)

stored_here :
    (k : ℕ) (r : InventoryRow) (rows : List InventoryRow) (s : Stock) (j : ℕ)
    → (r.id == k) ≡ true
    → stock_at j (record r { stock = s } ∷ rows)
      ≡ (if k == j then some s else stock_at j (r ∷ rows))
unfolding stock_at
stored_here k r rows s j h = ground arith

stored_there :
    (k : ℕ) (r : InventoryRow) (rows rest : List InventoryRow) (s : Stock) (j : ℕ)
    → (r.id == k) ≡ false
    → stock_at j rest ≡ (if k == j then some s else stock_at j rows)
    → stock_at j (r ∷ rest) ≡ (if k == j then some s else stock_at j (r ∷ rows))
unfolding stock_at
stored_there k r rows rest s j h q = ground arith

pub update_stock-Updates :
    (k : ℕ) (f : Stock → Result Stock) (rows : List InventoryRow) {s : Stock}
    {after : List InventoryRow}
    → update_stock k f rows ≡ ok (s, after)
    → Updates k f rows s after
unfolding update_stock stock_at
update_stock-Updates k f [] e = cc
update_stock-Updates k f (r ∷ rows) {s} {after} e = elim (Bool-cases (r.id == k)) [
  | inl h ↦
      let (c, a) = update_stock-here k f r rows s after h e in
      record {
        old = r.stock;
        found = ground arith;
        changed = c;
        stored = λ j. rw a (stored_here k r rows s j h);
      }
  | inr h ↦
      let (rest, m, a) = update_stock-there k f r rows s after h e in
      let u = update_stock-Updates k f rows m in
      record {
        old = u.old;
        found = ground (arith, u.found);
        changed = u.changed;
        stored = λ j. rw a (stored_there k r rows rest s j h (u.stored j));
      }
]

-- A write that the row's stock allows succeeds.
pub update_stock-possible :
    (k : ℕ) (f : Stock → Result Stock) (rows : List InventoryRow) {s t : Stock}
    → stock_at k rows ≡ some s
    → f s ≡ ok t
    → (after : List InventoryRow) × (update_stock k f rows ≡ ok (t, after))
unfolding update_stock stock_at
update_stock-possible k f [] h g = cc
update_stock-possible k f (r ∷ rows) {s} {t} h g = elim (Bool-cases (r.id == k)) [
  | inl e ↦
      let same = some-injective (rw e at h) in (record r { stock = t } ∷ rows, ground (arith, same))
  | inr e ↦ let (rest, u) = update_stock-possible k f rows (rw e at h) g in (r ∷ rest, rw (e, u))
]
