-- ===== src/Refund/Restock/Caps.antt =====
-- A restock for a return brings back no more of a variant than came back.
use e_commerce_backend.Common.{
  ℕ, ◌+◌, ◌-◌, ◌≡◌, refl, sym, ap, ◌∙◌, min, Bool, false, ◌&&◌, Option, some, List, [], ◌∷◌, ◌++◌,
  arith, ◌==◌, sum_by, sum_by-append, if◌then◌else◌, ok, Bool-cases, inl, inr, >>=-eq-ok,
  ok-injective,
}
use e_commerce_backend.Common.Int.{abs, clip}
use e_commerce_backend.Database.{Database, Movement, change_stock}
use e_commerce_backend.Order.Movements.Conservation.{change_stock-eq}
use e_commerce_backend.Refund.Restock.{
  is_refund_of, Caps, cap_at, set_cap, restore, allowance, is_skipped, restock_movement,
  restock_row, restock_all,
}

-- The units of a variant that a refund has brought back.
abbrev pub restored : ℕ → ℕ → List Movement → ℕ
restored v refund_id = sum_by (λ (m : Movement).
    if is_refund_of refund_id m && m.variant_id == v then clip m.quantity_change else 0)

cap_at-set_cap :
    (v w n : ℕ) (caps : Caps) → cap_at v (set_cap w n caps) ≡ (if w == v then n else cap_at v caps)
cap_at-set_cap v w n [] = ground arith
cap_at-set_cap v w n ((u, m) ∷ rest) = ground (arith, cap_at-set_cap v w n rest)

restored-row :
    (actor : Option ℕ) (k units : ℕ) (m : Movement) (available v : ℕ) (ms : List Movement)
    → restored v k (ms ++ (restock_movement actor k units m available ∷ []))
      ≡ restored v k ms + (if m.variant_id == v then units else 0)
restored-row actor k units m available v ms =
    let one : restored v k (restock_movement actor k units m available ∷ [])
        ≡ (if m.variant_id == v then units else 0) =
      ground arith in
    omega (
      arith,
      one,
      sum_by-append
          (λ (x : Movement).
            if is_refund_of k x && x.variant_id == v then clip x.quantity_change else 0)
          ms (restock_movement actor k units m available ∷ []),
    )

-- A round takes what it brings back from the cap of its variant.
restock_row-restored :
    (actor : Option ℕ) (k : ℕ) (shipped : Bool) (units : ℕ) (m : Movement) (v : ℕ) (db : Database)
    {after : Database}
    → restock_row actor k shipped units m db ≡ ok after
    → restored v k after.movements
      ≡ restored v k db.movements + (if m.variant_id == v then units else 0)
unfolding restock_row
restock_row-restored actor k shipped units m v db {after} e =
    let ((s, mid), c, q) = >>=-eq-ok (change_stock m.inventory_id (restore shipped units) db) _ e in
    let kept = ap (λ (x : Database). x.movements) (change_stock-eq m.inventory_id _ db c).1 in
    ap (restored v k) (sym (ap (λ (x : Database). x.movements) (ok-injective q)))
    ∙ restored-row actor k units m s.available v mid.movements
    ∙ ap (λ ms. restored v k ms + (if m.variant_id == v then units else 0)) kept

allowance-some :
    (caps : Caps) (m : Movement)
    → is_skipped (some caps) m ≡ false
    → allowance (some caps) m ≡ (
      min (abs m.quantity_change) (cap_at m.variant_id caps),
      some (
          set_cap m.variant_id
            (cap_at m.variant_id caps - min (abs m.quantity_change) (cap_at m.variant_id caps))
            caps),
    )
unfolding allowance
allowance-some caps m h = rw h refl

pub restock_all-restored :
    (actor : Option ℕ) (k : ℕ) (shipped : Bool) (ms : List Movement) (v : ℕ) (caps : Caps)
    (db : Database) {q : Option Caps} {after : Database}
    → restock_all actor k shipped (some caps) ms db ≡ ok (q, after)
    → (left : Caps) × (q ≡ some left)
      × (restored v k after.movements + cap_at v left ≡ restored v k db.movements + cap_at v caps)
unfolding restock_all
restock_all-restored actor k shipped [] v caps db {q} {after} e =
    let same = ok-injective e in
    (
      caps,
      sym (ap (λ (x : Option Caps × Database). x.0) same),
      ap (λ (x : Option Caps × Database). restored v k x.1.movements + cap_at v caps) (sym same),
    )
restock_all-restored actor k shipped (m ∷ ms) v caps db e =
    elim (Bool-cases (is_skipped (some caps) m)) [
      | inl skip ↦ restock_all-restored actor k shipped ms v caps db (rw skip at e)
      | inr go ↦
          let units = min (abs m.quantity_change) (cap_at m.variant_id caps) in
          let rest = set_cap m.variant_id (cap_at m.variant_id caps - units) caps in
          let (mid, a, b) =
            >>=-eq-ok (restock_row actor k shipped units m db) _
              (rw (allowance-some caps m go) at (rw go at e)) in
          let (left, c, d) = restock_all-restored actor k shipped ms v rest mid b in
          let row = restock_row-restored actor k shipped units m v db a in
          let cap = cap_at-set_cap v m.variant_id (cap_at m.variant_id caps - units) caps in
          (left, c, ground (arith, d, row, cap))
    ]
