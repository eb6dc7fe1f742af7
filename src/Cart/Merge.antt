-- ===== src/Cart/Merge.antt =====
-- What the merge at login makes of two carts.
use e_commerce_backend.Common.{
  ℕ, ◌+◌, ◌≡◌, refl, ◌∙◌, subst, min, false, none, some, List, [], ◌∷◌, ◌==◌, arith, if◌then◌else◌,
  Bool-cases, Option-cases, inl, inr,
}
use e_commerce_backend.Cart.{CartItem, find_item, merge_line, merge_lines}
use e_commerce_backend.Cart.Lines.{
  units, IsLine, IsKeyed, IsValidCart, units-set_item, units-append, find_item-append_other,
  find_item-set_other, units-bounded, set_item-IsValidCart, append-IsValidCart,
}

-- During the loop, the lines for the variants that are still to come are as they were read.
abbrev pub IsUntouched : List CartItem → List CartItem → List CartItem → Type 0
IsUntouched existing [] items = Unit
IsUntouched existing (g ∷ gs) items =
    (find_item g.variant_id items ≡ find_item g.variant_id existing) × IsUntouched existing gs items

units-merge_line :
    (w : ℕ) (existing : List CartItem) (g : CartItem) (items : List CartItem)
    → find_item g.variant_id items ≡ find_item g.variant_id existing
    → units w (merge_line existing g items) ≡ (
        if w == g.variant_id
        then min 99 (units g.variant_id existing + g.quantity)
        else units w items)
unfolding merge_line
units-merge_line w existing g items same = elim (Option-cases (find_item g.variant_id existing)) [
  | inl new ↦ rw (new, merge_line) (units-append w items _ (same ∙ new) ∙ ground (arith, new))
  | inr (x, found) ↦
      rw (found, merge_line)
        (units-set_item g.variant_id (min 99 (x.quantity + g.quantity)) w items
          ∙ ground (arith, same ∙ found))
]

merge_line-find :
    (w : ℕ) (existing : List CartItem) (g : CartItem) (items : List CartItem)
    → w == g.variant_id ≡ false
    → find_item w (merge_line existing g items) ≡ find_item w items
unfolding merge_line
merge_line-find w existing g items other = elim (Option-cases (find_item g.variant_id existing)) [
  | inl new ↦ rw (new, merge_line) (find_item-append_other w items _ other)
  | inr (x, found) ↦ rw (found, merge_line) (find_item-set_other g.variant_id _ w items other)
]

merge_line-IsValidCart :
    (existing : List CartItem) (g : CartItem) (items : List CartItem)
    → find_item g.variant_id items ≡ find_item g.variant_id existing
    → IsLine g
    → IsValidCart items
    → IsValidCart (merge_line existing g items)
unfolding merge_line
merge_line-IsValidCart existing g items same (a, b) h =
    elim (Option-cases (find_item g.variant_id existing)) [
      | inl new ↦
          rw (new, merge_line)
            (append-IsValidCart items _ (same ∙ new) (ground arith, ground arith) h)
      | inr (x, found) ↦
          rw (found, merge_line)
            (set_item-IsValidCart g.variant_id _ items (ground arith) (ground arith) h)
    ]

IsUntouched-merge_line :
    (existing : List CartItem) (g : CartItem) (gs items : List CartItem)
    → find_item g.variant_id gs ≡ none
    → IsUntouched existing gs items
    → IsUntouched existing gs (merge_line existing g items)
IsUntouched-merge_line existing g [] items only h = tt
IsUntouched-merge_line existing g (x ∷ gs) items only (a, h) = (
  merge_line-find x.variant_id existing g items (ground arith) ∙ a,
  IsUntouched-merge_line existing g gs items (ground arith) h,
)

units-merge_lines :
    (w : ℕ) (existing gs items : List CartItem)
    → IsKeyed gs
    → IsUntouched existing gs items
    → units w (merge_lines existing gs items) ≡ elim (find_item w gs) [
      | none ↦ units w items
      | some g ↦ min 99 (units w existing + g.quantity)
    ]
unfolding merge_lines
units-merge_lines w existing [] items k u = refl
units-merge_lines w existing (g ∷ gs) items (only, k) (a, u) =
    let ih =
      units-merge_lines w existing gs (merge_line existing g items) k
        (IsUntouched-merge_line existing g gs items only u) in
    let one = units-merge_line w existing g items a in
    elim (Bool-cases (g.variant_id == w)) [
      | inl e ↦
          let q : g.variant_id ≡ w = ground arith in
          let gone : find_item w gs ≡ none = subst (λ x. find_item x gs ≡ none) q only in
          ih ∙ rw (gone, e) (one ∙ ground (arith, q))
      | inr e ↦ ih ∙ rw e (ground (arith, one, e))
    ]

merge_lines-IsValidCart :
    (existing gs items : List CartItem)
    → IsValidCart gs
    → IsUntouched existing gs items
    → IsValidCart items
    → IsValidCart (merge_lines existing gs items)
unfolding merge_lines
merge_lines-IsValidCart existing [] items v u h = h
merge_lines-IsValidCart existing (g ∷ gs) items v (a, u) h =
    merge_lines-IsValidCart existing gs (merge_line existing g items)
      (record { lines = v.lines.1; keyed = v.keyed.1 })
      (IsUntouched-merge_line existing g gs items v.keyed.0 u)
      (merge_line-IsValidCart existing g items a v.lines.0 h)

IsUntouched-at_start : (existing gs : List CartItem) → IsUntouched existing gs existing
IsUntouched-at_start existing [] = tt
IsUntouched-at_start existing (g ∷ gs) = (refl, IsUntouched-at_start existing gs)

-- Merging a valid guest cart into a valid customer cart gives a valid cart, that holds of every
-- variant the units of both carts together, up to 99.
pub merge_lines-adds :
    (existing gs : List CartItem)
    → IsValidCart gs
    → IsValidCart existing
    → IsValidCart (merge_lines existing gs existing)
      × ((w : ℕ)
          → units w (merge_lines existing gs existing) ≡ min 99 (units w existing + units w gs))
merge_lines-adds existing gs v h = (
  merge_lines-IsValidCart existing gs existing v (IsUntouched-at_start existing gs) h,
  λ w.
      units-merge_lines w existing gs existing v.keyed (IsUntouched-at_start existing gs) ∙ total w,
)
  where
    total :
        (w : ℕ)
        → elim (find_item w gs) [
          | none ↦ units w existing
          | some g ↦ min 99 (units w existing + g.quantity)
        ]
          ≡ min 99 (units w existing + units w gs)
    total w = ground (arith, units-bounded w existing h.lines)
