-- ===== src/Returns/Lines.antt =====
-- The lines of a return request: they are summed for every item before they are compared with the limit.
use e_commerce_backend.Common.{
  ℕ, ◌+◌, ◌≤◌, ◌≡◌, refl, ap, ◌∙◌, subst, Bool, true, false, ◌||◌, some, List, [], ◌∷◌, arith, ◌==◌,
  any_of, all_of, if◌then◌else◌, ok, Option-cases, Bool-cases, inl, inr, ok-injective,
}
use e_commerce_backend.Database.{OrderItem}
use e_commerce_backend.Finance.{ReturnItem, ReturnRequest}
use e_commerce_backend.Returns.{item_in, add_line, collect_lines, quantity_in, returned_qty, fits}

abbrev pub has_line : ℕ → List ReturnItem → Bool
has_line k = any_of (λ (i : ReturnItem). i.order_item_id == k)

-- Every item has one line.
abbrev pub AreDistinct : List ReturnItem → Type 0
AreDistinct [] = Unit
AreDistinct (l ∷ ls) = (has_line l.order_item_id ls ≡ false) × AreDistinct ls

has_line-add_line :
    (k : ℕ) (line : ReturnItem) (ls : List ReturnItem)
    → has_line k (add_line line ls) ≡ (line.order_item_id == k || has_line k ls)
has_line-add_line k line [] = ground arith
has_line-add_line k line (l ∷ ls) = ground (arith, has_line-add_line k line ls)

add_line-AreDistinct :
    (line : ReturnItem) (ls : List ReturnItem) → AreDistinct ls → AreDistinct (add_line line ls)
add_line-AreDistinct line [] d = (refl, tt)
add_line-AreDistinct line (l ∷ ls) (n, d) =
    elim (Bool-cases (l.order_item_id == line.order_item_id)) [
      | inl same ↦ rw same (n, d)
      | inr other ↦ rw other (
        ground (arith, has_line-add_line l.order_item_id line ls),
        add_line-AreDistinct line ls d,
      )
    ]

-- The lines of an item add up in its one line.
quantity_in-add_line :
    (k : ℕ) (line : ReturnItem) (ls : List ReturnItem)
    → quantity_in k (add_line line ls)
      ≡ quantity_in k ls + (if line.order_item_id == k then line.quantity else 0)
quantity_in-add_line k line [] = ground arith
quantity_in-add_line k line (l ∷ ls) = ground (arith, quantity_in-add_line k line ls)

pub collect_lines-AreDistinct :
    (items : List OrderItem) (lines collected : List ReturnItem) {summed : List ReturnItem}
    → AreDistinct collected
    → collect_lines items lines collected ≡ ok summed
    → AreDistinct summed
unfolding collect_lines
collect_lines-AreDistinct items [] collected d e = subst AreDistinct (ok-injective e) d
collect_lines-AreDistinct items (line ∷ lines) collected {summed} d e =
    elim (Option-cases (item_in line.order_item_id items)) [
      | inl gone ↦ let no = rw (gone, collect_lines) at e in cc
      | inr (i, found) ↦
          collect_lines-AreDistinct items lines (add_line line collected)
            (add_line-AreDistinct line collected d) (rw (found, collect_lines) at e)
    ]

-- Nothing that the customer asks to return is lost or counted twice.
pub collect_lines-quantity_in :
    (items : List OrderItem) (k : ℕ) (lines collected : List ReturnItem) {summed : List ReturnItem}
    → collect_lines items lines collected ≡ ok summed
    → quantity_in k summed ≡ quantity_in k collected + quantity_in k lines
unfolding collect_lines
collect_lines-quantity_in items k [] collected e =
    let same = ap (quantity_in k) (ok-injective e) in omega (arith, same)
collect_lines-quantity_in items k (line ∷ lines) collected e =
    elim (Option-cases (item_in line.order_item_id items)) [
      | inl gone ↦ let no = rw (gone, collect_lines) at e in cc
      | inr (i, found) ↦
          let rest =
            collect_lines-quantity_in items k lines (add_line line collected)
              (rw (found, collect_lines) at e) in
          omega (arith, rest, quantity_in-add_line k line collected)
    ]

absent-quantity_in : (k : ℕ) (ls : List ReturnItem) → has_line k ls ≡ false → quantity_in k ls ≡ 0
absent-quantity_in k [] h = refl
absent-quantity_in k (l ∷ ls) h = ground (arith, absent-quantity_in k ls)

-- Lines that are distinct and fit, each by itself, fit together.
pub fits-quantity_in :
    (so k : ℕ) (items : List OrderItem) (rs : List ReturnRequest) (ls : List ReturnItem)
    (oi : OrderItem)
    → AreDistinct ls
    → all_of (fits so items rs) ls ≡ true
    → item_in k items ≡ some oi
    → returned_qty so k rs ≤ oi.quantity
    → returned_qty so k rs + quantity_in k ls ≤ oi.quantity
fits-quantity_in so k items rs [] oi d h found w = omega (arith, w)
fits-quantity_in so k items rs (l ∷ ls) oi (n, d) h found w =
    elim (Bool-cases (l.order_item_id == k)) [
      | inl own ↦
          let same : l.order_item_id ≡ k = ground arith in
          let one : fits so items rs l ≡ true = ground arith in
          let room : returned_qty so k rs + l.quantity ≤ oi.quantity =
            ground (arith, rw (ap (λ j. item_in j items) same ∙ found, fits) at one, same) in
          let rest = absent-quantity_in k ls (subst (λ j. has_line j ls ≡ false) same n) in
          rw own (omega (arith, room, rest))
      | inr other ↦
          let rest = fits-quantity_in so k items rs ls oi d (ground arith) found w in
          rw other (omega (arith, rest))
    ]
