-- ===== src/Coupon/Allocation.antt =====
-- The shares of the stores add up to the discount.
use e_commerce_backend.Common.{
  ℕ, ◌+◌, ◌*◌, ◌≡◌, refl, ap, ◌∙◌, List, [], ◌∷◌, arith, ◌==◌, sum_by, Bool-cases, inl, inr,
}
use e_commerce_backend.Common.Int.{ℤ, pos, ◌+ℤ◌, ◌-ℤ◌}
use e_commerce_backend.Common.Rounding.{round_half_up}
use e_commerce_backend.Coupon.Discount.{
  CartLine, subtotal_of, add_subtotal, store_subtotals, allocate,
}

abbrev pub sum_ℤ : List (ℕ × ℤ) → ℤ
sum_ℤ [] = pos 0
sum_ℤ ((s, n) ∷ rest) = n +ℤ sum_ℤ rest

minus_plus : (d a x : ℕ) → pos x +ℤ (pos d -ℤ pos (a + x)) ≡ pos d -ℤ pos a
unfolding ◌+ℤ◌ ◌-ℤ◌
minus_plus d a x = ground arith

plus_zero : (d a : ℕ) → (pos d -ℤ pos a) +ℤ pos 0 ≡ pos d -ℤ pos a
unfolding ◌+ℤ◌ ◌-ℤ◌
plus_zero d a = ground arith

pub allocate-sum :
    (discount subtotal allocated : ℕ) (s n : ℕ) (rest : List (ℕ × ℕ))
    → sum_ℤ (allocate discount subtotal allocated ((s, n) ∷ rest)) ≡ pos discount -ℤ pos allocated
unfolding allocate
allocate-sum d t a s n [] = plus_zero d a
allocate-sum d t a s n ((s', n') ∷ rest) =
    let x = round_half_up (d * n) t in
    ap (λ z. pos x +ℤ z) (allocate-sum d t (a + x) s' n' rest) ∙ minus_plus d a x

add_subtotal-cons :
    (store amount : ℕ) (acc : List (ℕ × ℕ))
    → (s n : ℕ) × (rest : List (ℕ × ℕ)) × (add_subtotal store amount acc ≡ (s, n) ∷ rest)
unfolding add_subtotal
add_subtotal-cons store amount [] = (store, amount, [], refl)
add_subtotal-cons store amount ((s, n) ∷ rest) = elim (Bool-cases (s == store)) [
  | inl e ↦ (s, n + amount, rest, rw e)
  | inr e ↦ (s, n, add_subtotal store amount rest, rw e)
]

store_subtotals-cons :
    (lines : List CartLine) (s n : ℕ) (acc : List (ℕ × ℕ))
    → (s' n' : ℕ) × (rest : List (ℕ × ℕ)) × (store_subtotals ((s, n) ∷ acc) lines ≡ (s', n') ∷ rest)
unfolding store_subtotals
store_subtotals-cons [] s n acc = (s, n, acc, refl)
store_subtotals-cons (l ∷ lines) s n acc =
    let (s', n', rest, e) = add_subtotal-cons l.store_id l.line_total ((s, n) ∷ acc) in
    let (s'', n'', rest', e') = store_subtotals-cons lines s' n' rest in
    (s'', n'', rest', ap (λ a. store_subtotals a lines) e ∙ e')

-- The subtotals of a cart's stores add up to the subtotal of the cart.
add_subtotal-total :
    (store amount : ℕ) (acc : List (ℕ × ℕ))
    → sum_by (λ (p : ℕ × ℕ). p.1) (add_subtotal store amount acc)
      ≡ sum_by (λ (p : ℕ × ℕ). p.1) acc + amount
unfolding add_subtotal
add_subtotal-total store amount [] = omega arith
add_subtotal-total store amount ((s, n) ∷ rest) =
    ground (arith, add_subtotal-total store amount rest)

pub store_subtotals-total :
    (acc : List (ℕ × ℕ)) (lines : List CartLine)
    → sum_by (λ (p : ℕ × ℕ). p.1) (store_subtotals acc lines)
      ≡ sum_by (λ (p : ℕ × ℕ). p.1) acc + subtotal_of lines
unfolding store_subtotals
store_subtotals-total acc [] = omega arith
store_subtotals-total acc (l ∷ lines) = omega (
  arith,
  store_subtotals-total (add_subtotal l.store_id l.line_total acc) lines,
  add_subtotal-total l.store_id l.line_total acc,
)

minus_zero : (d : ℕ) → pos d -ℤ pos 0 ≡ pos d
unfolding ◌-ℤ◌
minus_zero d = ground arith

-- The shares of a cart that is not empty add up to the discount.
pub shares-sum :
    (discount subtotal : ℕ) (l : CartLine) (lines : List CartLine)
    → sum_ℤ (allocate discount subtotal 0 (store_subtotals [] (l ∷ lines))) ≡ pos discount
unfolding store_subtotals add_subtotal
shares-sum discount subtotal l lines =
    let (s, n, rest, e) = store_subtotals-cons lines l.store_id l.line_total [] in
    ap (λ a. sum_ℤ (allocate discount subtotal 0 a)) e
    ∙ allocate-sum discount subtotal 0 s n rest
    ∙ minus_zero discount
