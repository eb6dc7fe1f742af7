-- ===== src/Placement/Pricing/Shares.antt =====
-- How a store's discount is spread over its lines, and what is left to tax.
use e_commerce_backend.Common.{
  ℕ, ◌+◌, ◌*◌, ◌≡◌, refl, ap, ◌∙◌, sym, List, [], ◌∷◌, arith, ltb, sum_by, if◌then◌else◌, ok,
  >>=-eq-ok, ok-injective, subst, length, suc,
}
use e_commerce_backend.Common.Int.{ℤ, pos, negsuc, clip, ◌+ℤ◌, ◌-ℤ◌}
use e_commerce_backend.Coupon.Discount.{round_ℤ}
use e_commerce_backend.Tax.{TaxKind, split_tax}
use e_commerce_backend.Placement.Pricing.{
  PlannedItem, SellerPlan, LineMath, SellerAmounts, gross_of, gross_total, times, line_discounts,
  taxable_after, line_maths, split_shipping, amounts_of, price_seller, principal_rate,
}

abbrev pub total_ℤ : List ℤ → ℤ
total_ℤ [] = pos 0
total_ℤ (x ∷ xs) = x +ℤ total_ℤ xs

plus_zero : (a : ℤ) → a +ℤ pos 0 ≡ a
unfolding ◌+ℤ◌
plus_zero (pos n) = ground arith
plus_zero (negsuc n) = ground arith

share_and_rest : (d a x : ℤ) → x +ℤ (d -ℤ (a +ℤ x)) ≡ d -ℤ a
unfolding ◌+ℤ◌ ◌-ℤ◌
share_and_rest d a x = ground arith

line_discounts-sum :
    (discount : ℤ) (subtotal : ℕ) (allocated : ℤ) (it : PlannedItem) (items : List PlannedItem)
    → total_ℤ (line_discounts discount subtotal allocated (it ∷ items)) ≡ discount -ℤ allocated
unfolding line_discounts
line_discounts-sum d t a it [] = plus_zero (d -ℤ a)
line_discounts-sum d t a it (next ∷ rest) =
    let share = if ltb 0 t then round_ℤ (times d (gross_of it)) t else pos 0 in
    ap (λ z. share +ℤ z) (line_discounts-sum d t (a +ℤ share) next rest) ∙ share_and_rest d a share

-- What the lines' discounts take beyond the price of their lines: `Math.max` drops it.
abbrev pub lost : List LineMath → ℕ
lost = sum_by (λ (m : LineMath). clip (m.line_discount -ℤ pos m.line_subtotal))

abbrev pub taxable_total : List LineMath → ℕ
taxable_total = sum_by (λ (m : LineMath). m.line_taxable_after)

abbrev pub discount_total : List LineMath → ℤ
discount_total [] = pos 0
discount_total (m ∷ ms) = m.line_discount +ℤ discount_total ms

one_line :
    (g : ℕ) (off : ℤ) (t l g' : ℕ) (d : ℤ)
    → pos t +ℤ d ≡ pos (g' + l)
    → pos (clip (pos g -ℤ off) + t) +ℤ (off +ℤ d) ≡ pos (g + g' + (clip (off -ℤ pos g) + l))
unfolding ◌+ℤ◌ ◌-ℤ◌
one_line g off t l g' d h = ground arith

discount_total-ok :
    (kind : TaxKind) (items : List PlannedItem) (offs : List ℤ) {ms : List LineMath}
    → length offs ≡ length items
    → line_maths kind items offs ≡ ok ms
    → discount_total ms ≡ total_ℤ offs
unfolding line_maths
discount_total-ok kind [] [] same e = ap discount_total (sym (ok-injective e))
discount_total-ok kind [] (off ∷ offs) same e = ground arith
discount_total-ok kind (it ∷ items) [] same e = ground arith
discount_total-ok kind (it ∷ items) (off ∷ offs) {ms} same e =
    let (b, p, e1) =
      >>=-eq-ok (split_tax (pos (100 * taxable_after it off)) (pos it.tax_rate) kind (pos 0)) _ e in
    let (rest, q, e2) = >>=-eq-ok (line_maths kind items offs) _ e1 in
    ap discount_total (sym (ok-injective e2))
    ∙ ap (λ z. off +ℤ z) (discount_total-ok kind items offs (omega (arith, same)) q)

line_maths-taxable :
    (kind : TaxKind) (items : List PlannedItem) (offs : List ℤ) {ms : List LineMath}
    → length offs ≡ length items
    → line_maths kind items offs ≡ ok ms
    → pos (taxable_total ms) +ℤ discount_total ms ≡ pos (gross_total items + lost ms)
unfolding line_maths
line_maths-taxable kind [] [] same e =
    subst
      (λ (x : List LineMath).
        pos (taxable_total x) +ℤ discount_total x ≡ pos (gross_total [] + lost x))
      (ok-injective e) (plus_zero (pos 0))
line_maths-taxable kind [] (off ∷ offs) same e = ground arith
line_maths-taxable kind (it ∷ items) [] same e = ground arith
line_maths-taxable kind (it ∷ items) (off ∷ offs) {ms} same e =
    let (b, p, e1) =
      >>=-eq-ok (split_tax (pos (100 * taxable_after it off)) (pos it.tax_rate) kind (pos 0)) _ e in
    let (rest, q, e2) = >>=-eq-ok (line_maths kind items offs) _ e1 in
    subst
      (λ (x : List LineMath).
        pos (taxable_total x) +ℤ discount_total x ≡ pos (gross_total (it ∷ items) + lost x))
      (ok-injective e2)
      (one_line (gross_of it) off (taxable_total rest) (lost rest) (gross_total items)
        (discount_total rest) (line_maths-taxable kind items offs (omega (arith, same)) q))

line_discounts-length :
    (discount : ℤ) (subtotal : ℕ) (allocated : ℤ) (items : List PlannedItem)
    → length (line_discounts discount subtotal allocated items) ≡ length items
unfolding line_discounts
line_discounts-length d t a [] = refl
line_discounts-length d t a (it ∷ []) = refl
line_discounts-length d t a (it ∷ next ∷ rest) =
    let share = if ltb 0 t then round_ℤ (times d (gross_of it)) t else pos 0 in
    ap suc (line_discounts-length d t (a +ℤ share) (next ∷ rest))

-- The steps of a round that succeeds.
pub record Priced (so : SellerPlan) (a : SellerAmounts) : Type 0 where
  pub taxable : ℕ
  pub tax : ℕ
  pub priced :
      line_maths so.tax_kind so.items
        (line_discounts so.store_discount (gross_total so.items) (pos 0) so.items)
      ≡ ok a.lines
  pub shipped :
      split_shipping so.tax_kind so.shipping_charge (principal_rate (negsuc 0) 0 a.lines)
      ≡ ok (taxable, tax)
  pub filled : a ≡ amounts_of so a.lines (taxable, tax)

pub price_seller-Priced :
    (so : SellerPlan) {a : SellerAmounts} → price_seller so ≡ ok a → Priced so a
unfolding price_seller amounts_of
price_seller-Priced so {a} e =
    let (ms, p, e1) = >>=-eq-ok (line_maths so.tax_kind so.items _) _ e in
    let ((t, x), q, e2) =
      >>=-eq-ok (split_shipping so.tax_kind so.shipping_charge (principal_rate (negsuc 0) 0 ms)) _
        e1 in
    subst (Priced so) (ok-injective e2)
      (record { taxable = t; tax = x; priced = p; shipped = q; filled = refl })

minus_zero : (d : ℤ) → d -ℤ pos 0 ≡ d
unfolding ◌-ℤ◌
minus_zero (pos n) = ground arith
minus_zero (negsuc n) = ground arith

-- In a sub-order that has been priced, the discounts of the lines add up to the store's discount. The
-- taxable values of the lines and that discount add up to the sub-order's subtotal and to what the
-- lines' discounts take beyond the price of their lines.
pub price_seller-ties_out :
    (so : SellerPlan) (it : PlannedItem) (items : List PlannedItem) {a : SellerAmounts}
    → so.items ≡ it ∷ items
    → price_seller so ≡ ok a
    → (discount_total a.lines ≡ so.store_discount)
      × (pos (taxable_total a.lines) +ℤ so.store_discount ≡ pos (a.subtotal + lost a.lines))
unfolding amounts_of
price_seller-ties_out so it items {a} some_items e =
    let done = price_seller-Priced so e in
    let n = line_discounts-length so.store_discount (gross_total so.items) (pos 0) so.items in
    let whole =
      line_discounts-sum so.store_discount (gross_total so.items) (pos 0) it items
      ∙ minus_zero so.store_discount in
    let d : discount_total a.lines ≡ so.store_discount =
      discount_total-ok so.tax_kind so.items _ n done.priced
      ∙ ap (λ l. total_ℤ (line_discounts so.store_discount (gross_total so.items) (pos 0) l))
          some_items
      ∙ whole in
    let s : a.subtotal ≡ gross_total so.items =
      ap (λ (x : SellerAmounts). x.subtotal) done.filled in
    (d, rw (← d, s) (line_maths-taxable so.tax_kind so.items _ n done.priced))
