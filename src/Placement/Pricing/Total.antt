-- ===== src/Placement/Pricing/Total.antt =====
-- What the customer pays against what the sellers and the platform receive.
use e_commerce_backend.Common.{
  ℕ, ◌+◌, ◌*◌, ◌≤◌, ◌≡◌, refl, ap, sym, List, [], ◌∷◌, arith, All, sum_by, length, ok, >>=-eq-ok,
  ok-injective, subst,
}
use e_commerce_backend.Common.Int.{
  ℤ, pos, negsuc, pos_part, neg_part, ◌+ℤ◌, ◌-ℤ◌, +ℤ_parts, -ℤ_parts,
}
use e_commerce_backend.Coupon.Discount.{round_ℤ}
use e_commerce_backend.Placement.Pricing.{
  PlannedItem, SellerPlan, LineMath, SellerAmounts, amounts_of, price_seller, price_sellers,
  sum_discounts, total_amount,
}
use e_commerce_backend.Placement.Pricing.Shares.{
  lost, taxable_total, price_seller-Priced, price_seller-ties_out,
}
use e_commerce_backend.Placement.Pricing.Shipping.{
  IsSlab, line_maths-IsSlab, principal_rate-IsSlab, split_shipping-near,
}
use e_commerce_backend.Placement.Pricing.Tallies.{
  round_ℤ-near, received, Tallies, TalliesAll, tally_none, tally_one, paid_near, rounded_tax,
}

-- `a` and `b` differ by at most `e` hundredths.
abbrev pub IsWithin : ℕ → ℤ → ℤ → Type 0
IsWithin e a b =
    (100 * (pos_part a + neg_part b) ≤ 100 * (pos_part b + neg_part a) + e)
    × (100 * (pos_part b + neg_part a) ≤ 100 * (pos_part a + neg_part b) + e)

-- A sub-order that sells something, at rates of the GST slabs.
abbrev pub IsSale : SellerPlan → Type 0
IsSale so =
    (it : PlannedItem) × (items : List PlannedItem) × (so.items ≡ it ∷ items)
    × All (λ (i : PlannedItem). IsSlab i.tax_rate) so.items

from_parts : (t n : ℕ) (d : ℤ) → pos t +ℤ d ≡ pos n → t + pos_part d ≡ n + neg_part d
from_parts t n d h =
    let p = +ℤ_parts (pos t) d in
    let x : pos_part (pos t +ℤ d) ≡ n = ap pos_part h in
    let y : neg_part (pos t +ℤ d) ≡ 0 = ap neg_part h in omega (arith, p, x, y)

price_seller-Tallies :
    (so : SellerPlan) {a : SellerAmounts} → IsSale so → price_seller so ≡ ok a → Tallies a
unfolding amounts_of
price_seller-Tallies so {a} (it, items, some_items, slabs) e =
    let done = price_seller-Priced so e in
    let rate =
      principal_rate-IsSlab a.lines (negsuc 0) 0 (0, refl, omega arith)
        (line_maths-IsSlab so.tax_kind so.items _ slabs done.priced) in
    let (lo, hi) = split_shipping-near so.tax_kind so.shipping_charge _ rate done.shipped in
    let tax = sum_by (λ (m : LineMath). m.breakup.total_tax) a.lines in
    let (paid_lo, paid_hi) =
      paid_near (taxable_total a.lines) tax _ done.taxable done.tax so.shipping_charge lo hi in
    let (tax_lo, tax_hi) = rounded_tax (tax + done.tax) in
    let subtotal : a.subtotal ≡ _ = ap (λ (x : SellerAmounts). x.subtotal) done.filled in
    let ties = from_parts _ _ _ (price_seller-ties_out so it items some_items e).1 in
    subst Tallies (sym done.filled) (record {
      taxable = taxable_total a.lines;
      tax = tax;
      paid_low = paid_lo;
      paid_high = paid_hi;
      tax_low = tax_lo;
      tax_high = tax_hi;
      priced = omega (arith, ties, subtotal);
    })

price_sellers-TalliesAll :
    (sos : List SellerPlan) {amounts : List SellerAmounts}
    → All IsSale sos
    → price_sellers sos ≡ ok amounts
    → TalliesAll amounts
unfolding price_sellers
price_sellers-TalliesAll [] h e = subst TalliesAll (ok-injective e) tally_none
price_sellers-TalliesAll (so ∷ sos) (s, h) e =
    let (a, p, e1) = >>=-eq-ok (price_seller so) _ e in
    let (rest, q, e2) = >>=-eq-ok (price_sellers sos) _ e1 in
    subst TalliesAll (ok-injective e2)
      (tally_one a rest (price_seller-Tallies so s p) (price_sellers-TalliesAll sos h q))

total_amount-TalliesAll :
    (amounts : List SellerAmounts)
    → TalliesAll amounts
    → IsWithin
        (102 * length amounts + 50)
        (total_amount amounts +ℤ pos (sum_by (λ (a : SellerAmounts). lost a.lines) amounts))
        (received amounts)
unfolding total_amount
total_amount-TalliesAll amounts t =
    let tax = sum_by (λ (a : SellerAmounts). a.tax_amount) amounts in
    let shipping_tax = sum_by (λ (a : SellerAmounts). a.shipping_tax) amounts in
    let subtotal = sum_by (λ (a : SellerAmounts). a.subtotal) amounts in
    let merchandise_tax = round_ℤ (pos (100 * tax) -ℤ pos shipping_tax) 100 in
    let (near, far) = round_ℤ-near (pos (100 * tax) -ℤ pos shipping_tax) in
    let a = -ℤ_parts (pos (100 * tax)) (pos shipping_tax) in
    let b = +ℤ_parts (pos subtotal) merchandise_tax in
    let c = -ℤ_parts (pos subtotal +ℤ merchandise_tax) (sum_discounts amounts) in
    let d =
      +ℤ_parts (pos subtotal +ℤ merchandise_tax -ℤ sum_discounts amounts)
        (pos (sum_by (λ (a : SellerAmounts). a.shipping_amount) amounts)) in
    let f =
      +ℤ_parts (total_amount amounts)
        (pos (sum_by (λ (a : SellerAmounts). lost a.lines) amounts)) in
    (
      omega (
        arith, near, far, a, b, c, d, f, t.paid_low, t.paid_high, t.tax_low, t.tax_high, t.priced,
      ),
      omega (
        arith, near, far, a, b, c, d, f, t.paid_low, t.paid_high, t.tax_low, t.tax_high, t.priced,
      ),
    )

-- What the customer is charged for an order agrees with what its sellers are paid and the platform
-- keeps as commission, where every sub-order sells something and every GST rate is at most 100
-- percent and halves exactly: with what the lines' discounts take beyond the price of their lines added
-- to the total, the two differ by at most half a paisa and 1.02 paise for each sub-order.
pub total_amount-received :
    (sos : List SellerPlan) {amounts : List SellerAmounts}
    → All IsSale sos
    → price_sellers sos ≡ ok amounts
    → IsWithin
        (102 * length amounts + 50)
        (total_amount amounts +ℤ pos (sum_by (λ (a : SellerAmounts). lost a.lines) amounts))
        (received amounts)
total_amount-received sos {amounts} h e =
    total_amount-TalliesAll amounts (price_sellers-TalliesAll sos h e)
