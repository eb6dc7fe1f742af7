-- ===== src/Placement/Pricing.antt =====
-- The amounts of an order, by seller and in total (step 4 of `placeOrder` in
-- src/modules/ecommerce/order/order-placement.service.ts). Prices, discounts, commission and shipping
-- are counted in paise, GST in ten-thousandths of a rupee, as in Tax. The shipping charge is the
-- one that the courier or the store's rates gave; the discount of a store comes from the coupon.
pub mod Shares
pub mod Shipping
pub mod Tallies
pub mod Total
use e_commerce_backend.Common.{
  ℕ, suc, ◌+◌, ◌*◌, List, [], ◌∷◌, map, ltb, sum_by, if◌then◌else◌, Result, ok, err, ◌>>=◌,
}
use e_commerce_backend.Common.Int.{ℤ, pos, negsuc, ◌+ℤ◌, ◌-ℤ◌, clip, ltb_ℤ}
use e_commerce_backend.Common.Rounding.{round_half_up}
use e_commerce_backend.Coupon.Discount.{round_ℤ}
use e_commerce_backend.Tax.{TaxKind, TaxBreakup, split_tax, from_inclusive_mrp}

-- `PlannedItem`, as far as its price goes
pub record PlannedItem : Type 0 where
  pub unit_price : ℕ
  pub quantity : ℕ
  pub tax_rate : ℕ

-- A sub-order before step 4c. The commission rate is in hundredths of a percent.
pub record SellerPlan : Type 0 where
  pub tax_kind : TaxKind
  pub commission_rate : ℕ
  pub shipping_charge : ℕ
  pub store_discount : ℤ
  pub items : List PlannedItem

-- `LineMath`
pub record LineMath : Type 0 where
  pub line_subtotal : ℕ
  pub line_discount : ℤ
  pub line_taxable_after : ℕ
  pub tax_rate : ℕ
  pub breakup : TaxBreakup

-- The amounts that step 4c fills in.
pub record SellerAmounts : Type 0 where
  pub subtotal : ℕ
  pub tax_amount : ℕ
  pub discount_amount : ℤ
  pub commission_amount : ℕ
  pub payout_amount : ℤ
  pub shipping_amount : ℕ
  pub shipping_tax : ℕ
  pub lines : List LineMath

abbrev pub gross_of : PlannedItem → ℕ
gross_of it = it.unit_price * it.quantity

abbrev pub gross_total : List PlannedItem → ℕ
gross_total = sum_by gross_of

abbrev pub times : ℤ → ℕ → ℤ
times (pos a) b = pos (a * b)
times (negsuc a) b = pos 0 -ℤ pos (suc a * b)

-- The store's discount over its lines: the last line gets what the others leave.
unfoldable pub line_discounts : ℤ → ℕ → ℤ → List PlannedItem → List ℤ
line_discounts discount subtotal allocated [] = []
line_discounts discount subtotal allocated (it ∷ []) = (discount -ℤ allocated) ∷ []
line_discounts discount subtotal allocated (it ∷ next ∷ rest) =
    let share = if ltb 0 subtotal then round_ℤ (times discount (gross_of it)) subtotal else pos 0 in
    share ∷ line_discounts discount subtotal (allocated +ℤ share) (next ∷ rest)

-- `Math.max(0, m.lineTaxable - lineDiscountTaxable)`
abbrev pub taxable_after : PlannedItem → ℤ → ℕ
taxable_after it off = clip (pos (gross_of it) -ℤ off)

abbrev pub math_of : PlannedItem → ℤ → TaxBreakup → LineMath
math_of it off b = record {
  line_subtotal = gross_of it;
  line_discount = off;
  line_taxable_after = taxable_after it off;
  tax_rate = it.tax_rate;
  breakup = b;
}

unfoldable pub line_maths : TaxKind → List PlannedItem → List ℤ → Result (List LineMath)
line_maths kind [] offs = ok []
line_maths kind (it ∷ items) [] = ok []
line_maths kind (it ∷ items) (off ∷ offs) = do
  b ← split_tax (pos (100 * taxable_after it off)) (pos it.tax_rate) kind (pos 0)
  rest ← line_maths kind items offs
  ok (math_of it off b ∷ rest)

-- The rate of the line with the largest taxable value, the first of several.
unfoldable pub principal_rate : ℤ → ℕ → List LineMath → ℕ
principal_rate largest rate [] = rate
principal_rate largest rate (m ∷ ms) =
    let later = principal_rate largest rate ms in
    let replaced = principal_rate (pos m.line_taxable_after) m.tax_rate ms in
    if ltb_ℤ largest (pos m.line_taxable_after) then replaced else later

-- The taxable part of a shipping charge and its GST.
unfoldable pub split_shipping : TaxKind → ℕ → ℕ → Result (ℕ × ℕ)
split_shipping kind charge rate =
    if ltb 0 charge
    then (do
      taxable ← from_inclusive_mrp (pos (100 * charge)) rate 0
      b ← split_tax (pos taxable) (pos rate) kind (pos 0)
      ok (taxable, b.total_tax))
    else ok (0, 0)

-- What a sub-order amounts to, once its lines and its shipping are priced.
unfoldable pub amounts_of : SellerPlan → List LineMath → ℕ × ℕ → SellerAmounts
amounts_of so maths (shipping_taxable, shipping_tax) =
    let tax = sum_by (λ (m : LineMath). m.breakup.total_tax) maths in
    let taxable = sum_by (λ (m : LineMath). m.line_taxable_after) maths in
    let commission = round_half_up (taxable * so.commission_rate) 10000 in
    record {
      subtotal = gross_total so.items;
      tax_amount = round_half_up (tax + shipping_tax) 100;
      discount_amount = so.store_discount;
      commission_amount = commission;
      payout_amount =
          round_ℤ
            (pos (100 * taxable + tax)
              -ℤ pos (100 * commission)
              +ℤ pos (shipping_taxable + shipping_tax))
            100;
      shipping_amount = so.shipping_charge;
      shipping_tax = shipping_tax;
      lines = maths;
    }

-- One round of step 4c.
unfoldable pub price_seller : SellerPlan → Result SellerAmounts
unfolding line_discounts line_maths split_shipping amounts_of
price_seller so = do
  maths ←
      line_maths so.tax_kind so.items
        (line_discounts so.store_discount (gross_total so.items) (pos 0) so.items)
  shipping ← split_shipping so.tax_kind so.shipping_charge (principal_rate (negsuc 0) 0 maths)
  ok (amounts_of so maths shipping)

unfoldable pub price_sellers : List SellerPlan → Result (List SellerAmounts)
unfolding price_seller
price_sellers [] = ok []
price_sellers (so ∷ sos) = do a ← price_seller so; rest ← price_sellers sos; ok (a ∷ rest)

abbrev pub sum_discounts : List SellerAmounts → ℤ
sum_discounts [] = pos 0
sum_discounts (a ∷ rest) = a.discount_amount +ℤ sum_discounts rest

-- `merchandiseTax` and `totalAmount`
unfoldable pub total_amount : List SellerAmounts → ℤ
total_amount sellers =
    let tax = sum_by (λ (a : SellerAmounts). a.tax_amount) sellers in
    let shipping_tax = sum_by (λ (a : SellerAmounts). a.shipping_tax) sellers in
    let merchandise_tax = round_ℤ (pos (100 * tax) -ℤ pos shipping_tax) 100 in
    pos (sum_by (λ (a : SellerAmounts). a.subtotal) sellers)
    +ℤ merchandise_tax
    -ℤ sum_discounts sellers
    +ℤ pos (sum_by (λ (a : SellerAmounts). a.shipping_amount) sellers)
