-- ===== src/Tests/Prices.antt =====
-- The theorems on the amounts of an order, at an order of two sub-orders.
use e_commerce_backend.Common.{ℕ, ◌+◌, ◌≡◌, refl, List, [], ◌∷◌, arith, Result, ok, err, sum_by}
use e_commerce_backend.Common.Int.{pos, ◌+ℤ◌, ◌-ℤ◌}
use e_commerce_backend.Common.Rounding.{round_half_up}
use e_commerce_backend.Coupon.Discount.{round_ℤ}
use e_commerce_backend.Tax.{
  TaxKind, tax_on, intra_breakup, inter_breakup, split_tax, from_inclusive_mrp,
}
use e_commerce_backend.Placement.Pricing.{
  PlannedItem, SellerPlan, SellerAmounts, LineMath, line_discounts, line_maths, principal_rate,
  split_shipping, amounts_of, price_seller, price_sellers, total_amount,
}
use e_commerce_backend.Placement.Pricing.Shares.{
  discount_total, taxable_total, lost, price_seller-ties_out,
}
use e_commerce_backend.Placement.Pricing.Tallies.{received}
use e_commerce_backend.Placement.Pricing.Total.{IsWithin, total_amount-received}

abbrev item : ℕ → ℕ → ℕ → PlannedItem
item price quantity rate = record { unit_price = price; quantity = quantity; tax_rate = rate }

-- two items at 18 and 5 percent, ten rupees off, shipping at fifty rupees
abbrev two_items : SellerPlan
two_items = record {
  tax_kind = TaxKind.intra_state;
  commission_rate = 1000;
  shipping_charge = 5000;
  store_discount = pos 1000;
  items = item 9999 1 180000 ∷ item 4950 3 50000 ∷ [];
}

abbrev one_item : SellerPlan
one_item = record {
  tax_kind = TaxKind.inter_state;
  commission_rate = 750;
  shipping_charge = 0;
  store_discount = pos 0;
  items = item 123 7 120000 ∷ [];
}

abbrev get_amounts : Result (List SellerAmounts) → List SellerAmounts
get_amounts (ok amounts) = amounts
get_amounts (err e) = []

abbrev get_lines : Result SellerAmounts → List LineMath
get_lines (ok a) = a.lines
get_lines (err e) = []

abbrev two_lines : List LineMath
two_lines = get_lines (price_seller two_items)

abbrev order_amounts : List SellerAmounts
order_amounts = get_amounts (price_sellers (two_items ∷ one_item ∷ []))

price_seller-ties_out_example :
    (discount_total two_lines ≡ pos 1000)
    × (pos (taxable_total two_lines) +ℤ pos 1000 ≡ pos (24849 + lost two_lines))
unfolding price_seller line_maths line_discounts round_ℤ split_shipping amounts_of principal_rate
    split_tax from_inclusive_mrp intra_breakup tax_on round_half_up ◌-ℤ◌ ◌+ℤ◌
price_seller-ties_out_example =
    price_seller-ties_out two_items (item 9999 1 180000) (item 4950 3 50000 ∷ []) refl refl

total_amount-received_example :
    IsWithin 254
      (total_amount order_amounts
        +ℤ pos (sum_by (λ (a : SellerAmounts). lost a.lines) order_amounts))
      (received order_amounts)
unfolding price_sellers price_seller line_maths line_discounts round_ℤ split_shipping amounts_of
    principal_rate split_tax from_inclusive_mrp intra_breakup inter_breakup tax_on round_half_up
    ◌-ℤ◌ ◌+ℤ◌
total_amount-received_example =
    total_amount-received (two_items ∷ one_item ∷ [])
      (
        (
          item 9999 1 180000,
          item 4950 3 50000 ∷ [],
          refl,
          ((90000, refl, omega arith), ((25000, refl, omega arith), tt)),
        ),
        ((item 123 7 120000, [], refl, ((60000, refl, omega arith), tt)), tt),
      )
      refl
