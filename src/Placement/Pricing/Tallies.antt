-- ===== src/Placement/Pricing/Tallies.antt =====
-- How the amounts of a sub-order hang together, and their sums.
use e_commerce_backend.Common.{ℕ, ◌+◌, ◌*◌, ◌≤◌, ◌≡◌, refl, List, [], ◌∷◌, arith, sum_by, length}
use e_commerce_backend.Common.Int.{
  ℤ, pos, negsuc, pos_part, neg_part, ◌+ℤ◌, ◌-ℤ◌, +ℤ_parts, -ℤ_parts,
}
use e_commerce_backend.Common.Rounding.{round_half_up, round_half_up_near}
use e_commerce_backend.Coupon.Discount.{round_ℤ}
use e_commerce_backend.Placement.Pricing.{SellerAmounts, sum_discounts}
use e_commerce_backend.Placement.Pricing.Shares.{lost}

-- A signed number of hundredths is within half of what it is rounded to.
pub round_ℤ-near :
    (x : ℤ)
    → let r = round_ℤ x 100 in
      (100 * pos_part r + neg_part x ≤ pos_part x + 50 + 100 * neg_part r)
      × (pos_part x + 100 * neg_part r ≤ neg_part x + 100 * pos_part r + 50)
unfolding round_ℤ round_half_up ◌-ℤ◌
round_ℤ-near (pos n) = ground arith
round_ℤ-near (negsuc n) = ground arith

-- What the sellers are paid, and what the platform keeps of it.
abbrev pub received : List SellerAmounts → ℤ
received [] = pos 0
received (a ∷ rest) = (a.payout_amount +ℤ pos a.commission_amount) +ℤ received rest

-- How the amounts of one sub-order hang together.
pub record Tallies (a : SellerAmounts) : Type 0 where
  pub taxable : ℕ
  pub tax : ℕ
  pub paid_low :
      100 * (pos_part a.payout_amount + a.commission_amount)
      ≤ 100 * taxable + tax + 100 * a.shipping_amount + 100 * neg_part a.payout_amount + 52
  pub paid_high :
      100 * taxable + tax + 100 * a.shipping_amount + 100 * neg_part a.payout_amount
      ≤ 100 * (pos_part a.payout_amount + a.commission_amount) + 52
  pub tax_low : 100 * a.tax_amount ≤ tax + a.shipping_tax + 50
  pub tax_high : tax + a.shipping_tax ≤ 100 * a.tax_amount + 50
  pub priced :
      taxable + pos_part a.discount_amount ≡ a.subtotal + lost a.lines + neg_part a.discount_amount

-- The same of the sums over the sub-orders.
pub record TalliesAll (amounts : List SellerAmounts) : Type 0 where
  pub taxable : ℕ
  pub tax : ℕ
  pub paid_low :
      100 * pos_part (received amounts)
      ≤ 100 * taxable
        + tax
        + 100 * sum_by (λ (a : SellerAmounts). a.shipping_amount) amounts
        + 100 * neg_part (received amounts)
        + 52 * length amounts
  pub paid_high :
      100 * taxable
        + tax
        + 100 * sum_by (λ (a : SellerAmounts). a.shipping_amount) amounts
        + 100 * neg_part (received amounts)
      ≤ 100 * pos_part (received amounts) + 52 * length amounts
  pub tax_low :
      100 * sum_by (λ (a : SellerAmounts). a.tax_amount) amounts
      ≤ tax + sum_by (λ (a : SellerAmounts). a.shipping_tax) amounts + 50 * length amounts
  pub tax_high :
      tax + sum_by (λ (a : SellerAmounts). a.shipping_tax) amounts
      ≤ 100 * sum_by (λ (a : SellerAmounts). a.tax_amount) amounts + 50 * length amounts
  pub priced :
      taxable + pos_part (sum_discounts amounts)
      ≡ sum_by (λ (a : SellerAmounts). a.subtotal) amounts
        + sum_by (λ (a : SellerAmounts). lost a.lines) amounts
        + neg_part (sum_discounts amounts)

pub tally_none : TalliesAll []
tally_none = record {
  taxable = 0;
  tax = 0;
  paid_low = omega arith;
  paid_high = omega arith;
  tax_low = omega arith;
  tax_high = omega arith;
  priced = refl;
}

pub tally_one :
    (a : SellerAmounts) (amounts : List SellerAmounts)
    → Tallies a
    → TalliesAll amounts
    → TalliesAll (a ∷ amounts)
tally_one a amounts s t =
    let p = +ℤ_parts a.payout_amount (pos a.commission_amount) in
    let q = +ℤ_parts (a.payout_amount +ℤ pos a.commission_amount) (received amounts) in
    let r = +ℤ_parts a.discount_amount (sum_discounts amounts) in
    record {
      taxable = s.taxable + t.taxable;
      tax = s.tax + t.tax;
      paid_low = omega (arith, p, q, s.paid_low, t.paid_low);
      paid_high = omega (arith, p, q, s.paid_high, t.paid_high);
      tax_low = omega (arith, s.tax_low, t.tax_low);
      tax_high = omega (arith, s.tax_high, t.tax_high);
      priced = omega (arith, r, s.priced, t.priced);
    }

-- The numbers of one sub-order: `taxable` and `tax` of its lines, its commission, its payout.
pub paid_near :
    (taxable tax commission shipping_taxable shipping_tax charge : ℕ)
    → shipping_taxable + shipping_tax ≤ 100 * charge + 2
    → 100 * charge ≤ shipping_taxable + shipping_tax + 2
    → let payout =
        round_ℤ
          (pos (100 * taxable + tax)
            -ℤ pos (100 * commission)
            +ℤ pos (shipping_taxable + shipping_tax))
          100 in
      (100 * (pos_part payout + commission)
        ≤ 100 * taxable + tax + 100 * charge + 100 * neg_part payout + 52)
      × (100 * taxable + tax + 100 * charge + 100 * neg_part payout
          ≤ 100 * (pos_part payout + commission) + 52)
paid_near taxable tax commission st sx charge lo hi =
    let x = pos (100 * taxable + tax) -ℤ pos (100 * commission) in
    let p = -ℤ_parts (pos (100 * taxable + tax)) (pos (100 * commission)) in
    let q = +ℤ_parts x (pos (st + sx)) in
    let (near, far) = round_ℤ-near (x +ℤ pos (st + sx)) in
    (omega (arith, p, q, near, far, lo, hi), omega (arith, p, q, near, far, lo, hi))

pub rounded_tax :
    (x : ℕ) → (100 * round_half_up x 100 ≤ x + 50) × (x ≤ 100 * round_half_up x 100 + 50)
rounded_tax x =
    let (lo, hi) = round_half_up_near x 100 (omega arith) in (omega (arith, lo), omega (arith, hi))
