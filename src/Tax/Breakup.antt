-- ===== src/Tax/Breakup.antt =====
-- How the two kinds of supply compare, and how an inclusive price splits.
use e_commerce_backend.Common.{ℕ, ◌+◌, ◌*◌, ◌≤◌, ◌<◌, ◌≡◌, refl, ap, ◌∙◌, ok, arith}
use e_commerce_backend.Common.Int.{pos}
use e_commerce_backend.Common.Rounding.{round_half_up, round_half_up_near}
use e_commerce_backend.Tax.{
  TaxKind, TaxBreakup, split_tax, intra_breakup, inter_breakup, tax_on, from_inclusive_mrp,
}
use e_commerce_backend.Tax.Totals.{split_tax-eq}

tax_on-near :
    (value rate : ℕ)
    → (2000000 * tax_on value rate ≤ 2 * (value * rate) + 1000000)
      × (2 * (value * rate) < 2000000 * tax_on value rate + 1000000)
unfolding tax_on
tax_on-near value rate = round_half_up_near (value * rate) 1000000 (omega arith)

round_half_even : (half : ℕ) → round_half_up (2 * half) 2 ≡ half
unfolding round_half_up
round_half_even half = omega arith

two_halves :
    (value half : ℕ)
    → (tax_on value half + tax_on value half ≤ tax_on value (2 * half) + 1)
      × (tax_on value (2 * half) ≤ tax_on value half + tax_on value half + 1)
two_halves value half =
    let (a, b) = tax_on-near value half in
    let (c, d) = tax_on-near value (2 * half) in
    let e : value * (2 * half) ≡ 2 * (value * half) = ground arith in
    (omega (arith, a, b, c, d, e), omega (arith, a, b, c, d, e))

intra_total :
    (value rate cess : ℕ)
    → (intra_breakup value rate cess).total_with_tax
      ≡ value
        + (tax_on value (round_half_up rate 2)
            + tax_on value (round_half_up rate 2)
            + tax_on value cess)
unfolding intra_breakup
intra_total value rate cess = refl

inter_total :
    (value rate cess : ℕ)
    → (inter_breakup value rate cess).total_with_tax
      ≡ value + (tax_on value rate + tax_on value cess)
unfolding inter_breakup
inter_total value rate cess = refl

intra_halves :
    (value rate cess : ℕ)
    → (intra_breakup value rate cess).cgst_amount ≡ (intra_breakup value rate cess).sgst_amount
unfolding intra_breakup
intra_halves value rate cess = refl

tax_on-zero : (value : ℕ) → tax_on value 0 ≡ 0
unfolding tax_on round_half_up
tax_on-zero value = ground arith

-- A rate that halves exactly (every GST slab does) makes the same line cost the same within the
-- state and across states, up to one ten-thousandth of a rupee.
pub split_tax-kinds_agree :
    (value half cess : ℕ) {a b : TaxBreakup}
    → split_tax (pos value) (pos (2 * half)) TaxKind.intra_state (pos cess) ≡ ok a
    → split_tax (pos value) (pos (2 * half)) TaxKind.inter_state (pos cess) ≡ ok b
    → (a.cgst_amount ≡ a.sgst_amount)
      × (a.total_with_tax ≤ b.total_with_tax + 1)
      × (b.total_with_tax ≤ a.total_with_tax + 1)
split_tax-kinds_agree value half cess {a} {b} e f =
    let p = split_tax-eq _ _ _ _ e in
    let q = split_tax-eq _ _ _ _ f in
    let h = intra_total value (2 * half) cess in
    let g : tax_on value (round_half_up (2 * half) 2) ≡ tax_on value half =
      ap (tax_on value) (round_half_even half) in
    let (lo, hi) = two_halves value half in
    let x : a.total_with_tax ≡ _ = ap (λ (b : TaxBreakup). b.total_with_tax) p ∙ h in
    let y : b.total_with_tax ≡ _ =
      ap (λ (b : TaxBreakup). b.total_with_tax) q ∙ inter_total value (2 * half) cess in
    (
      rw p (intra_halves value (2 * half) cess),
      omega (arith, x, y, g, lo, hi),
      omega (arith, x, y, g, lo, hi),
    )

from_inclusive_mrp-near :
    (mrp rate value : ℕ)
    → from_inclusive_mrp (pos mrp) rate 0 ≡ ok value
    → (2 * (1000000 * value + value * rate) ≤ 2 * (mrp * 1000000) + 1000000 + rate)
      × (2 * (mrp * 1000000) < 2 * (1000000 * value + value * rate) + 1000000 + rate)
unfolding from_inclusive_mrp
from_inclusive_mrp-near mrp rate value e =
    let near = round_half_up_near (mrp * 1000000) (1000000 + rate + 0) (omega arith) in
    let r : round_half_up (mrp * 1000000) (1000000 + rate + 0) ≡ value = ground arith in
    let (lo, hi) = rw r at near in (grind arith, grind arith)

pub from_inclusive_mrp-split_tax :
    (mrp rate value : ℕ) {b : TaxBreakup}
    → rate ≤ 1000000
    → from_inclusive_mrp (pos mrp) rate 0 ≡ ok value
    → split_tax (pos value) (pos rate) TaxKind.inter_state (pos 0) ≡ ok b
    → (b.total_with_tax ≤ mrp + 1) × (mrp ≤ b.total_with_tax + 1)
from_inclusive_mrp-split_tax mrp rate value {b} small e f =
    let q =
      ap (λ (x : TaxBreakup). x.total_with_tax) (split_tax-eq _ _ _ _ f)
      ∙ inter_total value rate 0 in
    let z = tax_on-zero value in
    let (lo, hi) = from_inclusive_mrp-near mrp rate value e in
    let (lo2, hi2) = tax_on-near value rate in
    (omega (arith, q, z, lo, hi, lo2, hi2, small), omega (arith, q, z, lo, hi, lo2, hi2, small))
