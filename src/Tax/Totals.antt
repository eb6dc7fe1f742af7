-- ===== src/Tax/Totals.antt =====
-- The totals of a breakup, of a line and of an order.
use e_commerce_backend.Common.{
  ◌+◌, ◌≡◌, refl, List, [], ◌∷◌, All, sum_by, ok, arith, throw_if->>-eq-ok, plain_error,
}
use e_commerce_backend.Common.Int.{ℤ, clip}
use e_commerce_backend.Tax.{
  TaxKind, TaxBreakup, split_tax, intra_breakup, inter_breakup, sum_breakups, is_negative,
}

-- The total tax is the sum of the four taxes, and the total with tax adds the taxable value.
pub record IsConsistent (b : TaxBreakup) : Type 0 where
  pub tax : b.total_tax ≡ b.cgst_amount + b.sgst_amount + b.igst_amount + b.cess_amount
  pub with_tax : b.total_with_tax ≡ b.taxable_value + b.total_tax

pub split_tax-eq :
    (value rate : ℤ) (kind : TaxKind) (cess : ℤ) {b : TaxBreakup}
    → split_tax value rate kind cess ≡ ok b
    → b ≡ elim kind [
      | TaxKind.intra_state ↦ intra_breakup (clip value) (clip rate) (clip cess)
      | TaxKind.inter_state ↦ inter_breakup (clip value) (clip rate) (clip cess)
    ]
unfolding split_tax
split_tax-eq value rate kind cess {b} e =
    let (c1, e1) = throw_if->>-eq-ok (is_negative value) plain_error _ e in
    let (c2, e2) = throw_if->>-eq-ok (is_negative rate) plain_error _ e1 in
    let (c3, e3) = throw_if->>-eq-ok (is_negative cess) plain_error _ e2 in cc e3

pub split_tax-IsConsistent :
    (value rate : ℤ) (kind : TaxKind) (cess : ℤ) {b : TaxBreakup}
    → split_tax value rate kind cess ≡ ok b
    → IsConsistent b
unfolding intra_breakup inter_breakup
split_tax-IsConsistent value rate TaxKind.intra_state cess e =
    let q = split_tax-eq value rate TaxKind.intra_state cess e in
    record { tax = ground arith; with_tax = ground arith }
split_tax-IsConsistent value rate TaxKind.inter_state cess e =
    let q = split_tax-eq value rate TaxKind.inter_state cess e in
    record { tax = ground arith; with_tax = ground arith }

sum_of_totals :
    (bs : List TaxBreakup)
    → All IsConsistent bs
    → (sum_by (λ (x : TaxBreakup). x.total_tax) bs
        ≡ sum_by (λ (x : TaxBreakup). x.cgst_amount) bs
          + sum_by (λ (x : TaxBreakup). x.sgst_amount) bs
          + sum_by (λ (x : TaxBreakup). x.igst_amount) bs
          + sum_by (λ (x : TaxBreakup). x.cess_amount) bs)
      × (sum_by (λ (x : TaxBreakup). x.total_with_tax) bs
          ≡ sum_by (λ (x : TaxBreakup). x.taxable_value) bs
            + sum_by (λ (x : TaxBreakup). x.total_tax) bs)
sum_of_totals [] h = (refl, refl)
sum_of_totals (b ∷ bs) (c, h) =
    let (p, q) = sum_of_totals bs h in (omega (arith, c.tax, p), omega (arith, c.with_tax, q))

-- The sum of consistent breakups is consistent, and its totals are the sums of the lines' totals.
pub sum_breakups-totals :
    (bs : List TaxBreakup)
    → All IsConsistent bs
    → IsConsistent (sum_breakups bs)
      × ((sum_breakups bs).total_tax ≡ sum_by (λ (x : TaxBreakup). x.total_tax) bs)
      × ((sum_breakups bs).total_with_tax ≡ sum_by (λ (x : TaxBreakup). x.total_with_tax) bs)
unfolding sum_breakups
sum_breakups-totals [] h = (record { tax = refl; with_tax = refl }, refl, refl)
sum_breakups-totals (b ∷ bs) h =
    let (p, q) = sum_of_totals (b ∷ bs) h in
    (record { tax = refl; with_tax = refl }, omega (arith, p), omega (arith, p, q))
