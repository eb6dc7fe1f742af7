-- ===== src/Placement/Pricing/Shipping.antt =====
-- The taxable part of a shipping charge and its GST bring the charge back.
use e_commerce_backend.Common.{
  ℕ, ◌+◌, ◌*◌, ◌≤◌, ◌≡◌, ap, inl, inr, List, [], ◌∷◌, arith, All, ltb, ok, ◌>>=◌, >>=-eq-ok,
  ok-injective, subst, Bool-cases,
}
use e_commerce_backend.Common.Int.{ℤ, pos, ltb_ℤ, clip}
use e_commerce_backend.Tax.{
  TaxKind, TaxBreakup, split_tax, from_inclusive_mrp, inter_breakup, intra_breakup,
}
use e_commerce_backend.Tax.Totals.{split_tax-IsConsistent, split_tax-eq}
use e_commerce_backend.Tax.Breakup.{split_tax-kinds_agree, from_inclusive_mrp-split_tax}
use e_commerce_backend.Placement.Pricing.{
  PlannedItem, LineMath, line_maths, taxable_after, principal_rate, split_shipping,
}

-- A rate of at most 100 percent that halves exactly.
abbrev pub IsSlab : ℕ → Type 0
IsSlab rate = (half : ℕ) × (rate ≡ 2 * half) × (half ≤ 500000)

pub line_maths-IsSlab :
    (kind : TaxKind) (items : List PlannedItem) (offs : List ℤ) {ms : List LineMath}
    → All (λ (i : PlannedItem). IsSlab i.tax_rate) items
    → line_maths kind items offs ≡ ok ms
    → All (λ (m : LineMath). IsSlab m.tax_rate) ms
unfolding line_maths
line_maths-IsSlab kind [] offs h e =
    subst (All (λ (m : LineMath). IsSlab m.tax_rate)) (ok-injective e) tt
line_maths-IsSlab kind (it ∷ items) [] h e =
    subst (All (λ (m : LineMath). IsSlab m.tax_rate)) (ok-injective e) tt
line_maths-IsSlab kind (it ∷ items) (off ∷ offs) (i, h) e =
    let (b, p, e1) =
      >>=-eq-ok (split_tax (pos (100 * taxable_after it off)) (pos it.tax_rate) kind (pos 0)) _ e in
    let (rest, q, e2) = >>=-eq-ok (line_maths kind items offs) _ e1 in
    subst (All (λ (m : LineMath). IsSlab m.tax_rate)) (ok-injective e2)
      (i, line_maths-IsSlab kind items offs h q)

pub principal_rate-IsSlab :
    (ms : List LineMath) (largest : ℤ) (rate : ℕ)
    → IsSlab rate
    → All (λ (m : LineMath). IsSlab m.tax_rate) ms
    → IsSlab (principal_rate largest rate ms)
unfolding principal_rate
principal_rate-IsSlab [] largest rate r h = r
principal_rate-IsSlab (m ∷ ms) largest rate r (a, h) =
    elim (Bool-cases (ltb_ℤ largest (pos m.line_taxable_after))) [
      | inl e ↦
          rw (e, principal_rate)
            (principal_rate-IsSlab ms (pos m.line_taxable_after) m.tax_rate a h)
      | inr e ↦ rw (e, principal_rate) (principal_rate-IsSlab ms largest rate r h)
    ]

inter_succeeds :
    (value rate : ℕ)
    → split_tax (pos value) (pos rate) TaxKind.inter_state (pos 0) ≡ ok (inter_breakup value rate 0)
unfolding split_tax
inter_succeeds value rate = ground arith

brings_back :
    (kind : TaxKind) (charge half value : ℕ) {b : TaxBreakup}
    → half ≤ 500000
    → from_inclusive_mrp (pos charge) (2 * half) 0 ≡ ok value
    → split_tax (pos value) (pos (2 * half)) kind (pos 0) ≡ ok b
    → (b.total_with_tax ≤ charge + 2) × (charge ≤ b.total_with_tax + 2)
brings_back TaxKind.intra_state charge half value h e f =
    let g = inter_succeeds value (2 * half) in
    let (c, lo, hi) = split_tax-kinds_agree value half 0 f g in
    let (lo2, hi2) = from_inclusive_mrp-split_tax charge (2 * half) value (omega (arith, h)) e g in
    (omega (arith, lo, hi, lo2, hi2), omega (arith, lo, hi, lo2, hi2))
brings_back TaxKind.inter_state charge half value h e f =
    let (lo, hi) = from_inclusive_mrp-split_tax charge (2 * half) value (omega (arith, h)) e f in
    (omega (arith, lo), omega (arith, hi))

split_tax-taxable_value :
    (value rate : ℤ) (kind : TaxKind) {b : TaxBreakup}
    → split_tax value rate kind (pos 0) ≡ ok b
    → b.taxable_value ≡ clip value
unfolding intra_breakup inter_breakup
split_tax-taxable_value value rate TaxKind.intra_state e =
    ap (λ (x : TaxBreakup). x.taxable_value) (split_tax-eq value rate TaxKind.intra_state (pos 0) e)
split_tax-taxable_value value rate TaxKind.inter_state e =
    ap (λ (x : TaxBreakup). x.taxable_value) (split_tax-eq value rate TaxKind.inter_state (pos 0) e)

split_shipping-charged :
    (kind : TaxKind) (charge half : ℕ) {taxable tax : ℕ}
    → half ≤ 500000
    → (from_inclusive_mrp (pos (100 * charge)) (2 * half) 0 >>= λ value.
        split_tax (pos value) (pos (2 * half)) kind (pos 0) >>= λ b.
        let parts : ℕ × ℕ = (value, b.total_tax) in ok parts)
      ≡ ok (taxable, tax)
    → (taxable + tax ≤ 100 * charge + 2) × (100 * charge ≤ taxable + tax + 2)
split_shipping-charged kind charge half {taxable} {tax} h e =
    let (value, p, e1) = >>=-eq-ok (from_inclusive_mrp (pos (100 * charge)) (2 * half) 0) _ e in
    let (b, q, e2) = >>=-eq-ok (split_tax (pos value) (pos (2 * half)) kind (pos 0)) _ e1 in
    let (lo, hi) = brings_back kind (100 * charge) half value h p q in
    let w = (split_tax-IsConsistent _ _ kind _ q).with_tax in
    let v = split_tax-taxable_value _ _ kind q in
    let x : value ≡ taxable = ap (λ (z : ℕ × ℕ). z.0) (ok-injective e2) in
    let y : b.total_tax ≡ tax = ap (λ (z : ℕ × ℕ). z.1) (ok-injective e2) in
    (omega (arith, lo, hi, w, v, x, y), omega (arith, lo, hi, w, v, x, y))

pub split_shipping-near :
    (kind : TaxKind) (charge rate : ℕ) {taxable tax : ℕ}
    → IsSlab rate
    → split_shipping kind charge rate ≡ ok (taxable, tax)
    → (taxable + tax ≤ 100 * charge + 2) × (100 * charge ≤ taxable + tax + 2)
unfolding split_shipping
split_shipping-near kind charge rate {taxable} {tax} (half, r, h) e =
    elim (Bool-cases (ltb 0 charge)) [
      | inl c ↦ split_shipping-charged kind charge half h (rw r at (rw (c, split_shipping) at e))
      | inr c ↦
          let z = ok-injective (rw (c, split_shipping) at e) in
          let x : 0 ≡ taxable = ap (λ (z : ℕ × ℕ). z.0) z in
          let y : 0 ≡ tax = ap (λ (z : ℕ × ℕ). z.1) z in
          let n : charge ≡ 0 = ground arith in (omega (arith, x, y, n), omega (arith, x, y, n))
    ]
