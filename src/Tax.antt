-- ===== src/Tax.antt =====
-- Place of supply and the GST of a line (src/modules/ecommerce/tax/place-of-supply.ts), and the
-- displayed price with tax (src/common/pricing/price-with-tax.util.ts).
-- An amount is a count of ten-thousandths of a rupee and a rate a count of ten-thousandths of a
-- percent, the precision that `round4` keeps. The arithmetic is exact: the representation error of
-- JavaScript's doubles is not modelled.
pub mod Breakup
pub mod Totals
use e_commerce_backend.Common.{
  ℕ, ◌+◌, ◌*◌, Bool, Option, none, some, List, [], ◌∷◌, ◌||◌, ltb, find, sum_by, get_or,
  if◌then◌else◌, Exception, plain_error, Result, ok, err, ◌>>=◌, ◌>>◌, throw_if,
}
use e_commerce_backend.Common.Int.{ℤ, pos, ltb_ℤ, clip}
use e_commerce_backend.Common.Rounding.{round_half_up}
use e_commerce_backend.Common.Text.{Text, is_blank, same_text}

pub data TaxKind : Type 0 where
  intra_state inter_state : TaxKind

pub record TaxBreakup : Type 0 where
  pub taxable_value : ℕ
  pub cgst_rate : ℕ
  pub cgst_amount : ℕ
  pub sgst_rate : ℕ
  pub sgst_amount : ℕ
  pub igst_rate : ℕ
  pub igst_amount : ℕ
  pub cess_rate : ℕ
  pub cess_amount : ℕ
  pub total_tax : ℕ
  pub total_with_tax : ℕ

-- `!code`: the code is null, undefined or empty
abbrev pub is_missing : Option Text → Bool
is_missing none = Bool.true
is_missing (some t) = is_blank t

-- `getTaxKind`
unfoldable pub get_tax_kind : Option Text → Option Text → Result TaxKind
get_tax_kind seller buyer = do
  throw_if (is_missing seller) plain_error
  throw_if (is_missing buyer) plain_error
  ok (
      if same_text (get_or seller []) (get_or buyer [])
      then TaxKind.intra_state
      else TaxKind.inter_state)

-- `round4((value * rate) / 100)`
unfoldable pub tax_on : ℕ → ℕ → ℕ
tax_on value rate = round_half_up (value * rate) 1000000

unfoldable pub intra_breakup : ℕ → ℕ → ℕ → TaxBreakup
unfolding tax_on
intra_breakup value rate cess =
    let half = round_half_up rate 2 in
    let cgst = tax_on value half in
    let sgst = tax_on value half in
    let total = cgst + sgst + tax_on value cess in
    record {
      taxable_value = value;
      cgst_rate = half;
      cgst_amount = cgst;
      sgst_rate = half;
      sgst_amount = sgst;
      igst_rate = 0;
      igst_amount = 0;
      cess_rate = cess;
      cess_amount = tax_on value cess;
      total_tax = total;
      total_with_tax = value + total;
    }

unfoldable pub inter_breakup : ℕ → ℕ → ℕ → TaxBreakup
unfolding tax_on
inter_breakup value rate cess =
    let igst = tax_on value rate in
    let total = igst + tax_on value cess in
    record {
      taxable_value = value;
      cgst_rate = 0;
      cgst_amount = 0;
      sgst_rate = 0;
      sgst_amount = 0;
      igst_rate = rate;
      igst_amount = igst;
      cess_rate = cess;
      cess_amount = tax_on value cess;
      total_tax = total;
      total_with_tax = value + total;
    }

abbrev pub is_negative : ℤ → Bool
is_negative x = ltb_ℤ x (pos 0)

-- `splitTax`
unfoldable pub split_tax : ℤ → ℤ → TaxKind → ℤ → Result TaxBreakup
unfolding intra_breakup inter_breakup
split_tax value rate kind cess = do
  throw_if (is_negative value) plain_error
  throw_if (is_negative rate) plain_error
  throw_if (is_negative cess) plain_error
  ok (elim kind [
    | TaxKind.intra_state ↦ intra_breakup (clip value) (clip rate) (clip cess)
    | TaxKind.inter_state ↦ inter_breakup (clip value) (clip rate) (clip cess)
  ])

-- `fromInclusiveMrp`, for rates that are not negative: the divisor is then positive
unfoldable pub from_inclusive_mrp : ℤ → ℕ → ℕ → Result ℕ
from_inclusive_mrp mrp rate cess = do
  throw_if (is_negative mrp) plain_error
  ok (round_half_up (clip mrp * 1000000) (1000000 + rate + cess))

abbrev pub empty_breakup : TaxBreakup
empty_breakup = record {
  taxable_value = 0;
  cgst_rate = 0;
  cgst_amount = 0;
  sgst_rate = 0;
  sgst_amount = 0;
  igst_rate = 0;
  igst_amount = 0;
  cess_rate = 0;
  cess_amount = 0;
  total_tax = 0;
  total_with_tax = 0;
}

-- `breakups.find((b) => b.cgstAmount + b.sgstAmount + b.igstAmount > 0) ?? breakups[0]`
abbrev pub sample_of : TaxBreakup → List TaxBreakup → TaxBreakup
sample_of b bs =
    get_or (find (λ x. ltb 0 (x.cgst_amount + x.sgst_amount + x.igst_amount)) (b ∷ bs)) b

-- `sumBreakups`
unfoldable pub sum_breakups : List TaxBreakup → TaxBreakup
sum_breakups [] = empty_breakup
sum_breakups (b ∷ bs) =
    let taxable = sum_by (λ (x : TaxBreakup). x.taxable_value) (b ∷ bs) in
    let cgst = sum_by (λ (x : TaxBreakup). x.cgst_amount) (b ∷ bs) in
    let sgst = sum_by (λ (x : TaxBreakup). x.sgst_amount) (b ∷ bs) in
    let igst = sum_by (λ (x : TaxBreakup). x.igst_amount) (b ∷ bs) in
    let cess = sum_by (λ (x : TaxBreakup). x.cess_amount) (b ∷ bs) in
    let total = cgst + sgst + igst + cess in
    record {
      taxable_value = taxable;
      cgst_rate = (sample_of b bs).cgst_rate;
      cgst_amount = cgst;
      sgst_rate = (sample_of b bs).sgst_rate;
      sgst_amount = sgst;
      igst_rate = (sample_of b bs).igst_rate;
      igst_amount = igst;
      cess_rate = (sample_of b bs).cess_rate;
      cess_amount = cess;
      total_tax = total;
      total_with_tax = taxable + total;
    }

-- `computePriceWithTax`: paise, with the rate in hundredths of a percent
unfoldable pub compute_price_with_tax : Option ℕ → Option ℕ → Option ℕ
compute_price_with_tax none _ = none
compute_price_with_tax (some price) none = none
compute_price_with_tax (some price) (some rate) =
    some (round_half_up (price * 10000 + price * rate) 10000)

-- `computeTaxAmount`
unfoldable pub compute_tax_amount : Option ℕ → Option ℕ → Option ℕ
compute_tax_amount none _ = none
compute_tax_amount (some price) none = none
compute_tax_amount (some price) (some rate) = some (round_half_up (price * rate) 10000)
