-- ===== src/Tcs.antt =====
-- The ledger of the tax that is collected at source (src/modules/compliance/tcs/tcs.service.ts: accrue,
-- reverse, netForSellerOrders). Taxable values are in ten-thousandths of a rupee, taxes and amounts in
-- paise. A row holds magnitudes: the columns of a reversal are negative. No goods are exempt, as the
-- list of exempt codes is empty. Periods, stores and rates are left out.
pub mod Coverage
pub mod Reach
use e_commerce_backend.Common.{
  ℕ, ◌+◌, ◌-◌, ◌*◌, min, Bool, true, false, not, ◌&&◌, ◌||◌, Option, none, some, List, [], ◌∷◌,
  ◌++◌, ◌==◌, leb, any_of, find, sum_by, if◌then◌else◌,
}
use e_commerce_backend.Common.Int.{ℤ, pos, ◌+ℤ◌, clip, leb_ℤ}
use e_commerce_backend.Common.Rounding.{round_half_up}
use e_commerce_backend.Tax.{TaxKind}
use e_commerce_backend.Database.{SellerOrder}
use e_commerce_backend.Finance.{seller_order_total}

pub data TcsLedgerKind : Type 0 where
  accrual reversal : TcsLedgerKind

pub record TcsAmounts : Type 0 where
  pub net_taxable_value : ℕ
  pub cgst_tcs : ℕ
  pub sgst_tcs : ℕ
  pub igst_tcs : ℕ

pub record TcsRow : Type 0 where
  pub kind : TcsLedgerKind
  pub seller_order_id : ℕ
  pub refund_id : Option ℕ
  pub amounts : TcsAmounts

-- What `accrue` reads of a sub-order: its tax kind, which may be missing, and the taxable values of its
-- lines and its shipping.
pub record Supply : Type 0 where
  pub id : ℕ
  pub tax_kind : Option TaxKind
  pub taxable_values : List ℕ
  pub shipping_taxable_value : ℕ

abbrev pub is_accrual_of : ℕ → TcsRow → Bool
is_accrual_of so r =
    r.seller_order_id == so
    && (elim r.kind [ TcsLedgerKind.accrual ↦ true | TcsLedgerKind.reversal ↦ false ])

abbrev pub is_reversal_of : ℕ → TcsRow → Bool
is_reversal_of so r =
    r.seller_order_id == so
    && (elim r.kind [ TcsLedgerKind.accrual ↦ false | TcsLedgerKind.reversal ↦ true ])

abbrev pub is_by : ℕ → TcsRow → Bool
is_by refund r = elim r.refund_id [ none ↦ false | some k ↦ k == refund ]

-- `refundId: { not: refund.id }`, which no missing identifier passes
abbrev pub is_by_other : ℕ → TcsRow → Bool
is_by_other refund r = elim r.refund_id [ none ↦ false | some k ↦ not (k == refund) ]

abbrev pub taxable_base : Supply → ℕ
taxable_base s = sum_by (λ n. n) s.taxable_values + s.shipping_taxable_value

-- `split`, at 50 or 100 basis points
abbrev pub split : ℕ → TaxKind → TcsAmounts
split base TaxKind.intra_state = record {
  net_taxable_value = base;
  cgst_tcs = round_half_up (base * 50) 1000000;
  sgst_tcs = round_half_up (base * 50) 1000000;
  igst_tcs = 0;
}
split base TaxKind.inter_state = record {
  net_taxable_value = base;
  cgst_tcs = 0;
  sgst_tcs = 0;
  igst_tcs = round_half_up (base * 100) 1000000;
}

-- `accrue`: one accrual of a sub-order, whatever calls it
unfoldable pub accrue : Option Supply → List TcsRow → List TcsRow
accrue none rows = rows
accrue (some s) rows = elim s.tax_kind [
  | none ↦ rows
  | some kind ↦
      if leb (taxable_base s) 0 || any_of (is_accrual_of s.id) rows
      then rows
      else record {
        kind = TcsLedgerKind.accrual;
        seller_order_id = s.id;
        refund_id = none;
        amounts = split (taxable_base s) kind;
      }
        ∷ rows
]

-- `TcsReverseRefund`
pub record TcsRefund : Type 0 where
  pub id : ℕ
  pub amount : ℕ
  pub seller_order_id : Option ℕ

abbrev pub sum_part : (TcsRow → Bool) → (TcsAmounts → ℕ) → List TcsRow → ℕ
sum_part counts part = sum_by (λ (r : TcsRow). if counts r then part r.amounts else 0)

-- the reversals that other refunds have booked
abbrev pub prior_of : ℕ → ℕ → (TcsAmounts → ℕ) → List TcsRow → ℕ
prior_of refund so = sum_part (λ r. is_reversal_of so r && is_by_other refund r)

abbrev pub order_gross : List SellerOrder → ℤ
order_gross [] = pos 0
order_gross (s ∷ ss) = seller_order_total s +ℤ order_gross ss

-- The share of the accrual to reverse is amount / over: `proportion` before it is capped.
abbrev pub over_of : TcsRefund → List SellerOrder → SellerOrder → ℕ
over_of refund scoped s = elim refund.seller_order_id [
  | some k ↦ clip (seller_order_total s)
  | none ↦ clip (order_gross scoped)
]

-- `clampMag(d(accrued.mul(proportion)), accrued, prior)`
unfoldable pub clamp_mag : ℕ → ℕ → ℕ → ℕ → ℕ
clamp_mag amount over accrued prior =
    min (round_half_up (accrued * min amount over) over) (accrued - prior)

abbrev pub reversed_amounts : TcsRefund → ℕ → TcsRow → List TcsRow → TcsAmounts
reversed_amounts refund over accr rows =
    let slice : (TcsAmounts → ℕ) → ℕ = λ part.
      clamp_mag refund.amount over (part accr.amounts)
        (prior_of refund.id accr.seller_order_id part rows) in
    record {
      net_taxable_value = slice (λ a. a.net_taxable_value);
      cgst_tcs = slice (λ a. a.cgst_tcs);
      sgst_tcs = slice (λ a. a.sgst_tcs);
      igst_tcs = slice (λ a. a.igst_tcs);
    }

abbrev pub is_nothing : TcsAmounts → Bool
is_nothing a =
    (leb a.cgst_tcs 0 && leb a.sgst_tcs 0) && (leb a.igst_tcs 0 && leb a.net_taxable_value 0)

abbrev pub reversal_row : TcsRefund → ℕ → TcsAmounts → TcsRow
reversal_row refund so amounts = record {
  kind = TcsLedgerKind.reversal;
  seller_order_id = so;
  refund_id = some refund.id;
  amounts = amounts;
}

-- One round of the loop: the row that it pushes, if any.
unfoldable pub reversal_for : TcsRefund → List SellerOrder → List TcsRow → SellerOrder → List TcsRow
unfolding clamp_mag
reversal_for refund scoped rows s = elim (find (is_accrual_of s.id) rows) [
  | none ↦ []
  | some accr ↦
      let amounts = reversed_amounts refund (over_of refund scoped s) accr rows in
      if leb_ℤ (seller_order_total s) (pos 0)
        || (leb (over_of refund scoped s) 0 || leb refund.amount 0)
        || is_nothing amounts
      then []
      else reversal_row refund s.id amounts ∷ []
]

unfoldable pub reversals_for :
    TcsRefund → List SellerOrder → List TcsRow → List SellerOrder → List TcsRow
unfolding reversal_for
reversals_for refund scoped rows [] = []
reversals_for refund scoped rows (s ∷ ss) =
    reversal_for refund scoped rows s ++ reversals_for refund scoped rows ss

-- `createMany` with `skipDuplicates`: one reversal of a sub-order for a refund
unfoldable pub book : ℕ → List TcsRow → List TcsRow → List TcsRow
book refund [] rows = rows
book refund (r ∷ rs) rows = book refund rs (
    if any_of (λ x. is_reversal_of r.seller_order_id x && is_by refund x) rows
    then rows
    else r ∷ rows)

-- `reverse`
unfoldable pub reverse : TcsRefund → List SellerOrder → List TcsRow → List TcsRow
unfolding reversals_for book
reverse refund scoped rows = book refund.id (reversals_for refund scoped rows scoped) rows

abbrev pub tax_of : TcsAmounts → ℕ
tax_of a = a.cgst_tcs + a.sgst_tcs + a.igst_tcs

-- `netForSellerOrders`, for one sub-order
abbrev pub net_for_seller_order : ℕ → List TcsRow → ℕ
net_for_seller_order so rows =
    sum_part (is_accrual_of so) tax_of rows - sum_part (is_reversal_of so) tax_of rows
