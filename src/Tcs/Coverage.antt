-- ===== src/Tcs/Coverage.antt =====
-- No more tax is reversed than was accrued, however often and in whatever order refunds are booked.
use e_commerce_backend.Common.{
  ℕ, ◌+◌, ◌≤◌, ◌≡◌, refl, sym, ap, subst, Bool, true, false, ◌&&◌, ◌||◌, none, some, List, [], ◌∷◌,
  arith, ◌==◌, leb, any_of, find, All, All-append, some-injective, Bool-cases, Option-cases, inl,
  inr,
}
use e_commerce_backend.Common.Int.{pos, leb_ℤ}
use e_commerce_backend.Database.{SellerOrder}
use e_commerce_backend.Finance.{seller_order_total}
use e_commerce_backend.Tcs.{
  TcsLedgerKind, TcsAmounts, TcsRow, TcsRefund, is_accrual_of, is_reversal_of, is_by, sum_part,
  prior_of, over_of, clamp_mag, reversed_amounts, is_nothing, reversal_for, reversals_for,
}

-- One of the four columns.
pub data Column : Type 0 where
  net cgst sgst igst : Column

abbrev pub column : Column → TcsAmounts → ℕ
column Column.net a = a.net_taxable_value
column Column.cgst a = a.cgst_tcs
column Column.sgst a = a.sgst_tcs
column Column.igst a = a.igst_tcs

abbrev pub names_refund : TcsRow → Bool
names_refund r = elim r.kind [
  | TcsLedgerKind.accrual ↦ true
  | TcsLedgerKind.reversal ↦ elim r.refund_id [ none ↦ false | some k ↦ true ]
]

-- In every column the reversals of a sub-order are within its accruals, and each reversal names its refund.
pub record IsCovered (rows : List TcsRow) : Type 0 where
  pub covered :
      (c : Column) (so : ℕ)
      → sum_part (is_reversal_of so) (column c) rows ≤ sum_part (is_accrual_of so) (column c) rows
  pub named : All (λ (r : TcsRow). names_refund r ≡ true) rows

-- A row that may be booked for a refund.
pub record Fits (k : ℕ) (rows : List TcsRow) (r : TcsRow) : Type 0 where
  pub kind : r.kind ≡ TcsLedgerKind.reversal
  pub by : r.refund_id ≡ some k
  pub room :
      (c : Column)
      → prior_of k r.seller_order_id (column c) rows + column c r.amounts
        ≤ sum_part (is_accrual_of r.seller_order_id) (column c) rows

-- Where the refund has no reversal of a sub-order, all its reversals are prior ones.
all_prior :
    (k so : ℕ) (part : TcsAmounts → ℕ) (rows : List TcsRow)
    → All (λ (r : TcsRow). names_refund r ≡ true) rows
    → any_of (λ x. is_reversal_of so x && is_by k x) rows ≡ false
    → sum_part (is_reversal_of so) part rows ≡ prior_of k so part rows
all_prior k so part [] h e = refl
all_prior k so part (r ∷ rows) (h, hs) e = ground (arith, all_prior k so part rows hs)

less_prior :
    (k so : ℕ) (part : TcsAmounts → ℕ) (rows : List TcsRow)
    → prior_of k so part rows ≤ sum_part (is_reversal_of so) part rows
less_prior k so part [] = omega arith
less_prior k so part (r ∷ rows) = ground (arith, less_prior k so part rows)

found_accrual :
    (so : ℕ) (part : TcsAmounts → ℕ) (rows : List TcsRow) (accr : TcsRow)
    → find (is_accrual_of so) rows ≡ some accr
    → part accr.amounts ≤ sum_part (is_accrual_of so) part rows
found_accrual so part [] accr e = cc
found_accrual so part (r ∷ rows) accr e = elim (Bool-cases (is_accrual_of so r)) [
  | inl here ↦
      let same : r ≡ accr = some-injective (rw here at e) in
      let value = ap (λ (x : TcsRow). part x.amounts) same in rw here (omega (arith, value))
  | inr there ↦
      let rest = found_accrual so part rows accr (rw there at e) in rw there (omega (arith, rest))
]

found_accrual-order :
    (so : ℕ) (rows : List TcsRow) (accr : TcsRow)
    → find (is_accrual_of so) rows ≡ some accr
    → accr.seller_order_id ≡ so
found_accrual-order so [] accr e = cc
found_accrual-order so (r ∷ rows) accr e = ground (arith, found_accrual-order so rows accr)

clamped :
    (amount over accrued prior total : ℕ)
    → prior ≤ total
    → accrued ≤ total
    → prior + clamp_mag amount over accrued prior ≤ total
unfolding clamp_mag
clamped amount over accrued prior total h a = omega arith

column_of :
    (refund : TcsRefund) (over : ℕ) (accr : TcsRow) (rows : List TcsRow) (c : Column)
    → column c (reversed_amounts refund over accr rows)
      ≡ clamp_mag refund.amount over
          (column c accr.amounts)
          (prior_of refund.id accr.seller_order_id (column c) rows)
column_of refund over accr rows Column.net = refl
column_of refund over accr rows Column.cgst = refl
column_of refund over accr rows Column.sgst = refl
column_of refund over accr rows Column.igst = refl

reversal_for-Fits :
    (refund : TcsRefund) (scoped : List SellerOrder) (rows : List TcsRow) (s : SellerOrder)
    → IsCovered rows
    → All (Fits refund.id rows) (reversal_for refund scoped rows s)
unfolding reversal_for
reversal_for-Fits refund scoped rows s c = elim (Option-cases (find (is_accrual_of s.id) rows)) [
  | inl gone ↦ rw (gone, reversal_for) tt
  | inr (accr, found) ↦
      let amounts = reversed_amounts refund (over_of refund scoped s) accr rows in
      rw (found, reversal_for)
        (elim (Bool-cases (
          leb_ℤ (seller_order_total s) (pos 0)
          || (leb (over_of refund scoped s) 0 || leb refund.amount 0)
          || is_nothing amounts)) [
            | inl skip ↦ rw skip tt
            | inr go ↦ rw go (
              record {
                kind = refl;
                by = refl;
                room = λ col.
                    let key = found_accrual-order s.id rows accr found in
                    let value = found_accrual s.id (column col) rows accr found in
                    let before = less_prior refund.id s.id (column col) rows in
                    let within = c.covered col s.id in
                    let prior = prior_of refund.id s.id (column col) rows in
                    let total = sum_part (is_accrual_of s.id) (column col) rows in
                    let low : prior ≤ total = omega (arith, before, within) in
                    subst (λ n. prior_of refund.id s.id (column col) rows + n ≤ total)
                      (sym (column_of refund (over_of refund scoped s) accr rows col))
                      (subst
                        (λ so.
                          prior
                            + clamp_mag refund.amount (over_of refund scoped s)
                                (column col accr.amounts) (prior_of refund.id so (column col) rows)
                          ≤ total)
                        (sym key)
                        (clamped refund.amount (over_of refund scoped s) (column col accr.amounts)
                          prior total low value));
              },
              tt,
            )
          ])
]

pub reversals_for-Fits :
    (refund : TcsRefund) (scoped : List SellerOrder) (rows : List TcsRow) (ss : List SellerOrder)
    → IsCovered rows
    → All (Fits refund.id rows) (reversals_for refund scoped rows ss)
unfolding reversals_for
reversals_for-Fits refund scoped rows [] c = tt
reversals_for-Fits refund scoped rows (s ∷ ss) c =
    All-append (Fits refund.id rows) (reversal_for refund scoped rows s)
      (reversals_for refund scoped rows ss) (reversal_for-Fits refund scoped rows s c)
      (reversals_for-Fits refund scoped rows ss c)

-- A row of the same refund leaves the room of the others.
pub later-Fits :
    (k : ℕ) (rows : List TcsRow) (x r : TcsRow)
    → Fits k rows x
    → Fits k rows r
    → Fits k (x ∷ rows) r
later-Fits k rows x r fx fr = record {
  kind = fr.kind;
  by = fr.by;
  room = λ c. rw (fx.kind, fx.by) (let room = fr.room c in ground (arith, room));
}

pub booked-IsCovered :
    (k : ℕ) (rows : List TcsRow) (r : TcsRow)
    → Fits k rows r
    → any_of (λ x. is_reversal_of r.seller_order_id x && is_by k x) rows ≡ false
    → IsCovered rows
    → IsCovered (r ∷ rows)
booked-IsCovered k rows r f first c = record {
  covered = λ col so. elim (Bool-cases (r.seller_order_id == so)) [
    | inl own ↦
        let same : r.seller_order_id ≡ so = ground arith in
        let priors = all_prior k r.seller_order_id (column col) rows c.named first in
        let room = f.room col in
        let enough : sum_part (is_reversal_of r.seller_order_id) (column col) rows
              + column col r.amounts
            ≤ sum_part (is_accrual_of r.seller_order_id) (column col) rows =
          omega (arith, priors, room) in
        let here =
          subst
            (λ o.
              sum_part (is_reversal_of o) (column col) rows + column col r.amounts
              ≤ sum_part (is_accrual_of o) (column col) rows)
            same enough in
        rw (own, f.kind) (omega (arith, here))
    | inr other ↦ let before = c.covered col so in rw other (omega (arith, before))
  ];
  named = (rw (f.kind, f.by) refl, c.named);
}
