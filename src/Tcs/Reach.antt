-- ===== src/Tcs/Reach.antt =====
-- Accruals and reversals in sequence.
use e_commerce_backend.Common.{
  ℕ, ◌+◌, ◌≡◌, refl, Bool, ◌&&◌, ◌||◌, Option, none, some, List, [], ◌∷◌, arith, leb, any_of, All,
  All-imp, Bool-cases, Option-cases, inl, inr,
}
use e_commerce_backend.Database.{SellerOrder}
use e_commerce_backend.Tcs.{
  TcsLedgerKind, TcsAmounts, TcsRow, Supply, TcsRefund, is_accrual_of, is_reversal_of, is_by,
  taxable_base, split, accrue, sum_part, reversals_for, book, reverse, tax_of, net_for_seller_order,
}
use e_commerce_backend.Tcs.Coverage.{
  Column, column, IsCovered, Fits, reversals_for-Fits, later-Fits, booked-IsCovered,
}

more-IsCovered :
    (so : ℕ) (amounts : TcsAmounts) (rows : List TcsRow)
    → IsCovered rows
    → IsCovered (
        record {
          kind = TcsLedgerKind.accrual;
          seller_order_id = so;
          refund_id = none;
          amounts = amounts;
        }
        ∷ rows)
more-IsCovered so amounts rows c = record {
  covered = λ col j. let before = c.covered col j in ground (arith, before);
  named = (refl, c.named);
}

accrue-IsCovered :
    (s : Option Supply) (rows : List TcsRow) → IsCovered rows → IsCovered (accrue s rows)
unfolding accrue
accrue-IsCovered none rows c = c
accrue-IsCovered (some s) rows c = elim (Option-cases s.tax_kind) [
  | inl unknown ↦ rw (unknown, accrue) c
  | inr (kind, known) ↦
      rw (known, accrue)
        (elim (Bool-cases (leb (taxable_base s) 0 || any_of (is_accrual_of s.id) rows)) [
          | inl skip ↦ rw skip c
          | inr go ↦ rw go (more-IsCovered s.id (split (taxable_base s) kind) rows c)
        ])
]

book-IsCovered :
    (k : ℕ) (rs rows : List TcsRow)
    → All (Fits k rows) rs
    → IsCovered rows
    → IsCovered (book k rs rows)
unfolding book
book-IsCovered k [] rows fs c = c
book-IsCovered k (r ∷ rs) rows (f, fs) c =
    elim (Bool-cases (any_of (λ x. is_reversal_of r.seller_order_id x && is_by k x) rows)) [
      | inl again ↦ rw again (book-IsCovered k rs rows fs c)
      | inr first ↦ rw first (
          book-IsCovered k rs (r ∷ rows)
            (All-imp (Fits k rows) (Fits k (r ∷ rows)) rs (λ x fx. later-Fits k rows r x f fx) fs)
            (booked-IsCovered k rows r f first c))
    ]

reverse-IsCovered :
    (refund : TcsRefund) (scoped : List SellerOrder) (rows : List TcsRow)
    → IsCovered rows
    → IsCovered (reverse refund scoped rows)
unfolding reverse
reverse-IsCovered refund scoped rows c =
    book-IsCovered refund.id (reversals_for refund scoped rows scoped) rows
      (reversals_for-Fits refund scoped rows scoped c) c

-- One call.
pub data Step : List TcsRow → List TcsRow → Type 0 where
  accrues : (s : Option Supply) (rows : List TcsRow) → Step rows (accrue s rows)
  reverses :
      (refund : TcsRefund) (scoped : List SellerOrder) (rows : List TcsRow)
      → Step rows (reverse refund scoped rows)

pub data Steps : List TcsRow → List TcsRow → Type 0 where
  none_yet : (rows : List TcsRow) → Steps rows rows
  then : {a b c : List TcsRow} → Steps a b → Step b c → Steps a c

Step-IsCovered : {a b : List TcsRow} → Step a b → IsCovered a → IsCovered b
Step-IsCovered (Step.accrues s rows) c = accrue-IsCovered s rows c
Step-IsCovered (Step.reverses refund scoped rows) c = reverse-IsCovered refund scoped rows c

Steps-IsCovered : {a b : List TcsRow} → Steps a b → IsCovered a → IsCovered b
Steps-IsCovered (Steps.none_yet rows) c = c
Steps-IsCovered (Steps.then steps step) c = Step-IsCovered step (Steps-IsCovered steps c)

tax_of-columns :
    (counts : TcsRow → Bool) (rows : List TcsRow)
    → sum_part counts tax_of rows
      ≡ sum_part counts (column Column.cgst) rows
        + sum_part counts (column Column.sgst) rows
        + sum_part counts (column Column.igst) rows
tax_of-columns counts [] = refl
tax_of-columns counts (r ∷ rows) = ground (arith, tax_of-columns counts rows)

-- Whatever accruals and reversals are booked, in any order, for refunds of one sub-order or of a whole
-- order, again or not, no column of a sub-order is reversed by more than was accrued and every reversal
-- names its refund, where both hold before. The net tax of a sub-order and its reversed tax add up to
-- the accrued tax: nothing is cut off at zero.
pub Steps-nets :
    {a b : List TcsRow}
    → Steps a b
    → IsCovered a
    → IsCovered b
      × ((so : ℕ)
          → net_for_seller_order so b + sum_part (is_reversal_of so) tax_of b
            ≡ sum_part (is_accrual_of so) tax_of b)
Steps-nets {a} {b} steps c =
    let d = Steps-IsCovered steps c in
    (
      d,
      (λ so.
          let cgst = d.covered Column.cgst so in
          let sgst = d.covered Column.sgst so in
          let igst = d.covered Column.igst so in
          let taken = tax_of-columns (is_reversal_of so) b in
          let given = tax_of-columns (is_accrual_of so) b in
          omega (arith, cgst, sgst, igst, taken, given)),
    )
