-- ===== src/Refund/Refinement.antt =====
-- Every call on refunds implements entries of the abstract ledger.
use e_commerce_backend.Common.{
  ℕ, ◌≡◌, refl, sym, ap, ◌∙◌, subst, some, ◌⊎◌, inl, inr, ok, err, Result, Exception,
}
use e_commerce_backend.Finance.{Books, Refund, find_refund, update_refund, is_held}
use e_commerce_backend.Refund.{sum_other_refunds}
use e_commerce_backend.Refund.Table.{Keeps}
use e_commerce_backend.Refund.Ledger.{Captured, Advance, Entry, Entries}
use e_commerce_backend.Refund.Execution.{settle_result}
use e_commerce_backend.Refund.Settlement.{finalize_refund, set_processed}
use e_commerce_backend.Refund.Effects.{
  amount_of, amount_of-set_payment, Finalized, finalize_refund-Finalized,
}

abbrev pub captured_in : Books → Captured
captured_in b k = amount_of k b.payments

-- The captured amounts stay, and the table of refunds changes by entries of the ledger.
pub record Implements (a b : Books) : Type 0 where
  pub amounts : (k : ℕ) → captured_in b k ≡ captured_in a k
  pub entries : Entries (captured_in a) a.refunds b.refunds

pub same-Implements : (a : Books) → Implements a a
same-Implements a = record { amounts = λ k. refl; entries = Entries.nothing a.refunds }

pub status-Keeps :
    (f : Refund → Refund)
    → ((r : Refund)
        → ((f r).id ≡ r.id) × ((f r).amount ≡ r.amount) × ((f r).payment_id ≡ r.payment_id))
    → Keeps f
status-Keeps f h = record { id = λ r. (h r).0; amount = λ r. (h r).1; payment = λ r. (h r).2 }

pub Advance-Implements :
    (a b : Books) (k : ℕ) (f : Refund → Refund) (r : Refund)
    → Keeps f
    → Implements a b
    → find_refund k b.refunds ≡ some r
    → Advance (captured_in a) (sum_other_refunds is_held r.payment_id k b.refunds) r (f r)
    → Implements a (update_refund k f b)
Advance-Implements a b k f r keeps i found s = record {
  amounts = i.amounts;
  entries = Entries.then i.entries (Entry.advances k f r b.refunds keeps found s);
}

pub set_processed-Keeps : Keeps set_processed
set_processed-Keeps = record { id = λ r. refl; amount = λ r. refl; payment = λ r. refl }

Finalized-Implements :
    (a b after : Books) (k : ℕ) (r : Refund)
    → Implements a b
    → find_refund k b.refunds ≡ some r
    → Advance
        (captured_in a)
        (sum_other_refunds is_held r.payment_id k b.refunds)
        r
        (set_processed r)
    → Finalized k b after
    → Implements a after
Finalized-Implements a b after k r i found s f = record {
  amounts = λ j.
      ap (amount_of j) f.payments
      ∙ amount_of-set_payment j f.payment.id _ b.payments (λ p. (refl, refl))
      ∙ i.amounts j;
  entries =
      subst (Entries (captured_in a) a.refunds) (sym f.refunds)
        (Advance-Implements a b k set_processed r set_processed-Keeps i found s).entries;
}

pub Result-cases : (q : Result Books) → ((e : Exception) × (q ≡ err e)) ⊎ ((v : Books) × (q ≡ ok v))
Result-cases (err e) = inl (e, refl)
Result-cases (ok v) = inr (v, refl)

-- `finalizeRefund` settles a refund that may be settled, or raises.
pub settle_result-Implements :
    (a b : Books) (k : ℕ) (r : Refund)
    → Implements a b
    → find_refund k b.refunds ≡ some r
    → Advance
        (captured_in a)
        (sum_other_refunds is_held r.payment_id k b.refunds)
        r
        (set_processed r)
    → Implements a (settle_result b (finalize_refund k b)).0
settle_result-Implements a b k r i found s = elim (Result-cases (finalize_refund k b)) [
  | inl (x, raised) ↦ rw raised i
  | inr (after, done) ↦ rw done (elim (finalize_refund-Finalized k b done) [
    | inl same ↦ subst (Implements a) (sym same) i
    | inr f ↦ Finalized-Implements a b after k r i found s f
  ])
]
