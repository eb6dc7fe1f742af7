-- ===== src/Refund/Effects.antt =====
-- What the calls on refunds have written, branch by branch.
use e_commerce_backend.Common.{
  ℕ, ◌≡◌, refl, sym, ap, subst, false, not, Option, none, some, List, [], ◌∷◌, ◌++◌, arith, ◌==◌,
  ◌⊎◌, inl, inr, get_or, ok, Bool-cases, Option-cases, >>=-eq-ok, or_throw->>=-eq-ok,
  throw_if->>-eq-ok, ok-injective, plain_error, bad_request, forbidden,
}
use e_commerce_backend.Common.Int.{pos, leb_ℤ, clip}
use e_commerce_backend.Database.{Order, find_order}
use e_commerce_backend.Finance.{
  Books, Payment, Refund, RefundStatus, order_refunded, find_payment, find_refund, set_payment,
  set_refund, is_processed,
}
use e_commerce_backend.Refund.{
  RefundInput, request_refund, resolve_scope, customer_of, get_refundable_payment, add_refund,
  new_refund, check_amount, compute_max_refundable, has_payout_in_flight, scope_of, default_amount,
  slice_id,
}
use e_commerce_backend.Refund.Table.{found-id}
use e_commerce_backend.Refund.Settlement.{
  finalize_refund, finalize_transaction, settle_orders, set_processed, is_fully_refunded,
  transaction_or_part,
}

-- The amount that was captured with a payment.
abbrev pub amount_in : Option Payment → Option ℕ
amount_in none = none
amount_in (some p) = some p.amount

abbrev pub amount_of : ℕ → List Payment → Option ℕ
amount_of k ps = amount_in (find_payment k ps)

pub amount_of-set_payment :
    (j k : ℕ) (f : Payment → Payment) (ps : List Payment)
    → ((p : Payment) → ((f p).id ≡ p.id) × ((f p).amount ≡ p.amount))
    → amount_of j (set_payment k f ps) ≡ amount_of j ps
amount_of-set_payment j k f [] same = refl
amount_of-set_payment j k f (p ∷ ps) same =
    let (a, b) = same p in ground (arith, amount_of-set_payment j k f ps same)

-- What `finalizeRefund` has done to a refund that was not processed.
pub record Finalized (k : ℕ) (b after : Books) : Type 0 where
  pub row : Refund
  pub payment : Payment
  pub found : find_refund k b.refunds ≡ some row
  pub paid_by : find_payment row.payment_id b.payments ≡ some payment
  pub unprocessed : is_processed row.status ≡ false
  pub refunds : after.refunds ≡ set_refund k set_processed b.refunds
  pub payments :
      after.payments
      ≡ set_payment payment.id
          (λ x. record x { status = transaction_or_part (is_fully_refunded payment after.refunds) })
          b.payments
  pub mailed : after.mails ≡ b.mails ++ (order_refunded k ∷ [])
  pub reversed : after.tcs_reversals ≡ b.tcs_reversals ++ (k ∷ [])

finalize_transaction-Finalized :
    (k : ℕ) (r : Refund) (p : Payment) (o : Order) (b : Books) {after : Books}
    → find_refund k b.refunds ≡ some r
    → find_payment r.payment_id b.payments ≡ some p
    → is_processed r.status ≡ false
    → finalize_transaction r p o b ≡ ok after
    → Finalized k b after
unfolding finalize_transaction
finalize_transaction-Finalized k r p o b {after} found paid_by due e =
    let (db, s, q) =
      >>=-eq-ok (settle_orders r p o (set_refund r.id set_processed b.refunds) b) _ e in
    let same = ok-injective q in
    let key = found-id k b.refunds r found in
    let refunds = sym (ap (λ (x : Books). x.refunds) same) in
    record {
      row = r;
      payment = p;
      found = found;
      paid_by = paid_by;
      unprocessed = due;
      refunds = subst (λ j. after.refunds ≡ set_refund j set_processed b.refunds) key refunds;
      payments =
          subst
            (λ l.
              after.payments
              ≡ set_payment p.id
                  (λ x. record x { status = transaction_or_part (is_fully_refunded p l) })
                  b.payments)
            (sym refunds) (sym (ap (λ (x : Books). x.payments) same));
      mailed =
          subst (λ j. after.mails ≡ b.mails ++ (order_refunded j ∷ [])) key
            (sym (ap (λ (x : Books). x.mails) same));
      reversed =
          subst (λ j. after.tcs_reversals ≡ b.tcs_reversals ++ (j ∷ [])) key
            (sym (ap (λ (x : Books). x.tcs_reversals) same));
    }

pub finalize_due-Finalized :
    (k : ℕ) (b : Books) {r : Refund} {after : Books}
    → find_refund k b.refunds ≡ some r
    → is_processed r.status ≡ false
    → finalize_refund k b ≡ ok after
    → Finalized k b after
unfolding finalize_refund
finalize_due-Finalized k b {r} {after} found due e =
    let e1 = rw (found, finalize_refund) at e in
    let (p, paid_by, e2) =
      or_throw->>=-eq-ok (find_payment r.payment_id b.payments) plain_error _ (rw due at e1) in
    let (o, f, e3) = or_throw->>=-eq-ok (find_order r.order_id b.shop) plain_error _ e2 in
    finalize_transaction-Finalized k r p o b found paid_by due e3

pub finalize_refund-Finalized :
    (k : ℕ) (b : Books) {after : Books}
    → finalize_refund k b ≡ ok after
    → (after ≡ b) ⊎ Finalized k b after
unfolding finalize_refund
finalize_refund-Finalized k b {after} e = elim (Option-cases (find_refund k b.refunds)) [
  | inl gone ↦ inl (sym (ok-injective (rw (gone, finalize_refund) at e)))
  | inr (r, found) ↦ elim (Bool-cases (is_processed r.status)) [
    | inl done ↦ inl (sym (ok-injective (rw done at (rw (found, finalize_refund) at e))))
    | inr due ↦ inr (finalize_due-Finalized k b found due e)
  ]
]

-- A request adds a refund that holds nothing yet.
pub record Opens (fresh : ℕ) (b after : Books) : Type 0 where
  pub row : Refund
  pub key : row.id ≡ fresh
  pub requested : row.status ≡ RefundStatus.requested
  pub unknown : row.gateway_refund_id ≡ none
  pub added : after ≡ add_refund row b

pub request_refund-Opens :
    (user_id : ℕ) (input : RefundInput) (fresh : ℕ) (b : Books) {after : Books}
    → request_refund user_id input fresh b ≡ ok after
    → Opens fresh b after
unfolding request_refund
request_refund-Opens user_id input fresh b {after} e =
    let (scope, e0, e1) = >>=-eq-ok (resolve_scope input b.shop) _ e in
    let (customer, f0, e2) = >>=-eq-ok (customer_of user_id b.shop) _ e1 in
    let (g0, e3) = throw_if->>-eq-ok (not (scope.0.customer_id == customer)) forbidden _ e2 in
    let (p, h0, e4) = >>=-eq-ok (get_refundable_payment scope.0.id b) _ e3 in
    let (i0, e5) =
      throw_if->>-eq-ok (has_payout_in_flight (scope_of scope.0 scope.1 b.shop)) bad_request _ e4 in
    let (j0, e6) =
      throw_if->>-eq-ok (leb_ℤ (compute_max_refundable p b.refunds) (pos 0)) bad_request _ e5 in
    let (u, k0, e7) =
      >>=-eq-ok
        (check_amount
          (get_or input.amount (default_amount scope.1 (compute_max_refundable p b.refunds)))
          (compute_max_refundable p b.refunds))
        _ e6 in
    record {
      row =
          new_refund fresh scope.0.id (slice_id scope.1) p.id
            (clip
              (get_or input.amount (default_amount scope.1 (compute_max_refundable p b.refunds))))
            input.restock (some user_id);
      key = refl;
      requested = refl;
      unknown = refl;
      added = sym (ok-injective e7);
    }
