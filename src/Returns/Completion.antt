-- ===== src/Returns/Completion.antt =====
-- What follows an inspection follows the abstract log of returns, too.
use e_commerce_backend.Common.{
  ℕ, ◌≡◌, refl, ap, ◌∙◌, subst, false, ◌||◌, Option, none, some, inl, inr, any_of, get_or, leb, ok,
  Bool-cases, Option-cases, >>=-eq-ok, throw_if->>-eq-ok, or_throw->>=-eq-ok, ok-injective,
  bad_request,
}
use e_commerce_backend.Common.Int.{pos, leb_ℤ}
use e_commerce_backend.Database.{SellerOrder, find_seller_order}
use e_commerce_backend.Finance.{
  Books, Payment, Refund, ReturnStatus, ReturnRequest, replacement_approved, find_refund,
  is_processed,
}
use e_commerce_backend.Refund.{captured_payment, compute_max_refundable, is_manual, min_ℤ}
use e_commerce_backend.Refund.Execution.{Outcome, GatewayReply, approve_refund}
use e_commerce_backend.Refund.Sellers.{refund_for_return, reserved, reserve_refund}
use e_commerce_backend.Refund.Scope.{Leaves, approve_refund-Leaves}
use e_commerce_backend.Refund.Reach.{reserved_cases}
use e_commerce_backend.Returns.{◌=r◌, is_valid_return_transition, items_of, is_replacement}
use e_commerce_backend.Returns.Calls.{same_columns}
use e_commerce_backend.Returns.Resolution.{
  is_clawback_of, add_clawback, announce_refund, set_refunded, clawback_amount, refund_transaction,
  settle_return, compute_return_refund_amount, system, complete_qc_passed_refund,
  complete_qc_passed_replacement,
}
use e_commerce_backend.Returns.Ledger.{Changes, Change}
use e_commerce_backend.Returns.Moves.{
  log_of, Follows, SameLog, same-Follows, Follows-SameLog, Follows-trans, move-Follows,
  mail-SameLog, nothing-SameLog, same_columns-KeepsReturn,
}

SameLog-trans : (a b c : Books) → SameLog a b → SameLog b c → SameLog a c
SameLog-trans a b c s t = record {
  returns = t.returns ∙ s.returns;
  events = t.events ∙ s.events;
  items = t.items ∙ s.items;
}

add_clawback-SameLog :
    (rr : ReturnRequest) (amount fresh : ℕ) (b : Books) → SameLog b (add_clawback rr amount fresh b)
add_clawback-SameLog rr amount fresh b =
    elim (Bool-cases (leb amount 0 || any_of (is_clawback_of rr.id) b.clawbacks)) [
      | inl skip ↦ rw skip (nothing-SameLog b)
      | inr go ↦ rw go (record { returns = refl; events = refl; items = refl })
    ]

announce_refund-SameLog :
    (rr : ReturnRequest) (refund : Refund) (b : Books) → SameLog b (announce_refund rr refund b)
announce_refund-SameLog rr refund b = elim (Bool-cases (is_processed refund.status)) [
  | inl paid ↦ rw paid (record { returns = refl; events = refl; items = refl })
  | inr due ↦ rw due (nothing-SameLog b)
]

refund_transaction-Follows :
    (rr : ReturnRequest) (so : SellerOrder) (refund : Refund) (actor : Option ℕ) (fresh : ℕ)
    (b : Books)
    → Follows b (refund_transaction rr so refund actor fresh b)
unfolding refund_transaction is_valid_return_transition
refund_transaction-Follows rr so refund actor fresh b =
    move-Follows rr.id ReturnStatus.qc_passed ReturnStatus.refunded actor (set_refunded refund)
      (λ x. announce_refund rr refund (add_clawback rr (clawback_amount so refund.amount) fresh x))
      b (record { id = λ r. refl; status = λ r. refl; of = λ r. refl; items = λ r. refl }) refl refl
      (λ x.
        SameLog-trans x (add_clawback rr (clawback_amount so refund.amount) fresh x) _
          (add_clawback-SameLog rr (clawback_amount so refund.amount) fresh x)
          (announce_refund-SameLog rr refund
            (add_clawback rr (clawback_amount so refund.amount) fresh x)))

reserve_refund-Follows :
    (ret : ReturnRequest) (p : Payment) (amount fresh k : ℕ) (a b : Books)
    → reserve_refund ret p amount fresh a ≡ ok (k, b)
    → Follows a b
unfolding reserve_refund
reserve_refund-Follows ret p amount fresh k a b e = elim (Option-cases ret.refund_id) [
  | inl unlinked ↦
      let e1 = rw (unlinked, reserve_refund) at e in
      let (c, e2) =
        throw_if->>-eq-ok (leb_ℤ (min_ℤ (pos amount) (compute_max_refundable p a.refunds)) (pos 0))
          bad_request _ e1 in
      subst (Follows a) (ap (λ (q : ℕ × Books). q.1) (ok-injective e2)) (record {
        items = refl;
        changes = Changes.then (Changes.nothing (log_of a)) (
            Change.writes ret.id (λ r. record r { refund_id = some fresh }) a.returns
              a.return_events
              (record { id = λ r. refl; status = λ r. refl; of = λ r. refl; items = λ r. refl }));
      })
  | inr (j, linked) ↦
      subst (Follows a)
        (ap (λ (q : ℕ × Books). q.1) (ok-injective (rw (linked, reserve_refund) at e)))
        (same-Follows a)
]

reserved-Follows :
    (ret : ReturnRequest) (amount fresh : ℕ) (a : Books) {p : Payment} {k : ℕ} {b : Books}
    → reserved ret amount fresh a ≡ ok (p, k, b)
    → Follows a b
unfolding reserved
reserved-Follows ret amount fresh a {p} {k} {b} e =
    let (q, g, e1) =
      or_throw->>=-eq-ok (captured_payment ret.order_id a.payments) bad_request _ e in
    let (s, h, e2) = >>=-eq-ok (reserve_refund ret q amount fresh a) _ e1 in
    subst (Follows a) (ap (λ (t : Payment × ℕ × Books). t.2) (ok-injective e2))
      (reserve_refund-Follows ret q amount fresh s.0 a s.1 h)

Leaves-SameLog : (a b : Books) → Leaves a b → SameLog a b
Leaves-SameLog a b l = record { returns = l.returns; events = l.events; items = l.items }

refund_for_return-Follows :
    (ret : ReturnRequest) (amount actor fresh : ℕ) (reply : GatewayReply) (a : Books)
    → Follows a (refund_for_return ret amount actor fresh reply a).0
unfolding refund_for_return
refund_for_return-Follows ret amount actor fresh reply a =
    elim (reserved_cases (reserved ret amount fresh a)) [
      | inl (e, raised) ↦ rw (raised, refund_for_return) (same-Follows a)
      | inr (p, k, b, done) ↦
          let f = reserved-Follows ret amount fresh a done in
          rw (done, refund_for_return)
            (elim (Option-cases (find_refund k b.refunds)) [
              | inl gone ↦ rw gone f
              | inr (r, found) ↦ rw found (elim (Bool-cases (is_manual p)) [
                | inl manual ↦ rw manual f
                | inr prepaid ↦ rw prepaid (
                    Follows-SameLog a b (approve_refund actor false reply k b).0 f (
                      Leaves-SameLog b (approve_refund actor false reply k b).0
                        (approve_refund-Leaves actor false reply k b)))
              ])
            ])
    ]

settle_return-Follows :
    (a : Books) (rr : ReturnRequest) (so : SellerOrder) (actor : Option ℕ)
    (fresh fresh_clawback : ℕ) (o : Outcome)
    → Follows a o.0
    → Follows a (settle_return rr so actor fresh fresh_clawback o).0
unfolding settle_return
settle_return-Follows a rr so actor fresh fresh_clawback (b, some e) f = f
settle_return-Follows a rr so actor fresh fresh_clawback (b, none) f =
    elim (Option-cases (find_refund (get_or rr.refund_id fresh) b.refunds)) [
      | inl gone ↦ rw (gone, settle_return) f
      | inr (refund, found) ↦
          rw (found, settle_return)
            (Follows-trans a b (refund_transaction rr so refund actor fresh_clawback b) f
              (refund_transaction-Follows rr so refund actor fresh_clawback b))
    ]

pub complete_qc_passed_refund-Follows :
    (rr : ReturnRequest) (actor : Option ℕ) (fresh fresh_clawback : ℕ) (reply : GatewayReply)
    (b : Books)
    → Follows b (complete_qc_passed_refund rr actor fresh fresh_clawback reply b).0
unfolding complete_qc_passed_refund
complete_qc_passed_refund-Follows rr actor fresh fresh_clawback reply b =
    elim (Bool-cases (rr.status =r ReturnStatus.qc_passed)) [
      | inr other ↦ rw other (same-Follows b)
      | inl here ↦ rw here (elim (Bool-cases (is_replacement rr.resolution_type)) [
        | inl swap ↦ rw swap (same-Follows b)
        | inr money ↦ rw money (elim (Option-cases (find_seller_order rr.seller_order_id b.shop)) [
          | inl gone ↦ rw (gone, complete_qc_passed_refund) (same-Follows b)
          | inr (so, found) ↦
              let amount = compute_return_refund_amount (items_of so.id b.shop) rr.items in
              rw (found, complete_qc_passed_refund)
                (settle_return-Follows b rr so actor fresh fresh_clawback
                  (refund_for_return rr amount (get_or actor system) fresh reply b)
                  (refund_for_return-Follows rr amount (get_or actor system) fresh reply b))
        ])
      ])
    ]

pub complete_qc_passed_replacement-Follows :
    (rr : ReturnRequest) (actor : Option ℕ) (b : Books)
    → Follows b (complete_qc_passed_replacement rr actor b).0
unfolding complete_qc_passed_replacement is_valid_return_transition
complete_qc_passed_replacement-Follows rr actor b =
    elim (Bool-cases (rr.status =r ReturnStatus.qc_passed)) [
      | inr other ↦ rw other (same-Follows b)
      | inl here ↦ rw here (elim (Bool-cases (is_replacement rr.resolution_type)) [
        | inr money ↦ rw money (same-Follows b)
        | inl swap ↦ rw swap (
            move-Follows rr.id ReturnStatus.qc_passed ReturnStatus.replacement_approved actor
              same_columns _ b same_columns-KeepsReturn refl refl
              (mail-SameLog (replacement_approved rr.id)))
      ])
    ]
