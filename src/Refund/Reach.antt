-- ===== src/Refund/Reach.antt =====
-- Sequences of calls: the ledger of refunds is respected, and no payment pays back more than it captured.
use mathlib.Core.Path.{fun_ext}
use e_commerce_backend.Common.{
  ℕ, ◌≡◌, refl, sym, ap, ◌∙◌, subst, true, false, Option, none, some, List, inl, inr, get_or, ◌⊎◌,
  Exception, ok, err, Result, ◌>>=◌, Bool-cases, Option-cases, >>=-eq-ok, throw_if->>-eq-ok,
  or_throw->>=-eq-ok, ok-injective, bad_request, or_throw->>=-eq-ok,
}
use e_commerce_backend.Common.Int.{ℤ, pos, leb_ℤ, clip}
use e_commerce_backend.Common.Text.{Text}
use e_commerce_backend.Database.{Database, SellerOrder}
use e_commerce_backend.Finance.{
  Books, Payment, Refund, ReturnRequest, TransactionStatus, find_refund, set_payment, set_shop,
}
use e_commerce_backend.Refund.{
  RefundInput, request_refund, new_refund, check_amount, captured_payment, compute_max_refundable,
  is_manual, min_ℤ,
}
use e_commerce_backend.Refund.Execution.{
  GatewayReply, approve_refund, reject_refund, disburse_manual_refund, WebhookStatus,
  handle_refund_webhook,
}
use e_commerce_backend.Refund.Sellers.{
  create_seller_refund, load_owned_seller_order, create_in_slice, assess_seller_refund,
  refund_for_return, reserved, reserve_refund,
}
use e_commerce_backend.Refund.Ledger.{Captured, Entry, Entries, IsCovered, Entries-IsCovered}
use e_commerce_backend.Refund.Effects.{amount_of-set_payment, Opens, request_refund-Opens}
use e_commerce_backend.Refund.Refinement.{captured_in, Implements, same-Implements}
use e_commerce_backend.Refund.Approval.{approve_refund-Implements, reject_refund-Implements}
use e_commerce_backend.Refund.Calls.{
  disburse_manual_refund-Implements, handle_refund_webhook-Implements,
}

-- One call, whether it raises or not. A new refund takes an identifier that is not in use. What other
-- services do to the shop, and to the statuses of payments and of returns, is not restricted.
pub data Call : Books → Books → Type 0 where
  requests :
      (user_id : ℕ) (input : RefundInput) (fresh : ℕ) (a b : Books)
      → find_refund fresh a.refunds ≡ none
      → request_refund user_id input fresh a ≡ ok b
      → Call a b
  starts_as_seller :
      (user_id k : ℕ) (asked : Option ℤ) (fresh : ℕ) (reply : GatewayReply) (a : Books)
      → find_refund fresh a.refunds ≡ none
      → Call a (create_seller_refund user_id k asked fresh reply a).0
  starts_for_return :
      (ret : ReturnRequest) (amount actor fresh : ℕ) (reply : GatewayReply) (a : Books)
      → find_refund fresh a.refunds ≡ none
      → Call a (refund_for_return ret amount actor fresh reply a).0
  approves :
      (admin : ℕ) (reply : GatewayReply) (k : ℕ) (a : Books)
      → Call a (approve_refund admin true reply k a).0
  rejects : (admin k : ℕ) (a b : Books) → reject_refund admin k a ≡ ok b → Call a b
  disburses :
      (admin k : ℕ) (reference : Text) (a : Books)
      → Call a (disburse_manual_refund admin k reference a).0
  hears_from_gateway :
      (gid : ℕ) (status : WebhookStatus) (a : Books) → Call a (handle_refund_webhook gid status a).0
  moves_shop : (db : Database) (a : Books) → Call a (set_shop db a)
  moves_payment :
      (k : ℕ) (status : TransactionStatus) (a : Books)
      → Call a
          (record a { payments = set_payment k (λ p. record p { status = status }) a.payments })
  moves_returns :
      (returns : List ReturnRequest) (a : Books) → Call a (record a { returns = returns })

pub data Calls : Books → Books → Type 0 where
  none_yet : (a : Books) → Calls a a
  then : {a b c : Books} → Calls a b → Call b c → Calls a c

Entries-append :
    (captured : Captured) {rs ss ts : List Refund}
    → Entries captured rs ss
    → Entries captured ss ts
    → Entries captured rs ts
Entries-append captured es (Entries.nothing ss) = es
Entries-append captured es (Entries.then fs e) = Entries.then (Entries-append captured es fs) e

Implements-trans : (a b c : Books) → Implements a b → Implements b c → Implements a c
Implements-trans a b c i j = record {
  amounts = λ k. j.amounts k ∙ i.amounts k;
  entries =
      Entries-append (captured_in a) i.entries
        (subst (λ h. Entries h b.refunds c.refunds) (fun_ext i.amounts) j.entries);
}

Opens-Implements :
    (fresh : ℕ) (a b : Books)
    → find_refund fresh a.refunds ≡ none
    → Opens fresh a b
    → Implements a b
Opens-Implements fresh a b free o = subst (Implements a) (sym o.added) (record {
  amounts = λ k. refl;
  entries = Entries.then (Entries.nothing a.refunds) (
      Entry.opens o.row a.refunds (subst (λ k. find_refund k a.refunds ≡ none) (sym o.key) free)
        o.requested o.unknown);
})

create_in_slice-Opens :
    (user_id : ℕ) (so : SellerOrder) (asked : Option ℤ) (fresh : ℕ) (b : Books) {after : Books}
    → create_in_slice user_id so asked fresh b ≡ ok after
    → Opens fresh b after
unfolding create_in_slice
create_in_slice-Opens user_id so asked fresh b {after} e =
    let (q, a, e1) = >>=-eq-ok (assess_seller_refund so b) _ e in
    let (u, c, e2) = >>=-eq-ok (check_amount (get_or asked q.1) q.1) _ e1 in
    record {
      row =
          new_refund fresh so.order_id (some so.id) q.0.id (clip (get_or asked q.1)) false
            (some user_id);
      key = refl;
      requested = refl;
      unknown = refl;
      added = sym (ok-injective e2);
    }

books_cases : (q : Result Books) → ((e : Exception) × (q ≡ err e)) ⊎ ((v : Books) × (q ≡ ok v))
books_cases (err e) = inl (e, refl)
books_cases (ok v) = inr (v, refl)

create_seller_refund-Implements :
    (user_id k : ℕ) (asked : Option ℤ) (fresh : ℕ) (reply : GatewayReply) (a : Books)
    → find_refund fresh a.refunds ≡ none
    → Implements a (create_seller_refund user_id k asked fresh reply a).0
unfolding create_seller_refund
create_seller_refund-Implements user_id k asked fresh reply a free =
    elim (books_cases (
      load_owned_seller_order user_id k a.shop >>= λ so.
      create_in_slice user_id so asked fresh a)) [
        | inl (e, raised) ↦ rw (raised, create_seller_refund) (same-Implements a)
        | inr (created, done) ↦
            let (so, p, e1) = >>=-eq-ok (load_owned_seller_order user_id k a.shop) _ done in
            rw (done, create_seller_refund)
              (Implements-trans a created (approve_refund user_id true reply fresh created).0
                (Opens-Implements fresh a created free
                  (create_in_slice-Opens user_id so asked fresh a e1))
                (approve_refund-Implements user_id true reply fresh created))
      ]

linked-Implements :
    (ret : ReturnRequest) (p : Payment) (amount fresh k : ℕ) (a b : Books)
    → find_refund fresh a.refunds ≡ none
    → reserve_refund ret p amount fresh a ≡ ok (k, b)
    → Implements a b
unfolding reserve_refund
linked-Implements ret p amount fresh k a b free e = elim (Option-cases ret.refund_id) [
  | inl unlinked ↦
      let e1 = rw (unlinked, reserve_refund) at e in
      let (c, e2) =
        throw_if->>-eq-ok (leb_ℤ (min_ℤ (pos amount) (compute_max_refundable p a.refunds)) (pos 0))
          bad_request _ e1 in
      subst (Implements a) (ap (λ (q : ℕ × Books). q.1) (ok-injective e2)) (record {
        amounts = λ j. refl;
        entries = Entries.then (Entries.nothing a.refunds) (Entry.opens _ a.refunds free refl refl);
      })
  | inr (j, linked) ↦
      subst (Implements a)
        (ap (λ (q : ℕ × Books). q.1) (ok-injective (rw (linked, reserve_refund) at e)))
        (same-Implements a)
]

pub reserved_cases :
    (q : Result (Payment × ℕ × Books))
    → ((e : Exception) × (q ≡ err e)) ⊎ ((p : Payment) × (k : ℕ) × (b : Books) × (q ≡ ok (p, k, b)))
reserved_cases (err e) = inl (e, refl)
reserved_cases (ok (p, k, b)) = inr (p, k, b, refl)

reserved-Implements :
    (ret : ReturnRequest) (amount fresh : ℕ) (a : Books) {p : Payment} {k : ℕ} {b : Books}
    → find_refund fresh a.refunds ≡ none
    → reserved ret amount fresh a ≡ ok (p, k, b)
    → Implements a b
unfolding reserved
reserved-Implements ret amount fresh a {p} {k} {b} free e =
    let (q, g, e1) =
      or_throw->>=-eq-ok (captured_payment ret.order_id a.payments) bad_request _ e in
    let (s, h, e2) = >>=-eq-ok (reserve_refund ret q amount fresh a) _ e1 in
    subst (Implements a) (ap (λ (t : Payment × ℕ × Books). t.2) (ok-injective e2))
      (linked-Implements ret q amount fresh s.0 a s.1 free h)

refund_for_return-Implements :
    (ret : ReturnRequest) (amount actor fresh : ℕ) (reply : GatewayReply) (a : Books)
    → find_refund fresh a.refunds ≡ none
    → Implements a (refund_for_return ret amount actor fresh reply a).0
unfolding refund_for_return
refund_for_return-Implements ret amount actor fresh reply a free =
    elim (reserved_cases (reserved ret amount fresh a)) [
      | inl (e, raised) ↦ rw (raised, refund_for_return) (same-Implements a)
      | inr (p, k, b, done) ↦
          let i = reserved-Implements ret amount fresh a free done in
          rw (done, refund_for_return)
            (elim (Option-cases (find_refund k b.refunds)) [
              | inl gone ↦ rw gone i
              | inr (r, found) ↦ rw found (elim (Bool-cases (is_manual p)) [
                | inl manual ↦ rw manual i
                | inr prepaid ↦ rw prepaid (
                    Implements-trans a b (approve_refund actor false reply k b).0 i
                      (approve_refund-Implements actor false reply k b))
              ])
            ])
    ]

Call-Implements : {a b : Books} → Call a b → IsCovered (captured_in a) a.refunds → Implements a b
Call-Implements (Call.requests user_id input fresh a b free e) c =
    Opens-Implements fresh a b free (request_refund-Opens user_id input fresh a e)
Call-Implements (Call.starts_as_seller user_id k asked fresh reply a free) c =
    create_seller_refund-Implements user_id k asked fresh reply a free
Call-Implements (Call.starts_for_return ret amount actor fresh reply a free) c =
    refund_for_return-Implements ret amount actor fresh reply a free
Call-Implements (Call.approves admin reply k a) c = approve_refund-Implements admin true reply k a
Call-Implements (Call.rejects admin k a b e) c = reject_refund-Implements admin k a e
Call-Implements (Call.disburses admin k reference a) c =
    disburse_manual_refund-Implements admin k reference a
Call-Implements (Call.hears_from_gateway gid status a) c =
    handle_refund_webhook-Implements gid status a c
Call-Implements (Call.moves_shop db a) c = record {
  amounts = λ k. refl;
  entries = Entries.nothing a.refunds;
}
Call-Implements (Call.moves_payment k status a) c = record {
  amounts = λ j. amount_of-set_payment j k _ a.payments (λ p. (refl, refl));
  entries = Entries.nothing a.refunds;
}
Call-Implements (Call.moves_returns returns a) c = record {
  amounts = λ k. refl;
  entries = Entries.nothing a.refunds;
}

Implements-IsCovered :
    (a b : Books)
    → Implements a b
    → IsCovered (captured_in a) a.refunds
    → IsCovered (captured_in b) b.refunds
Implements-IsCovered a b i c =
    subst (λ h. IsCovered h b.refunds) (sym (fun_ext i.amounts))
      (Entries-IsCovered (captured_in a) i.entries c)

-- Any sequence of calls leaves the captured amounts as they were and changes the refunds by entries of
-- the abstract ledger only: a refund is requested, takes its money where the other refunds leave
-- enough of the payment, is answered, settled or refused. This holds from tables where the
-- identifiers differ, every payment covers the refunds that hold its money, up to one paisa, and only
-- an executed refund has a gateway's identifier.
pub Calls-Implements :
    {a b : Books} → Calls a b → IsCovered (captured_in a) a.refunds → Implements a b
Calls-Implements (Calls.none_yet a) c = same-Implements a
Calls-Implements {a} {b} (Calls.then {b = m} calls call) h =
    let i = Calls-Implements calls h in
    Implements-trans a m b i (Call-Implements call (Implements-IsCovered a m i h))

-- Through any sequence of calls of customers, sellers, administrators and the gateway, in any order and
-- with any answers of the gateway, the refunds that are being processed or are processed never hold
-- more of a payment than it captured and one paisa, the identifiers differ, and only an executed
-- refund has a gateway's identifier, where all this holds before.
pub Calls-IsCovered :
    {a b : Books}
    → Calls a b
    → IsCovered (captured_in a) a.refunds
    → IsCovered (captured_in b) b.refunds
Calls-IsCovered {a} {b} calls c = Implements-IsCovered a b (Calls-Implements calls c) c
