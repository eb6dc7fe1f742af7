-- ===== src/Payouts/Steps.antt =====
-- Runs, payments and failures of payouts in sequence.
use e_commerce_backend.Common.{
  ℕ, ◌≡◌, refl, sym, ap, ◌∙◌, subst, true, false, not, none, some, List, [], ◌∷◌, arith, ◌==◌,
  select, length, All, All-imp, ok, Bool-cases, inl, inr, >>=-eq-ok, throw_if->>-eq-ok,
  or_throw->>=-eq-ok, ok-injective, conflict,
}
use e_commerce_backend.Database.{
  Database, SellerOrder, PayoutStatus, find_seller_order, set_seller_order,
}
use e_commerce_backend.Finance.{Books, Payout, PayoutItem}
use e_commerce_backend.Payouts.{PreviewItem, Preview, has_item, is_pending_payout}
use e_commerce_backend.Payouts.Runs.{
  set_payout_status, create_items, is_taken_up, apply_clawbacks, new_payout, create_payout,
  find_payout, mark_payout_paid, mark_payout_failed,
}
use e_commerce_backend.Payouts.Ledger.{
  is_settling, IsSettled, AreSingle, IsInStep, find_set_other, find_set_own,
}
use e_commerce_backend.Payouts.Marks.{mark_payout_paid-IsInStep, mark_payout_failed-IsInStep}

ordered-settled :
    (k : ℕ) (ps : List Payout) (sos : List SellerOrder) (is : List PayoutItem)
    → has_item k is ≡ false
    → All (IsSettled ps sos) is
    → All (IsSettled ps (set_seller_order k (set_payout_status PayoutStatus.processing) sos)) is
ordered-settled k ps sos [] h ss = tt
ordered-settled k ps sos (i ∷ is) h (s, ss) = (
  record {
    payout = s.payout;
    so = s.so;
    has_payout = s.has_payout;
    has_order =
        find_set_other i.seller_order_id k (set_payout_status PayoutStatus.processing) sos
          (λ x. refl) (ground arith)
        ∙ s.has_order;
    in_step = s.in_step;
    settling = s.settling;
  },
  ordered-settled k ps sos is (ground arith) ss,
)

create_items-IsInStep :
    (k : ℕ) (p : Payout) (is : List PreviewItem) (b : Books) {after : Books}
    → find_payout k b.payouts ≡ some p
    → p.status ≡ PayoutStatus.processing
    → create_items k is b ≡ ok after
    → IsInStep b
    → IsInStep after
unfolding create_items
create_items-IsInStep k p [] b has busy e c = subst IsInStep (ok-injective e) c
create_items-IsInStep k p (i ∷ is) b {after} has busy e c =
    let (absent, e1) = throw_if->>-eq-ok (has_item i.seller_order_id b.payout_items) conflict _ e in
    let (so, found, e2) =
      or_throw->>=-eq-ok (find_seller_order i.seller_order_id b.shop) conflict _ e1 in
    let (waits, e3) = throw_if->>-eq-ok (not (is_pending_payout so.payout_status)) conflict _ e2 in
    create_items-IsInStep k p is _ has busy e3 (record {
      single = (absent, c.single);
      settled = (
        record {
          payout = p;
          so = set_payout_status PayoutStatus.processing so;
          has_payout = has;
          has_order =
              find_set_own i.seller_order_id (set_payout_status PayoutStatus.processing)
                b.shop.seller_orders so (λ x. refl) found;
          in_step = sym busy;
          settling = ap is_settling busy;
        },
        ordered-settled i.seller_order_id b.payouts b.shop.seller_orders b.payout_items absent
            c.settled,
      );
    })

new-settled :
    (p : Payout) (ps : List Payout) (sos : List SellerOrder) (is : List PayoutItem)
    → find_payout p.id ps ≡ none
    → All (IsSettled ps sos) is
    → All (IsSettled (p ∷ ps) sos) is
new-settled p ps sos [] free ss = tt
new-settled p ps sos (i ∷ is) free (s, ss) = (
  record {
    payout = s.payout;
    so = s.so;
    has_payout = elim (Bool-cases (p.id == i.payout_id)) [
      | inl same ↦
          let gone = subst (λ j. find_payout j ps ≡ none) (ground arith) free in
          let never : none ≡ some s.payout = sym gone ∙ s.has_payout in cc
      | inr other ↦ rw other s.has_payout
    ];
    has_order = s.has_order;
    in_step = s.in_step;
    settling = s.settling;
  },
  new-settled p ps sos is free ss,
)

create_payout-IsInStep :
    (k : ℕ) (p : Preview) (b : Books) {after : Books}
    → find_payout k b.payouts ≡ none
    → create_payout k p b ≡ ok after
    → IsInStep b
    → IsInStep after
unfolding create_payout apply_clawbacks
create_payout-IsInStep k p b {after} free e c =
    let (made, a, e1) =
      >>=-eq-ok (create_items k p.items (record b { payouts = new_payout k p ∷ b.payouts })) _ e in
    let (g, e2) =
      throw_if->>-eq-ok
        (not (length (select (is_taken_up p.applied) made.clawbacks) == length p.applied)) conflict
        _ e1 in
    let mine : (k == k) ≡ true = ground arith in
    let opened : IsInStep (record b { payouts = new_payout k p ∷ b.payouts }) = record {
      single = c.single;
      settled =
          new-settled (new_payout k p) b.payouts b.shop.seller_orders b.payout_items free c.settled;
    } in
    let stepped =
      create_items-IsInStep k (new_payout k p) p.items
        (record b { payouts = new_payout k p ∷ b.payouts }) (rw mine refl) refl a opened in
    subst IsInStep (ok-injective e2) (record { single = stepped.single; settled = stepped.settled })

-- One transaction of the service, or a write elsewhere that leaves the payout status of the sub-orders:
-- orders, refunds and returns change without it. A new payout takes an identifier that is not in use.
pub data Step : Books → Books → Type 0 where
  runs :
      (fresh : ℕ) (p : Preview) (a b : Books)
      → find_payout fresh a.payouts ≡ none
      → create_payout fresh p a ≡ ok b
      → Step a b
  pays : (k : ℕ) (a b : Books) → mark_payout_paid k a ≡ ok b → Step a b
  fails : (k : ℕ) (a b : Books) → mark_payout_failed k a ≡ ok b → Step a b
  elsewhere :
      (a b : Books)
      → b.payouts ≡ a.payouts
      → b.payout_items ≡ a.payout_items
      → ((j : ℕ) (so : SellerOrder)
          → find_seller_order j a.shop ≡ some so
          → (after : SellerOrder) × (find_seller_order j b.shop ≡ some after)
            × (after.payout_status ≡ so.payout_status))
      → Step a b

pub data Steps : Books → Books → Type 0 where
  none_yet : (a : Books) → Steps a a
  then : {a b c : Books} → Steps a b → Step b c → Steps a c

elsewhere-settled :
    (ps : List Payout) (a b : Database) (is : List PayoutItem)
    → ((j : ℕ) (so : SellerOrder)
        → find_seller_order j a ≡ some so
        → (after : SellerOrder) × (find_seller_order j b ≡ some after)
          × (after.payout_status ≡ so.payout_status))
    → All (IsSettled ps a.seller_orders) is
    → All (IsSettled ps b.seller_orders) is
elsewhere-settled ps a b is same ss =
    All-imp (IsSettled ps a.seller_orders) (IsSettled ps b.seller_orders) is
      (λ i s.
        let (after, found, status) = same i.seller_order_id s.so s.has_order in
        record {
          payout = s.payout;
          so = after;
          has_payout = s.has_payout;
          has_order = found;
          in_step = status ∙ s.in_step;
          settling = s.settling;
        })
      ss

Step-IsInStep : {a b : Books} → Step a b → IsInStep a → IsInStep b
Step-IsInStep (Step.runs fresh p a b free e) c = create_payout-IsInStep fresh p a free e c
Step-IsInStep (Step.pays k a b e) c = mark_payout_paid-IsInStep k a e c
Step-IsInStep (Step.fails k a b e) c = mark_payout_failed-IsInStep k a e c
Step-IsInStep (Step.elsewhere a b payouts items same) c = record {
  single = subst AreSingle (sym items) c.single;
  settled =
      subst (λ is. All (IsSettled b.payouts b.shop.seller_orders) is) (sym items)
        (subst (λ ps. All (IsSettled ps b.shop.seller_orders) a.payout_items) (sym payouts)
          (elsewhere-settled a.payouts a.shop b.shop a.payout_items same c.settled));
}

-- Through any sequence of payout transactions no sub-order is in two items, and the sub-order of every item
-- is processing or paid exactly as its payout is, where both hold before.
pub Steps-IsInStep : {a b : Books} → Steps a b → IsInStep a → IsInStep b
Steps-IsInStep (Steps.none_yet a) c = c
Steps-IsInStep (Steps.then steps step) c = Step-IsInStep step (Steps-IsInStep steps c)
