-- ===== src/Payouts/Marks.antt =====
-- The marks that finance sets on a payout keep it in step with its sub-orders.
use e_commerce_backend.Common.{
  ℕ, ◌≡◌, refl, sym, ◌∙◌, subst, true, false, not, some, List, [], ◌∷◌, arith, ◌==◌, map, select,
  includes, All, if◌then◌else◌, ok, Bool-cases, inl, inr, throw_if->>-eq-ok, or_throw->>=-eq-ok,
  ok-injective, bad_request, not_found,
}
use e_commerce_backend.Database.{SellerOrder, PayoutStatus}
use e_commerce_backend.Finance.{Books, Payout, PayoutItem}
use e_commerce_backend.Payouts.{has_item}
use e_commerce_backend.Payouts.Runs.{
  set_payout_status, is_in_progress, is_paid_out, find_payout, set_payout, orders_of,
  mark_payout_paid, mark_payout_failed,
}
use e_commerce_backend.Payouts.Ledger.{
  is_settling, IsSettled, AreSingle, IsInStep, find_settled_other, find_settled_own, IsApart,
  single-IsApart,
}

find_set_payout_other :
    (j k : ℕ) (status : PayoutStatus) (ps : List Payout)
    → (k == j) ≡ false
    → find_payout j (set_payout k status ps) ≡ find_payout j ps
find_set_payout_other j k status [] h = refl
find_set_payout_other j k status (p ∷ ps) h = ground (arith, find_set_payout_other j k status ps h)

find_set_payout_own :
    (k : ℕ) (status : PayoutStatus) (ps : List Payout) (p : Payout)
    → find_payout k ps ≡ some p
    → find_payout k (set_payout k status ps) ≡ some (record p { status = status })
find_set_payout_own k status [] p e = cc
find_set_payout_own k status (q ∷ ps) p e = ground (arith, find_set_payout_own k status ps p)

abbrev marked : List ℕ → PayoutStatus → List SellerOrder → List SellerOrder
marked ids status =
    map (λ (s : SellerOrder). if includes s.id ids then set_payout_status status s else s)

-- The mark of a payout leaves the items of the others in step.
kept-IsSettled :
    (k : ℕ) (status : PayoutStatus) (ps : List Payout) (sos : List SellerOrder)
    (is : List PayoutItem) (i : PayoutItem)
    → IsApart k is i
    → (i.payout_id == k) ≡ false
    → IsSettled ps sos i
    → IsSettled (set_payout k status ps) (marked (orders_of k is) status sos) i
kept-IsSettled k status ps sos is i apart other s = record {
  payout = s.payout;
  so = s.so;
  has_payout = find_set_payout_other i.payout_id k status ps (ground arith) ∙ s.has_payout;
  has_order =
      find_settled_other i.seller_order_id (orders_of k is) status sos (apart ∙ other)
      ∙ s.has_order;
  in_step = s.in_step;
  settling = s.settling;
}

-- The items of the payout take its new status.
moved-IsSettled :
    (k : ℕ) (status : PayoutStatus) (ps : List Payout) (sos : List SellerOrder)
    (is : List PayoutItem) (i : PayoutItem)
    → is_settling status ≡ true
    → IsApart k is i
    → (i.payout_id == k) ≡ true
    → IsSettled ps sos i
    → IsSettled (set_payout k status ps) (marked (orders_of k is) status sos) i
moved-IsSettled k status ps sos is i live apart own s =
    let same : i.payout_id ≡ k = ground arith in
    record {
      payout = record s.payout { status = status };
      so = set_payout_status status s.so;
      has_payout =
          subst
            (λ j.
              find_payout j (set_payout k status ps) ≡ some (record s.payout { status = status }))
            (sym same)
            (find_set_payout_own k status ps s.payout
              (subst (λ j. find_payout j ps ≡ some s.payout) same s.has_payout));
      has_order =
          find_settled_own i.seller_order_id (orders_of k is) status sos s.so (apart ∙ own)
            s.has_order;
      in_step = refl;
      settling = live;
    }

paid-settled :
    (k : ℕ) (ps : List Payout) (sos : List SellerOrder) (is js : List PayoutItem)
    → All (IsApart k is) js
    → All (IsSettled ps sos) js
    → All
        (IsSettled
          (set_payout k PayoutStatus.paid ps)
          (marked (orders_of k is) PayoutStatus.paid sos))
        js
paid-settled k ps sos is [] hs ss = tt
paid-settled k ps sos is (j ∷ js) (a, hs) (s, ss) = (
  elim (Bool-cases (j.payout_id == k)) [
    | inl own ↦ moved-IsSettled k PayoutStatus.paid ps sos is j refl a own s
    | inr other ↦ kept-IsSettled k PayoutStatus.paid ps sos is j a other s
  ],
  paid-settled k ps sos is js hs ss,
)

failed-settled :
    (k : ℕ) (ps : List Payout) (sos : List SellerOrder) (is js : List PayoutItem)
    → All (IsApart k is) js
    → All (IsSettled ps sos) js
    → All
        (IsSettled
          (set_payout k PayoutStatus.failed ps)
          (marked (orders_of k is) PayoutStatus.pending sos))
        (select (λ (i : PayoutItem). not (i.payout_id == k)) js)
failed-settled k ps sos is [] hs ss = tt
failed-settled k ps sos is (j ∷ js) (a, hs) (s, ss) = elim (Bool-cases (j.payout_id == k)) [
  | inl own ↦ rw own (failed-settled k ps sos is js hs ss)
  | inr other ↦ rw other (
    record {
      payout = s.payout;
      so = s.so;
      has_payout =
          find_set_payout_other j.payout_id k PayoutStatus.failed ps (ground arith) ∙ s.has_payout;
      has_order =
          find_settled_other j.seller_order_id (orders_of k is) PayoutStatus.pending sos (a ∙ other)
          ∙ s.has_order;
      in_step = s.in_step;
      settling = s.settling;
    },
    failed-settled k ps sos is js hs ss,
  )
]

select-has_item :
    (k so : ℕ) (is : List PayoutItem)
    → has_item so is ≡ false
    → has_item so (select (λ (i : PayoutItem). not (i.payout_id == k)) is) ≡ false
select-has_item k so [] h = refl
select-has_item k so (i ∷ is) h = ground (arith, select-has_item k so is)

select-AreSingle :
    (k : ℕ) (is : List PayoutItem)
    → AreSingle is
    → AreSingle (select (λ (i : PayoutItem). not (i.payout_id == k)) is)
select-AreSingle k [] s = tt
select-AreSingle k (i ∷ is) (n, s) = elim (Bool-cases (i.payout_id == k)) [
  | inl own ↦ rw own (select-AreSingle k is s)
  | inr other ↦ rw other (select-has_item k i.seller_order_id is n, select-AreSingle k is s)
]

pub mark_payout_paid-IsInStep :
    (k : ℕ) (b : Books) {after : Books}
    → mark_payout_paid k b ≡ ok after
    → IsInStep b
    → IsInStep after
unfolding mark_payout_paid
mark_payout_paid-IsInStep k b {after} e c =
    let (p, found, e1) = or_throw->>=-eq-ok (find_payout k b.payouts) not_found _ e in
    elim (Bool-cases (is_paid_out p.status)) [
      | inl done ↦ subst IsInStep (ok-injective (rw done at e1)) c
      | inr due ↦
          let (g, e2) =
            throw_if->>-eq-ok (not (is_in_progress p.status)) bad_request _ (rw due at e1) in
          subst IsInStep (ok-injective e2) (record {
            single = c.single;
            settled =
                paid-settled k b.payouts b.shop.seller_orders b.payout_items b.payout_items
                  (single-IsApart k b.payout_items c.single) c.settled;
          })
    ]

pub mark_payout_failed-IsInStep :
    (k : ℕ) (b : Books) {after : Books}
    → mark_payout_failed k b ≡ ok after
    → IsInStep b
    → IsInStep after
unfolding mark_payout_failed
mark_payout_failed-IsInStep k b {after} e c =
    let (p, found, e1) = or_throw->>=-eq-ok (find_payout k b.payouts) not_found _ e in
    let (g, e2) = throw_if->>-eq-ok (not (is_in_progress p.status)) bad_request _ e1 in
    subst IsInStep (ok-injective e2) (record {
      single = select-AreSingle k b.payout_items c.single;
      settled =
          failed-settled k b.payouts b.shop.seller_orders b.payout_items b.payout_items
            (single-IsApart k b.payout_items c.single) c.settled;
    })
