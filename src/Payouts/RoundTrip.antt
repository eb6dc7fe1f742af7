-- ===== src/Payouts/RoundTrip.antt =====
-- A payout that is created and fails leaves the sub-orders, the items and the clawbacks as they were.
use e_commerce_backend.Common.{
  ℕ, ◌≡◌, refl, sym, ap, ◌∙◌, subst, true, not, Option, none, some, List, [], ◌∷◌, arith, ◌==◌, map,
  select, length, All, if◌then◌else◌, ok, >>=-eq-ok, throw_if->>-eq-ok, or_throw->>=-eq-ok,
  ok-injective, conflict,
}
use e_commerce_backend.Database.{SellerOrder, PayoutStatus, find_seller_order, update_seller_order}
use e_commerce_backend.Finance.{Books, Clawback, Payout, PayoutItem}
use e_commerce_backend.Payouts.{PreviewItem, Preview, is_pending_payout, has_item}
use e_commerce_backend.Payouts.Runs.{
  set_payout_status, create_items, is_taken_up, apply_to, apply_clawbacks, new_payout,
  create_payout, find_payout, set_payout, orders_of, settle_all, free_from, mark_payout_failed,
}
use e_commerce_backend.Payouts.Failure.{
  is_elsewhere, is_unlinked, free_from-apply_to, view, find_in, round-view,
}

-- What the items of a payout leave, seen with its sub-orders pending again.
record Created (k : ℕ) (b after : Books) : Type 0 where
  payouts : after.payouts ≡ b.payouts
  clawbacks : after.clawbacks ≡ b.clawbacks
  items : select (is_elsewhere k) after.payout_items ≡ select (is_elsewhere k) b.payout_items
  orders :
      (j : ℕ)
      → view j (orders_of k after.payout_items) (find_seller_order j after.shop)
        ≡ view j (orders_of k b.payout_items) (find_seller_order j b.shop)

abbrev item_for : ℕ → PreviewItem → PayoutItem
item_for k i = record {
  payout_id = k;
  seller_order_id = i.seller_order_id;
  amount = i.amount;
  refunded_amount = i.refunded_amount;
  tcs_deducted = i.tcs_deducted;
}

create_items-Created :
    (k : ℕ) (is : List PreviewItem) (b : Books) {after : Books}
    → create_items k is b ≡ ok after
    → Created k b after
unfolding create_items
create_items-Created k [] b e =
    subst (Created k b) (ok-injective e)
      (record { payouts = refl; clawbacks = refl; items = refl; orders = λ j. refl })
create_items-Created k (i ∷ is) b {after} e =
    let (absent, e1) = throw_if->>-eq-ok (has_item i.seller_order_id b.payout_items) conflict _ e in
    let (so, found, e2) =
      or_throw->>=-eq-ok (find_seller_order i.seller_order_id b.shop) conflict _ e1 in
    let (waits, e3) = throw_if->>-eq-ok (not (is_pending_payout so.payout_status)) conflict _ e2 in
    let mid : Books = record b {
      shop =
          update_seller_order i.seller_order_id (set_payout_status PayoutStatus.processing) b.shop;
      payout_items = item_for k i ∷ b.payout_items;
    } in
    let rest : Created k mid after = create_items-Created k is mid e3 in
    let mine : (k == k) ≡ true = ground arith in
    record {
      payouts = rest.payouts;
      clawbacks = rest.clawbacks;
      items = rest.items ∙ rw mine refl;
      orders = λ j.
          rest.orders j
          ∙ round-view k i.seller_order_id j (item_for k i) b.payout_items b.shop.seller_orders so
              refl refl absent found (ground arith);
    }

elsewhere-select :
    (k : ℕ) (is : List PayoutItem)
    → All (λ i. is_elsewhere k i ≡ true) is
    → select (is_elsewhere k) is ≡ is
elsewhere-select k [] h = refl
elsewhere-select k (i ∷ is) (h, hs) = ground (arith, elsewhere-select k is hs)

elsewhere-orders_of :
    (k : ℕ) (is : List PayoutItem) → All (λ i. is_elsewhere k i ≡ true) is → orders_of k is ≡ []
elsewhere-orders_of k [] h = refl
elsewhere-orders_of k (i ∷ is) (h, hs) = ground (arith, elsewhere-orders_of k is hs)

view-nothing : (j : ℕ) (o : Option SellerOrder) → view j [] o ≡ o
view-nothing j none = refl
view-nothing j (some s) = refl

-- The books after the failure.
abbrev pub failed : ℕ → Books → Books
failed k b = record b {
  shop = settle_all (orders_of k b.payout_items) PayoutStatus.pending b.shop;
  payout_items = select (is_elsewhere k) b.payout_items;
  clawbacks = map (free_from k) b.clawbacks;
  payouts = set_payout k PayoutStatus.failed b.payouts;
}

fails :
    (k : ℕ) (p : Preview) (b : Books) {ps : List Payout}
    → b.payouts ≡ new_payout k p ∷ ps
    → mark_payout_failed k b ≡ ok (failed k b)
unfolding mark_payout_failed
fails k p b {ps} e =
    let mine : (k == k) ≡ true = ground arith in
    let found : find_payout k b.payouts ≡ some (new_payout k p) =
      ap (find_payout k) e ∙ ap (λ z. if z then some (new_payout k p) else find_payout k ps) mine in
    rw (found, mark_payout_failed) refl

-- A payout that was created can be marked failed; after that every sub-order, every item and every
-- clawback is as it was before the payout was created, so that a later run can settle them again. Before,
-- no item is of the new payout, and no clawback is linked to it or, while it is pending, to any payout.
pub mark_payout_failed-create_payout :
    (k : ℕ) (p : Preview) (b : Books) {mid : Books}
    → All (λ (i : PayoutItem). is_elsewhere k i ≡ true) b.payout_items
    → All (λ (c : Clawback). is_unlinked k c ≡ true) b.clawbacks
    → create_payout k p b ≡ ok mid
    → (mark_payout_failed k mid ≡ ok (failed k mid))
      × ((j : ℕ) → find_seller_order j (failed k mid).shop ≡ find_seller_order j b.shop)
      × ((failed k mid).payout_items ≡ b.payout_items)
      × ((failed k mid).clawbacks ≡ b.clawbacks)
unfolding create_payout apply_clawbacks
mark_payout_failed-create_payout k p b {mid} free unlinked e =
    let (made, a, e1) =
      >>=-eq-ok (create_items k p.items (record b { payouts = new_payout k p ∷ b.payouts })) _ e in
    let (counted, e2) =
      throw_if->>-eq-ok
        (not (length (select (is_taken_up p.applied) made.clawbacks) == length p.applied)) conflict
        _ e1 in
    let same : record made { clawbacks = map (apply_to k p.applied) made.clawbacks } ≡ mid =
      ok-injective e2 in
    let c = create_items-Created k p.items (record b { payouts = new_payout k p ∷ b.payouts }) a in
    let items : mid.payout_items ≡ made.payout_items =
      ap (λ (x : Books). x.payout_items) (sym same) in
    let shop : mid.shop ≡ made.shop = ap (λ (x : Books). x.shop) (sym same) in
    (
      fails k p mid (ap (λ (x : Books). x.payouts) (sym same) ∙ c.payouts),
      (λ j.
          find_in j (orders_of k mid.payout_items) mid.shop.seller_orders
          ∙ ap (λ is. view j (orders_of k is) (find_seller_order j mid.shop)) items
          ∙ ap (λ db. view j (orders_of k made.payout_items) (find_seller_order j db)) shop
          ∙ c.orders j
          ∙ ap (λ ids. view j ids (find_seller_order j b.shop))
              (elsewhere-orders_of k b.payout_items free)
          ∙ view-nothing j (find_seller_order j b.shop)),
      ap (select (is_elsewhere k)) items ∙ c.items ∙ elsewhere-select k b.payout_items free,
      ap (λ (x : Books). map (free_from k) x.clawbacks) (sym same)
          ∙ ap (λ cs. map (free_from k) (map (apply_to k p.applied) cs)) c.clawbacks
          ∙ free_from-apply_to k p.applied b.clawbacks unlinked,
    )
