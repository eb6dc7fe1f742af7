-- ===== src/Payouts/Ledger.antt =====
-- Payouts and the sub-orders that they settle stay in step through runs, payments and failures.
use e_commerce_backend.Common.{
  ℕ, ◌≡◌, refl, ap, subst, Bool, true, false, some, List, [], ◌∷◌, arith, ◌==◌, find, map, includes,
  All, if◌then◌else◌, Bool-cases, inl, inr, some-injective,
}
use e_commerce_backend.Database.{SellerOrder, PayoutStatus, set_seller_order}
use e_commerce_backend.Finance.{Books, Payout, PayoutItem}
use e_commerce_backend.Payouts.{has_item}
use e_commerce_backend.Payouts.Runs.{set_payout_status, find_payout, orders_of}

abbrev pub is_settling : PayoutStatus → Bool
is_settling PayoutStatus.processing = true
is_settling PayoutStatus.paid = true
is_settling _ = false

-- The sub-order of an item has the status of its payout, which is being paid or is paid.
pub record IsSettled (ps : List Payout) (sos : List SellerOrder) (i : PayoutItem) : Type 0 where
  pub payout : Payout
  pub so : SellerOrder
  pub has_payout : find_payout i.payout_id ps ≡ some payout
  pub has_order : find (λ (s : SellerOrder). s.id == i.seller_order_id) sos ≡ some so
  pub in_step : so.payout_status ≡ payout.status
  pub settling : is_settling payout.status ≡ true

-- No sub-order is in two items.
abbrev pub AreSingle : List PayoutItem → Type 0
AreSingle [] = Unit
AreSingle (i ∷ is) = (has_item i.seller_order_id is ≡ false) × AreSingle is

pub record IsInStep (b : Books) : Type 0 where
  pub single : AreSingle b.payout_items
  pub settled : All (IsSettled b.payouts b.shop.seller_orders) b.payout_items

pub find_set_other :
    (j k : ℕ) (f : SellerOrder → SellerOrder) (sos : List SellerOrder)
    → ((s : SellerOrder) → (f s).id ≡ s.id)
    → (k == j) ≡ false
    → find (λ (s : SellerOrder). s.id == j) (set_seller_order k f sos)
      ≡ find (λ (s : SellerOrder). s.id == j) sos
find_set_other j k f [] same h = refl
find_set_other j k f (s ∷ sos) same h = ground (arith, same s, find_set_other j k f sos same h)

pub find_set_own :
    (k : ℕ) (f : SellerOrder → SellerOrder) (sos : List SellerOrder) (so : SellerOrder)
    → ((s : SellerOrder) → (f s).id ≡ s.id)
    → find (λ (s : SellerOrder). s.id == k) sos ≡ some so
    → find (λ (s : SellerOrder). s.id == k) (set_seller_order k f sos) ≡ some (f so)
find_set_own k f [] so same e = cc
find_set_own k f (s ∷ sos) so same e = ground (arith, same s, find_set_own k f sos so same)

pub find_settled_other :
    (j : ℕ) (ids : List ℕ) (status : PayoutStatus) (sos : List SellerOrder)
    → includes j ids ≡ false
    → find
        (λ (s : SellerOrder). s.id == j)
        (map (λ (s : SellerOrder). if includes s.id ids then set_payout_status status s else s) sos)
      ≡ find (λ (s : SellerOrder). s.id == j) sos
find_settled_other j ids status [] h = refl
find_settled_other j ids status (s ∷ sos) h = elim (Bool-cases (s.id == j)) [
  | inl own ↦
      let outside : includes s.id ids ≡ false =
        subst (λ k. includes k ids ≡ false) (ground arith) h in
      rw (outside, own) refl
  | inr other ↦ elim (Bool-cases (includes s.id ids)) [
    | inl inside ↦ rw (inside, other) (find_settled_other j ids status sos h)
    | inr outside ↦ rw (outside, other) (find_settled_other j ids status sos h)
  ]
]

pub find_settled_own :
    (j : ℕ) (ids : List ℕ) (status : PayoutStatus) (sos : List SellerOrder) (so : SellerOrder)
    → includes j ids ≡ true
    → find (λ (s : SellerOrder). s.id == j) sos ≡ some so
    → find
        (λ (s : SellerOrder). s.id == j)
        (map (λ (s : SellerOrder). if includes s.id ids then set_payout_status status s else s) sos)
      ≡ some (set_payout_status status so)
find_settled_own j ids status [] so h e = cc
find_settled_own j ids status (s ∷ sos) so h e = elim (Bool-cases (s.id == j)) [
  | inl own ↦
      let inside : includes s.id ids ≡ true = subst (λ k. includes k ids ≡ true) (ground arith) h in
      let here : s ≡ so = some-injective (rw own at e) in
      rw (inside, own) (ap (λ x. some (set_payout_status status x)) here)
  | inr other ↦
      let rest = find_settled_own j ids status sos so h (rw other at e) in
      elim (Bool-cases (includes s.id ids)) [
        | inl inside ↦ rw (inside, other) rest
        | inr outside ↦ rw (outside, other) rest
      ]
]

-- The items of one payout and those of the others have different sub-orders.
absent-orders_of :
    (k so : ℕ) (is : List PayoutItem)
    → has_item so is ≡ false
    → includes so (orders_of k is) ≡ false
absent-orders_of k so [] h = refl
absent-orders_of k so (i ∷ is) h = ground (arith, absent-orders_of k so is)

-- The sub-orders of the items that are not of payout `k`.
abbrev pub IsApart : ℕ → List PayoutItem → PayoutItem → Type 0
IsApart k is i = includes i.seller_order_id (orders_of k is) ≡ (i.payout_id == k)

IsApart-step :
    (k : ℕ) (x i : PayoutItem) (is : List PayoutItem)
    → (x.seller_order_id == i.seller_order_id) ≡ false
    → IsApart k is i
    → IsApart k (x ∷ is) i
IsApart-step k x i is differ h = ground (arith, h)

IsApart-all :
    (k : ℕ) (x : PayoutItem) (is js : List PayoutItem)
    → has_item x.seller_order_id js ≡ false
    → All (IsApart k is) js
    → All (IsApart k (x ∷ is)) js
IsApart-all k x is [] h all = tt
IsApart-all k x is (j ∷ js) h (a, all) =
    (IsApart-step k x j is (ground arith) a, IsApart-all k x is js (ground arith) all)

pub single-IsApart : (k : ℕ) (is : List PayoutItem) → AreSingle is → All (IsApart k is) is
single-IsApart k [] s = tt
single-IsApart k (i ∷ is) (n, s) = (
  ground (arith, absent-orders_of k i.seller_order_id is n),
  IsApart-all k i is is n (single-IsApart k is s),
)
