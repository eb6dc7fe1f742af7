-- ===== src/Payouts/Failure.antt =====
-- A payout that fails gives back what its creation took.
use e_commerce_backend.Common.{
  ℕ, ◌≡◌, refl, sym, ap, ◌∙◌, subst, Bool, true, false, not, ◌&&◌, Option, none, some, List, [],
  ◌∷◌, arith, ◌==◌, find, map, includes, All, if◌then◌else◌, Bool-cases, Option-cases, inl, inr,
}
use e_commerce_backend.Database.{SellerOrder, PayoutStatus, set_seller_order}
use e_commerce_backend.Finance.{Clawback, PayoutItem}
use e_commerce_backend.Payouts.{is_pending_payout, has_item, is_pending}
use e_commerce_backend.Payouts.Runs.{set_payout_status, apply_to, orders_of, free_from}

-- No item is of the payout, and no clawback is applied to it or, while it waits, to any.
abbrev pub is_elsewhere : ℕ → PayoutItem → Bool
is_elsewhere k i = not (i.payout_id == k)

abbrev pub is_unlinked : ℕ → Clawback → Bool
is_unlinked k c = elim c.payout_id [
  | none ↦ true
  | some j ↦ not (is_pending c.status) && not (j == k)
]

pub free_from-apply_to :
    (k : ℕ) (ids : List ℕ) (cs : List Clawback)
    → All (λ c. is_unlinked k c ≡ true) cs
    → map (free_from k) (map (apply_to k ids) cs) ≡ cs
free_from-apply_to k ids [] h = refl
free_from-apply_to k ids (c ∷ cs) (h, hs) = ground (arith, free_from-apply_to k ids cs hs, h)

pending_sound : (st : PayoutStatus) → is_pending_payout st ≡ true → st ≡ PayoutStatus.pending
pending_sound PayoutStatus.pending h = refl
pending_sound _ h = cc

pending_again :
    (so : SellerOrder)
    → is_pending_payout so.payout_status ≡ true
    → set_payout_status PayoutStatus.pending so ≡ so
pending_again so h = ap (λ st. set_payout_status st so) (sym (pending_sound so.payout_status h))

-- What a sub-order becomes when the given ones go back to pending.
abbrev pub view : ℕ → List ℕ → Option SellerOrder → Option SellerOrder
view j ids none = none
view j ids (some s) = some (if includes j ids then set_payout_status PayoutStatus.pending s else s)

pub find_in :
    (j : ℕ) (ids : List ℕ) (sos : List SellerOrder)
    → find
        (λ (s : SellerOrder). s.id == j)
        (map
          (λ (s : SellerOrder).
            if includes s.id ids then set_payout_status PayoutStatus.pending s else s)
          sos)
      ≡ view j ids (find (λ (s : SellerOrder). s.id == j) sos)
find_in j ids [] = refl
find_in j ids (s ∷ sos) = elim (Bool-cases (s.id == j)) [
  | inl own ↦
      let same : s.id ≡ j = ground arith in
      elim (Bool-cases (includes s.id ids)) [
        | inl inside ↦
            rw (inside, own)
              (ap (λ z. some (if z then set_payout_status PayoutStatus.pending s else s))
                (sym inside ∙ ap (λ i. includes i ids) same))
        | inr outside ↦
            rw (outside, own)
              (ap (λ z. some (if z then set_payout_status PayoutStatus.pending s else s))
                (sym outside ∙ ap (λ i. includes i ids) same))
      ]
  | inr other ↦ elim (Bool-cases (includes s.id ids)) [
    | inl inside ↦ rw (inside, other) (find_in j ids sos)
    | inr outside ↦ rw (outside, other) (find_in j ids sos)
  ]
]

find_set :
    (j k : ℕ) (f : SellerOrder → SellerOrder) (sos : List SellerOrder)
    → ((s : SellerOrder) → (f s).id ≡ s.id)
    → find (λ (s : SellerOrder). s.id == j) (set_seller_order k f sos)
      ≡ (elim (find (λ (s : SellerOrder). s.id == j) sos) [
        | none ↦ none
        | some s ↦ some (if k == j then f s else s)
      ])
find_set j k f [] same = refl
find_set j k f (s ∷ sos) same = ground (arith, same s, find_set j k f sos same)

absent-includes :
    (payout so : ℕ) (items : List PayoutItem)
    → has_item so items ≡ false
    → includes so (orders_of payout items) ≡ false
absent-includes payout so [] h = refl
absent-includes payout so (i ∷ is) h = ground (arith, absent-includes payout so is)

-- One round leaves the view as it was.
pub round-view :
    (payout k j : ℕ) (i : PayoutItem) (items : List PayoutItem) (sos : List SellerOrder)
    (so : SellerOrder)
    → i.payout_id ≡ payout
    → i.seller_order_id ≡ k
    → has_item k items ≡ false
    → find (λ (s : SellerOrder). s.id == k) sos ≡ some so
    → is_pending_payout so.payout_status ≡ true
    → view j (orders_of payout (i ∷ items)) (
        find
          (λ (s : SellerOrder). s.id == j)
          (set_seller_order k (set_payout_status PayoutStatus.processing) sos))
      ≡ view j (orders_of payout items) (find (λ (s : SellerOrder). s.id == j) sos)
round-view payout k j i items sos so own_payout own_order absent found waits =
    let mine : (i.payout_id == payout) ≡ true = ground arith in
    let set = find_set j k (set_payout_status PayoutStatus.processing) sos (λ s. refl) in
    elim (Bool-cases (k == j)) [
      | inl here ↦
          let same : k ≡ j = ground arith in
          let found_j : find (λ (s : SellerOrder). s.id == j) sos ≡ some so =
            subst (λ z. find (λ (s : SellerOrder). s.id == z) sos ≡ some so) same found in
          let outside : includes j (orders_of payout items) ≡ false =
            absent-includes payout j items (subst (λ z. has_item z items ≡ false) same absent) in
          let inside : includes j (orders_of payout (i ∷ items)) ≡ true =
            let first : (j == i.seller_order_id) ≡ true = ground arith in rw mine (rw first refl) in
          let left : find (λ (s : SellerOrder). s.id == j)
                (set_seller_order k (set_payout_status PayoutStatus.processing) sos)
              ≡ some (set_payout_status PayoutStatus.processing so) =
            set
            ∙ ap
                (λ o. elim o [
                  | none ↦ none
                  | some s ↦
                      some (if k == j then set_payout_status PayoutStatus.processing s else s)
                ])
                found_j
            ∙ ap (λ z. some (if z then set_payout_status PayoutStatus.processing so else so))
                here in
          ap (view j (orders_of payout (i ∷ items))) left
          ∙ ap
              (λ z. some (
                if z
                then set_payout_status PayoutStatus.pending so
                else set_payout_status PayoutStatus.processing so))
              inside
          ∙ ap some (pending_again so waits)
          ∙ sym
              (ap (λ z. some (if z then set_payout_status PayoutStatus.pending so else so)) outside)
          ∙ sym (ap (view j (orders_of payout items)) found_j)
      | inr there ↦
          let inside : includes j (orders_of payout (i ∷ items))
              ≡ includes j (orders_of payout items) =
            let first : (j == i.seller_order_id) ≡ false = ground arith in
            rw mine (rw first refl) in
          elim (Option-cases (find (λ (s : SellerOrder). s.id == j) sos)) [
            | inl gone ↦
                ap (view j (orders_of payout (i ∷ items))) (
                  set
                  ∙ ap
                      (λ o. elim o [
                        | none ↦ none
                        | some s ↦
                            some (if k == j then set_payout_status PayoutStatus.processing s else s)
                      ])
                      gone)
                ∙ sym (ap (view j (orders_of payout items)) gone)
            | inr (s, here) ↦
                ap (view j (orders_of payout (i ∷ items))) (
                  set
                  ∙ ap
                      (λ o. elim o [
                        | none ↦ none
                        | some s ↦
                            some (if k == j then set_payout_status PayoutStatus.processing s else s)
                      ])
                      here
                  ∙ ap (λ z. some (if z then set_payout_status PayoutStatus.processing s else s))
                      there)
                ∙ ap (λ z. some (if z then set_payout_status PayoutStatus.pending s else s)) inside
                ∙ sym (ap (view j (orders_of payout items)) here)
          ]
    ]
