-- ===== src/Order/Status/Parent.antt =====
-- The rolled-up status of a parent order, against a description that does not run the loop.
use e_commerce_backend.Common.{
  ℕ, ◌≤◌, ◌≡◌, refl, sym, ap, ◌∙◌, subst, ◌⊎◌, inl, inr, true, false, List, [], ◌∷◌, arith, any_of,
  select, All, Bool-cases,
}
use e_commerce_backend.Order.Status.{
  OrderStatus, ◌=s◌, is_live, progress_at, earlier, earliest_of, roll_up, compute_parent_status,
}
use e_commerce_backend.Order.Status.Workflow.{stage}

abbrev pub Has : OrderStatus → List OrderStatus → Type 0
Has r ss = any_of (λ t. t =s r) ss ≡ true

abbrev AllLive : List OrderStatus → Type 0
AllLive = All (λ s. is_live s ≡ true)

select-AllLive : (ss : List OrderStatus) → AllLive (select is_live ss)
select-AllLive [] = tt
select-AllLive (s ∷ ss) = elim (Bool-cases (is_live s)) [
  | inl live ↦ rw live (live, select-AllLive ss)
  | inr gone ↦ rw gone (select-AllLive ss)
]

earlier_lem :
    (e : ℕ) (s : OrderStatus)
    → e ≤ 4
    → is_live s ≡ true
    → (earlier e s ≤ e)
      × (earlier e s ≤ stage s)
      × ((earlier e s ≡ e) ⊎ (s ≡ progress_at (earlier e s)))
earlier_lem e OrderStatus.pending h live = ground arith
earlier_lem e OrderStatus.confirmed h live = ground arith
earlier_lem e OrderStatus.packed h live = ground arith
earlier_lem e OrderStatus.shipped h live = ground arith
earlier_lem e OrderStatus.delivered h live = ground arith
earlier_lem e OrderStatus.cancelled h live = cc
earlier_lem e OrderStatus.refunded h live = cc

=s_refl : (s : OrderStatus) → (s =s s) ≡ true
=s_refl s = ground arith

Has-here : (r s : OrderStatus) (ss : List OrderStatus) → s ≡ r → Has r (s ∷ ss)
Has-here r s ss e = rw (e, =s_refl r)

Has-there : (r s : OrderStatus) (ss : List OrderStatus) → Has r ss → Has r (s ∷ ss)
Has-there r s ss h = ground arith

-- What the loop leaves: the least stage met, and either the start value or a status met.
abbrev Least : ℕ → ℕ → List OrderStatus → Type 0
Least e r live = (r ≤ e) × All (λ s. r ≤ stage s) live × ((r ≡ e) ⊎ Has (progress_at r) live)

Least-cons :
    (e r : ℕ) (s : OrderStatus) (live : List OrderStatus)
    → e ≤ 4
    → is_live s ≡ true
    → Least (earlier e s) r live
    → Least e r (s ∷ live)
Least-cons e r s live h l (below, least, inl same) =
    let (a, b, c) = earlier_lem e s h l in (omega arith, (omega arith, least), pick c)
  where
    pick :
        (earlier e s ≡ e) ⊎ (s ≡ progress_at (earlier e s))
        → (r ≡ e) ⊎ Has (progress_at r) (s ∷ live)
    pick (inl kept) = inl (same ∙ kept)
    pick (inr found) = inr (Has-here _ s live (found ∙ ap progress_at (sym same)))
Least-cons e r s live h l (below, least, inr found) =
    let (a, b, c) = earlier_lem e s h l in
    (omega arith, (omega arith, least), inr (Has-there _ s live found))

earliest_of-Least :
    (e : ℕ) (live : List OrderStatus) → e ≤ 4 → AllLive live → Least e (earliest_of e live) live
unfolding earliest_of
earliest_of-Least e [] h a = (omega arith, tt, inl refl)
earliest_of-Least e (s ∷ live) h (l, a) =
    Least-cons e _ s live h l
      (earliest_of-Least (earlier e s) live (omega (arith, (earlier_lem e s h l).0)) a)

stage-progress_at : (r : ℕ) → r ≤ 4 → stage (progress_at r) ≤ r
stage-progress_at r h = ground arith

-- A status that is not live is at the last stage.
stage-ended : (s : OrderStatus) → is_live s ≡ false → 5 ≤ stage s
stage-ended OrderStatus.cancelled h = omega arith
stage-ended OrderStatus.refunded h = omega arith
stage-ended _ h = cc

All-unselect :
    (r : ℕ) (ss : List OrderStatus)
    → r ≤ 5
    → All (λ s. r ≤ stage s) (select is_live ss)
    → All (λ s. r ≤ stage s) ss
All-unselect r [] h a = tt
All-unselect r (s ∷ ss) h a = elim (Bool-cases (is_live s)) [
  | inl live ↦
      let (p, ps) : (r ≤ stage s) × All (λ t. r ≤ stage t) (select is_live ss) = rw live at a in
      (p, All-unselect r ss h ps)
  | inr gone ↦ (omega (arith, stage-ended s gone), All-unselect r ss h (rw gone at a))
]

Has-widen :
    (r s : OrderStatus) (xs ys : List OrderStatus)
    → (Has r xs → Has r ys)
    → Has r (s ∷ xs)
    → Has r (s ∷ ys)
Has-widen r s xs ys f h = ground arith

Has-unselect : (r : OrderStatus) (ss : List OrderStatus) → Has r (select is_live ss) → Has r ss
Has-unselect r [] h = h
Has-unselect r (s ∷ ss) h = elim (Bool-cases (is_live s)) [
  | inl live ↦
      let h' : Has r (s ∷ select is_live ss) = rw live at h in
      Has-widen r s (select is_live ss) ss (Has-unselect r ss) h'
  | inr gone ↦ Has-there r s ss (Has-unselect r ss (rw gone at h))
]

-- What is known of the status that is shown.
Earliest : OrderStatus → List OrderStatus → Type 0
Earliest shown ss = Has shown ss × All (λ t. stage shown ≤ stage t) ss

All-le_trans :
    (a b : ℕ) (ss : List OrderStatus)
    → a ≤ b
    → All (λ t. b ≤ stage t) ss
    → All (λ t. a ≤ stage t) ss
All-le_trans a b [] h q = tt
All-le_trans a b (s ∷ ss) h (q, qs) = (omega arith, All-le_trans a b ss h qs)

ended-refunded :
    (s : OrderStatus) (rest : List OrderStatus)
    → 5 ≤ stage s
    → any_of (λ t. t =s OrderStatus.cancelled) (s ∷ rest) ≡ false
    → Has OrderStatus.refunded (s ∷ rest)
ended-refunded s rest h none_cancelled = ground arith

Earliest-at :
    (shown r : OrderStatus) (ss : List OrderStatus)
    → shown ≡ r
    → Has r ss
    → All (λ t. stage r ≤ stage t) ss
    → Earliest shown ss
unfolding Earliest
Earliest-at shown r ss e h a =
    subst (λ x. Has x ss × All (λ t. stage x ≤ stage t) ss) (sym e) (h, a)

-- The smallest stage is that of the last live status, or of one that is in the list.
progress_at-Has :
    (r : ℕ) (t : OrderStatus) (ts : List OrderStatus)
    → r ≤ stage t
    → is_live t ≡ true
    → ((r ≡ 4) ⊎ Has (progress_at r) (t ∷ ts))
    → Has (progress_at r) (t ∷ ts)
progress_at-Has r t ts h live (inr met) = met
progress_at-Has r t ts h live (inl last) =
    Has-here (progress_at r) t ts (rw last (delivered_of_stage t live (omega arith)))
  where
    delivered_of_stage :
        (t : OrderStatus) → is_live t ≡ true → 4 ≤ stage t → t ≡ OrderStatus.delivered
    delivered_of_stage t l k = ground arith

roll_up-Earliest :
    (live : List OrderStatus) (s : OrderStatus) (rest : List OrderStatus)
    → AllLive live
    → ((r : OrderStatus) → Has r live → Has r (s ∷ rest))
    → ((r : ℕ) → r ≤ 5 → All (λ t. r ≤ stage t) live → All (λ t. r ≤ stage t) (s ∷ rest))
    → Earliest (roll_up live (s ∷ rest)) (s ∷ rest)
unfolding roll_up
roll_up-Earliest [] s rest a inc wide =
    let last : All (λ t. 5 ≤ stage t) (s ∷ rest) = wide 5 (omega arith) tt in
    elim (Bool-cases (any_of (λ t. t =s OrderStatus.cancelled) (s ∷ rest))) [
      | inl e ↦ Earliest-at _ OrderStatus.cancelled (s ∷ rest) (rw e) e last
      | inr e ↦
          Earliest-at _ OrderStatus.refunded (s ∷ rest) (rw e) (ended-refunded s rest last.0 e) last
    ]
roll_up-Earliest (t ∷ ts) s rest (l, a) inc wide =
    let r : ℕ = earliest_of 4 (t ∷ ts) in
    let (below, least, met) = earliest_of-Least 4 (t ∷ ts) (omega arith) (l, a) in
    Earliest-at _ (progress_at r) (s ∷ rest) refl
      (inc (progress_at r) (progress_at-Has r t ts least.0 l met))
      (All-le_trans _ r (s ∷ rest) (stage-progress_at r below) (wide r (omega arith) least))

-- For every non-empty list of sub-order statuses, the status shown for the parent is the status of
-- one of the sub-orders, and no sub-order is at an earlier stage.
pub compute_parent_status-earliest :
    (s : OrderStatus) (rest : List OrderStatus)
    → let shown = compute_parent_status (s ∷ rest) in
      Has shown (s ∷ rest) × All (λ t. stage shown ≤ stage t) (s ∷ rest)
unfolding compute_parent_status Earliest
compute_parent_status-earliest s rest =
    roll_up-Earliest (select is_live (s ∷ rest)) s rest (select-AllLive (s ∷ rest))
      (λ r. Has-unselect r (s ∷ rest)) (λ r. All-unselect r (s ∷ rest))
