-- ===== src/Returns/Trails.antt =====
-- Every change of the log of returns keeps the trails.
use e_commerce_backend.Common.{
  ℕ, ◌≡◌, refl, sym, ap, ◌∙◌, subst, true, Option, none, some, List, [], ◌∷◌, arith, ◌==◌,
  some-injective, if◌then◌else◌, Bool-cases, Option-cases, inl, inr,
}
use e_commerce_backend.Database.{OrderItem}
use e_commerce_backend.Finance.{ReturnStatus, ReturnRequest, ReturnEvent, find_return, set_return}
use e_commerce_backend.Returns.{◌=r◌, is_valid_return_transition}
use e_commerce_backend.Returns.Ledger.{
  Log, KeepsReturn, event_of, with_status, Change, Changes, find_return-set, trail, is_trail,
  IsTraced,
}

pub same_status : (s : ReturnStatus) → (s =r s) ≡ true
same_status ReturnStatus.requested = refl
same_status ReturnStatus.approved = refl
same_status ReturnStatus.pickup_scheduled = refl
same_status ReturnStatus.in_transit = refl
same_status ReturnStatus.received = refl
same_status ReturnStatus.qc_passed = refl
same_status ReturnStatus.qc_failed = refl
same_status ReturnStatus.refunded = refl
same_status ReturnStatus.replacement_approved = refl
same_status ReturnStatus.replacement_shipped = refl
same_status ReturnStatus.closed = refl
same_status ReturnStatus.rejected = refl

pub found_return-id :
    (k : ℕ) (rs : List ReturnRequest) (r : ReturnRequest) → find_return k rs ≡ some r → r.id ≡ k
found_return-id k [] r e = cc
found_return-id k (x ∷ rs) r e = ground (arith, found_return-id k rs r)

-- What a return is after a write, from what it was.
written-found :
    (j k : ℕ) (f : ReturnRequest → ReturnRequest) (rs : List ReturnRequest) (s : ReturnRequest)
    → ((x : ReturnRequest) → (f x).id ≡ x.id)
    → find_return j (set_return k f rs) ≡ some s
    → (r : ReturnRequest) × (find_return j rs ≡ some r) × ((if k == j then f r else r) ≡ s)
written-found j k f rs s same e = elim (Option-cases (find_return j rs)) [
  | inl gone ↦
      let no =
        ap
          (λ (q : Option ReturnRequest). elim q [
            | none ↦ none
            | some r ↦ some (if k == j then f r else r)
          ])
          gone in
      let never : none ≡ some s = sym (find_return-set j k f rs same ∙ no) ∙ e in cc
  | inr (r, found) ↦
      let now =
        ap
          (λ (q : Option ReturnRequest). elim q [
            | none ↦ none
            | some r ↦ some (if k == j then f r else r)
          ])
          found in
      (r, found, some-injective (sym (find_return-set j k f rs same ∙ now) ∙ e))
]

unwritten-found :
    (j k : ℕ) (f : ReturnRequest → ReturnRequest) (rs : List ReturnRequest)
    → ((x : ReturnRequest) → (f x).id ≡ x.id)
    → find_return j (set_return k f rs) ≡ none
    → find_return j rs ≡ none
unwritten-found j k f [] same e = refl
unwritten-found j k f (x ∷ rs) same e = ground (arith, same x, unwritten-found j k f rs same)

is_trail-step :
    (k : ℕ) (from to : ReturnStatus) (actor : Option ℕ) (es : List ReturnEvent)
    → is_valid_return_transition from to ≡ true
    → is_trail es from ≡ true
    → is_trail (event_of k (some from) to actor ∷ es) to ≡ true
unfolding is_trail
is_trail-step k from to actor es valid t = rw (same_status to, valid, t) refl

is_trail-start :
    (k : ℕ) (actor : Option ℕ)
    → is_trail (event_of k none ReturnStatus.requested actor ∷ []) ReturnStatus.requested ≡ true
unfolding is_trail
is_trail-start k actor = refl

opens-IsTraced :
    (r : ReturnRequest) (actor : Option ℕ) (rs : List ReturnRequest) (es : List ReturnEvent)
    → find_return r.id rs ≡ none
    → r.status ≡ ReturnStatus.requested
    → IsTraced (rs, es)
    → IsTraced (r ∷ rs, event_of r.id none ReturnStatus.requested actor ∷ es)
opens-IsTraced r actor rs es free asked t = record {
  traced = λ j s e. elim (Bool-cases (r.id == j)) [
    | inl own ↦
        let here : r ≡ s = some-injective (rw own at e) in
        let fresh : trail j es ≡ [] =
          t.known j (subst (λ i. find_return i rs ≡ none) (ground arith) free) in
        rw own (
          subst
            (λ x. is_trail (event_of r.id none ReturnStatus.requested actor ∷ trail j es) x ≡ true)
            (sym asked ∙ ap (λ (x : ReturnRequest). x.status) here)
            (subst
              (λ l.
                is_trail (event_of r.id none ReturnStatus.requested actor ∷ l)
                  ReturnStatus.requested
                ≡ true)
              (sym fresh) (is_trail-start r.id actor)))
    | inr other ↦ rw other (t.traced j s (rw other at e))
  ];
  known = λ j e. elim (Bool-cases (r.id == j)) [
    | inl own ↦ let no = rw own at e in cc
    | inr other ↦ rw other (t.known j (rw other at e))
  ];
}

writes-IsTraced :
    (k : ℕ) (f : ReturnRequest → ReturnRequest) (rs : List ReturnRequest) (es : List ReturnEvent)
    → KeepsReturn f
    → IsTraced (rs, es)
    → IsTraced (set_return k f rs, es)
writes-IsTraced k f rs es keeps t = record {
  traced = λ j s e.
      let (r, found, now) = written-found j k f rs s keeps.id e in
      let status : r.status ≡ s.status = ground (arith, keeps.status r) in
      subst (λ x. is_trail (trail j es) x ≡ true) status (t.traced j r found);
  known = λ j e. t.known j (unwritten-found j k f rs keeps.id e);
}

moves-IsTraced :
    (k : ℕ) (to : ReturnStatus) (f : ReturnRequest → ReturnRequest) (actor : Option ℕ)
    (r : ReturnRequest) (rs : List ReturnRequest) (es : List ReturnEvent)
    → KeepsReturn f
    → find_return k rs ≡ some r
    → is_valid_return_transition r.status to ≡ true
    → IsTraced (rs, es)
    → IsTraced (set_return k (with_status to f) rs, event_of k (some r.status) to actor ∷ es)
moves-IsTraced k to f actor r rs es keeps found valid t = record {
  traced = λ j s e.
      let (x, before, now) = written-found j k (with_status to f) rs s keeps.id e in
      elim (Bool-cases (k == j)) [
        | inl own ↦
            let same : k ≡ j = ground arith in
            let row : x ≡ r =
              some-injective (sym before ∙ ap (λ i. find_return i rs) (sym same) ∙ found) in
            let moved : with_status to f x ≡ s = rw own at now in
            rw own (
              subst (λ z. is_trail (event_of k (some r.status) to actor ∷ trail j es) z ≡ true)
                (ap (λ (z : ReturnRequest). z.status) moved)
                (is_trail-step k r.status to actor (trail j es) valid (
                  subst (λ (z : ReturnRequest). is_trail (trail j es) z.status ≡ true) row
                    (t.traced j x before))))
        | inr other ↦
            let kept : x ≡ s = rw other at now in
            rw other (
              subst (λ (z : ReturnRequest). is_trail (trail j es) z.status ≡ true) kept
                (t.traced j x before))
      ];
  known = λ j e. elim (Bool-cases (k == j)) [
    | inl own ↦
        let gone = unwritten-found j k (with_status to f) rs keeps.id e in
        let same : k ≡ j = ground arith in
        let never : some r ≡ none = sym found ∙ ap (λ i. find_return i rs) same ∙ gone in cc
    | inr other ↦ rw other (t.known j (unwritten-found j k (with_status to f) rs keeps.id e))
  ];
}

pub Change-IsTraced :
    (bought : List OrderItem) {l m : Log} → Change bought l m → IsTraced l → IsTraced m
Change-IsTraced bought (Change.opens r actor rs es free asked room) t =
    opens-IsTraced r actor rs es free asked t
Change-IsTraced bought (Change.moves k to f actor r rs es keeps found valid live) t =
    moves-IsTraced k to f actor r rs es keeps found valid t
Change-IsTraced bought (Change.writes k f rs es keeps) t = writes-IsTraced k f rs es keeps t

pub Changes-IsTraced :
    (bought : List OrderItem) {l m : Log} → Changes bought l m → IsTraced l → IsTraced m
Changes-IsTraced bought (Changes.nothing l) t = t
Changes-IsTraced bought (Changes.then cs c) t =
    Change-IsTraced bought c (Changes-IsTraced bought cs t)
