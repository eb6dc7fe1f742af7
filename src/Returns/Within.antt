-- ===== src/Returns/Within.antt =====
-- Every change of the log of returns keeps the returned quantities within what was bought.
use e_commerce_backend.Common.{
  ℕ, ◌+◌, ◌≤◌, ◌≡◌, refl, sym, ap, subst, true, false, ◌&&◌, none, some, List, [], ◌∷◌, arith, ◌==◌,
  sum_by, if◌then◌else◌, Bool-cases, Option-cases, inl, inr,
}
use e_commerce_backend.Database.{OrderItem}
use e_commerce_backend.Finance.{ReturnStatus, ReturnRequest, find_return, set_return}
use e_commerce_backend.Returns.{
  ◌=r◌, is_valid_return_transition, items_in, item_in, is_counted, quantity_in, returned_qty,
}
use e_commerce_backend.Returns.Ledger.{Log, KeepsReturn, with_status, IsWithin, Change, Changes}

-- No two returns have the same identifier.
abbrev pub AreUnique : List ReturnRequest → Type 0
AreUnique [] = Unit
AreUnique (r ∷ rs) = (find_return r.id rs ≡ none) × AreUnique rs

find_return-set_none :
    (j k : ℕ) (f : ReturnRequest → ReturnRequest) (rs : List ReturnRequest)
    → ((x : ReturnRequest) → (f x).id ≡ x.id)
    → find_return j rs ≡ none
    → find_return j (set_return k f rs) ≡ none
find_return-set_none j k f [] same e = refl
find_return-set_none j k f (x ∷ rs) same e =
    ground (arith, same x, find_return-set_none j k f rs same)

set_return-AreUnique :
    (k : ℕ) (f : ReturnRequest → ReturnRequest) (rs : List ReturnRequest)
    → ((x : ReturnRequest) → (f x).id ≡ x.id)
    → AreUnique rs
    → AreUnique (set_return k f rs)
set_return-AreUnique k f [] same u = tt
set_return-AreUnique k f (x ∷ rs) same (n, u) = (
  ground (arith, same x, find_return-set_none x.id k f rs same n),
  set_return-AreUnique k f rs same u,
)

set_return-absent :
    (k : ℕ) (f : ReturnRequest → ReturnRequest) (rs : List ReturnRequest)
    → find_return k rs ≡ none
    → set_return k f rs ≡ rs
set_return-absent k f [] e = refl
set_return-absent k f (x ∷ rs) e = ground (arith, set_return-absent k f rs)

-- A sum does not grow when the written row does not count more than before.
sum-set_return :
    (w : ReturnRequest → ℕ) (k : ℕ) (f : ReturnRequest → ReturnRequest) (rs : List ReturnRequest)
    (r : ReturnRequest)
    → AreUnique rs
    → find_return k rs ≡ some r
    → w (f r) ≤ w r
    → sum_by w (set_return k f rs) ≤ sum_by w rs
sum-set_return w k f [] r u e h = cc
sum-set_return w k f (x ∷ rs) r (n, u) e h =
    ground (arith, set_return-absent k f rs, sum-set_return w k f rs r u, n)

-- No move leads from a status that is not counted to one that is, but for the closing of a return that
-- failed its inspection.
valid-is_counted :
    (from to : ReturnStatus)
    → is_valid_return_transition from to ≡ true
    → (to =r ReturnStatus.closed) ≡ false
    → is_counted to ≡ true
    → is_counted from ≡ true
unfolding is_valid_return_transition
valid-is_counted ReturnStatus.rejected to v n c = cc
valid-is_counted ReturnStatus.qc_failed ReturnStatus.rejected v n c = c
valid-is_counted ReturnStatus.qc_failed ReturnStatus.closed v n c = cc
valid-is_counted ReturnStatus.qc_failed _ v n c = v
valid-is_counted _ to v n c = refl

-- What a return counts for an item of a sub-order.
abbrev counts : ℕ → ℕ → ReturnRequest → ℕ
counts so k r = if r.seller_order_id == so && is_counted r.status then quantity_in k r.items else 0

counts-moved :
    (so k : ℕ) (to : ReturnStatus) (f : ReturnRequest → ReturnRequest) (r : ReturnRequest)
    → KeepsReturn f
    → is_valid_return_transition r.status to ≡ true
    → (to =r ReturnStatus.closed) ≡ false
    → counts so k (with_status to f r) ≤ counts so k r
counts-moved so k to f r keeps valid live = elim (Bool-cases (is_counted to)) [
  | inl still ↦
      let before = valid-is_counted r.status to valid live still in
      let items = ap (quantity_in k) (keeps.items r) in
      ground (arith, keeps.of r, items, before, still)
  | inr over ↦ rw over (ground arith)
]

counts-written :
    (so k : ℕ) (f : ReturnRequest → ReturnRequest) (r : ReturnRequest)
    → KeepsReturn f
    → counts so k (f r) ≡ counts so k r
counts-written so k f r keeps = rw (keeps.of r, keeps.status r, keeps.items r) refl

pub record IsBounded (bought : List OrderItem) (rs : List ReturnRequest) : Type 0 where
  pub unique : AreUnique rs
  pub within : IsWithin bought rs

pub Change-IsBounded :
    (bought : List OrderItem) {l m : Log}
    → Change bought l m
    → IsBounded bought l.0
    → IsBounded bought m.0
Change-IsBounded bought (Change.opens r actor rs es free asked room) c = record {
  unique = (free, c.unique);
  within = λ so k oi e. elim (Bool-cases (r.seller_order_id == so)) [
    | inl own ↦
        let same : r.seller_order_id ≡ so = ground arith in
        let fits =
          room c.within k oi (subst (λ s. item_in k (items_in s bought) ≡ some oi) (sym same) e) in
        let enough =
          subst (λ s. returned_qty s k rs + quantity_in k r.items ≤ oi.quantity) same fits in
        rw (own, asked) (omega (arith, enough))
    | inr other ↦ let before = c.within so k oi e in rw other (omega (arith, before))
  ];
}
Change-IsBounded bought (Change.moves j to f actor r rs es keeps found valid live) c = record {
  unique = set_return-AreUnique j (with_status to f) rs keeps.id c.unique;
  within = λ so k oi e.
      let less =
        sum-set_return (counts so k) j (with_status to f) rs r c.unique found
          (counts-moved so k to f r keeps valid live) in
      let before = c.within so k oi e in omega (arith, less, before);
}
Change-IsBounded bought (Change.writes j f rs es keeps) c = record {
  unique = set_return-AreUnique j f rs keeps.id c.unique;
  within = λ so k oi e. elim (Option-cases (find_return j rs)) [
    | inl gone ↦ rw (set_return-absent j f rs gone) (c.within so k oi e)
    | inr (r, found) ↦
        let same = counts-written so k f r keeps in
        let less = sum-set_return (counts so k) j f rs r c.unique found (omega (arith, same)) in
        let before = c.within so k oi e in omega (arith, less, before)
  ];
}

pub Changes-IsBounded :
    (bought : List OrderItem) {l m : Log}
    → Changes bought l m
    → IsBounded bought l.0
    → IsBounded bought m.0
Changes-IsBounded bought (Changes.nothing l) c = c
Changes-IsBounded bought (Changes.then cs d) c =
    Change-IsBounded bought d (Changes-IsBounded bought cs c)
