-- ===== src/Refund/Table.antt =====
-- The table of refunds through the write of one row.
use e_commerce_backend.Common.{
  ℕ, ◌+◌, ◌≡◌, refl, false, ◌&&◌, none, some, List, [], ◌∷◌, arith, ◌==◌, sum_by, if◌then◌else◌,
}
use e_commerce_backend.Finance.{Refund, find_refund, set_refund, is_held}
use e_commerce_backend.Refund.{sum_refunds, sum_other_refunds}

-- No two rows have the same identifier.
abbrev pub AreUnique : List Refund → Type 0
AreUnique [] = Unit
AreUnique (r ∷ rs) = (find_refund r.id rs ≡ none) × AreUnique rs

-- A write that leaves the identifier, the amount and what the refund is for.
pub record Keeps (f : Refund → Refund) : Type 0 where
  pub id : (r : Refund) → (f r).id ≡ r.id
  pub amount : (r : Refund) → (f r).amount ≡ r.amount
  pub payment : (r : Refund) → (f r).payment_id ≡ r.payment_id

pub found-id : (k : ℕ) (rs : List Refund) (r : Refund) → find_refund k rs ≡ some r → r.id ≡ k
found-id k [] r e = cc
found-id k (x ∷ rs) r e = ground (arith, found-id k rs r)

pub find-set_refund :
    (k : ℕ) (f : Refund → Refund) (rs : List Refund) (r : Refund)
    → ((x : Refund) → (f x).id ≡ x.id)
    → find_refund k rs ≡ some r
    → find_refund k (set_refund k f rs) ≡ some (f r)
find-set_refund k f [] r same e = cc
find-set_refund k f (x ∷ rs) r same e = ground (arith, same x, find-set_refund k f rs r same)

pub find-set_refund-other :
    (j k : ℕ) (f : Refund → Refund) (rs : List Refund)
    → ((x : Refund) → (f x).id ≡ x.id)
    → (k == j) ≡ false
    → find_refund j (set_refund k f rs) ≡ find_refund j rs
find-set_refund-other j k f [] same e = refl
find-set_refund-other j k f (x ∷ rs) same e =
    ground (arith, same x, find-set_refund-other j k f rs same e)

find-set_refund-none :
    (j k : ℕ) (f : Refund → Refund) (rs : List Refund)
    → ((x : Refund) → (f x).id ≡ x.id)
    → find_refund j rs ≡ none
    → find_refund j (set_refund k f rs) ≡ none
find-set_refund-none j k f [] same e = refl
find-set_refund-none j k f (x ∷ rs) same e =
    ground (arith, same x, find-set_refund-none j k f rs same)

pub set_refund-AreUnique :
    (k : ℕ) (f : Refund → Refund) (rs : List Refund)
    → ((x : Refund) → (f x).id ≡ x.id)
    → AreUnique rs
    → AreUnique (set_refund k f rs)
set_refund-AreUnique k f [] same u = tt
set_refund-AreUnique k f (x ∷ rs) same (n, u) = (
  ground (arith, same x, find-set_refund-none x.id k f rs same n),
  set_refund-AreUnique k f rs same u,
)

pub set_refund-absent :
    (k : ℕ) (f : Refund → Refund) (rs : List Refund)
    → find_refund k rs ≡ none
    → set_refund k f rs ≡ rs
set_refund-absent k f [] e = refl
set_refund-absent k f (x ∷ rs) e = ground (arith, set_refund-absent k f rs)

-- A sum over the rows changes by what the written row changes.
pub sum-set_refund :
    (w : Refund → ℕ) (k : ℕ) (f : Refund → Refund) (rs : List Refund) (r : Refund)
    → AreUnique rs
    → find_refund k rs ≡ some r
    → sum_by w (set_refund k f rs) + w r ≡ sum_by w rs + w (f r)
sum-set_refund w k f [] r u e = cc
sum-set_refund w k f (x ∷ rs) r (n, u) e =
    ground (arith, set_refund-absent k f rs, sum-set_refund w k f rs r u, n)

-- What a refund counts against a payment.
abbrev pub held_of : ℕ → Refund → ℕ
held_of p r = if r.payment_id == p && is_held r.status then r.amount else 0

others-absent :
    (p k : ℕ) (rs : List Refund)
    → find_refund k rs ≡ none
    → sum_other_refunds is_held p k rs ≡ sum_refunds is_held p rs
others-absent p k [] e = refl
others-absent p k (x ∷ rs) e = ground (arith, others-absent p k rs)

pub sum_other_refunds-split :
    (p k : ℕ) (rs : List Refund) (r : Refund)
    → AreUnique rs
    → find_refund k rs ≡ some r
    → sum_other_refunds is_held p k rs + held_of p r ≡ sum_refunds is_held p rs
sum_other_refunds-split p k [] r u e = cc
sum_other_refunds-split p k (x ∷ rs) r (n, u) e =
    ground (arith, others-absent p k rs, sum_other_refunds-split p k rs r u, n)

-- The other refunds do not see the write.
pub sum_other_refunds-set :
    (p k : ℕ) (f : Refund → Refund) (rs : List Refund)
    → ((x : Refund) → (f x).id ≡ x.id)
    → sum_other_refunds is_held p k (set_refund k f rs) ≡ sum_other_refunds is_held p k rs
sum_other_refunds-set p k f [] same = refl
sum_other_refunds-set p k f (x ∷ rs) same =
    ground (arith, same x, sum_other_refunds-set p k f rs same)
