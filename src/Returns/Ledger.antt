-- ===== src/Returns/Ledger.antt =====
-- The abstract log of returns: which changes of the table of returns and of the trail of events there are.
use e_commerce_backend.Common.{
  ℕ, ◌+◌, ◌≤◌, ◌≡◌, refl, Bool, true, false, ◌&&◌, Option, none, some, List, [], ◌∷◌, arith, ◌==◌,
  select, if◌then◌else◌,
}
use e_commerce_backend.Database.{OrderItem}
use e_commerce_backend.Finance.{ReturnStatus, ReturnRequest, ReturnEvent, find_return, set_return}
use e_commerce_backend.Returns.{
  ◌=r◌, is_valid_return_transition, items_in, item_in, quantity_in, returned_qty,
}

-- The returns and their events.
abbrev pub Log : Type 0
Log = List ReturnRequest × List ReturnEvent

-- A write that leaves the identifier, the status, the sub-order and the items.
pub record KeepsReturn (f : ReturnRequest → ReturnRequest) : Type 0 where
  pub id : (r : ReturnRequest) → (f r).id ≡ r.id
  pub status : (r : ReturnRequest) → (f r).status ≡ r.status
  pub of : (r : ReturnRequest) → (f r).seller_order_id ≡ r.seller_order_id
  pub items : (r : ReturnRequest) → (f r).items ≡ r.items

abbrev pub event_of : ℕ → Option ReturnStatus → ReturnStatus → Option ℕ → ReturnEvent
event_of k from to actor = record {
  return_id = k;
  from_status = from;
  to_status = to;
  actor_user_id = actor;
}

abbrev pub with_status :
    ReturnStatus → (ReturnRequest → ReturnRequest) → ReturnRequest → ReturnRequest
with_status to f r = record (f r) { status = to }

-- What is counted as returned of every item stays within what was bought.
abbrev pub IsWithin : List OrderItem → List ReturnRequest → Type 0
IsWithin bought rs =
    (so k : ℕ) (oi : OrderItem)
    → item_in k (items_in so bought) ≡ some oi
    → returned_qty so k rs ≤ oi.quantity

-- One change: a return is opened, one return moves along the table, but not to `closed`, and writes one
-- event, or other columns of a return are written.
pub data Change (bought : List OrderItem) : Log → Log → Type 0 where
  opens :
      (r : ReturnRequest) (actor : Option ℕ) (rs : List ReturnRequest) (es : List ReturnEvent)
      → find_return r.id rs ≡ none
      → r.status ≡ ReturnStatus.requested
      → (IsWithin bought rs
          → (k : ℕ) (oi : OrderItem) → item_in k (items_in r.seller_order_id bought) ≡ some oi
          → returned_qty r.seller_order_id k rs + quantity_in k r.items ≤ oi.quantity)
      → Change bought (rs, es) (r ∷ rs, event_of r.id none ReturnStatus.requested actor ∷ es)
  moves :
      (k : ℕ) (to : ReturnStatus) (f : ReturnRequest → ReturnRequest) (actor : Option ℕ)
      (r : ReturnRequest) (rs : List ReturnRequest) (es : List ReturnEvent)
      → KeepsReturn f
      → find_return k rs ≡ some r
      → is_valid_return_transition r.status to ≡ true
      → (to =r ReturnStatus.closed) ≡ false
      → Change bought
          (rs, es)
          (set_return k (with_status to f) rs, event_of k (some r.status) to actor ∷ es)
  writes :
      (k : ℕ) (f : ReturnRequest → ReturnRequest) (rs : List ReturnRequest) (es : List ReturnEvent)
      → KeepsReturn f
      → Change bought (rs, es) (set_return k f rs, es)

pub data Changes (bought : List OrderItem) : Log → Log → Type 0 where
  nothing : (l : Log) → Changes bought l l
  then : {l m n : Log} → Changes bought l m → Change bought m n → Changes bought l n

pub find_return-set :
    (j k : ℕ) (f : ReturnRequest → ReturnRequest) (rs : List ReturnRequest)
    → ((x : ReturnRequest) → (f x).id ≡ x.id)
    → find_return j (set_return k f rs)
      ≡ (elim (find_return j rs) [ none ↦ none | some r ↦ some (if k == j then f r else r) ])
find_return-set j k f [] same = refl
find_return-set j k f (x ∷ rs) same = ground (arith, same x, find_return-set j k f rs same)

-- The trail of one return, newest first.
abbrev pub trail : ℕ → List ReturnEvent → List ReturnEvent
trail k = select (λ (e : ReturnEvent). e.return_id == k)

abbrev pub is_nil : List ReturnEvent → Bool
is_nil [] = true
is_nil _ = false

-- The trail starts with the request, follows the table of transitions without a gap, and ends in the
-- given status.
unfoldable pub is_trail : List ReturnEvent → ReturnStatus → Bool
is_trail [] s = false
is_trail (e ∷ es) s =
    let from : ReturnStatus → Bool = λ t. is_trail es t in
    e.to_status =r s && (elim e.from_status [
      | none ↦ s =r ReturnStatus.requested && is_nil es
      | some t ↦ is_valid_return_transition t s && from t
    ])

-- Every return has a trail that ends in its status, and no event is of an unknown return.
pub record IsTraced (l : Log) : Type 0 where
  pub traced :
      (k : ℕ) (r : ReturnRequest)
      → find_return k l.0 ≡ some r
      → is_trail (trail k l.1) r.status ≡ true
  pub known : (k : ℕ) → find_return k l.0 ≡ none → trail k l.1 ≡ []
