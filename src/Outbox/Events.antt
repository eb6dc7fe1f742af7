-- ===== src/Outbox/Events.antt =====
-- The identifiers of events, and which events the relay claims.
use e_commerce_backend.Common.{
  ℕ, ◌-◌, ◌≡◌, ◌⊎◌, refl, sym, ap, ◌∙◌, Bool, true, false, not, ◌&&◌, List, [], ◌∷◌, map, Memᴰ,
  Memᴰ-select, ◌==◌, arith, includes, leb, if◌then◌else◌, Bool-cases, inl, inr,
}
use e_commerce_backend.Outbox.{
  OutboxEvent, is_due, set_event, insert_by_next_run, sort_by_next_run, limit, claimed_rows, ids_of,
}

-- A list without a duplicate.
abbrev pub is_distinct : List ℕ → Bool
is_distinct [] = true
is_distinct (j ∷ js) = not (includes j js) && is_distinct js

pub ids_of-map :
    (f : OutboxEvent → OutboxEvent) (es : List OutboxEvent)
    → ((e : OutboxEvent) → (f e).id ≡ e.id)
    → ids_of (map f es) ≡ ids_of es
ids_of-map f [] h = refl
ids_of-map f (e ∷ es) h = rw (h e, ids_of-map f es h)

pub ids_of-set_event :
    (k : ℕ) (f : OutboxEvent → OutboxEvent) (es : List OutboxEvent)
    → ((e : OutboxEvent) → (f e).id ≡ e.id)
    → ids_of (set_event k f es) ≡ ids_of es
unfolding set_event
ids_of-set_event k f [] h = refl
ids_of-set_event k f (e ∷ es) h = ground (arith, h e, ids_of-set_event k f es h)

pub includes-id :
    (e : OutboxEvent) (es : List OutboxEvent) → Memᴰ e es → includes e.id (ids_of es) ≡ true
includes-id e [] m = elim m [ ]
includes-id e (x ∷ es) (Memᴰ.head q) = ground (arith, q)
includes-id e (x ∷ es) (Memᴰ.tail m) = ground (arith, includes-id e es m)

pub included :
    (k : ℕ) (es : List OutboxEvent)
    → includes k (ids_of es) ≡ true
    → (e : OutboxEvent) × Memᴰ e es × (e.id ≡ k)
included k [] h = cc
included k (x ∷ es) h = elim (Bool-cases (k == x.id)) [
  | inl q ↦ (x, Memᴰ.head refl, ground arith)
  | inr q ↦ let (e, m, same) = included k es (rw q at h) in (e, Memᴰ.tail m, same)
]

clash :
    (a b x : OutboxEvent) (es : List OutboxEvent)
    → is_distinct (ids_of (x ∷ es)) ≡ true
    → a ≡ x
    → Memᴰ b es
    → a.id ≡ b.id
    → ⊥
clash a b x es d p m same = ground (arith, includes-id b es m)

-- The identifier is a key: two rows with the same one are the same row.
pub same_row :
    (a b : OutboxEvent) (es : List OutboxEvent)
    → is_distinct (ids_of es) ≡ true
    → Memᴰ a es
    → Memᴰ b es
    → a.id ≡ b.id
    → a ≡ b
same_row a b [] d m n same = elim m [ ]
same_row a b (x ∷ es) d (Memᴰ.head p) (Memᴰ.head q) same = p ∙ sym q
same_row a b (x ∷ es) d (Memᴰ.head p) (Memᴰ.tail m) same = absurd (clash a b x es d p m same)
same_row a b (x ∷ es) d (Memᴰ.tail m) (Memᴰ.head q) same = absurd (clash b a x es d q m (sym same))
same_row a b (x ∷ es) d (Memᴰ.tail m) (Memᴰ.tail n) same = same_row a b es (ground arith) m n same

Memᴰ-insert :
    (e f : OutboxEvent) (fs : List OutboxEvent) → Memᴰ e (insert_by_next_run f fs) → Memᴰ e (f ∷ fs)
unfolding insert_by_next_run
Memᴰ-insert e f [] m = m
Memᴰ-insert e f (g ∷ gs) m = go (leb f.next_run_at g.next_run_at) (Memᴰ-insert e f gs) m
  where
    go :
        (b : Bool)
        → (Memᴰ e (insert_by_next_run f gs) → Memᴰ e (f ∷ gs))
        → Memᴰ e (if b then f ∷ g ∷ gs else g ∷ insert_by_next_run f gs)
        → Memᴰ e (f ∷ g ∷ gs)
    go true rest k = k
    go false rest (Memᴰ.head q) = Memᴰ.tail (Memᴰ.head q)
    go false rest (Memᴰ.tail k) = elim (rest k) [
      | Memᴰ.head q ↦ Memᴰ.head q
      | Memᴰ.tail l ↦ Memᴰ.tail (Memᴰ.tail l)
    ]

Memᴰ-sort : (e : OutboxEvent) (es : List OutboxEvent) → Memᴰ e (sort_by_next_run es) → Memᴰ e es
unfolding sort_by_next_run
Memᴰ-sort e [] m = m
Memᴰ-sort e (f ∷ fs) m = elim (Memᴰ-insert e f (sort_by_next_run fs) m) [
  | Memᴰ.head q ↦ Memᴰ.head q
  | Memᴰ.tail k ↦ Memᴰ.tail (Memᴰ-sort e fs k)
]

Memᴰ-limit : (n : ℕ) (e : OutboxEvent) (es : List OutboxEvent) → Memᴰ e (limit n es) → Memᴰ e es
unfolding limit
Memᴰ-limit n e [] m = m
Memᴰ-limit n e (f ∷ fs) m = go (leb n 0) (Memᴰ-limit (n - 1) e fs) m
  where
    go :
        (b : Bool)
        → (Memᴰ e (limit (n - 1) fs) → Memᴰ e fs)
        → Memᴰ e (if b then [] else f ∷ limit (n - 1) fs)
        → Memᴰ e (f ∷ fs)
    go true rest k = elim k [ ]
    go false rest (Memᴰ.head q) = Memᴰ.head q
    go false rest (Memᴰ.tail k) = Memᴰ.tail (rest k)

-- The relay claims rows of the table that are pending and due.
pub claimed_rows-due :
    (now : ℕ) (es : List OutboxEvent) (e : OutboxEvent)
    → Memᴰ e (claimed_rows now es)
    → Memᴰ e es × (is_due now e ≡ true)
unfolding claimed_rows
claimed_rows-due now es e m = Memᴰ-select (is_due now) e es (Memᴰ-sort e _ (Memᴰ-limit 50 e _ m))

pub Memᴰ-map :
    (f : OutboxEvent → OutboxEvent) (e : OutboxEvent) (es : List OutboxEvent)
    → Memᴰ e (map f es)
    → (d : OutboxEvent) × Memᴰ d es × (e ≡ f d)
Memᴰ-map f e [] m = elim m [ ]
Memᴰ-map f e (x ∷ es) (Memᴰ.head q) = (x, Memᴰ.head refl, q)
Memᴰ-map f e (x ∷ es) (Memᴰ.tail m) = let (d, n, q) = Memᴰ-map f e es m in (d, Memᴰ.tail n, q)

pub map-Memᴰ :
    (f : OutboxEvent → OutboxEvent) (e : OutboxEvent) (es : List OutboxEvent)
    → Memᴰ e es
    → Memᴰ (f e) (map f es)
map-Memᴰ f e [] m = elim m [ ]
map-Memᴰ f e (x ∷ es) (Memᴰ.head q) = Memᴰ.head (ap f q)
map-Memᴰ f e (x ∷ es) (Memᴰ.tail m) = Memᴰ.tail (map-Memᴰ f e es m)

-- A row after an update of the rows with one identifier.
pub Memᴰ-set_event :
    (k : ℕ) (f : OutboxEvent → OutboxEvent) (e : OutboxEvent) (es : List OutboxEvent)
    → Memᴰ e (set_event k f es)
    → (d : OutboxEvent) × Memᴰ d es × (((d.id ≡ k) × (e ≡ f d)) ⊎ (e ≡ d))
unfolding set_event
Memᴰ-set_event k f e [] m = elim m [ ]
Memᴰ-set_event k f e (x ∷ es) (Memᴰ.head q) = elim (Bool-cases (x.id == k)) [
  | inl s ↦ (x, Memᴰ.head refl, inl (ground arith, ground arith))
  | inr s ↦ (x, Memᴰ.head refl, inr (ground arith))
]
Memᴰ-set_event k f e (x ∷ es) (Memᴰ.tail m) =
    let (d, n, q) = Memᴰ-set_event k f e es m in (d, Memᴰ.tail n, q)

pub set_event-Memᴰ :
    (k : ℕ) (f : OutboxEvent → OutboxEvent) (e : OutboxEvent) (es : List OutboxEvent)
    → e.id == k ≡ false
    → Memᴰ e es
    → Memᴰ e (set_event k f es)
unfolding set_event
set_event-Memᴰ k f e [] other m = elim m [ ]
set_event-Memᴰ k f e (x ∷ es) other (Memᴰ.head q) = Memᴰ.head (ground arith)
set_event-Memᴰ k f e (x ∷ es) other (Memᴰ.tail m) = Memᴰ.tail (set_event-Memᴰ k f e es other m)
