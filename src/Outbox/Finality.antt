-- ===== src/Outbox/Finality.antt =====
-- A delivered event is not touched again.
use e_commerce_backend.Common.{
  ℕ, ◌≡◌, sym, ap, ◌∙◌, subst, Bool, true, false, not, Option, some, List, [], ◌∷◌, ◌++◌, map, Memᴰ,
  ◌==◌, arith, find, includes, Bool-cases, Option-cases, ==→≡, inl, inr,
}
use e_commerce_backend.Outbox.{
  OutboxStatus, Queue, OutboxEvent, Outbox, ◌=o◌, is_duplicate, is_known, is_due, enqueue, reclaim,
  reclaim_stale, claim, claimed_rows, ids_of, dispatch_row, dispatch_rows, dispatch_batch, relay,
  process, Step, Reach,
}
use e_commerce_backend.Outbox.Events.{is_distinct, ids_of-map, same_row, map-Memᴰ, set_event-Memᴰ}
use e_commerce_backend.Outbox.Lifecycle.{IsSound, reclaim-id, claimed-due}
use e_commerce_backend.Outbox.Soundness.{Reach-IsSound, found-Memᴰ}

not_due : (now : ℕ) (e : OutboxEvent) → e.status ≡ OutboxStatus.done → is_due now e ≡ false
not_due now e h = ground arith

reclaim-done : (now : ℕ) (e : OutboxEvent) → e.status ≡ OutboxStatus.done → reclaim now e ≡ e
reclaim-done now e h = ground arith

-- A done event is not among the rows that the relay claims.
unclaimed :
    (now : ℕ) (e : OutboxEvent) (es : List OutboxEvent)
    → is_distinct (ids_of es) ≡ true
    → Memᴰ e es
    → e.status ≡ OutboxStatus.done
    → includes e.id (ids_of (claimed_rows now es)) ≡ false
unclaimed now e es d m h = elim (Bool-cases (includes e.id (ids_of (claimed_rows now es)))) [
  | inl c ↦ let due = claimed-due now e es d m c in let no = not_due now e h in ground arith
  | inr c ↦ c
]

dispatch_row-keeps :
    (accepts : ℕ → Bool) (now : ℕ) (row e : OutboxEvent) (o : Outbox)
    → e.id == row.id ≡ false
    → Memᴰ e o.events
    → Memᴰ e (dispatch_row accepts now row o).events
unfolding dispatch_row
dispatch_row-keeps accepts now row e o other m = elim (Bool-cases (not (is_known row.queue))) [
  | inl u ↦ rw u (set_event-Memᴰ row.id _ e o.events other m)
  | inr u ↦ rw u (elim (Bool-cases (not (accepts row.id))) [
    | inl a ↦ rw a (set_event-Memᴰ row.id _ e o.events other m)
    | inr a ↦ rw a m
  ])
]

dispatch_rows-keeps :
    (accepts : ℕ → Bool) (now : ℕ) (rows : List OutboxEvent) (e : OutboxEvent) (o : Outbox)
    → includes e.id (ids_of rows) ≡ false
    → Memᴰ e o.events
    → Memᴰ e (dispatch_rows accepts now rows o).events
unfolding dispatch_rows
dispatch_rows-keeps accepts now [] e o h m = m
dispatch_rows-keeps accepts now (row ∷ rows) e o h m =
    dispatch_rows-keeps accepts now rows e _ (ground arith)
      (dispatch_row-keeps accepts now row e o (ground arith) m)

relay-keeps :
    (accepts : ℕ → Bool) (now : ℕ) (e : OutboxEvent) (o : Outbox)
    → IsSound o
    → Memᴰ e o.events
    → e.status ≡ OutboxStatus.done
    → Memᴰ e (relay accepts now o).events
unfolding relay reclaim_stale dispatch_batch
relay-keeps accepts now e o s m h =
    let es = map (reclaim now) o.events in
    let here : Memᴰ e es =
      subst (λ x. Memᴰ x es) (reclaim-done now e h) (map-Memᴰ (reclaim now) e o.events m) in
    let keys = ap is_distinct (ids_of-map (reclaim now) o.events (reclaim-id now)) ∙ s.keys in
    let free = unclaimed now e es keys here h in
    let ids = ids_of (claimed_rows now es) in
    let claimed : Memᴰ e (map (claim now ids) es) =
      subst (λ x. Memᴰ x (map (claim now ids) es)) (rw free) (map-Memᴰ (claim now ids) e es here) in
    dispatch_rows-keeps accepts now (claimed_rows now es) e _ free claimed

Memᴰ-append_left : (e : OutboxEvent) (es ds : List OutboxEvent) → Memᴰ e es → Memᴰ e (es ++ ds)
Memᴰ-append_left e [] ds m = elim m [ ]
Memᴰ-append_left e (x ∷ es) ds (Memᴰ.head q) = Memᴰ.head q
Memᴰ-append_left e (x ∷ es) ds (Memᴰ.tail m) = Memᴰ.tail (Memᴰ-append_left e es ds m)

enqueue-keeps :
    (fresh : ℕ) (queue : Queue) (key : Option ℕ) (now : ℕ) (e : OutboxEvent) (es : List OutboxEvent)
    → Memᴰ e es
    → Memᴰ e (enqueue fresh queue key now es)
unfolding enqueue
enqueue-keeps fresh queue key now e es m = elim (Bool-cases (is_duplicate key es)) [
  | inl dup ↦ rw dup m
  | inr fine ↦ rw fine (Memᴰ-append_left e es _ m)
]

found-id :
    (k : ℕ) (es : List OutboxEvent) (e : OutboxEvent) → find (λ x. x.id == k) es ≡ some e → e.id ≡ k
found-id k [] e q = cc
found-id k (x ∷ es) e q = ground (arith, found-id k es e)

process-keeps :
    (k : ℕ) (handler : OutboxEvent → Option ℕ) (now random : ℕ) (e : OutboxEvent)
    (es : List OutboxEvent)
    → is_distinct (ids_of es) ≡ true
    → Memᴰ e es
    → e.status ≡ OutboxStatus.done
    → Memᴰ e (process k handler now random es)
unfolding process
process-keeps k handler now random e es d m h = elim (Option-cases (find (λ x. x.id == k) es)) [
  | inl gone ↦ rw (gone, process) m
  | inr (x, found) ↦ elim (Bool-cases (x.status =o OutboxStatus.done)) [
    | inl f ↦ rw (found, process) (rw f m)
    | inr f ↦
        let other : e.id == k ≡ false = elim (Bool-cases (e.id == k)) [
          | inl own ↦
              let same =
                same_row e x es d m (found-Memᴰ k es x found)
                  (==→≡ e.id k own ∙ sym (found-id k es x found)) in
              ground arith
          | inr differ ↦ differ
        ] in
        rw (found, process) (rw f (set_event-Memᴰ k _ e es other m))
  ]
]

-- In an outbox that was reached from the empty one, an event that was delivered stays as it is
-- through every further step: no relay tick claims it again, and no job runs its handler again.
pub Step-keeps_done :
    (a b : Outbox) (e : OutboxEvent)
    → Reach a
    → Step a b
    → Memᴰ e a.events
    → e.status ≡ OutboxStatus.done
    → Memᴰ e b.events
Step-keeps_done a b e r (Step.enqueues fresh queue key now o new) m h =
    enqueue-keeps fresh queue key now e o.events m
Step-keeps_done a b e r (Step.relays accepts now o) m h =
    relay-keeps accepts now e o (Reach-IsSound o r) m h
Step-keeps_done a b e r (Step.delivers k handler now random o live) m h =
    process-keeps k handler now random e o.events (Reach-IsSound o r).keys m h
