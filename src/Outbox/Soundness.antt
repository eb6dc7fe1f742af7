-- ===== src/Outbox/Soundness.antt =====
-- Every step of the outbox keeps it sound.
use e_commerce_backend.Common.{
  ℕ, ◌≡◌, ◌⊎◌, refl, sym, ap, ◌∙◌, subst, Bool, true, false, not, ◌||◌, Option, none, some, List,
  [], ◌∷◌, ◌++◌, map, Memᴰ, ◌==◌, arith, find, includes, if◌then◌else◌, Bool-cases, Option-cases,
  some-injective, inl, inr,
}
use e_commerce_backend.Outbox.{
  OutboxStatus, Queue, OutboxEvent, Outbox, ◌=o◌, is_duplicate, is_known, enqueue, set_event,
  reclaim, reclaim_stale, claim, claimed_rows, ids_of, dispatch_row, dispatch_rows, dispatch_batch,
  relay, on_failure, settle, process, drop_job, Step, Reach,
}
use e_commerce_backend.Outbox.Events.{
  is_distinct, ids_of-map, ids_of-set_event, claimed_rows-due, Memᴰ-map, same_row,
}
use e_commerce_backend.Outbox.Retries.{settle-id}
use e_commerce_backend.Outbox.Lifecycle.{
  IsBudgeted, AreBudgeted, IsSound, HaveAttempts, reclaim-IsBudgeted, reclaim-id, claim-id,
  is_due-open, claim-IsBudgeted, set_event-HaveAttempts, set_event-IsBudgeted,
}

includes-append : (j k : ℕ) (js : List ℕ) → includes j (js ++ (k ∷ [])) ≡ (includes j js || j == k)
includes-append j k [] = ground arith
includes-append j k (x ∷ xs) = ground (arith, includes-append j k xs)

is_distinct-append :
    (k : ℕ) (js : List ℕ)
    → includes k js ≡ false
    → is_distinct js ≡ true
    → is_distinct (js ++ (k ∷ [])) ≡ true
is_distinct-append k [] h d = refl
is_distinct-append k (j ∷ js) h d = ground (arith, includes-append j k js, is_distinct-append k js)

-- What a dispatch needs and keeps.
record IsDispatching (rows : List OutboxEvent) (o : Outbox) : Type 0 where
  sound : IsSound o
  have : HaveAttempts rows o.events

set_event-IsSound :
    (k : ℕ) (f : OutboxEvent → OutboxEvent) (o : Outbox)
    → ((e : OutboxEvent) → (f e).id ≡ e.id)
    → ((e : OutboxEvent) → Memᴰ e o.events → e.id ≡ k → IsBudgeted (f e))
    → IsSound o
    → IsSound (record o { events = set_event k f o.events })
set_event-IsSound k f o same h s = record {
  budgets = set_event-IsBudgeted k f o.events h s.budgets;
  keys = ap is_distinct (ids_of-set_event k f o.events same) ∙ s.keys;
  jobs = s.jobs;
}

add_job :
    (k : ℕ) (js : List ℕ)
    → is_distinct js ≡ true
    → is_distinct (if includes k js then js else js ++ (k ∷ [])) ≡ true
add_job k js d = elim (Bool-cases (includes k js)) [
  | inl h ↦ rw h d
  | inr h ↦ rw h (is_distinct-append k js h d)
]

dispatch_row-IsDispatching :
    (accepts : ℕ → Bool) (now : ℕ) (row : OutboxEvent) (rows : List OutboxEvent) (o : Outbox)
    → IsDispatching (row ∷ rows) o
    → IsDispatching rows (dispatch_row accepts now row o)
unfolding dispatch_row
dispatch_row-IsDispatching accepts now row rows o d = elim (Bool-cases (not (is_known row.queue))) [
  | inl u ↦ rw u (record {
    sound =
        set_event-IsSound row.id _ o (λ e. refl)
          (λ e m own. record {
            budget = (d.sound.budgets e m).budget;
            has_attempts = λ h. ground arith;
          })
          d.sound;
    have =
        set_event-HaveAttempts row.id _ rows o.events (λ e. (refl, refl))
          (λ r e m. d.have r e (Memᴰ.tail m));
  })
  | inr u ↦ rw u (elim (Bool-cases (not (accepts row.id))) [
    | inl a ↦ rw a (record {
      sound =
          set_event-IsSound row.id _ o (λ e. refl)
            (λ e m own. record {
              budget = (d.sound.budgets e m).budget;
              has_attempts = λ h. d.have row e (Memᴰ.head refl) m own;
            })
            d.sound;
      have =
          set_event-HaveAttempts row.id _ rows o.events (λ e. (refl, refl))
            (λ r e m. d.have r e (Memᴰ.tail m));
    })
    | inr a ↦ rw a (record {
      sound = record {
        budgets = d.sound.budgets;
        keys = d.sound.keys;
        jobs = add_job row.id o.jobs d.sound.jobs;
      };
      have = λ r e m. d.have r e (Memᴰ.tail m);
    })
  ])
]

dispatch_rows-IsSound :
    (accepts : ℕ → Bool) (now : ℕ) (rows : List OutboxEvent) (o : Outbox)
    → IsDispatching rows o
    → IsSound (dispatch_rows accepts now rows o)
unfolding dispatch_rows
dispatch_rows-IsSound accepts now [] o d = d.sound
dispatch_rows-IsSound accepts now (row ∷ rows) o d =
    dispatch_rows-IsSound accepts now rows _ (dispatch_row-IsDispatching accepts now row rows o d)

claim-attempts :
    (now : ℕ) (ids : List ℕ) (e : OutboxEvent) → (claim now ids e).attempts ≡ e.attempts
claim-attempts now ids e = ground arith

claimed-HaveAttempts :
    (now : ℕ) (es : List OutboxEvent)
    → is_distinct (ids_of es) ≡ true
    → AreBudgeted es
    → HaveAttempts (claimed_rows now es) (map (claim now (ids_of (claimed_rows now es))) es)
claimed-HaveAttempts now es d b r e m n same =
    let (x, l, q) = Memᴰ-map _ e es n in
    let (k, due) = claimed_rows-due now es r m in
    let own : x ≡ r = same_row x r es d l k (
      sym (claim-id now (ids_of (claimed_rows now es)) x)
      ∙ sym (ap (λ (y : OutboxEvent). y.id) q)
      ∙ same) in
    let lt = (b r k).has_attempts (is_due-open now r due) in
    rw (q, claim-attempts now (ids_of (claimed_rows now es)) x, own) lt

dispatch_batch-IsSound :
    (accepts : ℕ → Bool) (now : ℕ) (o : Outbox) → IsSound o → IsSound (dispatch_batch accepts now o)
unfolding dispatch_batch
dispatch_batch-IsSound accepts now o s =
    dispatch_rows-IsSound accepts now (claimed_rows now o.events) _ (record {
      sound = record {
        budgets = claim-IsBudgeted now o.events s.keys s.budgets;
        keys = ap is_distinct (ids_of-map _ o.events (claim-id now _)) ∙ s.keys;
        jobs = s.jobs;
      };
      have = claimed-HaveAttempts now o.events s.keys s.budgets;
    })

relay-IsSound :
    (accepts : ℕ → Bool) (now : ℕ) (o : Outbox) → IsSound o → IsSound (relay accepts now o)
unfolding relay reclaim_stale
relay-IsSound accepts now o s = dispatch_batch-IsSound accepts now _ (record {
  budgets = λ e m.
      let (d, n, q) = Memᴰ-map (reclaim now) e o.events m in
      subst IsBudgeted (sym q) (reclaim-IsBudgeted now d (s.budgets d n));
  keys = ap is_distinct (ids_of-map (reclaim now) o.events (reclaim-id now)) ∙ s.keys;
  jobs = s.jobs;
})

ids_of-append :
    (es : List OutboxEvent) (e : OutboxEvent) → ids_of (es ++ (e ∷ [])) ≡ ids_of es ++ (e.id ∷ [])
ids_of-append [] e = refl
ids_of-append (x ∷ es) e = ap (λ l. x.id ∷ l) (ids_of-append es e)

Memᴰ-append :
    (e d : OutboxEvent) (es : List OutboxEvent) → Memᴰ e (es ++ (d ∷ [])) → Memᴰ e es ⊎ (e ≡ d)
Memᴰ-append e d [] (Memᴰ.head q) = inr q
Memᴰ-append e d [] (Memᴰ.tail m) = elim m [ ]
Memᴰ-append e d (x ∷ es) (Memᴰ.head q) = inl (Memᴰ.head q)
Memᴰ-append e d (x ∷ es) (Memᴰ.tail m) = elim (Memᴰ-append e d es m) [
  | inl n ↦ inl (Memᴰ.tail n)
  | inr q ↦ inr q
]

enqueue-IsSound :
    (fresh : ℕ) (queue : Queue) (key : Option ℕ) (now : ℕ) (o : Outbox)
    → includes fresh (ids_of o.events) ≡ false
    → IsSound o
    → IsSound (record o { events = enqueue fresh queue key now o.events })
unfolding enqueue
enqueue-IsSound fresh queue key now o new s = elim (Bool-cases (is_duplicate key o.events)) [
  | inl dup ↦ rw dup s
  | inr fine ↦ rw fine (record {
    budgets = λ e m. elim (Memᴰ-append e _ o.events m) [
      | inl n ↦ s.budgets e n
      | inr q ↦ subst IsBudgeted (sym q) (record { budget = refl; has_attempts = λ h. omega arith })
    ];
    keys =
        ap is_distinct (ids_of-append o.events _)
        ∙ is_distinct-append fresh (ids_of o.events) new s.keys;
    jobs = s.jobs;
  })
]

settle-IsBudgeted :
    (read : OutboxEvent) (r : Option ℕ) (now random : ℕ) (e : OutboxEvent)
    → IsBudgeted read
    → IsBudgeted e
    → IsBudgeted (settle read r now random e)
unfolding settle on_failure
settle-IsBudgeted read none now random e b c = record {
  budget = c.budget;
  has_attempts = λ h. ground arith;
}
settle-IsBudgeted read (some x) now random e b c = record {
  budget = ground (arith, c.budget);
  has_attempts = λ h. ground (arith, b.budget, b.has_attempts);
}

pub found-Memᴰ :
    (k : ℕ) (es : List OutboxEvent) (e : OutboxEvent)
    → find (λ x. x.id == k) es ≡ some e
    → Memᴰ e es
found-Memᴰ k [] e q = cc
found-Memᴰ k (x ∷ es) e q = elim (Bool-cases (x.id == k)) [
  | inl s ↦ Memᴰ.head (sym (some-injective (rw s at q)))
  | inr s ↦ Memᴰ.tail (found-Memᴰ k es e (rw s at q))
]

process-IsSound :
    (k : ℕ) (handler : OutboxEvent → Option ℕ) (now random : ℕ) (o : Outbox)
    → IsSound o
    → IsSound (record o { events = process k handler now random o.events })
unfolding process
process-IsSound k handler now random o s = elim (Option-cases (find (λ x. x.id == k) o.events)) [
  | inl gone ↦ rw (gone, process) s
  | inr (e, found) ↦
      let b = s.budgets e (found-Memᴰ k o.events e found) in
      let written =
        set_event-IsSound k (settle e (handler e) now random) o (settle-id e (handler e) now random)
          (λ x m own. settle-IsBudgeted e (handler e) now random x b (s.budgets x m)) s in
      elim (Bool-cases (e.status =o OutboxStatus.done)) [
        | inl d ↦ rw (found, process) (rw d s)
        | inr d ↦ rw (found, process) (rw d written)
      ]
]

drop_job-includes :
    (j k : ℕ) (js : List ℕ) → includes j js ≡ false → includes j (drop_job k js) ≡ false
drop_job-includes j k [] h = refl
drop_job-includes j k (x ∷ xs) h = ground (arith, drop_job-includes j k xs)

drop_job-is_distinct :
    (k : ℕ) (js : List ℕ) → is_distinct js ≡ true → is_distinct (drop_job k js) ≡ true
drop_job-is_distinct k [] d = refl
drop_job-is_distinct k (x ∷ xs) d =
    ground (arith, drop_job-is_distinct k xs, drop_job-includes x k xs)

pub Step-IsSound : (a b : Outbox) → Step a b → IsSound a → IsSound b
Step-IsSound a b (Step.enqueues fresh queue key now o new) s =
    enqueue-IsSound fresh queue key now o new s
Step-IsSound a b (Step.relays accepts now o) s = relay-IsSound accepts now o s
Step-IsSound a b (Step.delivers k handler now random o live) s =
    let p = process-IsSound k handler now random o s in
    record { budgets = p.budgets; keys = p.keys; jobs = drop_job-is_distinct k o.jobs s.jobs }

-- However transactions, relay ticks and workers follow one another, an event that is still to be run
-- has failed fewer times than its eight attempts, no two events share an identifier, and no event
-- has two live jobs.
pub Reach-IsSound : (o : Outbox) → Reach o → IsSound o
Reach-IsSound o Reach.start = record { budgets = λ e m. elim m [ ]; keys = refl; jobs = refl }
Reach-IsSound o (Reach.next {a} r step) = Step-IsSound a o step (Reach-IsSound a r)
