-- ===== src/Outbox.antt =====
-- The transactional outbox (src/modules/outbox): events that a business transaction records, the
-- relay that puts due events on their queue, and the envelope in which a worker runs the handler.
-- The queue and the handlers are not part of this code: whether a job is accepted, and what a handler
-- run brings, are arguments. Times are milliseconds.
pub mod Events
pub mod Lifecycle
pub mod Soundness
pub mod Finality
pub mod Retries
use e_commerce_backend.Common.{
  ℕ, ◌+◌, ◌-◌, ◌*◌, Bool, true, false, not, Option, none, some, List, [], ◌∷◌, ◌++◌, map, ◌≡◌, ◌==◌,
  ◌&&◌, ◌||◌, ltb, leb, find, any_of, select, if◌then◌else◌, includes, length,
}
use e_commerce_backend.Resilience.{backoff_delay_ms}

pub data OutboxStatus : Type 0 where
  pending processing done failed : OutboxStatus

-- The registered queues, and any other name.
pub data Queue : Type 0 where
  invoices emails courier cart unknown : Queue

-- An `OutboxEvent` row; the handler key and the payload are the handler's business.
pub record OutboxEvent : Type 0 where
  pub id : ℕ
  pub queue : Queue
  pub status : OutboxStatus
  pub attempts : ℕ
  pub max_attempts : ℕ
  pub next_run_at : ℕ
  pub updated_at : ℕ
  pub dedupe_key : Option ℕ
  pub processed_at : Option ℕ
  pub last_error : Option ℕ

infix 50 ◌=o◌
abbrev pub ◌=o◌ : OutboxStatus → OutboxStatus → Bool
OutboxStatus.pending =o OutboxStatus.pending = true
OutboxStatus.processing =o OutboxStatus.processing = true
OutboxStatus.done =o OutboxStatus.done = true
OutboxStatus.failed =o OutboxStatus.failed = true
_ =o _ = false

abbrev pub has_key : ℕ → OutboxEvent → Bool
has_key k e = elim e.dedupe_key [ none ↦ false | some j ↦ j == k ]

abbrev pub is_duplicate : Option ℕ → List OutboxEvent → Bool
is_duplicate none events = false
is_duplicate (some k) events = any_of (has_key k) events

-- `enqueue`, with the row's defaults and `skipDuplicates`
unfoldable pub enqueue : ℕ → Queue → Option ℕ → ℕ → List OutboxEvent → List OutboxEvent
enqueue fresh queue key now events =
    if is_duplicate key events
    then events
    else events
      ++ (record {
        id = fresh;
        queue = queue;
        status = OutboxStatus.pending;
        attempts = 0;
        max_attempts = 8;
        next_run_at = now;
        updated_at = now;
        dedupe_key = key;
        processed_at = none;
        last_error = none;
      }
          ∷ [])

-- `update({ where: { id }, data })`
unfoldable pub set_event : ℕ → (OutboxEvent → OutboxEvent) → List OutboxEvent → List OutboxEvent
set_event k f [] = []
set_event k f (e ∷ es) = (if e.id == k then f e else e) ∷ set_event k f es

-- `reclaimStale`: five minutes after its last update
abbrev pub reclaim : ℕ → OutboxEvent → OutboxEvent
reclaim now e =
    if e.status =o OutboxStatus.processing && ltb (e.updated_at + 300000) now
    then record e { status = OutboxStatus.pending; updated_at = now }
    else e

unfoldable pub reclaim_stale : ℕ → List OutboxEvent → List OutboxEvent
reclaim_stale now = map (reclaim now)

-- `ORDER BY "nextRunAt" ASC`
unfoldable pub insert_by_next_run : OutboxEvent → List OutboxEvent → List OutboxEvent
insert_by_next_run e [] = e ∷ []
insert_by_next_run e (f ∷ fs) =
    let rest = insert_by_next_run e fs in
    if leb e.next_run_at f.next_run_at then e ∷ f ∷ fs else f ∷ rest

unfoldable pub sort_by_next_run : List OutboxEvent → List OutboxEvent
unfolding insert_by_next_run
sort_by_next_run [] = []
sort_by_next_run (e ∷ es) = insert_by_next_run e (sort_by_next_run es)

abbrev pub is_due : ℕ → OutboxEvent → Bool
is_due now e = e.status =o OutboxStatus.pending && leb e.next_run_at now

unfoldable pub limit : ℕ → List OutboxEvent → List OutboxEvent
limit n [] = []
limit n (e ∷ es) = let rest = limit (n - 1) es in if leb n 0 then [] else e ∷ rest

-- The rows that the relay locks, and the write that claims them.
unfoldable pub claimed_rows : ℕ → List OutboxEvent → List OutboxEvent
unfolding sort_by_next_run limit
claimed_rows now events = limit 50 (sort_by_next_run (select (is_due now) events))

abbrev pub ids_of : List OutboxEvent → List ℕ
ids_of [] = []
ids_of (e ∷ es) = e.id ∷ ids_of es

abbrev pub claim : ℕ → List ℕ → OutboxEvent → OutboxEvent
claim now ids e =
    if includes e.id ids then record e { status = OutboxStatus.processing; updated_at = now } else e

-- The rows and the identifiers of the live jobs.
pub record Outbox : Type 0 where
  pub events : List OutboxEvent
  pub jobs : List ℕ

abbrev pub is_known : Queue → Bool
is_known Queue.unknown = false
is_known _ = true

-- One claimed row: to an unknown queue it fails; a refused job makes it pending again; a job that
-- is live already is not added twice.
unfoldable pub dispatch_row : (ℕ → Bool) → ℕ → OutboxEvent → Outbox → Outbox
unfolding set_event
dispatch_row accepts now row o =
    if not (is_known row.queue)
    then record o {
      events =
          set_event row.id
            (λ e. record e { status = OutboxStatus.failed; updated_at = now; last_error = some 0 })
            o.events;
    }
    else if not (accepts row.id)
    then record o {
      events =
          set_event row.id (λ e. record e { status = OutboxStatus.pending; updated_at = now })
            o.events;
    }
    else record o { jobs = if includes row.id o.jobs then o.jobs else o.jobs ++ (row.id ∷ []) }

unfoldable pub dispatch_rows : (ℕ → Bool) → ℕ → List OutboxEvent → Outbox → Outbox
unfolding dispatch_row
dispatch_rows accepts now [] o = o
dispatch_rows accepts now (row ∷ rows) o =
    dispatch_rows accepts now rows (dispatch_row accepts now row o)

-- `dispatchBatch`
unfoldable pub dispatch_batch : (ℕ → Bool) → ℕ → Outbox → Outbox
unfolding claimed_rows dispatch_rows
dispatch_batch accepts now o =
    let rows = claimed_rows now o.events in
    dispatch_rows accepts now rows (record o { events = map (claim now (ids_of rows)) o.events })

-- `relay`
unfoldable pub relay : (ℕ → Bool) → ℕ → Outbox → Outbox
unfolding reclaim_stale dispatch_batch
relay accepts now o = dispatch_batch accepts now (record o { events = reclaim_stale now o.events })

-- `onFailure`, on the event as the worker read it
unfoldable pub on_failure : OutboxEvent → ℕ → ℕ → ℕ → OutboxEvent → OutboxEvent
on_failure read error now random e =
    if leb read.max_attempts (read.attempts + 1)
    then record e {
      status = OutboxStatus.failed;
      attempts = read.attempts + 1;
      last_error = some error;
      updated_at = now;
    }
    else record e {
      status = OutboxStatus.pending;
      attempts = read.attempts + 1;
      next_run_at = now + backoff_delay_ms read.attempts 1000 300000 random;
      last_error = some error;
      updated_at = now;
    }

-- What the handler's run leaves of the row: `none` is a run without an error.
unfoldable pub settle : OutboxEvent → Option ℕ → ℕ → ℕ → OutboxEvent → OutboxEvent
unfolding on_failure
settle read none now random e = record e {
  status = OutboxStatus.done;
  processed_at = some now;
  last_error = none;
  updated_at = now;
}
settle read (some error) now random e = on_failure read error now random e

-- `process`, for a handler whose run on the event has this result
unfoldable pub process : ℕ → (OutboxEvent → Option ℕ) → ℕ → ℕ → List OutboxEvent → List OutboxEvent
unfolding set_event settle
process outbox_id handler now random events = elim (find (λ e. e.id == outbox_id) events) [
  | none ↦ events
  | some e ↦
      if e.status =o OutboxStatus.done
      then events
      else set_event outbox_id (settle e (handler e) now random) events
]

abbrev pub drop_job : ℕ → List ℕ → List ℕ
drop_job k [] = []
drop_job k (j ∷ js) = if j == k then drop_job k js else j ∷ drop_job k js

-- What can happen to the outbox: a transaction records an event under an unused identifier, the relay ticks, a worker runs a
-- live job, which is removed afterwards whatever the handler brings.
pub data Step : Outbox → Outbox → Type 0 where
  enqueues :
      (fresh : ℕ) (queue : Queue) (key : Option ℕ) (now : ℕ) (o : Outbox)
      → includes fresh (ids_of o.events) ≡ false
      → Step o (record o { events = enqueue fresh queue key now o.events })
  relays : (accepts : ℕ → Bool) (now : ℕ) (o : Outbox) → Step o (relay accepts now o)
  delivers :
      (k : ℕ) (handler : OutboxEvent → Option ℕ) (now random : ℕ) (o : Outbox)
      → includes k o.jobs ≡ true
      → Step o (record { events = process k handler now random o.events; jobs = drop_job k o.jobs })

pub data Reach : Outbox → Type 0 where
  start : Reach (record { events = []; jobs = [] })
  next : {a b : Outbox} → Reach a → Step a b → Reach b
