-- ===== src/Tests/Background.antt =====
-- The theorems on the outbox and on retries, at concrete inputs.
use e_commerce_backend.Common.{ℕ, refl, true, Bool, none, some, [], Memᴰ, ◌==◌, if◌then◌else◌}
use e_commerce_backend.Outbox.{
  OutboxStatus, Queue, OutboxEvent, Outbox, enqueue, set_event, reclaim_stale, insert_by_next_run,
  sort_by_next_run, limit, claimed_rows, dispatch_row, dispatch_rows, dispatch_batch, relay, settle,
  process, Step, Reach,
}
use e_commerce_backend.Outbox.Lifecycle.{IsSound}
use e_commerce_backend.Outbox.Soundness.{Reach-IsSound}
use e_commerce_backend.Outbox.Finality.{Step-keeps_done}
use e_commerce_backend.Resilience.{Outcome, with_resilience}
use e_commerce_backend.Resilience.Attempts.{Settles, with_resilience-Settles}

abbrev no_events : Outbox
no_events = record { events = []; jobs = [] }

abbrev recorded : Outbox
recorded = record no_events { events = enqueue 1 Queue.emails none 0 [] }

abbrev dispatched : Outbox
dispatched = relay (λ k. true) 5 recorded

abbrev delivered : Outbox
delivered = record { events = process 1 (λ e. none) 6 0 dispatched.events; jobs = [] }

recorded-Reach : Reach recorded
recorded-Reach = Reach.next Reach.start (Step.enqueues 1 Queue.emails none 0 no_events refl)

dispatched-Reach : Reach dispatched
dispatched-Reach = Reach.next recorded-Reach (Step.relays (λ k. true) 5 recorded)

delivered-Reach : Reach delivered
unfolding relay reclaim_stale dispatch_batch claimed_rows sort_by_next_run insert_by_next_run limit
    dispatch_rows dispatch_row enqueue
delivered-Reach = Reach.next dispatched-Reach (Step.delivers 1 (λ e. none) 6 0 dispatched refl)

Reach-IsSound_example : IsSound delivered
Reach-IsSound_example = Reach-IsSound delivered delivered-Reach

abbrev sent : OutboxEvent
sent = record {
  id = 1;
  queue = Queue.emails;
  status = OutboxStatus.done;
  attempts = 0;
  max_attempts = 8;
  next_run_at = 0;
  updated_at = 6;
  dedupe_key = none;
  processed_at = some 6;
  last_error = none;
}

Step-keeps_done_example : Memᴰ sent (relay (λ k. true) 400000 delivered).events
unfolding process set_event settle relay reclaim_stale dispatch_batch claimed_rows sort_by_next_run
    insert_by_next_run limit dispatch_rows dispatch_row enqueue
Step-keeps_done_example =
    Step-keeps_done delivered (relay (λ k. true) 400000 delivered) sent delivered-Reach
      (Step.relays (λ k. true) 400000 delivered) (Memᴰ.head refl) refl

abbrev fresh_event : OutboxEvent
fresh_event = record sent { status = OutboxStatus.pending; updated_at = 0; processed_at = none }

abbrev third_time : ℕ → Outcome ℕ Bool
third_time n = if n == 2 then Outcome.returned 5 else Outcome.threw true

with_resilience-Settles_example :
    Settles third_time
      (λ e. e)
      300
      5000
      (λ n. 0)
      0
      2
      (with_resilience third_time (λ e. e) 300 5000 (λ n. 0) 2)
with_resilience-Settles_example = with_resilience-Settles third_time (λ e. e) 300 5000 (λ n. 0) 2
