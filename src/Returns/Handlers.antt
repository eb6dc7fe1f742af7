-- ===== src/Returns/Handlers.antt =====
-- The calls of the service of returns are made of its transactions.
use e_commerce_backend.Common.{ℕ, ◌≡◌, Bool, Option, none, ok, Exception}
use e_commerce_backend.Finance.{Books, find_return}
use e_commerce_backend.Refund.Execution.{GatewayReply}
use e_commerce_backend.Returns.{ReturnInput, request_return}
use e_commerce_backend.Returns.Calls.{
  approve_return, reject_return, schedule_return_pickup, mark_return_received,
  mark_replacement_shipped, advance_from_reverse_scan,
}
use e_commerce_backend.Returns.Resolution.{qc_return, reconcile_stuck_returns}

-- One call of the service that changes something.
pub data Handled : Books → Books → Type 0 where
  requests :
      (user_id : ℕ) (enabled : Bool) (input : ReturnInput) (now fresh : ℕ) (a b : Books)
      → find_return fresh a.returns ≡ none
      → request_return user_id enabled input now fresh a ≡ ok b
      → Handled a b
  approves : (user_id k : ℕ) (a b : Books) → approve_return user_id k a ≡ ok b → Handled a b
  rejects : (user_id k : ℕ) (a b : Books) → reject_return user_id k a ≡ ok b → Handled a b
  schedules :
      (user_id k : ℕ) (courier : Option Exception) (a b : Books)
      → schedule_return_pickup user_id k courier a ≡ ok b
      → Handled a b
  receives : (user_id k : ℕ) (a b : Books) → mark_return_received user_id k a ≡ ok b → Handled a b
  is_scanned :
      (k : ℕ) (is_received : Bool) (a : Books)
      → Handled a (advance_from_reverse_scan k is_received a)
  inspects :
      (user_id k : ℕ) (pass : Bool) (fresh fresh_clawback : ℕ) (reply : GatewayReply) (a : Books)
      → Handled a (qc_return user_id k pass fresh fresh_clawback reply a).0
  ships_replacement :
      (user_id k : ℕ) (a b : Books) → mark_replacement_shipped user_id k a ≡ ok b → Handled a b
  reconciles :
      (fresh fresh_clawback : ℕ → ℕ) (reply : ℕ → GatewayReply) (a : Books)
      → Handled a (reconcile_stuck_returns fresh fresh_clawback reply a)
