-- ===== src/Returns/Calls.antt =====
-- The calls that move a return (src/modules/ecommerce/returns/returns.service.ts).
use e_commerce_backend.Common.{
  ℕ, Bool, not, ◌||◌, Option, none, some, [], ◌∷◌, ◌++◌, ◌==◌, if◌then◌else◌, Exception,
  bad_request, forbidden, not_found, Result, ok, err, ◌>>=◌, ◌>>◌, throw_if, or_throw,
}
use e_commerce_backend.Finance.{
  Books, ReturnStatus, ReturnRequest, MailEvent, return_approved, return_received,
  replacement_shipped, find_return, set_return,
}
use e_commerce_backend.Returns.{get_seller, is_valid_return_transition, ◌=r◌}

abbrev pub write_event : ℕ → ReturnStatus → ReturnStatus → Option ℕ → Books → Books
write_event k from to actor b = record b {
  return_events =
      record { return_id = k; from_status = some from; to_status = to; actor_user_id = actor }
      ∷ b.return_events;
}

abbrev pub send_mail : MailEvent → Books → Books
send_mail m b = record b { mails = b.mails ++ (m ∷ []) }

-- `returnRequest.updateMany` on a return that has the status `from`, and the event. `set` writes the
-- other columns.
unfoldable pub move :
    ℕ
    → ReturnStatus
    → ReturnStatus
    → Option ℕ
    → (ReturnRequest → ReturnRequest)
    → Books
    → Option Books
move k from to actor set b = elim (find_return k b.returns) [
  | none ↦ none
  | some r ↦
      if r.status =r from
      then some (
          write_event k from to actor
            (record b { returns = set_return k (λ x. record (set x) { status = to }) b.returns }))
      else none
]

-- `if (flip.count === 0) return`, else the rest of the transaction
abbrev pub and_then : Books → (Books → Books) → Option Books → Books
and_then b rest none = b
and_then b rest (some after) = rest after

-- The checks that the seller's calls start with.
unfoldable pub load_own_return : ℕ → ℕ → Books → Result ReturnRequest
unfolding get_seller
load_own_return user_id k b = do
  seller ← get_seller user_id b.shop
  rr ← or_throw (find_return k b.returns) not_found
  throw_if (not (rr.seller_id == seller)) forbidden
  ok rr

unfoldable pub check_move : ℕ → ℕ → ReturnStatus → Books → Result ReturnRequest
unfolding load_own_return
check_move user_id k to b = do
  rr ← load_own_return user_id k b
  throw_if (not (is_valid_return_transition rr.status to)) bad_request
  ok rr

abbrev pub set_approver : ℕ → ReturnRequest → ReturnRequest
set_approver user_id r = record r { approved_by_id = some user_id }

abbrev pub same_columns : ReturnRequest → ReturnRequest
same_columns r = r

unfoldable pub approve_transaction : ℕ → ℕ → Books → Books
unfolding move
approve_transaction user_id k b =
    and_then b (send_mail (return_approved k))
      (move k ReturnStatus.requested ReturnStatus.approved (some user_id) (set_approver user_id) b)

-- `approveReturn`
unfoldable pub approve_return : ℕ → ℕ → Books → Result Books
unfolding check_move approve_transaction
approve_return user_id k b =
    check_move user_id k ReturnStatus.approved b >>= λ rr. ok (approve_transaction user_id k b)

-- The transactions of the calls that only move the return.
unfoldable pub move_transaction : ℕ → ReturnStatus → ReturnStatus → Option ℕ → Books → Books
unfolding move
move_transaction k from to actor b =
    and_then b (λ after. after) (move k from to actor same_columns b)

-- `rejectReturn`
unfoldable pub reject_return : ℕ → ℕ → Books → Result Books
unfolding check_move move_transaction
reject_return user_id k b = check_move user_id k ReturnStatus.rejected b >>= λ rr.
    ok (move_transaction k rr.status ReturnStatus.rejected (some user_id) b)

-- `scheduleReturnPickup`; `courier` is the exception of `createReturnShipment`, if it raises
unfoldable pub schedule_return_pickup : ℕ → ℕ → Option Exception → Books → Result Books
unfolding check_move move_transaction
schedule_return_pickup user_id k courier b =
    check_move user_id k ReturnStatus.pickup_scheduled b >>= λ rr. elim courier [
      | some e ↦ err e
      | none ↦
          ok (
            move_transaction k ReturnStatus.approved ReturnStatus.pickup_scheduled (some user_id) b)
    ]

abbrev pub is_on_its_way : ReturnStatus → Bool
is_on_its_way s = s =r ReturnStatus.pickup_scheduled || s =r ReturnStatus.in_transit

-- `transitionToReceived`
unfoldable pub transition_to_received : ℕ → Option ℕ → Books → Books
unfolding move
transition_to_received k actor b = elim (find_return k b.returns) [
  | none ↦ b
  | some r ↦
      if is_on_its_way r.status
      then and_then b (send_mail (return_received k))
          (move k r.status ReturnStatus.received actor same_columns b)
      else b
]

-- `markReturnReceived`
unfoldable pub mark_return_received : ℕ → ℕ → Books → Result Books
unfolding load_own_return transition_to_received
mark_return_received user_id k b =
    load_own_return user_id k b >>= λ rr. ok (transition_to_received k (some user_id) b)

unfoldable pub replacement_transaction : ℕ → ℕ → Books → Books
unfolding move
replacement_transaction user_id k b = and_then b (send_mail (replacement_shipped k)) (
    move k ReturnStatus.replacement_approved ReturnStatus.replacement_shipped (some user_id)
      same_columns b)

-- `markReplacementShipped`
unfoldable pub mark_replacement_shipped : ℕ → ℕ → Books → Result Books
unfolding check_move replacement_transaction
mark_replacement_shipped user_id k b =
    check_move user_id k ReturnStatus.replacement_shipped b >>= λ rr.
    ok (replacement_transaction user_id k b)

-- `advanceFromReverseScan`
unfoldable pub advance_from_reverse_scan : ℕ → Bool → Books → Books
unfolding move_transaction transition_to_received
advance_from_reverse_scan k is_received b =
    if is_received
    then transition_to_received k none b
    else move_transaction k ReturnStatus.pickup_scheduled ReturnStatus.in_transit none b
