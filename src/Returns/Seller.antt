-- ===== src/Returns/Seller.antt =====
-- What the transactions of the seller's calls on a return do to the books.
pub mod Guards
use e_commerce_backend.Common.{
  ℕ, ◌≡◌, ◌↔◌, refl, sym, ap, ◌∙◌, subst, Bool, true, false, not, ◌||◌, Option, none, some, List,
  [], ◌∷◌, ◌++◌, ◌==◌, if◌then◌else◌, ok, err, Exception, Result, Bool-cases, >>=-eq-ok,
  throw_if->>-eq-ok, or_throw->>=-eq-ok, ok-injective, bad_request, forbidden, not_found, arith,
}
use e_commerce_backend.Finance.{
  Books, ReturnStatus, ReturnRequest, MailEvent, return_approved, return_received,
  replacement_shipped, find_return, set_return,
}
use e_commerce_backend.Returns.{◌=r◌, is_valid_return_transition, get_seller}
use e_commerce_backend.Returns.Calls.{
  move, move_transaction, approve_transaction, replacement_transaction, transition_to_received,
  load_own_return, check_move, approve_return, reject_return, schedule_return_pickup,
  mark_return_received, mark_replacement_shipped,
}
use e_commerce_backend.Returns.Moves.{=r-sound}
use e_commerce_backend.Returns.Trails.{same_status}

pub data SellerCall : Type 0 where
  approves rejects schedules receives ships_replacement : SellerCall

-- The status a call moves to.
abbrev pub target : SellerCall → ReturnStatus
target SellerCall.approves = ReturnStatus.approved
target SellerCall.rejects = ReturnStatus.rejected
target SellerCall.schedules = ReturnStatus.pickup_scheduled
target SellerCall.receives = ReturnStatus.received
target SellerCall.ships_replacement = ReturnStatus.replacement_shipped

-- The statuses a call moves away from.
abbrev pub leaves : SellerCall → ReturnStatus → Bool
leaves SellerCall.approves ReturnStatus.requested = true
leaves SellerCall.rejects ReturnStatus.requested = true
leaves SellerCall.rejects ReturnStatus.approved = true
leaves SellerCall.rejects ReturnStatus.qc_failed = true
leaves SellerCall.schedules ReturnStatus.approved = true
leaves SellerCall.receives ReturnStatus.pickup_scheduled = true
leaves SellerCall.receives ReturnStatus.in_transit = true
leaves SellerCall.ships_replacement ReturnStatus.replacement_approved = true
leaves _ _ = false

-- Only an approval writes who made it.
abbrev pub approver : SellerCall → ℕ → Option ℕ → Option ℕ
approver SellerCall.approves user_id old = some user_id
approver _ user_id old = old

-- The mails that are asked for.
abbrev pub mails_of : SellerCall → ℕ → List MailEvent → List MailEvent
mails_of SellerCall.approves k ms = ms ++ (return_approved k ∷ [])
mails_of SellerCall.receives k ms = ms ++ (return_received k ∷ [])
mails_of SellerCall.ships_replacement k ms = ms ++ (replacement_shipped k ∷ [])
mails_of _ k ms = ms

-- The books after the call has moved the return `r`: its status, one event by the user, the mail.
abbrev pub moved : SellerCall → ℕ → ℕ → ReturnRequest → Books → Books
moved c user_id k r b = record b {
  returns =
      set_return k
        (λ x. record x { status = target c; approved_by_id = approver c user_id x.approved_by_id })
        b.returns;
  return_events =
      record {
        return_id = k;
        from_status = some r.status;
        to_status = target c;
        actor_user_id = some user_id;
      }
      ∷ b.return_events;
  mails = mails_of c k b.mails;
}

-- Receiving a return that is not on its way changes nothing; every other call raises then.
abbrev pub is_receipt : SellerCall → Bool
is_receipt SellerCall.receives = true
is_receipt _ = false

move_found :
    (k : ℕ) (to : ReturnStatus) (actor : Option ℕ) (set : ReturnRequest → ReturnRequest) (b : Books)
    {r : ReturnRequest}
    → find_return k b.returns ≡ some r
    → move k r.status to actor set b
      ≡ some (record b {
        returns = set_return k (λ x. record (set x) { status = to }) b.returns;
        return_events =
            record {
              return_id = k;
              from_status = some r.status;
              to_status = to;
              actor_user_id = actor;
            }
            ∷ b.return_events;
      })
unfolding move
move_found k to actor set b {r} found = rw (found, move) (rw (same_status r.status))

leaves-approves :
    (s : ReturnStatus) → leaves SellerCall.approves s ≡ true → ReturnStatus.requested ≡ s
leaves-approves ReturnStatus.requested h = refl
leaves-approves _ h = cc

leaves-schedules :
    (s : ReturnStatus) → leaves SellerCall.schedules s ≡ true → ReturnStatus.approved ≡ s
leaves-schedules ReturnStatus.approved h = refl
leaves-schedules _ h = cc

leaves-ships :
    (s : ReturnStatus)
    → leaves SellerCall.ships_replacement s ≡ true
    → ReturnStatus.replacement_approved ≡ s
leaves-ships ReturnStatus.replacement_approved h = refl
leaves-ships _ h = cc

approve_transaction-moved :
    (user_id k : ℕ) (b : Books) {r : ReturnRequest}
    → find_return k b.returns ≡ some r
    → leaves SellerCall.approves r.status ≡ true
    → approve_transaction user_id k b ≡ moved SellerCall.approves user_id k r b
unfolding approve_transaction
approve_transaction-moved user_id k b {r} found h =
    rw (leaves-approves r.status h) (rw (move_found k _ (some user_id) _ b found))

move_transaction-moved :
    (k : ℕ) (to : ReturnStatus) (user_id : ℕ) (b : Books) {r : ReturnRequest}
    → find_return k b.returns ≡ some r
    → move_transaction k r.status to (some user_id) b ≡ record b {
      returns = set_return k (λ x. record x { status = to }) b.returns;
      return_events =
          record {
            return_id = k;
            from_status = some r.status;
            to_status = to;
            actor_user_id = some user_id;
          }
          ∷ b.return_events;
    }
unfolding move_transaction
move_transaction-moved k to user_id b {r} found = rw (move_found k to (some user_id) _ b found)

replacement_transaction-moved :
    (user_id k : ℕ) (b : Books) {r : ReturnRequest}
    → find_return k b.returns ≡ some r
    → leaves SellerCall.ships_replacement r.status ≡ true
    → replacement_transaction user_id k b ≡ moved SellerCall.ships_replacement user_id k r b
unfolding replacement_transaction
replacement_transaction-moved user_id k b {r} found h =
    rw (leaves-ships r.status h) (rw (move_found k _ (some user_id) _ b found))

leaves-receives :
    (s : ReturnStatus)
    → leaves SellerCall.receives s
      ≡ (s =r ReturnStatus.pickup_scheduled || s =r ReturnStatus.in_transit)
leaves-receives ReturnStatus.requested = refl
leaves-receives ReturnStatus.approved = refl
leaves-receives ReturnStatus.pickup_scheduled = refl
leaves-receives ReturnStatus.in_transit = refl
leaves-receives ReturnStatus.received = refl
leaves-receives ReturnStatus.qc_passed = refl
leaves-receives ReturnStatus.qc_failed = refl
leaves-receives ReturnStatus.refunded = refl
leaves-receives ReturnStatus.replacement_approved = refl
leaves-receives ReturnStatus.replacement_shipped = refl
leaves-receives ReturnStatus.closed = refl
leaves-receives ReturnStatus.rejected = refl

transition_to_received-moved :
    (user_id k : ℕ) (b : Books) {r : ReturnRequest}
    → find_return k b.returns ≡ some r
    → transition_to_received k (some user_id) b
      ≡ (if leaves SellerCall.receives r.status then moved SellerCall.receives user_id k r b else b)
unfolding transition_to_received
transition_to_received-moved user_id k b {r} found =
    let m = move_found k ReturnStatus.received (some user_id) (λ x. x) b found in
    rw (found, transition_to_received) (rw (leaves-receives r.status) (rw m))

-- The transaction of a call, on the return that the call has loaded.
abbrev transact : SellerCall → ℕ → ℕ → ReturnRequest → Books → Books
transact SellerCall.approves user_id k r b = approve_transaction user_id k b
transact SellerCall.rejects user_id k r b =
    move_transaction k r.status ReturnStatus.rejected (some user_id) b
transact SellerCall.schedules user_id k r b =
    move_transaction k ReturnStatus.approved ReturnStatus.pickup_scheduled (some user_id) b
transact SellerCall.receives user_id k r b = transition_to_received k (some user_id) b
transact SellerCall.ships_replacement user_id k r b = replacement_transaction user_id k b

transact-moved :
    (c : SellerCall) (user_id k : ℕ) (b : Books) {r : ReturnRequest}
    → find_return k b.returns ≡ some r
    → (leaves c r.status || is_receipt c) ≡ true
    → transact c user_id k r b ≡ (if leaves c r.status then moved c user_id k r b else b)
transact-moved SellerCall.approves user_id k b {r} found h =
    let l : leaves SellerCall.approves r.status ≡ true = ground arith in
    rw l (approve_transaction-moved user_id k b found l)
transact-moved SellerCall.rejects user_id k b {r} found h =
    let l : leaves SellerCall.rejects r.status ≡ true = ground arith in
    rw l (move_transaction-moved k ReturnStatus.rejected user_id b found)
transact-moved SellerCall.schedules user_id k b {r} found h =
    let l : leaves SellerCall.schedules r.status ≡ true = ground arith in
    rw l (
      rw (leaves-schedules r.status l)
        (move_transaction-moved k ReturnStatus.pickup_scheduled user_id b found))
transact-moved SellerCall.receives user_id k b {r} found h =
    transition_to_received-moved user_id k b found
transact-moved SellerCall.ships_replacement user_id k b {r} found h =
    let l : leaves SellerCall.ships_replacement r.status ≡ true = ground arith in
    rw l (replacement_transaction-moved user_id k b found l)
