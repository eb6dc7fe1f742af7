-- ===== src/Returns/Seller/Guards.antt =====
-- When the calls of the seller on a return are let through, and the books they leave.
use e_commerce_backend.Common.{
  ℕ, ◌≡◌, ◌↔◌, refl, sym, ap, ◌∙◌, subst, true, not, ◌||◌, none, some, ◌==◌, if◌then◌else◌, ok,
  ◌>>=◌, Result, >>=-eq-ok, throw_if->>-eq-ok, or_throw->>=-eq-ok, ok-injective, bad_request,
  forbidden, not_found, arith,
}
use e_commerce_backend.Finance.{Books, ReturnStatus, ReturnRequest, find_return}
use e_commerce_backend.Returns.{is_valid_return_transition, get_seller}
use e_commerce_backend.Returns.Calls.{
  load_own_return, check_move, approve_return, reject_return, schedule_return_pickup,
  mark_return_received, mark_replacement_shipped,
}
use e_commerce_backend.Returns.Seller.{
  SellerCall, target, leaves, moved, is_receipt, transact, transact-moved,
}

-- The call of the service, when the courier takes the booking of a pickup.
abbrev pub run : SellerCall → ℕ → ℕ → Books → Result Books
run SellerCall.approves user_id k b = approve_return user_id k b
run SellerCall.rejects user_id k b = reject_return user_id k b
run SellerCall.schedules user_id k b = schedule_return_pickup user_id k none b
run SellerCall.receives user_id k b = mark_return_received user_id k b
run SellerCall.ships_replacement user_id k b = mark_replacement_shipped user_id k b

-- The user's seller is the seller of the return, and the books are those of the move.
pub record Acts (c : SellerCall) (user_id k : ℕ) (before after : Books) : Type 0 where
  pub seller : ℕ
  pub r : ReturnRequest
  pub of_user : get_seller user_id before.shop ≡ ok seller
  pub found : find_return k before.returns ≡ some r
  pub owned : r.seller_id ≡ seller
  pub admitted : (leaves c r.status || is_receipt c) ≡ true
  pub books : after ≡ (if leaves c r.status then moved c user_id k r before else before)

load_own_return-eq :
    (user_id k : ℕ) (b : Books) {r : ReturnRequest}
    → load_own_return user_id k b ≡ ok r
    → (get_seller user_id b.shop ≡ ok r.seller_id) × (find_return k b.returns ≡ some r)
unfolding load_own_return
load_own_return-eq user_id k b {r} e =
    let (s, a1, e1) = >>=-eq-ok (get_seller user_id b.shop) _ e in
    let (x, a2, e2) = or_throw->>=-eq-ok (find_return k b.returns) not_found _ e1 in
    let (c, e3) = throw_if->>-eq-ok (not (x.seller_id == s)) forbidden _ e2 in
    let same : x ≡ r = ok-injective e3 in
    let mine : x.seller_id ≡ s = ground arith in
    (
      subst (λ (y : ReturnRequest). get_seller user_id b.shop ≡ ok y.seller_id) same
          (a1 ∙ ap (λ n. ok n) (sym mine)),
      a2 ∙ ap (λ y. some y) same,
    )

own_return_loads :
    (user_id k : ℕ) (b : Books) {r : ReturnRequest}
    → get_seller user_id b.shop ≡ ok r.seller_id
    → find_return k b.returns ≡ some r
    → load_own_return user_id k b ≡ ok r
unfolding load_own_return
own_return_loads user_id k b {r} mine found =
    let self : (r.seller_id == r.seller_id) ≡ true = ground arith in rw mine (rw found (rw self))

check_move-eq :
    (user_id k : ℕ) (to : ReturnStatus) (b : Books) {r : ReturnRequest}
    → check_move user_id k to b ≡ ok r
    → (load_own_return user_id k b ≡ ok r) × (is_valid_return_transition r.status to ≡ true)
unfolding check_move
check_move-eq user_id k to b {r} e =
    let (x, a, e1) = >>=-eq-ok (load_own_return user_id k b) _ e in
    let (c, e2) =
      throw_if->>-eq-ok (not (is_valid_return_transition x.status to)) bad_request _ e1 in
    let same : x ≡ r = ok-injective e2 in
    let valid : is_valid_return_transition x.status to ≡ true = ground arith in
    (
      a ∙ ap (λ y. ok y) same,
      subst (λ (y : ReturnRequest). is_valid_return_transition y.status to ≡ true) same valid,
    )

move_checks :
    (user_id k : ℕ) (to : ReturnStatus) (b : Books) {r : ReturnRequest}
    → load_own_return user_id k b ≡ ok r
    → is_valid_return_transition r.status to ≡ true
    → check_move user_id k to b ≡ ok r
unfolding check_move
move_checks user_id k to b {r} loaded valid = rw loaded (rw valid)

-- The statuses from which the table of the service admits the target of a call.
table-leaves :
    (c : SellerCall) (s : ReturnStatus)
    → is_valid_return_transition s (target c) ≡ true
    → leaves c s ≡ true
unfolding is_valid_return_transition
table-leaves SellerCall.approves ReturnStatus.requested h = refl
table-leaves SellerCall.rejects ReturnStatus.requested h = refl
table-leaves SellerCall.rejects ReturnStatus.approved h = refl
table-leaves SellerCall.rejects ReturnStatus.qc_failed h = refl
table-leaves SellerCall.schedules ReturnStatus.approved h = refl
table-leaves SellerCall.receives ReturnStatus.pickup_scheduled h = refl
table-leaves SellerCall.receives ReturnStatus.in_transit h = refl
table-leaves SellerCall.ships_replacement ReturnStatus.replacement_approved h = refl
table-leaves _ _ h = cc

leaves-table :
    (c : SellerCall) (s : ReturnStatus)
    → leaves c s ≡ true
    → is_valid_return_transition s (target c) ≡ true
unfolding is_valid_return_transition
leaves-table SellerCall.approves ReturnStatus.requested h = refl
leaves-table SellerCall.rejects ReturnStatus.requested h = refl
leaves-table SellerCall.rejects ReturnStatus.approved h = refl
leaves-table SellerCall.rejects ReturnStatus.qc_failed h = refl
leaves-table SellerCall.schedules ReturnStatus.approved h = refl
leaves-table SellerCall.receives ReturnStatus.pickup_scheduled h = refl
leaves-table SellerCall.receives ReturnStatus.in_transit h = refl
leaves-table SellerCall.ships_replacement ReturnStatus.replacement_approved h = refl
leaves-table _ _ h = cc

-- The checks of a call.
abbrev pub check : SellerCall → ℕ → ℕ → Books → Result ReturnRequest
check SellerCall.receives user_id k b = load_own_return user_id k b
check c user_id k b = check_move user_id k (target c) b

run-eq :
    (c : SellerCall) (user_id k : ℕ) (b : Books)
    → run c user_id k b ≡ (check c user_id k b >>= λ r. ok (transact c user_id k r b))
unfolding approve_return reject_return schedule_return_pickup mark_return_received
    mark_replacement_shipped
run-eq SellerCall.approves user_id k b = refl
run-eq SellerCall.rejects user_id k b = refl
run-eq SellerCall.schedules user_id k b = refl
run-eq SellerCall.receives user_id k b = refl
run-eq SellerCall.ships_replacement user_id k b = refl

check-eq :
    (c : SellerCall) (user_id k : ℕ) (b : Books) {r : ReturnRequest}
    → check c user_id k b ≡ ok r
    → (load_own_return user_id k b ≡ ok r) × ((leaves c r.status || is_receipt c) ≡ true)
check-eq SellerCall.receives user_id k b {r} e = (e, ground arith)
check-eq SellerCall.approves user_id k b {r} e =
    let (a, v) = check_move-eq user_id k ReturnStatus.approved b e in
    (a, rw (table-leaves SellerCall.approves r.status v))
check-eq SellerCall.rejects user_id k b {r} e =
    let (a, v) = check_move-eq user_id k ReturnStatus.rejected b e in
    (a, rw (table-leaves SellerCall.rejects r.status v))
check-eq SellerCall.schedules user_id k b {r} e =
    let (a, v) = check_move-eq user_id k ReturnStatus.pickup_scheduled b e in
    (a, rw (table-leaves SellerCall.schedules r.status v))
check-eq SellerCall.ships_replacement user_id k b {r} e =
    let (a, v) = check_move-eq user_id k ReturnStatus.replacement_shipped b e in
    (a, rw (table-leaves SellerCall.ships_replacement r.status v))

checks :
    (c : SellerCall) (user_id k : ℕ) (b : Books) {r : ReturnRequest}
    → load_own_return user_id k b ≡ ok r
    → (leaves c r.status || is_receipt c) ≡ true
    → check c user_id k b ≡ ok r
checks SellerCall.receives user_id k b {r} loaded h = loaded
checks SellerCall.approves user_id k b {r} loaded h =
    move_checks user_id k _ b loaded (leaves-table SellerCall.approves r.status (ground arith))
checks SellerCall.rejects user_id k b {r} loaded h =
    move_checks user_id k _ b loaded (leaves-table SellerCall.rejects r.status (ground arith))
checks SellerCall.schedules user_id k b {r} loaded h =
    move_checks user_id k _ b loaded (leaves-table SellerCall.schedules r.status (ground arith))
checks SellerCall.ships_replacement user_id k b {r} loaded h =
    move_checks user_id k _ b loaded
      (leaves-table SellerCall.ships_replacement r.status (ground arith))

run-Acts :
    (c : SellerCall) (user_id k : ℕ) (b : Books) {after : Books}
    → run c user_id k b ≡ ok after
    → Acts c user_id k b after
run-Acts c user_id k b {after} e =
    let (r, a, e1) = >>=-eq-ok (check c user_id k b) _ (sym (run-eq c user_id k b) ∙ e) in
    let (loaded, admitted) = check-eq c user_id k b a in
    let (mine, found) = load_own_return-eq user_id k b loaded in
    record {
      seller = r.seller_id;
      r = r;
      of_user = mine;
      found = found;
      owned = refl;
      admitted = admitted;
      books = sym (ok-injective e1) ∙ transact-moved c user_id k b found admitted;
    }

Acts-run :
    (c : SellerCall) (user_id k : ℕ) (b : Books) {after : Books}
    → Acts c user_id k b after
    → run c user_id k b ≡ ok after
Acts-run c user_id k b {after} a =
    let mine = a.of_user ∙ ap (λ n. ok n) (sym a.owned) in
    let checked = checks c user_id k b (own_return_loads user_id k b mine a.found) a.admitted in
    run-eq c user_id k b
    ∙ rw checked (ap (λ x. ok x) (transact-moved c user_id k b a.found a.admitted ∙ sym a.books))

-- A seller's call on a return (approve, reject, schedule the pickup when the courier takes it,
-- receive, ship the replacement) succeeds exactly when the user has a seller, the return exists and
-- is that seller's, and its status is one that the call leaves: requested for an approval;
-- requested, approved or failed inspection for a rejection; approved for a pickup; an approved
-- replacement for a shipment. The books are then those before with the return in its new status, one
-- event from the old status by that user, the approver of an approval, the mail of an approval, a
-- receipt or a shipment, and nothing else. A receipt moves a return that is scheduled or in transit,
-- and succeeds without any change for every other one.
pub run_iff :
    (c : SellerCall) (user_id k : ℕ) (b after : Books)
    → (run c user_id k b ≡ ok after) ↔ Acts c user_id k b after
run_iff c user_id k b after = (run-Acts c user_id k b, Acts-run c user_id k b)
