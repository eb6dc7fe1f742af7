-- ===== src/Returns/Reach.antt =====
-- The calls of the service of returns, cut at their transactions and in any order.
use e_commerce_backend.Common.{
  ℕ, ◌+◌, ◌≡◌, refl, sym, ap, subst, Bool, true, false, not, ◌&&◌, Option, none, some, List, [],
  ◌==◌, all_of, ltb, ok, >>=-eq-ok, throw_if->>-eq-ok, or_throw->>=-eq-ok, ok-injective,
  bad_request, forbidden, not_found, arith,
}
use e_commerce_backend.Order.Status.{OrderStatus, ◌=s◌}
use e_commerce_backend.Database.{Database, SellerOrder, find_order, find_seller_order}
use e_commerce_backend.Finance.{
  Books, ReturnStatus, ResolutionType, ReturnItem, ReturnRequest, find_return,
}
use e_commerce_backend.Refund.Execution.{GatewayReply}
use e_commerce_backend.Returns.{
  ReturnInput, ◌=r◌, is_valid_return_transition, items_of, fits, check_return, collect_lines,
  get_customer, open_return, new_return, resolution_or_refund, is_replacement, or_else,
  return_window,
}
use e_commerce_backend.Returns.Calls.{
  approve_transaction, move_transaction, transition_to_received, replacement_transaction,
  advance_from_reverse_scan,
}
use e_commerce_backend.Returns.Resolution.{
  complete_qc_passed_refund, complete_qc_passed_replacement,
}
use e_commerce_backend.Returns.Lines.{AreDistinct, collect_lines-AreDistinct, fits-quantity_in}
use e_commerce_backend.Returns.Ledger.{Changes, Change, IsTraced}
use e_commerce_backend.Returns.Trails.{Changes-IsTraced}
use e_commerce_backend.Returns.Within.{IsBounded, Changes-IsBounded}
use e_commerce_backend.Returns.Moves.{
  log_of, Follows, SameLog, same-Follows, Follows-SameLog, Follows-trans, move_transaction-Follows,
  approve_transaction-Follows, replacement_transaction-Follows, transition_to_received-Follows,
}
use e_commerce_backend.Returns.Completion.{
  complete_qc_passed_refund-Follows, complete_qc_passed_replacement-Follows,
}

abbrev inspected : Bool → ReturnStatus
inspected true = ReturnStatus.qc_passed
inspected false = ReturnStatus.qc_failed

-- One transaction. What was read before it, such as `before` and `rr`, may be out of date, but for the
-- items of the orders, which do not change. A new return takes an identifier that is not in use.
-- Other services write neither returns nor their events.
pub data Step : Books → Books → Type 0 where
  requests :
      (user_id : ℕ) (enabled : Bool) (input : ReturnInput) (now fresh : ℕ) (before : Database)
      (a b : Books) (customer : ℕ) (so : SellerOrder) (lines : List ReturnItem)
      → before.order_items ≡ a.shop.order_items
      → find_return fresh a.returns ≡ none
      → check_return user_id enabled input now before ≡ ok (customer, so, lines)
      → open_return user_id (resolution_or_refund input.resolution_type) fresh customer so lines a
        ≡ ok b
      → Step a b
  approves : (user_id k : ℕ) (a : Books) → Step a (approve_transaction user_id k a)
  rejects :
      (user_id k : ℕ) (from : ReturnStatus) (a : Books)
      → is_valid_return_transition from ReturnStatus.rejected ≡ true
      → Step a (move_transaction k from ReturnStatus.rejected (some user_id) a)
  schedules :
      (user_id k : ℕ) (a : Books)
      → Step a
          (move_transaction k ReturnStatus.approved ReturnStatus.pickup_scheduled (some user_id) a)
  receives : (k : ℕ) (actor : Option ℕ) (a : Books) → Step a (transition_to_received k actor a)
  is_scanned :
      (k : ℕ) (is_received : Bool) (a : Books) → Step a (advance_from_reverse_scan k is_received a)
  inspects :
      (user_id k : ℕ) (pass : Bool) (a : Books)
      → Step a (move_transaction k ReturnStatus.received (inspected pass) (some user_id) a)
  refunds :
      (rr : ReturnRequest) (actor : Option ℕ) (fresh fresh_clawback : ℕ) (reply : GatewayReply)
      (a : Books)
      → Step a (complete_qc_passed_refund rr actor fresh fresh_clawback reply a).0
  replaces :
      (rr : ReturnRequest) (actor : Option ℕ) (a : Books)
      → Step a (complete_qc_passed_replacement rr actor a).0
  ships_replacement : (user_id k : ℕ) (a : Books) → Step a (replacement_transaction user_id k a)
  elsewhere : (a b : Books) → SameLog a b → Step a b

pub data Steps : Books → Books → Type 0 where
  none_yet : (a : Books) → Steps a a
  then : {a b c : Books} → Steps a b → Step b c → Steps a c

check_return-AreDistinct :
    (user_id : ℕ) (enabled : Bool) (input : ReturnInput) (now : ℕ) (db : Database) {customer : ℕ}
    {so : SellerOrder} {lines : List ReturnItem}
    → check_return user_id enabled input now db ≡ ok (customer, so, lines)
    → AreDistinct lines
unfolding check_return
check_return-AreDistinct user_id enabled input now db {customer} {so} {lines} e =
    let (c, a, e1) = >>=-eq-ok (get_customer user_id db) _ e in
    let (u0, e2) =
      throw_if->>-eq-ok (is_replacement (resolution_or_refund input.resolution_type) && not enabled)
        bad_request _ e1 in
    let (s, a2, e3) =
      or_throw->>=-eq-ok (find_seller_order input.seller_order_id db) not_found _ e2 in
    let (u1, e4) = throw_if->>-eq-ok s.is_deleted not_found _ e3 in
    let (o, a3, e5) = or_throw->>=-eq-ok (find_order s.order_id db) not_found _ e4 in
    let (u2, e6) = throw_if->>-eq-ok (not (o.customer_id == c)) forbidden _ e5 in
    let (u3, e7) = throw_if->>-eq-ok (not (s.status =s OrderStatus.delivered)) bad_request _ e6 in
    let (t, a4, e8) = or_throw->>=-eq-ok (or_else s.delivered_at o.delivered_at) bad_request _ e7 in
    let (u4, e9) = throw_if->>-eq-ok (ltb (t + return_window) now) bad_request _ e8 in
    let (ls, a5, e10) = >>=-eq-ok (collect_lines (items_of s.id db) input.items []) _ e9 in
    subst AreDistinct (ap (λ (x : ℕ × SellerOrder × List ReturnItem). x.2) (ok-injective e10))
      (collect_lines-AreDistinct (items_of s.id db) input.items [] tt a5)

open_return-Follows :
    (user_id : ℕ) (resolution : ResolutionType) (fresh customer : ℕ) (so : SellerOrder)
    (lines : List ReturnItem) (a : Books) {b : Books}
    → find_return fresh a.returns ≡ none
    → AreDistinct lines
    → open_return user_id resolution fresh customer so lines a ≡ ok b
    → Follows a b
unfolding open_return
open_return-Follows user_id resolution fresh customer so lines a {b} free distinct e =
    let (c, e1) =
      throw_if->>-eq-ok (not (all_of (fits so.id (items_of so.id a.shop) a.returns) lines))
        bad_request _ e in
    let all : all_of (fits so.id (items_of so.id a.shop) a.returns) lines ≡ true = ground arith in
    subst (Follows a) (ok-injective e1) (record {
      items = refl;
      changes = Changes.then (Changes.nothing (log_of a)) (
          Change.opens (new_return fresh customer so resolution lines) (some user_id) a.returns
            a.return_events free refl
            (λ within k oi found.
              fits-quantity_in so.id k (items_of so.id a.shop) a.returns lines oi distinct all found
                (within so.id k oi found)));
    })

inspected-valid :
    (pass : Bool)
    → (is_valid_return_transition ReturnStatus.received (inspected pass) ≡ true)
      × ((inspected pass =r ReturnStatus.closed) ≡ false)
unfolding is_valid_return_transition
inspected-valid true = (refl, refl)
inspected-valid false = (refl, refl)

scan-Follows :
    (k : ℕ) (is_received : Bool) (a : Books) → Follows a (advance_from_reverse_scan k is_received a)
unfolding advance_from_reverse_scan is_valid_return_transition
scan-Follows k true a = transition_to_received-Follows k none a
scan-Follows k false a =
    move_transaction-Follows k ReturnStatus.pickup_scheduled ReturnStatus.in_transit none a refl
      refl

Step-Follows : {a b : Books} → Step a b → Follows a b
unfolding is_valid_return_transition
Step-Follows
      (Step.requests user_id enabled input now fresh before a b customer so lines same free checked
        done) =
    open_return-Follows user_id (resolution_or_refund input.resolution_type) fresh customer so lines
      a free (check_return-AreDistinct user_id enabled input now before checked) done
Step-Follows (Step.approves user_id k a) = approve_transaction-Follows user_id k a
Step-Follows (Step.rejects user_id k from a valid) =
    move_transaction-Follows k from ReturnStatus.rejected (some user_id) a valid refl
Step-Follows (Step.schedules user_id k a) =
    move_transaction-Follows k ReturnStatus.approved ReturnStatus.pickup_scheduled (some user_id) a
      refl refl
Step-Follows (Step.receives k actor a) = transition_to_received-Follows k actor a
Step-Follows (Step.is_scanned k is_received a) = scan-Follows k is_received a
Step-Follows (Step.inspects user_id k pass a) =
    move_transaction-Follows k ReturnStatus.received (inspected pass) (some user_id) a
      (inspected-valid pass).0 (inspected-valid pass).1
Step-Follows (Step.refunds rr actor fresh fresh_clawback reply a) =
    complete_qc_passed_refund-Follows rr actor fresh fresh_clawback reply a
Step-Follows (Step.replaces rr actor a) = complete_qc_passed_replacement-Follows rr actor a
Step-Follows (Step.ships_replacement user_id k a) = replacement_transaction-Follows user_id k a
Step-Follows (Step.elsewhere a b same) = Follows-SameLog a a b (same-Follows a) same

pub Steps-Follows : {a b : Books} → Steps a b → Follows a b
Steps-Follows (Steps.none_yet a) = same-Follows a
Steps-Follows {a} {b} (Steps.then {b = m} steps step) =
    Follows-trans a m b (Steps-Follows steps) (Step-Follows step)

-- Through any transactions of customers, sellers, the courier and the cron job, in any order and with
-- any answers of the gateway, the events of every return are a gapless path in the table of transitions
-- that starts with its request and ends in its status, where this holds before and no event is of an
-- unknown return.
pub Steps-IsTraced : {a b : Books} → Steps a b → IsTraced (log_of a) → IsTraced (log_of b)
Steps-IsTraced {a} {b} steps t = Changes-IsTraced a.shop.order_items (Steps-Follows steps).changes t

-- Through any transactions, of requests that race for the same items too, the quantities of all returns of
-- an item that are neither rejected nor failed their inspection add up to at most what was bought, and
-- the returns have different identifiers, where both hold before.
pub Steps-IsBounded :
    {a b : Books}
    → Steps a b
    → IsBounded a.shop.order_items a.returns
    → IsBounded b.shop.order_items b.returns
Steps-IsBounded {a} {b} steps c =
    let f = Steps-Follows steps in
    subst (λ bought. IsBounded bought b.returns) (sym f.items)
      (Changes-IsBounded a.shop.order_items f.changes c)
