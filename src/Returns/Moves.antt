-- ===== src/Returns/Moves.antt =====
-- The transactions of the service of returns that only move a return follow the abstract log.
use e_commerce_backend.Common.{
  ℕ, ◌≡◌, refl, sym, ap, ◌∙◌, subst, true, false, Option, some, List, ◌∷◌, inl, inr, Bool-cases,
  Option-cases,
}
use e_commerce_backend.Database.{OrderItem}
use e_commerce_backend.Finance.{
  Books, ReturnStatus, ReturnRequest, MailEvent, return_approved, return_received,
  replacement_shipped, find_return, set_return,
}
use e_commerce_backend.Returns.{◌=r◌, is_valid_return_transition}
use e_commerce_backend.Returns.Calls.{
  move, and_then, send_mail, same_columns, set_approver, approve_transaction, move_transaction,
  is_on_its_way, transition_to_received, replacement_transaction,
}
use e_commerce_backend.Returns.Ledger.{Log, KeepsReturn, Change, Changes, with_status, event_of}

abbrev pub log_of : Books → Log
log_of b = (b.returns, b.return_events)

-- The items of the orders stay, and the log changes by entries of the abstract log.
pub record Follows (a b : Books) : Type 0 where
  pub items : b.shop.order_items ≡ a.shop.order_items
  pub changes : Changes a.shop.order_items (log_of a) (log_of b)

-- Returns, events and items are the same.
pub record SameLog (a b : Books) : Type 0 where
  pub returns : b.returns ≡ a.returns
  pub events : b.return_events ≡ a.return_events
  pub items : b.shop.order_items ≡ a.shop.order_items

pub same-Follows : (a : Books) → Follows a a
same-Follows a = record { items = refl; changes = Changes.nothing (log_of a) }

pub Follows-SameLog : (a b c : Books) → Follows a b → SameLog b c → Follows a c
Follows-SameLog a b c f s = record {
  items = s.items ∙ f.items;
  changes =
      subst (λ (l : Log). Changes a.shop.order_items (log_of a) l)
        (ap (λ rs. (rs, b.return_events)) (sym s.returns)
          ∙ ap (λ es. (c.returns, es)) (sym s.events))
        f.changes;
}

Changes-append :
    (bought : List OrderItem) {l m n : Log}
    → Changes bought l m
    → Changes bought m n
    → Changes bought l n
Changes-append bought cs (Changes.nothing l) = cs
Changes-append bought cs (Changes.then ds d) = Changes.then (Changes-append bought cs ds) d

pub Follows-trans : (a b c : Books) → Follows a b → Follows b c → Follows a c
Follows-trans a b c f g = record {
  items = g.items ∙ f.items;
  changes =
      Changes-append a.shop.order_items f.changes
        (subst (λ bought. Changes bought (log_of b) (log_of c)) f.items g.changes);
}

pub =r-sound : (s t : ReturnStatus) → (s =r t) ≡ true → s ≡ t
=r-sound ReturnStatus.requested ReturnStatus.requested h = refl
=r-sound ReturnStatus.approved ReturnStatus.approved h = refl
=r-sound ReturnStatus.pickup_scheduled ReturnStatus.pickup_scheduled h = refl
=r-sound ReturnStatus.in_transit ReturnStatus.in_transit h = refl
=r-sound ReturnStatus.received ReturnStatus.received h = refl
=r-sound ReturnStatus.qc_passed ReturnStatus.qc_passed h = refl
=r-sound ReturnStatus.qc_failed ReturnStatus.qc_failed h = refl
=r-sound ReturnStatus.refunded ReturnStatus.refunded h = refl
=r-sound ReturnStatus.replacement_approved ReturnStatus.replacement_approved h = refl
=r-sound ReturnStatus.replacement_shipped ReturnStatus.replacement_shipped h = refl
=r-sound ReturnStatus.closed ReturnStatus.closed h = refl
=r-sound ReturnStatus.rejected ReturnStatus.rejected h = refl
=r-sound _ _ h = cc

pub same_columns-KeepsReturn : KeepsReturn same_columns
same_columns-KeepsReturn = record {
  id = λ r. refl;
  status = λ r. refl;
  of = λ r. refl;
  items = λ r. refl;
}

-- A transaction that flips one return, and whose rest leaves the log alone.
pub move-Follows :
    (k : ℕ) (from to : ReturnStatus) (actor : Option ℕ) (set : ReturnRequest → ReturnRequest)
    (rest : Books → Books) (b : Books)
    → KeepsReturn set
    → is_valid_return_transition from to ≡ true
    → (to =r ReturnStatus.closed) ≡ false
    → ((x : Books) → SameLog x (rest x))
    → Follows b (and_then b rest (move k from to actor set b))
unfolding move
move-Follows k from to actor set rest b keeps valid live quiet =
    elim (Option-cases (find_return k b.returns)) [
      | inl gone ↦ rw (gone, move) (same-Follows b)
      | inr (r, found) ↦
          rw (found, move)
            (elim (Bool-cases (r.status =r from)) [
              | inr other ↦ rw other (same-Follows b)
              | inl here ↦
                  let status : r.status ≡ from = =r-sound r.status from here in
                  let after : Books = record b {
                    returns = set_return k (with_status to set) b.returns;
                    return_events = event_of k (some from) to actor ∷ b.return_events;
                  } in
                  let moved : Change b.shop.order_items (log_of b) (log_of after) =
                    subst
                      (λ s. Change b.shop.order_items (log_of b) (
                        set_return k (with_status to set) b.returns,
                        event_of k (some s) to actor ∷ b.return_events,
                      ))
                      status
                      (Change.moves k to set actor r b.returns b.return_events keeps found
                        (subst (λ s. is_valid_return_transition s to ≡ true) (sym status) valid)
                        live) in
                  let follows : Follows b after = record {
                    items = refl;
                    changes = Changes.then (Changes.nothing (log_of b)) moved;
                  } in
                  rw here (Follows-SameLog b after (rest after) follows (quiet after))
            ])
    ]

pub mail-SameLog : (m : MailEvent) (x : Books) → SameLog x (send_mail m x)
mail-SameLog m x = record { returns = refl; events = refl; items = refl }

pub nothing-SameLog : (x : Books) → SameLog x x
nothing-SameLog x = record { returns = refl; events = refl; items = refl }

pub move_transaction-Follows :
    (k : ℕ) (from to : ReturnStatus) (actor : Option ℕ) (b : Books)
    → is_valid_return_transition from to ≡ true
    → (to =r ReturnStatus.closed) ≡ false
    → Follows b (move_transaction k from to actor b)
unfolding move_transaction
move_transaction-Follows k from to actor b valid live =
    move-Follows k from to actor same_columns _ b same_columns-KeepsReturn valid live
      nothing-SameLog

pub approve_transaction-Follows :
    (user_id k : ℕ) (b : Books) → Follows b (approve_transaction user_id k b)
unfolding approve_transaction is_valid_return_transition
approve_transaction-Follows user_id k b =
    move-Follows k ReturnStatus.requested ReturnStatus.approved (some user_id)
      (set_approver user_id) _ b
      (record { id = λ r. refl; status = λ r. refl; of = λ r. refl; items = λ r. refl }) refl refl
      (mail-SameLog (return_approved k))

pub replacement_transaction-Follows :
    (user_id k : ℕ) (b : Books) → Follows b (replacement_transaction user_id k b)
unfolding replacement_transaction is_valid_return_transition
replacement_transaction-Follows user_id k b =
    move-Follows k ReturnStatus.replacement_approved ReturnStatus.replacement_shipped (some user_id)
      same_columns _ b same_columns-KeepsReturn refl refl (mail-SameLog (replacement_shipped k))

is_on_its_way-valid :
    (s : ReturnStatus)
    → is_on_its_way s ≡ true
    → is_valid_return_transition s ReturnStatus.received ≡ true
unfolding is_valid_return_transition
is_on_its_way-valid ReturnStatus.pickup_scheduled h = refl
is_on_its_way-valid ReturnStatus.in_transit h = refl
is_on_its_way-valid _ h = cc

pub transition_to_received-Follows :
    (k : ℕ) (actor : Option ℕ) (b : Books) → Follows b (transition_to_received k actor b)
unfolding transition_to_received
transition_to_received-Follows k actor b = elim (Option-cases (find_return k b.returns)) [
  | inl gone ↦ rw (gone, transition_to_received) (same-Follows b)
  | inr (r, found) ↦
      rw (found, transition_to_received)
        (elim (Bool-cases (is_on_its_way r.status)) [
          | inr other ↦ rw other (same-Follows b)
          | inl coming ↦ rw coming (
              move-Follows k r.status ReturnStatus.received actor same_columns _ b
                same_columns-KeepsReturn (is_on_its_way-valid r.status coming) refl
                (mail-SameLog (return_received k)))
        ])
]
