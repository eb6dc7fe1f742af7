-- ===== src/Refund/Scope.antt =====
-- What the calls on refunds leave alone: the trail of the returns and the items of the orders.
use e_commerce_backend.Common.{
  ℕ, ◌≡◌, refl, sym, ap, ◌∙◌, subst, Bool, Option, List, [], ◌∷◌, any_of, map, inl, inr, ok,
  Bool-cases, Option-cases, >>=-eq-ok, or_throw->>=-eq-ok, ok-injective, plain_error,
}
use e_commerce_backend.Order.Status.{◌=s◌, compute_parent_status}
use e_commerce_backend.Database.{Database, Order, SellerOrder, Movement, change_stock, find_order}
use e_commerce_backend.Order.Movements.{slice_movements, sort_by_inventory}
use e_commerce_backend.Order.Movements.Conservation.{change_stock-eq}
use e_commerce_backend.Finance.{
  Books, Payment, Refund, ReturnRequest, find_payment, find_refund, update_refund, is_processed,
  live_sub_orders,
}
use e_commerce_backend.Refund.Restock.{
  Caps, restore, allowance, is_skipped, restock_row, restock_all, restock_slices, restock, has_left,
  variants_of, caps_for, is_refund_of,
}
use e_commerce_backend.Refund.Execution.{
  GatewayReply, settle_result, check_approve, execute, record_answer, is_taken, log_call,
  set_gateway, start_processing, approve_refund,
}
use e_commerce_backend.Refund.Settlement.{
  settle_slice, settle_slices, settle_parent, settle_orders, finalize_transaction, finalize_refund,
  becomes_refunded, is_slice_full, is_fully_refunded, scoped_orders, set_processed,
}
use e_commerce_backend.Refund.Refinement.{Result-cases}
use e_commerce_backend.Refund.Approval.{payment_cases}

-- The returns, their events, the clawbacks and the items of the orders stay.
pub record Leaves (a b : Books) : Type 0 where
  pub returns : b.returns ≡ a.returns
  pub events : b.return_events ≡ a.return_events
  pub clawbacks : b.clawbacks ≡ a.clawbacks
  pub items : b.shop.order_items ≡ a.shop.order_items

pub same-Leaves : (a : Books) → Leaves a a
same-Leaves a = record { returns = refl; events = refl; clawbacks = refl; items = refl }

restock_row-items :
    (actor : Option ℕ) (k : ℕ) (shipped : Bool) (units : ℕ) (m : Movement) (db : Database)
    {after : Database}
    → restock_row actor k shipped units m db ≡ ok after
    → after.order_items ≡ db.order_items
unfolding restock_row
restock_row-items actor k shipped units m db e =
    let ((s, mid), c, q) = >>=-eq-ok (change_stock m.inventory_id (restore shipped units) db) _ e in
    ap (λ (x : Database). x.order_items) (sym (ok-injective q))
    ∙ ap (λ (x : Database). x.order_items) (change_stock-eq m.inventory_id _ db c).1

restock_all-items :
    (actor : Option ℕ) (k : ℕ) (shipped : Bool) (caps : Option Caps) (ms : List Movement)
    (db : Database) {q : Option Caps} {after : Database}
    → restock_all actor k shipped caps ms db ≡ ok (q, after)
    → after.order_items ≡ db.order_items
unfolding restock_all
restock_all-items actor k shipped caps [] db e =
    ap (λ (x : Option Caps × Database). x.1.order_items) (sym (ok-injective e))
restock_all-items actor k shipped caps (m ∷ ms) db e = elim (Bool-cases (is_skipped caps m)) [
  | inl skip ↦ restock_all-items actor k shipped caps ms db (rw skip at e)
  | inr go ↦
      let (mid, a, b) =
        >>=-eq-ok (restock_row actor k shipped (allowance caps m).0 m db) _ (rw go at e) in
      restock_all-items actor k shipped (allowance caps m).1 ms mid b
      ∙ restock_row-items actor k shipped (allowance caps m).0 m db a
]

restock_slices-items :
    (actor : Option ℕ) (k order_id : ℕ) (caps : Option Caps) (sos : List SellerOrder)
    (db : Database) {after : Database}
    → restock_slices actor k order_id caps sos db ≡ ok after
    → after.order_items ≡ db.order_items
unfolding restock_slices
restock_slices-items actor k order_id caps [] db e =
    ap (λ (x : Database). x.order_items) (sym (ok-injective e))
restock_slices-items actor k order_id caps (so ∷ sos) db e =
    let ((q, mid), a, b) =
      >>=-eq-ok
        (restock_all actor k (has_left so db) caps
          (sort_by_inventory (slice_movements order_id (variants_of so db) so.store_id db)) db)
        _ e in
    restock_slices-items actor k order_id q sos mid b
    ∙ restock_all-items actor k (has_left so db) caps
        (sort_by_inventory (slice_movements order_id (variants_of so db) so.store_id db)) db a

restock-items :
    (actor : Option ℕ) (k order_id : ℕ) (sos : List SellerOrder) (returns : List ReturnRequest)
    (db : Database) {after : Database}
    → restock actor k order_id sos returns db ≡ ok after
    → after.order_items ≡ db.order_items
unfolding restock
restock-items actor k order_id sos returns db e =
    elim (Bool-cases (any_of (is_refund_of k) db.movements)) [
      | inl done ↦ ap (λ (x : Database). x.order_items) (sym (ok-injective (rw done at e)))
      | inr first ↦
          restock_slices-items actor k order_id (caps_for k returns db.order_items) sos db
            (rw first at e)
    ]

settle_slice-items :
    (actor : Option ℕ) (full : Bool) (so : SellerOrder) (db : Database)
    → (settle_slice actor full so db).order_items ≡ db.order_items
unfolding settle_slice
settle_slice-items actor full so db = elim (Bool-cases (becomes_refunded full so)) [
  | inl moves ↦ rw moves refl
  | inr stays ↦ rw stays refl
]

settle_slices-items :
    (actor : Option ℕ) (whole : Bool) (refunds : List Refund) (sos : List SellerOrder)
    (db : Database)
    → (settle_slices actor whole refunds sos db).order_items ≡ db.order_items
unfolding settle_slices
settle_slices-items actor whole refunds [] db = refl
settle_slices-items actor whole refunds (so ∷ sos) db =
    settle_slices-items actor whole refunds sos
      (settle_slice actor (is_slice_full whole so refunds) so db)
    ∙ settle_slice-items actor (is_slice_full whole so refunds) so db

settle_parent-items :
    (actor : Option ℕ) (whole : Bool) (o : Order) (db : Database)
    → (settle_parent actor whole o db).order_items ≡ db.order_items
unfolding settle_parent
settle_parent-items actor whole o db =
    elim (Bool-cases (
      compute_parent_status (map (λ (s : SellerOrder). s.status) (live_sub_orders o.id db))
      =s o.status)) [ inl same ↦ rw same refl | inr moves ↦ rw moves refl ]

settle_orders-items :
    (r : Refund) (p : Payment) (o : Order) (refunds : List Refund) (b : Books) {after : Database}
    → settle_orders r p o refunds b ≡ ok after
    → after.order_items ≡ b.shop.order_items
unfolding settle_orders
settle_orders-items r p o refunds b e =
    let whole = is_fully_refunded p refunds in
    let sliced = settle_slices r.approved_by_id whole refunds (scoped_orders r b.shop) b.shop in
    let settled =
      settle_parent-items r.approved_by_id whole o sliced
      ∙ settle_slices-items r.approved_by_id whole refunds (scoped_orders r b.shop) b.shop in
    elim (Bool-cases r.restock) [
      | inl restocks ↦
          restock-items r.approved_by_id r.id o.id (scoped_orders r b.shop) b.returns
            (settle_parent r.approved_by_id whole o sliced) (rw restocks at e)
          ∙ settled
      | inr plain ↦
          ap (λ (x : Database). x.order_items) (sym (ok-injective (rw plain at e))) ∙ settled
    ]

finalize_transaction-Leaves :
    (r : Refund) (p : Payment) (o : Order) (b : Books) {after : Books}
    → finalize_transaction r p o b ≡ ok after
    → Leaves b after
unfolding finalize_transaction
finalize_transaction-Leaves r p o b {after} e =
    let (db, s, q) =
      >>=-eq-ok
        (settle_orders r p o (update_refund r.id set_processed b).refunds
          (update_refund r.id set_processed b))
        _ e in
    let items =
      settle_orders-items r p o (update_refund r.id set_processed b).refunds
        (update_refund r.id set_processed b) s in
    let same = sym (ok-injective q) in
    record {
      returns = ap (λ (x : Books). x.returns) same;
      events = ap (λ (x : Books). x.return_events) same;
      clawbacks = ap (λ (x : Books). x.clawbacks) same;
      items = ap (λ (x : Books). x.shop.order_items) same ∙ items;
    }

finalize_refund-Leaves :
    (k : ℕ) (b : Books) {after : Books} → finalize_refund k b ≡ ok after → Leaves b after
unfolding finalize_refund
finalize_refund-Leaves k b {after} e = elim (Option-cases (find_refund k b.refunds)) [
  | inl gone ↦ subst (Leaves b) (ok-injective (rw (gone, finalize_refund) at e)) (same-Leaves b)
  | inr (r, found) ↦
      let e1 = rw (found, finalize_refund) at e in
      elim (Bool-cases (is_processed r.status)) [
        | inl done ↦ subst (Leaves b) (ok-injective (rw done at e1)) (same-Leaves b)
        | inr due ↦
            let (p, paid_by, e2) =
              or_throw->>=-eq-ok (find_payment r.payment_id b.payments) plain_error _
                (rw due at e1) in
            let (o, f, e3) = or_throw->>=-eq-ok (find_order r.order_id b.shop) plain_error _ e2 in
            finalize_transaction-Leaves r p o b e3
      ]
]

settle_result-Leaves :
    (a b : Books) (k : ℕ) → Leaves a b → Leaves a (settle_result b (finalize_refund k b)).0
settle_result-Leaves a b k l = elim (Result-cases (finalize_refund k b)) [
  | inl (x, raised) ↦ rw raised l
  | inr (after, done) ↦
      let f = finalize_refund-Leaves k b done in
      rw done (record {
        returns = f.returns ∙ l.returns;
        events = f.events ∙ l.events;
        clawbacks = f.clawbacks ∙ l.clawbacks;
        items = f.items ∙ l.items;
      })
]

record_answer-Leaves :
    (a b : Books) (r : Refund) (gid : ℕ) (is_done : Bool)
    → Leaves a b
    → Leaves a (record_answer r gid is_done b).0
unfolding record_answer
record_answer-Leaves a b r gid is_done l =
    let called : Leaves a (log_call r b) = record {
      returns = l.returns;
      events = l.events;
      clawbacks = l.clawbacks;
      items = l.items;
    } in
    let stored : Leaves a (update_refund r.id (set_gateway gid) (log_call r b)) = record {
      returns = l.returns;
      events = l.events;
      clawbacks = l.clawbacks;
      items = l.items;
    } in
    elim (Bool-cases (is_taken gid r.id b.refunds)) [
      | inl t ↦ rw t called
      | inr t ↦ rw t (elim (Bool-cases is_done) [
        | inl d ↦ rw d (
            settle_result-Leaves a (update_refund r.id (set_gateway gid) (log_call r b)) r.id
              stored)
        | inr d ↦ rw d stored
      ])
    ]

execute-Leaves :
    (admin : ℕ) (reply : GatewayReply) (b : Books) (r : Refund)
    → Leaves b (execute admin reply r b).0
unfolding execute
execute-Leaves admin GatewayReply.unavailable b r = record {
  returns = refl;
  events = refl;
  clawbacks = refl;
  items = refl;
}
execute-Leaves admin GatewayReply.refuses b r = record {
  returns = refl;
  events = refl;
  clawbacks = refl;
  items = refl;
}
execute-Leaves admin (GatewayReply.answers gid is_done) b r =
    record_answer-Leaves b (start_processing admin r.id b) r gid is_done
      (record { returns = refl; events = refl; clawbacks = refl; items = refl })

pub approve_refund-Leaves :
    (admin : ℕ) (guarded : Bool) (reply : GatewayReply) (k : ℕ) (b : Books)
    → Leaves b (approve_refund admin guarded reply k b).0
unfolding approve_refund
approve_refund-Leaves admin guarded reply k b = elim (Option-cases (find_refund k b.refunds)) [
  | inl gone ↦ rw (gone, approve_refund) (same-Leaves b)
  | inr (r, found) ↦
      rw (found, approve_refund)
        (elim (Bool-cases (is_processed r.status)) [
          | inl done ↦ rw done (same-Leaves b)
          | inr due ↦ rw due (elim (payment_cases (check_approve guarded r b)) [
            | inl (e, refused) ↦ rw refused (same-Leaves b)
            | inr (p, passed) ↦ rw passed (execute-Leaves admin reply b r)
          ])
        ])
]
