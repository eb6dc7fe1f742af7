-- ===== src/Refund/Restock.antt =====
-- The restock of a refund (`restock` in src/modules/ecommerce/payment/refund.service.ts).
pub mod Caps
use e_commerce_backend.Common.{
  ℕ, ◌+◌, ◌-◌, min, Bool, true, false, not, ◌&&◌, ◌||◌, Option, none, some, List, [], ◌∷◌, ◌==◌,
  ltb, leb, any_of, find, select, get_or, if◌then◌else◌, Result, ok, ◌>>=◌, map,
}
use e_commerce_backend.Common.Int.{pos, abs, ◌+ℤ◌, ◌-ℤ◌}
use e_commerce_backend.Order.Status.{OrderStatus, ◌=s◌}
use e_commerce_backend.Stock.{Stock, release}
use e_commerce_backend.Database.{
  Database, SellerOrder, OrderItem, Movement, MovementType, ReferenceType, change_stock,
  add_movement,
}
use e_commerce_backend.Order.Movements.{slice_movements, sort_by_inventory}
use e_commerce_backend.Finance.{ReturnRequest, ReturnItem}

abbrev pub is_refund_of : ℕ → Movement → Bool
is_refund_of refund_id m = elim m.reference_type [
  | some ReferenceType.order_refund ↦ elim m.reference_id [ none ↦ false | some k ↦ k == refund_id ]
  | _ ↦ false
]

abbrev pub is_shipment_of : ℕ → Movement → Bool
is_shipment_of so m = elim m.reference_type [
  | some ReferenceType.order_ship ↦ elim m.reference_id [ none ↦ false | some k ↦ k == so ]
  | _ ↦ false
]

-- `caps`: the units that came back of every variant, a map in the order of insertion
abbrev pub Caps : Type 0
Caps = List (ℕ × ℕ)

abbrev pub cap_at : ℕ → Caps → ℕ
cap_at v [] = 0
cap_at v ((w, n) ∷ rest) = if w == v then n else cap_at v rest

abbrev pub set_cap : ℕ → ℕ → Caps → Caps
set_cap v n [] = (v, n) ∷ []
set_cap v n ((w, m) ∷ rest) = if w == v then (w, n) ∷ rest else (w, m) ∷ set_cap v n rest

abbrev pub find_order_item : ℕ → List OrderItem → Option OrderItem
find_order_item k = find (λ (i : OrderItem). i.id == k)

unfoldable pub caps_of : List ReturnItem → List OrderItem → Caps → Caps
caps_of [] items caps = caps
caps_of (i ∷ is) items caps = elim (find_order_item i.order_item_id items) [
  | none ↦ caps_of is items caps
  | some oi ↦ caps_of is items (set_cap oi.variant_id (cap_at oi.variant_id caps + i.quantity) caps)
]

abbrev pub return_of : ℕ → List ReturnRequest → Option ReturnRequest
return_of refund_id =
    find (λ (r : ReturnRequest). elim r.refund_id [ none ↦ false | some k ↦ k == refund_id ])

abbrev pub caps_for : ℕ → List ReturnRequest → List OrderItem → Option Caps
caps_for refund_id returns items = elim (return_of refund_id returns) [
  | none ↦ none
  | some ret ↦ some (caps_of ret.items items [])
]

-- Shipped units come back on hand; units that are still reserved are released.
unfoldable pub restore : Bool → ℕ → Stock → Result Stock
restore true qty s = ok (record s { available = s.available + qty; on_hand = s.on_hand +ℤ pos qty })
restore false qty s = release qty s

-- The units that a round restores, and the caps after it. Nothing for a variant that did not come back.
unfoldable pub allowance : Option Caps → Movement → ℕ × Option Caps
allowance none m = (abs m.quantity_change, none)
allowance (some caps) m =
    let left = cap_at m.variant_id caps in
    let units = min (abs m.quantity_change) left in
    (units, some (if leb left 0 then caps else set_cap m.variant_id (left - units) caps))

abbrev pub is_skipped : Option Caps → Movement → Bool
is_skipped none m = false
is_skipped (some caps) m = leb (cap_at m.variant_id caps) 0

abbrev pub restock_movement : Option ℕ → ℕ → ℕ → Movement → ℕ → Movement
restock_movement actor refund_id units m available = record {
  inventory_id = m.inventory_id;
  variant_id = m.variant_id;
  warehouse_id = m.warehouse_id;
  movement_type = MovementType.return;
  quantity_change = pos units;
  quantity_before = pos available -ℤ pos units;
  quantity_after = pos available;
  reference_type = some ReferenceType.order_refund;
  reference_id = some refund_id;
  created_by_id = actor;
}

unfoldable pub restock_row : Option ℕ → ℕ → Bool → ℕ → Movement → Database → Result Database
restock_row actor refund_id shipped units m db =
    change_stock m.inventory_id (restore shipped units) db >>= λ p.
    ok (add_movement (restock_movement actor refund_id units m p.0.available) p.1)

-- The loop over the movements of one sub-order.
unfoldable pub restock_all :
    Option ℕ → ℕ → Bool → Option Caps → List Movement → Database → Result (Option Caps × Database)
unfolding restock_row
restock_all actor refund_id shipped caps [] db = ok (caps, db)
restock_all actor refund_id shipped caps (m ∷ ms) db =
    let (units, caps') = allowance caps m in
    let skip = restock_all actor refund_id shipped caps ms db in
    let go = restock_row actor refund_id shipped units m db >>= λ db'.
    restock_all actor refund_id shipped caps' ms db' in
    if is_skipped caps m then skip else go

-- `so.shippedAt != null || DELIVERED || …`
abbrev pub has_left : SellerOrder → Database → Bool
has_left so db =
    (elim so.shipped_at [ none ↦ false | some t ↦ true ])
    || so.status =s OrderStatus.delivered
    || any_of (is_shipment_of so.id) db.movements

abbrev pub variants_of : SellerOrder → Database → List ℕ
variants_of so db =
    map (λ (i : OrderItem). i.variant_id)
      (select (λ (i : OrderItem). i.seller_order_id == so.id) db.order_items)

unfoldable pub restock_slices :
    Option ℕ → ℕ → ℕ → Option Caps → List SellerOrder → Database → Result Database
unfolding restock_all
restock_slices actor refund_id order_id caps [] db = ok db
restock_slices actor refund_id order_id caps (so ∷ sos) db =
    restock_all actor refund_id (has_left so db) caps
      (sort_by_inventory (slice_movements order_id (variants_of so db) so.store_id db)) db
    >>= λ p. restock_slices actor refund_id order_id p.0 sos p.1

-- `restock`
unfoldable pub restock :
    Option ℕ → ℕ → ℕ → List SellerOrder → List ReturnRequest → Database → Result Database
unfolding restock_slices
restock actor refund_id order_id scoped returns db =
    if any_of (is_refund_of refund_id) db.movements
    then ok db
    else restock_slices actor refund_id order_id (caps_for refund_id returns db.order_items) scoped
        db
