-- ===== src/Cart/Login.antt =====
-- The merge at login, on the table of carts.
use e_commerce_backend.Common.{
  ℕ, ◌+◌, ◌≡◌, refl, sym, ap, ◌∙◌, subst, min, true, false, none, some, List, [], ◌∷◌, arith,
  Bool-cases, Option-cases, inl, inr,
}
use e_commerce_backend.Cart.{
  CartItem, Cart, Owner, customer, guest, same_owner, find_cart, in_cart, delete_cart, merge_lines,
  merge_guest_into_customer,
}
use e_commerce_backend.Cart.Lines.{units, units-bounded, IsValidCart}
use e_commerce_backend.Cart.Merge.{merge_lines-adds}

-- The lines of an owner's cart; an owner without a cart has none.
abbrev pub items_of : Owner → List Cart → List CartItem
items_of owner carts = elim (find_cart owner carts) [ none ↦ [] | some c ↦ c.items ]

same_owner_refl : (a : Owner) → same_owner a a ≡ true
same_owner_refl (customer a) = ground arith
same_owner_refl (guest a) = ground arith

same_owner-eq : (a b : Owner) → same_owner a b ≡ true → a ≡ b
same_owner-eq (customer a) (customer b) h = ap customer (ground arith)
same_owner-eq (guest a) (guest b) h = ap guest (ground arith)
same_owner-eq (customer a) (guest b) h = cc
same_owner-eq (guest a) (customer b) h = cc

pub items_of-in_cart :
    (owner : Owner) (f : List CartItem → List CartItem) (carts : List Cart)
    → items_of owner (in_cart owner f carts) ≡ f (items_of owner carts)
unfolding in_cart
items_of-in_cart owner f [] = ground (arith, same_owner_refl owner)
items_of-in_cart owner f (c ∷ cs) = elim (Bool-cases (same_owner c.owner owner)) [
  | inl e ↦ ground arith
  | inr e ↦ ground (arith, items_of-in_cart owner f cs)
]

pub items_of-in_cart_other :
    (other owner : Owner) (f : List CartItem → List CartItem) (carts : List Cart)
    → same_owner owner other ≡ false
    → items_of other (in_cart owner f carts) ≡ items_of other carts
unfolding in_cart
items_of-in_cart_other other owner f [] h = ground arith
items_of-in_cart_other other owner f (c ∷ cs) h = elim (Bool-cases (same_owner c.owner owner)) [
  | inl e ↦
      let apart : same_owner c.owner other ≡ false =
        ap (λ x. same_owner x other) (same_owner-eq c.owner owner e) ∙ h in
      ground arith
  | inr e ↦ ground (arith, items_of-in_cart_other other owner f cs h)
]

items_of-delete_cart :
    (owner : Owner) (carts : List Cart) → items_of owner (delete_cart owner carts) ≡ []
unfolding delete_cart
items_of-delete_cart owner [] = refl
items_of-delete_cart owner (c ∷ cs) = elim (Bool-cases (same_owner c.owner owner)) [
  | inl e ↦ ground (arith, items_of-delete_cart owner cs)
  | inr e ↦ ground (arith, items_of-delete_cart owner cs)
]

items_of-delete_cart_other :
    (other owner : Owner) (carts : List Cart)
    → same_owner owner other ≡ false
    → items_of other (delete_cart owner carts) ≡ items_of other carts
unfolding delete_cart
items_of-delete_cart_other other owner [] h = refl
items_of-delete_cart_other other owner (c ∷ cs) h = elim (Bool-cases (same_owner c.owner owner)) [
  | inl e ↦
      let apart : same_owner c.owner other ≡ false =
        ap (λ x. same_owner x other) (same_owner-eq c.owner owner e) ∙ h in
      ground (arith, items_of-delete_cart_other other owner cs h)
  | inr e ↦ ground (arith, items_of-delete_cart_other other owner cs h)
]

-- After a login with a guest token, the customer's cart is valid and holds of every variant the units
-- of both carts together, up to 99; the guest's cart is gone; every other cart is as it was.
pub record Merged (k token : ℕ) (before after : List Cart) : Type 0 where
  pub valid : IsValidCart (items_of (customer k) after)
  pub adds :
      (w : ℕ)
      → units w (items_of (customer k) after)
        ≡ min 99 (units w (items_of (customer k) before) + units w (items_of (guest token) before))
  pub gone : items_of (guest token) after ≡ []
  pub others :
      (o : Owner)
      → same_owner (customer k) o ≡ false
      → same_owner (guest token) o ≡ false
      → items_of o after ≡ items_of o before

-- The merge at login of a valid guest cart into a valid customer cart, for any token.
pub merge_guest_into_customer-Merged :
    (k token : ℕ) (carts : List Cart)
    → IsValidCart (items_of (customer k) carts)
    → IsValidCart (items_of (guest token) carts)
    → Merged k token carts (merge_guest_into_customer k (some token) carts)
unfolding merge_guest_into_customer
merge_guest_into_customer-Merged k token carts v g =
    elim (Option-cases (find_cart (guest token) carts)) [
      | inl missing ↦
          let empty : items_of (guest token) carts ≡ [] = rw (missing, items_of) in
          let mine = items_of-in_cart (customer k) (λ items. items) carts in
          rw (missing, merge_guest_into_customer)
            (record {
              valid = subst IsValidCart (sym mine) v;
              adds = λ w.
                  ap (units w) mine
                  ∙ sym (
                      ap (λ l. min 99 (units w (items_of (customer k) carts) + units w l)) empty
                      ∙ at_most w _ v);
              gone =
                  items_of-in_cart_other (guest token) (customer k) (λ items. items) carts refl
                  ∙ empty;
              others = λ o a b. items_of-in_cart_other o (customer k) (λ items. items) carts a;
            })
      | inr (c, found) ↦
          let theirs : items_of (guest token) carts ≡ c.items = rw (found, items_of) in
          let f : List CartItem → List CartItem = λ items. merge_lines items c.items items in
          let mid = in_cart (customer k) f carts in
          let mine : items_of (customer k) (delete_cart (guest token) mid)
              ≡ merge_lines _ c.items _ =
            items_of-delete_cart_other (customer k) (guest token) mid refl
            ∙ items_of-in_cart (customer k) f carts in
          let (valid, adds) =
            merge_lines-adds (items_of (customer k) carts) c.items (subst IsValidCart theirs g) v in
          rw (found, merge_guest_into_customer)
            (record {
              valid = subst IsValidCart (sym mine) valid;
              adds = λ w.
                  ap (units w) mine
                  ∙ adds w
                  ∙ ap (λ l. min 99 (units w (items_of (customer k) carts) + units w l))
                      (sym theirs);
              gone = items_of-delete_cart (guest token) mid;
              others = λ o a b.
                  items_of-delete_cart_other o (guest token) mid b
                  ∙ items_of-in_cart_other o (customer k) f carts a;
            })
    ]
  where
    at_most :
        (w : ℕ) (items : List CartItem)
        → IsValidCart items
        → min 99 (units w items + 0) ≡ units w items
    at_most w items h = omega (arith, units-bounded w items h.lines)
