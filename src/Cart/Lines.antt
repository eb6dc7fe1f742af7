-- ===== src/Cart/Lines.antt =====
-- The lines of a cart: at most one for a variant, each with 1 to 99 units.
use e_commerce_backend.Common.{
  ℕ, ◌+◌, ◌≤◌, ◌<◌, ◌≡◌, refl, ◌∙◌, min, false, none, some, List, [], ◌∷◌, ◌++◌, All, All-append,
  ◌==◌, arith, if◌then◌else◌, Bool-cases, Option-cases, inl, inr,
}
use e_commerce_backend.Cart.{CartItem, find_item, set_item, add_item_to_cart}

-- The units of a variant in a cart.
abbrev pub units : ℕ → List CartItem → ℕ
units variant items = elim (find_item variant items) [ none ↦ 0 | some i ↦ i.quantity ]

abbrev pub IsLine : CartItem → Type 0
IsLine i = (0 < i.quantity) × (i.quantity ≤ 99)

abbrev pub IsKeyed : List CartItem → Type 0
IsKeyed [] = Unit
IsKeyed (i ∷ is) = (find_item i.variant_id is ≡ none) × IsKeyed is

pub record IsValidCart (items : List CartItem) : Type 0 where
  pub lines : All IsLine items
  pub keyed : IsKeyed items

pub units-set_item :
    (v q w : ℕ) (items : List CartItem)
    → units w (set_item v q items)
      ≡ (if w == v then elim (find_item v items) [ none ↦ 0 | some i ↦ q ] else units w items)
unfolding set_item
units-set_item v q w [] = ground arith
units-set_item v q w (i ∷ is) = ground (arith, units-set_item v q w is)

pub find_item-append :
    (w : ℕ) (items : List CartItem) (i : CartItem)
    → find_item w (items ++ (i ∷ [])) ≡ elim (find_item w items) [
      | none ↦ if i.variant_id == w then some i else none
      | some x ↦ some x
    ]
find_item-append w [] i = refl
find_item-append w (x ∷ xs) i = ground (arith, find_item-append w xs i)

set_item-IsLine :
    (v q : ℕ) (items : List CartItem)
    → 0 < q
    → q ≤ 99
    → All IsLine items
    → All IsLine (set_item v q items)
unfolding set_item
set_item-IsLine v q [] a b h = tt
set_item-IsLine v q (i ∷ is) a b (l, h) = elim (Bool-cases (i.variant_id == v)) [
  | inl e ↦ rw e ((a, b), set_item-IsLine v q is a b h)
  | inr e ↦ rw e (l, set_item-IsLine v q is a b h)
]

find_item-set_item :
    (v q w : ℕ) (items : List CartItem)
    → find_item w items ≡ none
    → find_item w (set_item v q items) ≡ none
unfolding set_item
find_item-set_item v q w [] h = refl
find_item-set_item v q w (i ∷ is) h = ground (arith, find_item-set_item v q w is)

set_item-IsKeyed : (v q : ℕ) (items : List CartItem) → IsKeyed items → IsKeyed (set_item v q items)
unfolding set_item
set_item-IsKeyed v q [] h = tt
set_item-IsKeyed v q (i ∷ is) (a, h) = elim (Bool-cases (i.variant_id == v)) [
  | inl e ↦ rw e (find_item-set_item v q i.variant_id is a, set_item-IsKeyed v q is h)
  | inr e ↦ rw e (find_item-set_item v q i.variant_id is a, set_item-IsKeyed v q is h)
]

pub set_item-IsValidCart :
    (v q : ℕ) (items : List CartItem)
    → 0 < q
    → q ≤ 99
    → IsValidCart items
    → IsValidCart (set_item v q items)
set_item-IsValidCart v q items a b h = record {
  lines = set_item-IsLine v q items a b h.lines;
  keyed = set_item-IsKeyed v q items h.keyed;
}

IsKeyed-append :
    (items : List CartItem) (i : CartItem)
    → find_item i.variant_id items ≡ none
    → IsKeyed items
    → IsKeyed (items ++ (i ∷ []))
IsKeyed-append [] i h k = (refl, tt)
IsKeyed-append (x ∷ xs) i h (a, k) =
    (ground (arith, find_item-append x.variant_id xs i), IsKeyed-append xs i (ground arith) k)

pub append-IsValidCart :
    (items : List CartItem) (i : CartItem)
    → find_item i.variant_id items ≡ none
    → IsLine i
    → IsValidCart items
    → IsValidCart (items ++ (i ∷ []))
append-IsValidCart items i h l v = record {
  lines = All-append IsLine items (i ∷ []) v.lines (l, tt);
  keyed = IsKeyed-append items i h v.keyed;
}

pub add_item_to_cart-IsValidCart :
    (v p price q : ℕ) (items : List CartItem)
    → 0 < q
    → IsValidCart items
    → IsValidCart (add_item_to_cart v p price q items)
unfolding add_item_to_cart
add_item_to_cart-IsValidCart v p price q items some_units h =
    elim (Option-cases (find_item v items)) [
      | inl new ↦
          rw (new, add_item_to_cart) (append-IsValidCart items _ new (ground arith, ground arith) h)
      | inr (x, found) ↦
          rw (found, add_item_to_cart)
            (set_item-IsValidCart v _ items (ground arith) (ground arith) h)
    ]

pub units-append :
    (w : ℕ) (items : List CartItem) (i : CartItem)
    → find_item i.variant_id items ≡ none
    → units w (items ++ (i ∷ [])) ≡ (if w == i.variant_id then i.quantity else units w items)
units-append w [] i h = ground arith
units-append w (x ∷ xs) i h = ground (arith, units-append w xs i)

-- Adding to a cart adds the units to the variant's line, up to 99, and changes no other line.
pub units-add_item_to_cart :
    (v p price q w : ℕ) (items : List CartItem)
    → units w (add_item_to_cart v p price q items)
      ≡ (if w == v then min 99 (units v items + q) else units w items)
unfolding add_item_to_cart
units-add_item_to_cart v p price q w items = elim (Option-cases (find_item v items)) [
  | inl new ↦ rw (new, add_item_to_cart) (units-append w items _ new ∙ ground (arith, new))
  | inr (x, found) ↦
      rw (found, add_item_to_cart)
        (ground (arith, units-set_item v (min 99 (x.quantity + q)) w items))
]

pub find_item-set_other :
    (v q w : ℕ) (items : List CartItem)
    → w == v ≡ false
    → find_item w (set_item v q items) ≡ find_item w items
unfolding set_item
find_item-set_other v q w [] h = refl
find_item-set_other v q w (i ∷ is) h = ground (arith, find_item-set_other v q w is)

pub find_item-append_other :
    (w : ℕ) (items : List CartItem) (i : CartItem)
    → w == i.variant_id ≡ false
    → find_item w (items ++ (i ∷ [])) ≡ find_item w items
find_item-append_other w [] i h = ground arith
find_item-append_other w (x ∷ xs) i h = ground (arith, find_item-append_other w xs i)

pub units-bounded : (w : ℕ) (items : List CartItem) → All IsLine items → units w items ≤ 99
units-bounded w [] h = omega arith
units-bounded w (i ∷ is) ((a, b), h) = ground (arith, units-bounded w is h)
