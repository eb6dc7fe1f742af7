-- ===== src/Cart.antt =====
-- Customer and guest carts (src/modules/ecommerce/cart/cart.service.ts): the changes of a cart, the merge
-- of a guest's cart at login, and the advisory validation. A quantity is a natural number, as the inputs
-- require. The hydration of a cart for display is left out, but for what the validation reads of it.
pub mod Lines
pub mod Merge
pub mod Login
pub mod Warnings
use e_commerce_backend.Common.{
  ℕ, ◌+◌, min, Bool, true, false, not, Option, none, some, List, [], ◌∷◌, ◌++◌, ◌==◌, ◌&&◌, ◌||◌,
  ltb, leb, find, get_or, if◌then◌else◌, Exception, bad_request, not_found, Result, ok, err, ◌>>=◌,
  ◌>>◌, throw_if, or_throw,
}

-- A `CartItem`; a cart has at most one for a variant.
pub record CartItem : Type 0 where
  pub variant_id : ℕ
  pub product_id : ℕ
  pub quantity : ℕ
  pub unit_price_snapshot : ℕ

-- Whose cart: of a customer, or of the bearer of a session token.
pub data Owner : Type 0 where
  customer : ℕ → Owner
  guest : ℕ → Owner

pub record Cart : Type 0 where
  pub owner : Owner
  pub items : List CartItem

-- What the catalogue says of a variant and its product.
pub record CatalogVariant : Type 0 where
  pub id : ℕ
  pub product_id : ℕ
  pub price : ℕ
  pub is_deleted : Bool
  pub product_is_active : Bool
  pub product_is_deleted : Bool

abbrev pub max_line_qty : ℕ
max_line_qty = 99

-- `loadPurchaseableVariant`
unfoldable pub load_purchaseable_variant : ℕ → List CatalogVariant → Result CatalogVariant
load_purchaseable_variant variant catalog = do
  v ← or_throw (find (λ v. v.id == variant) catalog) not_found
  throw_if v.is_deleted not_found
  throw_if (v.product_is_deleted || not v.product_is_active) bad_request
  ok v

-- `findUnique({ where: { cartId_variantId } })`
abbrev pub find_item : ℕ → List CartItem → Option CartItem
find_item variant = find (λ i. i.variant_id == variant)

unfoldable pub set_item : ℕ → ℕ → List CartItem → List CartItem
set_item variant quantity [] = []
set_item variant quantity (i ∷ is) =
    (if i.variant_id == variant then record i { quantity = quantity } else i)
    ∷ set_item variant quantity is

-- `removeItem`, and the `delete` of `setItemQty`
unfoldable pub remove_item : ℕ → List CartItem → List CartItem
remove_item variant [] = []
remove_item variant (i ∷ is) =
    let rest = remove_item variant is in if i.variant_id == variant then rest else i ∷ rest

-- `addItemToCart`
unfoldable pub add_item_to_cart : ℕ → ℕ → ℕ → ℕ → List CartItem → List CartItem
unfolding set_item
add_item_to_cart variant product price quantity items = elim (find_item variant items) [
  | some existing ↦ set_item variant (min max_line_qty (existing.quantity + quantity)) items
  | none ↦
      items
      ++ (record {
        variant_id = variant;
        product_id = product;
        quantity = min max_line_qty quantity;
        unit_price_snapshot = price;
      }
          ∷ [])
]

-- `setItemQty`
unfoldable pub set_item_qty : ℕ → ℕ → List CartItem → List CartItem
unfolding set_item remove_item
set_item_qty variant quantity items = elim (find_item variant items) [
  | none ↦ items
  | some existing ↦
      if quantity == 0
      then remove_item variant items
      else set_item variant (min max_line_qty quantity) items
]

abbrev pub same_owner : Owner → Owner → Bool
same_owner (customer a) (customer b) = a == b
same_owner (guest a) (guest b) = a == b
same_owner _ _ = false

abbrev pub find_cart : Owner → List Cart → Option Cart
find_cart owner = find (λ c. same_owner c.owner owner)

-- `getOrCreateCart`, then a change of the cart's items
unfoldable pub in_cart : Owner → (List CartItem → List CartItem) → List Cart → List Cart
in_cart owner f [] = record { owner = owner; items = f [] } ∷ []
in_cart owner f (c ∷ cs) =
    let rest = in_cart owner f cs in
    if same_owner c.owner owner then record c { items = f c.items } ∷ cs else c ∷ rest

-- `add` and `addGuest`; the quantity is 1 when it is not given
unfoldable pub add : Owner → ℕ → Option ℕ → List CatalogVariant → List Cart → Result (List Cart)
unfolding load_purchaseable_variant in_cart add_item_to_cart
add owner variant quantity catalog carts = do
  v ← load_purchaseable_variant variant catalog
  ok (in_cart owner (add_item_to_cart v.id v.product_id v.price (get_or quantity 1)) carts)

-- `updateQty` and `updateQtyGuest`. A missing cart is created on the way to the reply.
unfoldable pub update_qty : Owner → ℕ → ℕ → List Cart → List Cart
unfolding in_cart set_item_qty
update_qty owner variant quantity = in_cart owner (set_item_qty variant quantity)

-- `remove` and `removeGuest`
unfoldable pub remove : Owner → ℕ → List Cart → List Cart
unfolding in_cart remove_item
remove owner variant = in_cart owner (remove_item variant)

-- `clear`
unfoldable pub clear : Owner → List Cart → List Cart
unfolding in_cart
clear owner = in_cart owner (λ _. [])

unfoldable pub delete_cart : Owner → List Cart → List Cart
delete_cart owner [] = []
delete_cart owner (c ∷ cs) =
    let rest = delete_cart owner cs in if same_owner c.owner owner then rest else c ∷ rest

-- One guest line, against the customer's lines as they were read before the loop.
unfoldable pub merge_line : List CartItem → CartItem → List CartItem → List CartItem
unfolding set_item
merge_line existing gi items = elim (find_item gi.variant_id existing) [
  | some match ↦ set_item gi.variant_id (min max_line_qty (match.quantity + gi.quantity)) items
  | none ↦ items ++ (record gi { quantity = min max_line_qty gi.quantity } ∷ [])
]

unfoldable pub merge_lines : List CartItem → List CartItem → List CartItem → List CartItem
unfolding merge_line
merge_lines existing [] items = items
merge_lines existing (gi ∷ gis) items = merge_lines existing gis (merge_line existing gi items)

-- `mergeGuestIntoCustomer`, for a customer that was resolved
unfoldable pub merge_guest_into_customer : ℕ → Option ℕ → List Cart → List Cart
unfolding in_cart merge_lines delete_cart
merge_guest_into_customer customer_id none carts =
    in_cart (customer customer_id) (λ items. items) carts
merge_guest_into_customer customer_id (some token) carts = elim (find_cart (guest token) carts) [
  | none ↦ in_cart (customer customer_id) (λ items. items) carts
  | some g ↦
      delete_cart (guest token)
        (in_cart (customer customer_id) (λ items. merge_lines items g.items items) carts)
]

-- A cart line as the validation sees it.
pub record HydratedItem : Type 0 where
  pub variant_id : ℕ
  pub quantity : ℕ
  pub available_quantity : ℕ
  pub is_gone : Bool
  pub price_changed : Bool
  pub unit_price_snapshot : ℕ
  pub unit_price_current : ℕ

pub data CartWarning : Type 0 where
  unavailable : ℕ → CartWarning
  out_of_stock : ℕ → CartWarning
  reduced_quantity : (variant available : ℕ) → CartWarning
  price_changed : (variant old_price new_price : ℕ) → CartWarning

abbrev pub stock_warnings : HydratedItem → List CartWarning
stock_warnings i =
    if leb i.available_quantity 0
    then out_of_stock i.variant_id ∷ []
    else if ltb i.available_quantity i.quantity
    then reduced_quantity i.variant_id i.available_quantity ∷ []
    else []

abbrev pub price_warnings : HydratedItem → List CartWarning
price_warnings i =
    if i.price_changed
    then CartWarning.price_changed i.variant_id i.unit_price_snapshot i.unit_price_current ∷ []
    else []

-- One round of `buildValidation`.
unfoldable pub item_warnings : HydratedItem → List CartWarning
item_warnings i =
    if i.is_gone then unavailable i.variant_id ∷ [] else stock_warnings i ++ price_warnings i

-- `buildValidation`: the warnings, and whether there is none
unfoldable pub build_validation : List HydratedItem → List CartWarning
unfolding item_warnings
build_validation [] = []
build_validation (i ∷ is) = item_warnings i ++ build_validation is
