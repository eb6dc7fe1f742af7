-- ===== src/Cart/Warnings.antt =====
-- When the advisory validation has nothing to say.
use e_commerce_backend.Common.{◌≤◌, ◌<◌, ◌≡◌, false}
use e_commerce_backend.Cart.{HydratedItem}

-- A line that can be bought as it stands.
pub record IsPurchasable (i : HydratedItem) : Type 0 where
  pub here : i.is_gone ≡ false
  pub stocked : 0 < i.available_quantity
  pub enough : i.quantity ≤ i.available_quantity
  pub same_price : i.price_changed ≡ false
