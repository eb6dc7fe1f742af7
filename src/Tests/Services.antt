-- ===== src/Tests/Services.antt =====
-- The theorems on coupons, carts, the outbox and retries, at concrete inputs.
use e_commerce_backend.Common.{
  ℕ, ◌≡◌, ◌≤◌, ◌<◌, refl, true, false, none, some, List, [], ◌∷◌, arith,
}
use e_commerce_backend.Common.Int.{pos, ◌+ℤ◌, ◌-ℤ◌}
use e_commerce_backend.Common.Rounding.{round_half_up}
use e_commerce_backend.Common.Text.{Text, trim}
use e_commerce_backend.Coupon.{
  Coupon, CreateCouponInput, UpdateCouponInput, DiscountType, find_code,
}
use e_commerce_backend.Coupon.WellFormed.{IsWellFormed}
use e_commerce_backend.Coupon.Bounds.{limit_of}
use e_commerce_backend.Coupon.Allocation.{sum_ℤ}
use e_commerce_backend.Coupon.Discount.{
  CartLine, subtotal_of, subtotal_incl_tax_of, discount_of, round_ℤ, add_subtotal, store_subtotals,
  allocate, line_discount, customer_sum, refusal, discounted, validate_and_compute,
}
use e_commerce_backend.Coupon.Eligibility.{IsEligible, validate_and_compute_sound}
use e_commerce_backend.Cart.{
  CartItem, Cart, customer, guest, HydratedItem, merge_guest_into_customer,
}
use e_commerce_backend.Cart.Login.{Merged, merge_guest_into_customer-Merged}

abbrev code : Text
code = 65 ∷ 66 ∷ []

-- ten percent, at most two rupees
abbrev ten_percent : Coupon
ten_percent = record {
  id = 1;
  store_id = none;
  code = code;
  discount_type = DiscountType.percentage;
  discount_value = 1000;
  minimum_purchase_amount = none;
  maximum_discount_amount = some 200;
  usage_limit = some 3;
  usage_limit_per_user = none;
  valid_from = 0;
  valid_until = 100;
  is_active = true;
  is_deleted = false;
}

abbrev well_formed : IsWellFormed ten_percent
well_formed = record { range = omega arith; percent = λ h. omega arith }

abbrev two_stores : List CartLine
two_stores =
    record { store_id = 5; line_total = 1000; tax_rate = some 1800 }
    ∷ record { store_id = 8; line_total = 2000; tax_rate = none }
    ∷ []

validate_and_compute_sound_example :
    (find_code code (ten_percent ∷ []) ≡ some ten_percent)
    × IsEligible ten_percent 4 two_stores [] 50
    × (0 < 200)
    × (200 ≤ limit_of ten_percent (subtotal_of two_stores))
    × (sum_ℤ ((5, pos 67) ∷ (8, pos 133) ∷ []) ≡ pos 200)
unfolding validate_and_compute refusal discounted discount_of store_subtotals add_subtotal allocate
    customer_sum line_discount round_ℤ round_half_up subtotal_incl_tax_of trim ◌-ℤ◌ ◌+ℤ◌
validate_and_compute_sound_example =
    validate_and_compute_sound (λ t. t) code 4 two_stores (ten_percent ∷ []) [] 50 refl well_formed

abbrev new_coupon : CreateCouponInput
new_coupon = record {
  store_id = none;
  code = 67 ∷ [];
  discount_type = DiscountType.fixed_amount;
  discount_value = 20000;
  minimum_purchase_amount = none;
  maximum_discount_amount = none;
  usage_limit = none;
  usage_limit_per_user = none;
  valid_from = 1;
  valid_until = 2;
  is_active = none;
}

abbrev fixed : Coupon
fixed = record ten_percent {
  id = 2;
  code = 67 ∷ [];
  discount_type = DiscountType.fixed_amount;
  discount_value = 20000;
  maximum_discount_amount = none;
  usage_limit = none;
  valid_from = 1;
  valid_until = 2;
}

abbrev full_discount : UpdateCouponInput
full_discount = record {
  id = 1;
  store_id = none;
  discount_type = none;
  discount_value = some 10000;
  minimum_purchase_amount = none;
  maximum_discount_amount = some none;
  usage_limit = none;
  usage_limit_per_user = none;
  valid_from = none;
  valid_until = none;
  is_active = none;
}

abbrev item : ℕ → ℕ → CartItem
item variant quantity = record {
  variant_id = variant;
  product_id = 1;
  quantity = quantity;
  unit_price_snapshot = 100;
}

abbrev two_carts : List Cart
two_carts =
    record { owner = customer 4; items = item 1 60 ∷ [] }
    ∷ record { owner = guest 9; items = item 1 50 ∷ item 2 3 ∷ [] }
    ∷ []

merge_guest_into_customer-Merged_example :
    Merged 4 9 two_carts (merge_guest_into_customer 4 (some 9) two_carts)
merge_guest_into_customer-Merged_example =
    merge_guest_into_customer-Merged 4 9 two_carts
      (record { lines = ((omega arith, omega arith), tt); keyed = (refl, tt) })
      (record {
        lines = ((omega arith, omega arith), ((omega arith, omega arith), tt));
        keyed = (refl, (refl, tt));
      })

abbrev scarce : HydratedItem
scarce = record {
  variant_id = 1;
  quantity = 3;
  available_quantity = 2;
  is_gone = false;
  price_changed = false;
  unit_price_snapshot = 100;
  unit_price_current = 100;
}
