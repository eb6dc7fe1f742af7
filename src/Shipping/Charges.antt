-- ===== src/Shipping/Charges.antt =====
-- What a shipping charge depends on.
use e_commerce_backend.Common.{
  ℕ, ◌+◌, ◌*◌, ◌≤◌, ◌<◌, inl, inr, List, ◌∷◌, arith, get_or, Bool-cases,
}
use native.Mathlib.Nat.{mul-le-mul_left}
use e_commerce_backend.Common.Rounding.{round_half_up, ceil_div}
use e_commerce_backend.Shipping.{
  ShippingConfig, ShippingRateItem, total_weight, is_free, compute_seller_shipping,
}

rounded_mono : (n m : ℕ) → n ≤ m → round_half_up n 10000 ≤ round_half_up m 10000
unfolding round_half_up
rounded_mono n m h = omega (arith, h)

billable_mono : (n m : ℕ) → n ≤ m → ceil_div n 10 ≤ ceil_div m 10
unfolding ceil_div
billable_mono n m h = omega (arith, h)

billable_near : (n : ℕ) → (n ≤ 10 * ceil_div n 10) × (10 * ceil_div n 10 < n + 10)
unfolding ceil_div
billable_near n = (omega arith, omega arith)

-- One more item at the same subtotal never lowers the charge, and the billable weight is the weight
-- rounded up to ten grams.
pub compute_seller_shipping-grows :
    (it : ShippingRateItem) (items : List ShippingRateItem) (subtotal : ℕ) (config : ShippingConfig)
    → let before = compute_seller_shipping items subtotal config in
      let after = compute_seller_shipping (it ∷ items) subtotal config in
      (before.shipping_charge ≤ after.shipping_charge)
      × (total_weight items ≤ 10 * before.billable_weight)
      × (10 * before.billable_weight < total_weight items + 10)
unfolding compute_seller_shipping
compute_seller_shipping-grows it items subtotal config =
    let (lo, hi) = billable_near (total_weight items) in
    let heavier = billable_mono (total_weight items) (total_weight (it ∷ items)) (omega arith) in
    let dearer = rounded_mono _ _ (mul-le-mul_left (get_or config.per_kg_rate 0) heavier) in
    elim (Bool-cases (is_free config.free_above subtotal)) [
      | inl e ↦ rw e (omega arith, lo, hi)
      | inr e ↦ rw e (omega (arith, dearer), lo, hi)
    ]
