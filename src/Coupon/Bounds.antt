-- ===== src/Coupon/Bounds.antt =====
-- A coupon never takes more than the goods cost, nor more than its cap.
use e_commerce_backend.Common.{
  ℕ, ◌*◌, ◌≤◌, ◌<◌, ◌≡◌, refl, arith, min, ltb, ◌&&◌, get_or, if◌then◌else◌,
}
use native.Mathlib.Nat.{mul-le-mul_left}
use e_commerce_backend.Common.Rounding.{round_half_up, round_half_up_near}
use e_commerce_backend.Coupon.{Coupon, DiscountType, is_percentage}
use e_commerce_backend.Coupon.WellFormed.{IsWellFormed}
use e_commerce_backend.Coupon.Discount.{discount_of}

round_below : (n m : ℕ) → n ≤ m * 10000 → round_half_up n 10000 ≤ m
round_below n m h =
    let (lo, hi) = round_half_up_near n 10000 (omega arith) in omega (arith, lo, hi, h)

-- The most that a coupon takes: a percentage with a cap stops there.
abbrev pub limit_of : Coupon → ℕ → ℕ
limit_of c subtotal =
    let cap = get_or c.maximum_discount_amount 0 in
    if is_percentage c.discount_type && ltb 0 cap then min cap subtotal else subtotal

percent-bounded :
    (subtotal value cap : ℕ)
    → value ≤ 10000
    → let x =
        round_half_up
          (if ltb 0 cap then min (subtotal * value) (cap * 10000) else subtotal * value)
          10000 in
      (x ≤ subtotal) × (0 < cap → x ≤ cap)
percent-bounded subtotal value cap h =
    let top = mul-le-mul_left subtotal h in
    (round_below _ subtotal (ground arith), λ p. round_below _ cap (ground arith))

-- A well-formed coupon takes at most the subtotal, and a percentage coupon with a cap at most the cap.
pub discount_of-bounded :
    (c : Coupon) (subtotal : ℕ) → IsWellFormed c → discount_of c subtotal ≤ limit_of c subtotal
unfolding discount_of
discount_of-bounded c subtotal w = go c.discount_type refl
  where
    go : (t : DiscountType) → c.discount_type ≡ t → discount_of c subtotal ≤ limit_of c subtotal
    go DiscountType.percentage q =
        let (a, b) =
          percent-bounded subtotal c.discount_value (get_or c.maximum_discount_amount 0)
            (w.percent (rw q)) in
        rw (q, discount_of) (ground (arith, a, b))
    go DiscountType.fixed_amount q = rw (q, discount_of) (omega arith)
