-- ===== src/Coupon/Eligibility.antt =====
-- When a coupon is accepted, and what the customer is then offered.
use e_commerce_backend.Common.{
  ℕ, ◌≤◌, ◌<◌, ◌≡◌, refl, sym, ap, subst, Bool, true, false, none, some, List, [], ◌∷◌, leb, get_or,
  arith, length, if◌then◌else◌, Option-cases, inl, inr,
}
use e_commerce_backend.Common.Int.{pos}
use e_commerce_backend.Common.Text.{Text, trim, is_blank}
use e_commerce_backend.Coupon.{Coupon, find_code}
use e_commerce_backend.Coupon.WellFormed.{IsWellFormed}
use e_commerce_backend.Coupon.Discount.{
  CartLine, Redemption, Reason, Discounted, Validation, subtotal_of, discount_of, is_elsewhere,
  is_limited, times_used, times_used_by, refusal, discounted, validate_and_compute,
}
use e_commerce_backend.Coupon.Bounds.{limit_of, discount_of-bounded}
use e_commerce_backend.Coupon.Allocation.{sum_ℤ, shares-sum}

-- A coupon that may be used on this cart, by this customer, now.
pub record IsEligible (c : Coupon) (customer : ℕ) (lines : List CartLine)
    (redemptions : List Redemption) (now : ℕ) : Type 0 where
  pub kept : c.is_deleted ≡ false
  pub active : c.is_active ≡ true
  pub begun : c.valid_from ≤ now
  pub unexpired : now ≤ c.valid_until
  pub in_store : is_elsewhere c.store_id lines ≡ false
  pub enough : get_or c.minimum_purchase_amount 0 ≤ subtotal_of lines
  pub unused : is_limited c.usage_limit (times_used c.id redemptions) ≡ false
  pub unused_by :
      is_limited c.usage_limit_per_user (times_used_by c.id customer redemptions) ≡ false
  pub takes : 0 < discount_of c (subtotal_of lines)

pub refusal-IsEligible :
    (c : Coupon) (customer : ℕ) (lines : List CartLine) (redemptions : List Redemption) (now : ℕ)
    → refusal c customer lines redemptions now ≡ none
    → IsEligible c customer lines redemptions now
unfolding refusal
refusal-IsEligible c customer lines redemptions now e = record {
  kept = ground arith;
  active = ground arith;
  begun = ground arith;
  unexpired = ground arith;
  in_store = ground arith;
  enough = ground arith;
  unused = ground arith;
  unused_by = ground arith;
  takes = ground arith;
}

valid-injective : {a b : Discounted} → Validation.valid a ≡ Validation.valid b → a ≡ b
valid-injective h = cc

not_invalid :
    (c : Bool) (r : Reason) (m n : ℕ) {v : Validation} {d : Discounted}
    → (if c then Validation.invalid r m n else v) ≡ Validation.valid d
    → (c ≡ false) × (v ≡ Validation.valid d)
not_invalid true r m n h = cc
not_invalid false r m n h = (refl, h)

pub validate_and_compute-parts :
    (upper : Text → Text) (code : Text) (customer : ℕ) (lines : List CartLine)
    (coupons : List Coupon) (redemptions : List Redemption) (now : ℕ) {d : Discounted}
    → validate_and_compute upper code customer lines coupons redemptions now ≡ Validation.valid d
    → (c : Coupon) × (find_code (upper (trim code)) coupons ≡ some c)
      × (refusal c customer lines redemptions now ≡ none)
      × (leb (length lines) 0 ≡ false)
      × (d ≡ discounted c lines)
unfolding validate_and_compute
validate_and_compute-parts upper code customer lines coupons redemptions now e =
    let (a, e1) = not_invalid (is_blank (upper (trim code))) Reason.no_code _ _ e in
    let (b, e2) = not_invalid (leb (length lines) 0) Reason.empty_cart 0 0 e1 in
    elim (Option-cases (find_code (upper (trim code)) coupons)) [
      | inl gone ↦ cc (rw (gone, validate_and_compute) at e2)
      | inr (c, found) ↦
          let e3 = rw (found, validate_and_compute) at e2 in
          elim (Option-cases (refusal c customer lines redemptions now)) [
            | inl fine ↦
                (c, found, fine, b, sym (valid-injective (rw (fine, validate_and_compute) at e3)))
            | inr (r, refused) ↦ cc (rw (refused, validate_and_compute) at e3)
          ]
    ]

-- A coupon that is accepted is one that was found under the code, and that may be used on this cart
-- by this customer now. When it is well formed, the discount is positive, no more than the subtotal
-- and, for a percentage with a cap, than the cap; the shares of the stores add up to it exactly.
pub validate_and_compute_sound :
    (upper : Text → Text) (code : Text) (customer : ℕ) (lines : List CartLine)
    (coupons : List Coupon) (redemptions : List Redemption) (now : ℕ) {d : Discounted}
    → validate_and_compute upper code customer lines coupons redemptions now ≡ Validation.valid d
    → IsWellFormed d.coupon
    → (find_code (upper (trim code)) coupons ≡ some d.coupon)
      × IsEligible d.coupon customer lines redemptions now
      × (0 < d.discount_amount)
      × (d.discount_amount ≤ limit_of d.coupon (subtotal_of lines))
      × (sum_ℤ d.per_store_discount ≡ pos d.discount_amount)
unfolding discounted
validate_and_compute_sound upper code customer lines coupons redemptions now {d} e w =
    let (c, found, fine, filled, eq) =
      validate_and_compute-parts upper code customer lines coupons redemptions now e in
    let same = ap (λ (x : Discounted). x.coupon) eq in
    let ok_c = refusal-IsEligible c customer lines redemptions now fine in
    let b = discount_of-bounded c (subtotal_of lines) (subst IsWellFormed same w) in
    rw eq (found, ok_c, ok_c.takes, b, shares c lines filled)
  where
    shares :
        (c : Coupon) (lines : List CartLine)
        → leb (length lines) 0 ≡ false
        → sum_ℤ (discounted c lines).per_store_discount ≡ pos (discounted c lines).discount_amount
    shares c [] h = cc
    shares c (l ∷ lines) h =
        shares-sum (discount_of c (subtotal_of (l ∷ lines))) (subtotal_of (l ∷ lines)) l lines
