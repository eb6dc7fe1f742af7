-- ===== src/Coupon/WellFormed.antt =====
-- What administration keeps true of every coupon.
use e_commerce_backend.Common.{
  ℕ, ◌≤◌, ◌<◌, ◌≡◌, refl, sym, subst, true, false, ◌&&◌, none, some, List, [], ◌∷◌, All, ◌==◌, ltb,
  leb, find, get_or, arith, Bool-cases, inl, inr, ok, throw_if->>-eq-ok, or_throw->>=-eq-ok,
  ok-injective, bad_request, not_found,
}
use e_commerce_backend.Common.Text.{Text, trim}
use e_commerce_backend.Coupon.{
  Coupon, CreateCouponInput, UpdateCouponInput, DiscountType, is_percentage, find_code, is_found,
  create, patch, set_coupon, update,
}

-- A coupon is valid for some time, and takes at most all of a price.
pub record IsWellFormed (c : Coupon) : Type 0 where
  pub range : c.valid_from < c.valid_until
  pub percent : is_percentage c.discount_type ≡ true → c.discount_value ≤ 10000

-- A coupon that is created keeps the coupons well formed.
pub create-IsWellFormed :
    (upper : Text → Text) (fresh : ℕ) (input : CreateCouponInput) (coupons : List Coupon)
    {after : List Coupon}
    → All IsWellFormed coupons
    → create upper fresh input coupons ≡ ok after
    → All IsWellFormed after
unfolding create
create-IsWellFormed upper fresh input coupons h e =
    let (a, e1) = throw_if->>-eq-ok (leb input.valid_until input.valid_from) bad_request _ e in
    let (b, e2) =
      throw_if->>-eq-ok (is_percentage input.discount_type && ltb 10000 input.discount_value)
        bad_request _ e1 in
    let (c, e3) =
      throw_if->>-eq-ok (is_found (find_code (trim (upper input.code)) coupons)) bad_request _ e2 in
    subst (All IsWellFormed) (ok-injective e3)
      (record { range = ground arith; percent = λ p. ground arith }, h)

-- The first coupon with an identifier is the only one.
abbrev pub IsKeyed : List Coupon → Type 0
IsKeyed [] = Unit
IsKeyed (c ∷ cs) = (find (λ x. x.id == c.id) cs ≡ none) × IsKeyed cs

set_coupon-none :
    (k : ℕ) (f : Coupon → Coupon) (cs : List Coupon)
    → find (λ x. x.id == k) cs ≡ none
    → set_coupon k f cs ≡ cs
unfolding set_coupon
set_coupon-none k f [] h = refl
set_coupon-none k f (c ∷ cs) h = ground (arith, set_coupon-none k f cs)

set_coupon-IsWellFormed :
    (k : ℕ) (f : Coupon → Coupon) (cs : List Coupon) (c : Coupon)
    → IsKeyed cs
    → find (λ x. x.id == k) cs ≡ some c
    → IsWellFormed (f c)
    → All IsWellFormed cs
    → All IsWellFormed (set_coupon k f cs)
unfolding set_coupon
set_coupon-IsWellFormed k f [] c u q w h = tt
set_coupon-IsWellFormed k f (x ∷ cs) c (only, u) q w (g, h) = elim (Bool-cases (x.id == k)) [
  | inl s ↦
      let same : x ≡ c = ground arith in
      let rest : find (λ y. y.id == k) cs ≡ none = ground arith in
      rw s (
        subst (λ y. IsWellFormed (f y)) (sym same) w,
        subst (All IsWellFormed) (sym (set_coupon-none k f cs rest)) h,
      )
  | inr s ↦ rw s (g, set_coupon-IsWellFormed k f cs c u (rw s at q) w h)
]

patched :
    (input : UpdateCouponInput) (c : Coupon)
    → leb (get_or input.valid_until c.valid_until) (get_or input.valid_from c.valid_from) ≡ false
    → (is_percentage (get_or input.discount_type c.discount_type)
        && ltb 10000 (get_or input.discount_value c.discount_value))
      ≡ false
    → IsWellFormed (patch input c)
unfolding patch
patched input c a b = record { range = below _ _ a; percent = small _ _ b }
  where
    below : (m n : ℕ) → leb n m ≡ false → m < n
    below m n h = ground arith

    small :
        (p : DiscountType) (n : ℕ)
        → (is_percentage p && ltb 10000 n) ≡ false
        → is_percentage p ≡ true
        → n ≤ 10000
    small p n h q = ground arith

-- An update that is accepted keeps the coupons well formed, whichever fields it sets.
pub update-IsWellFormed :
    (input : UpdateCouponInput) (coupons : List Coupon) {after : List Coupon}
    → IsKeyed coupons
    → All IsWellFormed coupons
    → update input coupons ≡ ok after
    → All IsWellFormed after
unfolding update
update-IsWellFormed input coupons u h e =
    let (c, found, e1) = or_throw->>=-eq-ok (find (λ x. x.id == input.id) coupons) not_found _ e in
    let (k, e2) = throw_if->>-eq-ok c.is_deleted not_found _ e1 in
    let (a, e3) =
      throw_if->>-eq-ok
        (leb (get_or input.valid_until c.valid_until) (get_or input.valid_from c.valid_from))
        bad_request _ e2 in
    let (b, e4) =
      throw_if->>-eq-ok
        (is_percentage (get_or input.discount_type c.discount_type)
          && ltb 10000 (get_or input.discount_value c.discount_value))
        bad_request _ e3 in
    subst (All IsWellFormed) (ok-injective e4)
      (set_coupon-IsWellFormed input.id (patch input) coupons c u found (patched input c a b) h)
