-- ===== src/Coupon.antt =====
-- Coupons and their administration (src/modules/ecommerce/coupon/coupon.service.ts). Amounts are paise;
-- a percentage is a count of hundredths of a percent, as `Decimal(10, 2)` stores it. `upper` stands for
-- JavaScript's `toUpperCase`. The reads that only list coupons are left out.
pub mod WellFormed
pub mod Discount
pub mod Bounds
pub mod Allocation
pub mod Eligibility
use e_commerce_backend.Common.{
  ℕ, Bool, true, false, not, Option, none, some, List, [], ◌∷◌, ◌==◌, ◌&&◌, ltb, leb, find, get_or,
  if◌then◌else◌, Exception, bad_request, not_found, Result, ok, err, ◌>>=◌, ◌>>◌, throw_if,
  or_throw,
}
use e_commerce_backend.Common.Text.{Text, trim, same_text}

pub data DiscountType : Type 0 where
  percentage fixed_amount : DiscountType

pub record Coupon : Type 0 where
  pub id : ℕ
  pub store_id : Option ℕ
  pub code : Text
  pub discount_type : DiscountType
  pub discount_value : ℕ
  pub minimum_purchase_amount : Option ℕ
  pub maximum_discount_amount : Option ℕ
  pub usage_limit : Option ℕ
  pub usage_limit_per_user : Option ℕ
  pub valid_from : ℕ
  pub valid_until : ℕ
  pub is_active : Bool
  pub is_deleted : Bool

pub record CreateCouponInput : Type 0 where
  pub store_id : Option ℕ
  pub code : Text
  pub discount_type : DiscountType
  pub discount_value : ℕ
  pub minimum_purchase_amount : Option ℕ
  pub maximum_discount_amount : Option ℕ
  pub usage_limit : Option ℕ
  pub usage_limit_per_user : Option ℕ
  pub valid_from : ℕ
  pub valid_until : ℕ
  pub is_active : Option Bool

-- A field of an update: `none` leaves the column as it is. A nullable column takes an `Option`.
pub record UpdateCouponInput : Type 0 where
  pub id : ℕ
  pub store_id : Option (Option ℕ)
  pub discount_type : Option DiscountType
  pub discount_value : Option ℕ
  pub minimum_purchase_amount : Option (Option ℕ)
  pub maximum_discount_amount : Option (Option ℕ)
  pub usage_limit : Option (Option ℕ)
  pub usage_limit_per_user : Option (Option ℕ)
  pub valid_from : Option ℕ
  pub valid_until : Option ℕ
  pub is_active : Option Bool

abbrev pub is_percentage : DiscountType → Bool
is_percentage DiscountType.percentage = true
is_percentage DiscountType.fixed_amount = false

abbrev pub find_code : Text → List Coupon → Option Coupon
find_code code = find (λ c. same_text c.code code)

abbrev pub is_found : Option Coupon → Bool
is_found none = false
is_found (some c) = true

-- `create`: a date range that is not empty, at most 100 percent, an unused code
unfoldable pub create : (Text → Text) → ℕ → CreateCouponInput → List Coupon → Result (List Coupon)
create upper fresh input coupons = do
  throw_if (leb input.valid_until input.valid_from) bad_request
  throw_if (is_percentage input.discount_type && ltb 10000 input.discount_value) bad_request
  throw_if (is_found (find_code (trim (upper input.code)) coupons)) bad_request
  ok (
      (record {
        id = fresh;
        store_id = input.store_id;
        code = trim (upper input.code);
        discount_type = input.discount_type;
        discount_value = input.discount_value;
        minimum_purchase_amount = input.minimum_purchase_amount;
        maximum_discount_amount = input.maximum_discount_amount;
        usage_limit = input.usage_limit;
        usage_limit_per_user = input.usage_limit_per_user;
        valid_from = input.valid_from;
        valid_until = input.valid_until;
        is_active = get_or input.is_active true;
        is_deleted = false;
      })
      ∷ coupons)

-- the row after `update`'s `data`
unfoldable pub patch : UpdateCouponInput → Coupon → Coupon
patch input c = record c {
  store_id = get_or input.store_id c.store_id;
  discount_type = get_or input.discount_type c.discount_type;
  discount_value = get_or input.discount_value c.discount_value;
  minimum_purchase_amount = get_or input.minimum_purchase_amount c.minimum_purchase_amount;
  maximum_discount_amount = get_or input.maximum_discount_amount c.maximum_discount_amount;
  usage_limit = get_or input.usage_limit c.usage_limit;
  usage_limit_per_user = get_or input.usage_limit_per_user c.usage_limit_per_user;
  valid_from = get_or input.valid_from c.valid_from;
  valid_until = get_or input.valid_until c.valid_until;
  is_active = get_or input.is_active c.is_active;
}

unfoldable pub set_coupon : ℕ → (Coupon → Coupon) → List Coupon → List Coupon
set_coupon k f [] = []
set_coupon k f (c ∷ cs) = (if c.id == k then f c else c) ∷ set_coupon k f cs

-- `update`
unfoldable pub update : UpdateCouponInput → List Coupon → Result (List Coupon)
unfolding patch set_coupon
update input coupons = do
  existing ← or_throw (find (λ c. c.id == input.id) coupons) not_found
  throw_if existing.is_deleted not_found
  throw_if
      (leb (get_or input.valid_until existing.valid_until)
        (get_or input.valid_from existing.valid_from))
      bad_request
  throw_if
      (is_percentage (get_or input.discount_type existing.discount_type)
        && ltb 10000 (get_or input.discount_value existing.discount_value))
      bad_request
  ok (set_coupon input.id (patch input) coupons)

-- `softDelete`; a coupon that was deleted before is deleted again
unfoldable pub soft_delete : ℕ → List Coupon → Result (List Coupon)
unfolding set_coupon
soft_delete id coupons = do
  existing ← or_throw (find (λ c. c.id == id) coupons) not_found
  ok (set_coupon id (λ c. record c { is_deleted = true; is_active = false }) coupons)
