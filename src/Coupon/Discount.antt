-- ===== src/Coupon/Discount.antt =====
-- Validation of a coupon against a cart, and its discount (`validateAndCompute` in
-- src/modules/ecommerce/coupon/coupon.service.ts). A rate is a count of hundredths of a percent. The
-- arithmetic is exact; a missing rate is 0.
use e_commerce_backend.Common.{
  ℕ, suc, ◌+◌, ◌-◌, ◌*◌, ◌/◌, min, Bool, false, not, Option, none, some, List, [], ◌∷◌, ◌==◌, ◌&&◌,
  ltb, leb, any_of, select, sum_by, length, get_or, if◌then◌else◌,
}
use e_commerce_backend.Common.Int.{ℤ, pos, negsuc, ◌+ℤ◌, ◌-ℤ◌, clip}
use e_commerce_backend.Common.Rounding.{round_half_up}
use e_commerce_backend.Common.Text.{Text, trim, is_blank}
use e_commerce_backend.Coupon.{Coupon, DiscountType, find_code}

pub record CartLine : Type 0 where
  pub store_id : ℕ
  pub line_total : ℕ
  pub tax_rate : Option ℕ

pub record Redemption : Type 0 where
  pub coupon_id : ℕ
  pub customer_id : ℕ

pub data Reason : Type 0 where
  no_code empty_cart unknown_code inactive not_yet expired wrong_store below_minimum used_up
        used_up_by_user no_discount :
      Reason

-- `ValidateAndComputeResult`
pub record Discounted : Type 0 where
  pub coupon : Coupon
  pub discount_amount : ℕ
  pub subtotal : ℕ
  pub subtotal_incl_tax : ℕ
  pub discount_incl_tax : ℤ
  pub customer_total : ℕ
  pub per_store_discount : List (ℕ × ℤ)

pub data Validation : Type 0 where
  invalid : Reason → ℕ → ℕ → Validation
  valid : Discounted → Validation

-- `Math.round(n / d)` of a signed numerator, a tie upwards
unfoldable pub round_ℤ : ℤ → ℕ → ℤ
round_ℤ (pos n) d = pos (round_half_up n d)
round_ℤ (negsuc n) d = pos 0 -ℤ pos ((2 * suc n + d - 1) / (2 * d))

abbrev pub subtotal_of : List CartLine → ℕ
subtotal_of = sum_by (λ (l : CartLine). l.line_total)

-- an amount with tax, in ten-thousandths of a paisa
abbrev pub with_tax : ℕ → Option ℕ → ℕ
with_tax amount rate = amount * (10000 + get_or rate 0)

unfoldable pub subtotal_incl_tax_of : List CartLine → ℕ
subtotal_incl_tax_of lines =
    round_half_up (sum_by (λ (l : CartLine). with_tax l.line_total l.tax_rate) lines) 10000

-- The discount before the allocation. A cap of 0 is no cap.
unfoldable pub discount_of : Coupon → ℕ → ℕ
discount_of c subtotal =
    let cap = get_or c.maximum_discount_amount 0 in
    let share = subtotal * c.discount_value in
    elim c.discount_type [
      | DiscountType.percentage ↦
          round_half_up (if ltb 0 cap then min share (cap * 10000) else share) 10000
      | DiscountType.fixed_amount ↦ min c.discount_value subtotal
    ]

-- `perStoreSubtotal`: a map in the order of insertion
unfoldable pub add_subtotal : ℕ → ℕ → List (ℕ × ℕ) → List (ℕ × ℕ)
add_subtotal store amount [] = (store, amount) ∷ []
add_subtotal store amount ((s, n) ∷ rest) =
    let later = add_subtotal store amount rest in
    if s == store then (s, n + amount) ∷ rest else (s, n) ∷ later

unfoldable pub store_subtotals : List (ℕ × ℕ) → List CartLine → List (ℕ × ℕ)
unfolding add_subtotal
store_subtotals acc [] = acc
store_subtotals acc (l ∷ lines) = store_subtotals (add_subtotal l.store_id l.line_total acc) lines

-- The allocation: the last store gets what the others leave.
unfoldable pub allocate : ℕ → ℕ → ℕ → List (ℕ × ℕ) → List (ℕ × ℤ)
allocate discount subtotal allocated [] = []
allocate discount subtotal allocated ((s, n) ∷ []) = (s, pos discount -ℤ pos allocated) ∷ []
allocate discount subtotal allocated ((s, n) ∷ next ∷ rest) =
    let share = round_half_up (discount * n) subtotal in
    (s, pos share) ∷ allocate discount subtotal (allocated + share) (next ∷ rest)

-- `get(store) ?? 0` on a map
abbrev pub value_at : ℕ → List (ℕ × ℤ) → ℤ
value_at k [] = pos 0
value_at k ((s, n) ∷ rest) = if s == k then n else value_at k rest

abbrev pub subtotal_at : ℕ → List (ℕ × ℕ) → ℕ
subtotal_at k [] = 0
subtotal_at k ((s, n) ∷ rest) = if s == k then n else subtotal_at k rest

abbrev pub add_at : ℕ → ℤ → List (ℕ × ℤ) → List (ℕ × ℤ)
add_at k x [] = (k, x) ∷ []
add_at k x ((s, n) ∷ rest) = if s == k then (s, n +ℤ x) ∷ rest else (s, n) ∷ add_at k x rest

-- The discount of a line: the last line of a store gets what its other lines leave.
unfoldable pub line_discount :
    List (ℕ × ℕ) → List (ℕ × ℤ) → List (ℕ × ℤ) → CartLine → List CartLine → ℤ
unfolding round_ℤ
line_discount subtotals shares allocated l later =
    let share = value_at l.store_id shares in
    let whole = subtotal_at l.store_id subtotals in
    if not (any_of (λ n. n.store_id == l.store_id) later)
    then share -ℤ value_at l.store_id allocated
    else if ltb 0 whole
    then round_ℤ (scale share l.line_total) whole
    else pos 0
  where
    scale : ℤ → ℕ → ℤ
    scale (pos a) b = pos (a * b)
    scale (negsuc a) b = pos 0 -ℤ pos (suc a * b)

-- The sum over the lines of what the customer pays, in ten-thousandths of a paisa.
unfoldable pub customer_sum : List (ℕ × ℕ) → List (ℕ × ℤ) → List (ℕ × ℤ) → List CartLine → ℕ
unfolding line_discount
customer_sum subtotals shares allocated [] = 0
customer_sum subtotals shares allocated (l ∷ later) =
    let off = line_discount subtotals shares allocated l later in
    let allocated' =
      if any_of (λ n. n.store_id == l.store_id) later
      then add_at l.store_id off allocated
      else allocated in
    with_tax (clip (pos l.line_total -ℤ off)) l.tax_rate
    + customer_sum subtotals shares allocated' later

abbrev pub is_limited : Option ℕ → ℕ → Bool
is_limited none used = false
is_limited (some limit) used = ltb 0 limit && leb limit used

abbrev pub is_elsewhere : Option ℕ → List CartLine → Bool
is_elsewhere none lines = false
is_elsewhere (some store) lines = any_of (λ l. not (l.store_id == store)) lines

abbrev pub times_used : ℕ → List Redemption → ℕ
times_used coupon rs = length (select (λ r. r.coupon_id == coupon) rs)

abbrev pub times_used_by : ℕ → ℕ → List Redemption → ℕ
times_used_by coupon customer rs =
    length (select (λ r. r.coupon_id == coupon && r.customer_id == customer) rs)

-- The checks on the coupon that was found, in order.
unfoldable pub refusal : Coupon → ℕ → List CartLine → List Redemption → ℕ → Option Reason
refusal c customer lines redemptions now =
    let minimum = get_or c.minimum_purchase_amount 0 in
    if c.is_deleted
    then some unknown_code
    else if not c.is_active
    then some inactive
    else if ltb now c.valid_from
    then some not_yet
    else if ltb c.valid_until now
    then some expired
    else if is_elsewhere c.store_id lines
    then some wrong_store
    else if ltb 0 minimum && ltb (subtotal_of lines) minimum
    then some below_minimum
    else if is_limited c.usage_limit (times_used c.id redemptions)
    then some used_up
    else if is_limited c.usage_limit_per_user (times_used_by c.id customer redemptions)
    then some used_up_by_user
    else if leb (discount_of c (subtotal_of lines)) 0
    then some no_discount
    else none

unfoldable pub discounted : Coupon → List CartLine → Discounted
unfolding store_subtotals allocate customer_sum
discounted c lines =
    let subtotal = subtotal_of lines in
    let discount = discount_of c subtotal in
    let subtotals = store_subtotals [] lines in
    let shares = allocate discount subtotal 0 subtotals in
    let total = round_half_up (customer_sum subtotals shares [] lines) 10000 in
    record {
      coupon = c;
      discount_amount = discount;
      subtotal = subtotal;
      subtotal_incl_tax = subtotal_incl_tax_of lines;
      discount_incl_tax = pos (subtotal_incl_tax_of lines) -ℤ pos total;
      customer_total = total;
      per_store_discount = shares;
    }

-- `validateAndCompute`
unfoldable pub validate_and_compute :
    (Text → Text) → Text → ℕ → List CartLine → List Coupon → List Redemption → ℕ → Validation
unfolding refusal discounted
validate_and_compute upper code customer lines coupons redemptions now =
    let code_upper = upper (trim code) in
    if is_blank code_upper
    then invalid no_code (subtotal_of lines) (subtotal_incl_tax_of lines)
    else if leb (length lines) 0
    then invalid empty_cart 0 0
    else elim (find_code code_upper coupons) [
      | none ↦ invalid unknown_code (subtotal_of lines) (subtotal_incl_tax_of lines)
      | some c ↦ elim (refusal c customer lines redemptions now) [
        | some r ↦ invalid r (subtotal_of lines) (subtotal_incl_tax_of lines)
        | none ↦ valid (discounted c lines)
      ]
    ]
