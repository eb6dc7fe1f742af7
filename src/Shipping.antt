-- ===== src/Shipping.antt =====
-- The shipping rates of a store (src/modules/ecommerce/shipping/shipping-rate.ts), and the update of
-- its configuration (updateMyStoreShipping of src/modules/ecommerce/store/store.service.ts). A rate is
-- a count of ten-thousandths of a rupee, a charge and a subtotal of paise, a weight of grams. The
-- columns that are only displayed, and serviceability, are left out.
pub mod Charges
pub mod Updates
use e_commerce_backend.Common.{
  ℕ, ◌+◌, ◌*◌, Bool, true, false, Option, none, some, List, [], ◌∷◌, leb, ltb, get_or, sum_by,
  if◌then◌else◌,
}
use e_commerce_backend.Common.Rounding.{round_half_up, ceil_div}

-- A value of the stored JSON: `number n` is what `Number` makes a non-negative number of, and
-- `garbage` what it makes a negative number or none of.
pub data Raw : Type 0 where
  undefined null garbage : Raw
  number : ℕ → Raw

pub record RawConfig : Type 0 where
  pub free_above : Raw
  pub flat_rate : Raw
  pub per_kg_rate : Raw
  pub cod_enabled : Bool
  pub cod_limit : Raw

pub record ShippingConfig : Type 0 where
  pub free_above : Option ℕ
  pub flat_rate : ℕ
  pub per_kg_rate : Option ℕ
  pub cod_enabled : Bool
  pub cod_limit : Option ℕ

-- `num`: JavaScript's `Number(null)` is 0
unfoldable pub num : Raw → Option ℕ
num Raw.undefined = none
num Raw.null = some 0
num Raw.garbage = none
num (Raw.number n) = some n

-- `parseShippingConfig`
unfoldable pub parse_shipping_config : RawConfig → ShippingConfig
unfolding num
parse_shipping_config raw = record {
  free_above = num raw.free_above;
  flat_rate = get_or (num raw.flat_rate) 0;
  per_kg_rate = num raw.per_kg_rate;
  cod_enabled = raw.cod_enabled;
  cod_limit = num raw.cod_limit;
}

-- `UpdateStoreShippingInput`
pub record ShippingPatch : Type 0 where
  pub free_above : Raw
  pub flat_rate : Raw
  pub per_kg_rate : Raw
  pub cod_enabled : Option Bool
  pub cod_limit : Raw

abbrev pub to_json : Option ℕ → Raw
to_json none = Raw.null
to_json (some n) = Raw.number n

-- `if (value !== undefined) merged[key] = value`
abbrev pub merged : Raw → Raw → Raw
merged Raw.undefined current = current
merged value current = value

-- The JSON that `updateMyStoreShipping` stores, once the caller is known to own the store.
unfoldable pub merge_shipping_config : RawConfig → ShippingPatch → RawConfig
unfolding parse_shipping_config
merge_shipping_config stored patch =
    let current = parse_shipping_config stored in
    record {
      free_above = merged patch.free_above (to_json current.free_above);
      flat_rate = merged patch.flat_rate (Raw.number current.flat_rate);
      per_kg_rate = merged patch.per_kg_rate (to_json current.per_kg_rate);
      cod_enabled = get_or patch.cod_enabled current.cod_enabled;
      cod_limit = merged patch.cod_limit (to_json current.cod_limit);
    }

pub record ShippingRateItem : Type 0 where
  pub weight : Option ℕ
  pub qty : ℕ

pub record ShippingResult : Type 0 where
  pub shipping_charge : ℕ
  pub free_applied : Bool
  pub billable_weight : ℕ

-- a weight that is missing or 0 counts as `DEFAULT_ITEM_WEIGHT_KG`
abbrev pub unit_weight : Option ℕ → ℕ
unit_weight none = 500
unit_weight (some w) = if ltb 0 w then w else 500

abbrev pub total_weight : List ShippingRateItem → ℕ
total_weight = sum_by (λ (it : ShippingRateItem). unit_weight it.weight * it.qty)

abbrev pub is_free : Option ℕ → ℕ → Bool
is_free none subtotal = false
is_free (some threshold) subtotal = leb threshold (100 * subtotal)

-- `computeSellerShipping`; the billable weight is in hundredths of a kilogram
unfoldable pub compute_seller_shipping : List ShippingRateItem → ℕ → ShippingConfig → ShippingResult
compute_seller_shipping items subtotal config =
    let billable = ceil_div (total_weight items) 10 in
    let base = round_half_up config.flat_rate 100 in
    let weight_component = round_half_up (get_or config.per_kg_rate 0 * billable) 10000 in
    if is_free config.free_above subtotal
    then record { shipping_charge = 0; free_applied = true; billable_weight = billable }
    else record {
      shipping_charge = base + weight_component;
      free_applied = false;
      billable_weight = billable;
    }

-- `isCodEligible`, of a total in paise
unfoldable pub is_cod_eligible : ShippingConfig → ℕ → Bool
is_cod_eligible config total =
    if config.cod_enabled
    then (elim config.cod_limit [ none ↦ true | some limit ↦ leb (100 * total) limit ])
    else false
