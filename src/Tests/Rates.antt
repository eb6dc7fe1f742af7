-- ===== src/Tests/Rates.antt =====
-- The theorems on shipping rates, at a store that sets a flat rate for the first time.
use e_commerce_backend.Common.{◌≡◌, refl, true, false, none, some, [], ◌∷◌, arith}
use e_commerce_backend.Shipping.{
  Raw, RawConfig, ShippingPatch, ShippingRateItem, num, parse_shipping_config,
  merge_shipping_config, compute_seller_shipping, is_cod_eligible,
}
use e_commerce_backend.Shipping.Updates.{merge_shipping_config-frees}

abbrev unconfigured : RawConfig
unconfigured = record {
  free_above = Raw.undefined;
  flat_rate = Raw.undefined;
  per_kg_rate = Raw.undefined;
  cod_enabled = false;
  cod_limit = Raw.undefined;
}

-- a flat rate of 49 rupees, and cash on delivery
abbrev flat_rate_only : ShippingPatch
flat_rate_only = record {
  free_above = Raw.undefined;
  flat_rate = Raw.number 490000;
  per_kg_rate = Raw.undefined;
  cod_enabled = some true;
  cod_limit = Raw.undefined;
}

abbrev unweighed : ShippingRateItem
unweighed = record { weight = none; qty = 3 }

merge_shipping_config-frees_example :
    ((compute_seller_shipping
        (unweighed ∷ [])
        10000
        (parse_shipping_config (merge_shipping_config unconfigured flat_rate_only))).shipping_charge
      ≡ 0)
    × (is_cod_eligible
          (parse_shipping_config (merge_shipping_config unconfigured flat_rate_only))
          10000
        ≡ false)
unfolding parse_shipping_config num
merge_shipping_config-frees_example =
    merge_shipping_config-frees unconfigured flat_rate_only (unweighed ∷ []) 10000 10000 refl refl
      refl refl (omega arith)
