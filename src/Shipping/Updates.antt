-- ===== src/Shipping/Updates.antt =====
-- What an update of the configuration does to a store that has no threshold.
use e_commerce_backend.Common.{ℕ, ◌<◌, ◌≡◌, false, none, List, arith}
use e_commerce_backend.Shipping.{
  Raw, RawConfig, ShippingPatch, ShippingRateItem, num, parse_shipping_config,
  merge_shipping_config, compute_seller_shipping, is_cod_eligible,
}

-- After an update that leaves the threshold and the limit alone, a store that had neither ships every
-- order free of charge, and takes cash on delivery for no total above 0.
pub merge_shipping_config-frees :
    (stored : RawConfig) (patch : ShippingPatch) (items : List ShippingRateItem)
    (subtotal total : ℕ)
    → (parse_shipping_config stored).free_above ≡ none
    → (parse_shipping_config stored).cod_limit ≡ none
    → patch.free_above ≡ Raw.undefined
    → patch.cod_limit ≡ Raw.undefined
    → 0 < total
    → let config = parse_shipping_config (merge_shipping_config stored patch) in
      ((compute_seller_shipping items subtotal config).shipping_charge ≡ 0)
      × (is_cod_eligible config total ≡ false)
unfolding parse_shipping_config num merge_shipping_config compute_seller_shipping is_cod_eligible
merge_shipping_config-frees stored patch items subtotal total f c p q t =
    rw (p, f, q, c) (ground arith, ground arith)
