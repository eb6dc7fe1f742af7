-- ===== src/Tests/Taxes.antt =====
-- The theorem on the ledger of collected tax, at a concrete input.
use e_commerce_backend.Common.{ℕ, ◌+◌, ◌≡◌, some, List, [], ◌∷◌, arith}
use e_commerce_backend.Order.Status.{OrderStatus}
use e_commerce_backend.Tax.{TaxKind}
use e_commerce_backend.Tcs.{
  TcsRow, TcsRefund, Supply, accrue, reverse, is_accrual_of, is_reversal_of, sum_part, tax_of,
  net_for_seller_order,
}
use e_commerce_backend.Tcs.Coverage.{IsCovered}
use e_commerce_backend.Tcs.Reach.{Step, Steps, Steps-nets}
use e_commerce_backend.Tests.{sub_order_of}

-- goods of 200 rupees and shipping of 40 rupees, within a state
abbrev sold : Supply
sold = record {
  id = 70;
  tax_kind = some TaxKind.intra_state;
  taxable_values = 2000000 ∷ [];
  shipping_taxable_value = 400000;
}

abbrev accrued : List TcsRow
accrued = accrue (some sold) []

-- half of the sub-order's 276 rupees
abbrev half_back : TcsRefund
half_back = record { id = 900; amount = 13800; seller_order_id = some 70 }

abbrev reversed : List TcsRow
reversed = reverse half_back (sub_order_of OrderStatus.delivered ∷ []) accrued

Steps-nets_example :
    IsCovered reversed
    × ((so : ℕ)
        → net_for_seller_order so reversed + sum_part (is_reversal_of so) tax_of reversed
          ≡ sum_part (is_accrual_of so) tax_of reversed)
Steps-nets_example =
    Steps-nets
      (Steps.then (Steps.then (Steps.none_yet []) (Step.accrues (some sold) []))
        (Step.reverses half_back (sub_order_of OrderStatus.delivered ∷ []) accrued))
      (record { covered = λ c so. omega arith; named = tt })
