-- ===== src/Payouts/Totals.antt =====
-- The preview of a payout ties out: what is withheld and what is paid add up to what was earned.
use e_commerce_backend.Common.{
  ℕ, ◌+◌, ◌≤◌, ◌<◌, ◌≡◌, refl, ◌∙◌, Option, List, [], ◌∷◌, arith, ◌==◌, leb, ltb, select, sum_by,
  sum_by-append, All, All-append, Bool-cases, inl, inr,
}
use e_commerce_backend.Common.Int.{ℤ}
use e_commerce_backend.Database.{SellerOrder}
use e_commerce_backend.Finance.{Books, Refund, Clawback}
use e_commerce_backend.Payouts.{
  PreviewItem, Preview, refunded_of, tcs_of, net_of, item_of, empty_preview, add_to, add_order,
  group_orders, pending_of, absorb, absorb_all, build_preview, is_eligible,
}

-- The amounts of a payout, of its items and of its clawbacks agree, and every item pays something.
pub record TiesOut (p : Preview) : Type 0 where
  pub gross :
      p.gross_amount ≡ p.refund_adjustment + p.tcs_adjustment + p.clawback_adjustment + p.net_amount
  pub paid : sum_by (λ (i : PreviewItem). i.amount) p.items ≡ p.clawback_adjustment + p.net_amount
  pub refunded : sum_by (λ (i : PreviewItem). i.refunded_amount) p.items ≡ p.refund_adjustment
  pub withheld : sum_by (λ (i : PreviewItem). i.tcs_deducted) p.items ≡ p.tcs_adjustment
  pub positive : All (λ (i : PreviewItem). 0 < i.amount) p.items

order-ties_out :
    (tcs : ℕ → ℤ) (refunds : List Refund) (so : SellerOrder)
    → so.payout_amount ≡ refunded_of refunds so + tcs_of tcs refunds so + net_of tcs refunds so
order-ties_out tcs refunds so = omega arith

add_to-TiesOut :
    (tcs : ℕ → ℤ) (refunds : List Refund) (so : SellerOrder) (p : Preview)
    → 0 < net_of tcs refunds so
    → TiesOut p
    → TiesOut (add_to tcs refunds so p)
add_to-TiesOut tcs refunds so p some_net t =
    let one = item_of tcs refunds so ∷ [] in
    let gross = t.gross in
    let paid = t.paid in
    let refunded = t.refunded in
    let withheld = t.withheld in
    let own = order-ties_out tcs refunds so in
    record {
      gross = omega (arith, gross, own);
      paid = sum_by-append (λ (i : PreviewItem). i.amount) p.items one ∙ omega (arith, paid);
      refunded =
          sum_by-append (λ (i : PreviewItem). i.refunded_amount) p.items one
          ∙ omega (arith, refunded);
      withheld =
          sum_by-append (λ (i : PreviewItem). i.tcs_deducted) p.items one ∙ omega (arith, withheld);
      positive =
          All-append (λ (i : PreviewItem). 0 < i.amount) p.items one t.positive (some_net, tt);
    }

empty-TiesOut : (seller : ℕ) → TiesOut (empty_preview seller)
empty-TiesOut seller = record {
  gross = refl;
  paid = refl;
  refunded = refl;
  withheld = refl;
  positive = tt;
}

add_order-TiesOut :
    (tcs : ℕ → ℤ) (refunds : List Refund) (so : SellerOrder) (ps : List Preview)
    → 0 < net_of tcs refunds so
    → All TiesOut ps
    → All TiesOut (add_order tcs refunds so ps)
add_order-TiesOut tcs refunds so [] some_net ts = (
  add_to-TiesOut tcs refunds so (empty_preview so.seller_id) some_net (empty-TiesOut so.seller_id),
  tt,
)
add_order-TiesOut tcs refunds so (p ∷ ps) some_net (t, ts) =
    elim (Bool-cases (p.seller_id == so.seller_id)) [
      | inl own ↦ rw own (add_to-TiesOut tcs refunds so p some_net t, ts)
      | inr other ↦ rw other (t, add_order-TiesOut tcs refunds so ps some_net ts)
    ]

group_orders-TiesOut :
    (tcs : ℕ → ℤ) (refunds : List Refund) (sos : List SellerOrder) (ps : List Preview)
    → All TiesOut ps
    → All TiesOut (group_orders tcs refunds sos ps)
unfolding group_orders
group_orders-TiesOut tcs refunds [] ps ts = ts
group_orders-TiesOut tcs refunds (so ∷ sos) ps ts =
    elim (Bool-cases (leb (net_of tcs refunds so) 0)) [
      | inl nothing_left ↦ rw nothing_left (group_orders-TiesOut tcs refunds sos ps ts)
      | inr left ↦ rw left (
          group_orders-TiesOut tcs refunds sos (add_order tcs refunds so ps)
            (add_order-TiesOut tcs refunds so ps (ground arith) ts))
    ]

absorb-TiesOut : (cs : List Clawback) (p : Preview) → TiesOut p → TiesOut (absorb cs p)
unfolding absorb
absorb-TiesOut [] p t = t
absorb-TiesOut (c ∷ cs) p t = elim (Bool-cases (ltb p.net_amount c.amount)) [
  | inl too_much ↦ rw too_much t
  | inr enough ↦
      let room : c.amount ≤ p.net_amount = ground arith in
      let gross = t.gross in
      let paid = t.paid in
      rw enough (
        absorb-TiesOut cs _ (record {
          gross = omega (arith, gross, room);
          paid = omega (arith, paid, room);
          refunded = t.refunded;
          withheld = t.withheld;
          positive = t.positive;
        }))
]

absorb_all-TiesOut :
    (cs : List Clawback) (ps : List Preview) → All TiesOut ps → All TiesOut (absorb_all cs ps)
unfolding absorb_all
absorb_all-TiesOut cs [] ts = tt
absorb_all-TiesOut cs (p ∷ ps) (t, ts) =
    (absorb-TiesOut (pending_of p.seller_id cs) p t, absorb_all-TiesOut cs ps ts)

-- In every payout of a preview the gross amount is exactly the refunds, the tax, the clawbacks and the net
-- amount together, so no seller is paid a negative amount, and none of the amounts is lost: the items
-- add up to the clawbacks and the net amount, their refunds and taxes to those of the payout, and no
-- item is without an amount. Any tax may be reported.
pub build_preview-TiesOut :
    (tcs : ℕ → ℤ) (seller : Option ℕ) (b : Books) → All TiesOut (build_preview tcs seller b)
unfolding build_preview
build_preview-TiesOut tcs seller b =
    absorb_all-TiesOut b.clawbacks
      (group_orders tcs b.refunds (select (is_eligible seller b.payout_items) b.shop.seller_orders)
        [])
      (group_orders-TiesOut tcs b.refunds
        (select (is_eligible seller b.payout_items) b.shop.seller_orders) [] tt)
