-- ===== src/Returns/Clawback.antt =====
-- The money of a return: what is clawed back from the seller, and that a replacement moves none.
use e_commerce_backend.Common.{
  ℕ, ◌+◌, ◌*◌, ◌≤◌, ◌<◌, ◌≡◌, refl, ap, ◌∙◌, min, true, false, arith, leb,
}
use e_commerce_backend.Common.Int.{clip}
use e_commerce_backend.Common.Rounding.{round_half_up, round_half_up_near}
use e_commerce_backend.Database.{SellerOrder}
use e_commerce_backend.Finance.{is_in_payout, seller_order_total}
use e_commerce_backend.Returns.Resolution.{clawback_amount}

-- A rounded share of a whole is at most the whole.
round_half_up-share : (p m g : ℕ) → 0 < g → m ≤ g → round_half_up (p * m) g ≤ p
round_half_up-share p m g pos_g h =
    let near = (round_half_up_near (p * m) g pos_g).0 in
    let most : p * m ≤ p * g = grind arith in grind arith

round_half_up-whole : (p g : ℕ) → 0 < g → round_half_up (p * g) g ≡ p
round_half_up-whole p g pos_g =
    let low = (round_half_up_near (p * g) g pos_g).0 in
    let high = (round_half_up_near (p * g) g pos_g).1 in grind arith

round_half_up-monotone : (n m g : ℕ) → 0 < g → n ≤ m → round_half_up n g ≤ round_half_up m g
round_half_up-monotone n m g pos_g h =
    let low = (round_half_up_near n g pos_g).0 in
    let high = (round_half_up_near m g pos_g).1 in
    let x = round_half_up n g in
    let y = round_half_up m g in
    let between : 2 * g * x < 2 * g * y + 2 * g = omega (arith, low, high, h, pos_g) in grind arith

clawback_amount-share :
    (so : SellerOrder) (refunded : ℕ)
    → is_in_payout so.payout_status ≡ true
    → 0 < clip (seller_order_total so)
    → clawback_amount so refunded
      ≡ round_half_up
          (so.payout_amount * min refunded (clip (seller_order_total so)))
          (clip (seller_order_total so))
unfolding clawback_amount
clawback_amount-share so refunded paid some_gross =
    let counts : leb (clip (seller_order_total so)) 0 ≡ false = ground arith in
    rw (paid, counts) refl

-- The clawback of a sub-order with a positive total that is in a payout is at most what its seller is paid
-- for it, does not fall when more is refunded, and is all of it once the refund reaches the total.
pub clawback_amount-bounded :
    (so : SellerOrder) (refunded more : ℕ)
    → is_in_payout so.payout_status ≡ true
    → 0 < clip (seller_order_total so)
    → (clawback_amount so refunded ≤ so.payout_amount)
      × (clawback_amount so refunded ≤ clawback_amount so (refunded + more))
      × (clawback_amount so (clip (seller_order_total so) + more) ≡ so.payout_amount)
clawback_amount-bounded so refunded more paid some_gross =
    let gross = clip (seller_order_total so) in
    let now = clawback_amount-share so refunded paid some_gross in
    let later = clawback_amount-share so (refunded + more) paid some_gross in
    let whole = clawback_amount-share so (gross + more) paid some_gross in
    let grows : so.payout_amount * min refunded gross
        ≤ so.payout_amount * min (refunded + more) gross =
      let less : min refunded gross ≤ min (refunded + more) gross = omega arith in grind arith in
    let all : min (gross + more) gross ≡ gross = omega arith in
    (
      rw now (
          round_half_up-share so.payout_amount (min refunded gross) gross some_gross (omega arith)),
      rw (now, later) (round_half_up-monotone _ _ gross some_gross grows),
      whole
          ∙ ap (λ m. round_half_up (so.payout_amount * m) gross) all
          ∙ round_half_up-whole so.payout_amount gross some_gross,
    )
