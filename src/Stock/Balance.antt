-- ===== src/Stock/Balance.antt =====
-- Which changes of a stock level keep the books balanced.
use e_commerce_backend.Common.{
  ℕ, ◌+◌, ◌≡◌, arith, ok, sym, ap, ok-injective, false, throw_if->>-eq-ok, bad_request,
}
use e_commerce_backend.Common.Int.{ℤ, pos, negsuc, clip, ltb_ℤ, ◌+ℤ◌, ◌-ℤ◌}
use e_commerce_backend.Stock.{
  Stock, reserve, commit, release, adjust, adjust_from, delta_of, Adjustment,
}

-- What is on hand is either available or reserved.
abbrev pub IsBalanced : Stock → Type 0
IsBalanced s = s.on_hand ≡ pos (s.available + s.reserved)

pub reserve-IsBalanced :
    (q : ℕ) (s : Stock) {t : Stock} → IsBalanced s → reserve q s ≡ ok t → IsBalanced t
unfolding reserve
reserve-IsBalanced q s h e = ground arith

pub commit-IsBalanced :
    (q : ℕ) (s : Stock) {t : Stock} → IsBalanced s → commit q s ≡ ok t → IsBalanced t
unfolding commit ◌-ℤ◌
commit-IsBalanced q s h e = ground arith

pub release-IsBalanced :
    (q : ℕ) (s : Stock) {t : Stock} → IsBalanced s → release q s ≡ ok t → IsBalanced t
unfolding release
release-IsBalanced q s h e = ground arith

pub adjust-IsBalanced : (a : Adjustment) (s : Stock) {t : Stock} → adjust a s ≡ ok t → IsBalanced t
unfolding adjust ◌-ℤ◌ ◌+ℤ◌
adjust-IsBalanced (Adjustment.by_delta d) s e = ground arith
adjust-IsBalanced (Adjustment.to_on_hand n) s e = ground arith

recombined :
    (n : ℤ) (r : ℕ)
    → ltb_ℤ (n -ℤ pos r) (pos 0) ≡ false
    → ltb_ℤ n (pos 0) ≡ false
    → pos (clip (n -ℤ pos r) + r) ≡ n
unfolding ◌-ℤ◌
recombined (pos k) r h g = ground arith
recombined (negsuc k) r h g = ground arith

-- The available units are those on hand less those that were reserved at the read.
adjust_from-parts :
    (read : Stock) (a : Adjustment) (now : Stock) {after : Stock}
    → adjust_from read a now ≡ ok after
    → (pos (after.available + read.reserved) ≡ after.on_hand) × (after.reserved ≡ now.reserved)
unfolding adjust_from
adjust_from-parts read a now {after} e =
    let n = read.on_hand +ℤ delta_of a read.on_hand in
    let (c, e1) = throw_if->>-eq-ok (ltb_ℤ (n -ℤ pos read.reserved) (pos 0)) bad_request _ e in
    let (d, e2) = throw_if->>-eq-ok (ltb_ℤ n (pos 0)) bad_request _ e1 in
    let p : after.available ≡ clip (n -ℤ pos read.reserved) = cc e2 in
    let o : after.on_hand ≡ n = cc e2 in
    (
      rw (p, o) (recombined n read.reserved c d),
      ap (λ (x : Stock). x.reserved) (sym (ok-injective e2)),
    )

-- An adjustment that writes what it computed from a row, over a reservation of `q` units that was
-- committed since the row was read, leaves `q` more units available or reserved than on hand.
pub adjust_from-stale :
    (q : ℕ) (a : Adjustment) (read now : Stock) {after : Stock}
    → reserve q read ≡ ok now
    → adjust_from read a now ≡ ok after
    → pos (after.available + after.reserved) ≡ after.on_hand +ℤ pos q
unfolding reserve ◌+ℤ◌
adjust_from-stale q a read now r e = let (x, y) = adjust_from-parts read a now e in ground arith
