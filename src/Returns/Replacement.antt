-- ===== src/Returns/Replacement.antt =====
-- A return that is resolved by a replacement.
use e_commerce_backend.Common.{
  ℕ, ◌≡◌, refl, sym, ap, subst, true, false, Option, none, some, List, [], ◌∷◌, ◌++◌, arith,
}
use e_commerce_backend.Finance.{
  Books, ReturnStatus, ReturnRequest, replacement_approved, find_return, set_return,
}
use e_commerce_backend.Refund.Execution.{GatewayReply, Outcome}
use e_commerce_backend.Returns.{◌=r◌, is_replacement}
use e_commerce_backend.Returns.Calls.{move, and_then, send_mail, same_columns}
use e_commerce_backend.Returns.Resolution.{complete_qc_passed, complete_qc_passed_replacement}
use e_commerce_backend.Returns.Ledger.{with_status, event_of}
use e_commerce_backend.Returns.Trails.{found_return-id}

-- The books after the completion.
abbrev pub swapped : ℕ → Option ℕ → Books → Books
swapped k actor b = record b {
  returns = set_return k (with_status ReturnStatus.replacement_approved same_columns) b.returns;
  return_events =
      event_of k (some ReturnStatus.qc_passed) ReturnStatus.replacement_approved actor
      ∷ b.return_events;
  mails = b.mails ++ (replacement_approved k ∷ []);
}

moves-swap :
    (k : ℕ) (actor : Option ℕ) (b : Books) {rr : ReturnRequest}
    → find_return k b.returns ≡ some rr
    → (rr.status =r ReturnStatus.qc_passed) ≡ true
    → and_then b
        (send_mail (replacement_approved k))
        (move k ReturnStatus.qc_passed ReturnStatus.replacement_approved actor same_columns b)
      ≡ swapped k actor b
unfolding move
moves-swap k actor b found passed = rw (found, move) (rw passed refl)

completes-swap :
    (k : ℕ) (actor : Option ℕ) (fresh fresh_clawback : ℕ) (reply : GatewayReply) (b : Books)
    {rr : ReturnRequest}
    → find_return k b.returns ≡ some rr
    → is_replacement rr.resolution_type ≡ true
    → (rr.status =r ReturnStatus.qc_passed) ≡ true
    → complete_qc_passed k actor fresh fresh_clawback reply b ≡ (swapped k actor b, none)
unfolding complete_qc_passed complete_qc_passed_replacement
completes-swap k actor fresh fresh_clawback reply b {rr} found swap passed =
    let key = found_return-id k b.returns rr found in
    rw (found, complete_qc_passed)
      (rw swap (
        rw passed (
          subst
            (λ j.
              ◌≡◌ {A = Outcome}
                (
                  and_then b (send_mail (replacement_approved j)) (
                      move j ReturnStatus.qc_passed ReturnStatus.replacement_approved actor
                        same_columns b),
                  none,
                )
                (swapped k actor b, none))
            (sym key)
            (ap (λ (x : Books). let o : Outcome = (x, none) in o)
              (moves-swap k actor b found passed)))))

pub find_return-set_found :
    (k : ℕ) (f : ReturnRequest → ReturnRequest) (rs : List ReturnRequest) (r : ReturnRequest)
    → ((x : ReturnRequest) → (f x).id ≡ x.id)
    → find_return k rs ≡ some r
    → find_return k (set_return k f rs) ≡ some (f r)
find_return-set_found k f [] r same e = cc
find_return-set_found k f (x ∷ rs) r same e =
    ground (arith, same x, find_return-set_found k f rs r same)

rests-swap :
    (k : ℕ) (actor : Option ℕ) (fresh fresh_clawback : ℕ) (reply : GatewayReply) (b : Books)
    {rr : ReturnRequest}
    → find_return k b.returns ≡ some rr
    → is_replacement rr.resolution_type ≡ true
    → (rr.status =r ReturnStatus.qc_passed) ≡ false
    → complete_qc_passed k actor fresh fresh_clawback reply b ≡ (b, none)
unfolding complete_qc_passed complete_qc_passed_replacement
rests-swap k actor fresh fresh_clawback reply b {rr} found swap over =
    rw (found, complete_qc_passed) (rw swap (rw over refl))

-- The completion of a replacement return that passed its inspection raises nothing, moves the return to
-- `replacement_approved` with one event and one e-mail, and writes nothing else: no refund, no clawback,
-- no call of the gateway and no stock. A second completion writes nothing.
pub complete_qc_passed-swaps :
    (k : ℕ) (actor : Option ℕ) (fresh fresh_clawback : ℕ) (reply : GatewayReply) (b : Books)
    {rr : ReturnRequest}
    → find_return k b.returns ≡ some rr
    → is_replacement rr.resolution_type ≡ true
    → rr.status ≡ ReturnStatus.qc_passed
    → (complete_qc_passed k actor fresh fresh_clawback reply b ≡ (swapped k actor b, none))
      × (complete_qc_passed k actor fresh fresh_clawback reply (swapped k actor b)
          ≡ (swapped k actor b, none))
complete_qc_passed-swaps k actor fresh fresh_clawback reply b {rr} found swap passed = (
  completes-swap k actor fresh fresh_clawback reply b found swap
      (ap (λ s. s =r ReturnStatus.qc_passed) passed),
  rests-swap k actor fresh fresh_clawback reply (swapped k actor b)
      (find_return-set_found k (with_status ReturnStatus.replacement_approved same_columns)
        b.returns rr (λ x. refl) found)
      swap refl,
)
