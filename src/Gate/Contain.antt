-- ===== src/Gate/Contain.antt =====
-- The containment boundary of proxy/credit_gate.go, around any call and any panic in it.
use omniswap.Prelude.{String, true, false, none, some, ◌≡◌, refl, arith, ◌⊎◌, if◌then◌else◌}
use omniswap.Prelude.Keys.{string_eq}
use omniswap.Prelude.Int.{pos}
use omniswap.Prelude.Word.{add64}
use omniswap.Ledger.{CreditLedger, Reservation, release}
use omniswap.Ledger.Account.{at_key, released, key_locked-release, release_open}
use omniswap.Gate.{
  CreditGate, CreditReservation, returned, panicked, Call, Admission, no_op, admit_off, admit_fault,
  recover_gate_fault, record_gate_fault, contain_admit, guarded_resolve, release_rsv, resolve_hold,
}
use omniswap.Gate.Decision.{account, account_of}

-- Whatever a guarded admission does, if it returns then its reservation and decision are passed on
-- and no fault is counted; if it panics then the fault is counted, and the request is denied, or
-- served without a hold where the gate is set to fail open.
pub contain_admit_lem :
    (fn : Call Admission) (g : CreditGate)
    → let run = fn g (none, admit_off) in
      let out = contain_admit fn g in
      ((run.2 ≡ returned) × (out.0 ≡ run.0) × (out.1 ≡ run.1))
      ⊎ ((run.2 ≡ panicked)
          × (out.0 ≡ record run.0 { gate_panics = add64 run.0.gate_panics (pos 1) })
          × (out.1 ≡ (if run.0.fail_open then (some no_op, admit_off) else (none, admit_fault))))
unfolding contain_admit recover_gate_fault record_gate_fault
contain_admit_lem fn g = ground arith

-- Whatever a guarded resolution of a reservation that has a gate does, `guardedResolve` returns. If
-- it returns too then its effect is passed on, and if it panics then at least one fault is counted.
pub guarded_resolve_returns :
    (fn : Call CreditReservation) (g : CreditGate) (rsv : CreditReservation)
    → rsv.gated ≡ true
    → let run = fn g rsv in
      let out = guarded_resolve fn g (some rsv) in
      (out.2 ≡ returned)
      × (((run.2 ≡ returned) × (out.0 ≡ run.0) × (out.1 ≡ some run.1))
          ⊎ ((run.2 ≡ panicked)
              × ((out.0.gate_panics ≡ add64 run.0.gate_panics (pos 1))
                  ⊎ (out.0.gate_panics ≡ add64 (add64 run.0.gate_panics (pos 1)) (pos 1)))))
unfolding guarded_resolve recover_gate_fault record_gate_fault release_rsv resolve_hold
guarded_resolve_returns fn g rsv h = ground arith

guarded_resolve-panicked :
    (fn : Call CreditReservation) (g : CreditGate) (rsv : CreditReservation)
    → rsv.gated ≡ true
    → (fn g rsv).2 ≡ panicked
    → let again = recover_gate_fault release_rsv (record_gate_fault (fn g rsv).0) (fn g rsv).1 in
      guarded_resolve fn g (some rsv) ≡ (again.0, some again.1, returned)
unfolding guarded_resolve recover_gate_fault
guarded_resolve-panicked fn g rsv hg hp = ground arith

compensating_release :
    (g : CreditGate) (rsv : CreditReservation) {hold : Reservation} {l : CreditLedger}
    → rsv.inner ≡ some hold
    → g.ledger ≡ some l
    → recover_gate_fault release_rsv g rsv ≡ (
      record g { ledger = some (release hold l).0 },
      record rsv { inner = some (release hold l).1 },
      false,
      false,
    )
unfolding recover_gate_fault release_rsv resolve_hold
compensating_release g rsv hi hl = ground arith

-- If a guarded resolution panics and leaves the reservation with an open hold and the gate with a
-- ledger, then the boundary closes that hold and takes it off the reserved sum of its key; no other
-- account changes, and one fault is counted.
pub guarded_resolve_releases :
    (fn : Call CreditReservation) (g : CreditGate) (rsv : CreditReservation) {hold : Reservation}
    {l : CreditLedger} (j : String)
    → rsv.gated ≡ true
    → (fn g rsv).2 ≡ panicked
    → (fn g rsv).1.inner ≡ some hold
    → hold.done ≡ false
    → (fn g rsv).0.ledger ≡ some l
    → let run = fn g rsv in
      let out = guarded_resolve fn g (some rsv) in
      (out.1 ≡ some (record run.1 { inner = some (record hold { done = true }) }))
      × (out.0.gate_panics ≡ add64 run.0.gate_panics (pos 1))
      × (account j out.0 ≡ at_key hold.key j (released hold.cost) (account j run.0))
unfolding account record_gate_fault
guarded_resolve_releases fn g rsv {hold} {l} j hg hp hi hd hl =
    rw
      (
        guarded_resolve-panicked fn g rsv hg hp,
        compensating_release (record_gate_fault (fn g rsv).0) (fn g rsv).1 {hold = hold} {l = l} hi
            hl,
        account_of j (fn g rsv).0 hl,
        release_open hold l hd,
      )
      (refl, refl, key_locked-release j hold l hd)
