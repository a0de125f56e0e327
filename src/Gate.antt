-- ===== src/Gate.antt =====
-- The prepaid-credit gate (proxy/credit_gate.go): pricing and a hold on admission, one resolution
-- of the hold on exit, and the boundary that contains a panic. The gate carries the ledger that it
-- shares with the allowance ingester, so a method returns the gate it leaves. A call that may panic
-- returns an `Outcome`: the state it leaves behind counts in both cases. Log lines are left out.
pub mod Wiring
pub mod Decision
pub mod Resolve
pub mod Once
pub mod Contain
pub mod Request
mod Tests
use omniswap.Prelude.{String, Bool, true, false, not, Option, none, some, [], if◌then◌else◌, ◌||◌}
use omniswap.Prelude.Keys.{string_eq}
use omniswap.Prelude.Dict.{Dict, lookup, insert}
use omniswap.Prelude.Int.{ℤ, pos, ltb_ℤ}
use omniswap.Prelude.Word.{add64}
use omniswap.Pricing.{PriceBook, reserve_cost, actual_cost}
use omniswap.Ledger.{CreditLedger, Reservation, reserve, release, true_up}

pub record ModelAnomaly : Type 0 where
  pub clamps : ℤ
  pub pricing_fails : ℤ

-- `creditGate`; a nil price book or ledger is `none`. Only the ledger and the two counters change.
pub record CreditGate : Type 0 where
  pub enforce : Bool
  pub ledger : Option CreditLedger
  pub prices : Option PriceBook
  pub fail_open : Bool
  pub anomalies : Dict String ModelAnomaly
  pub gate_panics : ℤ

unfoldable pub new_credit_gate : Bool → Option CreditLedger → Option PriceBook → CreditGate
new_credit_gate enforce ledger prices = record {
  enforce = enforce;
  ledger = ledger;
  prices = prices;
  fail_open = false;
  anomalies = [];
  gate_panics = pos 0;
}

-- A nil gate never enforces.
abbrev pub enforcing : Option CreditGate → Bool
enforcing none = false
enforcing (some g) = g.enforce

pub data AdmitDecision : Type 0 where
  admit_off admit_ok admit_unpriced admit_insufficient admit_fault : AdmitDecision

abbrev pub served : AdmitDecision → Bool
served admit_off = true
served admit_ok = true
served admit_unpriced = false
served admit_insufficient = false
served admit_fault = false

-- `creditReservation`: whether it points to a gate, the hold in the ledger, and what was priced.
pub record CreditReservation : Type 0 where
  pub gated : Bool
  pub inner : Option Reservation
  pub model : String
  pub reserved_cost : ℤ

-- The empty reservation, `&creditReservation{}`.
abbrev pub no_op : CreditReservation
no_op = record { gated = false; inner = none; model = ""; reserved_cost = pos 0 }

unfoldable pub admit :
    String → String → ℤ → ℤ → CreditGate → CreditGate × Option CreditReservation × AdmitDecision
admit key model prompt_tokens requested_max g =
    if not (enforcing (some g)) then (g, some no_op, admit_off) else elim g.prices [
      | none ↦ (g, none, admit_unpriced)
      | some prices ↦ elim g.ledger [
        | none ↦ (g, none, admit_unpriced)
        | some l ↦ elim (reserve_cost prices model prompt_tokens requested_max) [
          | none ↦ (g, none, admit_unpriced)
          | some cost ↦
              let out = reserve key cost l in
              let g' = record g { ledger = some out.0 } in
              elim out.1 [
                | none ↦ (g', none, admit_insufficient)
                | some hold ↦ (
                  g',
                  some (record {
                    gated = true;
                    inner = some hold;
                    model = model;
                    reserved_cost = cost;
                  }),
                  admit_ok,
                )
              ]
        ]
      ]
    ]

-- How a call ends.
pub data Outcome : Type 0 where
  returned panicked : Outcome

-- A call that runs on the gate and on a value that it may change.
abbrev pub Call : Type 0 → Type 0
Call T = CreditGate → T → CreditGate × T × Outcome

-- `anomalyLocked`: the counters of a model, zero ones on first use.
unfoldable pub anomaly_locked : String → CreditGate → ModelAnomaly
anomaly_locked model g = elim (lookup model g.anomalies) [
  | none ↦ record { clamps = pos 0; pricing_fails = pos 0 }
  | some a ↦ a
]

unfoldable pub record_clamp : String → CreditGate → CreditGate
record_clamp model g =
    let a = anomaly_locked model g in
    record g { anomalies = insert model (record a { clamps = add64 a.clamps (pos 1) }) g.anomalies }

unfoldable pub record_pricing_fail : String → CreditGate → CreditGate
record_pricing_fail model g =
    let a = anomaly_locked model g in
    record g {
      anomalies =
          insert model (record a { pricing_fails = add64 a.pricing_fails (pos 1) }) g.anomalies;
    }

-- A method of the hold, run on the gate's ledger; without a ledger it dereferences nil.
unfoldable pub resolve_hold :
    Reservation → (CreditLedger → CreditLedger × Reservation) → Call CreditReservation
resolve_hold hold f g rsv = elim g.ledger [
  | none ↦ (g, rsv, panicked)
  | some l ↦ (record g { ledger = some (f l).0 }, record rsv { inner = some (f l).1 }, returned)
]

-- `rsv.inner.TrueUp`, whose result is not read.
abbrev pub true_up_hold : Reservation → ℤ → CreditLedger → CreditLedger × Reservation
true_up_hold hold actual l = ((true_up hold actual l).0, (true_up hold actual l).1)

-- `trueUp`, on a receiver that is not nil, as are the next two.
unfoldable pub true_up_rsv : ℤ → ℤ → Call CreditReservation
true_up_rsv prompt_tokens completion_tokens g rsv = elim rsv.inner [
  | none ↦ (g, rsv, returned)
  | some hold ↦ if not rsv.gated then (g, rsv, panicked) else elim g.prices [
    | none ↦ (g, rsv, panicked)
    | some prices ↦ elim (actual_cost prices rsv.model prompt_tokens completion_tokens) [
      | none ↦ resolve_hold hold (true_up_hold hold (pos 0)) (record_pricing_fail rsv.model g) rsv
      | some actual ↦
          resolve_hold hold (true_up_hold hold actual)
            (if ltb_ℤ rsv.reserved_cost actual then record_clamp rsv.model g else g) rsv
    ]
  ]
]

unfoldable pub release_rsv : Call CreditReservation
release_rsv g rsv = elim rsv.inner [
  | none ↦ (g, rsv, returned)
  | some hold ↦ resolve_hold hold (release hold) g rsv
]

unfoldable pub true_up_reserved : Call CreditReservation
true_up_reserved g rsv = elim rsv.inner [
  | none ↦ (g, rsv, returned)
  | some hold ↦ resolve_hold hold (true_up_hold hold rsv.reserved_cost) g rsv
]

unfoldable pub clamp_count : String → CreditGate → ℤ
clamp_count model g = elim (lookup model g.anomalies) [ none ↦ pos 0 | some a ↦ a.clamps ]

unfoldable pub pricing_fail_count : String → CreditGate → ℤ
pricing_fail_count model g = elim (lookup model g.anomalies) [
  | none ↦ pos 0
  | some a ↦ a.pricing_fails
]

unfoldable pub record_gate_fault : CreditGate → CreditGate
record_gate_fault g = record g { gate_panics = add64 g.gate_panics (pos 1) }

-- `recoverGateFault`: what `fn` leaves behind, whether it panicked, and the policy if it did.
unfoldable pub recover_gate_fault :
    {T : Type 0} → Call T → CreditGate → T → CreditGate × T × Bool × Bool
recover_gate_fault fn g t =
    let out = fn g t in
    elim out.2 [
      | returned ↦ (out.0, out.1, false, false)
      | panicked ↦ (record_gate_fault out.0, out.1, true, out.0.fail_open)
    ]

-- What `guardedAdmit` captures in its closure: the reservation and the decision, which start out as
-- zero values. The guarded call is a parameter here, since it may panic anywhere.
abbrev pub Admission : Type 0
Admission = Option CreditReservation × AdmitDecision

unfoldable pub contain_admit : Call Admission → CreditGate → CreditGate × Admission
contain_admit fn g =
    let out = recover_gate_fault fn g (none, admit_off) in
    if out.2
    then (out.0, (if out.3 then (some no_op, admit_off) else (none, admit_fault)))
    else (out.0, out.1)

-- The closure of `guardedAdmit`.
abbrev pub admitting : String → String → ℤ → ℤ → Call Admission
admitting key model prompt_tokens requested_max g t =
    let out = admit key model prompt_tokens requested_max g in (out.0, (out.1, out.2), returned)

unfoldable pub guarded_admit : String → String → ℤ → ℤ → CreditGate → CreditGate × Admission
guarded_admit key model prompt_tokens requested_max =
    contain_admit (admitting key model prompt_tokens requested_max)

-- `guardedResolve`: on a nil receiver nothing runs, and without a gate nothing is contained.
unfoldable pub guarded_resolve : Call CreditReservation → Call (Option CreditReservation)
guarded_resolve fn g none = (g, none, returned)
guarded_resolve fn g (some rsv) =
    if not rsv.gated
    then (let out = fn g rsv in (out.0, some out.1, out.2))
    else (let out = recover_gate_fault fn g rsv in
        let again = recover_gate_fault release_rsv out.0 out.1 in
        if out.2 then (again.0, some again.1, returned) else (out.0, some out.1, returned))
