-- ===== src/Gate/Once.antt =====
-- The `done` latch through the gate: every way to resolve a reservation, in any order.
use omniswap.Prelude.{
  String, Bool, true, false, Option, none, some, List, [], ◌∷◌, ◌≡◌, refl, arith, inl, inr, ◌∙◌,
  if◌then◌else◌, Bool-cases, Option-cases, ◌&&◌,
}
use omniswap.Prelude.Int.{ℤ, pos, ltb_ℤ, leb_ℤ, eqb_ℤ}
use omniswap.Pricing.{actual_cost}
use omniswap.Ledger.{CreditLedger, Reservation, release}
use omniswap.Ledger.Account.{release_done, true_up_done, release_open, true_up_open}
use omniswap.Gate.{
  CreditGate, CreditReservation, Outcome, returned, panicked, Call, resolve_hold, true_up_hold,
  true_up_rsv, true_up_reserved, release_rsv, record_clamp, record_pricing_fail,
}
use omniswap.Gate.Wiring.{CreditCapture, status_ok, resolve_reservation}

-- A call that resolves a reservation.
pub data Resolution : Type 0 where
  release_call true_up_reserved_call : Resolution
  true_up_call : ℤ → ℤ → Resolution
  resolve_call : Option CreditCapture → Resolution

unfoldable pub resolution : Resolution → Call CreditReservation
resolution release_call = release_rsv
resolution true_up_reserved_call = true_up_reserved
resolution (true_up_call prompt completion) = true_up_rsv prompt completion
resolution (resolve_call cap) = resolve_reservation cap

-- One call after the other, whether or not one panics: the boundary contains it.
unfoldable pub resolve_all :
    List Resolution → CreditGate → CreditReservation → CreditGate × CreditReservation
resolve_all [] g rsv = (g, rsv)
resolve_all (r ∷ rs) g rsv = let out = resolution r g rsv in resolve_all rs out.0 out.1

-- Nothing is left to resolve: there is no hold, or it is done.
abbrev pub is_resolved : CreditReservation → Bool
is_resolved rsv = elim rsv.inner [ none ↦ true | some hold ↦ hold.done ]

-- A method of the hold that does nothing to a resolved one, and resolves an open one.
record Latched (f : Reservation → CreditLedger → CreditLedger × Reservation) : Type 0 where
  keeps : (hold : Reservation) (l : CreditLedger) → hold.done ≡ true → f hold l ≡ (l, hold)
  closes : (hold : Reservation) (l : CreditLedger) → (f hold l).1.done ≡ true

release-Latched : Latched release
release-Latched = record {
  keeps = release_done;
  closes = λ hold l. elim (Bool-cases hold.done) [
    | inl e ↦ rw (release_done hold l e) e
    | inr e ↦ rw (release_open hold l e) refl
  ];
}

true_up_hold-Latched : (actual : ℤ) → Latched (λ hold. true_up_hold hold actual)
true_up_hold-Latched actual = record {
  keeps = λ hold l e. rw (true_up_done hold actual l e) refl;
  closes = λ hold l. elim (Bool-cases hold.done) [
    | inl e ↦ rw (true_up_done hold actual l e) e
    | inr e ↦ rw ((true_up_open hold actual l e).0) refl
  ];
}

-- What holds of a call's result, whichever hold and counters it runs on.
abbrev Outcomes : CreditGate → CreditReservation → CreditGate × CreditReservation × Outcome → Type 0
Outcomes g rsv out =
    (is_resolved rsv ≡ true → (out.0.ledger ≡ g.ledger) × (is_resolved out.1 ≡ true))
    × (out.2 ≡ returned → is_resolved out.1 ≡ true)

inner_done :
    (rsv : CreditReservation) {hold : Reservation}
    → rsv.inner ≡ some hold
    → is_resolved rsv ≡ true
    → hold.done ≡ true
inner_done rsv hi h = ground arith

resolve_hold-Outcomes :
    (f : Reservation → CreditLedger → CreditLedger × Reservation) (hold : Reservation)
    (g g' : CreditGate) (rsv : CreditReservation)
    → Latched f
    → rsv.inner ≡ some hold
    → g'.ledger ≡ g.ledger
    → Outcomes g rsv (resolve_hold hold (f hold) g' rsv)
unfolding resolve_hold
resolve_hold-Outcomes f hold g g' rsv lf hi hl = elim (Option-cases g'.ledger) [
  | inl no_ledger ↦ rw no_ledger (λ e. (cc, e), λ e. absurd (cc))
  | inr (l, e) ↦
      rw e
        (λ r. (cc (lf.keeps hold l (inner_done rsv hi r)), lf.closes hold l), λ r. lf.closes hold l)
]

empty-Outcomes :
    (g : CreditGate) (rsv : CreditReservation)
    → rsv.inner ≡ none
    → Outcomes g rsv (g, rsv, returned)
empty-Outcomes g rsv h = (λ e. (refl, e), λ e. rw h refl)

release-Outcomes : (g : CreditGate) (rsv : CreditReservation) → Outcomes g rsv (release_rsv g rsv)
unfolding release_rsv
release-Outcomes g rsv = elim (Option-cases rsv.inner) [
  | inl empty ↦ rw empty (empty-Outcomes g (record rsv { inner = none }) refl)
  | inr (hold, e) ↦ rw e (
      resolve_hold-Outcomes release hold g g (record rsv { inner = some hold }) release-Latched refl
        refl)
]

true_up_reserved-Outcomes :
    (g : CreditGate) (rsv : CreditReservation) → Outcomes g rsv (true_up_reserved g rsv)
unfolding true_up_reserved
true_up_reserved-Outcomes g rsv = elim (Option-cases rsv.inner) [
  | inl empty ↦ rw empty (empty-Outcomes g (record rsv { inner = none }) refl)
  | inr (hold, e) ↦ rw e (
      resolve_hold-Outcomes (λ h. true_up_hold h rsv.reserved_cost) hold g g
        (record rsv { inner = some hold }) (true_up_hold-Latched rsv.reserved_cost) refl refl)
]

panicked-Outcomes : (g : CreditGate) (rsv : CreditReservation) → Outcomes g rsv (g, rsv, panicked)
panicked-Outcomes g rsv = (λ e. (refl, e), λ e. absurd (cc))

clamp_noted :
    (b : Bool) (model : String) (g : CreditGate)
    → (if b then record_clamp model g else g).ledger ≡ g.ledger
unfolding record_clamp
clamp_noted true model g = refl
clamp_noted false model g = refl

true_up-Outcomes :
    (prompt completion : ℤ) (g : CreditGate) (rsv : CreditReservation)
    → Outcomes g rsv (true_up_rsv prompt completion g rsv)
unfolding true_up_rsv record_clamp record_pricing_fail
true_up-Outcomes p c g rsv = elim (Option-cases rsv.inner) [
  | inl empty ↦ rw empty (empty-Outcomes g (record rsv { inner = none }) refl)
  | inr (hold, e) ↦
      let r = record rsv { inner = some hold } in
      rw e (elim (Bool-cases rsv.gated) [
        | inr free ↦ rw free (panicked-Outcomes g (record r { gated = false }))
        | inl gated ↦ elim (Option-cases g.prices) [
          | inl unset ↦
              rw (gated, unset)
                (panicked-Outcomes (record g { prices = none }) (record r { gated = true }))
          | inr (prices, priced) ↦ elim (Option-cases (actual_cost prices rsv.model p c)) [
            | inl unpriced ↦
                rw (gated, priced, unpriced)
                  (resolve_hold-Outcomes (λ h. true_up_hold h (pos 0)) hold g
                    (record_pricing_fail rsv.model g) r (true_up_hold-Latched (pos 0)) refl refl)
            | inr (actual, billed) ↦
                rw (gated, priced, billed)
                  (resolve_hold-Outcomes (λ h. true_up_hold h actual) hold g _ r
                    (true_up_hold-Latched actual) refl
                    (clamp_noted (ltb_ℤ rsv.reserved_cost actual) rsv.model g))
          ]
        ]
      ])
]

resolution-Outcomes :
    (r : Resolution) (g : CreditGate) (rsv : CreditReservation)
    → Outcomes g rsv (resolution r g rsv)
unfolding resolution resolve_reservation
resolution-Outcomes release_call g rsv = release-Outcomes g rsv
resolution-Outcomes true_up_reserved_call g rsv = true_up_reserved-Outcomes g rsv
resolution-Outcomes (true_up_call p c) g rsv = true_up-Outcomes p c g rsv
resolution-Outcomes (resolve_call none) g rsv = release-Outcomes g rsv
resolution-Outcomes (resolve_call (some cap)) g rsv =
    elim (Bool-cases (eqb_ℤ cap.status status_ok)) [
      | inr failed ↦ rw failed (release-Outcomes g rsv)
      | inl ok ↦ elim (Bool-cases (leb_ℤ cap.input (pos 0) && leb_ℤ cap.output (pos 0))) [
        | inl unused ↦ rw (ok, unused) (true_up_reserved-Outcomes g rsv)
        | inr used ↦ rw (ok, used) (true_up-Outcomes cap.input cap.output g rsv)
      ]
    ]

resolve_all-idle :
    (rs : List Resolution) (g : CreditGate) (rsv : CreditReservation)
    → is_resolved rsv ≡ true
    → (resolve_all rs g rsv).0.ledger ≡ g.ledger
unfolding resolve_all
resolve_all-idle [] g rsv h = refl
resolve_all-idle (r ∷ rs) g rsv h =
    let idle = (resolution-Outcomes r g rsv).0 h in
    resolve_all-idle rs (resolution r g rsv).0 (resolution r g rsv).1 idle.1 ∙ idle.0

-- Once a call that resolves a reservation has returned, no further such calls, of whatever kind,
-- number and order, change the ledger: a request is billed or refunded once.
pub resolved_once :
    (r : Resolution) (rs : List Resolution) (g : CreditGate) (rsv : CreditReservation)
    → (resolution r g rsv).2 ≡ returned
    → (resolve_all (r ∷ rs) g rsv).0.ledger ≡ (resolution r g rsv).0.ledger
unfolding resolve_all
resolved_once r rs g rsv h =
    resolve_all-idle rs (resolution r g rsv).0 (resolution r g rsv).1
      ((resolution-Outcomes r g rsv).1 h)
