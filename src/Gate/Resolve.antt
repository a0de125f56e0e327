-- ===== src/Gate/Resolve.antt =====
-- `resolveReservation` of proxy/credit_gate_wiring.go: what a request is billed, and that its hold is
-- resolved once.
use omniswap.Prelude.{
  String, true, false, Option, none, some, ◌≡◌, refl, arith, if◌then◌else◌, ◌&&◌,
}
use omniswap.Prelude.Keys.{string_eq}
use omniswap.Prelude.Int.{ℤ, pos, leb_ℤ, eqb_ℤ, ltb_ℤ}
use omniswap.Pricing.{PriceBook, actual_cost}
use omniswap.Ledger.{KeyCredit, CreditLedger, Reservation, key_locked, release}
use omniswap.Ledger.Account.{
  at_key, released, trued_up, key_locked-release, key_locked-true_up, release_open, true_up_open,
}
use omniswap.Gate.{
  CreditGate, CreditReservation, returned, resolve_hold, true_up_hold, true_up_rsv,
  true_up_reserved, release_rsv, record_clamp, record_pricing_fail,
}
use omniswap.Gate.Wiring.{CreditCapture, status_ok, resolve_reservation}
use omniswap.Gate.Decision.{account, account_of}

-- The bill of an outcome, before it is clamped to the hold; `none` is a refund.
abbrev pub bill : PriceBook → CreditReservation → Option CreditCapture → Option ℤ
bill prices rsv none = none
bill prices rsv (some cap) =
    if eqb_ℤ cap.status status_ok
    then if leb_ℤ cap.input (pos 0) && leb_ℤ cap.output (pos 0)
      then some rsv.reserved_cost
      else elim (actual_cost prices rsv.model cap.input cap.output) [
        | none ↦ some (pos 0)
        | some actual ↦ some actual
      ]
    else none

-- What a bill does to the account that holds the amount `c`.
abbrev pub charge : ℤ → Option ℤ → KeyCredit → KeyCredit
charge c none k = released c k
charge c (some b) k = trued_up c b k

-- A hold that a method resolves, on the gate `g` or one that differs from it in a counter.
abbrev pub closed : Reservation → Reservation
closed hold = record hold { done = true }

abbrev resolving : Option ℤ → Reservation → CreditLedger → CreditLedger × Reservation
resolving none hold = release hold
resolving (some b) hold = true_up_hold hold b

-- The counters that a resolution touches.
abbrev noted : PriceBook → CreditReservation → Option CreditCapture → CreditGate → CreditGate
noted prices rsv none g = g
noted prices rsv (some cap) g =
    if eqb_ℤ cap.status status_ok
    then if leb_ℤ cap.input (pos 0) && leb_ℤ cap.output (pos 0)
      then g
      else elim (actual_cost prices rsv.model cap.input cap.output) [
        | none ↦ record_pricing_fail rsv.model g
        | some actual ↦ if ltb_ℤ rsv.reserved_cost actual then record_clamp rsv.model g else g
      ]
    else g

resolve_reservation_steps :
    (cap : Option CreditCapture) (g : CreditGate) (rsv : CreditReservation) {hold : Reservation}
    {prices : PriceBook}
    → rsv.gated ≡ true
    → rsv.inner ≡ some hold
    → g.prices ≡ some prices
    → resolve_reservation cap g rsv
      ≡ resolve_hold hold (resolving (bill prices rsv cap) hold) (noted prices rsv cap g) rsv
unfolding resolve_reservation release_rsv true_up_reserved true_up_rsv
resolve_reservation_steps none g rsv hg hi hp = ground arith
resolve_reservation_steps (some cap) g rsv hg hi hp = ground arith

ledger-noted :
    (prices : PriceBook) (rsv : CreditReservation) (cap : Option CreditCapture) (g : CreditGate)
    → (noted prices rsv cap g).ledger ≡ g.ledger
unfolding record_clamp record_pricing_fail
ledger-noted prices rsv none g = refl
ledger-noted prices rsv (some cap) g = ground arith

resolving_lem :
    (b : Option ℤ) (hold : Reservation) (l : CreditLedger) (j : String)
    → hold.done ≡ false
    → (key_locked j (resolving b hold l).0
        ≡ at_key hold.key j (charge hold.cost b) (key_locked j l))
      × ((resolving b hold l).1 ≡ closed hold)
resolving_lem none hold l j h = (key_locked-release j hold l h, release_open hold l h)
resolving_lem (some b) hold l j h = (key_locked-true_up j hold b l h, (true_up_open hold b l h).0)

resolve_hold_lem :
    (f : CreditLedger → CreditLedger × Reservation) (hold : Reservation) (g : CreditGate)
    (rsv : CreditReservation) {l : CreditLedger} (j : String)
    → g.ledger ≡ some l
    → let out = resolve_hold hold f g rsv in
      (out.2 ≡ returned)
      × (out.1 ≡ record rsv { inner = some (f l).1 })
      × (account j out.0 ≡ key_locked j (f l).0)
unfolding resolve_hold account
resolve_hold_lem f hold g rsv j h = rw h (refl, refl, refl)

-- On a gate with a price book and a ledger, resolving an open hold returns, closes the hold and
-- takes it off the reserved sum of its key. The bill goes to the pending sum, clamped to the hold:
-- none for a status other than 200 or no outcome at all, the reserved cost if no token was counted,
-- and otherwise the price of the counted tokens, or 0 if there is none. No other account changes.
pub resolve_reservation_lem :
    (cap : Option CreditCapture) (g : CreditGate) (rsv : CreditReservation) {hold : Reservation}
    {prices : PriceBook} {l : CreditLedger} (j : String)
    → rsv.gated ≡ true
    → rsv.inner ≡ some hold
    → hold.done ≡ false
    → g.prices ≡ some prices
    → g.ledger ≡ some l
    → let out = resolve_reservation cap g rsv in
      (out.2 ≡ returned)
      × (out.1 ≡ record rsv { inner = some (closed hold) })
      × (account j out.0 ≡ at_key hold.key j (charge hold.cost (bill prices rsv cap)) (account j g))
resolve_reservation_lem cap g rsv {hold} {prices} {l} j hg hi hd hp hl =
    let b = bill prices rsv cap in
    let one = resolving_lem b hold l j hd in
    let all =
      resolve_hold_lem (resolving b hold) hold (noted prices rsv cap g) rsv {l = l} j
        (rw (ledger-noted prices rsv cap g) hl) in
    rw
      (
        resolve_reservation_steps cap g rsv {hold = hold} {prices = prices} hg hi hp,
        account_of j g hl,
        all.2,
        all.1,
        all.0,
        one.0,
        one.1,
      )
      (refl, refl, refl)
