-- ===== src/Gate/Decision.antt =====
-- `admit` of proxy/credit_gate.go: the decision in each case, and what it does to the accounts.
use omniswap.Prelude.{
  String, true, false, Option, none, some, ◌≡◌, refl, arith, ◌⊎◌, inl, inr, Bool-cases,
  if◌then◌else◌,
}
use omniswap.Prelude.Keys.{string_eq}
use omniswap.Prelude.Int.{ℤ, ◌≤ℤ◌, ◌<ℤ◌, ltb_ℤ}
use omniswap.Pricing.{reserve_cost}
use omniswap.Ledger.{KeyCredit, CreditLedger, key_locked, zero_account, available, reserve}
use omniswap.Ledger.Account.{at_key, reserved_by, at_least_zero, reserve_denied, reserve_granted}
use omniswap.Gate.{
  CreditGate, CreditReservation, no_op, admit, admit_off, admit_ok, admit_unpriced,
  admit_insufficient,
}

-- The account of a key in the gate's ledger.
unfoldable pub account : String → CreditGate → KeyCredit
account key g = elim g.ledger [ none ↦ zero_account | some l ↦ key_locked key l ]

pub account_of :
    (j : String) (g : CreditGate) {l : CreditLedger}
    → g.ledger ≡ some l
    → account j g ≡ key_locked j l
unfolding account
account_of j g h = rw h refl

-- What the gate can price a request at: nothing without a price book, a ledger or a price.
abbrev pub quote : CreditGate → String → ℤ → ℤ → Option (CreditLedger × ℤ)
quote g model p m = elim g.prices [
  | none ↦ none
  | some prices ↦ elim g.ledger [
    | none ↦ none
    | some l ↦ elim (reserve_cost prices model p m) [ none ↦ none | some c ↦ some (l, c) ]
  ]
]

-- The reservation for a cost that is granted.
abbrev pub granted : String → String → ℤ → CreditReservation
granted key model c = record {
  gated = true;
  inner = some (record { key = key; cost = at_least_zero c; done = false });
  model = model;
  reserved_cost = c;
}

-- What a gate that enforces prices a request at.
abbrev pub metered_quote : CreditGate → String → ℤ → ℤ → Option (CreditLedger × ℤ)
metered_quote g model p m = if g.enforce then quote g model p m else none

-- A request that is not priced, because the gate does not enforce or cannot price it, leaves the
-- gate, its ledger included, as it is. It is served without a hold if the gate does not enforce, and
-- denied if it does.
pub admit_without_price :
    (g : CreditGate) (key model : String) (p m : ℤ)
    → metered_quote g model p m ≡ none
    → admit key model p m g
      ≡ (if g.enforce then (g, none, admit_unpriced) else (g, some no_op, admit_off))
unfolding admit
admit_without_price g key model p m h = ground arith

-- The gate with the ledger that `Reserve` leaves.
abbrev pub charged : CreditGate → String → ℤ → CreditLedger → CreditGate
charged g key c l = record g { ledger = some (reserve key c l).0 }

pub quoted_ledger :
    (g : CreditGate) (model : String) (p m : ℤ) {l : CreditLedger} {c : ℤ}
    → quote g model p m ≡ some (l, c)
    → g.ledger ≡ some l
quoted_ledger g model p m q = ground arith

admit_denied :
    (g : CreditGate) (key model : String) (p m : ℤ) {l : CreditLedger} {c : ℤ}
    → g.enforce ≡ true
    → quote g model p m ≡ some (l, c)
    → (reserve key c l).1 ≡ none
    → admit key model p m g ≡ (charged g key c l, none, admit_insufficient)
unfolding admit
admit_denied g key model p m h q r = ground arith

pub admit_on_grant :
    (g : CreditGate) (key model : String) (p m : ℤ) {l : CreditLedger} {c : ℤ}
    → g.enforce ≡ true
    → quote g model p m ≡ some (l, c)
    → (reserve key c l).1 ≡ some (record { key = key; cost = at_least_zero c; done = false })
    → admit key model p m g ≡ (charged g key c l, some (granted key model c), admit_ok)
unfolding admit
admit_on_grant g key model p m h q r = ground arith

-- A request that an enforcing gate prices at `c` is admitted exactly if the available balance of
-- its key covers `c`, taken as 0 if negative. Then it gets a hold of that amount, its key's
-- reserved sum grows by it, and no other account changes. Otherwise it is denied without a hold,
-- and no account changes.
pub admit_lem :
    (g : CreditGate) (key model : String) (p m : ℤ) {l : CreditLedger} {c : ℤ}
    → g.enforce ≡ true
    → quote g model p m ≡ some (l, c)
    → let out = admit key model p m g in
      ((at_least_zero c ≤ℤ available (account key g))
        × (out.1 ≡ some (granted key model c))
        × (out.2 ≡ admit_ok)
        × ((j : String)
            → account j out.0 ≡ at_key key j (reserved_by (at_least_zero c)) (account j g)))
      ⊎ ((available (account key g) <ℤ at_least_zero c)
          × (out.1 ≡ none)
          × (out.2 ≡ admit_insufficient)
          × ((j : String) → account j out.0 ≡ account j g))
unfolding account
admit_lem g key model p m {l} {c} h q =
    let found = account_of key g (quoted_ledger g model p m q) in
    elim (Bool-cases (ltb_ℤ (available (key_locked key l)) (at_least_zero c))) [
      | inl low ↦
          let denied = reserve_denied key key c l low in
          rw (admit_denied g key model p m h q denied.0) (
            inr (
              ground (arith, found),
              refl,
              refl,
              λ j.
                  rw (account_of j g (quoted_ledger g model p m q))
                    (reserve_denied key j c l low).1,
            ))
      | inr enough ↦
          let grant = reserve_granted key key c l enough in
          rw (admit_on_grant g key model p m h q grant.0) (
            inl (
              ground (arith, found),
              refl,
              refl,
              λ j.
                  rw (account_of j g (quoted_ledger g model p m q))
                    (reserve_granted key j c l enough).1,
            ))
    ]
