-- ===== src/Gate/Tests.antt =====
-- The gate on concrete requests, and its theorems at inputs that meet their hypotheses.
use omniswap.Prelude.{true, false, some, [], ◌∷◌, ◌≡◌, refl}
use omniswap.Prelude.Keys.{string_eq}
use omniswap.Prelude.Int.{pos, ◌+ℤ◌, ◌-ℤ◌, ◌*ℤ◌}
use omniswap.Prelude.Word.{int64, add64}
use omniswap.Pricing.{PriceBook, reserve_cost, actual_cost, completion_upper, price, ceil_div}
use omniswap.Ledger.{
  CreditLedger, Reservation, key_locked, available, reserve, put, set_allowance, renew,
  new_credit_ledger,
}
use omniswap.Ledger.Account.{at_key, released}
use omniswap.Gate.{
  CreditGate, CreditReservation, Call, Admission, returned, panicked, new_credit_gate,
  guarded_resolve, resolve_hold, true_up_rsv,
}
use omniswap.Gate.Wiring.{CreditCapture, resolve_reservation}
use omniswap.Gate.Decision.{account, quote, granted, charged}
use omniswap.Gate.Resolve.{bill}
use omniswap.Gate.Once.{release_call, resolve_call, resolution, resolve_all, resolved_once}
use omniswap.Gate.Contain.{guarded_resolve_releases}

abbrev book : PriceBook
book = record {
  rates =
      (
        "opus",
        record { input_per_1k = pos 1000; output_per_1k = pos 2000; max_output_tokens = pos 50 },
      )
      ∷ [];
}

ledger : CreditLedger
unfolding set_allowance renew put key_locked new_credit_ledger
ledger = set_allowance "alice" (pos 200) 0 1 new_credit_ledger

gate : CreditGate
unfolding new_credit_gate
gate = new_credit_gate true (some ledger) (some book)

off_gate : CreditGate
unfolding new_credit_gate
off_gate = new_credit_gate false (some ledger) (some book)

-- Ten prompt tokens and a cap of twenty: 10 + 40 credits.
quoted : quote gate "opus" (pos 10) (pos 20) ≡ some (ledger, pos 50)
unfolding gate reserve_cost price completion_upper ceil_div int64 ◌+ℤ◌ ◌-ℤ◌ ◌*ℤ◌
quoted = refl

-- The gate while the request runs.
serving : CreditGate
unfolding gate ledger reserve key_locked available put int64 ◌+ℤ◌ ◌-ℤ◌
serving = charged gate "alice" (pos 50) ledger

abbrev hold : Reservation
hold = record { key = "alice"; cost = pos 50; done = false }

abbrev rsv : CreditReservation
rsv = granted "alice" "opus" (pos 50)

-- Ten prompt tokens and five completion tokens.
abbrev cap : CreditCapture
cap = record { status = pos 200; input = pos 10; output = pos 5 }

serving_ledger : CreditLedger
unfolding gate ledger reserve key_locked available put int64 ◌+ℤ◌ ◌-ℤ◌
serving_ledger = (reserve "alice" (pos 50) ledger).0

billed_test : bill book rsv (some cap) ≡ some (pos 20)
unfolding actual_cost price ceil_div int64 ◌+ℤ◌ ◌-ℤ◌ ◌*ℤ◌
billed_test = refl

resolves : (resolution (resolve_call (some cap)) serving rsv).2 ≡ returned
unfolding serving resolution resolve_reservation true_up_rsv resolve_hold actual_cost price ceil_div
    ◌*ℤ◌
resolves = refl

resolved_once_example :
    (resolve_all (resolve_call (some cap) ∷ release_call ∷ []) serving rsv).0.ledger
    ≡ (resolution (resolve_call (some cap)) serving rsv).0.ledger
unfolding serving
resolved_once_example =
    resolved_once (resolve_call (some cap)) (release_call ∷ []) serving rsv resolves

-- An admission that panics, and a resolution that panics before it reaches the ledger.
abbrev broken_admit : Call Admission
broken_admit g t = (g, t, panicked)

abbrev broken_resolve : Call CreditReservation
broken_resolve g r = (g, r, panicked)

guarded_resolve_releases_example :
    let run = broken_resolve serving rsv in
    let out = guarded_resolve broken_resolve serving (some rsv) in
    (out.1 ≡ some (record run.1 { inner = some (record hold { done = true }) }))
    × (out.0.gate_panics ≡ add64 run.0.gate_panics (pos 1))
    × (account "alice" out.0 ≡ at_key "alice" "alice" (released (pos 50)) (account "alice" run.0))
unfolding serving serving_ledger
guarded_resolve_releases_example =
    guarded_resolve_releases broken_resolve serving rsv {hold = hold} {l = serving_ledger} "alice"
      refl refl refl refl refl
