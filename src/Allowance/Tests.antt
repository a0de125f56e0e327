-- ===== src/Allowance/Tests.antt =====
-- Pushes on concrete inputs, and the theorems at inputs that meet their hypotheses.
use omniswap.Prelude.{
  ℕ, ◌≤◌, ◌<◌, false, Option, none, some, List, [], ◌∷◌, ◌≡◌, ◌↔◌, refl, arith, ◌⊎◌, inl, inr, All,
}
use omniswap.Prelude.Keys.{string_eq}
use omniswap.Prelude.Int.{pos}
use omniswap.Ledger.{key_locked, new_credit_ledger, set_allowance, put, renew}
use omniswap.Allowance.{
  AllowanceEntry, AllowanceSnapshot, AllowanceIngester, contains, check_entries,
  parse_allowance_snapshot, new_allowance_ingester, set_allowances, apply, duplicate_key,
}
use omniswap.Allowance.Parse.{IsValid, IsDistinct, parse_allowance_snapshot_lem}
use omniswap.Allowance.Apply.{IsBehind, entry_for, apply_sets_balances}

abbrev alice : AllowanceEntry
alice = record { key_fingerprint = "alice"; balance = pos 100; watermark = 3 }

abbrev bob : AllowanceEntry
bob = record { key_fingerprint = "bob"; balance = pos 7; watermark = 0 }

abbrev pushed : AllowanceSnapshot
pushed = record { ver = 4; ts_unix = pos 1000; allowances = alice ∷ bob ∷ [] }

-- A decoder of pushes: one byte is the snapshot, more are one with an entry twice.
abbrev decode : List ℕ → Option AllowanceSnapshot
decode [] = none
decode (b ∷ []) = some pushed
decode (b ∷ c ∷ bs) =
    some (record { ver = 5; ts_unix = pos 1000; allowances = alice ∷ bob ∷ alice ∷ [] })

duplicate_test : parse_allowance_snapshot decode (1 ∷ 2 ∷ []) ≡ inl (duplicate_key 2)
unfolding parse_allowance_snapshot check_entries contains
duplicate_test = refl

abbrev ingester : AllowanceIngester
unfolding new_allowance_ingester
ingester = new_allowance_ingester new_credit_ledger

alice_test : (key_locked "alice" (apply decode (1 ∷ []) ingester).0.ledger).allowance ≡ pos 100
unfolding apply parse_allowance_snapshot check_entries contains set_allowances set_allowance
    key_locked put renew new_credit_ledger new_allowance_ingester
alice_test = refl

parse_allowance_snapshot_lem_example : (parse_allowance_snapshot decode (1 ∷ []) ≡ inr pushed) ↔ (
    (decode (1 ∷ []) ≡ some pushed)
    × (0 < pushed.ver)
    × All IsValid pushed.allowances
    × IsDistinct pushed.allowances)
parse_allowance_snapshot_lem_example = parse_allowance_snapshot_lem decode (1 ∷ []) pushed

ingester-IsBehind : IsBehind ingester
unfolding key_locked new_credit_ledger new_allowance_ingester
ingester-IsBehind j = omega arith

apply_sets_balances_example :
    let out = apply decode (1 ∷ []) ingester in
    (ingester.last_ver ≤ out.0.last_ver)
    × ((key_locked "bob" out.0.ledger).allowance_ver ≤ out.0.last_ver)
    × ((out.1 ≡ false) × (key_locked "bob" out.0.ledger ≡ key_locked "bob" ingester.ledger)
        ⊎ ((s : AllowanceSnapshot) × (parse_allowance_snapshot decode (1 ∷ []) ≡ inr s)
            × ((key_locked "bob" out.0.ledger).allowance ≡ elim (entry_for "bob" s.allowances) [
              | none ↦ (key_locked "bob" ingester.ledger).allowance
              | some e ↦ e.balance
            ])))
apply_sets_balances_example = apply_sets_balances decode (1 ∷ []) ingester "bob" ingester-IsBehind
