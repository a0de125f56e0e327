-- ===== src/Ledger/Induction.antt =====
-- Induction over sequences of calls: a predicate of an account that each method keeps holds of
-- every account after any calls.
use omniswap.Prelude.{ℕ, String, List, [], ◌∷◌, inl, inr, Bool-cases, Option-cases, get_elem?}
use omniswap.Prelude.Keys.{string_eq, ◌==◌}
use omniswap.Prelude.Int.{ℤ, ltb_ℤ}
use omniswap.Ledger.{KeyCredit, key_locked, available, renew}
use omniswap.Ledger.Account.{
  at_key, reserved_by, released, trued_up, confirmed_with, at_least_zero, reserve_denied,
  reserve_granted, key_locked-release, key_locked-true_up, key_locked-confirm,
  key_locked-set_allowance, release_done, true_up_done,
}
use omniswap.Ledger.World.{
  World, Op, reserve_op, release_op, true_up_op, confirm_op, set_allowance_op, step, run,
}

module _ (P : KeyCredit → Type 0) (reserving : (c : ℤ) (k : KeyCredit) → P k → P (reserved_by c k))
    (releasing : (c : ℤ) (k : KeyCredit) → P k → P (released c k))
    (truing_up : (c a : ℤ) (k : KeyCredit) → P k → P (trued_up c a k))
    (confirming : (cost : ℤ) (seq : ℕ) (k : KeyCredit) → P k → P (confirmed_with cost seq k))
    (renewing : (balance : ℤ) (watermark ver : ℕ) (k : KeyCredit)
      → P k
      → P (renew balance watermark ver k)) where
  at_key-keeps :
      (key j : String) (f : KeyCredit → KeyCredit) (k : KeyCredit)
      → (P k → P (f k))
      → P k
      → P (at_key key j f k)
  at_key-keeps key j f k keep h = elim (Bool-cases (key == j)) [
    | inl e ↦ rw e (keep h)
    | inr e ↦ rw e h
  ]

  step_keeps :
      (j : String) (op : Op) (w : World)
      → P (key_locked j w.ledger)
      → P (key_locked j (step op w).ledger)
  unfolding step
  step_keeps j (reserve_op key cost) w h =
      elim (Bool-cases (ltb_ℤ (available (key_locked key w.ledger)) (at_least_zero cost))) [
        | inl short ↦ rw (reserve_denied key j cost w.ledger short).1 h
        | inr enough ↦
            rw (reserve_granted key j cost w.ledger enough).1
              (at_key-keeps key j (reserved_by (at_least_zero cost)) _ (reserving _ _) h)
      ]
  step_keeps j (release_op i) w h = elim (Option-cases (get_elem? w.holds i)) [
    | inl absent ↦ rw absent h
    | inr (r, found) ↦ elim (Bool-cases r.done) [
      | inl resolved ↦ rw (found, release_done r w.ledger resolved) h
      | inr unresolved ↦
          rw (found, key_locked-release j r w.ledger unresolved)
            (at_key-keeps r.key j (released r.cost) _ (releasing r.cost _) h)
    ]
  ]
  step_keeps j (true_up_op i a) w h = elim (Option-cases (get_elem? w.holds i)) [
    | inl absent ↦ rw absent h
    | inr (r, found) ↦ elim (Bool-cases r.done) [
      | inl resolved ↦ rw (found, true_up_done r a w.ledger resolved) h
      | inr unresolved ↦
          rw (found, key_locked-true_up j r a w.ledger unresolved)
            (at_key-keeps r.key j (trued_up r.cost a) _ (truing_up r.cost a _) h)
    ]
  ]
  step_keeps j (confirm_op key cost seq) w h =
      rw (key_locked-confirm j key cost seq w.ledger)
        (at_key-keeps key j (confirmed_with cost seq) _ (confirming cost seq _) h)
  step_keeps j (set_allowance_op key balance watermark ver) w h =
      rw (key_locked-set_allowance j key balance watermark ver w.ledger)
        (at_key-keeps key j (renew balance watermark ver) _ (renewing balance watermark ver _) h)

  pub run_keeps :
      (j : String) (ops : List Op) (w : World)
      → P (key_locked j w.ledger)
      → P (key_locked j (run ops w).ledger)
  unfolding run
  run_keeps j [] w h = h
  run_keeps j (op ∷ ops) w h = run_keeps j ops (step op w) (step_keeps j op w h)
