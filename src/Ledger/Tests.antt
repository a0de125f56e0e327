-- ===== src/Ledger/Tests.antt =====
-- The ledger on concrete calls, and its theorems at inputs that meet their hypotheses.
use omniswap.Prelude.{List, [], ◌∷◌, ◌≡◌, refl, arith, ◌+◌}
use omniswap.Prelude.Keys.{string_eq}
use omniswap.Prelude.Int.{pos, pos_part, ◌≤ℤ◌, ◌+ℤ◌, ◌-ℤ◌}
use omniswap.Prelude.Word.{int64}
use omniswap.Ledger.{
  key_locked, available, reserve, renew, set_allowance, put, release, true_up, clamp, confirm,
  settle,
}
use omniswap.Ledger.World.{
  World, Op, reserve_op, release_op, true_up_op, confirm_op, set_allowance_op, step, run, fresh,
  open_holds,
}
use omniswap.Ledger.Holds.{reserved_is_open_holds}
use omniswap.Ledger.Confirmed.{
  IsConsistent, confirmed_sum_is_total, honest_snapshot_neutral, netted,
}
use omniswap.Ledger.Overspend.{
  IsSolvent, Serves, here, next, reserving, truing_up, confirming, confirming_other,
  never_overspends, held,
}

-- Two requests on one key: the first is billed 30 of its 40 credits and confirmed, the second is
-- released twice, a third is denied.
abbrev calls : List Op
calls =
    set_allowance_op "alice" (pos 100) 0 1
    ∷ reserve_op "alice" (pos 40)
    ∷ reserve_op "alice" (pos 60)
    ∷ reserve_op "alice" (pos 1)
    ∷ true_up_op 0 (pos 30)
    ∷ release_op 1
    ∷ release_op 1
    ∷ confirm_op "alice" (pos 30) 7
    ∷ confirm_op "alice" (pos 30) 7
    ∷ reserve_op "alice" (pos 70)
    ∷ []

after : World
unfolding run step fresh key_locked put available reserve release true_up clamp confirm settle
    set_allowance renew int64 ◌+ℤ◌ ◌-ℤ◌
after = run calls fresh

account_after : key_locked "alice" after.ledger ≡ record {
  allowance = pos 100;
  allowance_ver = 1;
  ack_watermark = 0;
  confirmed = (7, pos 30) ∷ [];
  confirmed_sum = pos 30;
  confirmed_high = 7;
  pending = pos 0;
  reserved = pos 70;
}
unfolding after
account_after = refl

reserved_is_open_holds_example :
    (key_locked "alice" (run calls fresh).ledger).reserved
    ≡ open_holds "alice" (run calls fresh).holds
reserved_is_open_holds_example = reserved_is_open_holds "alice" calls

after-IsConsistent : IsConsistent (key_locked "alice" after.ledger)
unfolding after
after-IsConsistent = confirmed_sum_is_total "alice" calls

confirmed_sum_is_total_example : IsConsistent (key_locked "alice" (run calls fresh).ledger)
confirmed_sum_is_total_example = confirmed_sum_is_total "alice" calls

-- The snapshot that nets the confirmed debit of 30.
honest_snapshot_neutral_example :
    available (renew (pos 70) 7 2 (key_locked "alice" after.ledger))
    ≡ available (key_locked "alice" after.ledger)
unfolding after netted
honest_snapshot_neutral_example =
    honest_snapshot_neutral (pos 70) 7 2 (key_locked "alice" after.ledger) after-IsConsistent
      (omega arith) (omega arith) refl

funded_world : World
unfolding run step fresh key_locked put available reserve release true_up clamp confirm settle
    set_allowance renew int64 ◌+ℤ◌ ◌-ℤ◌
funded_world = run (set_allowance_op "alice" (pos 100) 0 1 ∷ []) fresh

funded_world-IsSolvent : IsSolvent "alice" funded_world
unfolding funded_world
funded_world-IsSolvent = record { funded = omega arith; costs = tt; matched = refl }

served : World
unfolding funded_world
served = step (confirm_op "bob" (pos 500) 8) (
    step (confirm_op "alice" (pos 30) 7)
      (step (true_up_op 0 (pos 30)) (step (reserve_op "alice" (pos 40)) funded_world)))

served-Serves : Serves "alice" funded_world served
unfolding served
served-Serves =
    next
      (next (next (next here (reserving "alice" (pos 40) _)) (truing_up 0 (pos 30) _))
        (confirming (pos 30) 7 _ (omega arith)))
      (confirming_other "bob" (pos 500) 8 _ refl)

never_overspends_example :
    let k = key_locked "alice" served.ledger in
    IsSolvent "alice" served
    × (pos 0 ≤ℤ available k)
    × (pos_part (available k)
          + held "alice" served.holds
          + pos_part k.pending
          + pos_part k.confirmed_sum
        ≡ pos_part k.allowance)
never_overspends_example = never_overspends "alice" served-Serves funded_world-IsSolvent
