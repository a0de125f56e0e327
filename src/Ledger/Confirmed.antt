-- ===== src/Ledger/Confirmed.antt =====
-- The confirmed debits of an account: the running sum against the map, and the effect of a pushed
-- snapshot on the balance.
use omniswap.Prelude.{
  ℕ, ◌≤◌, ◌<◌, String, List, [], ◌∷◌, ◌≡◌, refl, sym, ap, ◌∙◌, arith, inl, inr, if◌then◌else◌, leb,
  ltb, leb→gt, lt→ltb, ge→ltb, All, Bool-cases,
}
use omniswap.Prelude.Keys.{nat_eq, ==_ne}
use omniswap.Prelude.Dict.{Dict, insert}
use omniswap.Prelude.Int.{ℤ, pos, leb_ℤ, int_laws}
use omniswap.Prelude.Word.{
  InRange, int64, int64-InRange, wraps, add64, sub64, add64_comm, add64_assoc, add64_zero,
}
use omniswap.Ledger.{KeyCredit, key_locked, settle, renew, aged, aged_sum, available}
use omniswap.Ledger.Account.{confirmed_with}
use omniswap.Ledger.World.{Op, run, fresh}
use omniswap.Ledger.Induction.{run_keeps}

-- The sum of a map's debits, and of those at or below a watermark, in `int64`.
unfoldable pub total : Dict ℕ ℤ → ℤ
total [] = pos 0
total ((seq, cost) ∷ m) = add64 cost (total m)

unfoldable pub netted : ℕ → Dict ℕ ℤ → ℤ
netted watermark [] = pos 0
netted watermark ((seq, cost) ∷ m) =
    let rest = netted watermark m in if leb seq watermark then add64 cost rest else rest

total-InRange : (m : Dict ℕ ℤ) → InRange (total m)
unfolding total
total-InRange [] = omega arith
total-InRange (e ∷ m) = int64-InRange _

-- Every debit in the map is above the watermark and at most the highest confirmed number.
abbrev pub Between : ℕ → ℕ → ℕ × ℤ → Type 0
Between low high e = (low < e.0) × (e.0 ≤ high)

pub record IsConsistent (k : KeyCredit) : Type 0 where
  pub summed : k.confirmed_sum ≡ total k.confirmed
  pub ordered : All (Between k.ack_watermark k.confirmed_high) k.confirmed

total-insert :
    (low high seq : ℕ) (cost : ℤ) (m : Dict ℕ ℤ)
    → All (Between low high) m
    → high < seq
    → total (insert seq cost m) ≡ add64 (total m) cost
unfolding total
total-insert low high seq cost [] h lt = add64_comm _ _
total-insert low high seq cost ((i, c) ∷ m) h lt =
    rw (==_ne i seq (omega arith), total-insert low high seq cost m h.1 lt)
      (sym (add64_assoc _ _ _))

Between-insert :
    (low high seq : ℕ) (cost : ℤ) (m : Dict ℕ ℤ)
    → All (Between low high) m
    → high < seq
    → low < seq
    → All (Between low seq) (insert seq cost m)
Between-insert low high seq cost [] h lt gt = ((gt, omega arith), tt)
Between-insert low high seq cost ((i, c) ∷ m) h lt gt =
    rw (==_ne i seq (omega arith))
      ((h.0.0, omega arith), Between-insert low high seq cost m h.1 lt gt)

Between-wider :
    (low high high' : ℕ) (m : Dict ℕ ℤ)
    → All (Between low high) m
    → high ≤ high'
    → All (Between low high') m
Between-wider low high high' [] h le = tt
Between-wider low high high' (e ∷ m) h le =
    ((h.0.0, omega arith), Between-wider low high high' m h.1 le)

settle-IsConsistent :
    (cost : ℤ) (seq : ℕ) (k : KeyCredit)
    → k.confirmed_high < seq
    → IsConsistent k
    → IsConsistent (settle cost seq k)
unfolding settle
settle-IsConsistent cost seq k lt h = elim (Bool-cases (ltb k.ack_watermark seq)) [
  | inl above ↦ rw above (record {
    summed =
        ap (λ s. add64 s cost) h.summed
        ∙ sym (total-insert k.ack_watermark k.confirmed_high seq cost k.confirmed h.ordered lt);
    ordered =
        Between-insert k.ack_watermark k.confirmed_high seq cost k.confirmed h.ordered lt
          (ground arith);
  })
  | inr netted_already ↦ rw netted_already (record {
    summed = h.summed;
    ordered =
        Between-wider k.ack_watermark k.confirmed_high seq k.confirmed h.ordered (omega arith);
  })
]

-- The loop takes out of the sum what it takes out of the map.
aged_sum-add :
    (w : ℕ) (m : Dict ℕ ℤ) (s : ℤ) → aged_sum w m (add64 (total m) s) ≡ add64 (total (aged w m)) s
unfolding total aged aged_sum
aged_sum-add w [] s = refl
aged_sum-add w ((i, c) ∷ m) s = elim (Bool-cases (leb i w)) [
  | inl old ↦ rw old (ap (aged_sum w m) (drop (total m)) ∙ aged_sum-add w m s)
  | inr kept ↦ rw kept (
      ap (aged_sum w m) (swap (total m))
      ∙ aged_sum-add w m (add64 c s)
      ∙ sym (swap (total (aged w m))))
]
  where
    drop : (t : ℤ) → sub64 (add64 (add64 c t) s) c ≡ add64 t s
    drop t = simp wraps (ap int64 (omega int_laws))

    swap : (t : ℤ) → add64 (add64 c t) s ≡ add64 t (add64 c s)
    swap t = simp wraps (ap int64 (omega int_laws))

aged_sum-total : (w : ℕ) (m : Dict ℕ ℤ) → aged_sum w m (total m) ≡ total (aged w m)
aged_sum-total w m =
    ap (aged_sum w m) (sym (add64_zero (total m) (total-InRange m)))
    ∙ aged_sum-add w m (pos 0)
    ∙ add64_zero (total (aged w m)) (total-InRange (aged w m))

-- The map's sum is what stays and what the watermark nets.
total-aged : (w : ℕ) (m : Dict ℕ ℤ) → add64 (total (aged w m)) (netted w m) ≡ total m
unfolding total aged netted
total-aged w [] = add64_zero (pos 0) (omega arith)
total-aged w ((i, c) ∷ m) = elim (Bool-cases (leb i w)) [
  | inl old ↦ rw old (left _ _ ∙ ap (add64 c) (total-aged w m))
  | inr kept ↦ rw kept (add64_assoc _ _ _ ∙ ap (add64 c) (total-aged w m))
]
  where
    left : (t n : ℤ) → add64 t (add64 c n) ≡ add64 c (add64 t n)
    left t n = simp wraps (ap int64 (omega int_laws))

Between-aged :
    (low high w : ℕ) (m : Dict ℕ ℤ) → All (Between low high) m → All (Between w high) (aged w m)
unfolding aged
Between-aged low high w [] h = tt
Between-aged low high w ((i, c) ∷ m) h = elim (Bool-cases (leb i w)) [
  | inl old ↦ rw old (Between-aged low high w m h.1)
  | inr kept ↦ rw kept ((leb→gt i w kept, h.0.1), Between-aged low high w m h.1)
]

renew-IsConsistent :
    (balance : ℤ) (watermark ver : ℕ) (k : KeyCredit)
    → IsConsistent k
    → IsConsistent (renew balance watermark ver k)
unfolding renew
renew-IsConsistent balance watermark ver k h = elim (Bool-cases (ltb ver k.allowance_ver)) [
  | inl stale ↦ rw stale h
  | inr newer ↦ elim (Bool-cases (ltb k.ack_watermark watermark)) [
    | inl ahead ↦
        rw (newer, ahead)
          (record {
            summed =
                ap (aged_sum watermark k.confirmed) h.summed ∙ aged_sum-total watermark k.confirmed;
            ordered = Between-aged k.ack_watermark k.confirmed_high watermark k.confirmed h.ordered;
          })
    | inr behind ↦ rw (newer, behind) (record { summed = h.summed; ordered = h.ordered })
  ]
]

rebalance :
    (a b r p s s' n : ℤ)
    → b ≡ sub64 a n
    → s ≡ add64 s' n
    → sub64 (sub64 (sub64 b r) p) s' ≡ sub64 (sub64 (sub64 a r) p) s
rebalance a b r p s s' n e f = rw (e, f) (simp wraps (ap int64 (omega int_laws)))

-- A snapshot that is not stale, that moves the watermark forward, and whose balance is lower by
-- exactly the confirmed debits that it nets, leaves the spendable balance as it is: nothing is
-- counted twice, and nothing is lost, whatever the sizes of the amounts.
pub honest_snapshot_neutral :
    (balance : ℤ) (watermark ver : ℕ) (k : KeyCredit)
    → IsConsistent k
    → k.allowance_ver ≤ ver
    → k.ack_watermark < watermark
    → balance ≡ sub64 k.allowance (netted watermark k.confirmed)
    → available (renew balance watermark ver k) ≡ available k
unfolding renew available
honest_snapshot_neutral balance watermark ver k h newer ahead honest =
    rw (ge→ltb ver k.allowance_ver newer, lt→ltb k.ack_watermark watermark ahead)
      (rebalance k.allowance balance k.reserved k.pending k.confirmed_sum _
        (netted watermark k.confirmed) honest (h.summed ∙ sym split))
  where
    split :
        add64 (aged_sum watermark k.confirmed k.confirmed_sum) (netted watermark k.confirmed)
        ≡ total k.confirmed
    split =
        ap (λ s. add64 (aged_sum watermark k.confirmed s) (netted watermark k.confirmed)) h.summed
        ∙ ap (λ s. add64 s (netted watermark k.confirmed)) (aged_sum-total watermark k.confirmed)
        ∙ total-aged watermark k.confirmed

confirmed_with-IsConsistent :
    (cost : ℤ) (seq : ℕ) (k : KeyCredit) → IsConsistent k → IsConsistent (confirmed_with cost seq k)
confirmed_with-IsConsistent cost seq k h = elim (Bool-cases (leb_ℤ cost (pos 0))) [
  | inl free ↦ rw free h
  | inr charged ↦ elim (Bool-cases (leb seq k.confirmed_high)) [
    | inl replay ↦ rw (charged, replay) h
    | inr fresh_seq ↦
        rw (charged, fresh_seq)
          (settle-IsConsistent cost seq k (leb→gt seq k.confirmed_high fresh_seq) h)
  ]
]

-- After any sequence of calls from an empty ledger, each account's `confirmedSum` is the `int64`
-- sum of its map of confirmed debits, and each debit in the map is above the account's watermark
-- and at most its highest confirmed sequence number.
pub confirmed_sum_is_total :
    (key : String) (ops : List Op) → IsConsistent (key_locked key (run ops fresh).ledger)
confirmed_sum_is_total key ops =
    run_keeps IsConsistent (λ c k h. record { summed = h.summed; ordered = h.ordered })
      (λ c k h. record { summed = h.summed; ordered = h.ordered })
      (λ c a k h. record { summed = h.summed; ordered = h.ordered }) confirmed_with-IsConsistent
      renew-IsConsistent key ops fresh
      (unfold fresh key_locked total in record { summed = refl; ordered = tt })
