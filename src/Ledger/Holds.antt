-- ===== src/Ledger/Holds.antt =====
-- Every sequence of calls keeps an account's `reserved` equal to its unresolved holds.
use omniswap.Prelude.{
  ℕ, zero, suc, String, true, false, some, some_inj, List, [], ◌∷◌, ◌++◌, ◌≡◌, refl, sym, ap, ◌∙◌,
  arith, inl, inr, if◌then◌else◌, get_elem?, set, set-get_elem?, Bool-cases, Option-cases,
}
use omniswap.Prelude.Keys.{string_eq, ◌==◌}
use omniswap.Prelude.Int.{ℤ, pos, ltb_ℤ}
use omniswap.Prelude.Word.{
  InRange, int64-InRange, add64, sub64, add64_comm, add64_assoc, sub64-add64, add64_zero,
  add64_zero_left,
}
use omniswap.Ledger.{KeyCredit, CreditLedger, settle, renew, Reservation, key_locked, available}
use omniswap.Ledger.Account.{
  at_key, reserved_by, released, trued_up, at_least_zero, reserve_denied, reserve_granted,
  key_locked-release, key_locked-true_up, key_locked-confirm, key_locked-set_allowance,
  release_done, release_open, true_up_done, true_up_open,
}
use omniswap.Ledger.World.{
  World, Op, reserve_op, release_op, true_up_op, confirm_op, set_allowance_op, step, run, fresh,
  open_cost, open_holds,
}

open_holds-append :
    (key : String) (rs : List Reservation) (r : Reservation)
    → open_holds key (rs ++ r ∷ []) ≡ add64 (open_holds key rs) (open_cost key r)
unfolding open_holds
open_holds-append key [] r = add64_comm _ _
open_holds-append key (q ∷ rs) r = rw (open_holds-append key rs r) (sym (add64_assoc _ _ _))

-- Resolving a hold takes its cost out of the sum.
open_holds-set :
    (key : String) (rs : List Reservation) (i : ℕ) {r : Reservation} (r' : Reservation)
    → get_elem? rs i ≡ some r
    → open_cost key r' ≡ pos 0
    → add64 (open_holds key (set rs i r')) (open_cost key r) ≡ open_holds key rs
unfolding open_holds
open_holds-set key [] i r' h z = cc
open_holds-set key (q ∷ rs) zero {r} r' h z =
    rw z (
      add64_zero_left _ _
      ∙ ap (λ p. add64 (open_cost key p) (open_holds key rs)) (sym (some_inj h)))
open_holds-set key (q ∷ rs) (suc i) {r} r' h z =
    add64_assoc _ _ _ ∙ ap (add64 (open_cost key q)) (open_holds-set key rs i r' h z)

open_holds-InRange : (key : String) (rs : List Reservation) → InRange (open_holds key rs)
unfolding open_holds
open_holds-InRange key [] = omega arith
open_holds-InRange key (r ∷ rs) = int64-InRange _

-- What an account has reserved is the sum of its unresolved holds.
pub Matches : String → World → Type 0
Matches key w = (key_locked key w.ledger).reserved ≡ open_holds key w.holds

-- One account's change against the change of its sum: a hold is added, or one is taken out.
add_hold :
    (key j : String) (c s : ℤ) (k : KeyCredit)
    → InRange s
    → k.reserved ≡ s
    → (at_key key j (reserved_by c) k).reserved ≡ add64 s (if key == j then c else pos 0)
add_hold key j c s k r h = elim (Bool-cases (key == j)) [
  | inl e ↦ rw e (ap (λ x. add64 x c) h)
  | inr e ↦ rw e (h ∙ sym (add64_zero s r))
]

drop_hold :
    (key j : String) (c s s' : ℤ) (k : KeyCredit)
    → InRange s'
    → k.reserved ≡ s
    → add64 s' (if key == j then c else pos 0) ≡ s
    → (at_key key j (released c) k).reserved ≡ s'
drop_hold key j c s s' k r h e = elim (Bool-cases (key == j)) [
  | inl same ↦ rw same (ap (λ x. sub64 x c) (h ∙ sym (rw same at e)) ∙ sub64-add64 s' c r)
  | inr other ↦ rw other (h ∙ sym (rw other at e) ∙ add64_zero s' r)
]

reserve-Matches :
    (key j : String) (cost : ℤ) (w : World) → Matches j w → Matches j (step (reserve_op key cost) w)
unfolding step Matches
reserve-Matches key j cost w h =
    elim (Bool-cases (ltb_ℤ (available (key_locked key w.ledger)) (at_least_zero cost))) [
      | inl short ↦ let (e, same) = reserve_denied key j cost w.ledger short in rw (e, same) h
      | inr enough ↦
          let (e, changed) = reserve_granted key j cost w.ledger enough in
          rw (e, changed, open_holds-append)
            (add_hold key j (at_least_zero cost) _ _ (open_holds-InRange j w.holds) h)
    ]

-- Resolving an open hold, by either method, takes it out of the sum and out of `reserved`.
resolve-Matches :
    (j : String) (i : ℕ) (r : Reservation) (l' : CreditLedger) (w : World)
    → get_elem? w.holds i ≡ some r
    → r.done ≡ false
    → (key_locked j l').reserved
      ≡ (at_key r.key j (released r.cost) (key_locked j w.ledger)).reserved
    → Matches j w
    → Matches j (record { ledger = l'; holds = set w.holds i (record r { done = true }) })
unfolding Matches
resolve-Matches j i r l' w found unresolved e h =
    e
    ∙ drop_hold r.key j r.cost _ _ _ (open_holds-InRange j _) h (
        rw unresolved at
          (open_holds-set j w.holds i (record r { done = true }) found (ground arith)))

release-Matches : (j : String) (i : ℕ) (w : World) → Matches j w → Matches j (step (release_op i) w)
unfolding step Matches
release-Matches j i w h = elim (Option-cases (get_elem? w.holds i)) [
  | inl absent ↦ rw absent h
  | inr (r, found) ↦ elim (Bool-cases r.done) [
    | inl resolved ↦ rw (found, release_done r w.ledger resolved, set-get_elem? w.holds i found) h
    | inr unresolved ↦
        rw (found, release_open r w.ledger unresolved)
          (resolve-Matches j i r _ w found unresolved
            (ap (λ k. k.reserved) (key_locked-release j r w.ledger unresolved)) h)
  ]
]

trued_up-reserved :
    (key j : String) (c a : ℤ) (k : KeyCredit)
    → (at_key key j (trued_up c a) k).reserved ≡ (at_key key j (released c) k).reserved
trued_up-reserved key j c a k = elim (Bool-cases (key == j)) [ inl e ↦ rw e | inr e ↦ rw e ]

true_up-Matches :
    (j : String) (i : ℕ) (a : ℤ) (w : World) → Matches j w → Matches j (step (true_up_op i a) w)
unfolding step Matches
true_up-Matches j i a w h = elim (Option-cases (get_elem? w.holds i)) [
  | inl absent ↦ rw absent h
  | inr (r, found) ↦ elim (Bool-cases r.done) [
    | inl resolved ↦ rw (found, true_up_done r a w.ledger resolved, set-get_elem? w.holds i found) h
    | inr unresolved ↦
        rw (found, (true_up_open r a w.ledger unresolved).0)
          (resolve-Matches j i r _ w found unresolved
            (ap (λ k. k.reserved) (key_locked-true_up j r a w.ledger unresolved)
              ∙ trued_up-reserved r.key j r.cost a (key_locked j w.ledger))
            h)
  ]
]

settle-reserved : (cost : ℤ) (seq : ℕ) (k : KeyCredit) → (settle cost seq k).reserved ≡ k.reserved
unfolding settle
settle-reserved cost seq k = ground arith

renew-reserved :
    (balance : ℤ) (watermark ver : ℕ) (k : KeyCredit)
    → (renew balance watermark ver k).reserved ≡ k.reserved
unfolding renew
renew-reserved balance watermark ver k = ground arith

confirm-Matches :
    (j key : String) (cost : ℤ) (seq : ℕ) (w : World)
    → Matches j w
    → Matches j (step (confirm_op key cost seq) w)
unfolding step Matches
confirm-Matches j key cost seq w h =
    rw (key_locked-confirm j key cost seq w.ledger)
      (ground (arith, settle-reserved cost seq (key_locked j w.ledger)))

set_allowance-Matches :
    (j key : String) (balance : ℤ) (watermark ver : ℕ) (w : World)
    → Matches j w
    → Matches j (step (set_allowance_op key balance watermark ver) w)
unfolding step Matches
set_allowance-Matches j key balance watermark ver w h =
    rw (key_locked-set_allowance j key balance watermark ver w.ledger)
      (ground (arith, renew-reserved balance watermark ver (key_locked j w.ledger)))

step-Matches : (j : String) (op : Op) (w : World) → Matches j w → Matches j (step op w)
step-Matches j (reserve_op key cost) w h = reserve-Matches key j cost w h
step-Matches j (release_op i) w h = release-Matches j i w h
step-Matches j (true_up_op i a) w h = true_up-Matches j i a w h
step-Matches j (confirm_op key cost seq) w h = confirm-Matches j key cost seq w h
step-Matches j (set_allowance_op key b wm v) w h = set_allowance-Matches j key b wm v w h

run-Matches : (j : String) (ops : List Op) (w : World) → Matches j w → Matches j (run ops w)
unfolding run
run-Matches j [] w h = h
run-Matches j (op ∷ ops) w h = run-Matches j ops (step op w) (step-Matches j op w h)

-- After any sequence of calls from an empty ledger, with any amounts, reservations resolved once,
-- twice or never: what the account of a key has reserved is the `int64` sum of the costs of its
-- unresolved reservations.
pub reserved_is_open_holds :
    (key : String) (ops : List Op)
    → (key_locked key (run ops fresh).ledger).reserved ≡ open_holds key (run ops fresh).holds
reserved_is_open_holds key ops =
    unfold Matches in run-Matches key ops fresh (unfold fresh key_locked open_holds in refl)
