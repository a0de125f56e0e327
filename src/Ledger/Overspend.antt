-- ===== src/Ledger/Overspend.antt =====
-- The calls of the request path never overspend an account.
use omniswap.Prelude.{
  ℕ, zero, suc, ◌+◌, ◌≤◌, String, true, false, some, some_inj, List, [], ◌∷◌, ◌++◌, ◌≡◌, refl, sym,
  ap, ◌∙◌, arith, inl, inr, get_elem?, set, All, Bool-cases, Option-cases, set-get_elem?, ltb→ge,
}
use omniswap.Prelude.Keys.{string_eq, ◌==◌, ==_refl}
use omniswap.Prelude.Int.{ℤ, pos, pos_part, ◌≤ℤ◌, ltb_ℤ, neg_part_zero}
use omniswap.Prelude.Word.{sub64, word_laws}
use omniswap.Ledger.{KeyCredit, Reservation, key_locked, available}
use omniswap.Ledger.Account.{
  at_key, reserved_by, released, trued_up, at_least_zero, reserve_denied, reserve_granted,
  key_locked-release, key_locked-true_up, key_locked-confirm, release_done, true_up_done,
  release_open, true_up_open,
}
use omniswap.Ledger.World.{World, reserve_op, release_op, true_up_op, confirm_op, step, open_cost}
use omniswap.Ledger.Sound.{
  IsFunded, available_exact, at_least_zero_pos, reserved_by-IsFunded, released-IsFunded,
  trued_up-IsFunded, confirmed_with-IsFunded, confirmed_with-reserved,
}

-- The exact sum of a key's unresolved holds.
abbrev pub held : String → List Reservation → ℕ
held key [] = 0
held key (r ∷ rs) = pos_part (open_cost key r) + held key rs

held-append :
    (key : String) (rs : List Reservation) (r : Reservation)
    → held key (rs ++ r ∷ []) ≡ held key rs + pos_part (open_cost key r)
held-append key [] r = omega arith
held-append key (q ∷ rs) r = omega (arith, held-append key rs r)

held-set :
    (key : String) (rs : List Reservation) (i : ℕ) {r : Reservation} (r' : Reservation)
    → get_elem? rs i ≡ some r
    → held key (set rs i r') + pos_part (open_cost key r)
      ≡ held key rs + pos_part (open_cost key r')
held-set key [] i r' h = cc
held-set key (q ∷ rs) zero r' h = rw (some_inj h) (omega arith)
held-set key (q ∷ rs) (suc i) r' h = omega (arith, held-set key rs i r' h)

-- No reservation has a negative cost.
abbrev pub Costs : List Reservation → Type 0
Costs = All (λ r. pos 0 ≤ℤ r.cost)

Costs-append :
    (rs : List Reservation) (r : Reservation) → Costs rs → pos 0 ≤ℤ r.cost → Costs (rs ++ r ∷ [])
Costs-append [] r h p = (p, tt)
Costs-append (q ∷ rs) r h p = (h.0, Costs-append rs r h.1 p)

Costs-set :
    (rs : List Reservation) (i : ℕ) (r : Reservation)
    → Costs rs
    → pos 0 ≤ℤ r.cost
    → Costs (set rs i r)
Costs-set [] i r h p = tt
Costs-set (q ∷ rs) zero r h p = (p, h.1)
Costs-set (q ∷ rs) (suc i) r h p = (h.0, Costs-set rs i r h.1 p)

Costs-get :
    (rs : List Reservation) (i : ℕ) {r : Reservation}
    → Costs rs
    → get_elem? rs i ≡ some r
    → pos 0 ≤ℤ r.cost
Costs-get [] i h e = cc
Costs-get (q ∷ rs) zero h e = rw (← some_inj e) h.0
Costs-get (q ∷ rs) (suc i) h e = Costs-get rs i h.1 e

-- The allowance covers all that a key's account has held, billed and confirmed, and `reserved` is
-- the sum of the key's unresolved reservations.
pub record Covers (key : String) (k : KeyCredit) (rs : List Reservation) : Type 0 where
  pub funded : IsFunded k
  pub costs : Costs rs
  pub matched : held key rs ≡ pos_part k.reserved

abbrev pub IsSolvent : String → World → Type 0
IsSolvent key w = Covers key (key_locked key w.ledger) w.holds

-- The calls of the request path and of the tailer: reservations are placed and resolved, with any
-- amounts and any number of times; a debit of the key is confirmed that was billed before, and for
-- other keys any debit.
pub data Serve (key : String) : World → World → Type 0 where
  reserving : (k : String) (cost : ℤ) (w : World) → Serve key w (step (reserve_op k cost) w)
  releasing : (i : ℕ) (w : World) → Serve key w (step (release_op i) w)
  truing_up : (i : ℕ) (actual : ℤ) (w : World) → Serve key w (step (true_up_op i actual) w)
  confirming :
      (cost : ℤ) (seq : ℕ) (w : World)
      → cost ≤ℤ (key_locked key w.ledger).pending
      → Serve key w (step (confirm_op key cost seq) w)
  confirming_other :
      (other : String) (cost : ℤ) (seq : ℕ) (w : World)
      → (other == key) ≡ false
      → Serve key w (step (confirm_op other cost seq) w)

pub data Serves (key : String) (v : World) : World → Type 0 where
  here : Serves key v v
  next : {w x : World} → Serves key v w → Serve key w x → Serves key v x

hold-Covers :
    (key j : String) (c : ℤ) (k : KeyCredit) (rs : List Reservation)
    → Covers key k rs
    → pos 0 ≤ℤ c
    → ((j == key) ≡ true → c ≤ℤ available k)
    → Covers key
        (at_key j key (reserved_by c) k)
        (rs ++ record { key = j; cost = c; done = false } ∷ [])
hold-Covers key j c k rs h hc enough = elim (Bool-cases (j == key)) [
  | inl mine ↦ rw mine (record {
    funded = reserved_by-IsFunded c k h.funded hc (enough mine);
    costs = Costs-append rs _ h.costs hc;
    matched =
        held-append key rs _
        ∙ rw mine (
            omega (
              word_laws,
              h.matched,
              h.funded.reserved_pos,
              h.funded.covered,
              h.funded.allowance_cap,
              enough mine,
              available_exact k h.funded,
            ));
  })
  | inr other ↦ rw other (record {
    funded = h.funded;
    costs = Costs-append rs _ h.costs hc;
    matched = held-append key rs _ ∙ rw other (omega (arith, h.matched));
  })
]

-- An open hold is part of what is reserved.
held-get :
    (key : String) (rs : List Reservation) (i : ℕ) {r : Reservation}
    → get_elem? rs i ≡ some r
    → pos_part (open_cost key r) ≤ held key rs
held-get key [] i h = cc
held-get key (q ∷ rs) zero h = rw (some_inj h) (omega arith)
held-get key (q ∷ rs) (suc i) h = omega (arith, held-get key rs i h)

open_cost_mine :
    (key : String) (r : Reservation)
    → (r.key == key) ≡ true
    → r.done ≡ false
    → open_cost key r ≡ r.cost
open_cost_mine key r e f = rw (e, f)

held-resolve :
    (key : String) (rs : List Reservation) (i : ℕ) {r : Reservation}
    → get_elem? rs i ≡ some r
    → held key (set rs i (record r { done = true })) + pos_part (open_cost key r) ≡ held key rs
held-resolve key rs i {r} found = held-set key rs i _ found ∙ closed
  where
    closed : held key rs + pos_part (open_cost key (record r { done = true })) ≡ held key rs
    closed = ground arith

-- Resolving an open hold, for any function of the account that gives its cost back.
resolve-Covers :
    (key : String) (i : ℕ) (r : Reservation) (f : KeyCredit → KeyCredit) (k : KeyCredit)
    (rs : List Reservation)
    → get_elem? rs i ≡ some r
    → r.done ≡ false
    → (pos 0 ≤ℤ r.cost → r.cost ≤ℤ k.reserved → IsFunded (f k))
    → (f k).reserved ≡ sub64 k.reserved r.cost
    → Covers key k rs
    → Covers key (at_key r.key key f k) (set rs i (record r { done = true }))
resolve-Covers key i r f k rs found unresolved keep e h = elim (Bool-cases (r.key == key)) [
  | inl mine ↦ rw mine (record {
    funded = keep cost (part mine);
    costs = Costs-set rs i _ h.costs cost;
    matched = rw e (
        omega (
          word_laws,
          rw (open_cost_mine key r mine unresolved) at (held-resolve key rs i found),
          part mine,
          cost,
          h.matched,
          h.funded.reserved_pos,
          h.funded.covered,
          h.funded.allowance_cap,
        ));
  })
  | inr other ↦ rw other (record {
    funded = h.funded;
    costs = Costs-set rs i _ h.costs cost;
    matched = omega (arith, rw other at (held-resolve key rs i found), h.matched);
  })
]
  where
    cost : pos 0 ≤ℤ r.cost
    cost = Costs-get rs i h.costs found

    part : (r.key == key) ≡ true → r.cost ≤ℤ k.reserved
    part mine = omega (
      arith,
      rw (open_cost_mine key r mine unresolved) at (held-get key rs i found),
      h.matched,
      neg_part_zero k.reserved h.funded.reserved_pos,
    )

reserve-IsSolvent :
    (key j : String) (cost : ℤ) (w : World)
    → IsSolvent key w
    → IsSolvent key (step (reserve_op j cost) w)
unfolding step
reserve-IsSolvent key j cost w h =
    elim (Bool-cases (ltb_ℤ (available (key_locked j w.ledger)) (at_least_zero cost))) [
      | inl short ↦ let (e, same) = reserve_denied j key cost w.ledger short in rw (e, same) h
      | inr enough ↦
          let (e, changed) = reserve_granted j key cost w.ledger enough in
          rw (e, changed)
            (hold-Covers key j (at_least_zero cost) _ w.holds h (at_least_zero_pos cost)
              (λ mine. ltb→ge _ _ (rw ((string_eq.beq_iff j key).0 mine) at enough)))
    ]

release-IsSolvent :
    (key : String) (i : ℕ) (w : World) → IsSolvent key w → IsSolvent key (step (release_op i) w)
unfolding step
release-IsSolvent key i w h = elim (Option-cases (get_elem? w.holds i)) [
  | inl absent ↦ rw absent h
  | inr (r, found) ↦ elim (Bool-cases r.done) [
    | inl resolved ↦ rw (found, release_done r w.ledger resolved, set-get_elem? w.holds i found) h
    | inr unresolved ↦
        rw (found, release_open r w.ledger unresolved, key_locked-release key r w.ledger unresolved)
          (resolve-Covers key i r (released r.cost) _ w.holds found unresolved
            (released-IsFunded r.cost _ h.funded) refl h)
  ]
]

true_up-IsSolvent :
    (key : String) (i : ℕ) (a : ℤ) (w : World)
    → IsSolvent key w
    → IsSolvent key (step (true_up_op i a) w)
unfolding step
true_up-IsSolvent key i a w h = elim (Option-cases (get_elem? w.holds i)) [
  | inl absent ↦ rw absent h
  | inr (r, found) ↦ elim (Bool-cases r.done) [
    | inl resolved ↦ rw (found, true_up_done r a w.ledger resolved, set-get_elem? w.holds i found) h
    | inr unresolved ↦
        rw
          (
            found,
            (true_up_open r a w.ledger unresolved).0,
            key_locked-true_up key r a w.ledger unresolved,
          )
          (resolve-Covers key i r (trued_up r.cost a) _ w.holds found unresolved
            (trued_up-IsFunded r.cost a _ h.funded) refl h)
  ]
]

confirm-IsSolvent :
    (key : String) (cost : ℤ) (seq : ℕ) (w : World)
    → cost ≤ℤ (key_locked key w.ledger).pending
    → IsSolvent key w
    → IsSolvent key (step (confirm_op key cost seq) w)
unfolding step
confirm-IsSolvent key cost seq w billed h =
    rw (key_locked-confirm key key cost seq w.ledger, ==_refl key)
      (record {
        funded = confirmed_with-IsFunded cost seq _ h.funded billed;
        costs = h.costs;
        matched = h.matched ∙ ap pos_part (sym (confirmed_with-reserved cost seq _));
      })

confirm_other-IsSolvent :
    (key other : String) (cost : ℤ) (seq : ℕ) (w : World)
    → (other == key) ≡ false
    → IsSolvent key w
    → IsSolvent key (step (confirm_op other cost seq) w)
unfolding step
confirm_other-IsSolvent key other cost seq w ne h =
    rw (key_locked-confirm key other cost seq w.ledger, ne) h

Serve-IsSolvent : (key : String) {v w : World} → Serve key v w → IsSolvent key v → IsSolvent key w
Serve-IsSolvent key (reserving k cost w) h = reserve-IsSolvent key k cost w h
Serve-IsSolvent key (releasing i w) h = release-IsSolvent key i w h
Serve-IsSolvent key (truing_up i a w) h = true_up-IsSolvent key i a w h
Serve-IsSolvent key (confirming cost seq w billed) h = confirm-IsSolvent key cost seq w billed h
Serve-IsSolvent key (confirming_other other cost seq w ne) h =
    confirm_other-IsSolvent key other cost seq w ne h

Serves-IsSolvent : (key : String) {v w : World} → Serves key v w → IsSolvent key v → IsSolvent key w
Serves-IsSolvent key here h = h
Serves-IsSolvent key (next s t) h = Serve-IsSolvent key t (Serves-IsSolvent key s h)

-- From a ledger in which a key's allowance (of at most 2^61 credits) covers what it has held,
-- billed and confirmed, any sequence of reservations, releases and true-ups of any keys, of
-- confirmations of billed debits of this key, and of any confirmations of other keys keeps it covered: the balance `available` never falls
-- below 0, it is exactly what the allowance leaves, and no sum wraps around.
pub never_overspends :
    (key : String) {v w : World}
    → Serves key v w
    → IsSolvent key v
    → let k = key_locked key w.ledger in
      IsSolvent key w
      × (pos 0 ≤ℤ available k)
      × (pos_part (available k) + held key w.holds + pos_part k.pending + pos_part k.confirmed_sum
          ≡ pos_part k.allowance)
never_overspends key s h =
    let solvent = Serves-IsSolvent key s h in
    let exact = available_exact _ solvent.funded in (solvent, exact.0, rw solvent.matched exact.1)
