-- ===== src/DebitEmitter/Account.antt =====
-- Every event given to proxy/debit_emitter.go is accounted for, and the sink gets the queued ones in
-- order.
use omniswap.Prelude.{
  ℕ, suc, ◌+◌, ◌≤◌, ◌<◌, ◌^◌, Bool, true, false, List, [], ◌∷◌, ◌++◌, ◌≡◌, refl, arith, ap, ◌∙◌,
  if◌then◌else◌, ltb, length, length-append, Bool-cases, List-cases, inl, inr,
}
use omniswap.Prelude.Int.{ℤ, pos}
use omniswap.Prelude.Word.{add64, add64_pos}
use omniswap.DebitLog.{DebitEvent}
use omniswap.DebitEmitter.{DebitEmitter, emit, close, write_one, drain, close_and_wait}

pub data EmitterOp : Type 0 where
  emit_op : DebitEvent → EmitterOp
  write_op close_op : EmitterOp

module _ {S : Type 0} (append : DebitEvent → S → S × Bool) where
  unfoldable pub step : EmitterOp → DebitEmitter S → DebitEmitter S
  step (emit_op ev) e = emit ev e
  step write_op e = write_one append e
  step close_op e = close e

  -- Any interleaving of the calls of `Emit` and `Close` and the rounds of the writer.
  unfoldable pub run : List EmitterOp → DebitEmitter S → DebitEmitter S
  run [] e = e
  run (op ∷ ops) e = run ops (step op e)

  -- The number of events that are emitted before the emitter is closed.
  abbrev pub one_emitted : EmitterOp → DebitEmitter S → ℕ
  one_emitted (emit_op ev) e = if e.closed then 0 else 1
  one_emitted write_op e = 0
  one_emitted close_op e = 0

  unfoldable pub emitted : List EmitterOp → DebitEmitter S → ℕ
  emitted [] e = 0
  emitted (op ∷ ops) e = one_emitted op e + emitted ops (step op e)

  -- The events in the order of the channel.
  abbrev pub append_all : List DebitEvent → S → S
  append_all [] s = s
  append_all (ev ∷ evs) s = append_all evs (append ev s).0

  append_all-snoc :
      (evs : List DebitEvent) (ev : DebitEvent) (s : S)
      → append_all (evs ++ ev ∷ []) s ≡ (append ev (append_all evs s)).0
  append_all-snoc [] ev s = refl
  append_all-snoc (x ∷ evs) ev s = append_all-snoc evs ev (append x s).0

  -- Of `total` events, each was appended, failed, dropped or is still queued.
  pub record IsBalanced (total : ℕ) (e : DebitEmitter S) : Type 0 where
    pub done : ℕ
    pub lost : ℕ
    pub shed : ℕ
    pub appended : e.appended ≡ pos done
    pub failed : e.failed ≡ pos lost
    pub dropped : e.dropped ≡ pos shed
    pub balance : done + lost + shed + length e.ch ≡ total
    pub bounded : length e.ch ≤ e.buf_size

  add_one : (a : ℤ) (n : ℕ) → a ≡ pos n → n + 1 < 2 ^ 63 → add64 a (pos 1) ≡ pos (suc n)
  add_one a n h k = rw h (add64_pos n 1 (omega arith) ∙ ap pos (omega arith))

  emit-IsBalanced :
      (ev : DebitEvent) (total : ℕ) (e : DebitEmitter S)
      → IsBalanced total e
      → total + 1 < 2 ^ 63
      → IsBalanced (total + one_emitted (emit_op ev) e) (emit ev e)
  unfolding emit
  emit-IsBalanced ev total e h k = elim (Bool-cases e.closed) [
    | inl shut ↦
        rw (shut, emit)
          (record {
            done = h.done;
            lost = h.lost;
            shed = h.shed;
            appended = h.appended;
            failed = h.failed;
            dropped = h.dropped;
            balance = omega (arith, h.balance);
            bounded = h.bounded;
          })
    | inr running ↦ elim (Bool-cases (ltb (length e.ch) e.buf_size)) [
      | inl room ↦
          rw (running, room, emit)
            (record {
              done = h.done;
              lost = h.lost;
              shed = h.shed;
              appended = h.appended;
              failed = h.failed;
              dropped = h.dropped;
              balance = omega (arith, h.balance, length-append e.ch (ev ∷ []));
              bounded = ground (arith, length-append e.ch (ev ∷ []));
            })
      | inr full ↦
          rw (running, full, emit)
            (record {
              done = h.done;
              lost = h.lost;
              shed = suc h.shed;
              appended = h.appended;
              failed = h.failed;
              dropped = add_one e.dropped h.shed h.dropped (omega (arith, h.balance));
              balance = omega (arith, h.balance);
              bounded = h.bounded;
            })
    ]
  ]

  write_one-IsBalanced :
      (total : ℕ) (e : DebitEmitter S)
      → IsBalanced total e
      → total + 1 < 2 ^ 63
      → IsBalanced total (write_one append e)
  unfolding write_one
  write_one-IsBalanced total e h k = elim (List-cases e.ch) [
    | inl empty ↦
        rw (empty, write_one)
          (record {
            done = h.done;
            lost = h.lost;
            shed = h.shed;
            appended = h.appended;
            failed = h.failed;
            dropped = h.dropped;
            balance = omega (arith, h.balance, ap length empty);
            bounded = omega arith;
          })
    | inr (ev, evs, queued) ↦ elim (Bool-cases (append ev e.sink).1) [
      | inl ok ↦
          rw (queued, ok, write_one)
            (record {
              done = suc h.done;
              lost = h.lost;
              shed = h.shed;
              appended = add_one e.appended h.done h.appended (omega (arith, h.balance));
              failed = h.failed;
              dropped = h.dropped;
              balance = omega (arith, h.balance, ap length queued);
              bounded = omega (arith, h.bounded, ap length queued);
            })
      | inr bad ↦
          rw (queued, bad, write_one)
            (record {
              done = h.done;
              lost = suc h.lost;
              shed = h.shed;
              appended = h.appended;
              failed = add_one e.failed h.lost h.failed (omega (arith, h.balance));
              dropped = h.dropped;
              balance = omega (arith, h.balance, ap length queued);
              bounded = omega (arith, h.bounded, ap length queued);
            })
    ]
  ]

  close-IsBalanced :
      (total : ℕ) (e : DebitEmitter S) → IsBalanced total e → IsBalanced total (close e)
  unfolding close
  close-IsBalanced total e h = record {
    done = h.done;
    lost = h.lost;
    shed = h.shed;
    appended = h.appended;
    failed = h.failed;
    dropped = h.dropped;
    balance = h.balance;
    bounded = h.bounded;
  }

  plus_zero : (n : ℕ) → n + 0 ≡ n
  plus_zero n = omega arith

  step-IsBalanced :
      (op : EmitterOp) (total : ℕ) (e : DebitEmitter S)
      → IsBalanced total e
      → total + 1 < 2 ^ 63
      → IsBalanced (total + one_emitted op e) (step op e)
  unfolding step
  step-IsBalanced (emit_op ev) total e h k = emit-IsBalanced ev total e h k
  step-IsBalanced write_op total e h k = rw (plus_zero total) (write_one-IsBalanced total e h k)
  step-IsBalanced close_op total e h k = rw (plus_zero total) (close-IsBalanced total e h)

  one_emitted_bound : (op : EmitterOp) (e : DebitEmitter S) → one_emitted op e ≤ 1
  one_emitted_bound (emit_op ev) e = ground arith
  one_emitted_bound write_op e = omega arith
  one_emitted_bound close_op e = omega arith

  -- In any interleaving of `Emit`, `Close` and the writer's rounds, from an emitter that accounts for
  -- `total` events and with fewer than 2^63 in all, each event emitted before the close is appended,
  -- failed, dropped or still queued, once, and the queue never exceeds its capacity.
  pub run-IsBalanced :
      (ops : List EmitterOp) (total : ℕ) (e : DebitEmitter S)
      → IsBalanced total e
      → total + length ops < 2 ^ 63
      → IsBalanced (total + emitted ops e) (run ops e)
  unfolding run emitted
  run-IsBalanced [] total e h k = rw (plus_zero total) h
  run-IsBalanced (op ∷ ops) total e h k =
      let one = one_emitted_bound op e in
      let next = step-IsBalanced op total e h (omega arith) in
      let rest =
        run-IsBalanced ops (total + one_emitted op e) (step op e) next (omega (arith, one)) in
      rw⁻¹ (assoc total (one_emitted op e) (emitted ops (step op e))) rest
    where
      assoc : (a b c : ℕ) → a + b + c ≡ a + (b + c)
      assoc a b c = omega arith

  write_one-lem :
      (ev : DebitEvent) (evs : List DebitEvent) (e : DebitEmitter S)
      → e.ch ≡ ev ∷ evs
      → ((write_one append e).ch ≡ evs)
        × ((write_one append e).sink ≡ (append ev e.sink).0)
        × ((write_one append e).closed ≡ e.closed)
        × ((write_one append e).dropped ≡ e.dropped)
  unfolding write_one
  write_one-lem ev evs e h = elim (Bool-cases (append ev e.sink).1) [
    | inl ok ↦ rw (h, ok, write_one) (refl, refl, refl, refl)
    | inr bad ↦ rw (h, bad, write_one) (refl, refl, refl, refl)
  ]

  drain-lem :
      (evs : List DebitEvent) (e : DebitEmitter S)
      → e.ch ≡ evs
      → ((drain append (length evs) e).ch ≡ [])
        × ((drain append (length evs) e).sink ≡ append_all evs e.sink)
        × ((drain append (length evs) e).closed ≡ e.closed)
        × ((drain append (length evs) e).dropped ≡ e.dropped)
  unfolding drain
  drain-lem [] e h = (h, refl, refl, refl)
  drain-lem (ev ∷ evs) e h =
      let one = write_one-lem ev evs e h in
      let rest = drain-lem evs (write_one append e) one.0 in
      (rest.0, rest.1 ∙ ap (append_all evs) one.1, rest.2 ∙ one.2, rest.3 ∙ one.3)

  -- `Close` on an emitter that is not closed: the queue is drained, the sink has got every queued
  -- event in the order of the queue, and the emitter is closed.
  pub close_and_wait_lem :
      (e : DebitEmitter S)
      → e.closed ≡ false
      → ((close_and_wait append e).ch ≡ [])
        × ((close_and_wait append e).sink ≡ append_all e.ch e.sink)
        × ((close_and_wait append e).closed ≡ true)
        × ((close_and_wait append e).dropped ≡ e.dropped)
  unfolding close_and_wait close
  close_and_wait_lem e h = rw (h, close_and_wait) (drain-lem e.ch (record e { closed = true }) refl)
