-- ===== src/ProxyManager/Debits/Polled.antt =====
-- A puller of the billing rail (proxy/proxymanager.go, `debitsPullHandler`), against a log that
-- grows, crashes and restarts: it asks for what is above its cursor, keeps the events, and takes the
-- head as its next cursor, as the comment of the handler has it.
use mathlib.Core.Path.{subst}
use omniswap.Prelude.{
  ℕ, suc, ◌+◌, ◌≤◌, ◌<◌, ◌^◌, String, true, Option, some, List, [], ◌∷◌, ◌++◌, ◌≡◌, refl, sym, ◌∙◌,
  ap, arith, length, length-append, ++_assoc, ++_nil, List-cases, inl, inr,
}
use omniswap.Prelude.Text.{Text}
use omniswap.UsageMeter.{usage_reader_allowed}
use omniswap.DebitLog.{DebitEvent, DebitLog, above, since_with_head, enabled}
use omniswap.DebitLog.Codec.{IsCodec}
use omniswap.DebitLog.Watermark.{IsConsecutive, IsSound, above-all, above-IsConsecutive}
use omniswap.DebitLog.Crashes.{LogOp, step, Extends, step-Extends}
use omniswap.DebitEmitter.{DebitEmitter}
use omniswap.ProxyManager.Debits.{
  Pulled, page, forbidden, disabled, since, counters, debits_pull_handler,
}

pub record Puller : Type 0 where
  pub cursor : ℕ
  pub received : List DebitEvent

-- The log and its puller.
pub record Rail : Type 0 where
  pub debit_log : DebitLog
  pub puller : Puller

-- What the puller makes of an answer.
unfoldable pub absorb : Pulled → Puller → Puller
absorb forbidden p = p
absorb disabled p = p
absorb (page events head shown) p = record { cursor = head; received = p.received ++ events }

-- A query of the cursor is read back.
pub record IsPrinter (parse_uint : Text → Option ℕ) (print : ℕ → Text) : Type 0 where
  pub parse-print : (n : ℕ) → n < 2 ^ 64 → parse_uint (print n) ≡ some n
  pub print-non_empty : (n : ℕ) → ¬ (print n ≡ [])

-- Events after a cursor are not cut off by it.
above-++ :
    (cursor n : ℕ) (xs ys : List DebitEvent)
    → cursor ≤ n + length xs
    → IsConsecutive n (xs ++ ys)
    → above cursor (xs ++ ys) ≡ above cursor xs ++ ys
unfolding above
above-++ cursor n [] ys k c = above-all cursor n ys (omega (arith, k)) c
above-++ cursor n (x ∷ xs) ys k c =
    ground (arith, above-++ cursor (suc n) xs ys (omega (arith, k)) c.1)

above-head :
    (dl : DebitLog) (seq : ℕ)
    → IsConsecutive 0 dl.events
    → seq ≡ length dl.events
    → above seq dl.events ≡ []
above-head dl seq c e =
    let all = above-IsConsecutive seq 0 dl.events (omega arith) (omega (arith, e)) c in
    elim (List-cases (above seq dl.events)) [
      | inl empty ↦ empty
      | inr (x, xs, more) ↦ absurd (omega (arith, all.1, ap length more, e))
    ]

-- More events of a log are, for both cursors, to be pulled.
still-all :
    (start cursor : ℕ) (received old more events : List DebitEvent)
    → start ≤ cursor
    → cursor ≤ length old
    → events ≡ old ++ more
    → IsConsecutive 0 events
    → received ++ above cursor old ≡ above start old
    → received ++ above cursor events ≡ above start events
still-all start cursor received old more events k b e c all =
    let both : IsConsecutive 0 (old ++ more) = subst (IsConsecutive 0) e c in
    rw
      (
        e,
        above-++ cursor 0 old more (omega (arith, b)) both,
        above-++ start 0 old more (omega (arith, k, b)) both,
      )
      (sym (++_assoc received (above cursor old) more) ∙ ap (λ evs. evs ++ more) all)

-- What was received, with what is still to be pulled, is all above the first cursor.
record Follows (marshal : DebitEvent → Option (List ℕ)) (start : ℕ) (r : Rail) : Type 0 where
  sound : IsSound marshal r.debit_log
  started : start ≤ r.puller.cursor
  behind : r.puller.cursor ≤ r.debit_log.seq
  all :
      r.puller.received ++ above r.puller.cursor r.debit_log.events ≡ above start r.debit_log.events

-- The rail after an answered pull.
abbrev pulled : Rail → Rail
pulled r = record r {
  puller = record {
    cursor = r.debit_log.seq;
    received = r.puller.received ++ above r.puller.cursor r.debit_log.events;
  };
}

-- The puller has exactly the events of the log above its first cursor, whose Seqs are consecutive up
-- to the head.
abbrev pub IsComplete : ℕ → Rail → Type 0
IsComplete start r =
    (r.puller.received ≡ above start r.debit_log.events)
    × IsConsecutive start r.puller.received
    × (start + length r.puller.received ≡ r.debit_log.seq)

pulled-IsComplete :
    (marshal : DebitEvent → Option (List ℕ)) (start : ℕ) (r : Rail)
    → Follows marshal start r
    → IsComplete start (pulled r)
pulled-IsComplete marshal start r f =
    let (chain, count) =
      above-IsConsecutive start 0 r.debit_log.events (omega arith)
        (omega (arith, f.started, f.behind, f.sound.head)) f.sound.consecutive in
    (
      f.all,
      subst (IsConsecutive start) (sym f.all) chain,
      rw f.all (omega (arith, count, f.sound.head)),
    )

module _ (S : Type 0) (marshal : DebitEvent → Option (List ℕ))
    (unmarshal : List ℕ → Option DebitEvent) (parse_uint : Text → Option ℕ) (print : ℕ → Text)
    (readers : List String) (caller : String) where
  -- A step of the log, or a pull, with the emitter as it is then.
  pub data RailOp : Type 0 where
    log_op : LogOp marshal unmarshal → RailOp
    pull_op : Option (DebitEmitter S) → RailOp

  abbrev pub answer : Option (DebitEmitter S) → Rail → Pulled
  answer emitter r =
      debits_pull_handler parse_uint readers caller (print r.puller.cursor) (some r.debit_log)
        emitter

  unfoldable pub rail_step : RailOp → Rail → Rail
  rail_step (log_op op) r = record r { debit_log = step marshal unmarshal op r.debit_log }
  rail_step (pull_op emitter) r = record r { puller = absorb (answer emitter r) r.puller }

  unfoldable pub rail_run : List RailOp → Rail → Rail
  rail_run [] r = r
  rail_run (op ∷ ops) r = rail_run ops (rail_step op r)

  rail_run-++ :
      (ops : List RailOp) (op : RailOp) (r : Rail)
      → rail_run (ops ++ op ∷ []) r ≡ rail_step op (rail_run ops r)
  unfolding rail_run
  rail_run-++ [] op r = refl
  rail_run-++ (x ∷ ops) op r = rail_run-++ ops op (rail_step x r)

  -- The page that an allowed caller gets of a sound log.
  answer-page :
      (printer : IsPrinter parse_uint print) (emitter : Option (DebitEmitter S)) (r : Rail)
      → usage_reader_allowed readers caller ≡ true
      → r.debit_log.is_open ≡ true
      → r.puller.cursor < 2 ^ 64
      → answer emitter r
        ≡ page (above r.puller.cursor r.debit_log.events) r.debit_log.seq (counters emitter)
  unfolding debits_pull_handler since enabled since_with_head
  answer-page printer emitter r allowed opened small = elim (List-cases (print r.puller.cursor)) [
    | inl empty ↦ absurd (printer.print-non_empty r.puller.cursor empty)
    | inr (c, cs, e) ↦
        rw (allowed, opened, e) (ground (arith, printer.parse-print r.puller.cursor small, e))
  ]

  module _ (printer : IsPrinter parse_uint print)
      (allowed : usage_reader_allowed readers caller ≡ true) where
    pull_op-pulled :
        (emitter : Option (DebitEmitter S)) (start : ℕ) (r : Rail)
        → Follows marshal start r
        → r.debit_log.seq < 2 ^ 64
        → rail_step (pull_op emitter) r ≡ pulled r
    unfolding rail_step absorb
    pull_op-pulled emitter start r f small =
        rw (answer-page printer emitter r allowed f.sound.opened (omega (arith, f.behind))) refl

    pulled-Follows :
        (start : ℕ) (r : Rail) → Follows marshal start r → Follows marshal start (pulled r)
    pulled-Follows start r f = record {
      sound = f.sound;
      started = omega (arith, f.started, f.behind);
      behind = omega arith;
      all =
          rw (above-head r.debit_log r.debit_log.seq f.sound.consecutive f.sound.head)
            (++_nil (r.puller.received ++ above r.puller.cursor r.debit_log.events) ∙ f.all);
    }

    log_op-Follows :
        (codec : IsCodec marshal unmarshal) (op : LogOp marshal unmarshal) (start : ℕ) (r : Rail)
        → Follows marshal start r
        → r.debit_log.seq + 1 < 2 ^ 64
        → Follows marshal start (rail_step (log_op op) r)
          × ((rail_step (log_op op) r).debit_log.seq ≤ r.debit_log.seq + 1)
    unfolding rail_step
    log_op-Follows codec op start r f k =
        let (sound, (more, e), bound) : Extends marshal unmarshal 1 r.debit_log
            (step marshal unmarshal op r.debit_log) =
          step-Extends marshal unmarshal codec op r.debit_log f.sound k in
        let longer = length-append r.debit_log.events more in
        (
          record {
            sound = sound;
            started = f.started;
            behind = omega (arith, f.behind, f.sound.head, sound.head, ap length e, longer);
            all =
                still-all start r.puller.cursor r.puller.received r.debit_log.events more _
                  f.started (omega (arith, f.behind, f.sound.head)) e sound.consecutive f.all;
          },
          bound,
        )

    run-Follows :
        (codec : IsCodec marshal unmarshal) (ops : List RailOp) (start : ℕ) (r : Rail)
        → Follows marshal start r
        → r.debit_log.seq + length ops < 2 ^ 64
        → Follows marshal start (rail_run ops r) × ((rail_run ops r).debit_log.seq < 2 ^ 64)
    unfolding rail_run
    run-Follows codec [] start r f k = (f, omega arith)
    run-Follows codec (log_op op ∷ ops) start r f k =
        let (next, bound) = log_op-Follows codec op start r f (omega arith) in
        run-Follows codec ops start (rail_step (log_op op) r) next (omega (arith, bound))
    run-Follows codec (pull_op emitter ∷ ops) start r f k =
        subst
          (λ (next : Rail).
            Follows marshal start (rail_run ops next)
            × ((rail_run ops next).debit_log.seq < 2 ^ 64))
          (sym (pull_op-pulled emitter start r f (omega arith)))
          (run-Follows codec ops start (pulled r) (pulled-Follows start r f) (omega arith))

    -- For a codec of lines that are read back, and a cursor that is read back from its query: from a
    -- sound log and a puller that is allowed, whose cursor is not above the head, after any run of
    -- appends that are durable, or fail before a byte is written, of crashes at any byte of a write,
    -- of restarts and of pulls, in any order, which cannot use up the 2^64 Seqs (an append that fails
    -- later, while the process goes on, is not in such a run), one more pull, and the puller has received exactly the events of
    -- the log above its first cursor. Their Seqs are consecutive up to the head, so each was
    -- received once, in order, and none was missed.
    pub rail_run-IsComplete :
        (codec : IsCodec marshal unmarshal) (ops : List RailOp) (emitter : Option (DebitEmitter S))
        (start : ℕ) (dl : DebitLog)
        → IsSound marshal dl
        → start ≤ dl.seq
        → dl.seq + length ops < 2 ^ 64
        → IsComplete start (
            rail_run
              (ops ++ pull_op emitter ∷ [])
              (record { debit_log = dl; puller = record { cursor = start; received = [] } }))
    rail_run-IsComplete codec ops emitter start dl sound k room =
        let r : Rail = record {
          debit_log = dl;
          puller = record { cursor = start; received = [] };
        } in
        let first : Follows marshal start r = record {
          sound = sound;
          started = omega arith;
          behind = k;
          all = refl;
        } in
        let (f, small) = run-Follows codec ops start r first room in
        rw
          (
            rail_run-++ ops (pull_op emitter) r,
            pull_op-pulled emitter start (rail_run ops r) f small,
          )
          (pulled-IsComplete marshal start (rail_run ops r) f)
