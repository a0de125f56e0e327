-- ===== src/DebitLog/Crashes.antt =====
-- Runs of the debit log (proxy/debit_log.go) in which the process may crash in the middle of a
-- write, and is started again on the file as it is then. An append that returns an error after some
-- bytes of its line are written, while the process goes on, is not an operation of these runs: the
-- next append would then repeat its Seq, or write behind a torn line.
use omniswap.Prelude.{
  ℕ, zero, suc, ◌+◌, ◌≤◌, ◌<◌, ◌^◌, true, Option, some, List, [], ◌∷◌, ◌++◌, ◌≡◌, refl, arith, All,
  sym, ++_assoc, ++_nil, length, take, Option-cases, inl, inr, ◌⊎◌,
}
use omniswap.DebitLog.{
  DebitEvent, DebitLog, durable, short, with_newline, next_seq, append, open_log,
}
use omniswap.DebitLog.Codec.{NotNewline, IsCodec}
use omniswap.DebitLog.Restore.{open_log-encoded}
use omniswap.DebitLog.Watermark.{IsSound, append-IsSound, max_seqs-length}

-- A write of a line that stops early leaves bytes without a newline, or the whole line.
take_line :
    (n : ℕ) (line : List ℕ)
    → All NotNewline line
    → All NotNewline (take n (with_newline line)) ⊎ (take n (with_newline line) ≡ with_newline line)
take_line zero line h = inl tt
take_line (suc zero) [] h = inr refl
take_line (suc (suc n)) [] h = inr refl
take_line (suc n) (b ∷ line) h = elim (take_line n line h.1) [
  | inl torn ↦ inl (h.0, torn)
  | inr whole ↦ inr (rw whole refl)
]

module _ (marshal : DebitEvent → Option (List ℕ)) (unmarshal : List ℕ → Option DebitEvent) where
  -- One event of a run: an append that is durable, or fails since its event has no encoding; one
  -- whose write fails before its first byte; one in which the process crashes after `n` bytes and is
  -- started again; and a restart.
  pub data LogOp : Type 0 where
    refused_op : DebitEvent → LogOp
    append_op : DebitEvent → LogOp
    crash_op : DebitEvent → ℕ → LogOp
    restart_op : LogOp

  unfoldable pub step : LogOp → DebitLog → DebitLog
  step (refused_op ev) dl = (append marshal (short 0) ev dl).0
  step (append_op ev) dl = (append marshal durable ev dl).0
  step (crash_op ev n) dl = open_log unmarshal (append marshal (short n) ev dl).0.file
  step restart_op dl = open_log unmarshal dl.file

  unfoldable pub run : List LogOp → DebitLog → DebitLog
  run [] dl = dl
  run (op ∷ ops) dl = run ops (step op dl)

  -- A sound log that extends another one, by `n` events at most.
  abbrev pub Extends : ℕ → DebitLog → DebitLog → Type 0
  Extends n old dl =
      IsSound marshal dl
      × ((more : List DebitEvent) × (dl.events ≡ old.events ++ more))
      × (dl.seq ≤ old.seq + n)

  module _ (codec : IsCodec marshal unmarshal) where
    reopened :
        (n : ℕ) (old dl : DebitLog) (torn : List ℕ)
        → All NotNewline torn
        → Extends n old dl
        → Extends n old (open_log unmarshal (dl.file ++ torn))
    reopened n old dl torn t (h, (more, e), k) =
        rw
          (
            open_log-encoded marshal unmarshal codec dl.events dl.file torn h.encoded t,
            max_seqs-length dl.events h.consecutive,
          )
          (
            record { opened = refl; encoded = h.encoded; consecutive = h.consecutive; head = refl },
            (more, e),
            omega (arith, h.head),
          )

    still : (dl : DebitLog) → IsSound marshal dl → Extends 1 dl dl
    still dl h = (h, ([], sym (++_nil dl.events)), omega arith)

    restart : (dl : DebitLog) → IsSound marshal dl → Extends 1 dl (open_log unmarshal dl.file)
    restart dl h = rw⁻¹ (++_nil dl.file) (reopened 1 dl dl [] tt (still dl h))

    -- The log that a durable append of the line leaves.
    abbrev appended : DebitEvent → List ℕ → DebitLog → DebitLog
    appended ev line dl = record dl {
      is_open = true;
      file = dl.file ++ with_newline line;
      seq = next_seq dl.seq;
      events = dl.events ++ record ev { seq = next_seq dl.seq } ∷ [];
    }

    appended-Extends :
        (ev : DebitEvent) (dl : DebitLog) (line : List ℕ)
        → IsSound marshal dl
        → dl.seq + 1 < 2 ^ 64
        → marshal (record ev { seq = next_seq dl.seq }) ≡ some line
        → Extends 1 dl (appended ev line dl)
    appended-Extends ev dl line h k m =
        (append-IsSound marshal ev dl line h k m, (_, refl), omega arith)

    -- A crash in the write of a line loses the line, or keeps it whole.
    torn-Extends :
        (ev : DebitEvent) (n : ℕ) (dl : DebitLog) (line : List ℕ)
        → IsSound marshal dl
        → dl.seq + 1 < 2 ^ 64
        → marshal (record ev { seq = next_seq dl.seq }) ≡ some line
        → Extends 1 dl (open_log unmarshal (dl.file ++ take n (with_newline line)))
    torn-Extends ev n dl line h k m = elim (take_line n line (codec.one_line _ line m)) [
      | inl torn ↦ reopened 1 dl dl (take n (with_newline line)) torn (still dl h)
      | inr whole ↦
          let l = appended ev line dl in
          rw whole
            (rw⁻¹ (++_nil l.file) (reopened 1 dl l [] tt (appended-Extends ev dl line h k m)))
    ]

    unwritten :
        (ev : DebitEvent) (dl : DebitLog)
        → dl.is_open ≡ true
        → (append marshal (short 0) ev dl).0 ≡ dl
    unfolding append
    unwritten ev dl opened = elim (Option-cases (marshal (record ev { seq = next_seq dl.seq }))) [
      | inl bad ↦ ground (arith, opened, bad)
      | inr (line, m) ↦ ground (arith, opened, m, ++_nil dl.file)
    ]

    pub step-Extends :
        (op : LogOp) (dl : DebitLog)
        → IsSound marshal dl
        → dl.seq + 1 < 2 ^ 64
        → Extends 1 dl (step op dl)
    unfolding step append
    step-Extends restart_op dl h k = restart dl h
    step-Extends (refused_op ev) dl h k = rw (unwritten ev dl h.opened) (still dl h)
    step-Extends (append_op ev) dl h k =
        elim (Option-cases (marshal (record ev { seq = next_seq dl.seq }))) [
          | inl bad ↦
              rw (h.opened, bad, append)
                (
                  record {
                    opened = refl;
                    encoded = h.encoded;
                    consecutive = h.consecutive;
                    head = h.head;
                  },
                  ([], sym (++_nil dl.events)),
                  omega arith,
                )
          | inr (line, m) ↦ rw (h.opened, m, append) (appended-Extends ev dl line h k m)
        ]
    step-Extends (crash_op ev n) dl h k =
        elim (Option-cases (marshal (record ev { seq = next_seq dl.seq }))) [
          | inl bad ↦ rw (h.opened, bad, append) (restart dl h)
          | inr (line, m) ↦ rw (h.opened, m, append) (torn-Extends ev n dl line h k m)
        ]

    -- For a codec of lines that are read back: from a sound log, any run of appends that are durable,
    -- or fail before a byte is written, of crashes at any byte of a write, and of restarts, which
    -- cannot use up the 2^64 Seqs, ends in a sound log (an append that fails later, while the process
    -- goes on, is not in such a run). The file holds the events in memory, whose Seqs are 1, 2, ...,
    -- up to the head. The events at the start are still there with their Seqs, so none is lost and
    -- none of these Seqs is used again.
    pub run_keeps_watermark :
        (ops : List LogOp) (dl : DebitLog)
        → IsSound marshal dl
        → dl.seq + length ops < 2 ^ 64
        → IsSound marshal (run ops dl)
          × ((more : List DebitEvent) × ((run ops dl).events ≡ dl.events ++ more))
    unfolding run
    run_keeps_watermark [] dl h k = (h, ([], sym (++_nil dl.events)))
    run_keeps_watermark (op ∷ ops) dl h k =
        let one = step-Extends op dl h (omega arith) in
        let rest = run_keeps_watermark ops (step op dl) one.0 (omega (arith, one.2)) in
        (
          rest.0,
          (one.1.0 ++ rest.1.0, rw (rest.1.1, one.1.1) (++_assoc dl.events one.1.0 rest.1.0)),
        )
