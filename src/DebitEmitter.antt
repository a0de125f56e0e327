-- ===== src/DebitEmitter.antt =====
-- The asynchronous writer of debit events (proxy/debit_emitter.go): a bounded queue, one writer. The
-- sink is a parameter, which may fail. Each step is one of the goroutines' atomic ones: an `Emit`, a
-- receive of the writer with the append of that event, or the closing of the channel in `Close`.
pub mod Account
mod Tests
use omniswap.Prelude.{
  ℕ, zero, suc, String, Bool, true, false, List, [], ◌∷◌, ◌++◌, if◌then◌else◌, ltb, length,
}
use omniswap.Prelude.Int.{ℤ, pos, leb_ℤ, pos_part}
use omniswap.Prelude.Word.{add64}
use omniswap.DebitLog.{DebitEvent}

-- `debitEmitter`, with the state `S` of its sink; `buf_size` is the capacity of the channel.
pub record DebitEmitter (S : Type 0) : Type 0 where
  pub sink : S
  pub ch : List DebitEvent
  pub buf_size : ℕ
  pub dropped : ℤ
  pub appended : ℤ
  pub failed : ℤ
  pub closed : Bool

unfoldable pub new_debit_emitter : {S : Type 0} → S → ℤ → DebitEmitter S
new_debit_emitter sink buf_size = record {
  sink = sink;
  ch = [];
  buf_size = if leb_ℤ buf_size (pos 0) then 1024 else pos_part buf_size;
  dropped = pos 0;
  appended = pos 0;
  failed = pos 0;
  closed = false;
}

module _ {S : Type 0} where
  unfoldable pub emit : DebitEvent → DebitEmitter S → DebitEmitter S
  emit ev e =
      if e.closed
      then e
      else if ltb (length e.ch) e.buf_size
      then record e { ch = e.ch ++ ev ∷ [] }
      else record e { dropped = add64 e.dropped (pos 1) }

  -- `Close` up to the wait for the writer.
  unfoldable pub close : DebitEmitter S → DebitEmitter S
  close e = record e { closed = true }

  module _ (append : DebitEvent → S → S × Bool) where
    -- One round of the loop of `run`: `append` returns the sink, and whether it succeeded.
    abbrev pub wrote : DebitEvent → List DebitEvent → S × Bool → DebitEmitter S → DebitEmitter S
    wrote ev evs out e =
        if out.1
        then record e { ch = evs; sink = out.0; appended = add64 e.appended (pos 1) }
        else record e { ch = evs; sink = out.0; failed = add64 e.failed (pos 1) }

    unfoldable pub write_one : DebitEmitter S → DebitEmitter S
    write_one e = elim e.ch [ [] ↦ e | ev ∷ evs ↦ wrote ev evs (append ev e.sink) e ]

    -- The rest of `Close`: the writer drains the channel. The fuel is the number of queued events.
    unfoldable pub drain : ℕ → DebitEmitter S → DebitEmitter S
    drain zero e = e
    drain (suc n) e = drain n (write_one e)

    unfoldable pub close_and_wait : DebitEmitter S → DebitEmitter S
    close_and_wait e = if e.closed then e else (let c = close e in drain (length c.ch) c)
