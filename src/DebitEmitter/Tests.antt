-- ===== src/DebitEmitter/Tests.antt =====
-- The emitter on a sink that counts, and its theorems at inputs that meet their hypotheses.
use omniswap.Prelude.{
  ℕ, suc, ◌+◌, Bool, true, false, List, [], ◌∷◌, ◌≡◌, refl, arith, if◌then◌else◌,
}
use omniswap.Prelude.Int.{ℤ, pos, leb_ℤ}
use omniswap.DebitLog.{DebitEvent}
use omniswap.DebitEmitter.{DebitEmitter, close_and_wait}
use omniswap.DebitEmitter.Account.{
  EmitterOp, emit_op, write_op, close_op, run, emitted, append_all, IsBalanced, run-IsBalanced,
  close_and_wait_lem,
}

abbrev event : ℤ → DebitEvent
event tokens = record {
  request_id = "r";
  seq = 0;
  ts = pos 0;
  key_fingerprint = "k";
  client_label = "c";
  model = "m";
  input_tokens = tokens;
  output_tokens = pos 1;
  node = "n";
  country = "";
}

-- A sink that counts, and that fails for events without input tokens.
abbrev sink : DebitEvent → ℕ → ℕ × Bool
sink ev n = if leb_ℤ ev.input_tokens (pos 0) then (n, false) else (suc n, true)

abbrev emitter : DebitEmitter ℕ
emitter = record {
  sink = 0;
  ch = [];
  buf_size = 2;
  dropped = pos 0;
  appended = pos 0;
  failed = pos 0;
  closed = false;
}

abbrev ops : List EmitterOp
ops =
    emit_op (event (pos 3))
    ∷ emit_op (event (pos 0))
    ∷ emit_op (event (pos 4))
    ∷ write_op
    ∷ close_op
    ∷ []

emitter-IsBalanced : IsBalanced sink 0 emitter
emitter-IsBalanced = record {
  done = 0;
  lost = 0;
  shed = 0;
  appended = refl;
  failed = refl;
  dropped = refl;
  balance = refl;
  bounded = omega arith;
}

run-IsBalanced_example : IsBalanced sink (0 + emitted sink ops emitter) (run sink ops emitter)
run-IsBalanced_example = run-IsBalanced sink ops 0 emitter emitter-IsBalanced (omega arith)

abbrev queued : DebitEmitter ℕ
queued = record emitter { ch = event (pos 3) ∷ event (pos 0) ∷ [] }

close_and_wait_lem_example :
    ((close_and_wait sink queued).ch ≡ [])
    × ((close_and_wait sink queued).sink ≡ append_all sink queued.ch 0)
    × ((close_and_wait sink queued).closed ≡ true)
    × ((close_and_wait sink queued).dropped ≡ pos 0)
close_and_wait_lem_example = close_and_wait_lem sink queued refl
