-- ===== src/ProxyManager/Debits/Tests.antt =====
-- Tests of the billing rail, and its theorem at inputs that meet its hypotheses.
use omniswap.Prelude.{
  ℕ, ◌-◌, true, false, Option, none, some, List, [], ◌∷◌, ◌++◌, ◌≡◌, refl, ap, arith, length,
}
use omniswap.Prelude.Int.{pos}
use omniswap.Prelude.Text.{Text}
use omniswap.UsageMeter.{usage_reader_allowed}
use omniswap.DebitLog.{with_newline, enabled, since_with_head, above}
use omniswap.DebitLog.Tests.{plain, ones, length-ones, marshal, unmarshal, codec, two, two-IsSound}
use omniswap.DebitLog.Crashes.{append_op, crash_op}
use omniswap.MetricsMonitor.{TokenMetrics}
use omniswap.DebitEmitter.{DebitEmitter, new_debit_emitter, emit}
use omniswap.ProxyManager.Debits.{
  debit_event, emit_debit, forbidden, disabled, page, since, debits_pull_handler,
}
use omniswap.ProxyManager.Debits.Polled.{
  IsPrinter, RailOp, log_op, pull_op, rail_run, IsComplete, rail_run-IsComplete,
}

-- A number as that many ones, and a mark.
abbrev print : ℕ → Text
print n = with_newline (ones n)

abbrev parse_uint : Text → Option ℕ
parse_uint t = some (length t - 1)

printer : IsPrinter parse_uint print
printer = record {
  parse-print = λ n small. ap some (omega (arith, length-ones n));
  print-non_empty = λ n e. omega (arith, length-ones n, ap length e);
}

abbrev no_emitter : Option (DebitEmitter Unit)
no_emitter = none

test_forbidden : debits_pull_handler parse_uint [] "peer" [] (some two) no_emitter ≡ forbidden
unfolding debits_pull_handler usage_reader_allowed
test_forbidden = refl

test_disabled :
    debits_pull_handler parse_uint [] "admin" [] (some (record two { is_open = false })) no_emitter
    ≡ disabled
unfolding debits_pull_handler usage_reader_allowed enabled
test_disabled = refl

test_page :
    debits_pull_handler parse_uint [] "admin" (print 1) (some two) no_emitter
    ≡ page (plain 2 ∷ []) 2 none
unfolding debits_pull_handler usage_reader_allowed enabled since since_with_head above
test_page = refl

-- An event that has no request id is dropped, and another one is queued.
abbrev metric : TokenMetrics
metric = record {
  id = 3;
  timestamp = 0;
  model = "m";
  client = "c";
  country = "";
  ip = "i";
  key_fingerprint = "k";
  node = "n";
  cached_tokens = pos 0;
  input_tokens = pos 10;
  output_tokens = pos 5;
  duration_ms = pos 7;
}

abbrev emitter : DebitEmitter Unit
emitter = new_debit_emitter tt (pos 1)

test_dropped : emit_debit none metric (some emitter) ≡ some emitter
unfolding emit_debit
test_dropped = refl

test_queued :
    emit_debit (some "r") metric (some emitter) ≡ some (record emitter { ch = plain 0 ∷ [] })
unfolding emit_debit debit_event emit new_debit_emitter
test_queued = refl

-- A pull, an append, a crash after two bytes of the next line, and another append.
abbrev ops : List (RailOp Unit marshal unmarshal parse_uint print [] "admin")
ops =
    pull_op none
    ∷ log_op (append_op (plain 0))
    ∷ log_op (crash_op (plain 0) 2)
    ∷ pull_op none
    ∷ log_op (append_op (plain 9))
    ∷ []

admin_reads : usage_reader_allowed [] "admin" ≡ true
unfolding usage_reader_allowed
admin_reads = refl

rail_run-IsComplete_example : IsComplete 1 (
    rail_run Unit marshal unmarshal parse_uint print [] "admin"
      (ops ++ pull_op none ∷ [])
      (record { debit_log = two; puller = record { cursor = 1; received = [] } }))
rail_run-IsComplete_example =
    rail_run-IsComplete Unit marshal unmarshal parse_uint print [] "admin" printer admin_reads codec
      ops none 1 two two-IsSound (omega arith) (omega arith)
