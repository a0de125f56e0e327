-- ===== src/ProxyManager/Debits.antt =====
-- The billing rail of proxy/proxymanager.go: `emitDebit`, which turns a metered request into an
-- event, and `debitsPullHandler`, from which the puller reads the log. The random request id and
-- `strconv.ParseUint` are outside.
pub mod Polled
mod Tests
use omniswap.Prelude.{
  ℕ, String, Bool, true, false, not, Option, none, some, List, [], ◌∷◌, if◌then◌else◌,
}
use omniswap.Prelude.Int.{ℤ, pos}
use omniswap.Prelude.Text.{Text}
use omniswap.UsageMeter.{usage_reader_allowed}
use omniswap.MetricsMonitor.{TokenMetrics}
use omniswap.DebitLog.{DebitEvent, DebitLog, enabled, since_with_head}
use omniswap.DebitEmitter.{DebitEmitter, emit}

-- The event of a metered request; the log stamps its Seq.
unfoldable pub debit_event : String → TokenMetrics → DebitEvent
debit_event rid tm = record {
  request_id = rid;
  seq = 0;
  ts = pos tm.timestamp;
  key_fingerprint = tm.key_fingerprint;
  client_label = tm.client;
  model = tm.model;
  input_tokens = tm.input_tokens;
  output_tokens = tm.output_tokens;
  node = tm.node;
  country = tm.country;
}

-- `emitDebit`: `rid` is what `mintRequestID` gives, none if it failed.
unfoldable pub emit_debit :
    {S : Type 0} → Option String → TokenMetrics → Option (DebitEmitter S) → Option (DebitEmitter S)
emit_debit rid tm none = none
emit_debit none tm (some e) = some e
emit_debit (some rid) tm (some e) = some (emit (debit_event rid tm) e)

-- The counters of the emitter that a page shows.
pub record Counters : Type 0 where
  pub dropped : ℤ
  pub failed : ℤ
  pub appended : ℤ

-- What the handler answers.
pub data Pulled : Type 0 where
  forbidden disabled : Pulled
  page : List DebitEvent → ℕ → Option Counters → Pulled

abbrev pub counters : {S : Type 0} → Option (DebitEmitter S) → Option Counters
counters none = none
counters (some e) = some (record { dropped = e.dropped; failed = e.failed; appended = e.appended })

module _ (parse_uint : Text → Option ℕ) where
  -- The cursor of a query, 0 if it is empty or not a number.
  unfoldable pub since : Text → ℕ
  since [] = 0
  since (c ∷ cs) = elim (parse_uint (c ∷ cs)) [ none ↦ 0 | some v ↦ v ]

  -- `debitsPullHandler`
  unfoldable pub debits_pull_handler :
      {S : Type 0}
      → List String
      → String
      → Text
      → Option DebitLog
      → Option (DebitEmitter S)
      → Pulled
  debits_pull_handler readers caller query debit_log emitter =
      if not (usage_reader_allowed readers caller) then forbidden else elim debit_log [
        | none ↦ disabled
        | some dl ↦
            if not (enabled dl)
            then disabled
            else (let (events, head) = since_with_head (since query) dl in
                page events head (counters emitter))
      ]
