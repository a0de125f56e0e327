-- ===== src/UsageMeter/File.antt =====
-- The persistence of the rollup and the handlers of proxy/usage_meter.go. The bytes of a file are
-- those that `marshal` makes; a file that is missing or unreadable is `none`.
use omniswap.Prelude.{
  String, Bool, true, false, not, ◌||◌, Option, none, some, List, [], if◌then◌else◌,
}
use omniswap.Prelude.Keys.{string_eq, ◌==◌}
use omniswap.UsageMeter.{
  UsagePersist, UsageMeter, Snapshot, snapshot, value_or, usage_reader_allowed,
}

-- What the environment answers to one flush.
pub record Outcome : Type 0 where
  pub marshalled : Bool
  pub written : Bool
  pub renamed : Bool

abbrev pub persist_of : UsageMeter → UsagePersist
persist_of m = record { clients = some m.clients; countries = some m.countries; ips = some m.ips }

-- What the handlers answer.
pub data Answer : Type 0 where
  forbidden : Answer
  empty_usage : Answer
  usage : Snapshot → Answer
  reset_done : Answer

-- `usageHandler`
unfoldable pub usage_handler : List String → String → Option UsageMeter → Answer
usage_handler readers caller meter =
    if not (usage_reader_allowed readers caller)
    then forbidden
    else elim meter [ none ↦ empty_usage | some m ↦ usage (snapshot m) ]

-- The part of `Reset` that is under the lock.
unfoldable pub cleared : UsageMeter → UsageMeter
cleared m = record m { clients = []; countries = []; ips = []; dirty = true }

module _ {ℓ} (Bytes : Type ℓ) (marshal : UsagePersist → Bytes)
    (unmarshal : Bytes → Option UsagePersist) where
  -- `flush` up to the unlocking of the meter: the bytes that are to be written, if there are any.
  unfoldable pub begin_flush : Bool → UsageMeter → UsageMeter × Option Bytes
  begin_flush marshalled m =
      if not m.dirty || m.path == ""
      then (m, none)
      else if not marshalled
      then (m, none)
      else (record m { dirty = false }, some (marshal (persist_of m)))

  -- The rest of `flush`, without the lock: the file that the write and the renaming leave.
  unfoldable pub end_flush : Outcome → Option Bytes → Option Bytes → Option Bytes
  end_flush out none file = file
  end_flush out (some bytes) file =
      if not out.written then file else if out.renamed then some bytes else file

  -- `flush`, with the file at the meter's path, when nothing comes between its two parts.
  unfoldable pub flush : Outcome → UsageMeter → Option Bytes → UsageMeter × Option Bytes
  flush out m file =
      let (m', bytes) = begin_flush out.marshalled m in (m', end_flush out bytes file)

  -- `load`
  unfoldable pub load : Option Bytes → UsageMeter → UsageMeter
  load file m = if m.path == "" then m else elim file [
    | none ↦ m
    | some b ↦ elim (unmarshal b) [
      | none ↦ m
      | some snap ↦ record m {
        clients = value_or m.clients snap.clients;
        countries = value_or m.countries snap.countries;
        ips = value_or m.ips snap.ips;
      }
    ]
  ]

  -- `NewUsageMeter`
  unfoldable pub new_usage_meter : String → Option Bytes → UsageMeter
  new_usage_meter path file =
      load file (record { path = path; clients = []; countries = []; ips = []; dirty = false })

  -- `Reset`: the meter is cleared under its lock, and then flushed.
  unfoldable pub reset : Outcome → UsageMeter → Option Bytes → UsageMeter × Option Bytes
  reset out m file = flush out (cleared m) file

  -- `usageResetHandler`
  unfoldable pub usage_reset_handler :
      List String
      → String
      → Outcome
      → Option UsageMeter
      → Option Bytes
      → Answer × Option UsageMeter × Option Bytes
  usage_reset_handler readers caller out meter file =
      if not (usage_reader_allowed readers caller) then (forbidden, meter, file) else elim meter [
        | none ↦ (reset_done, none, file)
        | some m ↦ let (m', file') = reset out m file in (reset_done, some m', file')
      ]
