-- ===== src/DebitLog.antt =====
-- The durable debit log (proxy/debit_log.go): a file of lines, one per event, and its copy in memory.
-- The JSON codec is a parameter. The file is the list of its bytes; how a write to it ends is an
-- input of `append`, and files that cannot be opened, read or truncated are left out.
pub mod Codec
pub mod Restore
pub mod Watermark
pub mod Crashes
pub mod Tests
use omniswap.Prelude.{
  ℕ, suc, ◌+◌, ◌%◌, ◌^◌, String, Bool, true, false, not, Option, none, some, List, [], ◌∷◌, ◌++◌,
  if◌then◌else◌, ltb, nat_beq, length, take,
}
use omniswap.Prelude.Int.{ℤ}

pub record DebitEvent : Type 0 where
  pub request_id : String
  pub seq : ℕ
  pub ts : ℤ
  pub key_fingerprint : String
  pub client_label : String
  pub model : String
  pub input_tokens : ℤ
  pub output_tokens : ℤ
  pub node : String
  pub country : String

-- `debitLog`, with its file: `is_open` says that there is an append handle.
pub record DebitLog : Type 0 where
  pub is_open : Bool
  pub seq : ℕ
  pub events : List DebitEvent
  pub file : List ℕ

-- How a write ends: the line is durable, a part of it was written, or the sync failed.
pub data WriteEnd : Type 0 where
  durable unsynced : WriteEnd
  short : ℕ → WriteEnd

abbrev pub newline : ℕ
newline = 10

-- `append(line, '\n')`
abbrev pub with_newline : List ℕ → List ℕ
with_newline line = line ++ newline ∷ []

-- A `uint64` one higher.
abbrev pub next_seq : ℕ → ℕ
next_seq n = (n + 1) % 2 ^ 64

unfoldable pub enabled : DebitLog → Bool
enabled dl = dl.is_open

unfoldable pub close : DebitLog → DebitLog
close dl = record dl { is_open = false }

unfoldable pub above : ℕ → List DebitEvent → List DebitEvent
above cursor [] = []
above cursor (ev ∷ evs) =
    let rest = above cursor evs in if ltb cursor ev.seq then ev ∷ rest else rest

-- The events above the cursor, and the head.
unfoldable pub since_with_head : ℕ → DebitLog → List DebitEvent × ℕ
since_with_head cursor dl = (above cursor dl.events, dl.seq)

unfoldable pub high_water : DebitLog → ℕ
high_water dl = dl.seq

module _ (marshal : DebitEvent → Option (List ℕ)) where
  -- `Append`: the log, the stamped event, and whether there was no error.
  unfoldable pub append : WriteEnd → DebitEvent → DebitLog → DebitLog × DebitEvent × Bool
  append end ev dl =
      let stamped = record ev { seq = next_seq dl.seq } in
      if not dl.is_open then (dl, ev, true) else elim (marshal stamped) [
        | none ↦ (dl, stamped, false)
        | some line ↦ elim end [
          | short n ↦ (record dl { file = dl.file ++ take n (with_newline line) }, stamped, false)
          | unsynced ↦ (record dl { file = dl.file ++ with_newline line }, stamped, false)
          | durable ↦ (
            record dl {
              file = dl.file ++ with_newline line;
              seq = stamped.seq;
              events = dl.events ++ stamped ∷ [];
            },
            stamped,
            true,
          )
        ]
      ]

-- What the loop of `load` has found when it ends: the events, the highest Seq, and the length of the
-- good part of the file.
pub record Loaded : Type 0 where
  pub events : List DebitEvent
  pub max_seq : ℕ
  pub good_offset : ℕ

abbrev nothing_loaded : Loaded
nothing_loaded = record { events = []; max_seq = 0; good_offset = 0 }

abbrev max_nat : ℕ → ℕ → ℕ
max_nat a b = if ltb a b then b else a

abbrev loaded_line : DebitEvent → List ℕ → Loaded → Loaded
loaded_line ev line rest = record {
  events = ev ∷ rest.events;
  max_seq = max_nat ev.seq rest.max_seq;
  good_offset = length line + rest.good_offset;
}

module _ (unmarshal : List ℕ → Option DebitEvent) where
  -- The loop: `line` is what `ReadBytes` has read of the current line.
  unfoldable pub load_loop : List ℕ → List ℕ → Loaded
  load_loop line [] = nothing_loaded
  load_loop line (b ∷ bs) =
      let more = load_loop (line ++ b ∷ []) bs in
      let rest = load_loop [] bs in
      if nat_beq b newline
      then elim (unmarshal (line ++ b ∷ [])) [
        | none ↦ nothing_loaded
        | some ev ↦ loaded_line ev (line ++ b ∷ []) rest
      ]
      else more

  -- `newDebitLog` on a path that is set: it loads the file, truncates it to its good part, and opens
  -- it for appending. A file that is missing is an empty one.
  unfoldable pub open_log : List ℕ → DebitLog
  open_log file =
      let l = load_loop [] file in
      record { is_open = true; seq = l.max_seq; events = l.events; file = take l.good_offset file }
