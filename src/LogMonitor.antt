-- ===== src/LogMonitor.antt =====
-- The log history (proxy/logMonitor.go): a circular byte buffer, and the monitor that writes to it.
-- A byte is any number. Whether the writer behind the monitor fails is an input of `write`; the
-- broadcast to the subscribers is left out; Levels has the levels and the format of messages.
pub mod Ring
pub mod History
pub mod Levels
mod Tests
use omniswap.Prelude.{
  ℕ, suc, zero, ◌+◌, ◌-◌, ◌%◌, Bool, true, false, Option, none, some, List, [], ◌∷◌, ◌++◌,
  if◌then◌else◌, ltb, leb, nat_beq, length, take,
}
use omniswap.Prelude.Slices.{drop}

-- `circularBuffer`
pub record CircularBuffer : Type 0 where
  pub bytes : List ℕ
  pub head : ℕ
  pub size : ℕ

abbrev pub zeros : ℕ → List ℕ
zeros zero = []
zeros (suc n) = 0 ∷ zeros n

unfoldable pub new_circular_buffer : ℕ → CircularBuffer
new_circular_buffer capacity = record { bytes = zeros capacity; head = 0; size = 0 }

-- `copy(data[i:], p)`, for an `i` up to the length of the data and a `p` that fits.
abbrev pub copy_at : List ℕ → ℕ → List ℕ → List ℕ
copy_at bytes i p = take i bytes ++ (p ++ drop (i + length p) bytes)

-- `Write`
unfoldable pub put : List ℕ → CircularBuffer → CircularBuffer
put p cb =
    let cap = length cb.bytes in
    let first_part = cap - cb.head in
    let size = if ltb cap (cb.size + length p) then cap else cb.size + length p in
    if nat_beq (length p) 0
    then cb
    else if leb cap (length p)
    then record cb { bytes = copy_at cb.bytes 0 (drop (length p - cap) p); head = 0; size = cap }
    else if leb (length p) first_part
    then record cb {
      bytes = copy_at cb.bytes cb.head p;
      head = (cb.head + length p) % cap;
      size = size;
    }
    else record cb {
      bytes = copy_at (copy_at cb.bytes cb.head (take first_part p)) 0 (drop first_part p);
      head = length p - first_part;
      size = size;
    }

-- `GetHistory`; a nil result is the empty list.
unfoldable pub get_history : CircularBuffer → List ℕ
get_history cb =
    let cap = length cb.bytes in
    let start = (cb.head + cap - cb.size) % cap in
    if nat_beq cb.size 0
    then []
    else if leb (start + cb.size) cap
    then take cb.size (drop start cb.bytes)
    else drop start cb.bytes ++ take (cb.size - (cap - start)) cb.bytes

unfoldable pub log_buffer_size : ℕ
log_buffer_size = 102400

-- `LogMonitor`, as far as the history goes; a nil buffer is `none`.
pub record LogMonitor : Type 0 where
  pub buffer : Option CircularBuffer

abbrev pub buffer_of : LogMonitor → CircularBuffer
buffer_of w = elim w.buffer [ none ↦ new_circular_buffer log_buffer_size | some cb ↦ cb ]

-- `Write`; the writer behind it may fail, and then nothing is kept.
unfoldable pub write : Bool → List ℕ → LogMonitor → LogMonitor
write fails p w =
    if nat_beq (length p) 0
    then w
    else if fails
    then w
    else record w { buffer = some (put p (buffer_of w)) }

unfoldable pub history : LogMonitor → List ℕ
history w = elim w.buffer [ none ↦ [] | some cb ↦ get_history cb ]

unfoldable pub clear : LogMonitor → LogMonitor
clear w = record w { buffer = none }

pub data Op : Type 0 where
  write_op : Bool → List ℕ → Op
  clear_op : Op

unfoldable pub run : List Op → LogMonitor → LogMonitor
run [] w = w
run (write_op fails p ∷ ops) w = run ops (write fails p w)
run (clear_op ∷ ops) w = run ops (clear w)

-- `NewLogMonitorWriter`
unfoldable pub new_log_monitor : LogMonitor
new_log_monitor = record { buffer = none }
