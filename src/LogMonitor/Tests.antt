-- ===== src/LogMonitor/Tests.antt =====
-- Tests and witnesses of the log history.
use omniswap.Prelude.{true, false, [], ◌∷◌, ◌≡◌, refl, arith}
use omniswap.Prelude.Slices.{newest}
use omniswap.LogMonitor.{
  CircularBuffer, new_circular_buffer, put, get_history, log_buffer_size, write_op, clear_op, run,
  new_log_monitor, history, write,
}
use omniswap.Prelude.Text.{Text}
use omniswap.LogMonitor.Levels.{
  Logger, new_logger, set_prefix, set_log_level, level_string, level_warn, format_message, info,
  log,
}
use omniswap.LogMonitor.Ring.{IsSound}
use omniswap.LogMonitor.History.{history-run}

-- Four bytes of room, of which three are taken.
abbrev three : CircularBuffer
three = record { bytes = 1 ∷ 2 ∷ 3 ∷ 0 ∷ []; head = 3; size = 3 }

test_fit : get_history (put (7 ∷ 8 ∷ []) (new_circular_buffer 4)) ≡ 7 ∷ 8 ∷ []
unfolding get_history put new_circular_buffer
test_fit = refl

test_wrap : get_history (put (4 ∷ 5 ∷ []) three) ≡ 2 ∷ 3 ∷ 4 ∷ 5 ∷ []
unfolding get_history put
test_wrap = refl

test_long : get_history (put (4 ∷ 5 ∷ 6 ∷ 7 ∷ 8 ∷ []) three) ≡ 5 ∷ 6 ∷ 7 ∷ 8 ∷ []
unfolding get_history put
test_long = refl

three-IsSound : IsSound three
three-IsSound = record { room = omega arith; head_in = omega arith; size_in = omega arith }

history-run_example :
    history (
      run
        (write_op false (1 ∷ [])
          ∷ clear_op
          ∷ write_op false (2 ∷ 3 ∷ [])
          ∷ write_op true (4 ∷ [])
          ∷ [])
        new_log_monitor)
    ≡ newest log_buffer_size (2 ∷ 3 ∷ [])
history-run_example =
    history-run (
      write_op false (1 ∷ [])
      ∷ clear_op
      ∷ write_op false (2 ∷ 3 ∷ [])
      ∷ write_op true (4 ∷ [])
      ∷ [])

-- At the level of quiet an info message is not written, and a warning is: "[p] [WARN] x".
abbrev clockless : Text → Text
clockless format = []

abbrev quiet : Logger
quiet = set_prefix (112 ∷ []) (set_log_level level_warn new_logger)

test_quiet : history (info clockless false (120 ∷ []) quiet).monitor ≡ []
unfolding history info log write set_prefix set_log_level new_logger new_log_monitor
test_quiet = refl

test_format :
    format_message clockless (level_string level_warn) (120 ∷ []) quiet
    ≡ 91 ∷ 112 ∷ 93 ∷ 32 ∷ 91 ∷ 87 ∷ 65 ∷ 82 ∷ 78 ∷ 93 ∷ 32 ∷ 120 ∷ 10 ∷ []
unfolding format_message level_string set_prefix set_log_level new_logger
test_format = refl
