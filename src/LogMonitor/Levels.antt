-- ===== src/LogMonitor/Levels.antt =====
-- The levels and the format of log messages (proxy/logMonitor.go). A text is a list of bytes. The
-- clock's text for a format, and `fmt.Sprintf` for the calls with arguments, are parameters; whether
-- the writer behind the monitor fails is an input.
use omniswap.Prelude.{ℕ, Bool, List, [], ◌∷◌, ◌++◌, if◌then◌else◌, ltb, nat_beq}
use omniswap.Prelude.Text.{Text, is_empty}
use omniswap.LogMonitor.{LogMonitor, write, new_log_monitor}

-- The constants of `LogLevel`, which is an int.
abbrev pub level_debug : ℕ
level_debug = 0

abbrev pub level_info : ℕ
level_info = 1

abbrev pub level_warn : ℕ
level_warn = 2

abbrev pub level_error : ℕ
level_error = 3

-- `LogMonitor`, with the settings.
pub record Logger : Type 0 where
  pub monitor : LogMonitor
  pub level : ℕ
  pub prefix : Text
  pub time_format : Text

-- `NewLogMonitorWriter`, with the settings.
unfoldable pub new_logger : Logger
new_logger = record { monitor = new_log_monitor; level = level_info; prefix = []; time_format = [] }

unfoldable pub set_prefix : Text → Logger → Logger
set_prefix prefix w = record w { prefix = prefix }

unfoldable pub set_log_level : ℕ → Logger → Logger
set_log_level level w = record w { level = level }

unfoldable pub set_log_time_format : Text → Logger → Logger
set_log_time_format time_format w = record w { time_format = time_format }

-- `String`: "DEBUG", "INFO", "WARN", "ERROR" and "UNKNOWN".
unfoldable pub level_string : ℕ → Text
level_string l =
    if nat_beq l level_debug
    then 68 ∷ 69 ∷ 66 ∷ 85 ∷ 71 ∷ []
    else if nat_beq l level_info
    then 73 ∷ 78 ∷ 70 ∷ 79 ∷ []
    else if nat_beq l level_warn
    then 87 ∷ 65 ∷ 82 ∷ 78 ∷ []
    else if nat_beq l level_error
    then 69 ∷ 82 ∷ 82 ∷ 79 ∷ 82 ∷ []
    else 85 ∷ 78 ∷ 75 ∷ 78 ∷ 79 ∷ 87 ∷ 78 ∷ []

-- A text in brackets, and a space.
abbrev pub bracketed : Text → Text
bracketed t = 91 ∷ (t ++ (93 ∷ 32 ∷ []))

module _ (now : Text → Text) where
  -- `formatMessage`
  unfoldable pub format_message : Text → Text → Logger → List ℕ
  format_message level msg w =
      let prefix = if is_empty w.prefix then [] else bracketed w.prefix in
      let timestamp = if is_empty w.time_format then [] else now w.time_format ++ (32 ∷ []) in
      timestamp ++ (prefix ++ (bracketed level ++ (msg ++ (10 ∷ []))))

  -- `log`
  unfoldable pub log : Bool → ℕ → Text → Logger → Logger
  log fails level msg w =
      if ltb level w.level
      then w
      else record w { monitor = write fails (format_message (level_string level) msg w) w.monitor }

  unfoldable pub debug : Bool → Text → Logger → Logger
  debug fails msg w = log fails level_debug msg w

  unfoldable pub info : Bool → Text → Logger → Logger
  info fails msg w = log fails level_info msg w

  unfoldable pub warn : Bool → Text → Logger → Logger
  warn fails msg w = log fails level_warn msg w

  unfoldable pub error : Bool → Text → Logger → Logger
  error fails msg w = log fails level_error msg w

  module _ {ℓ} {A : Type ℓ} (sprintf : Text → List A → Text) where
    unfoldable pub debugf : Bool → Text → List A → Logger → Logger
    debugf fails format args w = log fails level_debug (sprintf format args) w

    unfoldable pub infof : Bool → Text → List A → Logger → Logger
    infof fails format args w = log fails level_info (sprintf format args) w

    unfoldable pub warnf : Bool → Text → List A → Logger → Logger
    warnf fails format args w = log fails level_warn (sprintf format args) w

    unfoldable pub errorf : Bool → Text → List A → Logger → Logger
    errorf fails format args w = log fails level_error (sprintf format args) w
