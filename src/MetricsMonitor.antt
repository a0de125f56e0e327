-- ===== src/MetricsMonitor.antt =====
-- The token metrics of the served requests (proxy/metrics_monitor.go). A body is the list of its
-- runes. `json`, which stands for gjson, gives what the code reads of a valid JSON text; the rates,
-- which are floating-point numbers, are left out. The times are inputs.
pub mod Bounded
pub mod Stream
pub mod Billed
mod Tests
use omniswap.Prelude.{
  ℕ, zero, suc, ◌+◌, ◌-◌, String, Bool, true, false, not, ◌&&◌, ◌||◌, Option, none, some, List, [],
  ◌∷◌, ◌++◌, if◌then◌else◌, ltb, nat_beq, length, take, is_some,
}
use omniswap.Prelude.Int.{ℤ, pos, negsuc, eqb_ℤ}
use omniswap.Prelude.Slices.{drop}
use omniswap.Prelude.Text.{Text, text_eq, text_beq, trim_space, has_prefix, is_empty}
use omniswap.Gate.Wiring.{CreditCapture, status_ok}

-- `TokenMetrics`, less the two rates.
pub record TokenMetrics : Type 0 where
  pub id : ℕ
  pub timestamp : ℕ
  pub model : String
  pub client : String
  pub country : String
  pub ip : String
  pub key_fingerprint : String
  pub node : String
  pub cached_tokens : ℤ
  pub input_tokens : ℤ
  pub output_tokens : ℤ
  pub duration_ms : ℤ

-- `metricsMonitor`
pub record MetricsMonitor : Type 0 where
  pub metrics : List TokenMetrics
  pub max_metrics : ℕ
  pub next_id : ℕ

unfoldable pub new_metrics_monitor : ℕ → MetricsMonitor
new_metrics_monitor max_metrics = record { metrics = []; max_metrics = max_metrics; next_id = 0 }

-- `addMetrics`; the metric with its id is what `onRecord` and the event get.
unfoldable pub add_metrics : TokenMetrics → MetricsMonitor → MetricsMonitor × TokenMetrics
add_metrics metric mp =
    let stamped = record metric { id = mp.next_id } in
    let all = mp.metrics ++ (stamped ∷ []) in
    let kept =
      if ltb mp.max_metrics (length all) then drop (length all - mp.max_metrics) all else all in
    (record mp { metrics = kept; next_id = suc mp.next_id }, stamped)

-- `getMetrics`
unfoldable pub get_metrics : MetricsMonitor → List TokenMetrics
get_metrics mp = mp.metrics

-- What the code reads of the objects `usage` and `timings`: a field that is missing is `none`, or 0
-- where the code does not ask whether it exists. `elapsed` is the sum of the two times.
pub record UsageFields : Type 0 where
  pub prompt_tokens : Option ℤ
  pub input_tokens : Option ℤ
  pub completion_tokens : Option ℤ
  pub output_tokens : Option ℤ
  pub cache_read_input_tokens : Option ℤ

pub record TimingFields : Type 0 where
  pub prompt_n : ℤ
  pub predicted_n : ℤ
  pub elapsed : ℤ
  pub cache_n : Option ℤ

pub record Json : Type 0 where
  pub usage : Option UsageFields
  pub timings : Option TimingFields

abbrev pub or_else {ℓ} : {A : Type ℓ} → Option A → A → A
or_else none default = default
or_else (some a) default = a

abbrev pub first_of : Option ℤ → Option ℤ → ℤ
first_of none other = or_else other (pos 0)
first_of (some n) other = n

-- Who made the request and who served it, and when.
pub record Attribution : Type 0 where
  pub client : String
  pub country : String
  pub ip : String
  pub key_fingerprint : String
  pub node : String
  pub now : ℕ
  pub since_start : ℤ

abbrev pub blank : String → ℕ → TokenMetrics
blank model now = record {
  id = 0;
  timestamp = now;
  model = model;
  client = "";
  country = "";
  ip = "";
  key_fingerprint = "";
  node = "";
  cached_tokens = pos 0;
  input_tokens = pos 0;
  output_tokens = pos 0;
  duration_ms = pos 0;
}

-- `parseMetrics`
abbrev with_usage : Option UsageFields → TokenMetrics → TokenMetrics
with_usage none tm = tm
with_usage (some u) tm = record tm {
  input_tokens = first_of u.prompt_tokens u.input_tokens;
  output_tokens = first_of u.completion_tokens u.output_tokens;
  cached_tokens = or_else u.cache_read_input_tokens tm.cached_tokens;
}

abbrev with_timings : Option TimingFields → TokenMetrics → TokenMetrics
with_timings none tm = tm
with_timings (some t) tm = record tm {
  input_tokens = t.prompt_n;
  output_tokens = t.predicted_n;
  duration_ms = t.elapsed;
  cached_tokens = or_else t.cache_n tm.cached_tokens;
}

unfoldable pub parse_metrics : String → Attribution → Json → TokenMetrics
parse_metrics model a j = with_timings j.timings (
    with_usage j.usage
      (record (blank model a.now) { cached_tokens = negsuc 0; duration_ms = a.since_start }))

-- The prefix of a payload, and the text that ends a stream.
abbrev pub data_prefix : Text
data_prefix = 100 ∷ 97 ∷ 116 ∷ 97 ∷ 58 ∷ []

abbrev pub done_word : Text
done_word = 91 ∷ 68 ∷ 79 ∷ 78 ∷ 69 ∷ 93 ∷ []

abbrev pub newline : ℕ
newline = 10

-- `bytes.LastIndexByte` of a newline, plus one; 0 if there is none.
unfoldable pub line_start : Text → ℕ
line_start [] = 0
line_start (c ∷ cs) =
    let rest = line_start cs in
    if nat_beq rest 0 then (if nat_beq c newline then 1 else 0) else suc rest

-- What the handler behind `wrapHandler` has done: an error, or the response.
pub data Served : Type 0 where
  refused : Served
  responded : ℤ → Text → Option Text → Bool → Served

module _ (json : Text → Option Json) where
  -- The values of a text, if it has one of the two objects.
  abbrev pub metered : Text → Option Json
  metered text = elim (json text) [
    | none ↦ none
    | some j ↦ if is_some j.usage || is_some j.timings then some j else none
  ]

  -- What one line of a stream gives.
  unfoldable pub read_line : Text → Option Json
  read_line raw =
      let line = trim_space raw in
      let payload = trim_space (drop 5 line) in
      if is_empty line
      then none
      else if not (has_prefix data_prefix line)
      then none
      else if is_empty payload
      then none
      else if text_beq payload done_word
      then none
      else metered payload

  -- The loop of `processStreamingResponse`, from `at`, which is the code's `pos`. A line that starts at 0 is the last one.
  unfoldable pub scan_back : ℕ → Text → ℕ → Option Json
  scan_back zero body at = none
  scan_back (suc fuel) body at =
      let start = line_start (take at body) in
      let rest = scan_back fuel body (start - 1) in
      if nat_beq at 0 then none else elim (read_line (drop start (take at body))) [
        | some j ↦ some j
        | none ↦ if nat_beq start 0 then none else rest
      ]

  -- `processStreamingResponse`; no data is `none`.
  unfoldable pub process_streaming_response : Text → Option Json
  process_streaming_response body = scan_back (length body) body (length body)

  -- The metric of a response with status 200: its body, after decompression if it has an encoding,
  -- `none` if that fails, and whether it is an event stream.
  unfoldable pub read_response : String → Attribution → Text → Option Text → Bool → TokenMetrics
  read_response model a body decoded streaming =
      let minimal = record (blank model a.now) { duration_ms = a.since_start } in
      if is_empty body then minimal else elim decoded [
        | none ↦ minimal
        | some text ↦ elim (if streaming then process_streaming_response text else metered text) [
          | none ↦ minimal
          | some j ↦ parse_metrics model a j
        ]
      ]

  abbrev pub attributed : Attribution → TokenMetrics → TokenMetrics
  attributed a tm = record tm {
    client = a.client;
    country = a.country;
    ip = a.ip;
    key_fingerprint = a.key_fingerprint;
    node = a.node;
  }

  -- `wrapHandler`: the monitor, the metric that it records, and the outcome captured for the gate. On
  -- the early returns for an empty body and a failed decompression the tokens stay uncaptured.
  unfoldable pub wrap_handler :
      String
      → Attribution
      → Served
      → MetricsMonitor × CreditCapture
      → MetricsMonitor × CreditCapture × Option TokenMetrics
  wrap_handler model a refused (mp, cap) = (mp, cap, none)
  wrap_handler model a (responded status body decoded streaming) (mp, cap) =
      let seen = record cap { status = status } in
      let tm = attributed a (read_response model a body decoded streaming) in
      let (mp', recorded) = add_metrics tm mp in
      if not (eqb_ℤ status status_ok)
      then (mp, seen, none)
      else if is_empty body || not (is_some decoded)
      then (mp', seen, some recorded)
      else (mp', record seen { input = tm.input_tokens; output = tm.output_tokens }, some recorded)
