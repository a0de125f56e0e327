-- ===== src/MetricsMonitor/Tests.antt =====
-- Tests and witnesses of the token metrics.
use omniswap.Prelude.{false, true, Option, none, some, [], ◌∷◌, ◌≡◌, refl, if◌then◌else◌}
use omniswap.Prelude.Int.{pos}
use omniswap.Prelude.Slices.{newest}
use omniswap.Prelude.Text.{Text, trim_left, trim_right, is_space, has_prefix, split}
use omniswap.Pricing.{PriceBook}
use omniswap.Ledger.{CreditLedger, Reservation, reserve, set_allowance, new_credit_ledger}
use omniswap.Gate.{CreditGate, new_credit_gate}
use omniswap.MetricsMonitor.{
  TokenMetrics, new_metrics_monitor, get_metrics, Json, Attribution, blank, Served, responded,
  newline, line_start, read_line, scan_back, process_streaming_response,
}
use omniswap.MetricsMonitor.Bounded.{add_all, numbered, get_metrics-add_all}
use omniswap.MetricsMonitor.Stream.{last_data, process_streaming_response-last_data}

abbrev tm : TokenMetrics
tm = blank "m" 1

get_metrics-add_all_example :
    get_metrics (add_all (tm ∷ tm ∷ tm ∷ []) (new_metrics_monitor 2))
    ≡ newest 2 (numbered 0 (tm ∷ tm ∷ tm ∷ []))
unfolding new_metrics_monitor
get_metrics-add_all_example =
    get_metrics-add_all (tm ∷ tm ∷ tm ∷ []) (new_metrics_monitor 2) [] refl

-- Every text "{…" is JSON with seven prompt tokens.
abbrev seven : Json
seven = record {
  usage = some (record {
    prompt_tokens = some (pos 7);
    input_tokens = none;
    completion_tokens = some (pos 3);
    output_tokens = none;
    cache_read_input_tokens = none;
  });
  timings = none;
}

abbrev braces : Text → Option Json
braces [] = none
braces (c ∷ cs) = if has_prefix (123 ∷ []) (c ∷ cs) then some seven else none

-- A payload with usage, a blank line, the end mark and a blank line.
abbrev stream : Text
stream =
    100 ∷ 97 ∷ 116 ∷ 97 ∷ 58 ∷ 123 ∷ 125 ∷ 10 ∷ 10 ∷ 100 ∷ 97 ∷ 116 ∷ 97 ∷ 58 ∷ 32 ∷ 91 ∷ 68 ∷ 79
    ∷ 78 ∷ 69 ∷ 93 ∷ 10 ∷ 10 ∷ []

test_stream : process_streaming_response braces stream ≡ some seven
unfolding process_streaming_response scan_back line_start read_line trim_left trim_right is_space
    has_prefix
test_stream = refl

process_streaming_response-last_data_example :
    process_streaming_response braces stream ≡ last_data braces (split newline stream)
process_streaming_response-last_data_example = process_streaming_response-last_data braces stream

abbrev by_shay : Attribution
by_shay = record {
  client = "shay";
  country = "IL";
  ip = "10.0.0.1";
  key_fingerprint = "0a";
  node = "crystal";
  now = 5;
  since_start = pos 9;
}

abbrev streamed : Served
streamed = responded (pos 200) stream (some stream) true

-- A gate with a hold of fifty; seven is what the stream counts.
abbrev book : PriceBook
book = record {
  rates =
      (
        "m",
        record { input_per_1k = pos 1000; output_per_1k = pos 2000; max_output_tokens = pos 50 },
      )
      ∷ [];
}

abbrev hold : Reservation
hold = record { key = "0a"; cost = pos 50; done = false }

abbrev ledger : CreditLedger
ledger = (reserve "0a" (pos 50) (set_allowance "0a" (pos 200) 0 1 new_credit_ledger)).0

abbrev gate : CreditGate
gate = record (new_credit_gate true (some ledger) (some book)) {
  ledger = some ledger;
  prices = some book;
}
