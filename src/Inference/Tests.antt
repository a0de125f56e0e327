-- ===== src/Inference/Tests.antt =====
-- Tests and witnesses of the inference requests.
use omniswap.Prelude.{
  ℕ, String, Bool, true, false, Option, none, some, List, [], ◌∷◌, ◌≡◌, refl, is_some,
  if◌then◌else◌, arith,
}
use omniswap.Prelude.Keys.{string_eq, ◌==◌}
use omniswap.Prelude.Dict.{Dict, lookup, insert, lookup-insert}
use omniswap.Prelude.Int.{pos, ◌+ℤ◌, ◌-ℤ◌, ◌*ℤ◌}
use omniswap.Prelude.Word.{int64}
use omniswap.Prelude.Text.{
  Text, text_eq, trim_left, trim_right, is_space, split, cons_first, sort_strings, put_sorted,
  contains, has_prefix,
}
use omniswap.Filters.{model_word, sanitized_strip_params, sanitized_set_params, clean, unprotected}
use omniswap.ModelNames.{real_model_name, should_collect_metrics}
use omniswap.Process.{Process, ready}
use omniswap.ProcessGroup.{has_member}
use omniswap.ProxyManager.{Groups, find_group_by_model_name, swap_process_group, stop_others}
use omniswap.PeerAddress.Cache.{World}
use omniswap.PeerAddress.Snapshot.{no_answer}
use omniswap.PeerAddress.Grammar.{ok, failed}
use omniswap.PeerAddress.Directory.{Peer, new_peer_proxy, members_of}
use omniswap.PeerAddress.Directory.Listed.{members_of-new_peer_proxy}
use omniswap.Inference.{
  Json, ProxyManager, Resolved, Route, local, strip_params, set_params, apply_filters,
  rewrite_model, resolve_request, local_body, pick_handler, route_request,
}
use omniswap.Inference.Body.{IsJson, filtered}
use omniswap.Inference.Routed.{route_filters}
use omniswap.Inference.Forwarded.{get-route_request}
use omniswap.Inference.Form.{Form, parsed, route_form}
use omniswap.Inference.Form.Alike.{renamed_values, route_form-route_request}
use omniswap.Inference.Handler.{Request, metered_by, proxy_inference_handler}
use omniswap.Inference.Handler.Billed.{
  proxy_inference_handler_bills, proxy_inference_handler_refuses,
}
use omniswap.MetricsMonitor as Metrics
use omniswap.Pricing.{PriceBook, reserve_cost, completion_upper, price, ceil_div}
use omniswap.Ledger.{
  CreditLedger, key_locked, available, put, set_allowance, renew, new_credit_ledger,
}
use omniswap.Ledger.Account.{at_key, at_least_zero}
use omniswap.Gate.{CreditGate, new_credit_gate}
use omniswap.Gate.Wiring.{JsonValue, credit_prompt_upper_bound, credit_requested_max}
use omniswap.Gate.Decision.{account, quote, granted}
use omniswap.Gate.Resolve.{bill}
use omniswap.Gate.Request.{settled}

-- A body is its parameters, and a value a text.
abbrev dropping : Text → Dict Text Text → Dict Text Text
dropping key [] = []
dropping key ((k, v) ∷ rest) = if k == key then dropping key rest else (k, v) ∷ dropping key rest

lookup-dropping :
    (key other : Text) (body : Dict Text Text)
    → lookup other (dropping key body) ≡ (if key == other then none else lookup other body)
lookup-dropping key other [] = ground arith
lookup-dropping key other ((k, v) ∷ rest) = ground (
  arith,
  lookup-dropping key other rest,
  text_eq.beq_iff k key,
  text_eq.beq_iff k other,
  text_eq.beq_iff key other,
)

abbrev text_or_empty : Option Text → Text
text_or_empty none = []
text_or_empty (some t) = t

abbrev flat : Json (Dict Text Text) Text
flat = record {
  get = λ body key. lookup key body;
  set_bytes = λ body key v. some (insert key v body);
  delete_bytes = λ body key. some (dropping key body);
  text_value = λ t. t;
  null = [];
  string = text_or_empty;
  raw = λ body. 1 ∷ 2 ∷ 3 ∷ [];
}

abbrev all_plain : Text → Bool
all_plain t = true

abbrev all_distinct : Dict Text Text → Bool
all_distinct body = true

flat-IsJson : IsJson flat all_plain all_distinct
flat-IsJson = record {
  get-set_bytes =
      λ body body' key other v p q d e. (refl, ground (arith, lookup-insert key other v body));
  get-delete_bytes =
      λ body body' key other p q d e. (refl, ground (arith, lookup-dropping key other body));
}

-- The model "m" of the group "g", which strips "t" and sets "u" to "9".
abbrev running : Process
running = record {
  state = ready;
  has_command = true;
  failed_start_count = 0;
  in_flight = 0;
  concurrency_limit = 10;
}

abbrev groups : Groups
groups =
    (
      "g",
      record {
        exclusive = true;
        persistent = false;
        processes = record {
          members = "m" ∷ [];
          swap = true;
          processes = ("m", running) ∷ [];
          last_used = "m";
        };
      },
    )
    ∷ []

abbrev name : Text → String
name t = "m"

abbrev manager : ProxyManager Text
manager = record {
  config = record {
    models =
        (
          109 ∷ [],
          record {
            use_model_name = 120 ∷ [];
            filters = record { strip_params = 116 ∷ []; set_params = (117 ∷ [], 57 ∷ []) ∷ [] };
          },
        )
        ∷ [];
    aliases = [];
    groups = [];
  };
  groups = groups;
  peers = none;
}

abbrev body : Dict Text Text
body = (model_word, 109 ∷ []) ∷ (116 ∷ [], 49 ∷ []) ∷ (118 ∷ [], 50 ∷ []) ∷ []

abbrev route : Route (Dict Text Text)
route = record {
  target = local "g";
  model_id = 109 ∷ [];
  body = (model_word, 120 ∷ []) ∷ (118 ∷ [], 50 ∷ []) ∷ (117 ∷ [], 57 ∷ []) ∷ [];
}

abbrev world : World
world = record { same_fold = λ c d. false; now = 0; reply = λ id. no_answer }

routed : (route_request flat name world (λ c. c) (some body) manager).0 ≡ ok route
unfolding route_request resolve_request pick_handler real_model_name swap_process_group
    find_group_by_model_name has_member stop_others local_body rewrite_model apply_filters
    strip_params set_params sanitized_strip_params sanitized_set_params clean unprotected
    sort_strings put_sorted split cons_first trim_left trim_right is_space contains
routed = refl

get-route_request_example :
    lookup (118 ∷ []) route.body
    ≡ filtered (route_filters flat manager route.target route.model_id) (118 ∷ []) (some (50 ∷ []))
unfolding sanitized_strip_params sanitized_set_params clean unprotected sort_strings put_sorted
    split cons_first trim_left trim_right is_space contains
get-route_request_example =
    get-route_request flat all_plain all_distinct flat-IsJson name world (λ c. c) body manager
      (118 ∷ []) {route = route} refl ((refl, tt), (refl, tt)) refl refl refl routed

abbrev plain_request : Resolved (Dict Text Text)
plain_request = record { pin = []; requested = 109 ∷ []; body = body }

-- Two peers, of which one lists "m".
abbrev peers : Dict Text (Peer Text)
peers =
    (
      98 ∷ [],
      record { models = (109 ∷ []) ∷ []; filters = record { strip_params = []; set_params = [] } },
    )
    ∷ (97 ∷ [], record { models = []; filters = record { strip_params = []; set_params = [] } })
    ∷ []

members_of-new_peer_proxy_example :
    contains (98 ∷ []) (members_of (109 ∷ []) (new_peer_proxy peers).1) ≡ true
unfolding contains
members_of-new_peer_proxy_example = members_of-new_peer_proxy (98 ∷ []) (109 ∷ []) peers

abbrev form : Form ℕ
form = record {
  values = (model_word, (109 ∷ []) ∷ []) ∷ (107 ∷ [], (49 ∷ []) ∷ []) ∷ [];
  files = 4;
  model = 109 ∷ [];
}

route_form-route_request_example :
    let out' = route_form flat name world (λ c. c) (parsed form) manager in
    (out'.0
      ≡ ok (record {
        target = route.target;
        model_id = route.model_id;
        values = renamed_values (120 ∷ []) form.values;
        files = 4;
      }))
    × (out'.1 ≡ (route_request flat name world (λ c. c) (some body) manager).1)
route_form-route_request_example =
    route_form-route_request flat name world (λ c. c) form body manager {route = route} refl routed

-- One credit for each thousand tokens; the key has a hundred.
abbrev book : PriceBook
book = record {
  rates =
      (
        "m",
        record { input_per_1k = pos 1000; output_per_1k = pos 2000; max_output_tokens = pos 50 },
      )
      ∷ [];
}

ledger : CreditLedger
unfolding set_allowance renew put key_locked new_credit_ledger
ledger = set_allowance "0a" (pos 200) 0 1 new_credit_ledger

gate : CreditGate
unfolding new_credit_gate
gate = new_credit_gate true (some ledger) (some book)

abbrev no_json : List ℕ → String → Option JsonValue
no_json bytes path = none

abbrev no_usage : Text → Option Metrics.Json
no_usage text = none

abbrev request : Request (Dict Text Text)
request = record {
  body = some body;
  is_post = true;
  path = 47 ∷ 118 ∷ [];
  key_fingerprint = "0a";
  attribution = record {
    client = "shay";
    country = "IL";
    ip = "10.0.0.1";
    key_fingerprint = "0a";
    node = "";
    now = 5;
    since_start = pos 9;
  };
}

abbrev answered : Route (Dict Text Text) → Metrics.Served
answered r = Metrics.responded (pos 200) (120 ∷ []) (some (120 ∷ [])) false

-- The body has three bytes, and the answer is bounded by 50 tokens: 3 + 100 credits.
quoted : quote gate "m" (pos 3) (pos 0) ≡ some (ledger, pos 103)
unfolding gate reserve_cost price completion_upper ceil_div int64 ◌+ℤ◌ ◌-ℤ◌ ◌*ℤ◌
quoted = refl

proxy_inference_handler_bills_example :
    let exit =
      proxy_inference_handler flat name no_json no_usage world
        (λ c. c)
        request
        answered
        manager
        (some (Metrics.new_metrics_monitor 2))
        gate in
    let measured =
      metered_by flat name no_json no_usage request route
        (answered route)
        (Metrics.new_metrics_monitor 2) in
    (exit.forwarded ≡ some route)
    × (exit.monitor ≡ some measured.0)
    × (account "0a" exit.gate
        ≡ at_key "0a" "0a"
            (settled
              (at_least_zero (pos 103))
              (bill book (granted "0a" "m" (pos 103)) (some measured.1)))
            (account "0a" gate))
unfolding gate ledger key_locked available int64 ◌+ℤ◌ ◌-ℤ◌ should_collect_metrics has_prefix
    credit_prompt_upper_bound credit_requested_max
proxy_inference_handler_bills_example =
    proxy_inference_handler_bills flat name no_json no_usage world (λ c. c) request answered manager
      (Metrics.new_metrics_monitor 2) gate "0a" {route = route} {l = ledger} {c = pos 103}
      {prices = book} routed refl refl quoted refl (omega arith) (omega arith)

proxy_inference_handler_refuses_example :
    let exit =
      proxy_inference_handler flat name no_json no_usage world
        (λ c. c)
        request
        answered
        manager
        none
        gate in
    let out = (route_request flat name world (λ c. c) (some body) manager).0 in
    (exit.forwarded ≡ none → (is_some exit.answer ≡ true) × (exit.monitor ≡ none))
    × ((code : ℕ) → out ≡ failed code → (exit.answer ≡ some code) × (exit.gate ≡ gate))
proxy_inference_handler_refuses_example =
    proxy_inference_handler_refuses flat name no_json no_usage world (λ c. c) request answered
      manager none gate
