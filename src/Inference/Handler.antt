-- ===== src/Inference/Handler.antt =====
-- A whole inference request (`proxyInferenceHandler` of proxy/proxymanager.go): it is routed,
-- admitted by the gate, forwarded, metered and billed. What the picked handler answers is an input.
pub mod Billed
use omniswap.Prelude.{
  ℕ, Bool, true, false, not, ◌&&◌, Option, none, some, List, [], ◌∷◌, if◌then◌else◌, String,
  is_some,
}
use omniswap.Prelude.Int.{ℤ, pos}
use omniswap.Prelude.Text.{Text}
use omniswap.Gate.{CreditGate}
use omniswap.Gate.Wiring.{
  CreditCapture, JsonValue, credit_prompt_upper_bound, credit_requested_max, credit_block,
}
use omniswap.MetricsMonitor as Metrics
use omniswap.ModelNames.{should_collect_metrics}
use omniswap.PeerAddress.Grammar.{failed, ok}
use omniswap.PeerAddress.Cache.{World}
use omniswap.Inference.{Json, ProxyManager, Route, server_error, route_request}

pub record Request (B : Type 0) : Type 0 where
  pub body : Option B
  pub is_post : Bool
  pub path : Text
  pub key_fingerprint : String
  pub attribution : Metrics.Attribution

-- What a request leaves: the error that it is answered with, the route that it was forwarded on, and
-- the state.
pub record Exit (B V : Type 0) : Type 0 where
  pub answer : Option ℕ
  pub forwarded : Option (Route B)
  pub manager : ProxyManager V
  pub monitor : Option Metrics.MetricsMonitor
  pub gate : CreditGate

-- `creditCapture{}`
abbrev pub no_capture : CreditCapture
no_capture = record { status = pos 0; input = pos 0; output = pos 0 }

module _ {B V : Type 0} (j : Json B V) (as_string : Text → String)
    (get_bytes : List ℕ → String → Option JsonValue) (json : Text → Option Metrics.Json) where
  -- What the handler behind a route answers, as the metrics monitor sees it.
  abbrev pub metered_by :
      Request B
      → Route B
      → Metrics.Served
      → Metrics.MetricsMonitor
      → Metrics.MetricsMonitor × CreditCapture × Option Metrics.TokenMetrics
  metered_by req route served mp =
      Metrics.wrap_handler json (as_string route.model_id) req.attribution served (mp, no_capture)

  -- Whether a request is one that is metered.
  abbrev pub is_metered : Request B → Option Metrics.MetricsMonitor → Bool
  is_metered req monitor = is_some monitor && req.is_post && should_collect_metrics req.path

  -- The outcome that the gate bills from, and the monitor that is left.
  abbrev pub capture_of :
      Request B → Route B → Metrics.Served → Option Metrics.MetricsMonitor → CreditCapture
  capture_of req route served none = no_capture
  capture_of req route served (some mp) = (metered_by req route served mp).1

  abbrev pub monitor_after :
      Request B
      → Route B
      → Metrics.Served
      → Option Metrics.MetricsMonitor
      → Option Metrics.MetricsMonitor
  monitor_after req route served none = none
  monitor_after req route served (some mp) =
      if is_metered req (some mp) then some (metered_by req route served mp).0 else some mp

  -- The error that ends a request that was forwarded.
  abbrev pub answer_of : Metrics.Served → Option ℕ
  answer_of Metrics.refused = some server_error
  answer_of (Metrics.responded status body decoded streaming) = none

  -- The rest of the handler, from the admission on.
  unfoldable pub serve_route :
      Request B
      → (Route B → Metrics.Served)
      → Route B
      → ProxyManager V
      → Option Metrics.MetricsMonitor
      → CreditGate
      → Exit B V
  serve_route req serve route pm monitor g =
      let served = serve route in
      let (g', denied) =
        credit_block (is_metered req monitor) req.key_fingerprint (as_string route.model_id)
          (credit_prompt_upper_bound get_bytes (j.raw route.body))
          (credit_requested_max get_bytes (j.raw route.body))
          (λ h. (h, capture_of req route served monitor)) g in
      elim denied [
        | some code ↦ record {
          answer = some code;
          forwarded = none;
          manager = pm;
          monitor = monitor;
          gate = g';
        }
        | none ↦ record {
          answer = answer_of served;
          forwarded = some route;
          manager = pm;
          monitor = monitor_after req route served monitor;
          gate = g';
        }
      ]

  -- `proxyInferenceHandler`
  unfoldable pub proxy_inference_handler :
      World
      → (ℕ → ℕ)
      → Request B
      → (Route B → Metrics.Served)
      → ProxyManager V
      → Option Metrics.MetricsMonitor
      → CreditGate
      → Exit B V
  proxy_inference_handler w to_lower req serve pm monitor g =
      let (result, pm') = route_request j as_string w to_lower req.body pm in
      elim result [
        | failed code ↦ record {
          answer = some code;
          forwarded = none;
          manager = pm';
          monitor = monitor;
          gate = g;
        }
        | ok route ↦ serve_route req serve route pm' monitor g
      ]
