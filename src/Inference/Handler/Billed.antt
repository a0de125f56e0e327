-- ===== src/Inference/Handler/Billed.antt =====
-- What an inference request costs (proxy/proxymanager.go).
use omniswap.Prelude.{ℕ, true, Option, none, some, List, ◌≡◌, arith, String, is_some, inl, inr}
use omniswap.Prelude.Int.{ℤ, ◌≤ℤ◌}
use omniswap.Prelude.Word.{InRange}
use omniswap.Prelude.Text.{Text}
use omniswap.Pricing.{PriceBook}
use omniswap.Ledger.{CreditLedger, available, key_locked}
use omniswap.Ledger.Account.{at_key, at_least_zero}
use omniswap.Gate.{CreditGate}
use omniswap.Gate.Wiring.{JsonValue, credit_prompt_upper_bound, credit_requested_max}
use omniswap.Gate.Decision.{account, quote, granted}
use omniswap.Gate.Resolve.{bill}
use omniswap.Gate.Request.{settled, credit_block_bills}
use omniswap.MetricsMonitor as Metrics
use omniswap.PeerAddress.Grammar.{ok, failed, Result-cases}
use omniswap.PeerAddress.Cache.{World}
use omniswap.Inference.{Json, ProxyManager, Route, route_request}
use omniswap.Inference.Handler.{
  Request, metered_by, is_metered, serve_route, proxy_inference_handler,
}

module _ {B V : Type 0} (j : Json B V) (as_string : Text → String)
    (get_bytes : List ℕ → String → Option JsonValue) (json : Text → Option Metrics.Json) where
  serve_route_bills :
      (req : Request B) (serve : Route B → Metrics.Served) (route : Route B) (pm : ProxyManager V)
      (mp : Metrics.MetricsMonitor) (g : CreditGate) (k : String) {l : CreditLedger} {c : ℤ}
      {prices : PriceBook}
      → is_metered j as_string get_bytes json req (some mp) ≡ true
      → g.enforce ≡ true
      → let model = as_string route.model_id in
        let upper = credit_prompt_upper_bound get_bytes (j.raw route.body) in
        let max = credit_requested_max get_bytes (j.raw route.body) in
        let key = req.key_fingerprint in
        let cap = (metered_by j as_string get_bytes json req route (serve route) mp).1 in
        quote g model upper max ≡ some (l, c)
        → g.prices ≡ some prices
        → at_least_zero c ≤ℤ available (key_locked key l)
        → InRange (key_locked key l).reserved
        → let exit = serve_route j as_string get_bytes json req serve route pm (some mp) g in
          (exit.forwarded ≡ some route)
          × (account k exit.gate
              ≡ at_key key k
                  (settled (at_least_zero c) (bill prices (granted key model c) (some cap)))
                  (account k g))
  unfolding serve_route
  serve_route_bills req serve route pm mp g k {l} {c} {prices} metered he hq hp enough hr =
      let bills =
        credit_block_bills g req.key_fingerprint (as_string route.model_id)
          (credit_prompt_upper_bound get_bytes (j.raw route.body))
          (credit_requested_max get_bytes (j.raw route.body))
          (metered_by j as_string get_bytes json req route (serve route) mp).1 k {l = l} {c = c}
          {prices = prices} he hq hp enough hr in
      (ground arith, ground arith)

  serve_route_records :
      (req : Request B) (serve : Route B → Metrics.Served) (route : Route B) (pm : ProxyManager V)
      (mp : Metrics.MetricsMonitor) (g : CreditGate)
      → is_metered j as_string get_bytes json req (some mp) ≡ true
      → let exit = serve_route j as_string get_bytes json req serve route pm (some mp) g in
        exit.forwarded ≡ some route
        → exit.monitor ≡ some (metered_by j as_string get_bytes json req route (serve route) mp).0
  unfolding serve_route
  serve_route_records req serve route pm mp g metered h = ground arith

  -- A metered request of an enforcing gate that is routed, and priced at `c`, which the available
  -- balance of its key covers: it is forwarded, what the monitor measures of its answer is recorded,
  -- and in the end the reserved sum of its key is what it was, its pending sum has grown by the bill
  -- of what was measured, clamped to [0, c], or is what it was for a refund, and no other account has
  -- changed.
  pub proxy_inference_handler_bills :
      (world : World) (to_lower : ℕ → ℕ) (req : Request B) (serve : Route B → Metrics.Served)
      (pm : ProxyManager V) (mp : Metrics.MetricsMonitor) (g : CreditGate) (k : String)
      {route : Route B} {l : CreditLedger} {c : ℤ} {prices : PriceBook}
      → (route_request j as_string world to_lower req.body pm).0 ≡ ok route
      → is_metered j as_string get_bytes json req (some mp) ≡ true
      → g.enforce ≡ true
      → let model = as_string route.model_id in
        let upper = credit_prompt_upper_bound get_bytes (j.raw route.body) in
        let max = credit_requested_max get_bytes (j.raw route.body) in
        let key = req.key_fingerprint in
        let measured = metered_by j as_string get_bytes json req route (serve route) mp in
        quote g model upper max ≡ some (l, c)
        → g.prices ≡ some prices
        → at_least_zero c ≤ℤ available (key_locked key l)
        → InRange (key_locked key l).reserved
        → let exit =
            proxy_inference_handler j as_string get_bytes json world to_lower req serve pm
              (some mp)
              g in
          (exit.forwarded ≡ some route)
          × (exit.monitor ≡ some measured.0)
          × (account k exit.gate
              ≡ at_key key k
                  (settled (at_least_zero c) (bill prices (granted key model c) (some measured.1)))
                  (account k g))
  unfolding proxy_inference_handler
  proxy_inference_handler_bills world to_lower req serve pm mp g k {route} {l} {c} {prices} e
        metered he hq hp enough hr =
      let out = route_request j as_string world to_lower req.body pm in
      let served =
        serve_route_bills req serve route out.1 mp g k {l = l} {c = c} {prices = prices} metered he
          hq hp enough hr in
      let recorded = serve_route_records req serve route out.1 mp g metered served.0 in
      (ground arith, ground arith, ground arith)

  -- A request that is not forwarded is answered with an error, and is not metered; one that cannot be
  -- routed leaves the gate as it was, too.
  pub proxy_inference_handler_refuses :
      (world : World) (to_lower : ℕ → ℕ) (req : Request B) (serve : Route B → Metrics.Served)
      (pm : ProxyManager V) (monitor : Option Metrics.MetricsMonitor) (g : CreditGate)
      → let exit =
          proxy_inference_handler j as_string get_bytes json world to_lower req serve pm monitor
            g in
        let routed = (route_request j as_string world to_lower req.body pm).0 in
        (exit.forwarded ≡ none → (is_some exit.answer ≡ true) × (exit.monitor ≡ monitor))
        × ((code : ℕ) → routed ≡ failed code → (exit.answer ≡ some code) × (exit.gate ≡ g))
  unfolding proxy_inference_handler serve_route
  proxy_inference_handler_refuses world to_lower req serve pm monitor g = (
    λ h. elim (Result-cases (route_request j as_string world to_lower req.body pm).0) [
      | inl (code, lost) ↦ ground arith
      | inr (route, found) ↦ ground arith
    ],
    λ code lost. ground arith,
  )
