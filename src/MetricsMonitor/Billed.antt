-- ===== src/MetricsMonitor/Billed.antt =====
-- What the metrics monitor (proxy/metrics_monitor.go) captures of a request for the credit gate
-- (proxy/credit_gate_wiring.go), which bills it.
use omniswap.Prelude.{
  ℕ, suc, String, Bool, false, ◌&&◌, not, ◌||◌, Option, none, some, ◌≡◌, refl, if◌then◌else◌,
  Bool-cases, inl, inr, is_some,
}
use omniswap.Prelude.Int.{ℤ, pos, eqb_ℤ, leb_ℤ}
use omniswap.Prelude.Text.{Text, is_empty}
use omniswap.Pricing.{PriceBook, actual_cost}
use omniswap.Gate.{CreditReservation}
use omniswap.Gate.Wiring.{CreditCapture, status_ok}
use omniswap.MetricsMonitor.{
  TokenMetrics, MetricsMonitor, Json, Attribution, Served, refused, responded, metered,
  process_streaming_response, wrap_handler, add_metrics,
}

-- A fresh slot, as the handler makes it.
abbrev pub no_capture : CreditCapture
no_capture = record { status = pos 0; input = pos 0; output = pos 0 }

-- The prompt and completion tokens that some data counts: those of `timings`, if it is there, or else
-- those of `usage`, under either of their two names, and 0 for what is missing.
abbrev pub counted_tokens : Json → ℤ × ℤ
counted_tokens j = elim j.timings [
  | some t ↦ (t.prompt_n, t.predicted_n)
  | none ↦ elim j.usage [
    | none ↦ (pos 0, pos 0)
    | some u ↦ (
      elim u.prompt_tokens [
        | some n ↦ n
        | none ↦ elim u.input_tokens [ none ↦ pos 0 | some n ↦ n ]
      ],
      elim u.completion_tokens [
        | some n ↦ n
        | none ↦ elim u.output_tokens [ none ↦ pos 0 | some n ↦ n ]
      ],
    )
  ]
]

module _ (json : Text → Option Json) where
  -- The usage data of a response, if there is any.
  abbrev pub data_of : Served → Option Json
  data_of refused = none
  data_of (responded status body decoded streaming) = if is_empty body then none else elim decoded [
    | none ↦ none
    | some text ↦ if streaming then process_streaming_response json text else metered json text
  ]

  abbrev pub is_ok : Served → Bool
  is_ok refused = false
  is_ok (responded status body decoded streaming) = eqb_ℤ status status_ok

  -- The bill by the data: nothing for a request that failed, the reserved price without data or
  -- without tokens, and otherwise the price of the counted tokens, or 0 if they have none.
  abbrev pub fair_bill : PriceBook → CreditReservation → Served → Option ℤ
  fair_bill prices rsv served =
      if is_ok served
      then elim (data_of served) [
        | none ↦ some rsv.reserved_cost
        | some j ↦
            let (prompt, completion) = counted_tokens j in
            if leb_ℤ prompt (pos 0) && leb_ℤ completion (pos 0)
            then some rsv.reserved_cost
            else elim (actual_cost prices rsv.model prompt completion) [
              | none ↦ some (pos 0)
              | some price ↦ some price
            ]
      ]
      else none

  -- The id and the labels of a recorded metric.
  abbrev pub labels_of : Option TokenMetrics → Option (ℕ × String × String × String)
  labels_of none = none
  labels_of (some tm) = some (tm.id, tm.client, tm.key_fingerprint, tm.node)

  -- Every response with the status 200 is recorded as exactly one metric, which has the next id and
  -- the labels of its request, whatever its body is, and nothing else is recorded or takes an id.
  pub wrap_handler-labels_of :
      (model : String) (a : Attribution) (served : Served) (mp : MetricsMonitor)
      (cap : CreditCapture)
      → (let out = wrap_handler json model a served (mp, cap) in
          (labels_of out.2 ≡ (
            if is_ok served then some (mp.next_id, a.client, a.key_fingerprint, a.node) else none))
          × (out.0.next_id ≡ (if is_ok served then suc mp.next_id else mp.next_id)))
  unfolding wrap_handler add_metrics
  wrap_handler-labels_of model a refused mp cap = (refl, refl)
  wrap_handler-labels_of model a (responded status body decoded streaming) mp cap =
      elim (Bool-cases (eqb_ℤ status status_ok)) [
        | inr e ↦ rw (e, wrap_handler) (refl, refl)
        | inl e ↦ elim (Bool-cases (is_empty body || not (is_some decoded))) [
          | inl k ↦ rw (e, k, wrap_handler) (refl, refl)
          | inr k ↦ rw (e, k, wrap_handler) (refl, refl)
        ]
      ]
