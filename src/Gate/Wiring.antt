-- ===== src/Gate/Wiring.antt =====
-- The gate on the request path (proxy/credit_gate_wiring.go, and the billing block of
-- `proxyInferenceHandler` in proxy/proxymanager.go). The JSON reader, gjson, is a parameter.
use omniswap.Prelude.{ℕ, String, Bool, not, Option, none, some, List, length, if◌then◌else◌, ◌&&◌}
use omniswap.Prelude.Int.{ℤ, pos, leb_ℤ, eqb_ℤ}
use omniswap.Prelude.Word.{add64}
use omniswap.Gate.{
  CreditGate, CreditReservation, AdmitDecision, admit_fault, served, Call, enforcing, release_rsv,
  true_up_rsv, true_up_reserved, guarded_admit, guarded_resolve,
}

-- `creditCapture`, the outcome that the metrics monitor fills in.
pub record CreditCapture : Type 0 where
  pub status : ℤ
  pub input : ℤ
  pub output : ℤ

abbrev pub status_ok : ℤ
status_ok = pos 200

unfoldable pub resolve_reservation : Option CreditCapture → Call CreditReservation
resolve_reservation none g rsv = release_rsv g rsv
resolve_reservation (some cap) g rsv =
    if not (eqb_ℤ cap.status status_ok)
    then release_rsv g rsv
    else if leb_ℤ cap.input (pos 0) && leb_ℤ cap.output (pos 0)
    then true_up_reserved g rsv
    else true_up_rsv cap.input cap.output g rsv

-- `creditDenyStatus`: 503 for a fault on our side, otherwise 402.
abbrev pub credit_deny_status : AdmitDecision → ℕ
credit_deny_status admit_fault = 503
credit_deny_status _ = 402

-- What gjson returns for a path that exists: its raw bytes, and its value as an integer.
pub record JsonValue : Type 0 where
  pub raw : List ℕ
  pub int : ℤ

-- The body is a list of bytes, and `get_bytes` is gjson.GetBytes.
module _ (get_bytes : List ℕ → String → Option JsonValue) where
  abbrev raw_length : Option JsonValue → ℤ
  raw_length none = pos 0
  raw_length (some v) = pos (length v.raw)

  unfoldable pub credit_prompt_upper_bound : List ℕ → ℤ
  credit_prompt_upper_bound body =
      let n =
        add64 (raw_length (get_bytes body "messages")) (raw_length (get_bytes body "prompt")) in
      if eqb_ℤ n (pos 0) then pos (length body) else n

  unfoldable pub credit_requested_max : List ℕ → ℤ
  credit_requested_max body = elim (get_bytes body "max_tokens") [
    | some v ↦ v.int
    | none ↦ elim (get_bytes body "max_completion_tokens") [ some v ↦ v.int | none ↦ pos 0 ]
  ]

-- The billing block of `proxyInferenceHandler`. `dispatch` is the rest of the handler, up to its
-- exit by return or panic: what it does to the gate, and the outcome that it has captured by then,
-- from which the deferred resolution bills. The result is the status of a denial, `none` if the
-- request went on. `metered` says that it is a POST whose path is metered, with a metrics monitor.
unfoldable pub credit_block :
    Bool
    → String
    → String
    → ℤ
    → ℤ
    → (CreditGate → CreditGate × CreditCapture)
    → CreditGate
    → CreditGate × Option ℕ
credit_block metered key model prompt_upper requested_max dispatch g =
    let out = guarded_admit key model prompt_upper requested_max g in
    let exit = dispatch out.0 in
    let billed = guarded_resolve (resolve_reservation (some exit.1)) exit.0 out.1.0 in
    if not (enforcing (some g) && metered)
    then ((dispatch g).0, none)
    else if not (served out.1.1)
    then (out.0, some (credit_deny_status out.1.1))
    else (billed.0, none)
