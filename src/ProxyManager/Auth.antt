-- ===== src/ProxyManager/Auth.antt =====
-- `apiKeyAuth` of proxy/proxymanager.go: who may pass, and what a request that passes carries. The
-- base64 decoding of package `encoding/base64` and `keyFingerprint`, a hash, are parameters.
use Prim.Native.String.{slice, len}
use text.Mathlib.Text.{starts_with, find?}
use omniswap.Prelude.{
  ℕ, suc, String, Bool, true, false, not, ◌&&◌, ◌||◌, Option, none, some, List, [], ◌∷◌, ◌≡◌,
  if◌then◌else◌,
}
use omniswap.Prelude.Keys.{string_eq, ◌==◌}
use omniswap.Prelude.Text.{is_empty}
use omniswap.Prelude.Dict.{Dict, lookup}
use omniswap.RateLimiter.{RateLimiter, enabled, allow}

-- The headers and the method that the code reads; a header that is not there is empty.
pub record Request : Type 0 where
  pub x_api_key : String
  pub authorization : String
  pub cf_ip_country : String
  pub cf_connecting_ip : String
  pub client_ip : String
  pub is_post : Bool

-- The configuration: `RequiredAPIKeys` and `APIKeyLabels`.
pub record AuthConfig : Type 0 where
  pub required_api_keys : List String
  pub api_key_labels : Dict String String

-- What the context of a request carries to the handlers.
pub record Identity : Type 0 where
  pub client : String
  pub key_fingerprint : String
  pub country : String
  pub ip : String

pub data Verdict : Type 0 where
  open_to_all : Request → Verdict
  unauthorized : Verdict
  too_many_requests : Verdict
  passed : Identity → Request → Verdict

abbrev or_if_empty : String → String → String
or_if_empty label default = if label == "" then default else label

abbrev value_of : Option String → String
value_of none = ""
value_of (some s) = s

unfoldable pub is_required : String → List String → Bool
is_required key [] = false
is_required key (k ∷ ks) = key == k || is_required key ks

module _ (decode : String → Option String) (key_fingerprint : String → String) where
  -- The password of `username:password`; the part behind the first colon.
  abbrev password : String → String
  password text = elim (find? text ":") [ none ↦ "" | some i ↦ slice text (suc i) (len text) ]

  abbrev bearer_key : String → String
  bearer_key auth = if starts_with auth "Bearer " then slice auth 7 (len auth) else ""

  abbrev basic_key : String → String
  basic_key auth =
      if starts_with auth "Bearer "
      then ""
      else if starts_with auth "Basic "
      then elim (decode (slice auth 6 (len auth))) [ none ↦ "" | some text ↦ password text ]
      else ""

  -- The key that is provided: Basic, then Bearer, then x-api-key.
  unfoldable pub provided_key : Request → String
  provided_key req =
      or_if_empty (basic_key req.authorization)
        (or_if_empty (bearer_key req.authorization) req.x_api_key)

  unfoldable pub identify : AuthConfig → String → Request → Identity
  identify cfg key req =
      let fp = key_fingerprint key in
      record {
        client = or_if_empty (value_of (lookup fp cfg.api_key_labels)) fp;
        key_fingerprint = fp;
        country = req.cf_ip_country;
        ip = or_if_empty req.cf_connecting_ip req.client_ip;
      }

  -- `apiKeyAuth` at a time.
  unfoldable pub api_key_auth : AuthConfig → ℕ → Request → RateLimiter → Verdict × RateLimiter
  api_key_auth cfg now req rl =
      let key = provided_key req in
      let who = identify cfg key req in
      let (rl', allowed) = allow who.client now rl in
      let stripped = record req { authorization = ""; x_api_key = "" } in
      elim cfg.required_api_keys [
        | [] ↦ (open_to_all req, rl)
        | k ∷ ks ↦
            if not (is_required key (k ∷ ks))
            then (unauthorized, rl)
            else if req.is_post && enabled (some rl)
            then (if allowed then (passed who stripped, rl') else (too_many_requests, rl'))
            else (passed who stripped, rl)
      ]

  -- What may be said of a verdict: all is open only without required keys; with some, a request that
  -- is turned away has no required key, or the limiter has refused its label; and one that passes has
  -- a required key, no credentials any more, and the label of its key, which the limiter has let through if it
  -- is a POST.
  abbrev pub IsFair : AuthConfig → ℕ → Request → RateLimiter → Verdict → Type 0
  IsFair cfg now req rl (open_to_all r) = (cfg.required_api_keys ≡ []) × (r ≡ req)
  IsFair cfg now req rl unauthorized =
      (is_empty cfg.required_api_keys ≡ false)
      × (is_required (provided_key req) cfg.required_api_keys ≡ false)
  IsFair cfg now req rl too_many_requests =
      (is_empty cfg.required_api_keys ≡ false)
      × (is_required (provided_key req) cfg.required_api_keys ≡ true)
      × ((req.is_post && enabled (some rl)) ≡ true)
      × ((allow (identify cfg (provided_key req) req).client now rl).1 ≡ false)
  IsFair cfg now req rl (passed who r) =
      (is_empty cfg.required_api_keys ≡ false)
      × (is_required (provided_key req) cfg.required_api_keys ≡ true)
      × (r.authorization ≡ "")
      × (r.x_api_key ≡ "")
      × (who ≡ identify cfg (provided_key req) req)
      × ((not (req.is_post && enabled (some rl)) || (allow who.client now rl).1) ≡ true)
