-- ===== src/Inference.antt =====
-- The inference requests of proxy/proxymanager.go: how `proxyInferenceHandler` picks the handler of a
-- request and rewrites its body, and how `proxyOAIPostFormHandler` does (child Form). The JSON package, gjson and
-- sjson, is a parameter over any type of bodies, and so is the Go string in the type by which the
-- groups and the gate are keyed. Texts of errors are left out.
pub mod Body
pub mod Routed
pub mod Forwarded
mod Tests
pub mod Form
pub mod Handler
use omniswap.Prelude.{
  ℕ, Bool, true, false, not, ◌&&◌, Option, none, some, List, [], ◌∷◌, if◌then◌else◌, String,
  is_some,
}
use omniswap.Prelude.Dict.{Dict, lookup}
use omniswap.Prelude.Text.{Text, text_eq, is_empty}
use omniswap.Filters.{Filters, model_word, sanitized_strip_params, sanitized_set_params}
use omniswap.ModelNames.{Config, real_model_name}
use omniswap.PeerAddress.Grammar.{Result, failed, ok, bad_request}
use omniswap.PeerAddress.Cache.{PeerProxy, World}
use omniswap.PeerAddress.Resolve.{AddressResolution, resolve_address}
use omniswap.PeerAddress.Directory.{
  Peer, peer_filters, get_peer_filters, has_peer_model, no_filters,
}
use omniswap.ProxyManager.{Groups, swap_process_group}

abbrev pub server_error : ℕ
server_error = 500

-- What is used of gjson and sjson, for bodies `B` and values `V`: a setter and a deleter may fail.
pub record Json (B V : Type 0) : Type 0 where
  pub get : B → Text → Option V
  pub set_bytes : B → Text → V → Option B
  pub delete_bytes : B → Text → Option B
  pub text_value : Text → V
  pub null : V
  pub string : Option V → Text
  pub raw : B → List ℕ

-- The part of `ModelConfig` that the handlers read.
pub record ModelConfig (V : Type 0) : Type 0 where
  pub use_model_name : Text
  pub filters : Filters V

-- The part of `PeerProxy` that they read.
pub record PeerSide (V : Type 0) : Type 0 where
  pub proxy : PeerProxy
  pub configs : Dict Text (Peer V)
  pub model_peers : Dict Text (List Text)

-- `ProxyManager`, as far as the routing goes; no peers is a nil `peerProxy`.
pub record ProxyManager (V : Type 0) : Type 0 where
  pub config : Config (ModelConfig V)
  pub groups : Groups
  pub peers : Option (PeerSide V)

-- The handler that was picked: a pinned peer, a group of local processes, or the peers of a model.
pub data Target : Type 0 where
  pinned : Text → Target
  local : String → Target
  by_name : Target

-- `nextHandler`, `modelID` and the body that it is handed.
pub record Route (B : Type 0) : Type 0 where
  pub target : Target
  pub model_id : Text
  pub body : B

-- What address resolution leaves: the pinned peer, empty if there is none, the model and the body.
pub record Resolved (B : Type 0) : Type 0 where
  pub pin : Text
  pub requested : Text
  pub body : B

module _ {B V : Type 0} (j : Json B V) where
  -- The loops that strip and set parameters.
  unfoldable pub strip_params : List Text → B → Option B
  strip_params [] body = some body
  strip_params (param ∷ params) body = elim (j.delete_bytes body param) [
    | none ↦ none
    | some body' ↦ strip_params params body'
  ]

  abbrev pub value_at : Text → Dict Text V → V
  value_at key values = elim (lookup key values) [ none ↦ j.null | some v ↦ v ]

  unfoldable pub set_params : Dict Text V → List Text → B → Option B
  set_params values [] body = some body
  set_params values (key ∷ keys) body = elim (j.set_bytes body key (value_at key values)) [
    | none ↦ none
    | some body' ↦ set_params values keys body'
  ]

  unfoldable pub apply_filters : Filters V → B → Option B
  apply_filters f body =
      let (values, keys) = sanitized_set_params f in
      elim (strip_params (sanitized_strip_params f) body) [
        | none ↦ none
        | some body' ↦ set_params values keys body'
      ]

  unfoldable pub rewrite_model : Bool → Text → B → Option B
  rewrite_model wanted name body =
      if wanted then j.set_bytes body model_word (j.text_value name) else some body

  -- A route whose body was edited, or 500 if that failed.
  abbrev pub route_with : Target → Text → Option B → Result (Route B)
  route_with target model_id none = failed server_error
  route_with target model_id (some body) =
      ok (record { target = target; model_id = model_id; body = body })

  -- The resolution of the address.
  unfoldable pub resolve_request :
      World → (ℕ → ℕ) → Text → B → ProxyManager V → Result (Resolved B) × ProxyManager V
  resolve_request w to_lower requested body pm = elim pm.peers [
    | none ↦ (ok (record { pin = []; requested = requested; body = body }), pm)
    | some side ↦
        let (result, proxy') = resolve_address w to_lower requested side.proxy in
        let pm' = record pm { peers = some (record side { proxy = proxy' }) } in
        elim result [
          | failed code ↦ (failed code, pm')
          | ok res ↦ elim (rewrite_model res.rewrote res.model body) [
            | none ↦ (failed server_error, pm')
            | some body' ↦
                (ok (record { pin = res.peer_id; requested = res.model; body = body' }), pm')
          ]
        ]
  ]

  abbrev pub side_filters : Text → ProxyManager V → Filters V
  side_filters id pm = elim pm.peers [
    | none ↦ no_filters
    | some side ↦ peer_filters id side.configs
  ]

  abbrev pub named_filters : Text → ProxyManager V → Filters V
  named_filters model pm = elim pm.peers [
    | none ↦ no_filters
    | some side ↦ get_peer_filters model side.model_peers side.configs
  ]

  abbrev pub peers_have : Text → ProxyManager V → Bool
  peers_have model pm = elim pm.peers [
    | none ↦ false
    | some side ↦ has_peer_model model side.model_peers
  ]

  -- `pm.config.Models[id]`, the zero value for a missing id.
  abbrev pub settings : Text → ProxyManager V → ModelConfig V
  settings id pm = elim (lookup id pm.config.models) [
    | none ↦ record { use_model_name = []; filters = no_filters }
    | some m ↦ m
  ]

  -- The edits of a body for a local model.
  unfoldable pub local_body : ModelConfig V → B → Option B
  local_body m body = elim (rewrite_model (not (is_empty m.use_model_name)) m.use_model_name body) [
    | none ↦ none
    | some body' ↦ apply_filters m.filters body'
  ]

  module _ (as_string : Text → String) where
    -- The pick of the handler.
    unfoldable pub pick_handler : Resolved B → ProxyManager V → Result (Route B) × ProxyManager V
    pick_handler r pm =
        if not (is_empty r.pin)
        then (
          route_with (pinned r.pin) r.requested (apply_filters (side_filters r.pin pm) r.body),
          pm,
        )
        else elim (real_model_name pm.config r.requested) [
          | some id ↦
              let (groups', found) = swap_process_group (as_string id) pm.groups in
              let pm' = record pm { groups = groups' } in
              elim found [
                | none ↦ (failed server_error, pm')
                | some group ↦
                    (route_with (local group) id (local_body (settings id pm) r.body), pm')
              ]
          | none ↦
              if peers_have r.requested pm
              then (
                route_with by_name r.requested
                    (apply_filters (named_filters r.requested pm) r.body),
                pm,
              )
              else (failed bad_request, pm)
        ]

    -- `proxyInferenceHandler` up to the pick of the handler; a body that cannot be read is `none`.
    unfoldable pub route_request :
        World → (ℕ → ℕ) → Option B → ProxyManager V → Result (Route B) × ProxyManager V
    route_request w to_lower none pm = (failed bad_request, pm)
    route_request w to_lower (some body) pm =
        let requested = j.string (j.get body model_word) in
        let (result, pm') = resolve_request w to_lower requested body pm in
        if is_empty requested
        then (failed bad_request, pm)
        else elim result [ failed code ↦ (failed code, pm') | ok r ↦ pick_handler r pm' ]
