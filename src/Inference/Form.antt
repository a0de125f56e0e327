-- ===== src/Inference/Form.antt =====
-- The form uploads of `proxyOAIPostFormHandler` (proxy/proxymanager.go). The multipart package is
-- outside: how parsing ends, the form that it gives and the value that `FormValue` finds are
-- inputs, files are of any type, and the new form is written without an error.

pub mod Alike
use omniswap.Prelude.{
  ℕ, Bool, true, false, not, Option, none, some, List, [], ◌∷◌, if◌then◌else◌, String, map,
}
use omniswap.Prelude.Keys.{◌==◌}
use omniswap.Prelude.Int.{ℤ, pos, ltb_ℤ}
use omniswap.Prelude.Text.{Text, text_eq, is_empty}
use omniswap.Filters.{model_word}
use omniswap.ModelNames.{real_model_name}
use omniswap.PeerAddress.Grammar.{Result, failed, ok, bad_request}
use omniswap.PeerAddress.Cache.{World}
use omniswap.PeerAddress.Resolve.{resolve_address}
use omniswap.ProxyManager.{swap_process_group}
use omniswap.Inference.{
  Json, ProxyManager, Target, pinned, local, by_name, peers_have, settings, server_error,
}

abbrev pub too_large : ℕ
too_large = 413

-- `defaultMaxFormBodyBytes`: 100 << 20.
unfoldable pub default_max_form_body_bytes : ℤ
default_max_form_body_bytes = pos 104857600

-- `maxFormBodyBytes`, with the configured limit.
unfoldable pub max_form_body_bytes : ℤ → ℤ
max_form_body_bytes configured =
    if ltb_ℤ (pos 0) configured then configured else default_max_form_body_bytes

-- A form: the values of its fields, its files, and what `FormValue` gives for "model".
pub record Form (F : Type 0) : Type 0 where
  pub values : List (Text × List Text)
  pub files : F
  pub model : Text

-- How `ParseMultipartForm` ends, for a body that is cut off at the limit.
pub data Parsed (F : Type 0) : Type 0 where
  over_limit : Parsed F
  malformed : Parsed F
  parsed : Form F → Parsed F

-- What is forwarded.
pub record FormRoute (F : Type 0) : Type 0 where
  pub target : Target
  pub model_id : Text
  pub values : List (Text × List Text)
  pub files : F

-- What address resolution leaves: the pinned peer, empty if there is none, and the model.
pub record Named : Type 0 where
  pub pinned_peer_id : Text
  pub requested : Text

-- The target and the model.
pub record Aim : Type 0 where
  pub target : Target
  pub model_id : Text

-- The values of one field in the new form.
abbrev pub field_value : Text → Text → Text → Text → Text
field_value use_model_name requested key value =
    if key == model_word
    then (if not (is_empty use_model_name) then use_model_name else requested)
    else value

unfoldable pub rebuild_values : Text → Text → List (Text × List Text) → List (Text × List Text)
rebuild_values use_model_name requested [] = []
rebuild_values use_model_name requested ((key, values) ∷ rest) =
    (key, map (field_value use_model_name requested key) values)
    ∷ rebuild_values use_model_name requested rest

module _ {B V : Type 0} (j : Json B V) where
  unfoldable pub resolve_form :
      World → (ℕ → ℕ) → Text → ProxyManager V → Result Named × ProxyManager V
  resolve_form w to_lower requested pm = elim pm.peers [
    | none ↦ (ok (record { pinned_peer_id = []; requested = requested }), pm)
    | some side ↦
        let (result, proxy') = resolve_address w to_lower requested side.proxy in
        let pm' = record pm { peers = some (record side { proxy = proxy' }) } in
        elim result [
          | failed code ↦ (failed code, pm')
          | ok res ↦ (ok (record { pinned_peer_id = res.peer_id; requested = res.model }), pm')
        ]
  ]

  module _ (as_string : Text → String) where
    -- The switch on the model: a pinned peer, a local model, or a peer that lists it.
    unfoldable pub aim : Named → ProxyManager V → Result Aim × ProxyManager V
    aim n pm =
        if not (is_empty n.pinned_peer_id)
        then (ok (record { target = pinned n.pinned_peer_id; model_id = n.requested }), pm)
        else elim (real_model_name pm.config n.requested) [
          | some id ↦
              let (groups', found) = swap_process_group (as_string id) pm.groups in
              let pm' = record pm { groups = groups' } in
              elim found [
                | none ↦ (failed server_error, pm')
                | some group ↦ (ok (record { target = local group; model_id = id }), pm')
              ]
          | none ↦
              if peers_have j n.requested pm
              then (ok (record { target = by_name; model_id = n.requested }), pm)
              else (failed bad_request, pm)
        ]

    -- `proxyOAIPostFormHandler`, up to the request that it forwards.
    unfoldable pub route_form :
        {F : Type 0}
        → World
        → (ℕ → ℕ)
        → Parsed F
        → ProxyManager V
        → Result (FormRoute F) × ProxyManager V
    route_form w to_lower over_limit pm = (failed too_large, pm)
    route_form w to_lower malformed pm = (failed bad_request, pm)
    route_form w to_lower (parsed form) pm =
        let (result, pm') = resolve_form w to_lower form.model pm in
        if is_empty form.model then (failed bad_request, pm) else elim result [
          | failed code ↦ (failed code, pm')
          | ok n ↦
              let (picked, pm'') = aim n pm' in
              elim picked [
                | failed code ↦ (failed code, pm'')
                | ok a ↦ (
                  ok (record {
                    target = a.target;
                    model_id = a.model_id;
                    values =
                        rebuild_values (settings j a.model_id pm).use_model_name n.requested
                          form.values;
                    files = form.files;
                  }),
                  pm'',
                )
              ]
        ]
