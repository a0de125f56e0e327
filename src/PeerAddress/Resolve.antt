-- ===== src/PeerAddress/Resolve.antt =====
-- The resolution of an address to a peer and a model (proxy/peeraddress.go).
pub mod Pick
pub mod Offers
pub mod Sound
use omniswap.Prelude.{
  ℕ, Bool, true, false, not, ◌&&◌, ◌||◌, Option, none, some, List, [], ◌∷◌, if◌then◌else◌, map,
}
use omniswap.Prelude.Dict.{Dict, lookup}
use omniswap.Prelude.Text.{Text, text_eq, is_empty, contains, sort_strings}
use omniswap.PeerAddress.Grammar.{
  Result, failed, ok, bad_request, service_unavailable, Address, split_address, ModelModality,
  Request, plain, capability, parse_capability, is_wildcard, modality_satisfies,
}
use omniswap.PeerAddress.Snapshot.{PeerLoadedSet, PeerConfig}
use omniswap.PeerAddress.Cache.{PeerProxy, no_config, config_of, World, peer_loaded}

-- `AddressResolution`; an empty id routes by the name of the model.
pub record AddressResolution : Type 0 where
  pub peer_id : Text
  pub model : Text
  pub rewrote : Bool

module _ (same_fold : ℕ → ℕ → Bool) where
  -- The first of some names whose signature satisfies the request.
  unfoldable pub first_satisfying :
      List Text → List Text → Dict Text ModelModality → List Text → Option Text
  first_satisfying ins outs modalities [] = none
  first_satisfying ins outs modalities (id ∷ ids) =
      let rest = first_satisfying ins outs modalities ids in
      elim (lookup id modalities) [
        | none ↦ rest
        | some sig ↦ if modality_satisfies same_fold sig ins outs then some id else rest
      ]

  -- `firstModelMatchingCaps`, after the snapshot is read.
  unfoldable pub first_model_matching_caps : List Text → List Text → PeerLoadedSet → Option Text
  first_model_matching_caps ins outs loaded =
      let cold =
        first_satisfying ins outs loaded.modalities
          (sort_strings (map (λ entry. entry.0) loaded.modalities)) in
      elim (first_satisfying ins outs loaded.modalities loaded.order) [
        | none ↦ cold
        | some id ↦ some id
      ]

-- `pickModelForPeer`, after the snapshot is read; no model is `none`.
unfoldable pub pick_model_for_peer : PeerConfig → PeerLoadedSet → Option Text
pick_model_for_peer peer loaded = elim loaded.order [
  | id ∷ ids ↦ some id
  | [] ↦ elim peer.models [ [] ↦ none | model ∷ models ↦ some model ]
]

-- The answer for a peer and a model that were picked, and the code if none was.
abbrev pub picked : ℕ → Option (Text × Text) → Result AddressResolution
picked code none = failed code
picked code (some (id, model)) = ok (record { peer_id = id; model = model; rewrote = true })

module _ (w : World) where
  -- `peerServesModel`
  unfoldable pub peer_serves_model : Text → PeerConfig → Text → PeerProxy → Bool × PeerProxy
  peer_serves_model id peer model p =
      let (loaded, p') = peer_loaded w id peer p in
      if contains model peer.models
      then (true, p)
      else (contains model loaded.served || contains model loaded.all, p')

  -- `firstLoadedAnywhere`
  unfoldable pub first_loaded_anywhere : List Text → PeerProxy → Option (Text × Text) × PeerProxy
  first_loaded_anywhere [] p = (none, p)
  first_loaded_anywhere (id ∷ ids) p =
      let (loaded, p') = peer_loaded w id (config_of id p) p in
      let rest = first_loaded_anywhere ids p' in
      elim loaded.order [ [] ↦ rest | model ∷ models ↦ (some (id, model), p') ]

  -- A model of one peer for a capability.
  unfoldable pub capable_at :
      List Text → List Text → Text → PeerConfig → PeerProxy → Option (Text × Text) × PeerProxy
  capable_at ins outs id peer p =
      let (loaded, p') = peer_loaded w id peer p in
      elim (first_model_matching_caps w.same_fold ins outs loaded) [
        | none ↦ (none, p')
        | some model ↦ (some (id, model), p')
      ]

  -- The loop of `resolveCapability` over the peers.
  unfoldable pub first_capable :
      List Text → List Text → List Text → PeerProxy → Option (Text × Text) × PeerProxy
  first_capable ins outs [] p = (none, p)
  first_capable ins outs (id ∷ ids) p =
      let (found, p') = capable_at ins outs id (config_of id p) p in
      let rest = first_capable ins outs ids p' in
      elim found [ none ↦ rest | some there ↦ (some there, p') ]

  -- `resolveCapability`
  unfoldable pub resolve_capability :
      Text → Bool → List Text → List Text → PeerProxy → Result AddressResolution × PeerProxy
  resolve_capability node node_wild ins outs p =
      let (found, p') = first_capable ins outs p.peer_order p in
      if node_wild then (picked service_unavailable found, p') else elim (lookup node p.peers) [
        | none ↦ (failed bad_request, p)
        | some peer ↦
            let (found', q) = capable_at ins outs node peer p in
            (picked service_unavailable found', q)
      ]

  -- `ResolveAddress` for a peer that is named.
  unfoldable pub resolve_at :
      Text → PeerConfig → Text → Bool → PeerProxy → Result AddressResolution × PeerProxy
  resolve_at node peer model has_at p =
      let (loaded, p') = peer_loaded w node peer p in
      let (serves, q) = peer_serves_model node peer model p in
      if is_wildcard w.same_fold model
      then elim (pick_model_for_peer peer loaded) [
        | none ↦ (failed service_unavailable, p')
        | some m ↦
            if is_empty m
            then (failed service_unavailable, p')
            else (ok (record { peer_id = node; model = m; rewrote = true }), p')
      ]
      else if serves
      then (ok (record { peer_id = node; model = model; rewrote = has_at }), q)
      else (failed bad_request, q)

  -- `ResolveAddress`, after the grammar.
  unfoldable pub resolve_plain : Address → PeerProxy → Result AddressResolution × PeerProxy
  resolve_plain a p =
      let model_wild = is_wildcard w.same_fold a.model in
      let (found, p') = first_loaded_anywhere p.peer_order p in
      if is_wildcard w.same_fold a.node
      then if model_wild
        then (picked service_unavailable found, p')
        else (ok (record { peer_id = []; model = a.model; rewrote = a.has_at }), p)
      else elim (lookup a.node p.peers) [
        | none ↦ (failed bad_request, p)
        | some peer ↦ resolve_at a.node peer a.model a.has_at p
      ]

  -- `ResolveAddress`
  unfoldable pub resolve_address : (ℕ → ℕ) → Text → PeerProxy → Result AddressResolution × PeerProxy
  resolve_address to_lower raw p = elim (split_address raw) [
    | failed code ↦ (failed code, p)
    | ok a ↦ elim (parse_capability to_lower a.model) [
      | failed code ↦ (failed code, p)
      | ok plain ↦ resolve_plain a p
      | ok (capability ins outs) ↦
          resolve_capability a.node (is_wildcard w.same_fold a.node) ins outs p
    ]
  ]
