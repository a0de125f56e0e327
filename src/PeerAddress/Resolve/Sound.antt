-- ===== src/PeerAddress/Resolve/Sound.antt =====
-- What a resolution may answer (proxy/peeraddress.go).
use omniswap.Prelude.{
  ℕ, Bool, true, false, ◌||◌, Option, none, some, List, [], ◌≡◌, ◌⊎◌, refl, sym, ap, ◌∙◌, arith,
  Bool-cases, Option-cases, List-cases, inl, inr,
}
use omniswap.Prelude.Dict.{lookup}
use omniswap.Prelude.Text.{Text, text_eq, contains, is_empty}
use omniswap.PeerAddress.Grammar.{
  Result, Result-cases, failed, ok, bad_request, service_unavailable, Address, split_address, plain,
  capability, parse_capability, parse_expression, parse_output, is_wildcard,
}
use omniswap.PeerAddress.Snapshot.{PeerLoadedSet, PeerConfig}
use omniswap.PeerAddress.Cache.{PeerProxy, World, peer_loaded, peer_loaded-Leaves}
use omniswap.PeerAddress.Resolve.{
  AddressResolution, pick_model_for_peer, peer_serves_model, first_loaded_anywhere, capable_at,
  first_capable, picked, resolve_capability, resolve_at, resolve_plain, resolve_address,
}
use omniswap.PeerAddress.Resolve.Offers.{
  Offers, AllKnown, Picks, contains_head, peer_loaded-Offers, capable_at-Picks, first_capable-Picks,
  first_loaded_anywhere-Picks,
}

-- The answers that a resolution may give, with the proxy that it leaves.
abbrev pub IsJustified : Result AddressResolution × PeerProxy → Type 0
IsJustified (failed code, p) = (code ≡ bad_request) ⊎ (code ≡ service_unavailable)
IsJustified (ok res, p) = (res.peer_id ≡ []) ⊎ Offers p res.peer_id res.model

picked-IsJustified :
    (found : Option (Text × Text)) (p : PeerProxy)
    → Picks (found, p)
    → IsJustified (picked service_unavailable found, p)
picked-IsJustified none p h = inr refl
picked-IsJustified (some (id, model)) p h = inr h

pick_model_for_peer_lem :
    (peer : PeerConfig) (loaded : PeerLoadedSet) (model : Text)
    → pick_model_for_peer peer loaded ≡ some model
    → (contains model loaded.order ≡ true) ⊎ (contains model peer.models ≡ true)
unfolding pick_model_for_peer
pick_model_for_peer_lem peer loaded model h = elim (List-cases loaded.order) [
  | inr (x, xs, e) ↦
      let got : pick_model_for_peer peer loaded ≡ some x = rw (e, pick_model_for_peer) refl in
      let same : x ≡ model = cc in inl (rw (e, sym same) (contains_head x xs))
  | inl e ↦ elim (List-cases peer.models) [
    | inl k ↦
        let got : pick_model_for_peer peer loaded ≡ none = rw (e, k, pick_model_for_peer) refl in
        absurd cc
    | inr (x, xs, k) ↦
        let got : pick_model_for_peer peer loaded ≡ some x = rw (e, k, pick_model_for_peer) refl in
        let same : x ≡ model = cc in inr (rw (k, sym same) (contains_head x xs))
  ]
]

split_address_code : (raw : Text) (code : ℕ) → split_address raw ≡ failed code → code ≡ bad_request
unfolding split_address
split_address_code raw code h = ground arith

parse_capability_code :
    (to_lower : ℕ → ℕ) (raw : Text) (code : ℕ)
    → parse_capability to_lower raw ≡ failed code
    → code ≡ bad_request
unfolding parse_capability parse_expression parse_output
parse_capability_code to_lower raw code h = ground arith

module _ (w : World) where
  resolve_capability-IsJustified :
      (node : Text) (node_wild : Bool) (ins outs : List Text) (p : PeerProxy)
      → AllKnown p.peers p.peer_order
      → IsJustified (resolve_capability w node node_wild ins outs p)
  unfolding resolve_capability
  resolve_capability-IsJustified node true ins outs p h =
      let found = first_capable w ins outs p.peer_order p in
      picked-IsJustified found.0 found.1 (first_capable-Picks w ins outs p.peer_order p h)
  resolve_capability-IsJustified node false ins outs p h =
      elim (Option-cases (lookup node p.peers)) [
        | inl e ↦ rw (e, resolve_capability) (inl refl)
        | inr (peer, e) ↦
            rw (e, resolve_capability)
              (let found = capable_at w ins outs node peer p in
                picked-IsJustified found.0 found.1 (capable_at-Picks w ins outs node peer p e))
      ]

  picked_there :
      (id : Text) (peer : PeerConfig) (p : PeerProxy) (model : Text)
      → lookup id p.peers ≡ some peer
      → (contains model (peer_loaded w id peer p).0.order ≡ true)
        ⊎ (contains model peer.models ≡ true)
      → Offers (peer_loaded w id peer p).1 id model
  picked_there id peer p model h (inl k) =
      peer_loaded-Offers w id model peer p h (ground (arith, k))
  picked_there id peer p model h (inr k) = record {
    peer = peer;
    known = ap (lookup id) (peer_loaded-Leaves w id peer p).same_peers ∙ h;
    offered = inl k;
  }

  peer_serves_model-Offers :
      (id : Text) (peer : PeerConfig) (model : Text) (p : PeerProxy)
      → lookup id p.peers ≡ some peer
      → (peer_serves_model w id peer model p).0 ≡ true
      → Offers (peer_serves_model w id peer model p).1 id model
  unfolding peer_serves_model
  peer_serves_model-Offers id peer model p h k = elim (Bool-cases (contains model peer.models)) [
    | inl e ↦ rw (e, peer_serves_model) (record { peer = peer; known = h; offered = inl e })
    | inr e ↦
        let polled : (contains model (peer_loaded w id peer p).0.served
              || contains model (peer_loaded w id peer p).0.all)
            ≡ true =
          ground (arith, e, k) in
        rw (e, peer_serves_model) (peer_loaded-Offers w id model peer p h (ground (arith, polled)))
  ]

  resolve_at-IsJustified :
      (node : Text) (peer : PeerConfig) (model : Text) (has_at : Bool) (p : PeerProxy)
      → lookup node p.peers ≡ some peer
      → IsJustified (resolve_at w node peer model has_at p)
  unfolding resolve_at
  resolve_at-IsJustified node peer model has_at p h =
      elim (Bool-cases (is_wildcard w.same_fold model)) [
        | inl e ↦
            let at = peer_loaded w node peer p in
            elim (Option-cases (pick_model_for_peer peer at.0)) [
              | inl k ↦ rw (e, k, resolve_at) (inr refl)
              | inr (m, k) ↦ elim (Bool-cases (is_empty m)) [
                | inl z ↦ rw (e, k, z, resolve_at) (inr refl)
                | inr z ↦
                    rw (e, k, z, resolve_at)
                      (inr (picked_there node peer p m h (pick_model_for_peer_lem peer at.0 m k)))
              ]
            ]
        | inr e ↦ elim (Bool-cases (peer_serves_model w node peer model p).0) [
          | inl k ↦ rw (e, k, resolve_at) (inr (peer_serves_model-Offers node peer model p h k))
          | inr k ↦ rw (e, k, resolve_at) (inl refl)
        ]
      ]

  resolve_plain-IsJustified :
      (a : Address) (p : PeerProxy)
      → AllKnown p.peers p.peer_order
      → IsJustified (resolve_plain w a p)
  unfolding resolve_plain
  resolve_plain-IsJustified a p h = elim (Bool-cases (is_wildcard w.same_fold a.node)) [
    | inl e ↦ elim (Bool-cases (is_wildcard w.same_fold a.model)) [
      | inl k ↦
          let found = first_loaded_anywhere w p.peer_order p in
          rw (e, k, resolve_plain)
            (picked-IsJustified found.0 found.1 (first_loaded_anywhere-Picks w p.peer_order p h))
      | inr k ↦ rw (e, k, resolve_plain) (inl refl)
    ]
    | inr e ↦ elim (Option-cases (lookup a.node p.peers)) [
      | inl k ↦ rw (e, k, resolve_plain) (inl refl)
      | inr (peer, k) ↦
          rw (e, k, resolve_plain) (resolve_at-IsJustified a.node peer a.model a.has_at p k)
    ]
  ]

  -- Every resolution of an address either fails, with the code 400 or 503, or is left to the routing
  -- by name, or pins a peer that is known and that was configured to serve the model or was seen in
  -- its last snapshot to serve it, to have it loaded or to give its signature, if every peer of the
  -- order is known.
  pub resolve_address-IsJustified :
      (to_lower : ℕ → ℕ) (raw : Text) (p : PeerProxy)
      → AllKnown p.peers p.peer_order
      → IsJustified (resolve_address w to_lower raw p)
  unfolding resolve_address
  resolve_address-IsJustified to_lower raw p h = elim (Result-cases (split_address raw)) [
    | inl (code, e) ↦ rw (e, resolve_address) (inl (split_address_code raw code e))
    | inr (a, e) ↦ elim (Result-cases (parse_capability to_lower a.model)) [
      | inl (code, k) ↦
          rw (e, k, resolve_address) (inl (parse_capability_code to_lower a.model code k))
      | inr (plain, k) ↦ rw (e, k, resolve_address) (resolve_plain-IsJustified a p h)
      | inr (capability ins outs, k) ↦
          rw (e, k, resolve_address)
            (resolve_capability-IsJustified a.node (is_wildcard w.same_fold a.node) ins outs p h)
    ]
  ]
