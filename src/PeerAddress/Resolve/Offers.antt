-- ===== src/PeerAddress/Resolve/Offers.antt =====
-- What a peer offers of what is picked on it (proxy/peeraddress.go).
use omniswap.Prelude.{
  true, ◌||◌, Option, none, some, List, [], ◌∷◌, ◌≡◌, ◌⊎◌, refl, sym, ap, ◌∙◌, arith, All,
  Option-cases, List-cases, inl, inr, is_some,
}
use omniswap.Prelude.Keys.{==_refl}
use omniswap.Prelude.Dict.{Dict, lookup}
use omniswap.Prelude.Text.{Text, text_eq, contains}
use omniswap.PeerAddress.Snapshot.{PeerLoadedSet, PeerConfig}
use omniswap.PeerAddress.Cache.{PeerProxy, config_of, World, peer_loaded, peer_loaded-Leaves}
use omniswap.PeerAddress.Resolve.{
  first_model_matching_caps, first_loaded_anywhere, capable_at, first_capable,
}
use omniswap.PeerAddress.Resolve.Pick.{first_model_matching_caps_lem}

-- The peer is known, and the model is declared for it, or its snapshot in the cache names it: as one
-- that it serves or has loaded, or with a signature.
pub record Offers (p : PeerProxy) (id model : Text) : Type 0 where
  pub peer : PeerConfig
  pub known : lookup id p.peers ≡ some peer
  pub offered :
      (contains model peer.models ≡ true)
      ⊎ ((set : PeerLoadedSet) × (lookup id p.loaded_cache ≡ some set)
          × ((contains model set.served
                || contains model set.all
                || contains model set.order
                || is_some (lookup model set.modalities))
              ≡ true))

-- Of every id there is a peer.
abbrev pub AllKnown : Dict Text PeerConfig → List Text → Type 0
AllKnown peers ids = All (λ id. (peer : PeerConfig) × (lookup id peers ≡ some peer)) ids

-- A pick, with the proxy that it leaves.
abbrev pub Picks : Option (Text × Text) × PeerProxy → Type 0
Picks r = elim r.0 [ none ↦ Unit | some there ↦ Offers r.1 there.0 there.1 ]

Picks-Offers :
    (r : Option (Text × Text) × PeerProxy) (there : Text × Text)
    → r.0 ≡ some there
    → Picks r
    → Offers r.1 there.0 there.1
Picks-Offers (none, p) there e h = absurd cc
Picks-Offers (some x, p) there e h = let same : x ≡ there = cc in rw (sym same) h

config_of_known :
    (id : Text) (peer : PeerConfig) (p : PeerProxy)
    → lookup id p.peers ≡ some peer
    → config_of id p ≡ peer
config_of_known id peer p e = rw (e, config_of) refl

pub contains_head : (x : Text) (xs : List Text) → contains x (x ∷ xs) ≡ true
unfolding contains
contains_head x xs = ground (arith, ==_refl x)

module _ (w : World) where
  -- From the snapshot that a poll returned.
  pub peer_loaded-Offers :
      (id model : Text) (peer : PeerConfig) (p : PeerProxy)
      → lookup id p.peers ≡ some peer
      → (let set = (peer_loaded w id peer p).0 in
          (contains model set.served
            || contains model set.all
            || contains model set.order
            || is_some (lookup model set.modalities))
          ≡ true)
      → Offers (peer_loaded w id peer p).1 id model
  peer_loaded-Offers id model peer p h k =
      let left = peer_loaded-Leaves w id peer p in
      record {
        peer = peer;
        known = ap (lookup id) left.same_peers ∙ h;
        offered = inr ((peer_loaded w id peer p).0, left.cached, k);
      }

  pub capable_at-Picks :
      (ins outs : List Text) (id : Text) (peer : PeerConfig) (p : PeerProxy)
      → lookup id p.peers ≡ some peer
      → Picks (capable_at w ins outs id peer p)
  unfolding capable_at
  capable_at-Picks ins outs id peer p h =
      elim (Option-cases
        (first_model_matching_caps w.same_fold ins outs (peer_loaded w id peer p).0)) [
          | inl e ↦ rw (e, capable_at) tt
          | inr (model, e) ↦
              let (sig, found, sat) =
                first_model_matching_caps_lem w.same_fold ins outs (peer_loaded w id peer p).0 model
                  e in
              rw (e, capable_at) (peer_loaded-Offers id model peer p h (ground (arith, found)))
        ]

  capable_at-peers :
      (ins outs : List Text) (id : Text) (peer : PeerConfig) (p : PeerProxy)
      → (capable_at w ins outs id peer p).1.peers ≡ p.peers
  unfolding capable_at
  capable_at-peers ins outs id peer p =
      elim (Option-cases
        (first_model_matching_caps w.same_fold ins outs (peer_loaded w id peer p).0)) [
          | inl e ↦ rw (e, capable_at) (peer_loaded-Leaves w id peer p).same_peers
          | inr (model, e) ↦ rw (e, capable_at) (peer_loaded-Leaves w id peer p).same_peers
        ]

  pub first_capable-Picks :
      (ins outs ids : List Text) (p : PeerProxy)
      → AllKnown p.peers ids
      → Picks (first_capable w ins outs ids p)
  unfolding first_capable
  first_capable-Picks ins outs [] p h = tt
  first_capable-Picks ins outs (id ∷ ids) p ((peer, e), h) =
      let at = capable_at w ins outs id (config_of id p) p in
      let here : Picks at =
        rw (config_of_known id peer p e) (capable_at-Picks ins outs id peer p e) in
      let kept : at.1.peers ≡ p.peers = capable_at-peers ins outs id (config_of id p) p in
      elim (Option-cases at.0) [
        | inl k ↦ rw (k, first_capable) (first_capable-Picks ins outs ids at.1 (rw kept h))
        | inr (there, k) ↦ rw (k, first_capable) (Picks-Offers at there k here)
      ]

  pub first_loaded_anywhere-Picks :
      (ids : List Text) (p : PeerProxy)
      → AllKnown p.peers ids
      → Picks (first_loaded_anywhere w ids p)
  unfolding first_loaded_anywhere
  first_loaded_anywhere-Picks [] p h = tt
  first_loaded_anywhere-Picks (id ∷ ids) p ((peer, e), h) =
      let config = config_of_known id peer p e in
      let at = peer_loaded w id (config_of id p) p in
      let left = peer_loaded-Leaves w id (config_of id p) p in
      elim (List-cases at.0.order) [
        | inl k ↦
            rw (k, first_loaded_anywhere)
              (first_loaded_anywhere-Picks ids at.1 (rw left.same_peers h))
        | inr (model, models, k) ↦
            let head : contains model at.0.order ≡ true = rw k (contains_head model models) in
            rw (k, first_loaded_anywhere)
              (peer_loaded-Offers id model (config_of id p) p (e ∙ ap some (sym config))
                (ground (arith, head)))
      ]
