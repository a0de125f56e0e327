-- ===== src/PeerAddress/Cache.antt =====
-- The cached snapshots of the peers (proxy/peeraddress.go). The time and the replies of the peers are
-- inputs; a request reads the time once.
use omniswap.Prelude.{
  ℕ, ◌-◌, Bool, false, Option, none, some, List, [], if◌then◌else◌, ltb, ◌≡◌, refl, Bool-cases,
  Option-cases, inl, inr,
}
use omniswap.Prelude.Dict.{Dict, lookup, insert, lookup-insert_self}
use omniswap.Prelude.Text.{Text, text_eq, contains}
use omniswap.PeerAddress.Grammar.{ModelModality}
use omniswap.PeerAddress.Snapshot.{
  PeerLoadedSet, PeerConfig, ModelDims, no_models, with_declared_modalities, Reply,
  fetch_peer_loaded,
}

-- The part of `PeerProxy` that an address reads and writes.
pub record PeerProxy : Type 0 where
  pub peers : Dict Text PeerConfig
  pub peer_order : List Text
  pub loaded_cache : Dict Text PeerLoadedSet
  pub loaded_ttl : ℕ

abbrev pub no_config : PeerConfig
no_config = record { has_url = false; models = []; modalities = [] }

-- `p.peers[id]`, the zero value for a missing id.
abbrev pub config_of : Text → PeerProxy → PeerConfig
config_of id p = elim (lookup id p.peers) [ none ↦ no_config | some peer ↦ peer ]

-- What a request finds: how two runes compare, the time, and each peer's reply.
pub record World : Type 0 where
  pub same_fold : ℕ → ℕ → Bool
  pub now : ℕ
  pub reply : Text → Reply

abbrev store : Text → PeerLoadedSet → PeerProxy → PeerLoadedSet × PeerProxy
store id set p = (set, record p { loaded_cache = insert id set p.loaded_cache })

module _ (w : World) where
  -- `peerLoaded` without a fresh snapshot; `old` is the cached one, if there is one.
  abbrev refresh : Text → PeerConfig → Option PeerLoadedSet → PeerProxy → PeerLoadedSet × PeerProxy
  refresh id peer old p = elim (fetch_peer_loaded w.same_fold peer (w.reply id) w.now) [
    | some snap ↦ store id (with_declared_modalities snap peer) p
    | none ↦ elim old [
      | some cached ↦ (cached, p)
      | none ↦ store id (with_declared_modalities (no_models w.now) peer) p
    ]
  ]

  -- `peerLoaded`
  unfoldable pub peer_loaded : Text → PeerConfig → PeerProxy → PeerLoadedSet × PeerProxy
  peer_loaded id peer p = elim (lookup id p.loaded_cache) [
    | some cached ↦
        if ltb (w.now - cached.fetched_at) p.loaded_ttl
        then (cached, p)
        else refresh id peer (some cached) p
    | none ↦ refresh id peer none p
  ]

  -- `LoadedModels`, `IsPeerModelLoaded`, `PeerModelModality` and `PeerModelDims`
  unfoldable pub loaded_models : Text → PeerProxy → List Text × PeerProxy
  loaded_models id p = elim (lookup id p.peers) [
    | none ↦ ([], p)
    | some peer ↦ let (set, p') = peer_loaded id peer p in (set.order, p')
  ]

  unfoldable pub is_peer_model_loaded : Text → Text → PeerProxy → Bool × PeerProxy
  is_peer_model_loaded id model p = elim (lookup id p.peers) [
    | none ↦ (false, p)
    | some peer ↦ let (set, p') = peer_loaded id peer p in (contains model set.all, p')
  ]

  unfoldable pub peer_model_modality : Text → Text → PeerProxy → Option ModelModality × PeerProxy
  peer_model_modality id model p = elim (lookup id p.peers) [
    | none ↦ (none, p)
    | some peer ↦ let (set, p') = peer_loaded id peer p in (lookup model set.modalities, p')
  ]

  unfoldable pub peer_model_dims : Text → Text → PeerProxy → Option ModelDims × PeerProxy
  peer_model_dims id model p = elim (lookup id p.peers) [
    | none ↦ (none, p)
    | some peer ↦ let (set, p') = peer_loaded id peer p in (lookup model set.dims, p')
  ]

  -- What a call leaves in place: the configuration, and the snapshot that it returns in the cache.
  pub record Leaves (id : Text) (p : PeerProxy) (set : PeerLoadedSet) (p' : PeerProxy)
      : Type 0 where
    pub same_peers : p'.peers ≡ p.peers
    pub same_order : p'.peer_order ≡ p.peer_order
    pub cached : lookup id p'.loaded_cache ≡ some set

  store-Leaves :
      (id : Text) (set : PeerLoadedSet) (p : PeerProxy) → Leaves id p set (store id set p).1
  store-Leaves id set p = record {
    same_peers = refl;
    same_order = refl;
    cached = lookup-insert_self id set p.loaded_cache;
  }

  refresh-Leaves :
      (id : Text) (peer : PeerConfig) (old : Option PeerLoadedSet) (p : PeerProxy)
      → lookup id p.loaded_cache ≡ old
      → Leaves id p (refresh id peer old p).0 (refresh id peer old p).1
  refresh-Leaves id peer none p h =
      elim (Option-cases (fetch_peer_loaded w.same_fold peer (w.reply id) w.now)) [
        | inl e ↦
            rw (e, refresh) (store-Leaves id (with_declared_modalities (no_models w.now) peer) p)
        | inr (snap, e) ↦ rw (e, refresh) (store-Leaves id (with_declared_modalities snap peer) p)
      ]
  refresh-Leaves id peer (some cached) p h =
      elim (Option-cases (fetch_peer_loaded w.same_fold peer (w.reply id) w.now)) [
        | inl e ↦ rw (e, refresh) (record { same_peers = refl; same_order = refl; cached = h })
        | inr (snap, e) ↦ rw (e, refresh) (store-Leaves id (with_declared_modalities snap peer) p)
      ]

  pub peer_loaded-Leaves :
      (id : Text) (peer : PeerConfig) (p : PeerProxy)
      → Leaves id p (peer_loaded id peer p).0 (peer_loaded id peer p).1
  unfolding peer_loaded
  peer_loaded-Leaves id peer p = elim (Option-cases (lookup id p.loaded_cache)) [
    | inl e ↦ rw (e, peer_loaded) (refresh-Leaves id peer none p e)
    | inr (cached, e) ↦ elim (Bool-cases (ltb (w.now - cached.fetched_at) p.loaded_ttl)) [
      | inl k ↦ rw (e, k, peer_loaded) (record { same_peers = refl; same_order = refl; cached = e })
      | inr k ↦ rw (e, k, peer_loaded) (refresh-Leaves id peer (some cached) p e)
    ]
  ]
