-- ===== src/PeerAddress/Directory.antt =====
-- Which peers list a model: the maps that `NewPeerProxy` makes, `HasPeerModel`, `GetPeerFilters` and
-- `PeerFilters` (proxy/peerproxy.go). A member is its peer's id; the reverse proxies are left out.
pub mod Listed
use omniswap.Prelude.{
  Bool, true, false, not, ◌&&◌, ◌||◌, Option, none, some, List, [], ◌∷◌, ◌++◌, ◌≡◌, refl,
  if◌then◌else◌, arith, map, is_some,
}
use omniswap.Prelude.Dict.{Dict, lookup, insert, lookup-insert}
use omniswap.Prelude.Text.{Text, text_eq, contains, is_empty, sort_strings}
use omniswap.Prelude.Sorted.{contains-sort_strings, contains-keys}
use omniswap.Filters.{Filters}

-- `config.PeerConfig`, as far as the maps and the filters go.
pub record Peer (V : Type 0) : Type 0 where
  pub models : List Text
  pub filters : Filters V

abbrev pub no_filters : {V : Type 0} → Filters V
no_filters = record { strip_params = []; set_params = [] }

abbrev pub no_peer : {V : Type 0} → Peer V
no_peer = record { models = []; filters = no_filters }

abbrev pub peer_of : {V : Type 0} → Text → Dict Text (Peer V) → Peer V
peer_of id peers = elim (lookup id peers) [ none ↦ no_peer | some peer ↦ peer ]

-- `modelPeers[model]`; a missing model has no members.
abbrev pub members_of : Text → Dict Text (List Text) → List Text
members_of model model_peers = elim (lookup model model_peers) [ none ↦ [] | some ids ↦ ids ]

-- The loop of `NewPeerProxy` over the models of one peer.
unfoldable pub register : Text → List Text → Dict Text (List Text) → Dict Text (List Text)
register id [] model_peers = model_peers
register id (model ∷ models) model_peers =
    register id models (insert model (members_of model model_peers ++ (id ∷ [])) model_peers)

module _ {V : Type 0} where
  -- The loop over the peers, in the order of their ids.
  unfoldable pub register_all :
      List Text → Dict Text (Peer V) → Dict Text (List Text) → Dict Text (List Text)
  register_all [] peers model_peers = model_peers
  register_all (id ∷ ids) peers model_peers =
      register_all ids peers (register id (peer_of id peers).models model_peers)

  -- `NewPeerProxy`: the order of the peers, and `modelPeers`.
  unfoldable pub new_peer_proxy : Dict Text (Peer V) → List Text × Dict Text (List Text)
  new_peer_proxy peers =
      let peer_ids = sort_strings (map (λ entry. entry.0) peers) in
      (peer_ids, register_all peer_ids peers [])

  -- `PeerFilters`
  unfoldable pub peer_filters : Text → Dict Text (Peer V) → Filters V
  peer_filters id peers = (peer_of id peers).filters

  -- `GetPeerFilters`: those of the model's first peer.
  unfoldable pub get_peer_filters : Text → Dict Text (List Text) → Dict Text (Peer V) → Filters V
  get_peer_filters model model_peers peers = elim (members_of model model_peers) [
    | [] ↦ no_filters
    | id ∷ ids ↦ (peer_of id peers).filters
  ]

-- `HasPeerModel`
unfoldable pub has_peer_model : Text → Dict Text (List Text) → Bool
has_peer_model model model_peers = not (is_empty (members_of model model_peers))
