-- ===== src/PeerAddress/Directory/Listed.antt =====
-- The peers of a model are those that list it (proxy/peerproxy.go).
use omniswap.Prelude.{
  true, ◌&&◌, ◌||◌, List, [], ◌∷◌, ◌++◌, ◌≡◌, refl, ap, if◌then◌else◌, arith, map, is_some,
  Bool-cases, inl, inr,
}
use omniswap.Prelude.Keys.{◌==◌}
use omniswap.Prelude.Dict.{Dict, lookup, insert, lookup-insert}
use omniswap.Prelude.Text.{Text, text_eq, contains, sort_strings}
use omniswap.Prelude.Sorted.{contains-sort_strings, contains-keys}
use omniswap.PeerAddress.Directory.{
  Peer, peer_of, members_of, register, register_all, new_peer_proxy, has_peer_model,
}

contains-append :
    (x : Text) (ys zs : List Text) → contains x (ys ++ zs) ≡ (contains x ys || contains x zs)
unfolding contains
contains-append x [] zs = refl
contains-append x (y ∷ ys) zs = ground (arith, contains-append x ys zs)

members_of-insert :
    (model other : Text) (ids : List Text) (mp : Dict Text (List Text))
    → members_of model (insert other ids mp) ≡ (if other == model then ids else members_of model mp)
members_of-insert model other ids mp = ground (arith, lookup-insert other model ids mp)

contains-register :
    (x model id : Text) (models : List Text) (mp : Dict Text (List Text))
    → contains x (members_of model (register id models mp))
      ≡ (contains x (members_of model mp) || (id == x && contains model models))
unfolding register contains
contains-register x model id [] mp = ground arith
contains-register x model id (m ∷ models) mp = ground (
  arith,
  contains-register x model id models (insert m (members_of m mp ++ (id ∷ [])) mp),
  members_of-insert model m (members_of m mp ++ (id ∷ [])) mp,
  contains-append x (members_of m mp) (id ∷ []),
  text_eq.beq_iff m model,
)

module _ {V : Type 0} where
  contains-register_all :
      (x model : Text) (ids : List Text) (peers : Dict Text (Peer V)) (mp : Dict Text (List Text))
      → contains x (members_of model (register_all ids peers mp)) ≡ (
          contains x (members_of model mp)
          || (contains x ids && contains model (peer_of x peers).models))
  unfolding register_all contains
  contains-register_all x model [] peers mp = ground arith
  contains-register_all x model (id ∷ ids) peers mp = elim (Bool-cases (id == x)) [
    | inl e ↦
        let same : id ≡ x = (text_eq.beq_iff id x).0 e in
        ground (
          arith,
          contains-register_all x model ids peers (register id (peer_of id peers).models mp),
          contains-register x model id (peer_of id peers).models mp,
          ap (λ (i : Text). contains model (peer_of i peers).models) same,
        )
    | inr e ↦ ground (
      arith,
      contains-register_all x model ids peers (register id (peer_of id peers).models mp),
      contains-register x model id (peer_of id peers).models mp,
    )
  ]

  -- In the maps that `NewPeerProxy` makes: the members of a model are exactly the configured peers
  -- that list it.
  pub members_of-new_peer_proxy :
      (id model : Text) (peers : Dict Text (Peer V))
      → contains id (members_of model (new_peer_proxy peers).1)
        ≡ (is_some (lookup id peers) && contains model (peer_of id peers).models)
  unfolding new_peer_proxy contains
  members_of-new_peer_proxy id model peers = ground (
    arith,
    contains-register_all id model (sort_strings (map (λ entry. entry.0) peers)) peers [],
    contains-sort_strings id (map (λ entry. entry.0) peers),
    contains-keys id peers,
  )

  -- So a model that a configured peer lists is one that `HasPeerModel` knows.
  has_peer_model-listed :
      (id model : Text) (peers : Dict Text (Peer V))
      → is_some (lookup id peers) ≡ true
      → contains model (peer_of id peers).models ≡ true
      → has_peer_model model (new_peer_proxy peers).1 ≡ true
  unfolding has_peer_model contains
  has_peer_model-listed id model peers known lists =
      ground (arith, members_of-new_peer_proxy id model peers)
