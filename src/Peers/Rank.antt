-- ===== src/Peers/Rank.antt =====
-- `GemsRanker.Rank` of proxy/scheduler.go against the pick of proxy/peerproxy.go.
use omniswap.Prelude.{
  ℕ, String, Bool, Option, none, some, List, [], ◌∷◌, ◌≡◌, refl, arith, map, false, inl, inr,
  List-cases,
}
use omniswap.Prelude.Int.{ℤ}
use omniswap.Peers.{
  PeerProxy, PeerProxyMember, Candidate, rank, rank_key, gems_fit, choose, slice_stable, pick_best,
  AffinityConfig, pick_peer_for_model_with_affinity,
}
use omniswap.Peers.Best.{head?, choose-head?}

-- The node of a candidate that is there.
abbrev pub node_of : Option Candidate → Option String
node_of none = none
node_of (some c) = some c.node

abbrev pub id_of : Option PeerProxyMember → Option String
id_of none = none
id_of (some pp) = some pp.peer_id

node_of-map :
    (bias : String → ℤ) (pps : List PeerProxyMember)
    → node_of (head? (map (λ pp. record { node = pp.peer_id; fit = gems_fit bias pp }) pps))
      ≡ id_of (head? pps)
node_of-map bias [] = refl
node_of-map bias (pp ∷ pps) = refl

pick_best-choose :
    (bias : String → ℤ) (p : PeerProxy) (o : Option PeerProxyMember)
    → choose (rank_key bias) none p.candidates ≡ o
    → (pick_best bias p).1 ≡ o
pick_best-choose bias p none e = rw (e, pick_best) refl
pick_best-choose bias p (some b) e = rw (e, pick_best) refl

rank-pick_best :
    (bias : String → ℤ) (p : PeerProxy) → node_of (head? (rank bias p)) ≡ id_of (pick_best bias p).1
unfolding rank
rank-pick_best bias p =
    rw
      (pick_best-choose bias p (head? (slice_stable (rank_key bias) p.candidates))
        (choose-head? (rank_key bias) p.candidates))
      (node_of-map bias (slice_stable (rank_key bias) p.candidates))

module _ (affinity_score : String → String → ℕ) (string_lt : String → String → Bool) where
  -- Without affinity the pick is the load-aware one, for one candidate too.
  pub pick-disabled :
      (cfg : AffinityConfig) (cap : Option ℤ) (bias : String → ℤ) (key : String) (p : PeerProxy)
      → cfg.enabled ≡ false
      → pick_peer_for_model_with_affinity affinity_score string_lt cfg cap bias key p
        ≡ pick_best bias p
  unfolding pick_peer_for_model_with_affinity choose
  pick-disabled cfg cap bias key p h = elim (List-cases p.candidates) [
    | inl none_left ↦ rw none_left refl
    | inr (c, [], e) ↦ rw e refl
    | inr (c, c' ∷ cs, e) ↦ rw (e, h) (ground arith)
  ]

  -- With affinity off, the peer that the ranking of a model puts first is the one that the pick
  -- reserves, and the ranking is empty exactly if no peer is picked.
  pub rank_matches_pick :
      (cfg : AffinityConfig) (cap : Option ℤ) (bias : String → ℤ) (key : String) (p : PeerProxy)
      → cfg.enabled ≡ false
      → node_of (head? (rank bias p))
        ≡ id_of (pick_peer_for_model_with_affinity affinity_score string_lt cfg cap bias key p).1
  rank_matches_pick cfg cap bias key p h =
      rw (pick-disabled cfg cap bias key p h) (rank-pick_best bias p)
