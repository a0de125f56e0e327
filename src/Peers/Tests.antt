-- ===== src/Peers/Tests.antt =====
-- Picks from a small pool, and the theorems at inputs that meet their hypotheses.
use omniswap.Prelude.{
  ℕ, String, Bool, true, false, none, some, [], ◌∷◌, ◌≡◌, refl, if◌then◌else◌, ◌&&◌,
}
use omniswap.Prelude.Keys.{string_eq, ◌==◌}
use omniswap.Prelude.Int.{ℤ, pos, ◌+ℤ◌, ◌-ℤ◌, ◌*ℤ◌}
use omniswap.Prelude.Word.{int64}
use omniswap.Peers.{
  PeerProxyMember, AffinityConfig, AffinityStats, PeerProxy, rank, rank_key, choose, affine_peer,
  affine_loop, pick_affine, admission_saturated, pick_peer_for_model_with_affinity,
}
use omniswap.Peers.Best.{head?}
use omniswap.Peers.Pick.{Reserves, pick_lem}
use omniswap.Peers.Rank.{node_of, id_of, rank_matches_pick}

abbrev no_stats : AffinityStats
no_stats = record {
  hits = pos 0;
  spills_cold = pos 0;
  spills_capped = pos 0;
  spills_busy = pos 0;
  no_key = pos 0;
}

abbrev gem_a : PeerProxyMember
gem_a = record { peer_id = "gem_a"; in_flight = pos 1 }

abbrev gem_b : PeerProxyMember
gem_b = record { peer_id = "gem_b"; in_flight = pos 0 }

abbrev pool : PeerProxy
pool = record { candidates = gem_a ∷ gem_b ∷ []; stats = no_stats }

-- Both gems hold the model; the hash prefers the first.
abbrev warm : String → ℤ
warm id = pos 0

abbrev score : String → String → ℕ
score key id = if id == "gem_a" then 9 else 4

abbrev string_lt : String → String → Bool
string_lt a b = a == "gem_a" && b == "gem_b"

abbrev on : AffinityConfig
on = record { enabled = true; bonus = pos 4 }

abbrev off : AffinityConfig
off = record { enabled = false; bonus = pos 4 }

affinity_test :
    id_of (pick_peer_for_model_with_affinity score string_lt on none warm "chat" pool).1
    ≡ some "gem_a"
unfolding pick_peer_for_model_with_affinity affine_peer affine_loop choose rank_key pick_affine
    admission_saturated int64 ◌+ℤ◌ ◌-ℤ◌ ◌*ℤ◌
affinity_test = refl

load_test :
    id_of (pick_peer_for_model_with_affinity score string_lt off none warm "chat" pool).1
    ≡ some "gem_b"
unfolding pick_peer_for_model_with_affinity choose rank_key int64 ◌+ℤ◌ ◌-ℤ◌ ◌*ℤ◌
load_test = refl

pick_lem_example :
    Reserves on none warm pool
      (pick_peer_for_model_with_affinity score string_lt on none warm "chat" pool)
pick_lem_example = pick_lem score string_lt on none warm "chat" gem_a (gem_b ∷ []) no_stats

rank_matches_pick_example :
    node_of (head? (rank warm pool))
    ≡ id_of (pick_peer_for_model_with_affinity score string_lt off none warm "chat" pool).1
rank_matches_pick_example = rank_matches_pick score string_lt off none warm "chat" pool refl
