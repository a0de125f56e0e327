-- ===== src/PeerAdmission/Tests.antt =====
-- The cap at inputs that meet the theorems' hypotheses.
use omniswap.Prelude.{true, false, some, [], ◌∷◌, ◌≡◌, ◌≢◌, ◌≤◌, arith, ◌⊎◌}
use omniswap.Prelude.Keys.{string_eq}
use omniswap.Prelude.Int.{pos, pos_part}
use omniswap.PeerAdmission.{PeerAdmission, rejected, acquire, enabled}
use omniswap.PeerAdmission.Cap.{in_flight, IsCapped, acquire-IsCapped}

-- A cap of two, reached at the first peer.
abbrev admission : PeerAdmission
admission = record {
  max_inflight = pos 2;
  queue_timeout = pos 0;
  slots = ("gem_a", 2) ∷ ("gem_b", 0) ∷ [];
}

acquire-IsCapped_example :
    let out = acquire "gem_a" admission false admission in
    IsCapped "gem_a" out.0
    × ((out.1 ≢ rejected)
        ⊎ ((enabled (some admission) ≡ true) × (pos_part (pos 2) ≤ in_flight "gem_a" admission)))
acquire-IsCapped_example =
    acquire-IsCapped "gem_a" "gem_a" admission false admission (omega arith) (omega arith)
