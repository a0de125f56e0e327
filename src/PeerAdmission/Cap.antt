-- ===== src/PeerAdmission/Cap.antt =====
-- No more requests are in flight to a peer than proxy/peer_admission.go is set to.
use omniswap.Prelude.{
  ℕ, suc, ◌-◌, ◌≤◌, String, Bool, true, none, some, ◌≡◌, arith, ◌⊎◌, inl, inr, ◌≢◌, Option-cases,
}
use omniswap.Prelude.Keys.{string_eq}
use omniswap.Prelude.Dict.{lookup, lookup-insert}
use omniswap.Prelude.Int.{pos_part}
use omniswap.PeerAdmission.{PeerAdmission, rejected, take_slot, acquire, release, enabled}

-- The slots that are taken at a peer.
abbrev pub in_flight : String → PeerAdmission → ℕ
in_flight id pa = elim (lookup id pa.slots) [ none ↦ 0 | some n ↦ n ]

abbrev pub IsCapped : String → PeerAdmission → Type 0
IsCapped id pa = in_flight id pa ≤ pos_part pa.max_inflight

take_slot-IsCapped :
    (id other : String) (pa pa' : PeerAdmission)
    → IsCapped other pa
    → take_slot id pa ≡ some pa'
    → IsCapped other pa'
take_slot-IsCapped id other pa pa' h e = elim (Option-cases (lookup id pa.slots)) [
  | inl unknown ↦ absurd (ground arith)
  | inr (n, found) ↦
      ground (arith, found, lookup-insert id other (suc n) pa.slots, string_eq.beq_iff id other)
]

-- Whatever state a wait ends in, if neither it nor the state before has more slots taken at a peer
-- than the cap, then neither has the state after an `acquire` for any peer. A request is rejected
-- only if admission is enabled and its peer had no free slot when it asked.
pub acquire-IsCapped :
    (id other : String) (waited : PeerAdmission) (gone : Bool) (pa : PeerAdmission)
    → IsCapped other pa
    → IsCapped other waited
    → let out = acquire id waited gone pa in
      IsCapped other out.0
      × ((out.1 ≢ rejected)
          ⊎ ((enabled (some pa) ≡ true) × (pos_part pa.max_inflight ≤ in_flight id pa)))
unfolding acquire
acquire-IsCapped id other waited gone pa h k = elim (Option-cases (take_slot id pa)) [
  | inr (pa', free) ↦ ground (arith, free, take_slot-IsCapped id other pa pa' h)
  | inl full ↦ elim (Option-cases (take_slot id waited)) [
    | inr (pa', free) ↦ ground (arith, full, free, take_slot-IsCapped id other waited pa' k)
    | inl busy ↦ ground (arith, full, busy)
  ]
]

-- A release keeps the cap, at every peer.
pub release-IsCapped :
    (id other : String) (pa : PeerAdmission) → IsCapped other pa → IsCapped other (release id pa)
unfolding release
release-IsCapped id other pa h = elim (Option-cases (lookup id pa.slots)) [
  | inl unknown ↦ rw (unknown, release) h
  | inr (n, found) ↦
      rw (found, release)
        (ground (arith, found, lookup-insert id other (n - 1) pa.slots, string_eq.beq_iff id other))
]
