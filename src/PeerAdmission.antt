-- ===== src/PeerAdmission.antt =====
-- The cap on the requests in flight to each peer (proxy/peer_admission.go): a buffered channel is a
-- counter here, of the slots that are taken.
pub mod Cap
mod Tests
use omniswap.Prelude.{
  ℕ, suc, ◌-◌, String, Bool, true, false, not, Option, none, some, List, [], ◌∷◌, if◌then◌else◌,
  ltb,
}
use omniswap.Prelude.Keys.{string_eq}
use omniswap.Prelude.Dict.{Dict, lookup, insert}
use omniswap.Prelude.Int.{ℤ, pos, ltb_ℤ, leb_ℤ, pos_part}

pub record PeerAdmission : Type 0 where
  pub max_inflight : ℤ
  pub queue_timeout : ℤ
  pub slots : Dict String ℕ

abbrev empty_slots : List String → Dict String ℕ → Dict String ℕ
empty_slots [] m = m
empty_slots (id ∷ ids) m = empty_slots ids (insert id 0 m)

unfoldable pub new_peer_admission : ℤ → ℤ → List String → PeerAdmission
new_peer_admission max_inflight queue_timeout peer_ids = record {
  max_inflight = max_inflight;
  queue_timeout = queue_timeout;
  slots = if ltb_ℤ (pos 0) max_inflight then empty_slots peer_ids [] else [];
}

unfoldable pub enabled : Option PeerAdmission → Bool
enabled none = false
enabled (some pa) = ltb_ℤ (pos 0) pa.max_inflight

-- What `acquire` returns: a release that does nothing, one that frees a slot, or none.
pub data Acquired : Type 0 where
  passed taken rejected : Acquired

-- The send on the peer's channel, if it has room.
abbrev pub take_slot : String → PeerAdmission → Option PeerAdmission
take_slot id pa = elim (lookup id pa.slots) [
  | none ↦ none
  | some n ↦
      if ltb n (pos_part pa.max_inflight)
      then some (record pa { slots = insert id (suc n) pa.slots })
      else none
]

abbrev taken_or : PeerAdmission → Option PeerAdmission → PeerAdmission × Acquired
taken_or pa none = (pa, rejected)
taken_or pa (some pa') = (pa', taken)

-- `acquire`: `waited` is the state when a queued request's wait ends, by a free slot, by the timer or
-- because the client went away; `gone` is whether it ends in one of the last two ways.
unfoldable pub acquire : String → PeerAdmission → Bool → PeerAdmission → PeerAdmission × Acquired
acquire id waited gone pa =
    if not (enabled (some pa)) then (pa, passed) else elim (lookup id pa.slots) [
      | none ↦ (pa, passed)
      | some n ↦ elim (take_slot id pa) [
        | some pa' ↦ (pa', taken)
        | none ↦
            if leb_ℤ pa.queue_timeout (pos 0)
            then (pa, rejected)
            else if gone
            then (waited, rejected)
            else taken_or waited (take_slot id waited)
      ]
    ]

-- The release of a taken slot.
unfoldable pub release : String → PeerAdmission → PeerAdmission
release id pa = elim (lookup id pa.slots) [
  | none ↦ pa
  | some n ↦ record pa { slots = insert id (n - 1) pa.slots }
]
