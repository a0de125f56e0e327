-- ===== src/Peers.antt =====
-- Which peer serves a model: the pick of proxy/peerproxy.go, the prompt-cache affinity of
-- proxy/peer_affinity.go and the ranking of proxy/scheduler.go. The candidates of a model are in the
-- order of their ids, which are distinct, so that a pointer to one is its id. What a peer has loaded,
-- which is polled, and the hash of a key are parameters.
pub mod Affinity
pub mod Best
pub mod Pick
pub mod Rank
mod Tests
use omniswap.Prelude.{
  ℕ, String, Bool, true, false, not, Option, none, some, List, [], ◌∷◌, if◌then◌else◌, ltb, nat_beq,
  ◌||◌, ◌&&◌, length, map, leb,
}
use omniswap.Prelude.Keys.{string_eq, ◌==◌}
use omniswap.Prelude.Int.{ℤ, pos, ltb_ℤ, leb_ℤ, eqb_ℤ}
use omniswap.Prelude.Word.{add64, sub64, mul64}

-- `peerProxyMember`, as far as the pick reads it.
pub record PeerProxyMember : Type 0 where
  pub peer_id : String
  pub in_flight : ℤ

-- What was polled of a peer: the models that it serves, those that are resident, and the age of the
-- answer.
pub record PeerLoaded : Type 0 where
  pub served : List String
  pub all : List String
  pub order : List String
  pub age : ℤ

unfoldable pub member : String → List String → Bool
member x [] = false
member x (y ∷ ys) = y == x || member x ys

-- `peerModelBias`: 6 unreachable, 0 warm, 1 vacant, 3 occupied by another model.
unfoldable pub peer_model_bias : ℤ → String → PeerLoaded → ℤ
peer_model_bias loaded_ttl model loaded =
    if nat_beq (length loaded.served) 0 || ltb_ℤ (mul64 (pos 2) loaded_ttl) loaded.age
    then pos 6
    else if member model loaded.all
    then pos 0
    else if nat_beq (length loaded.order) 0
    then pos 1
    else pos 3

module _ {A : Type 0} (key : A → ℤ) where
  -- The loop that keeps the first of the least keys.
  abbrev pub better : Option A → A → A
  better none x = x
  better (some b) x = if ltb_ℤ (key x) (key b) then x else b

  unfoldable pub choose : Option A → List A → Option A
  choose best [] = best
  choose best (x ∷ xs) = choose (some (better best x)) xs

pub record AffinityConfig : Type 0 where
  pub enabled : Bool
  pub bonus : ℤ

pub record AffinityStats : Type 0 where
  pub hits : ℤ
  pub spills_cold : ℤ
  pub spills_capped : ℤ
  pub spills_busy : ℤ
  pub no_key : ℤ

-- The part of `PeerProxy` that a pick reads and writes, for one model.
pub record PeerProxy : Type 0 where
  pub candidates : List PeerProxyMember
  pub stats : AffinityStats

-- The rank of a candidate, lower is better.
unfoldable pub rank_key : (String → ℤ) → PeerProxyMember → ℤ
rank_key bias pp = add64 (mul64 pp.in_flight (pos 2)) (bias pp.peer_id)

-- `atomic.AddInt64(&pp.inFlight, 1)` for the peer of the id.
unfoldable pub reserve_peer : String → PeerProxy → PeerProxy
reserve_peer id p = record p {
  candidates =
      map
        (λ pp.
          if pp.peer_id == id then record pp { in_flight = add64 pp.in_flight (pos 1) } else pp)
        p.candidates;
}

-- `admissionSaturated`; the cap is `none` if admission is not enabled.
abbrev any_room : ℤ → String → List PeerProxyMember → Bool
any_room limit id [] = false
any_room limit id (other ∷ ps) =
    (not (other.peer_id == id) && ltb_ℤ other.in_flight limit) || any_room limit id ps

unfoldable pub admission_saturated : Option ℤ → PeerProxyMember → List PeerProxyMember → Bool
admission_saturated none pp candidates = false
admission_saturated (some limit) pp candidates =
    if ltb_ℤ pp.in_flight limit then false else any_room limit pp.peer_id candidates

abbrev counted : (AffinityStats → AffinityStats) → PeerProxy → PeerProxy
counted f p = record p { stats = f p.stats }

-- The load-aware end of the pick.
abbrev pub pick_best : (String → ℤ) → PeerProxy → PeerProxy × Option PeerProxyMember
pick_best bias p = elim (choose (rank_key bias) none p.candidates) [
  | none ↦ (p, none)
  | some best ↦ (reserve_peer best.peer_id p, some best)
]

-- The switch on the affine peer, given the best one.
unfoldable pub pick_affine :
    AffinityConfig
    → Option ℤ
    → (String → ℤ)
    → PeerProxyMember
    → PeerProxyMember
    → PeerProxy
    → PeerProxy × Option PeerProxyMember
pick_affine cfg cap bias best affine p =
    if not (eqb_ℤ (bias affine.peer_id) (pos 0))
    then pick_best bias (counted (λ s. record s { spills_cold = add64 s.spills_cold (pos 1) }) p)
    else if admission_saturated cap affine p.candidates
    then pick_best bias
        (counted (λ s. record s { spills_capped = add64 s.spills_capped (pos 1) }) p)
    else if leb_ℤ (sub64 (rank_key bias affine) cfg.bonus) (rank_key bias best)
    then (
      counted (λ s. record s { hits = add64 s.hits (pos 1) }) (reserve_peer affine.peer_id p),
      some affine,
    )
    else pick_best bias (counted (λ s. record s { spills_busy = add64 s.spills_busy (pos 1) }) p)

module _ (affinity_score : String → String → ℕ) (string_lt : String → String → Bool) where
  -- The loop of `affinePeer`.
  abbrev pub affiner : String → PeerProxyMember → PeerProxyMember → PeerProxyMember
  affiner key best pp =
      let score = affinity_score key pp.peer_id in
      let best_score = affinity_score key best.peer_id in
      if ltb best_score score || (nat_beq score best_score && string_lt pp.peer_id best.peer_id)
      then pp
      else best

  unfoldable pub affine_loop : String → PeerProxyMember → List PeerProxyMember → PeerProxyMember
  affine_loop key best [] = best
  affine_loop key best (pp ∷ pps) = affine_loop key (affiner key best pp) pps

  unfoldable pub affine_peer : String → List PeerProxyMember → Option PeerProxyMember
  affine_peer key [] = none
  affine_peer key (pp ∷ pps) = if key == "" then none else some (affine_loop key pp pps)

  -- `pickPeerForModelWithAffinity`: the pool as it is left, and the peer that is reserved, as it was
  -- before the reservation.
  unfoldable pub pick_peer_for_model_with_affinity :
      AffinityConfig
      → Option ℤ
      → (String → ℤ)
      → String
      → PeerProxy
      → PeerProxy × Option PeerProxyMember
  pick_peer_for_model_with_affinity cfg cap bias affinity_key p = elim p.candidates [
    | [] ↦ (p, none)
    | c ∷ cs ↦
        if nat_beq (length cs) 0
        then (reserve_peer c.peer_id p, some c)
        else if not cfg.enabled
        then pick_best bias p
        else elim (affine_peer affinity_key (c ∷ cs)) [
          | none ↦ pick_best bias (counted (λ s. record s { no_key = add64 s.no_key (pos 1) }) p)
          | some affine ↦ elim (choose (rank_key bias) none (c ∷ cs)) [
            | none ↦ (p, none)
            | some best ↦ pick_affine cfg cap bias best affine p
          ]
        ]
  ]

-- `RankKey` and its order.
pub record RankKey : Type 0 where
  pub warm : ℤ
  pub free_mb : ℤ
  pub load : ℤ
  pub locality : ℤ

unfoldable pub cmp : RankKey → RankKey → ℤ
cmp a b =
    let ds = sub64 a.warm b.warm in
    if not (eqb_ℤ ds (pos 0))
    then ds
    else if not (eqb_ℤ (sub64 a.free_mb b.free_mb) (pos 0))
    then sub64 a.free_mb b.free_mb
    else if not (eqb_ℤ (sub64 a.load b.load) (pos 0))
    then sub64 a.load b.load
    else sub64 a.locality b.locality

-- `Fit`, for the gems: the fields that they do not fill are 0.
pub record Fit : Type 0 where
  pub fits : Bool
  pub free_vram_mb : ℤ
  pub score : RankKey

-- `GemsFitter.Fit`, on a peer that is known.
unfoldable pub gems_fit : (String → ℤ) → PeerProxyMember → Fit
gems_fit bias pp =
    let b = bias pp.peer_id in
    let free =
      if eqb_ℤ b (pos 0) || eqb_ℤ b (pos 1)
      then pos 16000
      else if eqb_ℤ b (pos 3)
      then pos 4000
      else pos 0 in
    record {
      fits = true;
      free_vram_mb = free;
      score = record {
        warm = if eqb_ℤ b (pos 0) then pos 1 else pos 0;
        free_mb = free;
        load = sub64 (pos 0) pp.in_flight;
        locality = pos 0;
      };
    }

module _ {A : Type 0} (key : A → ℤ) where
  -- `sort.SliceStable` by the key: an element goes before those of its own key that come after it.
  abbrev pub insert_stable : A → List A → List A
  insert_stable x [] = x ∷ []
  insert_stable x (y ∷ ys) =
      let rest = insert_stable x ys in if ltb_ℤ (key y) (key x) then y ∷ rest else x ∷ y ∷ ys

  unfoldable pub slice_stable : List A → List A
  slice_stable [] = []
  slice_stable (x ∷ xs) = insert_stable x (slice_stable xs)

pub record Candidate : Type 0 where
  pub node : String
  pub fit : Fit

-- `GemsRanker.Rank`; the GPU index of a node is always 0.
unfoldable pub rank : (String → ℤ) → PeerProxy → List Candidate
rank bias p =
    map (λ pp. record { node = pp.peer_id; fit = gems_fit bias pp })
      (slice_stable (rank_key bias) p.candidates)
