-- ===== src/Peers/Pick.antt =====
-- The pick of proxy/peerproxy.go with affinity: what it costs in rank, and what it reserves.
use omniswap.Prelude.{
  ℕ, String, Bool, true, false, Option, none, some, List, [], ◌∷◌, ◌≡◌, refl, arith, All, ◌⊎◌, inl,
  inr, Bool-cases, some_inj, ◌∙◌, Option-cases, nat_beq, length,
}
use omniswap.Prelude.Int.{ℤ, pos, ◌≤ℤ◌, eqb_ℤ, leb_ℤ}
use omniswap.Prelude.Word.{add64, sub64}
use omniswap.Prelude.Keys.{string_eq, ◌==◌}
use omniswap.Peers.{
  PeerProxy, PeerProxyMember, AffinityConfig, AffinityStats, rank_key, reserve_peer, choose,
  pick_best, pick_affine, admission_saturated, affiner, affine_loop, affine_peer,
  pick_peer_for_model_with_affinity,
}
use omniswap.Peers.Best.{Among, choose-least, choose-Among}

-- The picked peer has the least rank of all, or affinity picked it: it holds the model, admission
-- does not favour another, and its rank less the bonus is at most every rank.
abbrev pub IsFair :
    AffinityConfig → Option ℤ → (String → ℤ) → List PeerProxyMember → PeerProxyMember → Type 0
IsFair cfg cap bias candidates r =
    All (λ c. rank_key bias r ≤ℤ rank_key bias c) candidates
    ⊎ ((cfg.enabled ≡ true)
        × (bias r.peer_id ≡ pos 0)
        × (admission_saturated cap r candidates ≡ false)
        × ((best : PeerProxyMember) × All (λ c. rank_key bias best ≤ℤ rank_key bias c) candidates
            × (sub64 (rank_key bias r) cfg.bonus ≤ℤ rank_key bias best)))

-- The candidates with one more request in flight at the peer of an id, and all else as it was.
abbrev pub OneMoreAt : String → List PeerProxyMember → List PeerProxyMember → Type 0
OneMoreAt id [] after = after ≡ []
OneMoreAt id (c ∷ cs) [] = c ∷ cs ≡ []
OneMoreAt id (c ∷ cs) (d ∷ ds) =
    (d.peer_id ≡ c.peer_id)
    × (((c.peer_id ≡ id) × (d.in_flight ≡ add64 c.in_flight (pos 1)))
        ⊎ (((c.peer_id == id) ≡ false) × (d.in_flight ≡ c.in_flight)))
    × OneMoreAt id cs ds

OneMoreAt-reserved :
    (id : String) (cs : List PeerProxyMember) (s : AffinityStats)
    → OneMoreAt id cs (reserve_peer id (record { candidates = cs; stats = s })).candidates
unfolding reserve_peer
OneMoreAt-reserved id [] s = refl
OneMoreAt-reserved id (c ∷ cs) s = elim (Bool-cases (c.peer_id == id)) [
  | inl here ↦
      rw here
        (refl, inl ((string_eq.beq_iff c.peer_id id).0 here, refl), OneMoreAt-reserved id cs s)
  | inr other ↦ rw other (refl, inr (refl, refl), OneMoreAt-reserved id cs s)
]

-- The pick reserves a candidate that is fair, and changes no other count.
abbrev pub Reserves :
    AffinityConfig
    → Option ℤ
    → (String → ℤ)
    → PeerProxy
    → PeerProxy × Option PeerProxyMember
    → Type 0
Reserves cfg cap bias p out =
    (r : PeerProxyMember) × (out.1 ≡ some r)
    × Among r p.candidates
    × OneMoreAt r.peer_id p.candidates out.0.candidates
    × IsFair cfg cap bias p.candidates r

pick_best-Reserves :
    (cfg : AffinityConfig) (cap : Option ℤ) (bias : String → ℤ) (p : PeerProxy) (s : AffinityStats)
    (r : PeerProxyMember)
    → choose (rank_key bias) none p.candidates ≡ some r
    → All (λ c. rank_key bias r ≤ℤ rank_key bias c) p.candidates
    → Reserves cfg cap bias p (pick_best bias (record p { stats = s }))
unfolding reserve_peer
pick_best-Reserves cfg cap bias p s r e h =
    rw (e, pick_best)
      (
        r,
        refl,
        choose-Among (rank_key bias) p.candidates {r = r} e,
        OneMoreAt-reserved r.peer_id p.candidates s,
        inl h,
      )

pick_affine-Reserves :
    (cfg : AffinityConfig) (cap : Option ℤ) (bias : String → ℤ) (p : PeerProxy)
    (best affine : PeerProxyMember)
    → cfg.enabled ≡ true
    → choose (rank_key bias) none p.candidates ≡ some best
    → All (λ c. rank_key bias best ≤ℤ rank_key bias c) p.candidates
    → Among affine p.candidates
    → Reserves cfg cap bias p (pick_affine cfg cap bias best affine p)
unfolding pick_affine reserve_peer
pick_affine-Reserves cfg cap bias p best affine on e h among =
    elim (Bool-cases (eqb_ℤ (bias affine.peer_id) (pos 0))) [
      | inr cold ↦ rw (cold, pick_affine) (pick_best-Reserves cfg cap bias p _ best e h)
      | inl warm ↦ elim (Bool-cases (admission_saturated cap affine p.candidates)) [
        | inl full ↦ rw (warm, full, pick_affine) (pick_best-Reserves cfg cap bias p _ best e h)
        | inr room ↦
            elim (Bool-cases
              (leb_ℤ (sub64 (rank_key bias affine) cfg.bonus) (rank_key bias best))) [
                | inl hit ↦
                    rw (warm, room, hit, pick_affine)
                      (
                        affine,
                        refl,
                        among,
                        OneMoreAt-reserved affine.peer_id p.candidates p.stats,
                        inr (on, ground arith, room, (best, h, ground arith)),
                      )
                | inr busy ↦
                    rw (warm, room, busy, pick_affine)
                      (pick_best-Reserves cfg cap bias p _ best e h)
              ]
      ]
    ]

module _ (affinity_score : String → String → ℕ) (string_lt : String → String → Bool) where
  affine_loop-Among :
      (key : String) (best : PeerProxyMember) (pps : List PeerProxyMember)
      → let r = affine_loop affinity_score string_lt key best pps in (r ≡ best) ⊎ Among r pps
  unfolding affine_loop
  affine_loop-Among key best [] = inl refl
  affine_loop-Among key best (pp ∷ pps) =
      elim (affine_loop-Among key (affiner affinity_score string_lt key best pp) pps) [
        | inr later ↦ inr (inr later)
        | inl same ↦ elim (affiner_cases key best pp) [
          | inl kept ↦ inl (same ∙ kept)
          | inr newer ↦ inr (inl (same ∙ newer))
        ]
      ]
    where
      affiner_cases :
          (key : String) (best pp : PeerProxyMember)
          → (affiner affinity_score string_lt key best pp ≡ best)
            ⊎ (affiner affinity_score string_lt key best pp ≡ pp)
      affiner_cases key best pp = ground arith

  affine_peer-Among :
      (key : String) (pps : List PeerProxyMember) {r : PeerProxyMember}
      → affine_peer affinity_score string_lt key pps ≡ some r
      → Among r pps
  unfolding affine_peer
  affine_peer-Among key [] e = absurd cc
  affine_peer-Among key (pp ∷ pps) {r} e = elim (Bool-cases (key == "")) [
    | inl empty ↦ absurd (ground arith)
    | inr full ↦ rw (some_inj (rw full at e)) at (affine_loop-Among key pp pps)
  ]

  -- For a model with candidates, a pick reserves one of them: it counts one more request in flight
  -- there and changes no other count. Either no candidate has a lower rank, or affinity chose the
  -- peer: it is enabled, the peer holds the model, admission does not favour another candidate, and
  -- the peer's rank less the bonus is at most the least rank of all.
  pub pick_lem :
      (cfg : AffinityConfig) (cap : Option ℤ) (bias : String → ℤ) (key : String)
      (c : PeerProxyMember) (cs : List PeerProxyMember) (s : AffinityStats)
      → let p : PeerProxy = record { candidates = c ∷ cs; stats = s } in
        Reserves cfg cap bias p
          (pick_peer_for_model_with_affinity affinity_score string_lt cfg cap bias key p)
  unfolding pick_peer_for_model_with_affinity pick_affine
  pick_lem cfg cap bias key c [] s =
      (c, refl, inl refl, OneMoreAt-reserved c.peer_id (c ∷ []) s, inl (omega arith, tt))
  pick_lem cfg cap bias key c (d ∷ cs) s =
      let p : PeerProxy = record { candidates = c ∷ d ∷ cs; stats = s } in
      let (best, chosen, least) = choose-least (rank_key bias) c (d ∷ cs) in
      rw (many c d cs) (elim (Bool-cases cfg.enabled) [
        | inr off ↦
            rw off
              (pick_best-Reserves (record cfg { enabled = false }) cap bias p s best chosen least)
        | inl on ↦ elim (Option-cases (affine_peer affinity_score string_lt key (c ∷ d ∷ cs))) [
          | inl no_key ↦
              rw (on, no_key)
                (pick_best-Reserves (record cfg { enabled = true }) cap bias p _ best chosen least)
          | inr (affine, bound) ↦
              rw (on, bound, chosen)
                (pick_affine-Reserves (record cfg { enabled = true }) cap bias p best affine refl
                  chosen least (affine_peer-Among key (c ∷ d ∷ cs) bound))
        ]
      ])
    where
      many :
          (c d : PeerProxyMember) (cs : List PeerProxyMember) → nat_beq (length (d ∷ cs)) 0 ≡ false
      many c d cs = ground arith
