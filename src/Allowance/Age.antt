-- ===== src/Allowance/Age.antt =====
-- `snapshotFreshness` of proxy/allowance.go over time.
use omniswap.Prelude.{ℕ, ◌+◌, ◌^◌, ◌≤◌, ◌<◌, ◌≡◌, arith, if◌then◌else◌, ltb, leb}
use omniswap.Prelude.Int.{pos, ◌-ℤ◌}
use omniswap.Prelude.Word.{int64, sub64}
use omniswap.Allowance.{Freshness, fresh, stale, expired, snapshot_freshness}

-- How far a snapshot may be trusted.
abbrev pub trust : Freshness → ℕ
trust fresh = 2
trust stale = 1
trust expired = 0

-- The classes in exact arithmetic.
abbrev pub age_class : ℕ → ℕ → ℕ → ℕ → ℕ → Freshness
age_class ts now grace hard skew =
    if ltb (now + skew) ts
    then expired
    else if leb now (ts + grace)
    then fresh
    else if leb now (ts + hard)
    then stale
    else expired

exact_age : (ts now : ℕ) → ts < 2 ^ 62 → now < 2 ^ 62 → sub64 (pos now) (pos ts) ≡ pos now -ℤ pos ts
unfolding int64 ◌-ℤ◌
exact_age ts now ht hn = ground arith

exact_skew : (skew : ℕ) → skew < 2 ^ 62 → sub64 (pos 0) (pos skew) ≡ pos 0 -ℤ pos skew
unfolding int64 ◌-ℤ◌
exact_skew skew h = ground arith

-- For times below 2^62: a snapshot without a positive timestamp is expired. Otherwise it is expired
-- if its timestamp is further ahead of the clock than the tolerated skew, else fresh up to the grace
-- age, else stale up to the maximal age, and expired above that.
pub snapshot_freshness_lem :
    (ts now grace hard skew : ℕ)
    → ts < 2 ^ 62
    → now < 2 ^ 62
    → skew < 2 ^ 62
    → snapshot_freshness (pos ts) (pos now) (pos grace) (pos hard) (pos skew)
      ≡ (if leb ts 0 then expired else age_class ts now grace hard skew)
unfolding snapshot_freshness ◌-ℤ◌
snapshot_freshness_lem ts now grace hard skew ht hn hs =
    rw (exact_age ts now ht hn, exact_skew skew hs) (ground arith)

-- From its own timestamp on, a snapshot's trust never rises as the clock advances, for times below
-- 2^62.
pub freshness_decays :
    (ts now later grace hard skew : ℕ)
    → ts ≤ now
    → now ≤ later
    → later < 2 ^ 62
    → skew < 2 ^ 62
    → trust (snapshot_freshness (pos ts) (pos later) (pos grace) (pos hard) (pos skew))
      ≤ trust (snapshot_freshness (pos ts) (pos now) (pos grace) (pos hard) (pos skew))
freshness_decays ts now later grace hard skew h k hl hs =
    rw
      (
        snapshot_freshness_lem ts later grace hard skew (omega arith) hl hs,
        snapshot_freshness_lem ts now grace hard skew (omega arith) (omega arith) hs,
      )
      (ground arith)
