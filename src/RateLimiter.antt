-- ===== src/RateLimiter.antt =====
-- The per-client rate limiter (proxy/rate_limiter.go), a fixed window of a minute. The time is an
-- input, in nanoseconds.
pub mod Window
mod Tests
use omniswap.Prelude.{
  ℕ, suc, ◌+◌, ◌-◌, String, Bool, true, false, not, Option, none, some, [], if◌then◌else◌, leb, ltb,
  ◌||◌, length,
}
use omniswap.Prelude.Keys.{string_eq}
use omniswap.Prelude.Dict.{Dict, lookup, insert}
use omniswap.Prelude.Int.{ℤ, pos, ltb_ℤ, leb_ℤ}

pub record RlWindow : Type 0 where
  pub start : ℕ
  pub count : ℕ

-- `rateLimiter`; without overrides the map is empty.
pub record RateLimiter : Type 0 where
  pub per_min : ℤ
  pub overrides : Dict String ℤ
  pub windows : Dict String RlWindow

unfoldable pub new_rate_limiter : ℤ → Dict String ℤ → RateLimiter
new_rate_limiter per_min overrides = record {
  per_min = per_min;
  overrides = overrides;
  windows = [];
}

-- A nil limiter is not enabled.
unfoldable pub enabled : Option RateLimiter → Bool
enabled none = false
enabled (some rl) = ltb_ℤ (pos 0) rl.per_min || ltb 0 (length rl.overrides)

unfoldable pub limit_for : String → RateLimiter → ℤ
limit_for client rl = elim (lookup client rl.overrides) [ none ↦ rl.per_min | some v ↦ v ]

abbrev pub minute : ℕ
minute = 60000000000

unfoldable pub allow : String → ℕ → RateLimiter → RateLimiter × Bool
allow client now rl =
    let lim = limit_for client rl in
    let opened = record rl {
      windows = insert client (record { start = now; count = 1 }) rl.windows;
    } in
    if leb_ℤ lim (pos 0) then (rl, true) else elim (lookup client rl.windows) [
      | none ↦ (opened, true)
      | some w ↦
          if leb minute (now - w.start)
          then (opened, true)
          else if leb_ℤ lim (pos w.count)
          then (rl, false)
          else (
            record rl { windows = insert client (record w { count = suc w.count }) rl.windows },
            true,
          )
    ]
