-- ===== src/RateLimiter/Tests.antt =====
-- The limiter's theorems at inputs that meet their hypotheses.
use omniswap.Prelude.{ℕ, ◌-◌, min, List, [], ◌∷◌, ◌≡◌, refl, arith, length, suc}
use omniswap.Prelude.Keys.{string_eq}
use omniswap.Prelude.Int.{pos}
use omniswap.RateLimiter.{RateLimiter, limit_for, allow}
use omniswap.RateLimiter.Window.{allowed, window_allows_limit}

-- A limit of three, of which one is used.
abbrev limiter : RateLimiter
limiter = record {
  per_min = pos 3;
  overrides = [];
  windows = ("alice", record { start = 100; count = 1 }) ∷ [];
}

abbrev times : List ℕ
times = 200 ∷ 300 ∷ 400 ∷ []

two_allowed : allowed "alice" times limiter ≡ 2
unfolding allowed allow limit_for
two_allowed = refl

window_allows_limit_example : allowed "alice" times limiter ≡ min (length times) (suc 2 - 1)
unfolding limit_for
window_allows_limit_example =
    window_allows_limit "alice" times limiter {w = record { start = 100; count = 1 }} {lim = 2} refl
      refl (omega arith, (omega arith, (omega arith, tt)))
