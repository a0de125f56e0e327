-- ===== src/RateLimiter/Window.antt =====
-- How many requests proxy/rate_limiter.go admits in a window.
use omniswap.Prelude.{
  ℕ, suc, ◌+◌, ◌-◌, ◌≤◌, ◌<◌, min, String, true, false, some, List, [], ◌∷◌, ◌≡◌, ◌≢◌, refl, arith,
  if◌then◌else◌, leb, length, All, Bool-cases, Option-cases, inl, inr,
}
use omniswap.Prelude.Keys.{string_eq}
use omniswap.Prelude.Dict.{lookup, insert, lookup-insert_self, lookup-insert_ne}
use omniswap.Prelude.Int.{pos}
use omniswap.RateLimiter.{RlWindow, RateLimiter, limit_for, minute, allow}

-- How many of the requests that a client makes at the given times are allowed.
unfoldable pub allowed : String → List ℕ → RateLimiter → ℕ
allowed client [] rl = 0
allowed client (now ∷ times) rl =
    let rest = allowed client times (allow client now rl).0 in
    if (allow client now rl).1 then suc rest else rest

limit_for-allow :
    (client other : String) (now : ℕ) (rl : RateLimiter)
    → limit_for other (allow client now rl).0 ≡ limit_for other rl
unfolding allow limit_for
limit_for-allow client other now rl = ground arith

allow-full :
    (client : String) (now : ℕ) (rl : RateLimiter) {w : RlWindow} {lim : ℕ}
    → limit_for client rl ≡ pos (suc lim)
    → lookup client rl.windows ≡ some w
    → now < w.start + minute
    → suc lim ≤ w.count
    → allow client now rl ≡ (rl, false)
unfolding allow
allow-full client now rl {w} {lim} hl hw ht hc = rw (hl, hw, allow) (ground arith)

allow-room :
    (client : String) (now : ℕ) (rl : RateLimiter) {w : RlWindow} {lim : ℕ}
    → limit_for client rl ≡ pos (suc lim)
    → lookup client rl.windows ≡ some w
    → now < w.start + minute
    → w.count ≤ lim
    → allow client now rl
      ≡ (record rl { windows = insert client (record w { count = suc w.count }) rl.windows }, true)
unfolding allow
allow-room client now rl {w} {lim} hl hw ht hc = rw (hl, hw, allow) (ground arith)

-- While a client's window lasts, of any number of its requests exactly as many are allowed as its
-- limit leaves room for: with the limit `lim + 1` and `count` requests counted so far, the first
-- `lim + 1 - count` of them, or all if they are fewer.
pub window_allows_limit :
    (client : String) (times : List ℕ) (rl : RateLimiter) {w : RlWindow} {lim : ℕ}
    → limit_for client rl ≡ pos (suc lim)
    → lookup client rl.windows ≡ some w
    → All (λ now. now < w.start + minute) times
    → allowed client times rl ≡ min (length times) (suc lim - w.count)
unfolding allowed limit_for
window_allows_limit client [] rl {w} {lim} hl hw ht = ground arith
window_allows_limit client (now ∷ times) rl {w} {lim} hl hw ht =
    elim (Bool-cases (leb (suc lim) w.count)) [
      | inl full ↦
          rw (allow-full client now rl {w = w} {lim = lim} hl hw ht.0 (ground arith))
            (ground (arith, window_allows_limit client times rl {w = w} {lim = lim} hl hw ht.1))
      | inr room ↦
          let step = allow-room client now rl {w = w} {lim = lim} hl hw ht.0 (ground arith) in
          let w' = record w { count = suc w.count } in
          let next = record rl { windows = insert client w' rl.windows } in
          let rest =
            window_allows_limit client times next {w = w'} {lim = lim} (rw⁻¹ hl refl)
              (lookup-insert_self client w' rl.windows) ht.1 in
          rw step (ground (arith, rest))
    ]

windows-allow :
    (client other : String) (now : ℕ) (rl : RateLimiter)
    → client ≢ other
    → lookup other (allow client now rl).0.windows ≡ lookup other rl.windows
unfolding allow
windows-allow client other now rl h = elim (Option-cases (lookup client rl.windows)) [
  | inl unseen ↦ rw (unseen, allow) (ground (arith, opened))
  | inr (w, seen) ↦
      let counted = lookup-insert_ne client other (record w { count = suc w.count }) rl.windows h in
      rw (seen, allow) (ground (arith, opened, counted))
]
  where
    opened :
        lookup other (insert client (record { start = now; count = 1 }) rl.windows)
        ≡ lookup other rl.windows
    opened = lookup-insert_ne client other (record { start = now; count = 1 }) rl.windows h

-- A request of one client changes neither the window nor the limit of another.
pub allow_other :
    (client other : String) (now : ℕ) (rl : RateLimiter)
    → client ≢ other
    → (lookup other (allow client now rl).0.windows ≡ lookup other rl.windows)
      × (limit_for other (allow client now rl).0 ≡ limit_for other rl)
allow_other client other now rl h =
    (windows-allow client other now rl h, limit_for-allow client other now rl)
