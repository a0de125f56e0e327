-- ===== src/Pricing/Rounding.antt =====
-- `ceilDiv` of proxy/pricing.go against exact division, and the size of a price.
use omniswap.Prelude.{ℕ, ◌+◌, ◌*◌, ◌/◌, ◌^◌, ◌≤◌, ◌<◌, ◌≡◌, arith}
use omniswap.Prelude.Int.{ℤ, pos, negsuc, pos_part, neg_part, ◌+ℤ◌, ◌-ℤ◌, ◌≤ℤ◌, ◌<ℤ◌}
use omniswap.Prelude.Word.{int64, add64_pos, mul64_pos}
use omniswap.Pricing.{ModelRate, ceil_div, per_1k, price}

-- The rounded-up quotient of a natural number.
abbrev pub ceil_1k : ℕ → ℕ
ceil_1k n = (n + 999) / 1000

pub ceil_div_pos : (n : ℕ) → n < 2 ^ 62 → ceil_div (pos n) per_1k ≡ pos (ceil_1k n)
unfolding ceil_div int64 ◌+ℤ◌ ◌-ℤ◌
ceil_div_pos n h = ground arith

-- For an amount that does not overflow, `ceilDiv(a, 1000)` is the least whole number of credits
-- that covers `a` thousandths: it is 0 for `a <= 0`, never less than the exact price, and less than
-- one credit above it.
pub ceil_div_rounds_up :
    (a : ℤ)
    → a <ℤ pos (2 ^ 62)
    → let q = ceil_div a per_1k in
      (pos 0 ≤ℤ q)
      × (neg_part q ≡ 0)
      × (pos_part a ≤ pos_part q * 1000)
      × (pos_part q * 1000 < pos_part a + 1000)
ceil_div_rounds_up (pos n) h = rw (ceil_div_pos n (omega arith)) (omega arith)
ceil_div_rounds_up (negsuc n) h = unfold ceil_div in ground arith

-- The hypotheses under which the products of a price do not overflow.
pub record Fits (r : ModelRate) (prompt completion : ℤ) : Type 0 where
  pub input_rate : pos 0 ≤ℤ r.input_per_1k
  pub output_rate : pos 0 ≤ℤ r.output_per_1k
  pub prompt_fits : pos_part prompt * pos_part r.input_per_1k < 2 ^ 62
  pub completion_fits : pos_part completion * pos_part r.output_per_1k < 2 ^ 62

pub price_exact :
    (r : ModelRate) (p c : ℤ)
    → Fits r p c
    → pos 0 ≤ℤ p
    → pos 0 ≤ℤ c
    → price r p c
      ≡ pos (
          ceil_1k (pos_part p * pos_part r.input_per_1k)
          + ceil_1k (pos_part c * pos_part r.output_per_1k))
unfolding price
price_exact r p c f hp hc =
    rw
      (
        mul64_pos p r.input_per_1k hp f.input_rate (omega arith),
        mul64_pos c r.output_per_1k hc f.output_rate (omega arith),
        ceil_div_pos _ f.prompt_fits,
        ceil_div_pos _ f.completion_fits,
      )
      (add64_pos _ _ (omega (arith, f.prompt_fits, f.completion_fits)))
