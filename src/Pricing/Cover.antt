-- ===== src/Pricing/Cover.antt =====
-- The reservation against the bill: `ReserveCost` and `ActualCost` of proxy/pricing.go.
use omniswap.Prelude.{ℕ, ◌*◌, ◌≤◌, String, some, ◌≡◌, arith, is_some}
use omniswap.Prelude.Keys.{string_eq}
use omniswap.Prelude.Dict.{lookup}
use omniswap.Prelude.Int.{ℤ, pos, pos_part, pos_part_mono, ◌≤ℤ◌}
use omniswap.Pricing.{
  ModelRate, PriceBook, has, at_least_zero, completion_upper, price, reserve_cost, actual_cost,
}
use omniswap.Pricing.Rounding.{Fits, price_exact}

-- A smaller count has a smaller product.
scaled : (a b : ℤ) (k : ℕ) → a ≤ℤ b → pos_part a * k ≤ pos_part b * k
scaled a b k h = grind (arith, pos_part_mono a b h)

Fits-le : (r : ModelRate) (p q c d : ℤ) → Fits r p c → q ≤ℤ p → d ≤ℤ c → Fits r q d
Fits-le r p q c d f hq hd =
    omega (arith, scaled q p (pos_part r.input_per_1k) hq, scaled d c (pos_part r.output_per_1k) hd)

-- The price grows with both token counts.
price-mono :
    (r : ModelRate) (p q c d : ℤ)
    → Fits r p c
    → q ≤ℤ p
    → d ≤ℤ c
    → pos 0 ≤ℤ q
    → pos 0 ≤ℤ d
    → (pos 0 ≤ℤ price r q d) × (price r q d ≤ℤ price r p c)
price-mono r p q c d f hq hd zq zd =
    rw
      (
        price_exact r p c f (omega arith) (omega arith),
        price_exact r q d (Fits-le r p q c d f hq hd) zq zd,
      )
      (omega
        (arith, scaled q p (pos_part r.input_per_1k) hq, scaled d c (pos_part r.output_per_1k) hd))

-- What is reserved for the completion lies between 0 and the model's ceiling.
pub completion_upper_bounds :
    (r : ModelRate) (m : ℤ)
    → pos 0 ≤ℤ r.max_output_tokens
    → (pos 0 ≤ℤ completion_upper r m) × (completion_upper r m ≤ℤ r.max_output_tokens)
unfolding completion_upper
completion_upper_bounds r m h = ground arith

at_least_zero_bounds :
    (n m : ℤ) → n ≤ℤ m → pos 0 ≤ℤ m → (pos 0 ≤ℤ at_least_zero n) × (at_least_zero n ≤ℤ m)
at_least_zero_bounds n m h k = ground arith

pos_part-at_least_zero : (n : ℤ) → pos_part (at_least_zero n) ≡ pos_part n
pos_part-at_least_zero n = ground arith

Fits-upper :
    (r : ModelRate) (p m : ℤ)
    → Fits r p r.max_output_tokens
    → pos 0 ≤ℤ r.max_output_tokens
    → Fits r (at_least_zero p) (completion_upper r m)
Fits-upper r p m f h = record {
  input_rate = f.input_rate;
  output_rate = f.output_rate;
  prompt_fits = rw (pos_part-at_least_zero p) f.prompt_fits;
  completion_fits = omega (
    arith,
    scaled (completion_upper r m) r.max_output_tokens (pos_part r.output_per_1k)
        (completion_upper_bounds r m h).1,
    f.completion_fits,
  );
}

-- For a priced model with rates that are not negative, and products that do not overflow: both
-- costs exist, and the bill of a request is at least 0 and at most the amount reserved for it, as
-- long as it used no more prompt tokens than estimated and no more completion tokens than the
-- reserved upper bound. Negative counts are billed as 0.
pub reserve_covers_actual :
    (pb : PriceBook) (model : String) {r : ModelRate} (prompt requested_max used_prompt used : ℤ)
    → lookup model pb.rates ≡ some r
    → Fits r prompt r.max_output_tokens
    → pos 0 ≤ℤ r.max_output_tokens
    → used_prompt ≤ℤ at_least_zero prompt
    → used ≤ℤ completion_upper r requested_max
    → (hold : ℤ) × (bill : ℤ) × (reserve_cost pb model prompt requested_max ≡ some hold)
      × (actual_cost pb model used_prompt used ≡ some bill)
      × (pos 0 ≤ℤ bill)
      × (bill ≤ℤ hold)
unfolding reserve_cost actual_cost
reserve_covers_actual pb model {r} prompt m q c known f h hq hc =
    let used_in = at_least_zero_bounds q (at_least_zero prompt) hq (ground arith) in
    let upper = completion_upper_bounds r m h in
    let used_out = at_least_zero_bounds c (completion_upper r m) hc upper.0 in
    let bounds =
      price-mono r (at_least_zero prompt) (at_least_zero q) (completion_upper r m) (at_least_zero c)
        (Fits-upper r prompt m f h) used_in.1 used_out.1 used_in.0 used_out.0 in
    (_, _, rw (known, reserve_cost), rw (known, actual_cost), bounds.0, bounds.1)

-- Both costs exist for a priced model and for no other, whatever the token counts.
pub costs_exist_iff_priced :
    (pb : PriceBook) (model : String) (prompt requested_max used_prompt used : ℤ)
    → (is_some (reserve_cost pb model prompt requested_max) ≡ has pb model)
      × (is_some (actual_cost pb model used_prompt used) ≡ has pb model)
unfolding has reserve_cost actual_cost
costs_exist_iff_priced pb model p m q c = ground arith
