-- ===== src/Pricing.antt =====
-- Token pricing for the billing gate (proxy/pricing.go): the worst-case cost to hold at admission
-- and the cost to bill, both rounded up to whole credits. Amounts are `int64`, with wrap-around.
pub mod Rounding
pub mod Cover
pub mod Config
mod Tests
use omniswap.Prelude.{String, Bool, true, false, Option, none, some, if◌then◌else◌, ◌&&◌}
use omniswap.Prelude.Keys.{string_eq}
use omniswap.Prelude.Dict.{Dict, lookup}
use omniswap.Prelude.Int.{ℤ, pos, ltb_ℤ, leb_ℤ, quot}
use omniswap.Prelude.Word.{int64, add64, sub64, mul64}

-- A model's price: credits per thousand input and output tokens, and its completion ceiling.
pub record ModelRate : Type 0 where
  pub input_per_1k : ℤ
  pub output_per_1k : ℤ
  pub max_output_tokens : ℤ

pub record PriceBook : Type 0 where
  pub rates : Dict String ModelRate

abbrev pub per_1k : ℤ
per_1k = pos 1000

-- Reports whether the model is priced.
unfoldable pub has : PriceBook → String → Bool
has pb model = elim (lookup model pb.rates) [ none ↦ false | some r ↦ true ]

unfoldable pub ceil_div : ℤ → ℤ → ℤ
ceil_div a b = if leb_ℤ a (pos 0) then pos 0 else int64 (quot (sub64 (add64 a b) (pos 1)) b)

-- `if tokens < 0 { tokens = 0 }`
abbrev pub at_least_zero : ℤ → ℤ
at_least_zero n = if ltb_ℤ n (pos 0) then pos 0 else n

-- The completion size that is reserved: the request's cap where it is set and below the ceiling.
unfoldable pub completion_upper : ModelRate → ℤ → ℤ
completion_upper r requested_max =
    if ltb_ℤ (pos 0) requested_max && ltb_ℤ requested_max r.max_output_tokens
    then requested_max
    else r.max_output_tokens

-- The price of so many prompt and completion tokens.
unfoldable pub price : ModelRate → ℤ → ℤ → ℤ
price r prompt completion =
    add64 (ceil_div (mul64 prompt r.input_per_1k) per_1k)
      (ceil_div (mul64 completion r.output_per_1k) per_1k)

unfoldable pub reserve_cost : PriceBook → String → ℤ → ℤ → Option ℤ
reserve_cost pb model prompt_tokens requested_max = elim (lookup model pb.rates) [
  | none ↦ none
  | some r ↦ some (price r (at_least_zero prompt_tokens) (completion_upper r requested_max))
]

unfoldable pub actual_cost : PriceBook → String → ℤ → ℤ → Option ℤ
actual_cost pb model prompt_tokens completion_tokens = elim (lookup model pb.rates) [
  | none ↦ none
  | some r ↦ some (price r (at_least_zero prompt_tokens) (at_least_zero completion_tokens))
]
