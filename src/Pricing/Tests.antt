-- ===== src/Pricing/Tests.antt =====
-- Prices of a small book, and the pricing theorems at inputs that meet their hypotheses.
use omniswap.Prelude.{String, some, [], ◌∷◌, ◌≡◌, refl, arith}
use omniswap.Prelude.Keys.{string_eq}
use omniswap.Prelude.Dict.{Dict, lookup}
use omniswap.Prelude.Int.{pos, negsuc, ℤ, ◌≤ℤ◌, ◌+ℤ◌, ◌-ℤ◌, ◌*ℤ◌}
use omniswap.Prelude.Word.{int64}
use omniswap.Pricing.{
  ModelRate, PriceBook, ceil_div, reserve_cost, actual_cost, completion_upper, price,
}
use omniswap.Pricing.Rounding.{Fits}
use omniswap.Pricing.Cover.{reserve_covers_actual}
use omniswap.Pricing.Config.{CreditRate, price_book_from_config, price_book_from_config_lem}

abbrev rate : ModelRate
rate = record { input_per_1k = pos 3; output_per_1k = pos 15; max_output_tokens = pos 4096 }

abbrev book : PriceBook
book = record { rates = ("opus", rate) ∷ [] }

reserve_cost_test : reserve_cost book "opus" (pos 1001) (pos 100) ≡ some (pos 6)
unfolding reserve_cost price completion_upper ceil_div int64 ◌+ℤ◌ ◌-ℤ◌ ◌*ℤ◌
reserve_cost_test = refl

actual_cost_test : actual_cost book "opus" (pos 1001) (negsuc 4) ≡ some (pos 4)
unfolding actual_cost price ceil_div int64 ◌+ℤ◌ ◌-ℤ◌ ◌*ℤ◌
actual_cost_test = refl

rate-Fits : Fits rate (pos 1001) (pos 4096)
rate-Fits = record {
  input_rate = omega arith;
  output_rate = omega arith;
  prompt_fits = omega arith;
  completion_fits = omega arith;
}

reserve_covers_actual_example :
    (hold : ℤ) × (bill : ℤ) × (reserve_cost book "opus" (pos 1001) (pos 100) ≡ some hold)
    × (actual_cost book "opus" (pos 900) (pos 80) ≡ some bill)
    × (pos 0 ≤ℤ bill)
    × (bill ≤ℤ hold)
unfolding completion_upper
reserve_covers_actual_example =
    reserve_covers_actual book "opus" {r = rate} (pos 1001) (pos 100) (pos 900) (pos 80) refl
      rate-Fits (omega arith) (omega arith) (omega arith)

-- A usable rate and one without a ceiling.
abbrev configured : Dict String CreditRate
configured =
    ("opus", record { input_per_1k = pos 3; output_per_1k = pos 15; max_output_tokens = pos 4096 })
    ∷ ("local", record { input_per_1k = pos 0; output_per_1k = pos 0; max_output_tokens = pos 0 })
    ∷ []

opus_is_priced : lookup "opus" (price_book_from_config configured).rates ≡ some rate
opus_is_priced = (price_book_from_config_lem configured "opus" rate (refl, (refl, tt))).1 (
  _,
  refl,
  record { input_rate = omega arith; output_rate = omega arith; ceiling = omega arith },
  refl,
)
