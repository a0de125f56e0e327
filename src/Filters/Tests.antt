-- ===== src/Filters/Tests.antt =====
-- Tests and witnesses of the filters.
use omniswap.Prelude.{ℕ, [], ◌∷◌, ◌≡◌, refl}
use omniswap.Prelude.Text.{
  text_eq, trim_left, trim_right, is_space, split, cons_first, contains, text_lt, sort_strings,
  put_sorted,
}
use omniswap.Filters.{Filters, model_word, clean, sanitized_strip_params}

-- " b,model,,a,b", and "model" and "a" set.
abbrev some_filters : Filters ℕ
some_filters = record {
  strip_params = 32 ∷ 98 ∷ 44 ∷ 109 ∷ 111 ∷ 100 ∷ 101 ∷ 108 ∷ 44 ∷ 44 ∷ 97 ∷ 44 ∷ 98 ∷ [];
  set_params = (model_word, 1) ∷ (97 ∷ [], 2) ∷ [];
}

test_strip : sanitized_strip_params some_filters ≡ (97 ∷ []) ∷ (98 ∷ []) ∷ []
unfolding sanitized_strip_params clean split cons_first trim_left trim_right is_space contains
    sort_strings put_sorted text_lt
test_strip = refl
