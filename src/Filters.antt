-- ===== src/Filters.antt =====
-- The filters of request parameters (proxy/config/filters.go). The values of the parameters are of any
-- type. A list that Go returns as nil is the empty list.
pub mod Sanitized
mod Tests
use omniswap.Prelude.{ℕ, Bool, true, false, not, ◌&&◌, ◌||◌, List, [], ◌∷◌, if◌then◌else◌, map}
use omniswap.Prelude.Dict.{Dict}
use omniswap.Prelude.Text.{Text, text_eq, trim_space, split, is_empty, contains, sort_strings}

-- "model"
abbrev pub model_word : Text
model_word = 109 ∷ 111 ∷ 100 ∷ 101 ∷ 108 ∷ []

-- `ProtectedParams`
abbrev pub protected_params : List Text
protected_params = model_word ∷ []

abbrev pub comma : ℕ
comma = 44

-- `Filters`
pub record Filters {ℓ} (V : Type ℓ) : Type ℓ where
  pub strip_params : Text
  pub set_params : Dict Text V

-- The loop of `SanitizedStripParams`; `seen` has the names that were kept before.
unfoldable pub clean : List Text → List Text → List Text
clean seen [] = []
clean seen (param ∷ params) =
    let trimmed = trim_space param in
    let later = clean (trimmed ∷ seen) params in
    let skipped = clean seen params in
    if contains trimmed protected_params || is_empty trimmed || contains trimmed seen
    then skipped
    else trimmed ∷ later

-- `SanitizedStripParams`
unfoldable pub sanitized_strip_params {ℓ} : {V : Type ℓ} → Filters V → List Text
sanitized_strip_params f =
    if is_empty f.strip_params then [] else sort_strings (clean [] (split comma f.strip_params))

-- The loop of `SanitizedSetParams`
unfoldable pub unprotected {ℓ} : {V : Type ℓ} → Dict Text V → Dict Text V
unprotected [] = []
unprotected ((key, v) ∷ rest) =
    let kept = unprotected rest in if contains key protected_params then kept else (key, v) ∷ kept

-- `SanitizedSetParams`: the parameters, and their keys in order.
unfoldable pub sanitized_set_params {ℓ} : {V : Type ℓ} → Filters V → Dict Text V × List Text
sanitized_set_params f =
    let result = unprotected f.set_params in (result, sort_strings (map (λ entry. entry.0) result))
