-- ===== src/Prelude/Text.antt =====
-- Strings as lists of their runes: the functions of Go's
-- package `strings` that the code calls. The case tables of Unicode are parameters where they are used.
use omniswap.Prelude.{
  ℕ, suc, Bool, true, false, ◌&&◌, ◌||◌, List, [], ◌∷◌, ◌≡◌, ◌↔◌, if◌then◌else◌, ltb, leb, nat_beq,
  arith,
}
use omniswap.Prelude.Keys.{Eq, nat_eq, ◌==◌}

abbrev pub Text : Type 0
Text = List ℕ

-- `unicode.IsSpace`
unfoldable pub is_space : ℕ → Bool
is_space c =
    (leb 9 c && leb c 13)
    || nat_beq c 32
    || nat_beq c 133
    || nat_beq c 160
    || nat_beq c 5760
    || (leb 8192 c && leb c 8202)
    || nat_beq c 8232
    || nat_beq c 8233
    || nat_beq c 8239
    || nat_beq c 8287
    || nat_beq c 12288

unfoldable pub trim_left : Text → Text
trim_left [] = []
trim_left (c ∷ cs) = let rest = trim_left cs in if is_space c then rest else c ∷ cs

abbrev pub is_empty {ℓ} : {A : Type ℓ} → List A → Bool
is_empty [] = true
is_empty (x ∷ xs) = false

unfoldable pub trim_right : Text → Text
trim_right [] = []
trim_right (c ∷ cs) =
    let rest = trim_right cs in if is_empty rest && is_space c then [] else c ∷ rest

-- `strings.TrimSpace`
abbrev pub trim_space : Text → Text
trim_space s = trim_right (trim_left s)

-- `strings.Count` of one rune.
unfoldable pub count_of : ℕ → Text → ℕ
count_of r [] = 0
count_of r (c ∷ cs) = let rest = count_of r cs in if nat_beq c r then suc rest else rest

-- `s[:i]` and `s[i+1:]`, for the first place `i` of a rune; all and nothing if there is none.
unfoldable pub before : ℕ → Text → Text
before r [] = []
before r (c ∷ cs) = let rest = before r cs in if nat_beq c r then [] else c ∷ rest

unfoldable pub after : ℕ → Text → Text
after r [] = []
after r (c ∷ cs) = let rest = after r cs in if nat_beq c r then cs else rest

-- `strings.Split` by one rune: never empty.
unfoldable pub cons_first : ℕ → List Text → List Text
cons_first c [] = (c ∷ []) ∷ []
cons_first c (piece ∷ pieces) = (c ∷ piece) ∷ pieces

unfoldable pub split : ℕ → Text → List Text
split r [] = [] ∷ []
split r (c ∷ cs) = let rest = split r cs in if nat_beq c r then [] ∷ rest else cons_first c rest

-- `strings.TrimPrefix` and `strings.HasPrefix`
unfoldable pub has_prefix : Text → Text → Bool
has_prefix [] s = true
has_prefix (p ∷ ps) [] = false
has_prefix (p ∷ ps) (c ∷ cs) = nat_beq c p && has_prefix ps cs

unfoldable pub trim_prefix : Text → Text → Text
trim_prefix p s = if has_prefix p s then strip p s else s
  where
    strip : Text → Text → Text
    strip [] s = s
    strip (p ∷ ps) [] = []
    strip (p ∷ ps) (c ∷ cs) = strip ps cs

-- The text without its last rune, and whether this is the rune `r`.
unfoldable pub all_but_last : Text → Text
all_but_last [] = []
all_but_last (c ∷ []) = []
all_but_last (c ∷ d ∷ cs) = c ∷ all_but_last (d ∷ cs)

unfoldable pub ends_in : ℕ → Text → Bool
ends_in r [] = false
ends_in r (c ∷ []) = nat_beq c r
ends_in r (c ∷ d ∷ cs) = ends_in r (d ∷ cs)

-- `strings.EqualFold`, for a test of two runes.
unfoldable pub equal_fold : (ℕ → ℕ → Bool) → Text → Text → Bool
equal_fold same_fold [] [] = true
equal_fold same_fold [] (d ∷ ds) = false
equal_fold same_fold (c ∷ cs) [] = false
equal_fold same_fold (c ∷ cs) (d ∷ ds) = same_fold c d && equal_fold same_fold cs ds

-- Go's `<` on strings.
unfoldable pub text_lt : Text → Text → Bool
text_lt [] [] = false
text_lt [] (d ∷ ds) = true
text_lt (c ∷ cs) [] = false
text_lt (c ∷ cs) (d ∷ ds) = let rest = text_lt cs ds in if nat_beq c d then rest else ltb c d

-- `sort.Strings`
unfoldable pub put_sorted : Text → List Text → List Text
put_sorted s [] = s ∷ []
put_sorted s (t ∷ ts) = let rest = put_sorted s ts in if text_lt t s then t ∷ rest else s ∷ t ∷ ts

unfoldable pub sort_strings : List Text → List Text
sort_strings [] = []
sort_strings (s ∷ ss) = put_sorted s (sort_strings ss)

abbrev pub text_beq : Text → Text → Bool
text_beq [] [] = true
text_beq [] (d ∷ ds) = false
text_beq (c ∷ cs) [] = false
text_beq (c ∷ cs) (d ∷ ds) = nat_beq c d && text_beq cs ds

pub text_beq_iff : (s t : Text) → (text_beq s t ≡ true) ↔ (s ≡ t)
text_beq_iff [] [] = ground arith
text_beq_iff [] (d ∷ ds) = ground arith
text_beq_iff (c ∷ cs) [] = ground arith
text_beq_iff (c ∷ cs) (d ∷ ds) = ground (arith, text_beq_iff cs ds)

instance abbrev pub text_eq : Eq Text
text_eq = record { beq = text_beq; beq_iff = text_beq_iff }

unfoldable pub contains : Text → List Text → Bool
contains s [] = false
contains s (t ∷ ts) = t == s || contains s ts
