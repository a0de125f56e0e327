-- ===== src/Prelude/Sorted.antt =====
-- `sort.Strings`: what is in the result, and its order.
use omniswap.Prelude.{
  true, false, ◌||◌, List, [], ◌∷◌, ◌≡◌, refl, ap, ◌∙◌, arith, All, map, is_some, Bool-cases, inl,
  inr,
}
use omniswap.Prelude.Keys.{◌==◌}
use omniswap.Prelude.Dict.{Dict, lookup}
use omniswap.Prelude.Text.{Text, text_eq, contains, text_lt, sort_strings, put_sorted}

contains-put_sorted :
    (x s : Text) (ts : List Text) → contains x (put_sorted s ts) ≡ (s == x || contains x ts)
unfolding contains put_sorted
contains-put_sorted x s [] = refl
contains-put_sorted x s (t ∷ ts) = ground (arith, contains-put_sorted x s ts)

pub contains-sort_strings :
    (x : Text) (ts : List Text) → contains x (sort_strings ts) ≡ contains x ts
unfolding contains sort_strings
contains-sort_strings x [] = refl
contains-sort_strings x (s ∷ ts) =
    contains-put_sorted x s (sort_strings ts) ∙ ap (λ b. s == x || b) (contains-sort_strings x ts)

pub contains-keys {ℓ} :
    {V : Type ℓ} (x : Text) (dict : Dict Text V)
    → contains x (map (λ entry. entry.0) dict) ≡ is_some (lookup x dict)
unfolding contains
contains-keys x [] = refl
contains-keys x ((y, v) ∷ dict) = ground (arith, contains-keys x dict)

-- No string comes before an earlier one.
abbrev pub IsSorted : List Text → Type 0
IsSorted [] = Unit
IsSorted (s ∷ ss) = All (λ t. text_lt t s ≡ false) ss × IsSorted ss

text_lt_asym : (s t : Text) → text_lt t s ≡ true → text_lt s t ≡ false
unfolding text_lt
text_lt_asym [] [] h = refl
text_lt_asym [] (d ∷ ds) h = absurd cc
text_lt_asym (c ∷ cs) [] h = refl
text_lt_asym (c ∷ cs) (d ∷ ds) h = ground (arith, text_lt_asym cs ds)

text_ge_trans : (s t u : Text) → text_lt t s ≡ false → text_lt u t ≡ false → text_lt u s ≡ false
unfolding text_lt
text_ge_trans [] [] [] h k = refl
text_ge_trans [] [] (e ∷ es) h k = refl
text_ge_trans [] (d ∷ ds) [] h k = refl
text_ge_trans [] (d ∷ ds) (e ∷ es) h k = refl
text_ge_trans (c ∷ cs) [] u h k = absurd cc
text_ge_trans (c ∷ cs) (d ∷ ds) [] h k = absurd cc
text_ge_trans (c ∷ cs) (d ∷ ds) (e ∷ es) h k = ground (arith, text_ge_trans cs ds es)

All-text_lt :
    (s t : Text) (us : List Text)
    → text_lt t s ≡ false
    → All (λ u. text_lt u t ≡ false) us
    → All (λ u. text_lt u s ≡ false) us
All-text_lt s t [] h all = tt
All-text_lt s t (u ∷ us) h (k, all) = (text_ge_trans s t u h k, All-text_lt s t us h all)

All-put_sorted :
    (P : Text → Type 0) (s : Text) (ts : List Text) → P s → All P ts → All P (put_sorted s ts)
unfolding put_sorted
All-put_sorted P s [] h all = (h, tt)
All-put_sorted P s (t ∷ ts) h (k, all) = elim (Bool-cases (text_lt t s)) [
  | inl e ↦ rw e (k, All-put_sorted P s ts h all)
  | inr e ↦ rw e (h, (k, all))
]

put_sorted-IsSorted : (s : Text) (ts : List Text) → IsSorted ts → IsSorted (put_sorted s ts)
unfolding put_sorted
put_sorted-IsSorted s [] d = (tt, tt)
put_sorted-IsSorted s (t ∷ ts) (all, d) = elim (Bool-cases (text_lt t s)) [
  | inl e ↦ rw e (
    All-put_sorted (λ u. text_lt u t ≡ false) s ts (text_lt_asym s t e) all,
    put_sorted-IsSorted s ts d,
  )
  | inr e ↦ rw e ((e, All-text_lt s t ts e all), (all, d))
]

pub sort_strings-IsSorted : (ss : List Text) → IsSorted (sort_strings ss)
unfolding sort_strings
sort_strings-IsSorted [] = tt
sort_strings-IsSorted (s ∷ ss) = put_sorted-IsSorted s (sort_strings ss) (sort_strings-IsSorted ss)
