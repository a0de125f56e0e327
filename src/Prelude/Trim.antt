-- ===== src/Prelude/Trim.antt =====
-- What the trimming of spaces does to a text with a rune that is no space.
use omniswap.Prelude.{
  ℕ, true, false, [], ◌∷◌, ◌++◌, ◌≡◌, refl, ap, ◌∙◌, arith, nat_beq, Bool-cases, inl, inr,
}
use omniswap.Prelude.Text.{Text, is_space, trim_left, trim_right, trim_space, is_empty, count_of}

trim_left-trim_left : (s : Text) → trim_left (trim_left s) ≡ trim_left s
unfolding trim_left
trim_left-trim_left [] = refl
trim_left-trim_left (c ∷ cs) = ground (arith, trim_left-trim_left cs)

trim_right-trim_right : (s : Text) → trim_right (trim_right s) ≡ trim_right s
unfolding trim_right
trim_right-trim_right [] = refl
trim_right-trim_right (c ∷ cs) = ground (arith, trim_right-trim_right cs)

-- A rune that is no space keeps apart what the two ends lose.
pub trim_left-++ :
    (xs : Text) (r : ℕ) (ys : Text)
    → is_space r ≡ false
    → trim_left (xs ++ (r ∷ ys)) ≡ trim_left xs ++ (r ∷ ys)
unfolding trim_left
trim_left-++ [] r ys h = rw h refl
trim_left-++ (x ∷ xs) r ys h = ground (arith, trim_left-++ xs r ys h)

is_empty-++ : (xs : Text) (r : ℕ) (ys : Text) → is_empty (xs ++ (r ∷ ys)) ≡ false
is_empty-++ [] r ys = refl
is_empty-++ (x ∷ xs) r ys = refl

pub trim_right-++ :
    (xs : Text) (r : ℕ) (ys : Text)
    → is_space r ≡ false
    → trim_right (xs ++ (r ∷ ys)) ≡ xs ++ (r ∷ trim_right ys)
unfolding trim_right
trim_right-++ [] r ys h = ground (arith, h)
trim_right-++ (x ∷ xs) r ys h = rw (trim_right-++ xs r ys h, is_empty-++ xs r (trim_right ys)) refl

trim_left-trim_right : (s : Text) → trim_left (trim_right s) ≡ trim_right (trim_left s)
unfolding trim_left trim_right
trim_left-trim_right [] = refl
trim_left-trim_right (c ∷ cs) = ground (arith, trim_left-trim_right cs)

pub trim_space-trim_left : (s : Text) → trim_space (trim_left s) ≡ trim_space s
trim_space-trim_left s = ap trim_right (trim_left-trim_left s)

pub trim_space-trim_right : (s : Text) → trim_space (trim_right s) ≡ trim_space s
trim_space-trim_right s =
    ap trim_right (trim_left-trim_right s) ∙ trim_right-trim_right (trim_left s)

count_of-empty : (r : ℕ) (s : Text) → is_empty s ≡ true → count_of r s ≡ 0
unfolding count_of
count_of-empty r [] h = refl
count_of-empty r (c ∷ cs) h = absurd cc

-- The runes that are no spaces are all kept.
pub count_of-trim_left :
    (r : ℕ) (s : Text) → is_space r ≡ false → count_of r (trim_left s) ≡ count_of r s
unfolding count_of trim_left
count_of-trim_left r [] h = refl
count_of-trim_left r (c ∷ cs) h = elim (Bool-cases (nat_beq c r)) [
  | inl e ↦ let same : c ≡ r = ground arith in rw (same, h) refl
  | inr e ↦ ground (arith, count_of-trim_left r cs h, e)
]

pub count_of-trim_right :
    (r : ℕ) (s : Text) → is_space r ≡ false → count_of r (trim_right s) ≡ count_of r s
unfolding count_of trim_right
count_of-trim_right r [] h = refl
count_of-trim_right r (c ∷ cs) h = elim (Bool-cases (nat_beq c r)) [
  | inl e ↦
      let same : c ≡ r = ground arith in
      let kept : trim_right (c ∷ cs) ≡ c ∷ trim_right cs = trim_right-++ [] c cs (rw same h) in
      ap (count_of r) kept ∙ ground (arith, e, count_of-trim_right r cs h)
  | inr e ↦ ground (arith, count_of-trim_right r cs h, e, count_of-empty r (trim_right cs))
]

pub count_of-trim_space :
    (r : ℕ) (s : Text) → is_space r ≡ false → count_of r (trim_space s) ≡ count_of r s
count_of-trim_space r s h = count_of-trim_right r (trim_left s) h ∙ count_of-trim_left r s h
