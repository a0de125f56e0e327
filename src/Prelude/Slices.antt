-- ===== src/Prelude/Slices.antt =====
-- Go's slices of a list, `xs[:n]` and `xs[n:]`, and what is left of lists that are joined.
use omniswap.Prelude.{
  ℕ, zero, suc, ◌+◌, ◌-◌, ◌≤◌, List, [], ◌∷◌, ◌++◌, ◌≡◌, refl, ap, arith, length, take,
  length-append, ◌∙◌, sym, ++_nil, take-length-++,
}

suc_add : (n m : ℕ) → suc (n + m) ≡ suc n + m
suc_add n m = omega arith

module _ {ℓ} {A : Type ℓ} where
  abbrev pub drop : ℕ → List A → List A
  drop zero xs = xs
  drop (suc n) [] = []
  drop (suc n) (x ∷ xs) = drop n xs

  pub drop-nil : (n : ℕ) → drop n [] ≡ []
  drop-nil zero = refl
  drop-nil (suc n) = refl

  pub drop-length : (xs : List A) → drop (length xs) xs ≡ []
  drop-length [] = refl
  drop-length (x ∷ xs) = drop-length xs

  pub length-drop : (n : ℕ) (xs : List A) → length (drop n xs) ≡ length xs - n
  length-drop zero xs = omega arith
  length-drop (suc n) [] = omega arith
  length-drop (suc n) (x ∷ xs) = omega (arith, length-drop n xs)

  pub length-take : (n : ℕ) (xs : List A) → n ≤ length xs → length (take n xs) ≡ n
  length-take zero xs h = refl
  length-take (suc n) [] h = absurd (omega arith)
  length-take (suc n) (x ∷ xs) h = omega (arith, length-take n xs)

  pub take-drop : (n : ℕ) (xs : List A) → take n xs ++ drop n xs ≡ xs
  take-drop zero xs = refl
  take-drop (suc n) [] = refl
  take-drop (suc n) (x ∷ xs) = ap (◌∷◌ x) (take-drop n xs)

  pub drop-drop : (m n : ℕ) (xs : List A) → drop m (drop n xs) ≡ drop (n + m) xs
  drop-drop m zero xs = ap (λ k. drop k xs) (omega arith)
  drop-drop m (suc n) [] = rw (drop-nil m, drop-nil (suc n + m)) refl
  drop-drop m (suc n) (x ∷ xs) = drop-drop m n xs ∙ ap (λ k. drop k (x ∷ xs)) (suc_add n m)

  pub drop-append : (n : ℕ) (xs ys : List A) → n ≤ length xs → drop n (xs ++ ys) ≡ drop n xs ++ ys
  drop-append zero xs ys h = refl
  drop-append (suc n) [] ys h = absurd (omega arith)
  drop-append (suc n) (x ∷ xs) ys h = drop-append n xs ys (omega arith)

  pub take-append : (n : ℕ) (xs ys : List A) → n ≤ length xs → take n (xs ++ ys) ≡ take n xs
  take-append zero xs ys h = refl
  take-append (suc n) [] ys h = absurd (omega arith)
  take-append (suc n) (x ∷ xs) ys h = ap (◌∷◌ x) (take-append n xs ys (omega arith))

  pub drop-all : (n : ℕ) (xs : List A) → length xs ≡ n → drop n xs ≡ []
  drop-all n xs h = rw⁻¹ h (drop-length xs)

  take-nil : (n : ℕ) → take {A = A} n [] ≡ []
  take-nil zero = refl
  take-nil (suc n) = refl

  pub drop-length-++ : (xs ys : List A) → drop (length xs) (xs ++ ys) ≡ ys
  drop-length-++ [] ys = refl
  drop-length-++ (x ∷ xs) ys = drop-length-++ xs ys

  pub drop-take : (k m : ℕ) (xs : List A) → drop k (take (k + m) xs) ≡ take m (drop k xs)
  drop-take zero m xs = ap (λ n. take n xs) (omega arith)
  drop-take (suc k) m [] = ap (drop (suc k)) (take-nil (suc k + m)) ∙ sym (take-nil m)
  drop-take (suc k) m (x ∷ xs) =
      ap (λ n. drop (suc k) (take n (x ∷ xs))) (sym (suc_add k m)) ∙ drop-take k m xs

  pub drop-past : (n k : ℕ) (xs ys : List A) → length xs ≡ n → drop (n + k) (xs ++ ys) ≡ drop k ys
  drop-past n k xs ys h =
      rw⁻¹ h (sym (drop-drop k (length xs) (xs ++ ys)) ∙ ap (drop k) (drop-length-++ xs ys))

  pub take-all : (n : ℕ) (xs : List A) → length xs ≡ n → take n xs ≡ xs
  take-all n xs h = rw⁻¹ h (sym (ap (take (length xs)) (++_nil xs)) ∙ take-length-++ xs [])

  -- The last elements, as many as there is room for.
  abbrev pub newest : ℕ → List A → List A
  newest room xs = drop (length xs - room) xs

  pub newest-newest : (n : ℕ) (xs ys : List A) → newest n (newest n xs ++ ys) ≡ newest n (xs ++ ys)
  newest-newest n xs ys =
      let cut = length xs - n in
      let joined : newest n xs ++ ys ≡ drop cut (xs ++ ys) =
        sym (drop-append cut xs ys (omega arith)) in
      let total = length-append xs ys in
      let l_cut = length-drop cut (xs ++ ys) in
      let same : cut + (length (drop cut (xs ++ ys)) - n) ≡ length (xs ++ ys) - n = omega arith in
      rw (joined, drop-drop (length (drop cut (xs ++ ys)) - n) cut (xs ++ ys))
        (ap (λ m. drop m (xs ++ ys)) same)
