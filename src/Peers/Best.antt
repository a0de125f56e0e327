-- ===== src/Peers/Best.antt =====
-- The two ways to find the first of the least keys: the loop of proxy/peerproxy.go, and the head of
-- the stable sort of proxy/scheduler.go.
use omniswap.Prelude.{
  Option, none, some, some_inj, List, [], ◌∷◌, ◌≡◌, refl, sym, arith, All, ap, ◌⊎◌, inl, inr,
  Bool-cases,
}
use omniswap.Prelude.Int.{ℤ, ◌≤ℤ◌, ltb_ℤ}
use omniswap.Peers.{better, choose, insert_stable, slice_stable}

abbrev pub head? {ℓ} : {A : Type ℓ} → List A → Option A
head? [] = none
head? (x ∷ xs) = some x

-- An element of a list.
abbrev pub Among : {A : Type 0} → A → List A → Type 0
Among r [] = ⊥
Among r (x ∷ xs) = (r ≡ x) ⊎ Among r xs

module _ {A : Type 0} (key : A → ℤ) where
  head?-insert_stable :
      (x : A) (ys : List A)
      → head? (insert_stable key x ys)
        ≡ some (elim (head? ys) [ none ↦ x | some y ↦ better key (some x) y ])
  head?-insert_stable x [] = refl
  head?-insert_stable x (y ∷ ys) = ground arith

  better_assoc :
      (b x y : A)
      → better key (some (better key (some b) x)) y ≡ better key (some b) (better key (some x) y)
  better_assoc b x y = ground arith

  choose-some :
      (b : A) (xs : List A)
      → choose key (some b) xs
        ≡ some (elim (head? (slice_stable key xs)) [ none ↦ b | some y ↦ better key (some b) y ])
  unfolding choose slice_stable
  choose-some b [] = refl
  choose-some b (x ∷ xs) =
      rw (choose-some (better key (some b) x) xs, head?-insert_stable x (slice_stable key xs))
        (joined (head? (slice_stable key xs)))
    where
      joined :
          (o : Option A)
          → some (elim o [
            | none ↦ better key (some b) x
            | some y ↦ better key (some (better key (some b) x)) y
          ])
            ≡ some (better key (some b) (elim o [ none ↦ x | some y ↦ better key (some x) y ]))
      joined none = refl
      joined (some y) = ap some (better_assoc b x y)

  -- The loop finds what the stable sort puts first.
  pub choose-head? : (xs : List A) → choose key none xs ≡ head? (slice_stable key xs)
  unfolding choose slice_stable
  choose-head? [] = refl
  choose-head? (x ∷ xs) = rw (choose-some x xs, head?-insert_stable x (slice_stable key xs)) refl

  choose-some-least :
      (b : A) (xs : List A)
      → (r : A) × (choose key (some b) xs ≡ some r)
        × (key r ≤ℤ key b)
        × All (λ x. key r ≤ℤ key x) xs
  unfolding choose
  choose-some-least b [] = (b, refl, omega arith, tt)
  choose-some-least b (x ∷ xs) =
      let (r, e, least, rest) = choose-some-least (better key (some b) x) xs in
      (r, e, ground (arith, least), (ground (arith, least), rest))

  -- On a list that is not empty, the loop finds an element whose key is the least.
  pub choose-least :
      (x : A) (xs : List A)
      → (r : A) × (choose key none (x ∷ xs) ≡ some r) × All (λ y. key r ≤ℤ key y) (x ∷ xs)
  unfolding choose
  choose-least x xs = let (r, e, least, rest) = choose-some-least x xs in (r, e, (least, rest))

  choose-some-Among :
      (b : A) (xs : List A) {r : A} → choose key (some b) xs ≡ some r → (r ≡ b) ⊎ Among r xs
  unfolding choose
  choose-some-Among b [] e = inl (sym (some_inj e))
  choose-some-Among b (x ∷ xs) {r} e =
      elim (choose-some-Among (better key (some b) x) xs {r = r} e) [
        | inr later ↦ inr (inr later)
        | inl same ↦ elim (Bool-cases (ltb_ℤ (key x) (key b))) [
          | inl less ↦ inr (inl (rw less at same))
          | inr kept ↦ inl (rw kept at same)
        ]
      ]

  -- What the loop finds is an element of the list.
  pub choose-Among : (xs : List A) {r : A} → choose key none xs ≡ some r → Among r xs
  unfolding choose
  choose-Among [] e = absurd cc
  choose-Among (x ∷ xs) {r} e = choose-some-Among x xs {r = r} e
