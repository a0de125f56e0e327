-- ===== src/Prelude/Split.antt =====
-- `strings.Split` of a text at a rune.
use omniswap.Prelude.{ℕ, List, [], ◌∷◌, ◌++◌, ◌≡◌, refl, arith, nat_beq, Bool-cases, inl, inr}
use omniswap.Prelude.Text.{Text, count_of, split, cons_first}

pub split_none : (r : ℕ) (s : Text) → count_of r s ≡ 0 → split r s ≡ s ∷ []
unfolding split count_of cons_first
split_none r [] h = refl
split_none r (c ∷ cs) h = ground (arith, split_none r cs)

pub split-++ :
    (r : ℕ) (s rest : Text) → count_of r s ≡ 0 → split r (s ++ (r ∷ rest)) ≡ s ∷ split r rest
unfolding split count_of cons_first
split-++ r [] rest h = ground arith
split-++ r (c ∷ cs) rest h = ground (arith, split-++ r cs rest)

-- There is always a first piece.
split_nonempty :
    (r : ℕ) (s : Text) → (piece : Text) × (pieces : List Text) × (split r s ≡ piece ∷ pieces)
unfolding split cons_first
split_nonempty r [] = ([], [], refl)
split_nonempty r (c ∷ cs) =
    let (piece, pieces, e) = split_nonempty r cs in
    elim (Bool-cases (nat_beq c r)) [
      | inl k ↦ ([], split r cs, rw k refl)
      | inr k ↦ (c ∷ piece, pieces, rw (k, e) refl)
    ]

-- The last piece is what follows the last place of the rune.
pub split_last :
    (r : ℕ) (front last : Text)
    → count_of r last ≡ 0
    → split r (front ++ (r ∷ last)) ≡ split r front ++ (last ∷ [])
unfolding split cons_first
split_last r [] last h = ground (arith, split_none r last h)
split_last r (c ∷ front) last h =
    let (piece, pieces, e) = split_nonempty r front in
    rw (split_last r front last h, e) (ground arith)
