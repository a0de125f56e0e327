-- ===== src/Dispatcher/Search.antt =====
-- The binary search of a registry (event/event.go).
use omniswap.Prelude.{
  ℕ, suc, zero, ◌+◌, ◌-◌, ◌/◌, ◌≤◌, ◌<◌, ◌≡◌, refl, some, List, [], ◌∷◌, length, if◌then◌else◌, ltb,
  get_elem?, arith, All, ltb→lt, Bool-cases, inl, inr,
}
use omniswap.Dispatcher.{search_loop, position}

-- Keys in order, each one once.
abbrev pub IsAscending : List ℕ → Type 0
IsAscending [] = Unit
IsAscending (k ∷ ks) = All (λ x. k < x) ks × IsAscending ks

pub position_bound : (t : ℕ) (ks : List ℕ) → position t ks ≤ length ks
unfolding position
position_bound t [] = omega arith
position_bound t (k ∷ ks) = ground (arith, position_bound t ks)

pub get_elem?-above :
    (b : ℕ) (ks : List ℕ) (m : ℕ) {k : ℕ} → All (λ x. b < x) ks → get_elem? ks m ≡ some k → b < k
get_elem?-above b [] m h e = ground arith
get_elem?-above b (x ∷ ks) zero h e = ground arith
get_elem?-above b (x ∷ ks) (suc m) h e = get_elem?-above b ks m h.1 e

-- A key below `t` stands before the position of `t`, and any other does not.
pub position-split :
    (t : ℕ) (ks : List ℕ) (m : ℕ) {k : ℕ}
    → IsAscending ks
    → get_elem? ks m ≡ some k
    → (if ltb k t then m < position t ks else position t ks ≤ m)
unfolding position
position-split t [] m s e = ground arith
position-split t (x ∷ ks) zero s e = ground arith
position-split t (x ∷ ks) (suc m) {k} s e =
    ground (arith, position-split t ks m {k = k} s.1 e, get_elem?-above x ks m {k = k} s.0 e)

get_elem?-some : (ks : List ℕ) (m : ℕ) → m < length ks → (k : ℕ) × (get_elem? ks m ≡ some k)
get_elem?-some [] m h = absurd (omega arith)
get_elem?-some (x ∷ ks) zero h = (x, refl)
get_elem?-some (x ∷ ks) (suc m) h = get_elem?-some ks m (omega arith)

-- With as much fuel as the range is long, the loop ends at the position of the key that it looks for.
pub search_loop_lem :
    (fuel : ℕ) (keys : List ℕ) (t left right : ℕ)
    → IsAscending keys
    → right < left + fuel
    → right ≤ length keys
    → left ≤ position t keys
    → position t keys ≤ right
    → search_loop fuel keys t left right ≡ some (position t keys)
unfolding search_loop
search_loop_lem zero keys t left right s f r l p = absurd (omega arith)
search_loop_lem (suc fuel) keys t left right s f r l p = elim (Bool-cases (ltb left right)) [
  | inr e ↦ ground arith
  | inl e ↦
      let lt : left < right = ltb→lt _ _ e in
      let mid = left + (right - left) / 2 in
      let (k, at) = get_elem?-some keys mid (omega arith) in
      elim (Bool-cases (ltb k t)) [
        | inl below ↦
            let split = position-split t keys mid {k = k} s at in
            ground (arith, search_loop_lem fuel keys t (left + (right - left) / 2 + 1) right s)
        | inr above ↦
            let split = position-split t keys mid {k = k} s at in
            ground (arith, search_loop_lem fuel keys t left (left + (right - left) / 2) s)
      ]
]
