-- ===== src/Prelude/Word.antt =====
-- Go's `int64` (and `int`, which has 64 bits on the platforms of the program): the integers from
-- -2^63 to 2^63 - 1, with arithmetic that wraps around modulo 2^64.
use omniswap.Prelude.{
  ℕ, suc, ◌+◌, ◌-◌, ◌*◌, ◌%◌, ◌^◌, ◌≤◌, ◌<◌, ◌≡◌, refl, ap, ◌∙◌, arith, ltb, if◌then◌else◌,
}
use omniswap.Prelude.Int.{
  ℤ, pos, negsuc, pos_part, neg_part, ◌+ℤ◌, ◌-ℤ◌, ◌*ℤ◌, ◌≤ℤ◌, +ℤ_parts, -ℤ_parts, +ℤ_comm, +ℤ_assoc,
  one_part, eq_of_parts, neg_part_zero, int_laws,
}

-- The bit pattern of an integer modulo 2^64, and the signed reading of a bit pattern.
abbrev residue : ℤ → ℕ
residue (pos n) = n % 2 ^ 64
residue (negsuc n) = 2 ^ 64 - 1 - n % 2 ^ 64

abbrev signed : ℕ → ℤ
signed u = if ltb u (2 ^ 63) then pos u else negsuc (2 ^ 64 - 1 - u)

unfoldable pub int64 : ℤ → ℤ
int64 z = signed (residue z)

abbrev pub add64 : ℤ → ℤ → ℤ
add64 a b = int64 (a +ℤ b)

abbrev pub sub64 : ℤ → ℤ → ℤ
sub64 a b = int64 (a -ℤ b)

abbrev pub mul64 : ℤ → ℤ → ℤ
mul64 a b = int64 (a *ℤ b)

-- The integers that an `int64` holds.
abbrev pub InRange : ℤ → Type 0
InRange z = (pos_part z < 2 ^ 63) × (neg_part z ≤ 2 ^ 63)

pub int64-InRange : (z : ℤ) → InRange (int64 z)
unfolding int64
int64-InRange (pos n) = ground arith
int64-InRange (negsuc n) = ground arith

-- In range nothing wraps.
pub int64_id : (z : ℤ) → pos_part z < 2 ^ 63 → neg_part z ≤ 2 ^ 63 → int64 z ≡ z
unfolding int64
int64_id (pos n) h k = ground arith
int64_id (negsuc n) h k = ground arith

residue-add : (a b : ℤ) → residue (a +ℤ b) ≡ (residue a + residue b) % 2 ^ 64
unfolding ◌+ℤ◌
residue-add a b = ground arith

residue-int64 : (a : ℤ) → residue (int64 a) ≡ residue a
unfolding int64
residue-int64 a = ground arith

residue-sub : (a b : ℤ) → residue (a -ℤ b) ≡ (residue a + 2 ^ 64 - residue b) % 2 ^ 64
unfolding ◌-ℤ◌
residue-sub a b = ground arith

-- A wrapped operand may be replaced by the operand itself.
pub int64-add_left : (a b : ℤ) → int64 (int64 a +ℤ b) ≡ int64 (a +ℤ b)
unfolding int64
int64-add_left a b = ap signed (rw (residue-add (int64 a) b, residue-int64 a, ← residue-add a b))

pub int64-add_right : (a b : ℤ) → int64 (a +ℤ int64 b) ≡ int64 (a +ℤ b)
int64-add_right a b = rw (+ℤ_comm a (int64 b), int64-add_left b a, +ℤ_comm b a)

pub int64-sub_left : (a b : ℤ) → int64 (int64 a -ℤ b) ≡ int64 (a -ℤ b)
unfolding int64
int64-sub_left a b = ap signed (rw (residue-sub (int64 a) b, residue-int64 a, ← residue-sub a b))

pub int64-sub_right : (a b : ℤ) → int64 (a -ℤ int64 b) ≡ int64 (a -ℤ b)
unfolding int64
int64-sub_right a b = ap signed (rw (residue-sub a (int64 b), residue-int64 b, ← residue-sub a b))

-- Nested sums and differences wrap as their whole does.
pub ruleset wraps = (int64-add_left, int64-add_right, int64-sub_left, int64-sub_right)

-- A bridge for `omega`: with no overflow, a wrapped sum or difference is the exact one.
pub add64_parts :
    (a b : ℤ)
    → pos_part a + pos_part b < 2 ^ 63 + neg_part a + neg_part b
    → neg_part a + neg_part b ≤ 2 ^ 63 + pos_part a + pos_part b
    → pos_part (add64 a b) + neg_part a + neg_part b
      ≡ neg_part (add64 a b) + pos_part a + pos_part b
add64_parts a b h k =
    rw
      (int64_id (a +ℤ b) (omega (arith, +ℤ_parts a b, one_part (a +ℤ b)))
        (omega (arith, +ℤ_parts a b, one_part (a +ℤ b))))
      (omega (arith, +ℤ_parts a b))

pub sub64_parts :
    (a b : ℤ)
    → pos_part a + neg_part b < 2 ^ 63 + neg_part a + pos_part b
    → neg_part a + pos_part b ≤ 2 ^ 63 + pos_part a + neg_part b
    → pos_part (sub64 a b) + neg_part a + pos_part b
      ≡ neg_part (sub64 a b) + pos_part a + neg_part b
sub64_parts a b h k =
    rw
      (int64_id (a -ℤ b) (omega (arith, -ℤ_parts a b, one_part (a -ℤ b)))
        (omega (arith, -ℤ_parts a b, one_part (a -ℤ b))))
      (omega (arith, -ℤ_parts a b))

pub add64_comm : (a b : ℤ) → add64 a b ≡ add64 b a
add64_comm a b = ap int64 (+ℤ_comm a b)

pub add64_assoc : (a b c : ℤ) → add64 (add64 a b) c ≡ add64 a (add64 b c)
add64_assoc a b c = simp wraps (ap int64 (+ℤ_assoc a b c))

pub sub64-add64 : (a b : ℤ) → InRange a → sub64 (add64 a b) b ≡ a
sub64-add64 a b r = simp wraps (ap int64 (omega int_laws) ∙ int64_id a r.0 r.1)

pub add64-sub64 : (a b : ℤ) → InRange a → add64 (sub64 a b) b ≡ a
add64-sub64 a b r = simp wraps (ap int64 (omega int_laws) ∙ int64_id a r.0 r.1)

-- In a proof by `omega`: the sums and differences that the code forms, with no overflow.
pub ruleset word_laws = (arith, add64_parts, sub64_parts, eq_of_parts, neg_part_zero)

-- On small amounts that are not negative the operations are those of the natural numbers.
pub add64_pos : (m n : ℕ) → m + n < 2 ^ 63 → add64 (pos m) (pos n) ≡ pos (m + n)
add64_pos m n h = omega (arith, add64_parts (pos m) (pos n), eq_of_parts)

pub nonneg : (z : ℤ) → pos 0 ≤ℤ z → z ≡ pos (pos_part z)
nonneg (pos n) h = refl
nonneg (negsuc n) h = absurd (omega arith)

pub mul64_pos :
    (a b : ℤ)
    → pos 0 ≤ℤ a
    → pos 0 ≤ℤ b
    → pos_part a * pos_part b < 2 ^ 63
    → mul64 a b ≡ pos (pos_part a * pos_part b)
unfolding int64 ◌*ℤ◌
mul64_pos (pos m) (pos n) ha hb h = ground arith
mul64_pos a b ha hb h = absurd (omega arith)

pub add64_zero : (a : ℤ) → InRange a → add64 a (pos 0) ≡ a
add64_zero a r = ap int64 (omega int_laws) ∙ int64_id a r.0 r.1

pub add64_zero_left : (a b : ℤ) → add64 (add64 (pos 0) a) b ≡ add64 b a
add64_zero_left a b = simp wraps (ap int64 (omega int_laws))
