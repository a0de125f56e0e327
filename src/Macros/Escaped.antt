-- ===== src/Macros/Escaped.antt =====
-- What is put into the text of a configuration for an environment variable (proxy/config/config.go).
use omniswap.Prelude.{
  ℕ, true, false, none, some, [], ◌∷◌, ◌≡◌, ◌≢◌, refl, ap, arith, if◌then◌else◌, nat_beq,
  Bool-cases, inl, inr, ◌⊎◌, All,
}
use omniswap.Prelude.Text.{Text, has_prefix}
use omniswap.Macros.{replace_from, replace_all, backslash, quote, breaks_yaml, sanitize_env_value}

-- No line feed, no carriage return and no null.
abbrev pub Kept : ℕ → Type 0
Kept c = (c ≢ 10) × (c ≢ 13) × (c ≢ 0)

-- Each backslash and each double quote with a backslash before it, rune by rune.
abbrev pub escape : Text → Text
escape [] = []
escape (c ∷ cs) =
    if nat_beq c backslash
    then backslash ∷ backslash ∷ escape cs
    else if nat_beq c quote
    then backslash ∷ quote ∷ escape cs
    else c ∷ escape cs

replaced_escape :
    (s : Text)
    → replace_all
        (quote ∷ [])
        (backslash ∷ quote ∷ [])
        (replace_all (backslash ∷ []) (backslash ∷ backslash ∷ []) s)
      ≡ escape s
unfolding replace_from has_prefix
replaced_escape [] = refl
replaced_escape (c ∷ cs) = elim (Bool-cases (nat_beq c backslash)) [
  | inl e ↦ rw e (ap (λ (t : Text). backslash ∷ backslash ∷ t) (replaced_escape cs))
  | inr e ↦ elim (Bool-cases (nat_beq c quote)) [
    | inl q ↦ rw (e, q) (ap (λ (t : Text). backslash ∷ quote ∷ t) (replaced_escape cs))
    | inr q ↦ rw (e, q) (ap (λ (t : Text). c ∷ t) (replaced_escape cs))
  ]
]

breaks_yaml-Kept :
    (value : Text)
    → ((breaks_yaml value ≡ false) × All Kept value)
      ⊎ ((breaks_yaml value ≡ true) × ¬ All Kept value)
breaks_yaml-Kept [] = inl (refl, tt)
breaks_yaml-Kept (c ∷ cs) = elim (breaks_yaml-Kept cs) [
  | inr (breaks, not_kept) ↦ inr (ground (arith, breaks), λ all. not_kept all.1)
  | inl (safe, kept) ↦ elim (Bool-cases (breaks_yaml (c ∷ cs))) [
    | inl breaks ↦ inr (breaks, λ all. ground (arith, breaks, safe, all.0))
    | inr fine ↦
        inl (fine, ((ground (arith, fine), ground (arith, fine), ground (arith, fine)), kept))
  ]
]

-- A value is accepted exactly if it has no line feed, no carriage return and no null. It is then
-- substituted with a backslash before each of its backslashes and double quotes, and otherwise as it
-- is: the second replacement does not touch what the first one put in, and neither misses any.
pub sanitize_env_value-escape :
    (value : Text)
    → (All Kept value × (sanitize_env_value value ≡ some (escape value)))
      ⊎ ((¬ All Kept value) × (sanitize_env_value value ≡ none))
unfolding sanitize_env_value
sanitize_env_value-escape value = elim (breaks_yaml-Kept value) [
  | inl (safe, kept) ↦ inl (kept, rw safe (ap some (replaced_escape value)))
  | inr (breaks, lost) ↦ inr (lost, rw breaks refl)
]
