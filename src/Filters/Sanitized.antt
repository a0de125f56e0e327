-- ===== src/Filters/Sanitized.antt =====
-- What the filters let through (proxy/config/filters.go).
use omniswap.Prelude.{
  Bool, true, false, not, ◌&&◌, ◌||◌, List, [], ◌∷◌, ◌≡◌, refl, sym, ◌∙◌, arith, if◌then◌else◌, map,
  is_some, none, Bool-cases, inl, inr,
}
use omniswap.Prelude.Keys.{==_refl}
use omniswap.Prelude.Dict.{Dict, lookup}
use omniswap.Prelude.Text.{
  Text, text_eq, text_beq, text_beq_iff, trim_space, split, is_empty, contains, trim_left,
  trim_right, sort_strings,
}
use omniswap.Prelude.Sorted.{IsSorted, contains-keys, contains-sort_strings, sort_strings-IsSorted}
use omniswap.Filters.{
  Filters, protected_params, comma, clean, sanitized_strip_params, unprotected,
  sanitized_set_params,
}

-- The pieces of the text that may be stripped.
abbrev pub wanted : Text → List Text → Bool
wanted x [] = false
wanted x (piece ∷ pieces) = text_beq (trim_space piece) x || wanted x pieces

-- The case of a piece that is the name, by what the tests of it say.
first_kept :
    (x : Text) (skipped kept : List Text) (p e s w : Bool)
    → contains x skipped ≡ (w && not p && not e && not s)
    → contains x (if p || e || s then skipped else x ∷ kept) ≡ (not p && not e && not s)
unfolding contains
first_kept x skipped kept p e s w h = ground (arith, h, ==_refl x)

contains-clean :
    (x : Text) (seen pieces : List Text)
    → contains x (clean seen pieces) ≡ (
        wanted x pieces
        && not (contains x protected_params)
        && not (is_empty x)
        && not (contains x seen))
unfolding clean contains
contains-clean x seen [] = refl
contains-clean x seen (piece ∷ pieces) =
    let t = trim_space piece in
    elim (Bool-cases (text_beq t x)) [
      | inl e ↦
          let same : t ≡ x = (text_beq_iff t x).0 e in
          rw (same, ==_refl x)
            (first_kept x (clean seen pieces) (clean (x ∷ seen) pieces)
              (contains x protected_params) (is_empty x) (contains x seen) (wanted x pieces)
              (contains-clean x seen pieces))
      | inr e ↦ ground (arith, e, contains-clean x seen pieces, contains-clean x (t ∷ seen) pieces)
    ]

nothing_wanted :
    (x : Text) (p : Bool) → (wanted x (split comma []) && p && not (is_empty x)) ≡ false
unfolding split trim_left trim_right
nothing_wanted [] p = ground arith
nothing_wanted (c ∷ cs) p = refl

is_empty_nil : (s : Text) → is_empty s ≡ true → s ≡ []
is_empty_nil [] h = refl
is_empty_nil (c ∷ cs) h = absurd cc

contains-sanitized :
    (x s : Text)
    → contains x (if is_empty s then [] else sort_strings (clean [] (split comma s)))
      ≡ (wanted x (split comma s) && not (contains x protected_params) && not (is_empty x))
unfolding contains
contains-sanitized x s = elim (Bool-cases (is_empty s)) [
  | inl e ↦ rw (is_empty_nil s e) (sym (nothing_wanted x (not (contains x protected_params))))
  | inr e ↦
      rw
        (e, contains-sort_strings x (clean [] (split comma s)), contains-clean x [] (split comma s))
        (ground arith)
]

contains-sanitized_strip_params :
    {V : Type 0} (x : Text) (f : Filters V)
    → contains x (sanitized_strip_params f) ≡ (
        wanted x (split comma f.strip_params)
        && not (contains x protected_params)
        && not (is_empty x))
unfolding sanitized_strip_params
contains-sanitized_strip_params x f = contains-sanitized x f.strip_params

sanitized_strip_params-IsSorted : {V : Type 0} (f : Filters V) → IsSorted (sanitized_strip_params f)
unfolding sanitized_strip_params
sanitized_strip_params-IsSorted f = elim (Bool-cases (is_empty f.strip_params)) [
  | inl e ↦ rw (e, sanitized_strip_params) tt
  | inr e ↦
      rw (e, sanitized_strip_params) (sort_strings-IsSorted (clean [] (split comma f.strip_params)))
]

-- Stripping removes a parameter exactly if it is a piece of the comma-separated list, less the
-- spaces around it, and neither empty nor "model"; the parameters come in the order of their names.
pub sanitized_strip_params_lem :
    {V : Type 0} (x : Text) (f : Filters V)
    → (contains x (sanitized_strip_params f) ≡ (
        wanted x (split comma f.strip_params)
        && not (contains x protected_params)
        && not (is_empty x)))
      × IsSorted (sanitized_strip_params f)
sanitized_strip_params_lem x f =
    (contains-sanitized_strip_params x f, sanitized_strip_params-IsSorted f)

lookup-unprotected :
    {V : Type 0} (x : Text) (dict : Dict Text V)
    → lookup x (unprotected dict) ≡ (if contains x protected_params then none else lookup x dict)
unfolding unprotected contains
lookup-unprotected x [] = ground arith
lookup-unprotected x ((key, v) ∷ rest) = elim (Bool-cases (text_beq key x)) [
  | inl e ↦
      let same : key ≡ x = (text_beq_iff key x).0 e in
      rw same (ground (arith, lookup-unprotected x rest, ==_refl x))
  | inr e ↦ ground (arith, e, lookup-unprotected x rest)
]

-- Setting overrides a parameter exactly if it is configured and not "model", with the configured
-- value, and lists exactly the keys of these, in their order.
pub lookup-sanitized_set_params :
    {V : Type 0} (x : Text) (f : Filters V)
    → (lookup x (sanitized_set_params f).0
        ≡ (if contains x protected_params then none else lookup x f.set_params))
      × (contains x (sanitized_set_params f).1 ≡ is_some (lookup x (sanitized_set_params f).0))
      × IsSorted (sanitized_set_params f).1
unfolding sanitized_set_params
lookup-sanitized_set_params x f =
    let result = unprotected f.set_params in
    (
      lookup-unprotected x f.set_params,
      contains-sort_strings x (map (λ entry. entry.0) result) ∙ contains-keys x result,
      sort_strings-IsSorted (map (λ entry. entry.0) result),
    )
