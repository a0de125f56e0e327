-- ===== src/PeerAddress/Resolve/Pick.antt =====
-- The pick of a model by its capability (proxy/peeraddress.go).
use omniswap.Prelude.{
  is_some, ℕ, Bool, true, not, ◌||◌, some, List, [], ◌∷◌, ◌≡◌, ◌≢◌, ◌⊎◌, refl, sym, ap, ◌∙◌, arith,
  map, Bool-cases, Option-cases, inl, inr,
}
use omniswap.Prelude.Dict.{Dict, lookup}
use omniswap.Prelude.Text.{Text, text_eq, text_beq_iff, contains, sort_strings}
use omniswap.Prelude.Sorted.{contains-sort_strings, contains-keys}
use omniswap.PeerAddress.Grammar.{ModelModality, modality_satisfies}
use omniswap.PeerAddress.Snapshot.{PeerLoadedSet}
use omniswap.PeerAddress.Resolve.{first_satisfying, first_model_matching_caps}

contains-lookup :
    {V : Type 0} (x : Text) (v : V) (dict : Dict Text V)
    → lookup x dict ≡ some v
    → contains x (map (λ entry. entry.0) dict) ≡ true
contains-lookup x v dict h = contains-keys x dict ∙ ap is_some h

module _ (same_fold : ℕ → ℕ → Bool) (ins outs : List Text)
    (modalities : Dict Text ModelModality) where
  -- A name in the dictionary with a signature that satisfies the request.
  abbrev pub IsCapable : Text → Type 0
  IsCapable id =
      (sig : ModelModality) × (lookup id modalities ≡ some sig)
      × (modality_satisfies same_fold sig ins outs ≡ true)

  -- The first name is taken or passed over.
  first_satisfying-cases :
      (x : Text) (ids : List Text)
      → (IsCapable x × (first_satisfying same_fold ins outs modalities (x ∷ ids) ≡ some x))
        ⊎ ((¬ IsCapable x)
            × (first_satisfying same_fold ins outs modalities (x ∷ ids)
                ≡ first_satisfying same_fold ins outs modalities ids))
  unfolding first_satisfying
  first_satisfying-cases x ids = elim (Option-cases (lookup x modalities)) [
    | inl e ↦ inr ((λ c. absurd cc), rw (e, first_satisfying) refl)
    | inr (sig, e) ↦ elim (Bool-cases (modality_satisfies same_fold sig ins outs)) [
      | inl k ↦ inl ((sig, e, k), rw (e, k, first_satisfying) refl)
      | inr k ↦ inr ((λ c. let (other, l, s) = c in absurd cc), rw (e, k, first_satisfying) refl)
    ]
  ]

  first_satisfying-IsCapable :
      (ids : List Text) (id : Text)
      → first_satisfying same_fold ins outs modalities ids ≡ some id
      → IsCapable id × (contains id ids ≡ true)
  unfolding first_satisfying contains
  first_satisfying-IsCapable [] id h = absurd cc
  first_satisfying-IsCapable (x ∷ ids) id h = elim (first_satisfying-cases x ids) [
    | inl (c, e) ↦ let same : x ≡ id = cc in (rw (sym same) c, ground (arith, text_beq_iff x id))
    | inr (c, e) ↦
        let there = first_satisfying-IsCapable ids id (sym e ∙ h) in
        (there.0, ground (arith, there.1))
  ]

  later :
      (x : Text) (ids : List Text) (id : Text)
      → contains id (x ∷ ids) ≡ true
      → x ≢ id
      → contains id ids ≡ true
  unfolding contains
  later x ids id h k = ground (arith, text_beq_iff x id)

  first_satisfying_finds :
      (ids : List Text) (id : Text)
      → contains id ids ≡ true
      → IsCapable id
      → (found : Text) × (first_satisfying same_fold ins outs modalities ids ≡ some found)
  unfolding first_satisfying contains
  first_satisfying_finds [] id h c = absurd cc
  first_satisfying_finds (x ∷ ids) id h c = elim (first_satisfying-cases x ids) [
    | inl (k, e) ↦ (x, e)
    | inr (k, e) ↦
        let (found, f) =
          first_satisfying_finds ids id (later x ids id h (λ same. k (rw same c))) c in
        (found, e ∙ f)
  ]

-- Of a peer on which some model is capable, a capable one is picked, and one that is loaded if one
-- that is loaded is capable. A capable model has a signature with every input and output asked for.
pub first_model_matching_caps-IsCapable :
    (same_fold : ℕ → ℕ → Bool) (ins outs : List Text) (loaded : PeerLoadedSet) (id : Text)
    → IsCapable same_fold ins outs loaded.modalities id
    → (found : Text) × (first_model_matching_caps same_fold ins outs loaded ≡ some found)
      × IsCapable same_fold ins outs loaded.modalities found
      × ((not (contains id loaded.order) || contains found loaded.order) ≡ true)
unfolding first_model_matching_caps
first_model_matching_caps-IsCapable same_fold ins outs loaded id c =
    let keys = sort_strings (map (λ entry. entry.0) loaded.modalities) in
    let listed : contains id keys ≡ true =
      contains-sort_strings id (map (λ entry. entry.0) loaded.modalities)
      ∙ contains-lookup id c.0 loaded.modalities c.1 in
    elim (Option-cases (first_satisfying same_fold ins outs loaded.modalities loaded.order)) [
      | inr (found, e) ↦
          let hot =
            first_satisfying-IsCapable same_fold ins outs loaded.modalities loaded.order found e in
          (found, rw (e, first_model_matching_caps) refl, hot.0, ground (arith, hot.1))
      | inl e ↦
          let (found, f) =
            first_satisfying_finds same_fold ins outs loaded.modalities keys id listed c in
          let cold = first_satisfying-IsCapable same_fold ins outs loaded.modalities keys found f in
          (
            found,
            rw (e, f, first_model_matching_caps) refl,
            cold.0,
            elim (Bool-cases (contains id loaded.order)) [
              | inl k ↦
                  let (other, g) =
                    first_satisfying_finds same_fold ins outs loaded.modalities loaded.order id k
                      c in
                  absurd cc
              | inr k ↦ rw k refl
            ],
          )
    ]

pub first_model_matching_caps_lem :
    (same_fold : ℕ → ℕ → Bool) (ins outs : List Text) (loaded : PeerLoadedSet) (id : Text)
    → first_model_matching_caps same_fold ins outs loaded ≡ some id
    → IsCapable same_fold ins outs loaded.modalities id
unfolding first_model_matching_caps
first_model_matching_caps_lem same_fold ins outs loaded id h =
    let keys = sort_strings (map (λ entry. entry.0) loaded.modalities) in
    elim (Option-cases (first_satisfying same_fold ins outs loaded.modalities loaded.order)) [
      | inr (hot, e) ↦
          let same : hot ≡ id = ground (arith, e, h) in
          (first_satisfying-IsCapable same_fold ins outs loaded.modalities loaded.order id
            (e ∙ ap some same)).0
      | inl e ↦
          let cold : first_satisfying same_fold ins outs loaded.modalities keys ≡ some id =
            ground (arith, e, h) in
          (first_satisfying-IsCapable same_fold ins outs loaded.modalities keys id cold).0
    ]
