-- ===== src/Inference/Body.antt =====
-- What the filters do to the body of a request (proxy/proxymanager.go).
use omniswap.Prelude.{
  Bool, true, false, ◌&&◌, Option, none, some, List, [], ◌∷◌, ◌≡◌, ap, if◌then◌else◌, arith,
  Option-cases, Bool-cases, inl, inr, All,
}
use omniswap.Prelude.Keys.{◌==◌}
use omniswap.Prelude.Dict.{Dict, lookup}
use omniswap.Prelude.Text.{Text, text_eq, contains}
use omniswap.Filters.{
  Filters, model_word, protected_params, sanitized_strip_params, sanitized_set_params,
}
use omniswap.Filters.Sanitized.{sanitized_strip_params_lem, lookup-sanitized_set_params}
use omniswap.Inference.{Json, strip_params, set_params, value_at, apply_filters, rewrite_model}

-- What the code relies on of gjson and sjson, for keys that are plain, without the characters that
-- have a meaning in a path, and bodies that are distinct, objects that give no name twice: a value
-- that is set is read back, one that is deleted is gone, another key keeps its value, and the body
-- stays distinct. A deletion from a body that gives the name twice may leave the other one.
pub record IsJson {B V : Type 0} (j : Json B V) (plain : Text → Bool) (distinct : B → Bool)
    : Type 0 where
  pub get-set_bytes :
      (body body' : B) (key other : Text) (v : V)
      → plain key ≡ true
      → plain other ≡ true
      → distinct body ≡ true
      → j.set_bytes body key v ≡ some body'
      → (distinct body' ≡ true)
        × (j.get body' other ≡ (if key == other then some v else j.get body other))
  pub get-delete_bytes :
      (body body' : B) (key other : Text)
      → plain key ≡ true
      → plain other ≡ true
      → distinct body ≡ true
      → j.delete_bytes body key ≡ some body'
      → (distinct body' ≡ true)
        × (j.get body' other ≡ (if key == other then none else j.get body other))

abbrev pub AllPlain : (Text → Bool) → List Text → Type 0
AllPlain plain keys = All (λ key. plain key ≡ true) keys

-- The value of a parameter that some filters leave of a value: "model" is protected, a configured
-- value wins, and a stripped one is gone.
abbrev pub filtered : {V : Type 0} → Filters V → Text → Option V → Option V
filtered f other before =
    if contains other protected_params then before else elim (lookup other f.set_params) [
      | some v ↦ some v
      | none ↦ if contains other (sanitized_strip_params f) then none else before
    ]

-- The keys that some filters edit are plain.
abbrev pub PlainFilters : {V : Type 0} → (Text → Bool) → Filters V → Type 0
PlainFilters plain f =
    AllPlain plain (sanitized_strip_params f) × AllPlain plain (sanitized_set_params f).1

module _ {B V : Type 0} (j : Json B V) (plain : Text → Bool) (distinct : B → Bool)
    (w : IsJson j plain distinct) where
  get-strip_params :
      (params : List Text) (body : B) (other : Text) {body' : B}
      → AllPlain plain params
      → plain other ≡ true
      → distinct body ≡ true
      → strip_params j params body ≡ some body'
      → (distinct body' ≡ true)
        × (j.get body' other ≡ (if contains other params then none else j.get body other))
  unfolding strip_params contains
  get-strip_params [] body other h p d e = ground arith
  get-strip_params (param ∷ params) body other {body'} h p d e =
      elim (Option-cases (j.delete_bytes body param)) [
        | inl failed ↦ absurd (ground arith)
        | inr (b, there) ↦
            let (d', gone) = w.get-delete_bytes body b param other h.0 p d there in
            let (d'', rest) =
              get-strip_params params b other {body' = body'} h.1 p d' (ground arith) in
            (d'', ground (arith, rest, gone))
      ]

  get-set_params :
      (values : Dict Text V) (keys : List Text) (body : B) (other : Text) {body' : B}
      → AllPlain plain keys
      → plain other ≡ true
      → distinct body ≡ true
      → set_params j values keys body ≡ some body'
      → (distinct body' ≡ true)
        × (j.get body' other
            ≡ (if contains other keys then some (value_at j other values) else j.get body other))
  unfolding set_params contains
  get-set_params values [] body other h p d e = ground arith
  get-set_params values (key ∷ keys) body other {body'} h p d e =
      elim (Option-cases (j.set_bytes body key (value_at j key values))) [
        | inl failed ↦ absurd (ground arith)
        | inr (b, there) ↦
            let (d', placed) =
              w.get-set_bytes body b key other (value_at j key values) h.0 p d there in
            let (d'', rest) =
              get-set_params values keys b other {body' = body'} h.1 p d' (ground arith) in
            (
              d'',
              elim (Bool-cases (key == other)) [
                | inl same ↦
                    let eq : key ≡ other = (text_eq.beq_iff key other).0 same in
                    ground (arith, rest, placed, ap (λ (k : Text). value_at j k values) eq)
                | inr differs ↦ ground (arith, rest, placed)
              ],
            )
      ]

  pub get-apply_filters :
      (f : Filters V) (body : B) (other : Text) {body' : B}
      → PlainFilters plain f
      → plain other ≡ true
      → distinct body ≡ true
      → apply_filters j f body ≡ some body'
      → j.get body' other ≡ filtered f other (j.get body other)
  unfolding apply_filters
  get-apply_filters f body other {body'} h p d e =
      elim (Option-cases (strip_params j (sanitized_strip_params f) body)) [
        | inl failed ↦ absurd (ground arith)
        | inr (b, there) ↦
            let set = lookup-sanitized_set_params other f in
            let stripped = (sanitized_strip_params_lem other f).0 in
            let (d', before) =
              get-strip_params (sanitized_strip_params f) body other {body' = b} h.0 p d there in
            let after =
              get-set_params (sanitized_set_params f).0 (sanitized_set_params f).1 b other
                {body' = body'} h.1 p d' (ground arith) in
            ground (arith, before, after.1)
      ]

  pub get-rewrite_model :
      (wanted : Bool) (name : Text) (body : B) (other : Text) {body' : B}
      → plain model_word ≡ true
      → plain other ≡ true
      → distinct body ≡ true
      → rewrite_model j wanted name body ≡ some body'
      → (distinct body' ≡ true)
        × (j.get body' other ≡ (
            if wanted && model_word == other then some (j.text_value name) else j.get body other))
  unfolding rewrite_model
  get-rewrite_model true name body other {body'} m p d e =
      w.get-set_bytes body body' model_word other (j.text_value name) m p d e
  get-rewrite_model false name body other {body'} m p d e = ground arith
