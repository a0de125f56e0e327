-- ===== src/PeerAddress/Grammar.antt =====
-- The grammar of an address (proxy/peeraddress.go). The message of an error is left out, its HTTP
-- code is kept. `to_lower` and `same_fold` stand for Unicode's case tables.
use omniswap.Prelude.{
  ℕ, Bool, true, false, not, ◌&&◌, ◌||◌, List, [], ◌∷◌, if◌then◌else◌, nat_beq, map, ◌≡◌, refl, ◌⊎◌,
  inl, inr,
}
use omniswap.Prelude.Text.{
  Text, trim_space, count_of, before, after, split, has_prefix, trim_prefix, all_but_last, ends_in,
  equal_fold, is_empty,
}

-- A value, or an `addrError` with its code.
pub data Result {ℓ} (A : Type ℓ) : Type ℓ where
  failed : ℕ → Result A
  ok : A → Result A

pub Result-cases {ℓ} :
    {A : Type ℓ} (r : Result A) → ((code : ℕ) × (r ≡ failed code)) ⊎ ((a : A) × (r ≡ ok a))
Result-cases (failed code) = inl (code, refl)
Result-cases (ok a) = inr (a, refl)

abbrev pub bad_request : ℕ
bad_request = 400

abbrev pub service_unavailable : ℕ
service_unavailable = 503

-- '@', '[', ']' and ','; "any" and "to".
abbrev pub at_sign : ℕ
at_sign = 64

abbrev pub open_bracket : ℕ
open_bracket = 91

abbrev pub close_bracket : ℕ
close_bracket = 93

abbrev pub comma : ℕ
comma = 44

abbrev pub any_alias : Text
any_alias = 97 ∷ 110 ∷ 121 ∷ []

abbrev pub to_word : Text
to_word = 116 ∷ 111 ∷ []

-- What `splitAddress` returns.
pub record Address : Type 0 where
  pub model : Text
  pub node : Text
  pub has_at : Bool

unfoldable pub split_address : Text → Result Address
split_address raw =
    let s = trim_space raw in
    let places = count_of at_sign s in
    if nat_beq places 0
    then ok (record { model = s; node = []; has_at = false })
    else if nat_beq places 1
    then ok (record {
      model = trim_space (before at_sign s);
      node = trim_space (after at_sign s);
      has_at = true;
    })
    else failed bad_request

-- `modelModality`
pub record ModelModality : Type 0 where
  pub input : List Text
  pub output : List Text

-- What `parseCapability` returns: no capability expression, or the two sets that are asked for.
pub data Request : Type 0 where
  plain : Request
  capability : List Text → List Text → Request

unfoldable pub keep_tokens : List Text → List Text
keep_tokens [] = []
keep_tokens (piece ∷ pieces) =
    let rest = keep_tokens pieces in
    let t = trim_space piece in if is_empty t then rest else t ∷ rest

unfoldable pub split_modality_csv : Text → List Text
split_modality_csv s = keep_tokens (split comma s)

-- The part of `parseCapability` after the first closing bracket.
unfoldable pub parse_output : Text → Text → Result Request
parse_output ins after_in =
    let rest = trim_space after_in in
    let outs = trim_space (trim_prefix to_word rest) in
    if not (has_prefix to_word rest)
    then failed bad_request
    else if not (has_prefix (open_bracket ∷ []) outs) || not (ends_in close_bracket outs)
    then failed bad_request
    else ok (
        capability (split_modality_csv ins)
          (split_modality_csv (all_but_last (trim_prefix (open_bracket ∷ []) outs))))

-- `parseCapability`, after the `any` is taken off.
unfoldable pub parse_expression : Text → Result Request
parse_expression s =
    if not (has_prefix (open_bracket ∷ []) s)
    then ok plain
    else if nat_beq (count_of close_bracket s) 0
    then failed bad_request
    else parse_output (before close_bracket (trim_prefix (open_bracket ∷ []) s))
        (after close_bracket s)

-- `parseCapability`
unfoldable pub parse_capability : (ℕ → ℕ) → Text → Result Request
parse_capability to_lower raw =
    parse_expression (trim_space (trim_prefix any_alias (map to_lower (trim_space raw))))

module _ (same_fold : ℕ → ℕ → Bool) where
  -- `isWildcard`
  unfoldable pub is_wildcard : Text → Bool
  is_wildcard s = is_empty s || equal_fold same_fold s any_alias

  unfoldable pub has_fold : List Text → Text → Bool
  has_fold [] w = false
  has_fold (h ∷ have) w = equal_fold same_fold h w || has_fold have w

  unfoldable pub contains_all_fold : List Text → List Text → Bool
  contains_all_fold have [] = true
  contains_all_fold have (w ∷ want) = has_fold have w && contains_all_fold have want

  unfoldable pub modality_satisfies : ModelModality → List Text → List Text → Bool
  modality_satisfies sig req_in req_out =
      contains_all_fold sig.input req_in && contains_all_fold sig.output req_out
