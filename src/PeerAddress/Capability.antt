-- ===== src/PeerAddress/Capability.antt =====
-- The capability expressions `any[<in>]to[<out>]` (proxy/peeraddress.go): what is printed is read back.
use omniswap.Prelude.{
  ℕ, Bool, true, false, List, [], ◌∷◌, ◌++◌, ◌≡◌, refl, sym, ap, ◌∙◌, arith, if◌then◌else◌, nat_beq,
  map, All, ++_assoc,
}
use omniswap.Prelude.Text.{
  Text, is_space, trim_left, trim_right, trim_space, count_of, before, after, split, has_prefix,
  trim_prefix, all_but_last, ends_in, is_empty,
}
use omniswap.PeerAddress.Grammar.{
  ok, any_alias, to_word, open_bracket, close_bracket, comma, capability, keep_tokens,
  split_modality_csv, parse_output, parse_expression, parse_capability,
}
use omniswap.Prelude.Split.{split_none, split-++}
use omniswap.Prelude.Trim.{trim_left-++, trim_right-++}
use omniswap.PeerAddress.Split.{before-++, after-++, count_of-++}

-- A token that a set may hold: not empty, without comma and closing bracket, and with no space at its
-- ends.
pub record IsToken (t : Text) : Type 0 where
  pub nonempty : is_empty t ≡ false
  pub no_comma : count_of comma t ≡ 0
  pub no_bracket : count_of close_bracket t ≡ 0
  pub trimmed : trim_space t ≡ t

-- The tokens with commas between them.
abbrev pub join : List Text → Text
join [] = []
join (t ∷ []) = t
join (t ∷ u ∷ us) = t ++ (comma ∷ join (u ∷ us))

keep_tokens_token :
    (t : Text) (pieces : List Text) → IsToken t → keep_tokens (t ∷ pieces) ≡ t ∷ keep_tokens pieces
unfolding keep_tokens
keep_tokens_token t pieces h = rw (h.trimmed, h.nonempty) refl

split_modality_csv-join : (ts : List Text) → All IsToken ts → split_modality_csv (join ts) ≡ ts
unfolding split_modality_csv split keep_tokens trim_left trim_right
split_modality_csv-join [] h = refl
split_modality_csv-join (t ∷ []) (k, h) =
    ap keep_tokens (split_none comma t k.no_comma) ∙ keep_tokens_token t [] k
split_modality_csv-join (t ∷ u ∷ us) (k, h) =
    let rest = join (u ∷ us) in
    ap keep_tokens (split-++ comma t rest k.no_comma)
    ∙ keep_tokens_token t (split comma rest) k
    ∙ ap (◌∷◌ t) (split_modality_csv-join (u ∷ us) h)

no_bracket-join : (ts : List Text) → All IsToken ts → count_of close_bracket (join ts) ≡ 0
unfolding count_of
no_bracket-join [] h = refl
no_bracket-join (t ∷ []) (k, h) = k.no_bracket
no_bracket-join (t ∷ u ∷ us) (k, h) = omega (
  arith,
  count_of-++ close_bracket t (comma ∷ join (u ∷ us)),
  k.no_bracket,
  no_bracket-join (u ∷ us) h,
)

close_bracket_kept : is_space close_bracket ≡ false
unfolding is_space
close_bracket_kept = refl

trim_right_nil : trim_right [] ≡ []
unfolding trim_right
trim_right_nil = refl

-- A text between two runes that are no spaces, of which the second is a closing bracket.
trim_space_between :
    (c : ℕ) (xs : Text)
    → is_space c ≡ false
    → trim_space (c ∷ (xs ++ (close_bracket ∷ []))) ≡ c ∷ (xs ++ (close_bracket ∷ []))
unfolding trim_left
trim_space_between c xs h =
    ap trim_right (trim_left-++ [] c (xs ++ (close_bracket ∷ [])) h)
    ∙ trim_right-++ (c ∷ xs) close_bracket [] close_bracket_kept
    ∙ ap (λ e. c ∷ (xs ++ (close_bracket ∷ e))) trim_right_nil

ends_in-++ : (r : ℕ) (xs : Text) → ends_in r (xs ++ (r ∷ [])) ≡ true
unfolding ends_in
ends_in-++ r [] = ground arith
ends_in-++ r (x ∷ []) = ground arith
ends_in-++ r (x ∷ y ∷ xs) = ends_in-++ r (y ∷ xs)

all_but_last-++ : (r : ℕ) (xs : Text) → all_but_last (xs ++ (r ∷ [])) ≡ xs
unfolding all_but_last
all_but_last-++ r [] = refl
all_but_last-++ r (x ∷ []) = refl
all_but_last-++ r (x ∷ y ∷ xs) = ap (◌∷◌ x) (all_but_last-++ r (y ∷ xs))

-- `to[<out>]` and `[<in>]to[<out>]`
abbrev pub output_text : List Text → Text
output_text outs = to_word ++ (open_bracket ∷ (join outs ++ (close_bracket ∷ [])))

abbrev pub bracket_text : List Text → List Text → Text
bracket_text ins outs = open_bracket ∷ (join ins ++ (close_bracket ∷ output_text outs))

parse_output-output_text :
    (ins : Text) (outs : List Text)
    → All IsToken outs
    → parse_output ins (output_text outs) ≡ ok (capability (split_modality_csv ins) outs)
unfolding parse_output has_prefix trim_prefix is_space
parse_output-output_text ins outs h =
    rw
      (
        trim_space_between 116 (111 ∷ open_bracket ∷ join outs) refl,
        trim_space_between open_bracket (join outs) refl,
        ends_in-++ close_bracket (open_bracket ∷ join outs),
        all_but_last-++ close_bracket (join outs),
        split_modality_csv-join outs h,
      )
      refl

bracket_text_shape :
    (ins outs : List Text)
    → bracket_text ins outs
      ≡ open_bracket
        ∷ ((join ins ++ (close_bracket ∷ 116 ∷ 111 ∷ open_bracket ∷ join outs))
            ++ (close_bracket ∷ []))
bracket_text_shape ins outs = ap (◌∷◌ open_bracket) (
    sym (
      ++_assoc (join ins) (close_bracket ∷ 116 ∷ 111 ∷ open_bracket ∷ join outs)
        (close_bracket ∷ [])))

trim_space-bracket_text :
    (ins outs : List Text) → trim_space (bracket_text ins outs) ≡ bracket_text ins outs
unfolding is_space
trim_space-bracket_text ins outs = rw (bracket_text_shape ins outs) (
    trim_space_between open_bracket
      (join ins ++ (close_bracket ∷ 116 ∷ 111 ∷ open_bracket ∷ join outs)) refl)

trim_space-any_alias :
    (ins outs : List Text)
    → trim_space (any_alias ++ bracket_text ins outs) ≡ any_alias ++ bracket_text ins outs
unfolding is_space
trim_space-any_alias ins outs = rw (bracket_text_shape ins outs) (
    trim_space_between 97
      (110
        ∷ 121
        ∷ open_bracket
        ∷ (join ins ++ (close_bracket ∷ 116 ∷ 111 ∷ open_bracket ∷ join outs)))
      refl)

any_alias_absent :
    (ins outs : List Text) → trim_prefix any_alias (bracket_text ins outs) ≡ bracket_text ins outs
unfolding trim_prefix has_prefix
any_alias_absent ins outs = refl

any_alias_taken :
    (ins outs : List Text)
    → trim_prefix any_alias (any_alias ++ bracket_text ins outs) ≡ bracket_text ins outs
unfolding trim_prefix has_prefix
any_alias_taken ins outs = refl

parse_expression-bracket_text :
    (ins outs : List Text)
    → All IsToken ins
    → All IsToken outs
    → parse_expression (bracket_text ins outs) ≡ ok (capability ins outs)
unfolding parse_expression has_prefix trim_prefix before after count_of
parse_expression-bracket_text ins outs h k =
    let free : count_of close_bracket (join ins) ≡ 0 = no_bracket-join ins h in
    let some_bracket : nat_beq
          (count_of close_bracket (join ins ++ (close_bracket ∷ output_text outs))) 0
        ≡ false =
      ground (arith, count_of-++ close_bracket (join ins) (close_bracket ∷ output_text outs)) in
    rw
      (
        some_bracket,
        before-++ close_bracket (join ins) (output_text outs) free,
        after-++ close_bracket (join ins) (output_text outs) free,
        parse_output-output_text (join ins) outs k,
        split_modality_csv-join ins h,
      )
      refl

-- A capability expression in lower case is read as the sets of tokens that it was made of, with the
-- `any` before it or without.
pub parse_capability-bracket_text :
    (to_lower : ℕ → ℕ) (with_any : Bool) (ins outs : List Text)
    → map to_lower (any_alias ++ bracket_text ins outs) ≡ any_alias ++ bracket_text ins outs
    → All IsToken ins
    → All IsToken outs
    → parse_capability to_lower
        (if with_any then any_alias ++ bracket_text ins outs else bracket_text ins outs)
      ≡ ok (capability ins outs)
unfolding parse_capability
parse_capability-bracket_text to_lower true ins outs l h k =
    ap parse_expression (
      ap (λ s. trim_space (trim_prefix any_alias (map to_lower s))) (trim_space-any_alias ins outs)
      ∙ ap (λ s. trim_space (trim_prefix any_alias s)) l
      ∙ ap trim_space (any_alias_taken ins outs)
      ∙ trim_space-bracket_text ins outs)
    ∙ parse_expression-bracket_text ins outs h k
parse_capability-bracket_text to_lower false ins outs l h k =
    let lower : map to_lower (bracket_text ins outs) ≡ bracket_text ins outs = cc in
    ap parse_expression (
      ap (λ s. trim_space (trim_prefix any_alias (map to_lower s)))
        (trim_space-bracket_text ins outs)
      ∙ ap (λ s. trim_space (trim_prefix any_alias s)) lower
      ∙ ap trim_space (any_alias_absent ins outs)
      ∙ trim_space-bracket_text ins outs)
    ∙ parse_expression-bracket_text ins outs h k
