-- ===== src/Macros/Tests.antt =====
-- Tests and witnesses of the macros.
use omniswap.Prelude.{false, none, some, All, ◌⊎◌, [], ◌∷◌, ◌++◌, ◌≡◌, refl}
use omniswap.Prelude.Text.{Text, has_prefix}
use omniswap.Macros.{
  text, scalar, items, item, no_items, macro_slug, port_name, substitute_macro_in_value,
  replace_from, contains_text, shown, validate_macro, valid_value, is_name_rune, sanitize_env_value,
  quote, backslash, macro_references, references, name_before_brace,
}
use omniswap.Macros.Escaped.{Kept, sanitize_env_value-escape}

-- A direct reference keeps the type of the value, and one inside a text is printed.
direct_test :
    substitute_macro_in_value (97 ∷ []) (scalar (55 ∷ [])) (
      items
        (item (text (macro_slug (97 ∷ []))) (item (text (120 ∷ macro_slug (97 ∷ []))) no_items)))
    ≡ items (item (scalar (55 ∷ [])) (item (text (120 ∷ 55 ∷ [])) no_items))
unfolding substitute_macro_in_value replace_from contains_text shown has_prefix
direct_test = refl

reserved_test : validate_macro (record { name = port_name; value = scalar (55 ∷ []) }) ≡ false
unfolding validate_macro valid_value is_name_rune
reserved_test = refl

-- "${a}${}${b": one reference.
references_test :
    macro_references (macro_slug (97 ∷ []) ++ (macro_slug [] ++ (36 ∷ 123 ∷ 98 ∷ [])))
    ≡ (97 ∷ []) ∷ []
unfolding references name_before_brace is_name_rune has_prefix
references_test = refl

-- A backslash and a quote.
abbrev safe : Text
safe = backslash ∷ backslash ∷ backslash ∷ quote ∷ []

sanitize_env_value-escape_example :
    (All Kept (backslash ∷ quote ∷ []) × (sanitize_env_value (backslash ∷ quote ∷ []) ≡ some safe))
    ⊎ ((¬ All Kept (backslash ∷ quote ∷ [])) × (sanitize_env_value (backslash ∷ quote ∷ []) ≡ none))
sanitize_env_value-escape_example = sanitize_env_value-escape (backslash ∷ quote ∷ [])
