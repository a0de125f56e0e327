-- ===== src/Macros.antt =====
-- The macros of a configuration (proxy/config/config.go): their names and values, the substitution in
-- texts and in nested values, the references that are left, and environment variables. A text is a
-- list of bytes. The regular expressions are written out as scans. Texts of errors are left out: an
-- error is `none` or `false`.
pub mod Escaped
mod Tests
use omniswap.Prelude.{
  ℕ, suc, zero, ◌-◌, Bool, true, false, not, ◌&&◌, ◌||◌, Option, none, some, List, [], ◌∷◌, ◌++◌,
  if◌then◌else◌, length, ltb, leb, nat_beq, is_some,
}
use omniswap.Prelude.Keys.{◌==◌}
use omniswap.Prelude.Dict.{Dict, lookup}
use omniswap.Prelude.Slices.{drop}
use omniswap.Prelude.Text.{Text, text_eq, has_prefix, is_empty, contains}

-- `strings.ReplaceAll` and `strings.Contains` for a text that is not empty; a match that was replaced
-- is skipped.
unfoldable pub replace_from : Text → Text → ℕ → Text → Text
replace_from old new skip [] = []
replace_from old new (suc skip) (c ∷ cs) = replace_from old new skip cs
replace_from old new zero (c ∷ cs) =
    let replaced = new ++ replace_from old new (length old - 1) cs in
    let kept = c ∷ replace_from old new 0 cs in if has_prefix old (c ∷ cs) then replaced else kept

abbrev pub replace_all : Text → Text → Text → Text
replace_all old new s = replace_from old new 0 s

unfoldable pub contains_text : Text → Text → Bool
contains_text part [] = is_empty part
contains_text part (c ∷ cs) = has_prefix part (c ∷ cs) || contains_text part cs

-- "${" and "}"
abbrev pub macro_start : Text
macro_start = 36 ∷ 123 ∷ []

abbrev pub brace : ℕ
brace = 125

abbrev pub macro_slug : Text → Text
macro_slug name = 36 ∷ 123 ∷ (name ++ (brace ∷ []))

-- The bytes of a macro's name: letters, digits, '_' and '-'.
unfoldable pub is_name_rune : ℕ → Bool
is_name_rune c =
    (leb 97 c && leb c 122)
    || (leb 65 c && leb c 90)
    || (leb 48 c && leb c 57)
    || nat_beq c 95
    || nat_beq c 45

abbrev pub all_name_runes : Text → Bool
all_name_runes [] = true
all_name_runes (c ∷ cs) = is_name_rune c && all_name_runes cs

-- A value of a configuration, as YAML gives it. A scalar that is no text is kept as it is printed.
mutual
  pub data Value : Type 0 where
    text : Text → Value
    scalar : Text → Value
    fields : Fields → Value
    items : Items → Value

  pub data Fields : Type 0 where
    no_fields : Fields
    field : Text → Value → Fields → Fields

  pub data Items : Type 0 where
    no_items : Items
    item : Value → Items → Items

-- `MacroEntry`
pub record MacroEntry : Type 0 where
  pub name : Text
  pub value : Value

-- `fmt.Sprintf("%v", …)` of a macro's value, which is a scalar.
unfoldable pub shown : Value → Text
shown (text t) = t
shown (scalar t) = t
shown (fields fs) = []
shown (items vs) = []

-- "PORT" and "MODEL_ID"
abbrev pub port_name : Text
port_name = 80 ∷ 79 ∷ 82 ∷ 84 ∷ []

abbrev pub model_id_name : Text
model_id_name = 77 ∷ 79 ∷ 68 ∷ 69 ∷ 76 ∷ 95 ∷ 73 ∷ 68 ∷ []

-- The switch of `validateMacro` on the value.
unfoldable pub valid_value : Text → Value → Bool
valid_value name (text t) = ltb (length t) 1024 && not (contains_text (macro_slug name) t)
valid_value name (scalar t) = true
valid_value name (fields fs) = false
valid_value name (items vs) = false

-- `validateMacro`; the length of a name is in bytes.
unfoldable pub validate_macro : MacroEntry → Bool
validate_macro m =
    ltb (length m.name) 64
    && not (is_empty m.name)
    && all_name_runes m.name
    && valid_value m.name m.value
    && not (m.name == port_name)
    && not (m.name == model_id_name)

-- `substituteMacroInValue`
abbrev pub substitute_in_text : Text → Value → Text → Value
substitute_in_text name v t =
    if t == macro_slug name
    then v
    else if contains_text (macro_slug name) t
    then text (replace_all (macro_slug name) (shown v) t)
    else text t

unfoldable mutual
  pub substitute_macro_in_value : Text → Value → Value → Value
  substitute_macro_in_value name v (text t) = substitute_in_text name v t
  substitute_macro_in_value name v (scalar t) = scalar t
  substitute_macro_in_value name v (fields fs) = fields (substitute_in_fields name v fs)
  substitute_macro_in_value name v (items vs) = items (substitute_in_items name v vs)

  pub substitute_in_fields : Text → Value → Fields → Fields
  substitute_in_fields name v no_fields = no_fields
  substitute_in_fields name v (field key w rest) =
      field key (substitute_macro_in_value name v w) (substitute_in_fields name v rest)

  pub substitute_in_items : Text → Value → Items → Items
  substitute_in_items name v no_items = no_items
  substitute_in_items name v (item w rest) =
      item (substitute_macro_in_value name v w) (substitute_in_items name v rest)

-- A name of allowed bytes and the brace that ends it.
abbrev pub longer_by : ℕ → Option Text → Option Text
longer_by c none = none
longer_by c (some cs) = some (c ∷ cs)

unfoldable pub name_before_brace : (ℕ → Bool) → Text → Option Text
name_before_brace allowed [] = none
name_before_brace allowed (c ∷ cs) =
    let rest = name_before_brace allowed cs in
    if nat_beq c brace then some [] else if allowed c then longer_by c rest else none

-- The name at the start of a text, where a match of a pattern starts.
abbrev pub reference_at : Text → (ℕ → Bool) → Text → Option Text
reference_at start allowed s =
    if has_prefix start s then name_before_brace allowed (drop (length start) s) else none

-- The names that a pattern matches in a text, in order. A match holds one '$', at its start, so that
-- no match overlaps another one.
unfoldable pub references : Text → (ℕ → Bool) → (Text → Bool) → Text → List Text
references start allowed is_name [] = []
references start allowed is_name (c ∷ cs) =
    let rest = references start allowed is_name cs in
    elim (reference_at start allowed (c ∷ cs)) [
      | none ↦ rest
      | some name ↦ if is_name name then name ∷ rest else rest
    ]

-- `macroPatternRegex`
abbrev pub macro_references : Text → List Text
macro_references s = references macro_start is_name_rune (λ name. not (is_empty name)) s

-- "${env.", and `envMacroRegex`: its names start with a letter or '_'.
abbrev pub env_start : Text
env_start = 36 ∷ 123 ∷ 101 ∷ 110 ∷ 118 ∷ 46 ∷ []

unfoldable pub is_env_rune : ℕ → Bool
is_env_rune c = is_name_rune c && not (nat_beq c 45)

abbrev pub is_env_name : Text → Bool
is_env_name [] = false
is_env_name (c ∷ cs) = not (leb 48 c && leb c 57)

abbrev pub env_references : Text → List Text
env_references s = references env_start is_env_rune is_env_name s

-- `validateNestedForUnknownMacros`
unfoldable mutual
  pub no_unknown_macros : Value → Bool
  no_unknown_macros (text t) = is_empty (macro_references t) && is_empty (env_references t)
  no_unknown_macros (scalar t) = true
  no_unknown_macros (fields fs) = no_unknown_in_fields fs
  no_unknown_macros (items vs) = no_unknown_in_items vs

  pub no_unknown_in_fields : Fields → Bool
  no_unknown_in_fields no_fields = true
  no_unknown_in_fields (field key v rest) = no_unknown_macros v && no_unknown_in_fields rest

  pub no_unknown_in_items : Items → Bool
  no_unknown_in_items no_items = true
  no_unknown_in_items (item v rest) = no_unknown_macros v && no_unknown_in_items rest

-- The model's macros over the global ones: the first entry of the name is replaced, or a new one is
-- added at the end.
unfoldable pub override : MacroEntry → List MacroEntry → List MacroEntry
override entry [] = entry ∷ []
override entry (existing ∷ rest) =
    let later = override entry rest in
    if existing.name == entry.name then entry ∷ rest else existing ∷ later

unfoldable pub merge_macros : List MacroEntry → List MacroEntry → List MacroEntry
merge_macros merged [] = merged
merge_macros merged (entry ∷ entries) = merge_macros (override entry merged) entries

-- '\\' and '"'
abbrev pub backslash : ℕ
backslash = 92

abbrev pub quote : ℕ
quote = 34

abbrev pub breaks_yaml : Text → Bool
breaks_yaml [] = false
breaks_yaml (c ∷ cs) = nat_beq c 10 || nat_beq c 13 || nat_beq c 0 || breaks_yaml cs

-- `sanitizeEnvValueForYAML`
unfoldable pub sanitize_env_value : Text → Option Text
sanitize_env_value value =
    if breaks_yaml value
    then none
    else some (
        replace_all (quote ∷ []) (backslash ∷ quote ∷ [])
          (replace_all (backslash ∷ []) (backslash ∷ backslash ∷ []) value))

-- The loop of `substituteEnvMacrosInString` over the matches; `env` is the environment.
unfoldable pub substitute_env : (Text → Option Text) → List Text → Text → Option Text
substitute_env env [] result = some result
substitute_env env (name ∷ names) result = elim (env name) [
  | none ↦ none
  | some raw ↦ elim (sanitize_env_value raw) [
    | none ↦ none
    | some value ↦
        substitute_env env names (replace_all (env_start ++ (name ++ (brace ∷ []))) value result)
  ]
]

-- `substituteEnvMacrosInString`
unfoldable pub substitute_env_macros_in_string : (Text → Option Text) → Text → Text → Option Text
substitute_env_macros_in_string env target scan = substitute_env env (env_references scan) target
