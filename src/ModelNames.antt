-- ===== src/ModelNames.antt =====
-- The names of models: aliases, the default group and comments in commands (proxy/config/config.go),
-- and the search of a name in a path (`findModelInPath` and `shouldCollectMetrics` of
-- proxy/proxymanager.go). A configuration keeps what these read; a Go map is a list of entries, and
-- the settings of a model are of any type.
pub mod Grouped
mod Tests
use omniswap.Prelude.{
  ℕ, Bool, true, false, not, ◌||◌, Option, none, some, List, [], ◌∷◌, ◌++◌, if◌then◌else◌, map,
  is_some,
}
use omniswap.Prelude.Keys.{◌==◌}
use omniswap.Prelude.Dict.{Dict, lookup, insert}
use omniswap.Prelude.Text.{
  Text, text_eq, trim_space, split, is_empty, has_prefix, contains, sort_strings,
}

-- `GroupConfig`
pub record GroupConfig : Type 0 where
  pub swap : Bool
  pub exclusive : Bool
  pub persistent : Bool
  pub members : List Text

-- `Config`
pub record Config {ℓ} (M : Type ℓ) : Type ℓ where
  pub models : Dict Text M
  pub aliases : Dict Text Text
  pub groups : Dict Text GroupConfig

-- `RealModelName`
unfoldable pub real_model_name {ℓ} : {M : Type ℓ} → Config M → Text → Option Text
real_model_name c search =
    if is_some (lookup search c.models) then some search else lookup search c.aliases

-- `FindConfig`, without the zero value that a missing entry gives: `none` also stands for it.
unfoldable pub find_config {ℓ} : {M : Type ℓ} → Config M → Text → Option (Option M × Text)
find_config c name = elim (real_model_name c name) [
  | none ↦ none
  | some real ↦ some (lookup real c.models, real)
]

-- "(default)"
unfoldable pub default_group_id : Text
default_group_id = 40 ∷ 100 ∷ 101 ∷ 102 ∷ 97 ∷ 117 ∷ 108 ∷ 116 ∷ 41 ∷ []

-- The search for a model in the groups that are there.
unfoldable pub found_model : Text → Dict Text GroupConfig → Bool
found_model model [] = false
found_model model ((id, g) ∷ rest) = contains model g.members || found_model model rest

-- The models that no group has.
unfoldable pub orphans {ℓ} : {M : Type ℓ} → Dict Text GroupConfig → Dict Text M → List Text
orphans groups [] = []
orphans groups ((model, settings) ∷ rest) =
    let later = orphans groups rest in if found_model model groups then later else model ∷ later

abbrev pub names {ℓ} : {M : Type ℓ} → Dict Text M → List Text
names [] = []
names ((name, value) ∷ rest) = name ∷ names rest

-- `AddDefaultGroupToConfig`
unfoldable pub default_members {ℓ} : {M : Type ℓ} → Dict Text GroupConfig → Dict Text M → List Text
default_members [] models = names models
default_members (g ∷ gs) models = orphans (g ∷ gs) models

unfoldable pub add_default_group_to_config {ℓ} : {M : Type ℓ} → Config M → Config M
add_default_group_to_config c = record c {
  groups =
      insert default_group_id
        (record {
          swap = true;
          exclusive = true;
          persistent = false;
          members = sort_strings (default_members c.groups c.models);
        })
        c.groups;
}

abbrev pub newline : ℕ
newline = 10

abbrev pub slash : ℕ
slash = 47

-- `strings.Join` with one rune.
unfoldable pub join : ℕ → List Text → Text
join r [] = []
join r (t ∷ []) = t
join r (t ∷ u ∷ ts) = t ++ (r ∷ join r (u ∷ ts))

-- `StripComments`: a line is left out if it starts with a number sign.
unfoldable pub uncommented : List Text → List Text
uncommented [] = []
uncommented (line ∷ lines) =
    let later = uncommented lines in
    if has_prefix (35 ∷ []) (trim_space line) then later else line ∷ later

unfoldable pub strip_comments : Text → Text
strip_comments cmd = join newline (uncommented (split newline cmd))

-- What `findModelInPath` found: the name in the path, the model, and the rest of the path.
pub record Found : Type 0 where
  pub search_name : Text
  pub real_name : Text
  pub remaining : Text

abbrev pub longer_name : Text → Text → Text
longer_name name part =
    if is_empty part then name else if is_empty name then part else name ++ (slash ∷ part)

-- The loop of `findModelInPath` over the parts; an empty part is skipped.
unfoldable pub walk_parts {ℓ} : {M : Type ℓ} → Config M → Text → List Text → Option Found
walk_parts c name [] = none
walk_parts c name (part ∷ parts) =
    let longer = longer_name name part in
    let later = walk_parts c longer parts in
    if is_empty part then later else elim (real_model_name c longer) [
      | none ↦ later
      | some real ↦
          some (record {
            search_name = longer;
            real_name = real;
            remaining = slash ∷ join slash parts;
          })
    ]

unfoldable pub find_model_in_path {ℓ} : {M : Type ℓ} → Config M → Text → Option Found
find_model_in_path c path = walk_parts c [] (split slash (trim_space path))

-- "/v1/audio/" and "/v1/images/"
abbrev pub audio_path : Text
audio_path = 47 ∷ 118 ∷ 49 ∷ 47 ∷ 97 ∷ 117 ∷ 100 ∷ 105 ∷ 111 ∷ 47 ∷ []

abbrev pub images_path : Text
images_path = 47 ∷ 118 ∷ 49 ∷ 47 ∷ 105 ∷ 109 ∷ 97 ∷ 103 ∷ 101 ∷ 115 ∷ 47 ∷ []

-- `shouldCollectMetrics`
unfoldable pub should_collect_metrics : Text → Bool
should_collect_metrics path =
    if has_prefix audio_path path
    then false
    else if has_prefix images_path path
    then false
    else true
