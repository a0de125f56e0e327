-- ===== src/ModelNames/Tests.antt =====
-- Runs of the names of models on concrete configurations.
use omniswap.Prelude.{ℕ, true, false, some, List, [], ◌∷◌, ◌≡◌, refl}
use omniswap.Prelude.Dict.{Dict}
use omniswap.Prelude.Text.{
  Text, split, cons_first, has_prefix, trim_right, trim_left, is_space, contains, sort_strings,
}
use omniswap.ModelNames.{
  GroupConfig, Config, found_model, default_group_id, add_default_group_to_config, strip_comments,
  find_model_in_path, real_model_name, walk_parts, join, uncommented, default_members, orphans,
}

abbrev solo : List Text → GroupConfig
solo members = record { swap = true; exclusive = false; persistent = false; members = members }

-- The models "a" and "b/c", the alias "d" of "a", and one group with "a".
abbrev two_models : Dict Text ℕ
two_models = (97 ∷ [], 0) ∷ (98 ∷ 47 ∷ 99 ∷ [], 0) ∷ []

abbrev config : Config ℕ
config = record {
  models = two_models;
  aliases = (100 ∷ [], 97 ∷ []) ∷ [];
  groups = (103 ∷ [], solo ((97 ∷ []) ∷ [])) ∷ [];
}

-- A group that is listed under the default group's id is replaced, and its member is in no group.
abbrev listed_default : Config ℕ
listed_default = record {
  models = (97 ∷ [], 0) ∷ [];
  aliases = [];
  groups = (default_group_id, solo ((97 ∷ []) ∷ [])) ∷ [];
}

listed_default_test :
    found_model (97 ∷ []) (add_default_group_to_config listed_default).groups ≡ false
unfolding found_model add_default_group_to_config default_group_id default_members orphans contains
    sort_strings
listed_default_test = refl

-- "/b//c/x"
find_model_in_path_test :
    find_model_in_path config (47 ∷ 98 ∷ 47 ∷ 47 ∷ 99 ∷ 47 ∷ 120 ∷ [])
    ≡ some (record {
      search_name = 98 ∷ 47 ∷ 99 ∷ [];
      real_name = 98 ∷ 47 ∷ 99 ∷ [];
      remaining = 47 ∷ 120 ∷ [];
    })
unfolding find_model_in_path walk_parts real_model_name join split cons_first trim_right trim_left
    is_space
find_model_in_path_test = refl

alias_test : real_model_name config (100 ∷ []) ≡ some (97 ∷ [])
unfolding real_model_name
alias_test = refl

-- A line with a comment between two others.
strip_comments_test :
    strip_comments (120 ∷ 10 ∷ 32 ∷ 35 ∷ 120 ∷ 10 ∷ 121 ∷ []) ≡ 120 ∷ 10 ∷ 121 ∷ []
unfolding strip_comments join uncommented split cons_first has_prefix trim_right trim_left is_space
strip_comments_test = refl
