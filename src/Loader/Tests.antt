-- ===== src/Loader/Tests.antt =====
-- Tests and witnesses of the loading of a configuration.
use omniswap.Prelude.{true, false, none, some, [], ◌∷◌, ◌≤◌, ◌≡◌, refl, is_some}
use omniswap.Prelude.Dict.{lookup}
use omniswap.Prelude.Int.{pos}
use omniswap.Prelude.Text.{
  text_eq, trim_left, trim_right, is_space, split, cons_first, has_prefix, sort_strings, put_sorted,
  contains,
}
use omniswap.ModelNames.{
  default_group_id, strip_comments, uncommented, join, add_default_group_to_config, default_members,
  orphans, real_model_name,
}
use omniswap.Macros.{
  no_fields, replace_from, contains_text, macro_slug, shown, override, merge_macros, references,
  name_before_brace, is_name_rune, substitute_macro_in_value, no_unknown_in_fields,
}
use omniswap.Loader.{
  ModelConfig, Raw, Loaded, load_config, check_members, check_groups, add_aliases, populate_aliases,
  substitute_entry, substitute_all, no_macros_left, assign_port, load_model, load_models,
  load_peers, clean_preload, valid_api_keys, valid_credit_rates, finish, port_slug, pid_name,
}
use omniswap.Loader.Members.{memberships, load_config-memberships}

-- The command "a${PORT}", and the port "7".
abbrev before : ModelConfig
before = record {
  cmd = 97 ∷ port_slug;
  cmd_stop = macro_slug pid_name;
  proxy = [];
  check_endpoint = [];
  strip_params = [];
  metadata = no_fields;
  aliases = (98 ∷ []) ∷ [];
  macros = [];
  send_loading_state = none;
}

abbrev raw : Raw
raw = record {
  health_check_timeout = pos 3;
  start_port = 5800;
  log_to_stdout = 98 ∷ 111 ∷ 116 ∷ 104 ∷ [];
  send_loading_state = true;
  macros = [];
  models = (109 ∷ [], before) ∷ [];
  groups = [];
  preload = (32 ∷ 98 ∷ []) ∷ [];
  required_api_keys = [];
  credit_rates = [];
  peers = [];
}

abbrev loaded : Loaded
loaded = record {
  health_check_timeout = pos 15;
  config = record {
    models = (109 ∷ [], record before { cmd = 97 ∷ 55 ∷ []; send_loading_state = some true }) ∷ [];
    aliases = (98 ∷ [], 109 ∷ []) ∷ [];
    groups =
        (
          default_group_id,
          record { swap = true; exclusive = true; persistent = false; members = (109 ∷ []) ∷ [] },
        )
        ∷ [];
  };
  preload = (109 ∷ []) ∷ [];
  peers = [];
}

loads : load_config (λ n. 55 ∷ []) (λ t. true) raw ≡ some loaded
unfolding load_config sort_strings put_sorted contains populate_aliases add_aliases load_models
    load_model strip_comments uncommented join split cons_first trim_left trim_right is_space
    has_prefix merge_macros override substitute_all substitute_entry assign_port replace_from
    contains_text shown no_macros_left references name_before_brace is_name_rune
    no_unknown_in_fields finish add_default_group_to_config default_members orphans check_groups
    check_members load_peers clean_preload real_model_name valid_api_keys valid_credit_rates
    default_group_id substitute_macro_in_value
loads = refl

load_config-memberships_example :
    let groups = loaded.config.groups in
    (memberships (109 ∷ []) groups ≤ 1)
    × (is_some (lookup (109 ∷ []) loaded.config.models) ≡ true → memberships (109 ∷ []) groups ≡ 1)
load_config-memberships_example =
    load_config-memberships (λ n. 55 ∷ []) (λ t. true) raw (109 ∷ []) {loaded = loaded} refl loads
