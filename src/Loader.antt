-- ===== src/Loader.antt =====
-- The loading of a configuration (`LoadConfigFromReader` of proxy/config/config.go), from the decoded
-- YAML on: the checks, the macros and ports of the models, the default group. The YAML package and
-- `url.Parse` are parameters. A Go map is a list of entries; an error is `none`.
pub mod Members
mod Tests
use omniswap.Prelude.{
  ℕ, suc, zero, Bool, true, false, not, ◌&&◌, ◌||◌, Option, none, some, List, [], ◌∷◌, ◌++◌,
  if◌then◌else◌, ltb, leb, nat_beq, map, is_some,
}
use omniswap.Prelude.Keys.{◌==◌}
use omniswap.Prelude.Int.{ℤ, pos, ltb_ℤ, leb_ℤ}
use omniswap.Prelude.Dict.{Dict, lookup, insert}
use omniswap.Prelude.Text.{Text, text_eq, trim_space, is_empty, contains, sort_strings}
use omniswap.Pricing.Config.{CreditRate}
use omniswap.ModelNames.{
  Config, GroupConfig, real_model_name, strip_comments, add_default_group_to_config,
}
use omniswap.Macros.{
  MacroEntry, Value, Fields, text, scalar, shown, validate_macro, replace_all, contains_text,
  macro_slug, model_id_name, port_name, merge_macros, macro_references, substitute_in_fields,
  no_unknown_in_fields,
}

-- The members of one group: `prevSet` is `prev`, and `memberUsage` is `used`.
unfoldable pub check_members : List Text → List Text → List Text → Option (List Text)
check_members [] prev used = some used
check_members (member ∷ members) prev used =
    let rest = check_members members (member ∷ prev) (member ∷ used) in
    if contains member prev then none else if contains member used then none else rest

-- The loop over the groups.
unfoldable pub check_groups : Dict Text GroupConfig → List Text → Option (List Text)
check_groups [] used = some used
check_groups ((id, g) ∷ rest) used = elim (check_members g.members [] used) [
  | none ↦ none
  | some used' ↦ check_groups rest used'
]

-- The aliases of one model, and of all of them.
unfoldable pub add_aliases : Text → List Text → Dict Text Text → Option (Dict Text Text)
add_aliases model [] aliases = some aliases
add_aliases model (alias ∷ rest) aliases =
    let later = add_aliases model rest (insert alias model aliases) in
    if is_some (lookup alias aliases) then none else later

-- The part of `ModelConfig` that loading reads and writes.
pub record ModelConfig : Type 0 where
  pub cmd : Text
  pub cmd_stop : Text
  pub proxy : Text
  pub check_endpoint : Text
  pub strip_params : Text
  pub metadata : Fields
  pub aliases : List Text
  pub macros : List MacroEntry
  pub send_loading_state : Option Bool

unfoldable pub populate_aliases : Dict Text ModelConfig → Dict Text Text → Option (Dict Text Text)
populate_aliases [] aliases = some aliases
populate_aliases ((model, m) ∷ rest) aliases = elim (add_aliases model m.aliases aliases) [
  | none ↦ none
  | some aliases' ↦ populate_aliases rest aliases'
]

abbrev pub all_valid : List MacroEntry → Bool
all_valid [] = true
all_valid (m ∷ ms) = validate_macro m && all_valid ms

-- One macro in all fields of a model.
unfoldable pub substitute_entry : MacroEntry → ModelConfig → ModelConfig
substitute_entry entry m =
    let slug = macro_slug entry.name in
    let str = shown entry.value in
    record m {
      cmd = replace_all slug str m.cmd;
      cmd_stop = replace_all slug str m.cmd_stop;
      proxy = replace_all slug str m.proxy;
      check_endpoint = replace_all slug str m.check_endpoint;
      strip_params = replace_all slug str m.strip_params;
      metadata = substitute_in_fields entry.name entry.value m.metadata;
    }

-- All of them, the last one first.
unfoldable pub substitute_all : List MacroEntry → ModelConfig → ModelConfig
substitute_all [] m = m
substitute_all (entry ∷ entries) m = substitute_entry entry (substitute_all entries m)

-- "${PORT}"
abbrev pub port_slug : Text
port_slug = macro_slug port_name

abbrev pub with_port : Text → ModelConfig → ModelConfig
with_port port m = record m {
  cmd = replace_all port_slug port m.cmd;
  cmd_stop = replace_all port_slug port m.cmd_stop;
  proxy = replace_all port_slug port m.proxy;
  metadata = substitute_in_fields port_name (scalar port) m.metadata;
}

-- "PID", which is replaced when the process is stopped.
abbrev pub pid_name : Text
pid_name = 80 ∷ 73 ∷ 68 ∷ []

abbrev pub only_pid : List Text → Bool
only_pid [] = true
only_pid (name ∷ names) = name == pid_name && only_pid names

-- The check for macros that are left.
unfoldable pub no_macros_left : ModelConfig → Bool
no_macros_left m =
    is_empty (macro_references m.cmd)
    && only_pid (macro_references m.cmd_stop)
    && is_empty (macro_references m.proxy)
    && is_empty (macro_references m.check_endpoint)
    && is_empty (macro_references m.strip_params)
    && no_unknown_in_fields m.metadata

module _ (print : ℕ → Text) (url_parses : Text → Bool) where
  -- The port of a model: an error, none, or the next one.
  unfoldable pub assign_port : ℕ → ModelConfig → Option (ModelConfig × ℕ)
  assign_port next_port m =
      if contains_text port_slug m.cmd
      then some (with_port (print next_port) m, suc next_port)
      else if contains_text port_slug m.proxy
      then none
      else some (m, next_port)

  abbrev pub stripped : ModelConfig → ModelConfig
  stripped m = record m { cmd = strip_comments m.cmd; cmd_stop = strip_comments m.cmd_stop }

  -- The body of the loop over the models.
  unfoldable pub load_model :
      List MacroEntry → Bool → Text → ℕ → ModelConfig → Option (ModelConfig × ℕ)
  load_model global send_default id next_port m =
      let entry : MacroEntry = record { name = model_id_name; value = text id } in
      let merged = merge_macros (entry ∷ global) m.macros in
      elim (assign_port next_port (substitute_all merged (stripped m))) [
        | none ↦ none
        | some (m', next) ↦
            if all_valid m.macros && no_macros_left m' && url_parses m'.proxy
            then some (
              record m' {
                send_loading_state =
                    if is_some m'.send_loading_state
                    then m'.send_loading_state
                    else some send_default;
              },
              next,
            )
            else none
      ]

  -- The loop, over the ids in their order; it gives each model with the ports before and after it.
  unfoldable pub load_models :
      List MacroEntry
      → Bool
      → List Text
      → Dict Text ModelConfig
      → ℕ
      → Option (Dict Text ModelConfig)
  load_models global send_default [] models next_port = some models
  load_models global send_default (id ∷ ids) models next_port = elim (lookup id models) [
    | none ↦ load_models global send_default ids models next_port
    | some m ↦ elim (load_model global send_default id next_port m) [
      | none ↦ none
      | some (m', next) ↦ load_models global send_default ids (insert id m' models) next
    ]
  ]

-- The part of `PeerConfig` that loading changes.
pub record PeerConfig : Type 0 where
  pub api_key : Text
  pub strip_params : Text
  pub set_params : Fields

unfoldable pub substitute_peer : List MacroEntry → PeerConfig → PeerConfig
substitute_peer [] peer = peer
substitute_peer (entry ∷ entries) peer =
    let later = substitute_peer entries peer in
    let slug = macro_slug entry.name in
    record later {
      api_key = replace_all slug (shown entry.value) later.api_key;
      strip_params = replace_all slug (shown entry.value) later.strip_params;
      set_params = substitute_in_fields entry.name entry.value later.set_params;
    }

-- The loop over the peers.
unfoldable pub load_peers : List MacroEntry → Dict Text PeerConfig → Option (Dict Text PeerConfig)
load_peers global [] = some []
load_peers global ((name, peer) ∷ rest) =
    let peer' = substitute_peer global peer in
    elim (load_peers global rest) [
      | none ↦ none
      | some rest' ↦
          if is_empty (macro_references peer'.api_key)
            && is_empty (macro_references peer'.strip_params)
            && no_unknown_in_fields peer'.set_params
          then some ((name, peer') ∷ rest')
          else none
    ]

-- `config.Hooks.OnStartup.Preload`, with the models that there are, under their real names.
unfoldable pub clean_preload {ℓ} : {M : Type ℓ} → Config M → List Text → List Text
clean_preload c [] = []
clean_preload c (id ∷ ids) =
    let later = clean_preload c ids in
    elim (real_model_name c (trim_space id)) [
      | none ↦ later
      | some real ↦ if is_empty (trim_space id) then later else real ∷ later
    ]

unfoldable pub valid_api_keys : List Text → Bool
valid_api_keys [] = true
valid_api_keys (key ∷ keys) =
    not (is_empty key) && not (contains_text (32 ∷ []) key) && valid_api_keys keys

unfoldable pub valid_credit_rates : Dict Text CreditRate → Bool
valid_credit_rates [] = true
valid_credit_rates ((model, rate) ∷ rest) =
    not (is_empty model)
    && not (ltb_ℤ rate.input_per_1k (pos 0) || ltb_ℤ rate.output_per_1k (pos 0))
    && not (leb_ℤ rate.max_output_tokens (pos 0))
    && valid_credit_rates rest

-- The decoded file.
pub record Raw : Type 0 where
  pub health_check_timeout : ℤ
  pub start_port : ℕ
  pub log_to_stdout : Text
  pub send_loading_state : Bool
  pub macros : List MacroEntry
  pub models : Dict Text ModelConfig
  pub groups : Dict Text GroupConfig
  pub preload : List Text
  pub required_api_keys : List Text
  pub credit_rates : Dict Text CreditRate
  pub peers : Dict Text PeerConfig

-- What loading makes of it.
pub record Loaded : Type 0 where
  pub health_check_timeout : ℤ
  pub config : Config ModelConfig
  pub preload : List Text
  pub peers : Dict Text PeerConfig

-- "proxy", "upstream", "both" and "none"
abbrev pub log_targets : List Text
log_targets =
    (112 ∷ 114 ∷ 111 ∷ 120 ∷ 121 ∷ [])
    ∷ (117 ∷ 112 ∷ 115 ∷ 116 ∷ 114 ∷ 101 ∷ 97 ∷ 109 ∷ [])
    ∷ (98 ∷ 111 ∷ 116 ∷ 104 ∷ [])
    ∷ (110 ∷ 111 ∷ 110 ∷ 101 ∷ [])
    ∷ []

module _ (print : ℕ → Text) (url_parses : Text → Bool) where
  -- The end of the loading, with the models and the aliases.
  unfoldable pub finish : Raw → Dict Text Text → Dict Text ModelConfig → Option Loaded
  finish raw aliases models =
      let config =
        add_default_group_to_config
          (record { models = models; aliases = aliases; groups = raw.groups }) in
      elim (check_groups config.groups []) [
        | none ↦ none
        | some used ↦ elim (load_peers raw.macros raw.peers) [
          | none ↦ none
          | some peers ↦
              if valid_api_keys raw.required_api_keys && valid_credit_rates raw.credit_rates
              then some (record {
                health_check_timeout =
                    if ltb_ℤ raw.health_check_timeout (pos 15)
                    then pos 15
                    else raw.health_check_timeout;
                config = config;
                preload = clean_preload config raw.preload;
                peers = peers;
              })
              else none
        ]
      ]

  -- `LoadConfigFromReader`, from the decoded file on.
  unfoldable pub load_config : Raw → Option Loaded
  load_config raw =
      let ids = sort_strings (map (λ entry. entry.0) raw.models) in
      if not
        (ltb 0 raw.start_port && contains raw.log_to_stdout log_targets && all_valid raw.macros)
      then none
      else elim (populate_aliases raw.models []) [
        | none ↦ none
        | some aliases ↦
            elim (load_models print url_parses raw.macros raw.send_loading_state ids raw.models
              raw.start_port) [ none ↦ none | some models ↦ finish raw aliases models ]
      ]
