-- ===== src/Loader/Members.antt =====
-- The groups of a configuration that was loaded (proxy/config/config.go).
use omniswap.Prelude.{
  ℕ, ◌+◌, ◌≤◌, Bool, true, none, some, List, [], ◌∷◌, ◌≡◌, ap, map, arith, if◌then◌else◌, is_some,
  Option-cases, Bool-cases, inl, inr,
}
use omniswap.Prelude.Keys.{◌==◌}
use omniswap.Prelude.Dict.{Dict, lookup}
use omniswap.Prelude.Text.{Text, text_eq, contains, sort_strings}
use omniswap.ModelNames.{
  Config, GroupConfig, found_model, default_group_id, add_default_group_to_config,
}
use omniswap.ModelNames.Grouped.{found_model-add_default_group_to_config}
use omniswap.Loader.{
  check_members, check_groups, Raw, Loaded, ModelConfig, finish, load_config, populate_aliases,
  load_models,
}

-- How often a model is a member: of one list, and of all groups.
abbrev pub occurrences : Text → List Text → ℕ
occurrences model [] = 0
occurrences model (m ∷ ms) = (if m == model then 1 else 0) + occurrences model ms

abbrev pub memberships : Text → Dict Text GroupConfig → ℕ
memberships model [] = 0
memberships model ((id, g) ∷ rest) = occurrences model g.members + memberships model rest

abbrev once_if : Bool → ℕ
once_if b = if b then 1 else 0

-- A list that is accepted adds each of its members, none of which was used.
used_after_members :
    (members prev used : List Text) (model : Text) {used' : List Text}
    → check_members members prev used ≡ some used'
    → once_if (contains model used) + occurrences model members ≡ once_if (contains model used')
unfolding check_members contains
used_after_members [] prev used model h = ground arith
used_after_members (m ∷ ms) prev used model {used'} h = elim (Bool-cases (m == model)) [
  | inl e ↦
      let same : m ≡ model = (text_eq.beq_iff m model).0 e in
      ground (
        arith,
        used_after_members ms (m ∷ prev) (m ∷ used) model {used' = used'},
        ap (λ (t : Text). contains t used) same,
      )
  | inr e ↦ ground (arith, used_after_members ms (m ∷ prev) (m ∷ used) model {used' = used'})
]

used_after_groups :
    (groups : Dict Text GroupConfig) (used : List Text) (model : Text) {used' : List Text}
    → check_groups groups used ≡ some used'
    → once_if (contains model used) + memberships model groups ≡ once_if (contains model used')
unfolding check_groups
used_after_groups [] used model h = ground arith
used_after_groups ((id, g) ∷ rest) used model {used'} h =
    elim (Option-cases (check_members g.members [] used)) [
      | inl e ↦ absurd (ground arith)
      | inr (u, e) ↦ ground (
        arith,
        used_after_members g.members [] used model {used' = u} e,
        used_after_groups rest u model {used' = used'},
      )
    ]

contains-occurrences :
    (model : Text) (ms : List Text) → contains model ms ≡ true → 1 ≤ occurrences model ms
unfolding contains
contains-occurrences model [] h = ground arith
contains-occurrences model (m ∷ ms) h = ground (arith, contains-occurrences model ms)

found_model-memberships :
    (model : Text) (groups : Dict Text GroupConfig)
    → found_model model groups ≡ true
    → 1 ≤ memberships model groups
unfolding found_model
found_model-memberships model [] h = ground arith
found_model-memberships model ((id, g) ∷ rest) h =
    ground (arith, found_model-memberships model rest, contains-occurrences model g.members)

finish-memberships :
    (print : ℕ → Text) (url_parses : Text → Bool) (raw : Raw) (aliases : Dict Text Text)
    (models : Dict Text ModelConfig) (model : Text) {loaded : Loaded}
    → lookup default_group_id raw.groups ≡ none
    → finish print url_parses raw aliases models ≡ some loaded
    → let groups = loaded.config.groups in
      (memberships model groups ≤ 1)
      × (is_some (lookup model loaded.config.models) ≡ true → memberships model groups ≡ 1)
unfolding finish add_default_group_to_config
finish-memberships print url_parses raw aliases models model {loaded} fresh h =
    let before : Config ModelConfig = record {
      models = models;
      aliases = aliases;
      groups = raw.groups;
    } in
    let config = add_default_group_to_config before in
    elim (Option-cases (check_groups config.groups [])) [
      | inl e ↦ absurd (ground arith)
      | inr (used, e) ↦
          let same : loaded.config ≡ config = ground arith in
          let counted = used_after_groups config.groups [] model {used' = used} e in
          let bound : memberships model config.groups ≤ 1 = ground arith in
          rw same (
            bound,
            λ known. ground (
              arith,
              found_model-add_default_group_to_config before model fresh,
              found_model-memberships model config.groups,
            ),
          )
    ]

-- For a file that lists no group under the default group's id, and is loaded: each configured model is
-- a member of exactly one group, once, and any other model of one group at most.
pub load_config-memberships :
    (print : ℕ → Text) (url_parses : Text → Bool) (raw : Raw) (model : Text) {loaded : Loaded}
    → lookup default_group_id raw.groups ≡ none
    → load_config print url_parses raw ≡ some loaded
    → let groups = loaded.config.groups in
      (memberships model groups ≤ 1)
      × (is_some (lookup model loaded.config.models) ≡ true → memberships model groups ≡ 1)
unfolding load_config
load_config-memberships print url_parses raw model {loaded} fresh h =
    let ids = sort_strings (map (λ entry. entry.0) raw.models) in
    elim (Option-cases (populate_aliases raw.models [])) [
      | inl e ↦ absurd (ground arith)
      | inr (aliases, e) ↦
          elim (Option-cases (
            load_models print url_parses raw.macros raw.send_loading_state ids raw.models
              raw.start_port)) [
                | inl k ↦ absurd (ground arith)
                | inr (models, k) ↦
                    finish-memberships print url_parses raw aliases models model {loaded = loaded}
                      fresh (ground arith)
              ]
    ]
