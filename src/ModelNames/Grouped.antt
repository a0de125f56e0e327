-- ===== src/ModelNames/Grouped.antt =====
-- Which models the groups of a configuration have (proxy/config/config.go).
use omniswap.Prelude.{true, false, not, ◌&&◌, ◌||◌, none, [], ◌∷◌, ◌≡◌, refl, is_some, arith}
use omniswap.Prelude.Dict.{Dict, lookup, insert}
use omniswap.Prelude.Text.{Text, text_eq, contains, sort_strings}
use omniswap.Prelude.Sorted.{contains-sort_strings}
use omniswap.ModelNames.{
  GroupConfig, Config, found_model, orphans, names, default_members, default_group_id,
  add_default_group_to_config,
}

contains-names {ℓ} :
    {M : Type ℓ} (model : Text) (models : Dict Text M)
    → contains model (names models) ≡ is_some (lookup model models)
unfolding contains
contains-names model [] = refl
contains-names model ((m, settings) ∷ rest) = ground (arith, contains-names model rest)

contains-orphans {ℓ} :
    {M : Type ℓ} (model : Text) (groups : Dict Text GroupConfig) (models : Dict Text M)
    → contains model (orphans groups models)
      ≡ (is_some (lookup model models) && not (found_model model groups))
unfolding orphans contains
contains-orphans model groups [] = refl
contains-orphans model groups ((m, settings) ∷ rest) =
    ground (arith, contains-orphans model groups rest, text_eq.beq_iff m model)

contains-default_members {ℓ} :
    {M : Type ℓ} (model : Text) (groups : Dict Text GroupConfig) (models : Dict Text M)
    → contains model (default_members groups models)
      ≡ (is_some (lookup model models) && not (found_model model groups))
unfolding default_members found_model
contains-default_members model [] models = ground (arith, contains-names model models)
contains-default_members model (g ∷ gs) models = contains-orphans model (g ∷ gs) models

found_model-insert :
    (model id : Text) (g : GroupConfig) (groups : Dict Text GroupConfig)
    → lookup id groups ≡ none
    → found_model model (insert id g groups)
      ≡ (found_model model groups || contains model g.members)
unfolding found_model
found_model-insert model id g [] h = ground arith
found_model-insert model id g ((x, w) ∷ rest) h =
    ground (arith, found_model-insert model id g rest, text_eq.beq_iff x id)

-- For a configuration that has no group of the default group's id: after the default group is added,
-- a model is in a group exactly if it was in one before or the configuration has it. So each
-- configured model has a group, whatever groups were listed, and no other model gets one.
pub found_model-add_default_group_to_config {ℓ} :
    {M : Type ℓ} (c : Config M) (model : Text)
    → lookup default_group_id c.groups ≡ none
    → found_model model (add_default_group_to_config c).groups
      ≡ (found_model model c.groups || is_some (lookup model c.models))
unfolding add_default_group_to_config
found_model-add_default_group_to_config c model h = ground (
  arith,
  found_model-insert model default_group_id
      (record {
        swap = true;
        exclusive = true;
        persistent = false;
        members = sort_strings (default_members c.groups c.models);
      })
      c.groups h,
  contains-sort_strings model (default_members c.groups c.models),
  contains-default_members model c.groups c.models,
)
