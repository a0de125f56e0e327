-- ===== src/ProxyManager.antt =====
-- The swap of process groups in proxy/proxymanager.go. The members of the groups are disjoint, which
-- the configuration checks, so that the order in which a Go map gives the groups does not matter.
pub mod Swap
pub mod Auth
pub mod Debits
mod Tests
use omniswap.Prelude.{
  String, Bool, true, false, not, ◌&&◌, ◌||◌, Option, none, some, List, [], ◌∷◌, if◌then◌else◌,
}
use omniswap.Prelude.Keys.{string_eq, ◌==◌}
use omniswap.Prelude.Dict.{Dict, lookup}
use omniswap.ProcessGroup.{
  ProcessGroup, StopStrategy, after_inflight, at_once, has_member, stop_processes, shutdown_all,
}

-- A group with its settings, under its id.
pub record Group : Type 0 where
  pub exclusive : Bool
  pub persistent : Bool
  pub processes : ProcessGroup

abbrev pub Groups : Type 0
Groups = Dict String Group

-- `findGroupByModelName`
unfoldable pub find_group_by_model_name : String → Groups → Option (String × Group)
find_group_by_model_name model [] = none
find_group_by_model_name model ((id, g) ∷ rest) =
    let found = find_group_by_model_name model rest in
    if has_member model g.processes then some (id, g) else found

abbrev pub stopped_group : StopStrategy → Group → Group
stopped_group strategy g = record g { processes = stop_processes strategy g.processes }

-- The loop of `swapProcessGroup` over the other groups.
unfoldable pub stop_others : String → Groups → Groups
stop_others id [] = []
stop_others id ((other, g) ∷ rest) =
    let later = stop_others id rest in
    if not (other == id) && not g.persistent
    then (other, stopped_group after_inflight g) ∷ later
    else (other, g) ∷ later

-- `swapProcessGroup`, with the id of the group; `none` is the error.
unfoldable pub swap_process_group : String → Groups → Groups × Option String
swap_process_group model groups = elim (find_group_by_model_name model groups) [
  | none ↦ (groups, none)
  | some (id, g) ↦ if g.exclusive then (stop_others id groups, some id) else (groups, some id)
]

-- `StopProcesses`: the groups stop in parallel, and each one independently.
unfoldable pub stop_all : StopStrategy → Groups → Groups
stop_all strategy [] = []
stop_all strategy ((id, g) ∷ rest) = (id, stopped_group strategy g) ∷ stop_all strategy rest

-- `unloadAllModelsHandler`
unfoldable pub unload_all_models : Groups → Groups
unload_all_models groups = stop_all at_once groups

-- `Shutdown`, for the groups.
unfoldable pub shutdown_groups : Groups → Groups
shutdown_groups [] = []
shutdown_groups ((id, g) ∷ rest) =
    (id, record g { processes = shutdown_all g.processes }) ∷ shutdown_groups rest
