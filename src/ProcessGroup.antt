-- ===== src/ProcessGroup.antt =====
-- A group of processes (proxy/processgroup.go). A call is one step. A swapping group holds its lock
-- while it stops the last used process and serves another model, so these requests run one at a time;
-- those for the last used model are served without the lock, and may run at the same time. What a
-- request does to its process is `serve`, an argument: it stands for `Process.ProxyRequest` to its end.
pub mod Swap
mod Tests
use omniswap.Prelude.{
  String, Bool, true, false, not, Option, none, some, List, [], ◌∷◌, if◌then◌else◌, ◌||◌, ◌&&◌,
}
use omniswap.Prelude.Keys.{string_eq, ◌==◌}
use omniswap.Prelude.Dict.{Dict, lookup, insert}
use omniswap.Process.{Process, stop, stop_immediately, shutdown}

pub record ProcessGroup : Type 0 where
  pub members : List String
  pub swap : Bool
  pub processes : Dict String Process
  pub last_used : String

pub data StopStrategy : Type 0 where
  at_once after_inflight : StopStrategy

abbrev pub contains : String → List String → Bool
contains x [] = false
contains x (y ∷ ys) = y == x || contains x ys

unfoldable pub has_member : String → ProcessGroup → Bool
has_member model pg = contains model pg.members

unfoldable pub get_member : String → ProcessGroup → Option Process
get_member model pg = if has_member model pg then lookup model pg.processes else none

-- A change of the process of a model; a model without one has no pointer to follow.
unfoldable pub on_process : String → (Process → Process) → ProcessGroup → ProcessGroup
on_process model f pg = elim (lookup model pg.processes) [
  | none ↦ pg
  | some p ↦ record pg { processes = insert model (f p) pg.processes }
]

-- `ProxyRequest`, with whether there is no error.
unfoldable pub proxy_request : (Process → Process) → String → ProcessGroup → ProcessGroup × Bool
proxy_request serve model pg =
    let freed = if pg.last_used == "" then pg else on_process pg.last_used stop pg in
    if not (has_member model pg)
    then (pg, false)
    else if pg.swap && not (pg.last_used == model)
    then (record (on_process model serve freed) { last_used = model }, true)
    else (on_process model serve pg, true)

abbrev pub stopping_with : StopStrategy → Process → Process
stopping_with at_once = stop_immediately
stopping_with after_inflight = stop

-- `StopProcess`, with whether there is no error.
unfoldable pub stop_process : String → StopStrategy → ProcessGroup → ProcessGroup × Bool
stop_process model strategy pg = elim (lookup model pg.processes) [
  | none ↦ (pg, false)
  | some p ↦ (
    on_process model (stopping_with strategy)
        (if pg.last_used == model then record pg { last_used = "" } else pg),
    true,
  )
]

abbrev pub map_values : (Process → Process) → Dict String Process → Dict String Process
map_values f [] = []
map_values f ((id, p) ∷ m) = (id, f p) ∷ map_values f m

-- `StopProcesses`: the processes stop in parallel, and each one independently.
unfoldable pub stop_processes : StopStrategy → ProcessGroup → ProcessGroup
stop_processes strategy pg = record pg {
  processes = map_values (stopping_with strategy) pg.processes;
}

-- `Shutdown`
unfoldable pub shutdown_all : ProcessGroup → ProcessGroup
shutdown_all pg = record pg { processes = map_values shutdown pg.processes }
