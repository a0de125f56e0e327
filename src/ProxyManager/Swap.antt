-- ===== src/ProxyManager/Swap.antt =====
-- What a swap of process groups does to the groups (proxy/proxymanager.go).
use omniswap.Prelude.{
  String, true, not, ◌&&◌, none, some, [], ◌∷◌, ◌≡◌, refl, ◌∙◌, arith, if◌then◌else◌, Bool-cases,
  inl, inr,
}
use omniswap.Prelude.Keys.{string_eq, ◌==◌, ==_refl}
use omniswap.Prelude.Dict.{Dict, lookup}
use omniswap.Process.{Process, ready, stopped, stop}
use omniswap.Process.Life.{stop_immediately_lem}
use omniswap.ProcessGroup.{after_inflight, map_values, stop_processes}
use omniswap.ProxyManager.{
  Group, Groups, find_group_by_model_name, stopped_group, stop_others, swap_process_group,
}

lookup-stop_others :
    (id other : String) (groups : Groups)
    → lookup other (stop_others id groups) ≡ (elim (lookup other groups) [
      | none ↦ none
      | some g ↦
          if not (other == id) && not g.persistent
          then some (stopped_group after_inflight g)
          else some g
    ])
unfolding stop_others
lookup-stop_others id other [] = refl
lookup-stop_others id other ((x, g) ∷ rest) = elim (Bool-cases (x == other)) [
  | inl e ↦
      let same : x ≡ other = (string_eq.beq_iff x other).0 e in
      elim (Bool-cases (not (other == id) && not g.persistent)) [
        | inl k ↦ rw (same, k, ==_refl other, k) refl
        | inr k ↦ rw (same, k, ==_refl other, k) refl
      ]
  | inr e ↦ elim (Bool-cases (not (x == id) && not g.persistent)) [
    | inl k ↦ rw (k, e) (lookup-stop_others id other rest)
    | inr k ↦ rw (k, e) (lookup-stop_others id other rest)
  ]
]

lookup-map_values :
    (f : Process → Process) (id : String) (dict : Dict String Process)
    → lookup id (map_values f dict) ≡ (elim (lookup id dict) [ none ↦ none | some p ↦ some (f p) ])
lookup-map_values f id [] = refl
lookup-map_values f id ((x, p) ∷ rest) = ground (arith, lookup-map_values f id rest)

-- A request for a model of an exclusive group: in every other group that is not persistent, a process
-- that was Ready under a command is Stopped, every persistent group and the group itself are as they
-- were, and the group is the one that is handed the request.
pub swap_stops_others :
    (model id other : String) (groups : Groups) {g h : Group}
    → find_group_by_model_name model groups ≡ some (id, g)
    → g.exclusive ≡ true
    → lookup other groups ≡ some h
    → (name : String) {p : Process} → lookup name h.processes.processes ≡ some p
    → p.state ≡ ready
    → p.has_command ≡ true
    → let out = swap_process_group model groups in
      (out.1 ≡ some id)
      × (lookup other out.0 ≡ (
          if not (other == id) && not h.persistent
          then some (stopped_group after_inflight h)
          else some h))
      × ((q : Process) × (lookup name (stopped_group after_inflight h).processes.processes ≡ some q)
          × (q.state ≡ stopped))
unfolding swap_process_group stop stop_processes
swap_stops_others model id other groups {g} {h} found exclusive there name {p} has is_ready
      command =
    let halted : (stop p).state ≡ stopped = ground (arith, stop_immediately_lem p command) in
    let kept : lookup name (stopped_group after_inflight h).processes.processes ≡ some (stop p) =
      lookup-map_values stop name h.processes.processes ∙ rw has refl in
    let out : swap_process_group model groups ≡ (stop_others id groups, some id) =
      rw (found, exclusive, swap_process_group) refl in
    rw out (refl, lookup-stop_others id other groups ∙ rw there refl, (stop p, kept, halted))
