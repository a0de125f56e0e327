-- ===== src/ProcessGroup/Swap.antt =====
-- Swapping in proxy/processgroup.go: what a request does to the other processes of its group.
use omniswap.Prelude.{
  String, true, none, some, ◌≡◌, ◌≢◌, refl, arith, if◌then◌else◌, Option-cases, inl, inr, ◌∙◌, sym,
}
use omniswap.Prelude.Keys.{string_eq, ◌==◌, ==_refl, ==_ne}
use omniswap.Prelude.Dict.{lookup, lookup-insert}
use omniswap.Process.{Process, ready, stopped, stop}
use omniswap.Process.Life.{stop_immediately_lem}
use omniswap.ProcessGroup.{ProcessGroup, has_member, on_process, proxy_request}

lookup-on_process :
    (model other : String) (f : Process → Process) (pg : ProcessGroup)
    → lookup other (on_process model f pg).processes ≡ (
        if model == other
        then elim (lookup other pg.processes) [ none ↦ none | some p ↦ some (f p) ]
        else lookup other pg.processes)
unfolding on_process
lookup-on_process model other f pg = elim (Option-cases (lookup model pg.processes)) [
  | inl missing ↦ ground (arith, missing, string_eq.beq_iff model other)
  | inr (p, found) ↦
      ground
        (arith, found, lookup-insert model other (f p) pg.processes, string_eq.beq_iff model other)
]

lookup-on_process_ne :
    (model other : String) (f : Process → Process) (pg : ProcessGroup)
    → model ≢ other
    → lookup other (on_process model f pg).processes ≡ lookup other pg.processes
lookup-on_process_ne model other f pg h =
    lookup-on_process model other f pg ∙ rw (==_ne model other h) refl

proxy_request-swap :
    (serve : Process → Process) (model : String) (pg : ProcessGroup)
    → pg.swap ≡ true
    → has_member model pg ≡ true
    → pg.last_used ≢ model
    → pg.last_used ≢ ""
    → proxy_request serve model pg ≡ (
      record (on_process model serve (on_process pg.last_used stop pg)) { last_used = model },
      true,
    )
unfolding proxy_request
proxy_request-swap serve model pg swaps member new used =
    ground (arith, ==_ne pg.last_used model new, ==_ne pg.last_used "" used)

-- A request to a member of a swapping group that is not the process last used: the process last
-- used, if it is Ready under a command, is Stopped, the requested one becomes the process last used,
-- and every process but these two is as it was.
pub swap_stops_previous :
    (serve : Process → Process) (model other : String) (pg : ProcessGroup) {p : Process}
    → pg.swap ≡ true
    → has_member model pg ≡ true
    → pg.last_used ≢ model
    → pg.last_used ≢ ""
    → lookup pg.last_used pg.processes ≡ some p
    → p.state ≡ ready
    → p.has_command ≡ true
    → other ≢ model
    → other ≢ pg.last_used
    → let out = proxy_request serve model pg in
      (out.1 ≡ true)
      × (out.0.last_used ≡ model)
      × ((q : Process) × (lookup pg.last_used out.0.processes ≡ some q) × (q.state ≡ stopped))
      × (lookup other out.0.processes ≡ lookup other pg.processes)
swap_stops_previous serve model other pg {p} swaps member new used found is_ready command om ol =
    let freed = on_process pg.last_used stop pg in
    let halted : (stop p).state ≡ stopped = ground (arith, stop_immediately_lem p command) in
    let kept = lookup-on_process_ne model pg.last_used serve freed (λ e. new (sym e)) in
    let set = lookup-on_process pg.last_used pg.last_used stop pg in
    let previous : lookup pg.last_used freed.processes ≡ some (stop p) =
      set ∙ rw (==_refl pg.last_used, found) refl in
    rw (proxy_request-swap serve model pg swaps member new used) (
      refl,
      refl,
      (stop p, kept ∙ previous, halted),
      lookup-on_process_ne model other serve freed (λ e. om (sym e))
          ∙ lookup-on_process_ne pg.last_used other stop pg (λ e. ol (sym e)),
    )
