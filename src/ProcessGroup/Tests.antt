-- ===== src/ProcessGroup/Tests.antt =====
-- A swap in a small group, at inputs that meet the theorem's hypotheses.
use omniswap.Prelude.{true, false, some, [], ◌∷◌, ◌≡◌, refl}
use omniswap.Prelude.Keys.{string_eq}
use omniswap.Prelude.Dict.{lookup}
use omniswap.Process.{Process, ready, stopped}
use omniswap.ProcessGroup.{ProcessGroup, has_member, proxy_request}
use omniswap.ProcessGroup.Swap.{swap_stops_previous}

abbrev idle : Process
idle = record {
  state = stopped;
  has_command = false;
  failed_start_count = 0;
  in_flight = 0;
  concurrency_limit = 10;
}

abbrev running : Process
running = record idle { state = ready; has_command = true }

abbrev group : ProcessGroup
group = record {
  members = "small" ∷ "large" ∷ "coder" ∷ [];
  swap = true;
  processes = ("small", running) ∷ ("large", idle) ∷ ("coder", idle) ∷ [];
  last_used = "small";
}

-- The requested process is started and served.
abbrev serve : Process → Process
serve p = record p { state = ready; has_command = true }

swap_stops_previous_example :
    let out = proxy_request serve "large" group in
    (out.1 ≡ true)
    × (out.0.last_used ≡ "large")
    × ((q : Process) × (lookup "small" out.0.processes ≡ some q) × (q.state ≡ stopped))
    × (lookup "coder" out.0.processes ≡ lookup "coder" group.processes)
unfolding has_member
swap_stops_previous_example =
    swap_stops_previous serve "large" "coder" group {p = running} refl refl
      (λ e. absurd (cc ((string_eq.beq_iff "small" "large").1 e)))
      (λ e. absurd (cc ((string_eq.beq_iff "small" "").1 e))) refl refl refl
      (λ e. absurd (cc ((string_eq.beq_iff "coder" "large").1 e)))
      (λ e. absurd (cc ((string_eq.beq_iff "coder" "small").1 e)))
