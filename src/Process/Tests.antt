-- ===== src/Process/Tests.antt =====
-- The theorems about processes at inputs that meet their hypotheses.
use omniswap.Prelude.{true, false, [], ◌∷◌, ◌≡◌, refl}
use omniswap.Process.{
  Process, same_state, stopping, wait_for_cmd, stopped, ready, shut_down, is_valid_transition,
  swap_state, start_ok, StartEnv, start, ready_check, finish_start, interrupt_all, proxy_request,
  served,
}
use omniswap.Process.Life.{served_ready}

abbrev fresh : Process
fresh = record {
  state = stopped;
  has_command = false;
  failed_start_count = 0;
  in_flight = 0;
  concurrency_limit = 10;
}

abbrev running : Process
running = record fresh { state = ready; has_command = true }

abbrev down : Process
down = record fresh { state = shut_down }

-- A start whose second health check passes.
abbrev env : StartEnv
env = record {
  has_proxy = true;
  has_args = true;
  command_starts = true;
  checked = true;
  rounds =
      record { before = []; timed_out = false; healthy = false }
      ∷ record { before = []; timed_out = false; healthy = true }
      ∷ [];
  after = [];
}

starts : (start env fresh fresh).1 ≡ start_ok
unfolding start ready_check finish_start interrupt_all swap_state is_valid_transition
starts = refl

-- The command exits before the request is dispatched.
serves : (proxy_request true (λ p. p) env fresh wait_for_cmd fresh).1 ≡ served
unfolding proxy_request start ready_check finish_start interrupt_all swap_state is_valid_transition
serves = refl

served_ready_example :
    (true ≡ true)
    × (same_state fresh.state stopping ≡ false)
    × (same_state fresh.state shut_down ≡ false)
    × ((seen : Process) × (seen.state ≡ ready)
        × ((proxy_request true (λ p. p) env fresh wait_for_cmd fresh).0 ≡ wait_for_cmd seen))
served_ready_example = served_ready true (λ p. p) env fresh wait_for_cmd fresh serves
