-- ===== src/Process/Life.antt =====
-- The states that proxy/process.go can reach.
use omniswap.Prelude.{
  suc, Bool, true, false, List, [], ◌∷◌, ◌≡◌, ◌≢◌, arith, ◌⊎◌, Bool-cases, inl, inr,
}
use omniswap.Process.{
  Process, ProcessState, stopped, starting, ready, shut_down, is_valid_transition, swapped,
  swap_state, force_state, wait_for_cmd, stop_command, stop_immediately, stop, shutdown,
  Interruption, interrupt_all, Round, start_ok, start_failed, finish_start, ready_check, StartEnv,
  start, proxy_request, served, same_state, stopping,
}

-- A swap succeeds exactly if the process is in the expected state and the transition is allowed;
-- otherwise the process is as it was.
pub swap_state_lem :
    (expected new : ProcessState) (p : Process)
    → ((p.state ≡ expected)
        × (is_valid_transition expected new ≡ true)
        × (swap_state expected new p ≡ (record p { state = new }, swapped)))
      ⊎ ((swap_state expected new p).0 ≡ p) × ((swap_state expected new p).1 ≢ swapped)
unfolding swap_state
swap_state_lem expected new p = ground arith

-- From Ready, both ways to stop leave the process Stopped without a command. Otherwise both leave
-- the state as it is: in particular neither stops a process that is Starting.
pub stop_immediately_lem :
    (p : Process)
    → p.has_command ≡ true
    → ((p.state ≡ ready)
        × ((stop_immediately p).state ≡ stopped)
        × ((stop_immediately p).has_command ≡ false)
        × ((stop p).state ≡ stopped))
      ⊎ ((p.state ≢ ready) × (stop_immediately p ≡ p) × ((stop p).state ≡ p.state))
unfolding stop stop_immediately swap_state stop_command wait_for_cmd is_valid_transition force_state
stop_immediately_lem p h = ground arith

-- On a process in Shutdown no call changes anything, be it a start, a request, a stop or a shutdown,
-- and a start fails.
pub shutdown_is_final :
    (p : Process)
    → p.state ≡ shut_down
    → (acquired : Bool) (entering : Process → Process) (env : StartEnv) (waited : Process)
      (dispatching : Process → Process)
    → ((start env waited p).0 ≡ p)
      × ((start env waited p).1 ≡ start_failed)
      × ((proxy_request acquired entering env waited dispatching p).0 ≡ p)
      × (stop p ≡ p)
      × (stop_immediately p ≡ p)
      × (shutdown p ≡ p)
unfolding start proxy_request stop stop_immediately shutdown swap_state is_valid_transition
shutdown_is_final p h acquired entering env waited dispatching = ground arith

finish_start_ready :
    (p : Process) → (finish_start p).1 ≡ start_ok → (finish_start p).0.state ≡ ready
unfolding finish_start swap_state is_valid_transition
finish_start_ready p h = ground arith

ready_check_ready :
    (after : List Interruption) (rounds : List Round) (p : Process)
    → (ready_check after rounds p).1 ≡ start_ok
    → (ready_check after rounds p).0.state ≡ ready
unfolding ready_check
ready_check_ready after [] p h = absurd (cc)
ready_check_ready after (r ∷ rounds) p h = ground (
  arith,
  finish_start_ready (interrupt_all after (interrupt_all r.before p)),
  ready_check_ready after rounds (interrupt_all r.before p),
)

-- `start` succeeds only with the process Ready, whatever the command, the health check and the other
-- goroutines do.
pub start_ready :
    (env : StartEnv) (waited p : Process)
    → (start env waited p).1 ≡ start_ok
    → (start env waited p).0.state ≡ ready
unfolding start swap_state is_valid_transition
start_ready env waited p h =
    let running : Process = record p {
      state = starting;
      failed_start_count = suc p.failed_start_count;
      has_command = true;
    } in
    ground (
      arith,
      finish_start_ready (interrupt_all env.after running),
      ready_check_ready env.after env.rounds running,
    )

-- A request is dispatched to the reverse proxy only with the semaphore acquired, on a process that was
-- neither stopping nor shut down when it came, and after the process was Ready, at the test of its
-- state or at the end of a start that succeeded. What comes between that and the dispatch is only what
-- other goroutines do then, whatever it is; without it the process is Ready when the request is
-- dispatched.
pub served_ready :
    (acquired : Bool) (entering : Process → Process) (env : StartEnv) (waited : Process)
    (dispatching : Process → Process) (p : Process)
    → let out = proxy_request acquired entering env waited dispatching p in
      out.1 ≡ served
      → (acquired ≡ true)
        × (same_state p.state stopping ≡ false)
        × (same_state p.state shut_down ≡ false)
        × ((seen : Process) × (seen.state ≡ ready) × (out.0 ≡ dispatching seen))
unfolding proxy_request
served_ready acquired entering env waited dispatching p h =
    let later = entering p in
    let q : Process = record later { in_flight = suc later.in_flight } in
    elim (Bool-cases (same_state q.state ready)) [
      | inl now ↦ (ground arith, ground arith, ground arith, (q, ground arith, ground arith))
      | inr then_started ↦ (
        ground arith,
        ground arith,
        ground arith,
        ((start env waited q).0, ground (arith, start_ready env waited q), ground arith),
      )
    ]
