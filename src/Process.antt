-- ===== src/Process.antt =====
-- The life cycle of an upstream process (proxy/process.go). The command, the health check and the
-- reverse proxy are inputs: whether the command starts, and for each round of the health check what
-- the other goroutines did before it and how it ended. Texts of errors and log lines are left out.
pub mod Life
mod Tests
use omniswap.Prelude.{ℕ, suc, ◌+◌, Bool, true, false, not, List, [], ◌∷◌, if◌then◌else◌, ltb, ◌||◌}

pub data ProcessState : Type 0 where
  stopped starting ready stopping shut_down : ProcessState

abbrev pub same_state : ProcessState → ProcessState → Bool
same_state stopped stopped = true
same_state starting starting = true
same_state ready ready = true
same_state stopping stopping = true
same_state shut_down shut_down = true
same_state _ _ = false

unfoldable pub is_valid_transition : ProcessState → ProcessState → Bool
is_valid_transition stopped to = same_state to starting
is_valid_transition starting to =
    same_state to ready || same_state to stopping || same_state to stopped
is_valid_transition ready to = same_state to stopping
is_valid_transition stopping to = same_state to stopped || same_state to shut_down
is_valid_transition shut_down to = false

-- `Process`: its state, whether a command runs under it, and its counters.
pub record Process : Type 0 where
  pub state : ProcessState
  pub has_command : Bool
  pub failed_start_count : ℕ
  pub in_flight : ℕ
  pub concurrency_limit : ℕ

pub data SwapError : Type 0 where
  expected_state_mismatch invalid_state_transition : SwapError

pub data Swap : Type 0 where
  swapped : Swap
  refused : SwapError → Swap

unfoldable pub swap_state : ProcessState → ProcessState → Process → Process × Swap
swap_state expected new p =
    if not (same_state p.state expected)
    then (p, refused expected_state_mismatch)
    else if not (is_valid_transition p.state new)
    then (p, refused invalid_state_transition)
    else (record p { state = new }, swapped)

unfoldable pub force_state : ProcessState → Process → Process
force_state new p = record p { state = new }

-- `swapState`, and `forceState` to the same state if it is refused.
abbrev pub swap_or_force : ProcessState → ProcessState → Process → Process
swap_or_force expected new p = elim (swap_state expected new p).1 [
  | swapped ↦ (swap_state expected new p).0
  | refused e ↦ force_state new p
]

-- `waitForCmd`, when the command exits.
unfoldable pub wait_for_cmd : Process → Process
wait_for_cmd p =
    let q = record p { has_command = false } in
    if same_state p.state stopping then swap_or_force stopping stopped q else force_state stopped q

-- `stopCommand` cancels the command and waits until `waitForCmd` is done; without one, it returns.
unfoldable pub stop_command : Process → Process
stop_command p = if p.has_command then wait_for_cmd p else p

unfoldable pub stop_immediately : Process → Process
stop_immediately p =
    if not (is_valid_transition p.state stopping) then p else elim (swap_state ready stopping p).1 [
      | refused e ↦ p
      | swapped ↦ stop_command (swap_state ready stopping p).0
    ]

-- `Stop`; the wait for the requests in flight is over when their count is 0.
unfoldable pub stop : Process → Process
stop p =
    if not (is_valid_transition p.state stopping)
    then p
    else stop_immediately (record p { in_flight = 0 })

unfoldable pub shutdown : Process → Process
shutdown p =
    if not (is_valid_transition p.state stopping) then p else force_state shut_down (stop_command p)

-- What another goroutine does between two rounds of the health check.
pub data Interruption : Type 0 where
  command_exits stops_immediately shuts_down : Interruption

unfoldable pub interrupt : Interruption → Process → Process
interrupt command_exits p = if p.has_command then wait_for_cmd p else p
interrupt stops_immediately p = stop_immediately p
interrupt shuts_down p = shutdown p

unfoldable pub interrupt_all : List Interruption → Process → Process
interrupt_all [] p = p
interrupt_all (i ∷ is) p = interrupt_all is (interrupt i p)

-- A round of the health check: whether the time is up, and whether the endpoint answered.
pub record Round : Type 0 where
  pub before : List Interruption
  pub timed_out : Bool
  pub healthy : Bool

pub data Started : Type 0 where
  start_ok start_failed still_checking : Started

-- The end of `start`.
unfoldable pub finish_start : Process → Process × Started
finish_start p = elim (swap_state starting ready p).1 [
  | refused e ↦ (p, start_failed)
  | swapped ↦ (record (swap_state starting ready p).0 { failed_start_count = 0 }, start_ok)
]

-- The loop of the health check, and the end of `start`, for the given rounds and what happens after
-- the last of them; the loop of the source goes on until one of its exits, for at most the timeout.
unfoldable pub ready_check : List Interruption → List Round → Process → Process × Started
ready_check after [] p = (p, still_checking)
ready_check after (r ∷ rounds) p =
    let q = interrupt_all r.before p in
    let rest = ready_check after rounds q in
    if not (same_state q.state starting)
    then (q, start_failed)
    else if r.timed_out
    then (stop_command q, start_failed)
    else if r.healthy
    then finish_start (interrupt_all after q)
    else rest

-- What `start` finds in its configuration and environment. Without an endpoint to check there are no
-- rounds: `checked` is false.
pub record StartEnv : Type 0 where
  pub has_proxy : Bool
  pub has_args : Bool
  pub command_starts : Bool
  pub checked : Bool
  pub rounds : List Round
  pub after : List Interruption

-- `start`. A caller that finds another one starting the process waits for it: `waited` is what that
-- wait leaves.
unfoldable pub start : StartEnv → Process → Process → Process × Started
start env waited p =
    let q = record (swap_state stopped starting p).0 {
      failed_start_count = suc p.failed_start_count;
    } in
    let running = record q { has_command = true } in
    let checked = ready_check env.after env.rounds running in
    if not env.has_proxy
    then (p, start_failed)
    else if not env.has_args
    then (p, start_failed)
    else elim (swap_state stopped starting p).1 [
      | refused invalid_state_transition ↦ (p, start_failed)
      | refused expected_state_mismatch ↦
          if same_state p.state starting
          then (waited, if same_state waited.state ready then start_ok else start_failed)
          else (p, start_failed)
      | swapped ↦
          if not env.command_starts
          then (swap_or_force starting stopped q, start_failed)
          else if env.checked
          then checked
          else finish_start (interrupt_all env.after running)
    ]

pub data Reply : Type 0 where
  served unavailable too_many bad_gateway : Reply

-- `ProxyRequest` up to the dispatch to the reverse proxy, which there is: the process when it is
-- dispatched, or answered, and the reply. `acquired` is whether the semaphore had room, and `waited`
-- is as above. The state is read without a lock: other goroutines may act between the first test and
-- the second one (`entering`), and between the second test, or the start, and the dispatch
-- (`dispatching`), which may be anything.
unfoldable pub proxy_request :
    Bool
    → (Process → Process)
    → StartEnv
    → Process
    → (Process → Process)
    → Process
    → Process × Reply
proxy_request acquired entering env waited dispatching p =
    let later = entering p in
    let q = record later { in_flight = suc later.in_flight } in
    let out = start env waited q in
    if same_state p.state shut_down || same_state p.state stopping
    then (p, unavailable)
    else if not acquired
    then (p, too_many)
    else if same_state q.state ready
    then (dispatching q, served)
    else elim out.1 [ start_ok ↦ (dispatching out.0, served) | _ ↦ (out.0, bad_gateway) ]
