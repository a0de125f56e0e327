-- ===== src/Dispatcher/Tests.antt =====
-- Tests and witnesses of the dispatcher of events.
use omniswap.Prelude.{ℕ, true, false, some, List, [], ◌∷◌, ◌≡◌, ◌≢◌, refl, suc, arith}
use omniswap.Dispatcher.Consumers.{
  Consumer, Group, new_group, add, broadcast, listen, awake, wake_all, max_len, any_finishes,
  listen_step, del, without, only,
}
use omniswap.Dispatcher.{
  Registry, Dispatcher, find_group, search_loop, find_place, subscribe_to, insert_group, position,
  subscribers,
}
use omniswap.Dispatcher.Registered.{IsRegistry, find_group-group_of, subscribe_to_lem, group_of}
use omniswap.Dispatcher.Delivery.{
  Label, published, added, listened, start, next, publishes, join, work, IsOrderly,
}
use omniswap.Dispatcher.Reached.{Run-IsOrderly}
use omniswap.Dispatcher.Drained.{listen_steps, rounds, at_rest, listen_steps-rounds}

abbrev named : ℕ → Group ℕ
named n = new_group "config" n

abbrev reg : Registry ℕ
reg = record { keys = 2 ∷ 5 ∷ 9 ∷ []; grps = named 20 ∷ named 50 ∷ named 90 ∷ [] }

reg-IsRegistry : IsRegistry reg
reg-IsRegistry = record { ascending = omega arith; grouped = refl }

found_test : find_group 9 reg ≡ some (named 90)
unfolding find_group find_place search_loop new_group
found_test = refl

find_group-group_of_example : find_group 5 reg ≡ group_of 5 reg
find_group-group_of_example = find_group-group_of 5 reg reg-IsRegistry

abbrev dispatcher : Dispatcher ℕ
dispatcher = record { subs = reg; closed = false; max_queue = 7 }

-- A first subscriber of event type 4.
abbrev dispatcher' : Dispatcher ℕ
dispatcher' = record dispatcher {
  subs = record {
    keys = 2 ∷ 4 ∷ 5 ∷ 9 ∷ [];
    grps = named 20 ∷ (add (new_group "config" 7)).0 ∷ named 50 ∷ named 90 ∷ [];
  };
}

subscribed : subscribe_to "config" 4 dispatcher ≡ some (dispatcher', 0)
unfolding subscribe_to find_group find_place search_loop insert_group position add new_group
subscribed = refl

subscribe_to_lem_example :
    IsRegistry dispatcher'.subs
    × (subscribers 4 dispatcher' ≡ suc (subscribers 4 dispatcher))
    × ((u : ℕ) → 4 ≢ u → find_group u dispatcher'.subs ≡ find_group u dispatcher.subs)
subscribe_to_lem_example =
    subscribe_to_lem "config" 4 dispatcher {d' = dispatcher'} {sub = 0} reg-IsRegistry subscribed

-- One consumer joins and waits, an event is out, and the consumer takes it.
abbrev joined : Group ℕ
joined = (add (new_group "config" 2)).0

abbrev waiting_group : Group ℕ
waiting_group = listen 0 joined

abbrev told : Group ℕ
told = record {
  event_type = "config";
  max_queue = 2;
  subs =
      (record { id = 0; queue = 8 ∷ []; stop = false; phase = awake; pending = []; handled = [] })
      ∷ [];
  departed = [];
  next_id = 1;
}

told_lem : broadcast 8 waiting_group ≡ some told
unfolding broadcast listen add new_group wake_all max_len any_finishes listen_step
told_lem = refl

abbrev past : List (Label ℕ)
past = listened 0 ∷ published 8 ∷ listened 0 ∷ added (add (new_group {E = ℕ} "config" 2)).1 ∷ []

Run-IsOrderly_example : IsOrderly 2 past (listen 0 told)
Run-IsOrderly_example =
    Run-IsOrderly 2
      (next (next (next (next start (join _)) (work _ 0)) (publishes 8 told_lem)) (work _ 0))

abbrev busy : Consumer ℕ
busy = record {
  id = 3;
  queue = 6 ∷ 7 ∷ [];
  stop = true;
  phase = awake;
  pending = 5 ∷ [];
  handled = 4 ∷ [];
}

listen_steps-rounds_example : listen_steps (rounds busy) busy ≡ at_rest busy
listen_steps-rounds_example = listen_steps-rounds busy refl

-- A consumer that waits when it is deleted goes on waiting, and its listener stays.
del_test : listen 0 (del 0 waiting_group) ≡ del 0 waiting_group
unfolding del listen add new_group wake_all any_finishes listen_step without only
del_test = refl
