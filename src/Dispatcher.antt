-- ===== src/Dispatcher.antt =====
-- The dispatcher of events (event/event.go): the registry of the groups, by their event types. The
-- registry is replaced as a whole, so that a reader sees one version of it. A Go type of events is
-- its name.
pub mod Consumers
pub mod Search
pub mod Registered
pub mod Delivery
pub mod Reached
pub mod Drained
mod Tests
use omniswap.Prelude.{
  ℕ, suc, zero, ◌+◌, ◌-◌, ◌/◌, Bool, true, false, not, ◌&&◌, Option, none, some, List, [], ◌∷◌,
  ◌++◌, length, String, if◌then◌else◌, ltb, nat_beq, get_elem?, take, set,
}
use omniswap.Prelude.Keys.{string_eq, ◌==◌}
use omniswap.Prelude.Slices.{drop}
use omniswap.Dispatcher.Consumers.{Group, new_group, broadcast, add, del, count}

-- `registry`
pub record Registry (E : Type 0) : Type 0 where
  pub keys : List ℕ
  pub grps : List (Group E)

pub record Dispatcher (E : Type 0) : Type 0 where
  pub subs : Registry E
  pub closed : Bool
  pub max_queue : ℕ

-- `keys[i] < t`, for an index in range.
abbrev pub key_below : List ℕ → ℕ → ℕ → Bool
key_below keys i t = elim (get_elem? keys i) [ none ↦ false | some k ↦ ltb k t ]

-- The loop of `findGroup`, on fuel.
unfoldable pub search_loop : ℕ → List ℕ → ℕ → ℕ → ℕ → Option ℕ
search_loop zero keys t left right = none
search_loop (suc fuel) keys t left right =
    let mid = left + (right - left) / 2 in
    let upper = search_loop fuel keys t (mid + 1) right in
    let lower = search_loop fuel keys t left mid in
    if not (ltb left right) then some left else if key_below keys mid t then upper else lower

-- `sort.Search` for the first key that is at least `t`, in keys that are sorted.
unfoldable pub position : ℕ → List ℕ → ℕ
position t [] = 0
position t (k ∷ ks) = if ltb k t then suc (position t ks) else 0

-- What `Publish` does: the event is out, the publisher waits, or it panics.
pub data Published (E : Type 0) : Type 0 where
  done : Dispatcher E → Published E
  waits : Published E
  conflict : Published E

module _ {E : Type 0} where
  -- `NewDispatcherConfig`
  unfoldable pub new_dispatcher_config : ℕ → Dispatcher E
  new_dispatcher_config max_queue = record {
    subs = record { keys = []; grps = [] };
    closed = false;
    max_queue = max_queue;
  }

  -- `Close`; a second close panics, which is `none`.
  unfoldable pub close : Dispatcher E → Option (Dispatcher E)
  close d = if d.closed then none else some (record d { closed = true })

  -- The place of an event type, if `findGroup` finds it.
  unfoldable pub find_place : ℕ → Registry E → Option ℕ
  find_place t reg = elim (search_loop (suc (length reg.keys)) reg.keys t 0 (length reg.keys)) [
    | none ↦ none
    | some left ↦ elim (get_elem? reg.keys left) [
      | none ↦ none
      | some k ↦ if nat_beq k t then some left else none
    ]
  ]

  -- `findGroup`
  unfoldable pub find_group : ℕ → Registry E → Option (Group E)
  find_group t reg = elim (find_place t reg) [ none ↦ none | some left ↦ get_elem? reg.grps left ]

  -- A group that is changed behind its pointer.
  unfoldable pub store_group : ℕ → Group E → Registry E → Registry E
  store_group t g reg = elim (find_place t reg) [
    | none ↦ reg
    | some left ↦ record reg { grps = set reg.grps left g }
  ]

  -- The new registry of `SubscribeTo`.
  unfoldable pub insert_group : ℕ → Group E → Registry E → Registry E
  insert_group t g reg =
      let idx = position t reg.keys in
      record {
        keys = take idx reg.keys ++ (t ∷ drop idx reg.keys);
        grps = take idx reg.grps ++ (g ∷ drop idx reg.grps);
      }

  -- `SubscribeTo`, with the id of the consumer; a dispatcher that is closed, and a group of another
  -- Go type, panic, which is `none`.
  unfoldable pub subscribe_to : String → ℕ → Dispatcher E → Option (Dispatcher E × ℕ)
  subscribe_to event_type t d =
      let (fresh, first) = add (new_group event_type d.max_queue) in
      if d.closed then none else elim (find_group t d.subs) [
        | none ↦ some (record d { subs = insert_group t fresh d.subs }, first)
        | some g ↦
            let (g', sub) = add g in
            if g.event_type == event_type
            then some (record d { subs = store_group t g' d.subs }, sub)
            else none
      ]

  -- The function that `SubscribeTo` returns.
  unfoldable pub cancel : ℕ → ℕ → Dispatcher E → Dispatcher E
  cancel t sub d = elim (find_group t d.subs) [
    | none ↦ d
    | some g ↦ record d { subs = store_group t (del sub g) d.subs }
  ]

  -- `Publish`
  unfoldable pub publish : String → ℕ → E → Dispatcher E → Published E
  publish event_type t ev d = elim (find_group t d.subs) [
    | none ↦ done d
    | some g ↦ if not (g.event_type == event_type) then conflict else elim (broadcast ev g) [
      | none ↦ waits
      | some g' ↦ done (record d { subs = store_group t g' d.subs })
    ]
  ]

  -- `count`
  unfoldable pub subscribers : ℕ → Dispatcher E → ℕ
  subscribers t d = elim (find_group t d.subs) [ none ↦ 0 | some g ↦ count g ]
