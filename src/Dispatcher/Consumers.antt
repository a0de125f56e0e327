-- ===== src/Dispatcher/Consumers.antt =====
-- The group of the consumers of one type of events (event/event.go). A pointer to a consumer is its
-- id, which `add` makes unique. A listener is a goroutine: `listen` is its next step, and the
-- events that its handler was called with are kept in order. A condition variable keeps, for each
-- listener, whether it waits; a publisher that waits is a broadcast that is not possible yet.
use omniswap.Prelude.{
  ℕ, suc, Bool, true, false, ◌||◌, Option, none, some, List, [], ◌∷◌, ◌++◌, map, length, String,
  if◌then◌else◌, ltb, leb, nat_beq,
}

-- Where a listener is: before its next test or event, in `c.Wait`, or behind its return.
pub data Phase : Type 0 where
  awake : Phase
  waiting : Phase
  ended : Phase

-- `consumer`, with the events that its listener has taken and not handled, and those handled.
pub record Consumer (E : Type 0) : Type 0 where
  pub id : ℕ
  pub queue : List E
  pub stop : Bool
  pub phase : Phase
  pub pending : List E
  pub handled : List E

-- `group`. A consumer that was deleted keeps its listener, and is in `departed`.
pub record Group (E : Type 0) : Type 0 where
  pub event_type : String
  pub max_queue : ℕ
  pub subs : List (Consumer E)
  pub departed : List (Consumer E)
  pub next_id : ℕ

module _ {E : Type 0} where
  unfoldable pub new_group : String → ℕ → Group E
  new_group event_type max_queue = record {
    event_type = event_type;
    max_queue = max_queue;
    subs = [];
    departed = [];
    next_id = 0;
  }

  -- `cond.Broadcast`, for a listener.
  abbrev pub wake : Consumer E → Consumer E
  wake c = elim c.phase [ waiting ↦ record c { phase = awake } | _ ↦ c ]

  unfoldable pub wake_all : Group E → Group E
  wake_all g = record g { subs = map wake g.subs; departed = map wake g.departed }

  -- The loops that take the longest queue.
  unfoldable pub max_len : ℕ → List (Consumer E) → ℕ
  max_len longest [] = longest
  max_len longest (c ∷ cs) =
      max_len (if ltb longest (length c.queue) then length c.queue else longest) cs

  abbrev pub enqueue : E → Consumer E → Consumer E
  enqueue ev c = record c { queue = c.queue ++ (ev ∷ []) }

  -- `Broadcast`; `none` waits, since a queue is full.
  unfoldable pub broadcast : E → Group E → Option (Group E)
  broadcast ev g =
      if leb g.max_queue (max_len 0 g.subs)
      then none
      else some (wake_all (record g { subs = map (enqueue ev) g.subs }))

  -- `Add`, with the id of the new consumer.
  unfoldable pub add : Group E → Group E × ℕ
  add g = (
    record g {
      subs =
          g.subs
          ++ ((record {
            id = g.next_id;
            queue = [];
            stop = false;
            phase = awake;
            pending = [];
            handled = [];
          })
              ∷ []);
      next_id = suc g.next_id;
    },
    g.next_id,
  )

  abbrev pub stopped : Consumer E → Consumer E
  stopped c = record c { stop = true }

  -- The consumers without the one of the id, and that one alone.
  unfoldable pub without : ℕ → List (Consumer E) → List (Consumer E)
  without id [] = []
  without id (c ∷ cs) = let rest = without id cs in if nat_beq c.id id then rest else c ∷ rest

  unfoldable pub only : ℕ → List (Consumer E) → List (Consumer E)
  only id [] = []
  only id (c ∷ cs) = let rest = only id cs in if nat_beq c.id id then stopped c ∷ rest else rest

  -- `Del`. It does not signal, so that a listener that waits goes on waiting.
  unfoldable pub del : ℕ → Group E → Group E
  del id g = record g { subs = without id g.subs; departed = only id g.subs ++ g.departed }

  -- `Count`
  unfoldable pub count : Group E → ℕ
  count g = length g.subs

  -- The next step of `Listen`: an event is handled, or the queue is tested and taken.
  unfoldable pub listen_step : Consumer E → Consumer E
  listen_step c = elim c.phase [
    | waiting ↦ c
    | ended ↦ c
    | awake ↦ elim c.pending [
      | ev ∷ rest ↦ record c { pending = rest; handled = c.handled ++ (ev ∷ []) }
      | [] ↦ elim c.queue [
        | [] ↦ if c.stop then record c { phase = ended } else record c { phase = waiting }
        | ev ∷ evs ↦ record c { queue = []; pending = ev ∷ evs }
      ]
    ]
  ]

  -- Whether a step ends the work that was taken, after which the group is signalled.
  abbrev pub finishes : Consumer E → Bool
  finishes c = elim c.phase [ awake ↦ elim c.pending [ ev ∷ [] ↦ true | _ ↦ false ] | _ ↦ false ]

  abbrev pub at_id : ℕ → Consumer E → Consumer E
  at_id id c = if nat_beq c.id id then listen_step c else c

  unfoldable pub any_finishes : ℕ → List (Consumer E) → Bool
  any_finishes id [] = false
  any_finishes id (c ∷ cs) = (if nat_beq c.id id then finishes c else false) || any_finishes id cs

  -- A step of the listener of the id, with the signal that follows its last event.
  unfoldable pub listen : ℕ → Group E → Group E
  listen id g =
      let stepped = record g {
        subs = map (at_id id) g.subs;
        departed = map (at_id id) g.departed;
      } in
      if any_finishes id g.subs || any_finishes id g.departed then wake_all stepped else stepped
