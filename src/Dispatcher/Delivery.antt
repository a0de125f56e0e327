-- ===== src/Dispatcher/Delivery.antt =====
-- What a consumer of a group gets in one operation (event/event.go).
use omniswap.Prelude.{
  ℕ, ◌≤◌, ◌<◌, ◌≡◌, ◌≢◌, refl, Bool, true, false, not, some, List, [], ◌∷◌, ◌++◌, length,
  if◌then◌else◌, ltb, nat_beq, map, arith, All, List-cases, inl, inr, String, length-append,
  ++_assoc, ++_nil,
}
use omniswap.Dispatcher.Consumers.{
  awake, ended, Consumer, Group, new_group, wake, max_len, enqueue, broadcast, add, del,
  listen_step, listen,
}

-- One operation on a group.
pub data Label (E : Type 0) : Type 0 where
  published : E → Label E
  added : ℕ → Label E
  deleted : ℕ → Label E
  listened : ℕ → Label E

module _ {E : Type 0} where
  -- An operation that is possible: a publisher that has to wait takes no step.
  pub data Step : Group E → Label E → Group E → Type 0 where
    publishes : {g g' : Group E} (ev : E) → broadcast ev g ≡ some g' → Step g (published ev) g'
    join : (g : Group E) → Step g (added (add g).1) (add g).0
    leave : (g : Group E) (id : ℕ) → Step g (deleted id) (del id g)
    work : (g : Group E) (id : ℕ) → Step g (listened id) (listen id g)

  -- A run of a new group, with its operations, the latest one first.
  pub data Run (event_type : String) (max_queue : ℕ) : List (Label E) → Group E → Type 0 where
    start : Run event_type max_queue [] (new_group event_type max_queue)
    next :
        {ls : List (Label E)} {l : Label E} {g g' : Group E}
        → Run event_type max_queue ls g
        → Step g l g'
        → Run event_type max_queue (l ∷ ls) g'

  -- Whether a consumer is subscribed after some operations, the latest one first.
  abbrev pub active : ℕ → List (Label E) → Bool
  active id [] = false
  active id (published ev ∷ earlier) = active id earlier
  active id (added other ∷ earlier) = if nat_beq other id then true else active id earlier
  active id (deleted other ∷ earlier) = if nat_beq other id then false else active id earlier
  active id (listened other ∷ earlier) = active id earlier

  -- The events that were published while it was subscribed, in order.
  abbrev pub sent : ℕ → List (Label E) → List E
  sent id [] = []
  sent id (published ev ∷ earlier) =
      if active id earlier then sent id earlier ++ (ev ∷ []) else sent id earlier
  sent id (added other ∷ earlier) = sent id earlier
  sent id (deleted other ∷ earlier) = sent id earlier
  sent id (listened other ∷ earlier) = sent id earlier

  -- All that a consumer has got.
  abbrev pub received : Consumer E → List E
  received c = c.handled ++ (c.pending ++ c.queue)

  -- A consumer of a group whose queues hold `bound` events: it has got what was sent to it, in order,
  -- and its listener does not sleep on an event.
  pub record IsServed (bound : ℕ) (ls : List (Label E)) (c : Consumer E) : Type 0 where
    pub complete : received c ≡ sent c.id ls
    pub bounded : length c.queue ≤ bound
    pub no_lost_wakeup : c.phase ≢ awake → (c.queue ≡ []) × (c.pending ≡ [])
    pub stop_seen : c.phase ≡ ended → c.stop ≡ true

  -- With its place: below the next id, subscribed or not, and told to stop exactly if it is not.
  abbrev pub IsPlaced : ℕ → ℕ → Bool → List (Label E) → Consumer E → Type 0
  IsPlaced bound next_id there ls c =
      (c.id < next_id) × (active c.id ls ≡ there) × (c.stop ≡ not there) × IsServed bound ls c

  pub record IsOrderly (bound : ℕ) (ls : List (Label E)) (g : Group E) : Type 0 where
    pub limit : g.max_queue ≡ bound
    pub subscribed : All (IsPlaced bound g.next_id true ls) g.subs
    pub left : All (IsPlaced bound g.next_id false ls) g.departed
    pub fresh : (id : ℕ) → g.next_id ≤ id → (active id ls ≡ false) × (sent id ls ≡ [])

  pub All-map :
      {P : Consumer E → Type 0} (Q : Consumer E → Type 0) (f : Consumer E → Consumer E)
      (cs : List (Consumer E))
      → ((c : Consumer E) → P c → Q (f c))
      → All P cs
      → All Q (map f cs)
  All-map Q f [] h a = tt
  All-map Q f (c ∷ cs) h a = (h c a.0, All-map Q f cs h a.1)

  pub wake-IsServed :
      {bound : ℕ} {ls : List (Label E)} (c : Consumer E)
      → IsServed bound ls c
      → IsServed bound ls (wake c)
  wake-IsServed c s = ground arith

  received-listen_step : (c : Consumer E) → received (listen_step c) ≡ received c
  unfolding listen_step
  received-listen_step c = elim (List-cases c.pending) [
    | inr (ev, rest, e) ↦ ground (arith, ++_assoc c.handled (ev ∷ []) (rest ++ c.queue))
    | inl e ↦ elim (List-cases c.queue) [
      | inl none_there ↦ ground arith
      | inr (ev, evs, there) ↦ ground (arith, ++_nil (ev ∷ evs))
    ]
  ]

  pub id-listen_step : (c : Consumer E) → (listen_step c).id ≡ c.id
  unfolding listen_step
  id-listen_step c = ground arith

  pub listen_step-IsServed :
      {bound : ℕ} {ls : List (Label E)} (c : Consumer E)
      → IsServed bound ls c
      → IsServed bound ls (listen_step c)
  unfolding listen_step
  listen_step-IsServed {bound} {ls} c s = record {
    complete = rw (received-listen_step c, id-listen_step c) s.complete;
    bounded = ground arith;
    no_lost_wakeup = λ h. ground (arith, s.no_lost_wakeup);
    stop_seen = λ h. ground (arith, s.stop_seen);
  }

  pub max_len-bounds :
      (longest : ℕ) (cs : List (Consumer E))
      → (longest ≤ max_len longest cs) × All (λ c. length c.queue ≤ max_len longest cs) cs
  unfolding max_len
  max_len-bounds longest [] = (omega arith, tt)
  max_len-bounds longest (c ∷ cs) =
      let longer : ℕ = if ltb longest (length c.queue) then length c.queue else longest in
      let rest = max_len-bounds longer cs in
      let above : (longest ≤ longer) × (length c.queue ≤ longer) = ground arith in
      (omega arith, (omega arith, rest.1))

  -- A consumer as a later operation leaves the others: its events are what they were.
  pub kept-IsServed :
      {bound : ℕ} {ls ls' : List (Label E)} (c : Consumer E)
      → sent c.id ls' ≡ sent c.id ls
      → IsServed bound ls c
      → IsServed bound ls' c
  kept-IsServed c e s = record {
    complete = rw e s.complete;
    bounded = s.bounded;
    no_lost_wakeup = s.no_lost_wakeup;
    stop_seen = s.stop_seen;
  }

  pub published-IsServed :
      (bound : ℕ) (ls : List (Label E)) (ev : E) (c : Consumer E)
      → active c.id ls ≡ true
      → c.stop ≡ false
      → length c.queue < bound
      → IsServed bound ls c
      → IsServed bound (published ev ∷ ls) (wake (enqueue ev c))
  published-IsServed bound ls ev c there going room s = record {
    complete = ground (
      arith,
      s.complete,
      ++_assoc c.handled (c.pending ++ c.queue) (ev ∷ []),
      ++_assoc c.pending c.queue (ev ∷ []),
    );
    bounded = ground (arith, length-append c.queue (ev ∷ []));
    no_lost_wakeup = λ h. ground (arith, s.stop_seen);
    stop_seen = λ h. ground (arith, s.stop_seen);
  }

  pub missed-IsServed :
      (bound : ℕ) (ls : List (Label E)) (ev : E) (c : Consumer E)
      → active c.id ls ≡ false
      → IsServed bound ls c
      → IsServed bound (published ev ∷ ls) (wake c)
  missed-IsServed bound ls ev c gone s = wake-IsServed c (kept-IsServed c (rw gone refl) s)
