-- ===== src/Dispatcher/Reached.antt =====
-- What the consumers of a group get, in any interleaving of its operations (event/event.go).
use omniswap.Prelude.{
  ℕ, suc, ◌≤◌, ◌<◌, ◌≡◌, refl, sym, ap, ◌∙◌, Bool, true, false, ◌||◌, some, List, [], ◌∷◌, ◌++◌,
  length, leb, nat_beq, map, arith, All, Bool-cases, inl, inr, String,
}
use mathlib.Core.Path.{subst}
use omniswap.Dispatcher.Consumers.{
  Consumer, Group, new_group, wake, wake_all, max_len, enqueue, broadcast, add, without, only, del,
  listen_step, at_id, any_finishes, listen,
}
use omniswap.Dispatcher.Delivery.{
  Label, published, added, deleted, listened, Step, publishes, join, leave, work, Run, start, next,
  active, IsPlaced, IsOrderly, All-map, wake-IsServed, listen_step-IsServed, max_len-bounds,
  kept-IsServed, published-IsServed, missed-IsServed, id-listen_step,
}

module _ {E : Type 0} (bound : ℕ) where
  published-subs :
      (next_id : ℕ) (ls : List (Label E)) (ev : E) (cs : List (Consumer E)) (longest : ℕ)
      → longest < bound
      → All (λ c. length c.queue ≤ longest) cs
      → All (IsPlaced bound next_id true ls) cs
      → All (IsPlaced bound next_id true (published ev ∷ ls)) (map wake (map (enqueue ev) cs))
  published-subs next_id ls ev [] longest lt short a = tt
  published-subs next_id ls ev (c ∷ cs) longest lt short a = (
    (
      ground arith,
      ground arith,
      ground arith,
      published-IsServed bound ls ev c a.0.1 (ground arith) (omega arith) a.0.3,
    ),
    published-subs next_id ls ev cs longest lt short.1 a.1,
  )

  published-IsOrderly :
      (ls : List (Label E)) (ev : E) (g : Group E) {g' : Group E}
      → IsOrderly bound ls g
      → broadcast ev g ≡ some g'
      → IsOrderly bound (published ev ∷ ls) g'
  unfolding broadcast wake_all
  published-IsOrderly ls ev g {g'} o h = elim (Bool-cases (leb g.max_queue (max_len 0 g.subs))) [
    | inl full ↦ absurd (ground arith)
    | inr room ↦
        let same : wake_all (record g { subs = map (enqueue ev) g.subs }) ≡ g' = ground arith in
        rw (← same) (record {
          limit = o.limit;
          subscribed =
              published-subs g.next_id ls ev g.subs (max_len 0 g.subs) (ground (arith, o.limit))
                (max_len-bounds 0 g.subs).1 o.subscribed;
          left =
              All-map (IsPlaced bound g.next_id false (published ev ∷ ls)) wake g.departed
                (λ c a.
                  (ground arith, ground arith, ground arith, missed-IsServed bound ls ev c a.1 a.3))
                o.left;
          fresh = λ id le. ground (arith, o.fresh id le);
        })
  ]

  All-append :
      (P : Consumer E → Type 0) (xs ys : List (Consumer E)) → All P xs → All P ys → All P (xs ++ ys)
  All-append P [] ys a b = b
  All-append P (x ∷ xs) ys a b = (a.0, All-append P xs ys a.1 b)

  All-imp :
      {P : Consumer E → Type 0} (Q : Consumer E → Type 0) (cs : List (Consumer E))
      → ((c : Consumer E) → P c → Q c)
      → All P cs
      → All Q cs
  All-imp Q [] h a = tt
  All-imp Q (c ∷ cs) h a = (h c a.0, All-imp Q cs h a.1)

  -- A consumer that was there keeps its place when another one is added.
  older-IsPlaced :
      (next_id : ℕ) (there : Bool) (ls : List (Label E)) (c : Consumer E)
      → IsPlaced bound next_id there ls c
      → IsPlaced bound (suc next_id) there (added next_id ∷ ls) c
  older-IsPlaced next_id there ls c a = (omega arith, ground arith, a.2, kept-IsServed c refl a.3)

  added-IsOrderly :
      (ls : List (Label E)) (g : Group E)
      → IsOrderly bound ls g
      → IsOrderly bound (added (add g).1 ∷ ls) (add g).0
  unfolding add
  added-IsOrderly ls g o = record {
    limit = o.limit;
    subscribed =
        All-append (IsPlaced bound (suc g.next_id) true (added g.next_id ∷ ls)) g.subs (_ ∷ [])
          (All-imp (IsPlaced bound (suc g.next_id) true (added g.next_id ∷ ls)) g.subs
            (older-IsPlaced g.next_id true ls) o.subscribed)
          (
            (
              omega arith,
              ground arith,
              refl,
              record {
                complete = ground (arith, o.fresh g.next_id (omega arith));
                bounded = omega arith;
                no_lost_wakeup = λ h. ground arith;
                stop_seen = λ h. ground arith;
              },
            ),
            tt,
          );
    left =
        All-imp (IsPlaced bound (suc g.next_id) false (added g.next_id ∷ ls)) g.departed
          (older-IsPlaced g.next_id false ls) o.left;
    fresh = λ id le. ground (arith, o.fresh id (omega arith));
  }

  without-IsPlaced :
      (next_id : ℕ) (ls : List (Label E)) (id : ℕ) (cs : List (Consumer E))
      → All (IsPlaced bound next_id true ls) cs
      → All (IsPlaced bound next_id true (deleted id ∷ ls)) (without id cs)
  unfolding without
  without-IsPlaced next_id ls id [] a = tt
  without-IsPlaced next_id ls id (c ∷ cs) a = elim (Bool-cases (nat_beq c.id id)) [
    | inl e ↦ rw e (without-IsPlaced next_id ls id cs a.1)
    | inr e ↦ rw e (
      (a.0.0, ground arith, a.0.2, kept-IsServed c refl a.0.3),
      without-IsPlaced next_id ls id cs a.1,
    )
  ]

  only-IsPlaced :
      (next_id : ℕ) (ls : List (Label E)) (id : ℕ) (cs : List (Consumer E))
      → All (IsPlaced bound next_id true ls) cs
      → All (IsPlaced bound next_id false (deleted id ∷ ls)) (only id cs)
  unfolding only
  only-IsPlaced next_id ls id [] a = tt
  only-IsPlaced next_id ls id (c ∷ cs) a = elim (Bool-cases (nat_beq c.id id)) [
    | inr e ↦ rw e (only-IsPlaced next_id ls id cs a.1)
    | inl e ↦ rw e (
      (
        a.0.0,
        ground arith,
        refl,
        record {
          complete = a.0.3.complete;
          bounded = a.0.3.bounded;
          no_lost_wakeup = a.0.3.no_lost_wakeup;
          stop_seen = λ h. refl;
        },
      ),
      only-IsPlaced next_id ls id cs a.1,
    )
  ]

  deleted-IsOrderly :
      (ls : List (Label E)) (id : ℕ) (g : Group E)
      → IsOrderly bound ls g
      → IsOrderly bound (deleted id ∷ ls) (del id g)
  unfolding del
  deleted-IsOrderly ls id g o = record {
    limit = o.limit;
    subscribed = without-IsPlaced g.next_id ls id g.subs o.subscribed;
    left =
        All-append (IsPlaced bound g.next_id false (deleted id ∷ ls)) (only id g.subs) g.departed
          (only-IsPlaced g.next_id ls id g.subs o.subscribed)
          (All-imp (IsPlaced bound g.next_id false (deleted id ∷ ls)) g.departed
            (λ c a. (a.0, ground arith, a.2, kept-IsServed c refl a.3)) o.left);
    fresh = λ other le. ground (arith, o.fresh other le);
  }

  stop-listen_step : (c : Consumer E) → (listen_step c).stop ≡ c.stop
  unfolding listen_step
  stop-listen_step c = ground arith

  stepped-IsPlaced :
      (next_id : ℕ) (there : Bool) (ls : List (Label E)) (id : ℕ) (c : Consumer E)
      → IsPlaced bound next_id there ls c
      → IsPlaced bound next_id there (listened id ∷ ls) (at_id id c)
  stepped-IsPlaced next_id there ls id c a = elim (Bool-cases (nat_beq c.id id)) [
    | inl e ↦
        let same : at_id id c ≡ listen_step c = rw e refl in
        subst (IsPlaced bound next_id there (listened id ∷ ls)) (sym same) (
          rw (id-listen_step c) a.0,
          ap (λ i. active i ls) (id-listen_step c) ∙ a.1,
          stop-listen_step c ∙ a.2,
          kept-IsServed (listen_step c) refl (listen_step-IsServed c a.3),
        )
    | inr e ↦
        let same : at_id id c ≡ c = rw e refl in
        subst (IsPlaced bound next_id there (listened id ∷ ls)) (sym same)
          (a.0, a.1, a.2, kept-IsServed c refl a.3)
  ]

  wake-IsPlaced :
      (next_id : ℕ) (there : Bool) (ls : List (Label E)) (c : Consumer E)
      → IsPlaced bound next_id there ls c
      → IsPlaced bound next_id there ls (wake c)
  wake-IsPlaced next_id there ls c a =
      (ground arith, ground arith, ground arith, wake-IsServed c a.3)

  wake_all-IsOrderly :
      (ls : List (Label E)) (g : Group E) → IsOrderly bound ls g → IsOrderly bound ls (wake_all g)
  unfolding wake_all
  wake_all-IsOrderly ls g o = record {
    limit = o.limit;
    subscribed =
        All-map (IsPlaced bound g.next_id true ls) wake g.subs (wake-IsPlaced g.next_id true ls)
          o.subscribed;
    left =
        All-map (IsPlaced bound g.next_id false ls) wake g.departed
          (wake-IsPlaced g.next_id false ls) o.left;
    fresh = o.fresh;
  }

  stepped-IsOrderly :
      (ls : List (Label E)) (id : ℕ) (g : Group E)
      → IsOrderly bound ls g
      → IsOrderly bound
          (listened id ∷ ls)
          (record g { subs = map (at_id id) g.subs; departed = map (at_id id) g.departed })
  stepped-IsOrderly ls id g o = record {
    limit = o.limit;
    subscribed =
        All-map (IsPlaced bound g.next_id true (listened id ∷ ls)) (at_id id) g.subs
          (stepped-IsPlaced g.next_id true ls id) o.subscribed;
    left =
        All-map (IsPlaced bound g.next_id false (listened id ∷ ls)) (at_id id) g.departed
          (stepped-IsPlaced g.next_id false ls id) o.left;
    fresh = o.fresh;
  }

  listened-IsOrderly :
      (ls : List (Label E)) (id : ℕ) (g : Group E)
      → IsOrderly bound ls g
      → IsOrderly bound (listened id ∷ ls) (listen id g)
  unfolding listen
  listened-IsOrderly ls id g o =
      let s = stepped-IsOrderly ls id g o in
      elim (Bool-cases (any_finishes id g.subs || any_finishes id g.departed)) [
        | inl e ↦ rw e (wake_all-IsOrderly (listened id ∷ ls) _ s)
        | inr e ↦ rw e s
      ]

  Step-IsOrderly :
      {ls : List (Label E)} {g : Group E} {l : Label E} {g' : Group E}
      → Step g l g'
      → IsOrderly bound ls g
      → IsOrderly bound (l ∷ ls) g'
  Step-IsOrderly {ls} {g = g} (publishes ev e) o = published-IsOrderly ls ev g o e
  Step-IsOrderly {ls} (join g) o = added-IsOrderly ls g o
  Step-IsOrderly {ls} (leave g id) o = deleted-IsOrderly ls id g o
  Step-IsOrderly {ls} (work g id) o = listened-IsOrderly ls id g o

  -- In every run of a new group, whatever the order of its operations: each consumer has handled,
  -- taken or queued exactly the events that were published while it was subscribed, in their order,
  -- its queue holds no more than the limit, no listener waits while it has an event, and one that has
  -- returned was told to stop. The group's list holds consumers that are subscribed, and the
  -- consumers that have left it are not.
  pub Run-IsOrderly :
      {event_type : String} {ls : List (Label E)} {g : Group E}
      → Run event_type bound ls g
      → IsOrderly bound ls g
  unfolding new_group
  Run-IsOrderly start = record {
    limit = refl;
    subscribed = tt;
    left = tt;
    fresh = λ id le. (refl, refl);
  }
  Run-IsOrderly (next r s) = Step-IsOrderly s (Run-IsOrderly r)
