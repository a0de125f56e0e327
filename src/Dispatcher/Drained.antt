-- ===== src/Dispatcher/Drained.antt =====
-- A listener that is left alone (event/event.go).
use omniswap.Prelude.{
  ℕ, suc, zero, ◌+◌, ◌≡◌, refl, sym, List, [], ◌∷◌, ◌++◌, length, if◌then◌else◌, arith, ++_nil,
  ++_assoc, ◌∙◌, ap,
}
use omniswap.Dispatcher.Consumers.{Phase, awake, waiting, ended, Consumer, listen_step}
use omniswap.Dispatcher.Delivery.{received}

module _ {E : Type 0} where
  -- Some steps of a listener.
  abbrev pub listen_steps : ℕ → Consumer E → Consumer E
  listen_steps zero c = c
  listen_steps (suc n) c = listen_steps n (listen_step c)

  abbrev pub rounds : Consumer E → ℕ
  rounds c = length c.pending + (length c.queue + 2)

  -- With its work done: all is handled, and it waits, or has ended if it was told to stop.
  abbrev pub rest_phase : Consumer E → Phase
  rest_phase c = if c.stop then ended else waiting

  abbrev pub at_rest : Consumer E → Consumer E
  at_rest c = record c { queue = []; phase = rest_phase c; pending = []; handled = received c }

  listen_steps-add :
      (m n : ℕ) (c : Consumer E) → listen_steps (m + n) c ≡ listen_steps n (listen_steps m c)
  listen_steps-add zero n c = let e : 0 + n ≡ n = omega arith in rw e refl
  listen_steps-add (suc m) n c =
      let e : suc m + n ≡ suc (m + n) = omega arith in rw e (listen_steps-add m n (listen_step c))

  -- A listener with some events in its hands.
  abbrev holding : List E → Consumer E → Consumer E
  holding evs c = record c { phase = awake; pending = evs }

  -- The events that were taken are handled one by one.
  handle_all :
      (evs : List E) (c : Consumer E)
      → listen_steps (length evs) (holding evs c)
        ≡ record c { phase = awake; pending = []; handled = c.handled ++ evs }
  unfolding listen_step
  handle_all [] c = rw (++_nil c.handled) refl
  handle_all (ev ∷ evs) c =
      handle_all evs (record c { handled = c.handled ++ (ev ∷ []) })
      ∙ ap (λ (hs : List E). record c { phase = awake; pending = []; handled = hs })
          (++_assoc c.handled (ev ∷ []) evs)

  queue_tested :
      (c : Consumer E)
      → c.queue ≡ []
      → listen_step (holding [] c) ≡ record c { queue = []; phase = rest_phase c; pending = [] }
  unfolding listen_step
  queue_tested c e = ground arith

  rest_stays :
      (c : Consumer E)
      → listen_step (record c { phase = rest_phase c }) ≡ record c { phase = rest_phase c }
  unfolding listen_step
  rest_stays c = ground arith

  queue_taken :
      (ev : E) (evs : List E) (c : Consumer E)
      → c.queue ≡ ev ∷ evs
      → listen_step (holding [] c) ≡ holding (ev ∷ evs) (record c { queue = [] })
  unfolding listen_step
  queue_taken ev evs c e = ground arith

  -- With nothing in its hands, it takes the queue, handles it, and tests the queue again.
  take_all :
      (q : List E) (c : Consumer E)
      → c.queue ≡ q
      → listen_steps (length q + 2) (holding [] c)
        ≡ record c { queue = []; phase = rest_phase c; pending = []; handled = c.handled ++ q }
  take_all [] c e =
      ap listen_step (queue_tested c e)
      ∙ rest_stays (record c { queue = []; pending = [] })
      ∙ ap
          (λ (hs : List E). record c {
            queue = [];
            phase = rest_phase c;
            pending = [];
            handled = hs;
          })
          (sym (++_nil c.handled))
  take_all (ev ∷ evs) c e =
      let count : suc (length evs) + 2 ≡ suc (length (ev ∷ evs) + 1) = omega arith in
      let empty : Consumer E = record c { queue = [] } in
      ap (λ n. listen_steps n (holding [] c)) count
      ∙ ap (λ (d : Consumer E). listen_steps (length (ev ∷ evs) + 1) d) (queue_taken ev evs c e)
      ∙ listen_steps-add (length (ev ∷ evs)) 1 (holding (ev ∷ evs) empty)
      ∙ ap (λ (d : Consumer E). listen_steps 1 d) (handle_all (ev ∷ evs) empty)
      ∙ queue_tested (record empty { handled = c.handled ++ (ev ∷ evs) }) refl

  -- A listener that is awake, left alone: after as many steps as there are events in its hands and in
  -- its queue, and two more, it has handled them all in order, and waits, or has ended if it was told
  -- to stop.
  pub listen_steps-rounds :
      (c : Consumer E) → c.phase ≡ awake → listen_steps (rounds c) c ≡ at_rest c
  listen_steps-rounds c h =
      let c' : Consumer E = record c {
        phase = awake;
        pending = [];
        handled = c.handled ++ c.pending;
      } in
      let awake_now : c ≡ holding c.pending c = ground arith in
      listen_steps-add (length c.pending) (length c.queue + 2) c
      ∙ ap
          (λ (d : Consumer E).
            listen_steps (length c.queue + 2) (listen_steps (length c.pending) d))
          awake_now
      ∙ ap (λ (d : Consumer E). listen_steps (length c.queue + 2) d) (handle_all c.pending c)
      ∙ take_all c.queue c' refl
      ∙ ap
          (λ (hs : List E). record c {
            queue = [];
            phase = rest_phase c;
            pending = [];
            handled = hs;
          })
          (++_assoc c.handled c.pending c.queue)
