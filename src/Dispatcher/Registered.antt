-- ===== src/Dispatcher/Registered.antt =====
-- The registry as a map from event types to groups (event/event.go).
use omniswap.Prelude.{
  ℕ, suc, zero, ◌≤◌, ◌<◌, ◌≡◌, ◌≢◌, refl, Option, none, some, List, [], ◌∷◌, ◌++◌, length,
  if◌then◌else◌, nat_beq, get_elem?, take, set, arith, All, Option-cases, inl, inr, ◌∙◌, String,
  length-append,
}
use omniswap.Prelude.Keys.{string_eq}
use omniswap.Prelude.Slices.{drop}
use omniswap.Dispatcher.Consumers.{Group, add, count, new_group}
use omniswap.Dispatcher.{
  Registry, Dispatcher, position, find_place, find_group, store_group, insert_group, subscribe_to,
  subscribers,
}
use omniswap.Dispatcher.Search.{IsAscending, position_bound, get_elem?-above, search_loop_lem}

All-lt : (a b : ℕ) (ks : List ℕ) → a ≤ b → All (λ x. b < x) ks → All (λ x. a < x) ks
All-lt a b [] h all = tt
All-lt a b (k ∷ ks) h all = (omega arith, All-lt a b ks h all.1)

abbrev inserted {ℓ} : {A : Type ℓ} → ℕ → A → List A → List A
inserted p x xs = take p xs ++ (x ∷ drop p xs)

All-inserted :
    (b t p : ℕ) (ks : List ℕ) → b < t → All (λ x. b < x) ks → All (λ x. b < x) (inserted p t ks)
All-inserted b t zero ks lt h = (lt, h)
All-inserted b t (suc p) [] lt h = (lt, tt)
All-inserted b t (suc p) (k ∷ ks) lt h = (h.0, All-inserted b t p ks lt h.1)

length-inserted :
    {A : Type 0} (p : ℕ) (x : A) (xs : List A) → length (inserted p x xs) ≡ suc (length xs)
length-inserted zero x xs = refl
length-inserted (suc p) x [] = refl
length-inserted (suc p) x (y ∷ ys) = omega (arith, length-inserted p x ys)

module _ {G : Type 0} where
  -- The group of a key, by a scan of all keys.
  abbrev pub find_assoc : ℕ → List ℕ → List G → Option G
  find_assoc t [] gs = none
  find_assoc t (k ∷ ks) [] = none
  find_assoc t (k ∷ ks) (g ∷ gs) = if nat_beq k t then some g else find_assoc t ks gs

  find_assoc-none :
      (t : ℕ) (ks : List ℕ) (gs : List G) → All (λ x. t < x) ks → find_assoc t ks gs ≡ none
  find_assoc-none t [] gs h = refl
  find_assoc-none t (k ∷ ks) [] h = refl
  find_assoc-none t (k ∷ ks) (g ∷ gs) h = ground (arith, find_assoc-none t ks gs h.1)

  -- What stands at the position of a key.
  abbrev pub at_position : ℕ → List ℕ → List G → Option G
  at_position t ks gs = elim (get_elem? ks (position t ks)) [
    | none ↦ none
    | some k ↦ if nat_beq k t then get_elem? gs (position t ks) else none
  ]

  find_assoc-position :
      (t : ℕ) (ks : List ℕ) (gs : List G)
      → IsAscending ks
      → length gs ≡ length ks
      → at_position t ks gs ≡ find_assoc t ks gs
  unfolding position
  find_assoc-position t [] gs s h = refl
  find_assoc-position t (k ∷ ks) [] s h = absurd (omega arith)
  find_assoc-position t (k ∷ ks) (g ∷ gs) s h =
      ground (arith, find_assoc-position t ks gs s.1, find_assoc-none t ks gs, All-lt t k ks)

  find_assoc-inserted :
      (t u : ℕ) (g : G) (ks : List ℕ) (gs : List G)
      → length gs ≡ length ks
      → find_assoc u (inserted (position t ks) t ks) (inserted (position t ks) g gs)
        ≡ (if nat_beq t u then some g else find_assoc u ks gs)
  unfolding position
  find_assoc-inserted t u g [] [] h = refl
  find_assoc-inserted t u g [] (x ∷ gs) h = absurd (omega arith)
  find_assoc-inserted t u g (k ∷ ks) [] h = absurd (omega arith)
  find_assoc-inserted t u g (k ∷ ks) (x ∷ gs) h = ground (arith, find_assoc-inserted t u g ks gs)

  inserted-IsAscending :
      (t : ℕ) (ks : List ℕ) (gs : List G)
      → length gs ≡ length ks
      → find_assoc t ks gs ≡ none
      → IsAscending ks
      → IsAscending (inserted (position t ks) t ks)
  unfolding position
  inserted-IsAscending t [] gs l n s = (tt, tt)
  inserted-IsAscending t (k ∷ ks) [] l n s = absurd (omega arith)
  inserted-IsAscending t (k ∷ ks) (g ∷ gs) l n s =
      ground
        (arith, inserted-IsAscending t ks gs, All-inserted k t (position t ks) ks, All-lt t k ks)

  find_assoc-set :
      (t u p : ℕ) (g : G) (ks : List ℕ) (gs : List G)
      → IsAscending ks
      → length gs ≡ length ks
      → get_elem? ks p ≡ some t
      → find_assoc u ks (set gs p g) ≡ (if nat_beq t u then some g else find_assoc u ks gs)
  find_assoc-set t u p g [] gs s l e = ground arith
  find_assoc-set t u p g (k ∷ ks) [] s l e = absurd (omega arith)
  find_assoc-set t u zero g (k ∷ ks) (x ∷ gs) s l e = ground arith
  find_assoc-set t u (suc p) g (k ∷ ks) (x ∷ gs) s l e =
      ground (arith, find_assoc-set t u p g ks gs s.1, get_elem?-above k ks p {k = t} s.0)

  length-set : (xs : List G) (p : ℕ) (g : G) → length (set xs p g) ≡ length xs
  length-set [] p g = refl
  length-set (x ∷ xs) zero g = refl
  length-set (x ∷ xs) (suc p) g = omega (arith, length-set xs p g)

module _ {E : Type 0} where
  -- The keys are in order, and each has its group.
  pub record IsRegistry (reg : Registry E) : Type 0 where
    pub ascending : IsAscending reg.keys
    pub grouped : length reg.grps ≡ length reg.keys

  -- The registry read as a map.
  abbrev pub group_of : ℕ → Registry E → Option (Group E)
  group_of t reg = find_assoc t reg.keys reg.grps

  find_place_lem :
      (t : ℕ) (reg : Registry E)
      → IsRegistry reg
      → find_place t reg ≡ (elim (get_elem? reg.keys (position t reg.keys)) [
        | none ↦ none
        | some k ↦ if nat_beq k t then some (position t reg.keys) else none
      ])
  unfolding find_place
  find_place_lem t reg w =
      rw
        (
          (search_loop_lem (suc (length reg.keys)) reg.keys t 0 (length reg.keys) w.ascending
              (omega arith) (omega arith) (omega arith) (position_bound t reg.keys)),
          find_place,
        )
        refl

  -- In a registry whose keys are in order: the binary search ends, and finds the group that a scan of
  -- all keys finds, or none if the event type has no group.
  pub find_group-group_of :
      (t : ℕ) (reg : Registry E) → IsRegistry reg → find_group t reg ≡ group_of t reg
  unfolding find_group
  find_group-group_of t reg w =
      ground (
        arith,
        find_place_lem t reg w,
        find_assoc-position t reg.keys reg.grps w.ascending w.grouped,
      )

  found_place :
      (t : ℕ) (reg : Registry E) {g : Group E}
      → IsRegistry reg
      → find_group t reg ≡ some g
      → (find_place t reg ≡ some (position t reg.keys))
        × (get_elem? reg.keys (position t reg.keys) ≡ some t)
  unfolding find_group
  found_place t reg w h = ground (arith, find_place_lem t reg w)

  store_group-IsRegistry :
      (t : ℕ) (g : Group E) (reg : Registry E) → IsRegistry reg → IsRegistry (store_group t g reg)
  unfolding store_group
  store_group-IsRegistry t g reg w = elim (Option-cases (find_place t reg)) [
    | inl e ↦ rw (e, store_group) w
    | inr (p, e) ↦
        rw (e, store_group)
          (record { ascending = w.ascending; grouped = length-set reg.grps p g ∙ w.grouped })
  ]

  group_of-store_group :
      (t u : ℕ) (g : Group E) (reg : Registry E) {old : Group E}
      → IsRegistry reg
      → find_group t reg ≡ some old
      → group_of u (store_group t g reg) ≡ (if nat_beq t u then some g else group_of u reg)
  unfolding store_group
  group_of-store_group t u g reg {old} w h =
      let place = found_place t reg {g = old} w h in
      rw (place.0, store_group)
        (find_assoc-set t u (position t reg.keys) g reg.keys reg.grps w.ascending w.grouped place.1)

  insert_group-IsRegistry :
      (t : ℕ) (g : Group E) (reg : Registry E)
      → IsRegistry reg
      → find_group t reg ≡ none
      → IsRegistry (insert_group t g reg)
  unfolding insert_group
  insert_group-IsRegistry t g reg w h = record {
    ascending =
        inserted-IsAscending t reg.keys reg.grps w.grouped
          (ground (arith, find_group-group_of t reg w)) w.ascending;
    grouped = omega (
      arith,
      w.grouped,
      position_bound t reg.keys,
      length-inserted (position t reg.keys) t reg.keys,
      length-inserted (position t reg.keys) g reg.grps,
    );
  }

  -- A registry in which one group was put for an event type.
  abbrev IsPut : ℕ → Group E → Registry E → Registry E → Type 0
  IsPut t g reg reg' =
      IsRegistry reg'
      × ((u : ℕ) → group_of u reg' ≡ (if nat_beq t u then some g else group_of u reg))

  IsPut-find_group :
      (t u : ℕ) (g : Group E) (reg reg' : Registry E)
      → IsRegistry reg
      → IsPut t g reg reg'
      → find_group u reg' ≡ (if nat_beq t u then some g else find_group u reg)
  IsPut-find_group t u g reg reg' w p =
      rw (find_group-group_of u reg' p.0, find_group-group_of u reg w) (p.1 u)

  inserted-IsPut :
      (t : ℕ) (g : Group E) (reg : Registry E)
      → IsRegistry reg
      → find_group t reg ≡ none
      → IsPut t g reg (insert_group t g reg)
  unfolding insert_group
  inserted-IsPut t g reg w h = (
    insert_group-IsRegistry t g reg w h,
    λ u. find_assoc-inserted t u g reg.keys reg.grps w.grouped,
  )

  stored-IsPut :
      (t : ℕ) (g : Group E) (reg : Registry E) {old : Group E}
      → IsRegistry reg
      → find_group t reg ≡ some old
      → IsPut t g reg (store_group t g reg)
  stored-IsPut t g reg {old} w h =
      (store_group-IsRegistry t g reg w, λ u. group_of-store_group t u g reg {old = old} w h)

  -- The group that a subscription leaves for its event type, and its consumer.
  abbrev joined : String → ℕ → Dispatcher E → Group E × ℕ
  joined event_type t d = elim (find_group t d.subs) [
    | none ↦ add (new_group event_type d.max_queue)
    | some g ↦ add g
  ]

  count-joined :
      (event_type : String) (t : ℕ) (d : Dispatcher E)
      → count (joined event_type t d).0 ≡ suc (subscribers t d)
  unfolding subscribers count add new_group
  count-joined event_type t d = elim (Option-cases (find_group t d.subs)) [
    | inl e ↦
        let before : subscribers t d ≡ 0 = rw (e, subscribers) refl in
        rw (e, joined) (omega (arith, before))
    | inr (g, e) ↦
        let before : subscribers t d ≡ length g.subs = rw (e, subscribers) refl in
        rw (e, joined) (omega (arith, before, length-append {0} g.subs (_ ∷ [])))
  ]

  subscribe_to-IsPut :
      (event_type : String) (t : ℕ) (d : Dispatcher E) {d' : Dispatcher E} {sub : ℕ}
      → IsRegistry d.subs
      → subscribe_to event_type t d ≡ some (d', sub)
      → IsPut t (joined event_type t d).0 d.subs d'.subs
  unfolding subscribe_to
  subscribe_to-IsPut event_type t d {d'} {sub} w h = elim (Option-cases (find_group t d.subs)) [
    | inl e ↦
        let put = inserted-IsPut t (add (new_group event_type d.max_queue)).0 d.subs w e in
        let same : d'.subs ≡ insert_group t (add (new_group event_type d.max_queue)).0 d.subs =
          ground arith in
        let grp : joined event_type t d ≡ add (new_group event_type d.max_queue) =
          rw (e, joined) refl in
        rw (grp, same) put
    | inr (g, e) ↦
        let put = stored-IsPut t (add g).0 d.subs {old = g} w e in
        let same : d'.subs ≡ store_group t (add g).0 d.subs = ground arith in
        let grp : joined event_type t d ≡ add g = rw (e, joined) refl in rw (grp, same) put
  ]

  -- A subscription that does not panic, to a dispatcher whose keys are in order: they stay in order,
  -- the event type has one more subscriber, and the groups of the other event types are what they
  -- were.
  pub subscribe_to_lem :
      (event_type : String) (t : ℕ) (d : Dispatcher E) {d' : Dispatcher E} {sub : ℕ}
      → IsRegistry d.subs
      → subscribe_to event_type t d ≡ some (d', sub)
      → IsRegistry d'.subs
        × (subscribers t d' ≡ suc (subscribers t d))
        × ((u : ℕ) → t ≢ u → find_group u d'.subs ≡ find_group u d.subs)
  unfolding subscribers
  subscribe_to_lem event_type t d {d'} {sub} w h =
      let put = subscribe_to-IsPut event_type t d {d' = d'} {sub = sub} w h in
      (
        put.0,
        ground (
          arith,
          IsPut-find_group t t (joined event_type t d).0 d.subs d'.subs w put,
          count-joined event_type t d,
        ),
        λ u ne. ground (arith, IsPut-find_group t u (joined event_type t d).0 d.subs d'.subs w put),
      )
