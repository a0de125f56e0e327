-- ===== src/Inference/Routed.antt =====
-- Where an inference request goes (proxy/proxymanager.go).
use omniswap.Prelude.{
  true, false, Option, none, some, ◌≡◌, refl, arith, Option-cases, Bool-cases, inl, inr, String, ℕ,
  ◌⊎◌,
}
use omniswap.Prelude.Text.{Text, text_eq, is_empty}
use omniswap.Filters.{Filters}
use omniswap.ModelNames.{real_model_name}
use omniswap.PeerAddress.Grammar.{Result, failed, ok, bad_request}
use omniswap.ProxyManager.{Groups, swap_process_group}
use omniswap.Inference.{
  Json, ProxyManager, Target, pinned, local, by_name, Route, Resolved, apply_filters, route_with,
  side_filters, named_filters, peers_have, settings, local_body, pick_handler, server_error,
}

module _ {B V : Type 0} (j : Json B V) where
  -- The filters of a route, and what its body was edited from.
  abbrev pub route_filters : ProxyManager V → Target → Text → Filters V
  route_filters pm (pinned id) model = side_filters j id pm
  route_filters pm (local group) model = (settings j model pm).filters
  route_filters pm by_name model = named_filters j model pm

  abbrev pub edited : Resolved B → ProxyManager V → Target → Text → Option B
  edited r pm (local group) model = local_body j (settings j model pm) r.body
  edited r pm target model = apply_filters j (route_filters pm target model) r.body

module _ {B V : Type 0} (j : Json B V) (as_string : Text → String) where
  -- What holds of a route: the pinned peer if there is one; otherwise the group that the swap gave
  -- for the local model of the name; otherwise the peers, which list the name, and there is no local model of it. Without a
  -- swap the groups are as they were.
  abbrev pub Routed : Resolved B → ProxyManager V → Target → Text → ProxyManager V → Type 0
  Routed r pm (pinned id) model pm' =
      (is_empty id ≡ false) × (id ≡ r.pin) × (model ≡ r.requested) × (pm' ≡ pm)
  Routed r pm (local group) model pm' =
      (is_empty r.pin ≡ true)
      × (real_model_name pm.config r.requested ≡ some model)
      × (swap_process_group (as_string model) pm.groups ≡ (pm'.groups, some group))
      × (pm' ≡ record pm { groups = pm'.groups })
  Routed r pm by_name model pm' =
      (is_empty r.pin ≡ true)
      × (real_model_name pm.config r.requested ≡ none)
      × (peers_have j r.requested pm ≡ true)
      × (model ≡ r.requested)
      × (pm' ≡ pm)

  -- Why a request is not routed, with the code and the state that are left: its filters could not be
  -- applied, the swap gave no group, or nothing serves the name. Only the way to a local model changes
  -- the groups, as the swap does.
  abbrev pub Refused : Resolved B → ProxyManager V → ℕ → ProxyManager V → Type 0
  Refused r pm code pm' =
      ((is_empty r.pin ≡ false)
        × (edited j r pm (pinned r.pin) r.requested ≡ none)
        × (code ≡ server_error)
        × (pm' ≡ pm))
      ⊎ ((is_empty r.pin ≡ true)
          × ((id : Text) × (real_model_name pm.config r.requested ≡ some id)
              × (code ≡ server_error)
              × ((swapped : Groups) × (pm' ≡ record pm { groups = swapped })
                  × ((swap_process_group (as_string id) pm.groups ≡ (swapped, none))
                      ⊎ ((group : String) × (swap_process_group (as_string id) pm.groups
                            ≡ (swapped, some group))
                          × (edited j r pm (local group) id ≡ none))))))
      ⊎ ((is_empty r.pin ≡ true)
          × (real_model_name pm.config r.requested ≡ none)
          × (peers_have j r.requested pm ≡ true)
          × (edited j r pm by_name r.requested ≡ none)
          × (code ≡ server_error)
          × (pm' ≡ pm))
      ⊎ ((is_empty r.pin ≡ true)
          × (real_model_name pm.config r.requested ≡ none)
          × (peers_have j r.requested pm ≡ false)
          × (code ≡ bad_request)
          × (pm' ≡ pm))

  abbrev pub IsRouted : Resolved B → ProxyManager V → Result (Route B) → ProxyManager V → Type 0
  IsRouted r pm (failed code) pm' = Refused r pm code pm'
  IsRouted r pm (ok route) pm' =
      Routed r pm route.target route.model_id pm'
      × (edited j r pm route.target route.model_id ≡ some route.body)

  route_with-IsRouted :
      (r : Resolved B) (pm pm' : ProxyManager V) (target : Target) (model : Text) (o : Option B)
      → Routed r pm target model pm'
      → (o ≡ none → Refused r pm server_error pm')
      → edited j r pm target model ≡ o
      → IsRouted r pm (route_with j target model o) pm'
  route_with-IsRouted r pm pm' target model none routed refused e = refused refl
  route_with-IsRouted r pm pm' target model (some body) routed refused e = (routed, e)

  pub pick_handler-IsRouted :
      (r : Resolved B) (pm : ProxyManager V)
      → let out = pick_handler j as_string r pm in IsRouted r pm out.0 out.1
  unfolding pick_handler
  pick_handler-IsRouted r pm = elim (Bool-cases (is_empty r.pin)) [
    | inr pins ↦ rw pins (
        route_with-IsRouted r pm pm (pinned r.pin) r.requested
          (apply_filters j (side_filters j r.pin pm) r.body) (pins, refl, refl, refl)
          (λ e. inl (pins, e, refl, refl)) refl)
    | inl free ↦ elim (Option-cases (real_model_name pm.config r.requested)) [
      | inr (id, found) ↦ elim (Option-cases (swap_process_group (as_string id) pm.groups).1) [
        | inl lost ↦
            rw (free, found, lost)
              (inr (inl (free, (id, found, refl, (_, refl, inl (ground arith))))))
        | inr (group, e) ↦
            rw (free, found, e)
              (route_with-IsRouted r pm
                (record pm { groups = (swap_process_group (as_string id) pm.groups).0 })
                (local group) id (local_body j (settings j id pm) r.body)
                (free, found, ground arith, refl)
                (λ e'.
                  inr (inl (free, (id, found, refl, (_, refl, inr (group, ground arith, e'))))))
                refl)
      ]
      | inl missing ↦ elim (Bool-cases (peers_have j r.requested pm)) [
        | inl have ↦
            rw (free, missing, have)
              (route_with-IsRouted r pm pm by_name r.requested
                (apply_filters j (named_filters j r.requested pm) r.body)
                (free, missing, have, refl, refl)
                (λ e. inr (inr (inl (free, missing, have, e, refl, refl)))) refl)
        | inr without ↦
            rw (free, missing, without) (inr (inr (inr (free, missing, without, refl, refl))))
      ]
    ]
  ]
