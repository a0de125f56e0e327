-- ===== src/Inference/Form/Alike.antt =====
-- A form goes where an inference request for the same model goes (proxy/proxymanager.go).
use omniswap.Prelude.{
  ℕ, false, Option, none, some, List, [], ◌∷◌, map, if◌then◌else◌, ◌≡◌, ◌∙◌, refl, ap, sym, arith,
  String, Option-cases, Bool-cases, inl, inr,
}
use mathlib.Core.Path.{subst}
use omniswap.Prelude.Text.{Text, text_eq, is_empty}
use omniswap.Prelude.Keys.{◌==◌}
use omniswap.Filters.{model_word}
use omniswap.PeerAddress.Grammar.{Result, failed, ok, Result-cases}
use omniswap.PeerAddress.Cache.{World}
use omniswap.PeerAddress.Resolve.{resolve_address}
use omniswap.ProxyManager.{Groups}
use omniswap.Inference.{
  Json, ProxyManager, Target, pinned, local, by_name, Route, Resolved, rewrite_model,
  resolve_request, pick_handler, route_request, settings,
}
use omniswap.Inference.Routed.{Routed, IsRouted, pick_handler-IsRouted}
use omniswap.Inference.Form.{
  Form, parsed, FormRoute, Named, Aim, resolve_form, aim, route_form, field_value, rebuild_values,
}

-- The name of the model that is sent: the one that its settings ask for, or the requested one.
abbrev pub sent_name : Text → Text → Text
sent_name use_model_name requested = if is_empty use_model_name then requested else use_model_name

-- A form in which each value of "model" is a name, and all else is as it was.
abbrev pub renamed_values : Text → List (Text × List Text) → List (Text × List Text)
renamed_values name [] = []
renamed_values name ((key, values) ∷ rest) =
    (key, (if key == model_word then map (λ v. name) values else values)) ∷ renamed_values name rest

-- The model that a requested name stands for, once its address is resolved.
abbrev pub resolved_model : {V : Type 0} → World → (ℕ → ℕ) → Text → ProxyManager V → Text
resolved_model world to_lower name pm = elim pm.peers [
  | none ↦ name
  | some side ↦ elim (resolve_address world to_lower name side.proxy).0 [
    | failed code ↦ []
    | ok res ↦ res.model
  ]
]

map-field_value :
    (use_model_name requested key : Text) (values : List Text)
    → map (field_value use_model_name requested key) values
      ≡ (if key == model_word then map (λ v. sent_name use_model_name requested) values else values)
map-field_value use_model_name requested key [] = ground arith
map-field_value use_model_name requested key (v ∷ values) =
    ground (arith, map-field_value use_model_name requested key values)

rebuild_values_lem :
    (use_model_name requested : Text) (values : List (Text × List Text))
    → rebuild_values use_model_name requested values
      ≡ renamed_values (sent_name use_model_name requested) values
unfolding rebuild_values
rebuild_values_lem use_model_name requested [] = refl
rebuild_values_lem use_model_name requested ((key, values) ∷ rest) =
    rw
      (
        map-field_value use_model_name requested key values,
        rebuild_values_lem use_model_name requested rest,
      )
      refl

module _ {B V : Type 0} (j : Json B V) where
  resolve_form-resolve_request :
      (world : World) (to_lower : ℕ → ℕ) (requested : Text) (body : B) (pm : ProxyManager V)
      {r : Resolved B}
      → let out = resolve_request j world to_lower requested body pm in
        out.0 ≡ ok r
        → resolve_form j world to_lower requested pm
          ≡ (ok (record { pinned_peer_id = r.pin; requested = r.requested }), out.1)
  unfolding resolve_request resolve_form
  resolve_form-resolve_request world to_lower requested body pm {r} e =
      elim (Option-cases pm.peers) [
        | inl alone ↦ ground arith
        | inr (side, has) ↦
            elim (Result-cases (resolve_address world to_lower requested side.proxy).0) [
              | inl (code, lost) ↦ absurd (ground arith)
              | inr (res, found) ↦
                  elim (Option-cases (rewrite_model j res.rewrote res.model body)) [
                    | inl lost ↦ absurd (ground arith)
                    | inr (b, there) ↦ ground arith
                  ]
            ]
      ]

  requested-resolved_model :
      (world : World) (to_lower : ℕ → ℕ) (requested : Text) (body : B) (pm : ProxyManager V)
      {r : Resolved B}
      → (resolve_request j world to_lower requested body pm).0 ≡ ok r
      → r.requested ≡ resolved_model world to_lower requested pm
  unfolding resolve_request
  requested-resolved_model world to_lower requested body pm {r} e = elim (Option-cases pm.peers) [
    | inl alone ↦ ground arith
    | inr (side, has) ↦
        elim (Result-cases (resolve_address world to_lower requested side.proxy).0) [
          | inl (code, lost) ↦ absurd (ground arith)
          | inr (res, found) ↦ elim (Option-cases (rewrite_model j res.rewrote res.model body)) [
            | inl lost ↦ absurd (ground arith)
            | inr (b, there) ↦ ground arith
          ]
        ]
  ]

  module _ (as_string : Text → String) where
    aim_alike :
        (r : Resolved B) (pm pm' : ProxyManager V) (target : Target) (model : Text)
        → Routed j as_string r pm target model pm'
        → aim j as_string (record { pinned_peer_id = r.pin; requested = r.requested }) pm
          ≡ (ok (record { target = target; model_id = model }), pm')
    unfolding aim
    aim_alike r pm pm' (pinned id) model h = ground arith
    aim_alike r pm pm' (local group) model h =
        let e : aim j as_string (record { pinned_peer_id = r.pin; requested = r.requested }) pm ≡ (
          ok (record { target = local group; model_id = model }),
          record pm { groups = pm'.groups },
        ) =
          rw (h.0, h.1, h.2, aim)
            (ap
              (λ (gs : Groups).
                (ok (record { target = local group; model_id = model }), record pm { groups = gs }))
              (ap (λ (o : Groups × Option String). o.0) h.2)) in
        e
        ∙ ap (λ (p : ProxyManager V). (ok (record { target = local group; model_id = model }), p))
            (sym h.3)
    aim_alike r pm pm' by_name model h = ground arith

    route_form_step :
        {F : Type 0} (world : World) (to_lower : ℕ → ℕ) (form : Form F) (pm : ProxyManager V)
        {n : Named} {pm' : ProxyManager V} {a : Aim} {pm'' : ProxyManager V}
        → is_empty form.model ≡ false
        → resolve_form j world to_lower form.model pm ≡ (ok n, pm')
        → aim j as_string n pm' ≡ (ok a, pm'')
        → route_form j as_string world to_lower (parsed form) pm ≡ (
          ok (record {
            target = a.target;
            model_id = a.model_id;
            values =
                rebuild_values (settings j a.model_id pm).use_model_name n.requested form.values;
            files = form.files;
          }),
          pm'',
        )
    unfolding route_form
    route_form_step world to_lower form pm h e k = ground arith

    -- An inference request and a form for the same model, in the same state: if the inference request
    -- is routed, the form is forwarded to the same target, for the same model, and leaves the same
    -- state. Its files are those of the form, and so are its values, but each value of "model" is the
    -- name that the settings of the model ask for, or else the model that the requested address
    -- resolves to.
    pub route_form-route_request :
        {F : Type 0} (world : World) (to_lower : ℕ → ℕ) (form : Form F) (body : B)
        (pm : ProxyManager V) {route : Route B}
        → j.string (j.get body model_word) ≡ form.model
        → let out = route_request j as_string world to_lower (some body) pm in
          out.0 ≡ ok route
          → let out' = route_form j as_string world to_lower (parsed form) pm in
            (out'.0
              ≡ ok (record {
                target = route.target;
                model_id = route.model_id;
                values =
                    renamed_values
                      (sent_name
                        (settings j route.model_id pm).use_model_name
                        (resolved_model world to_lower form.model pm))
                      form.values;
                files = form.files;
              }))
            × (out'.1 ≡ out.1)
    unfolding route_request route_form
    route_form-route_request {F} world to_lower form body pm {route} same e =
        let requested = j.string (j.get body model_word) in
        let out = resolve_request j world to_lower requested body pm in
        elim (Bool-cases (is_empty requested)) [
          | inl missing ↦ absurd (ground arith)
          | inr named ↦ elim (Result-cases out.0) [
            | inl (code, lost) ↦ absurd (ground arith)
            | inr (r, found) ↦
                let pick : (pick_handler j as_string r out.1).0 ≡ ok route = ground arith in
                let routed : IsRouted j as_string r out.1 (ok route)
                    (pick_handler j as_string r out.1).1 =
                  subst
                    (λ (o : Result (Route B)).
                      IsRouted j as_string r out.1 o (pick_handler j as_string r out.1).1)
                    pick (pick_handler-IsRouted j as_string r out.1) in
                let aimed =
                  aim_alike r out.1 (pick_handler j as_string r out.1).1 route.target route.model_id
                    routed.0 in
                let resolved =
                  resolve_form-resolve_request world to_lower requested body pm {r = r} found in
                let resolved' : resolve_form j world to_lower form.model pm
                    ≡ (ok (record { pinned_peer_id = r.pin; requested = r.requested }), out.1) =
                  subst
                    (λ (t : Text).
                      resolve_form j world to_lower t pm
                      ≡ (ok (record { pinned_peer_id = r.pin; requested = r.requested }), out.1))
                    same resolved in
                let named' : is_empty form.model ≡ false =
                  subst (λ (t : Text). is_empty t ≡ false) same named in
                let step =
                  route_form_step world to_lower form pm
                    {n = record { pinned_peer_id = r.pin; requested = r.requested }} {pm' = out.1}
                    {a = record { target = route.target; model_id = route.model_id }}
                    {pm'' = (pick_handler j as_string r out.1).1} named' resolved' aimed in
                let sent : rebuild_values (settings j route.model_id pm).use_model_name r.requested
                      form.values
                    ≡ renamed_values
                        (sent_name (settings j route.model_id pm).use_model_name
                          (resolved_model world to_lower form.model pm))
                        form.values =
                  rebuild_values_lem (settings j route.model_id pm).use_model_name r.requested
                    form.values
                  ∙ ap
                      (λ (name : Text).
                        renamed_values
                          (sent_name (settings j route.model_id pm).use_model_name name)
                          form.values)
                      (requested-resolved_model world to_lower requested body pm {r = r} found
                        ∙ ap (λ (t : Text). resolved_model world to_lower t pm) same) in
                (
                  ap (λ (o : Result (FormRoute F) × ProxyManager V). o.0) step
                      ∙ ap
                          (λ (vs : List (Text × List Text)). ok (record {
                            target = route.target;
                            model_id = route.model_id;
                            values = vs;
                            files = form.files;
                          }))
                          sent,
                  ground arith,
                )
          ]
        ]
