-- ===== src/Inference/Forwarded.antt =====
-- The body that an inference request is forwarded with (proxy/proxymanager.go).
use omniswap.Prelude.{
  ℕ, Bool, true, false, not, ◌&&◌, Option, some, ◌≡◌, refl, ◌∙◌, ap, if◌then◌else◌, arith, ◌⊎◌,
  Option-cases, Bool-cases, inl, inr, String,
}
use mathlib.Core.Path.{subst}
use omniswap.Prelude.Keys.{◌==◌}
use omniswap.Prelude.Text.{Text, text_eq, is_empty}
use omniswap.Filters.{Filters, model_word}
use omniswap.PeerAddress.Grammar.{Result, ok, Result-cases}
use omniswap.PeerAddress.Cache.{World, PeerProxy}
use omniswap.PeerAddress.Resolve.{resolve_address}
use omniswap.Inference.{
  Json, ProxyManager, Target, pinned, local, by_name, Route, Resolved, apply_filters, rewrite_model,
  ModelConfig, settings, PeerSide, local_body, pick_handler, resolve_request, route_request,
}
use omniswap.Inference.Body.{IsJson, PlainFilters, filtered, get-apply_filters, get-rewrite_model}
use omniswap.Inference.Routed.{route_filters, edited, IsRouted, pick_handler-IsRouted}

module _ {B V : Type 0} (j : Json B V) (plain : Text → Bool) (distinct : B → Bool)
    (w : IsJson j plain distinct) where
  -- The value of a parameter once the model is renamed for a local model's settings.
  abbrev pub renamed : ProxyManager V → Target → Text → Text → Option V → Option V
  renamed pm (local group) model other before =
      let name = (settings j model pm).use_model_name in
      if not (is_empty name) && model_word == other then some (j.text_value name) else before
  renamed pm target model other before = before

  get-local_body :
      (m : ModelConfig V) (body : B) (other : Text) {body' : B}
      → plain model_word ≡ true
      → PlainFilters plain m.filters
      → plain other ≡ true
      → distinct body ≡ true
      → local_body j m body ≡ some body'
      → j.get body' other
        ≡ filtered m.filters other (
            if not (is_empty m.use_model_name) && model_word == other
            then some (j.text_value m.use_model_name)
            else j.get body other)
  unfolding local_body
  get-local_body m body other {body'} mp h p d e =
      elim (Option-cases
        (rewrite_model j (not (is_empty m.use_model_name)) m.use_model_name body)) [
          | inl lost ↦ absurd (ground arith)
          | inr (b, there) ↦
              let step : apply_filters j m.filters b ≡ some body' = ground arith in
              let (d', named) =
                get-rewrite_model j plain distinct w (not (is_empty m.use_model_name))
                  m.use_model_name body other {body' = b} mp p d there in
              get-apply_filters j plain distinct w m.filters b other {body' = body'} h p d' step
              ∙ ap (filtered m.filters other) named
        ]

  get-edited :
      (r : Resolved B) (pm : ProxyManager V) (target : Target) (model other : Text) {body' : B}
      → plain model_word ≡ true
      → PlainFilters plain (route_filters j pm target model)
      → plain other ≡ true
      → distinct r.body ≡ true
      → edited j r pm target model ≡ some body'
      → j.get body' other
        ≡ filtered
            (route_filters j pm target model)
            other
            (renamed pm target model other (j.get r.body other))
  get-edited r pm (pinned id) model other {body'} mp h p d e =
      get-apply_filters j plain distinct w (route_filters j pm (pinned id) model) r.body other
        {body' = body'} h p d e
  get-edited r pm by_name model other {body'} mp h p d e =
      get-apply_filters j plain distinct w (route_filters j pm by_name model) r.body other
        {body' = body'} h p d e
  get-edited r pm (local group) model other {body'} mp h p d e =
      get-local_body (settings j model pm) r.body other {body' = body'} mp h p d e

  get-resolve_request :
      (world : World) (to_lower : ℕ → ℕ) (requested : Text) (body : B) (pm : ProxyManager V)
      (other : Text) {r : Resolved B}
      → plain model_word ≡ true
      → plain other ≡ true
      → (model_word == other) ≡ false
      → distinct body ≡ true
      → (resolve_request j world to_lower requested body pm).0 ≡ ok r
      → (distinct r.body ≡ true) × (j.get r.body other ≡ j.get body other)
  unfolding resolve_request
  get-resolve_request world to_lower requested body pm other {r} mp p ne d e =
      elim (Option-cases pm.peers) [
        | inl alone ↦ ground arith
        | inr (side, has) ↦
            elim (Result-cases (resolve_address world to_lower requested side.proxy).0) [
              | inl (code, lost) ↦ absurd (ground arith)
              | inr (res, found) ↦
                  elim (Option-cases (rewrite_model j res.rewrote res.model body)) [
                    | inl lost ↦ absurd (ground arith)
                    | inr (b, there) ↦ ground (
                      arith,
                      get-rewrite_model j plain distinct w res.rewrote res.model body other
                          {body' = b} mp p d there,
                    )
                  ]
            ]
      ]

  -- The resolution changes only what was polled of the peers.
  resolve_request-state :
      (world : World) (to_lower : ℕ → ℕ) (requested : Text) (body : B) (pm : ProxyManager V)
      → let pm' = (resolve_request j world to_lower requested body pm).1 in
        (pm' ≡ pm)
        ⊎ ((side : PeerSide V) × (proxy' : PeerProxy) × (pm.peers ≡ some side)
            × (pm' ≡ record pm { peers = some (record side { proxy = proxy' }) }))
  unfolding resolve_request
  resolve_request-state world to_lower requested body pm = elim (Option-cases pm.peers) [
    | inl alone ↦ inl (ground arith)
    | inr (side, has) ↦
        let out = resolve_address world to_lower requested side.proxy in
        elim (Result-cases out.0) [
          | inl (code, lost) ↦ inr (side, out.1, has, ground arith)
          | inr (res, found) ↦ elim (Option-cases (rewrite_model j res.rewrote res.model body)) [
            | inl lost ↦ inr (side, out.1, has, ground arith)
            | inr (b, there) ↦ inr (side, out.1, has, ground arith)
          ]
        ]
  ]

  -- So it changes neither the filters of a route nor the settings of a model.
  route_filters_kept :
      (pm pm' : ProxyManager V) (target : Target) (model : Text)
      → ((pm' ≡ pm)
          ⊎ ((side : PeerSide V) × (proxy' : PeerProxy) × (pm.peers ≡ some side)
              × (pm' ≡ record pm { peers = some (record side { proxy = proxy' }) })))
      → route_filters j pm' target model ≡ route_filters j pm target model
  route_filters_kept pm pm' target model (inl same) =
      ap (λ (p : ProxyManager V). route_filters j p target model) same
  route_filters_kept pm pm' (pinned id) model (inr (side, proxy', has, same)) = ground arith
  route_filters_kept pm pm' (local group) model (inr (side, proxy', has, same)) = ground arith
  route_filters_kept pm pm' by_name model (inr (side, proxy', has, same)) = ground arith

  module _ (as_string : Text → String) where
    picked-body :
        (r : Resolved B) (pm : ProxyManager V) (other : Text) {route : Route B}
        → plain model_word ≡ true
        → PlainFilters plain (route_filters j pm route.target route.model_id)
        → plain other ≡ true
        → distinct r.body ≡ true
        → (pick_handler j as_string r pm).0 ≡ ok route
        → j.get route.body other
          ≡ filtered
              (route_filters j pm route.target route.model_id)
              other
              (renamed pm route.target route.model_id other (j.get r.body other))
    picked-body r pm other {route} mp h p d e =
        let routed : IsRouted j as_string r pm (ok route) (pick_handler j as_string r pm).1 =
          subst
            (λ (o : Result (Route B)).
              IsRouted j as_string r pm o (pick_handler j as_string r pm).1)
            e (pick_handler-IsRouted j as_string r pm) in
        get-edited r pm route.target route.model_id other {body' = route.body} mp h p d routed.1

    renamed_other :
        (pm : ProxyManager V) (target : Target) (model other : Text) (before : Option V)
        → (model_word == other) ≡ false
        → renamed pm target model other before ≡ before
    renamed_other pm (pinned id) model other before ne = refl
    renamed_other pm by_name model other before ne = refl
    renamed_other pm (local group) model other before ne = ground arith

    -- For a request that is routed, whose body is an object that gives no name twice, where the
    -- filters of the route edit plain keys, without the characters that have a meaning in a path:
    -- every plain parameter but "model" is forwarded as the filters of the route say, with the
    -- configured value if they set it, without one if they strip it, and as it came otherwise.
    pub get-route_request :
        (world : World) (to_lower : ℕ → ℕ) (body : B) (pm : ProxyManager V) (other : Text)
        {route : Route B}
        → plain model_word ≡ true
        → PlainFilters plain (route_filters j pm route.target route.model_id)
        → plain other ≡ true
        → (model_word == other) ≡ false
        → distinct body ≡ true
        → (route_request j as_string world to_lower (some body) pm).0 ≡ ok route
        → j.get route.body other
          ≡ filtered (route_filters j pm route.target route.model_id) other (j.get body other)
    unfolding route_request
    get-route_request world to_lower body pm other {route} mp h p ne d e =
        let requested = j.string (j.get body model_word) in
        let out = resolve_request j world to_lower requested body pm in
        elim (Bool-cases (is_empty requested)) [
          | inl missing ↦ absurd (ground arith)
          | inr named ↦ elim (Result-cases out.0) [
            | inl (code, lost) ↦ absurd (ground arith)
            | inr (r, found) ↦
                let same =
                  route_filters_kept pm out.1 route.target route.model_id
                    (resolve_request-state world to_lower requested body pm) in
                let pick : (pick_handler j as_string r out.1).0 ≡ ok route = ground arith in
                let (d', resolved) =
                  get-resolve_request world to_lower requested body pm other {r = r} mp p ne d
                    found in
                picked-body r out.1 other {route = route} mp (rw same h) p d' pick
                ∙ ap (filtered (route_filters j out.1 route.target route.model_id) other) (
                    renamed_other out.1 route.target route.model_id other (j.get r.body other) ne
                    ∙ resolved)
                ∙ ap (λ (f : Filters V). filtered f other (j.get body other)) same
          ]
        ]
