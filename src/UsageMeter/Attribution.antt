-- ===== src/UsageMeter/Attribution.antt =====
-- To whom the requests are attributed (proxy/usage_meter.go): the counters of one client, country or
-- IP against the list of the requests.
use omniswap.Prelude.{
  String, Option, none, some, List, [], ◌∷◌, ◌≡◌, refl, sym, ap, ◌∙◌, if◌then◌else◌, Bool-cases,
  inl, inr, arith,
}
use omniswap.Prelude.Keys.{string_eq, ◌==◌}
use omniswap.Prelude.Dict.{Dict, lookup, lookup-insert}
use omniswap.Prelude.Int.{ℤ, pos, negsuc, pos_part}
use omniswap.Prelude.Word.{add64}
use omniswap.UsageMeter.{
  UsageMeter, Usage, value_or, clamp, normalize, no_model_usage, no_client_usage, no_ip_usage,
  count_model, count_ip, upsert, count_client, count, record_usage, record_all,
}
use omniswap.UsageMeter.Sums.{
  Counter, requests_of, input_of, output_of, client_count, model_count, ip_count, added,
  added-count_client, added-count_model, added-count_ip, no_client_count, no_model_count,
  no_ip_count,
}

-- The label that a request is counted under, where an empty one stands for a default.
abbrev pub named : String → String → String
named default label = if label == "" then default else label

-- What a request counts: one request, and its tokens, none for a negative number.
abbrev pub counted : Counter → Usage → ℤ
counted requests_of u = pos 1
counted input_of u = pos (pos_part u.in_tok)
counted output_of u = pos (pos_part u.out_tok)

-- The requests of one label, counted one after the other.
abbrev pub tally : (Usage → String) → Counter → String → ℤ → List Usage → ℤ
tally label c key sum [] = sum
tally label c key sum (u ∷ us) =
    tally label c key (if label u == key then add64 sum (counted c u) else sum) us

pos_part-clamp : (n : ℤ) → clamp n ≡ pos (pos_part n)
pos_part-clamp (pos n) = ground arith
pos_part-clamp (negsuc n) = ground arith

added-normalize : (c : Counter) (u : Usage) → added c (normalize u) ≡ counted c u
unfolding normalize
added-normalize requests_of u = refl
added-normalize input_of u = pos_part-clamp u.in_tok
added-normalize output_of u = pos_part-clamp u.out_tok

module _ {ℓ} {V : Type ℓ} (of : V → ℤ) (zero_value : V) where
  -- The counter of a key; a key without entry counts as 0.
  abbrev pub at : String → Dict String V → ℤ
  at key dict = of (value_or zero_value (lookup key dict))

  -- A fresh value and the missing one have the same counter.
  fresh_of :
      (fresh : V) (found : Option V)
      → of zero_value ≡ pos 0
      → of fresh ≡ pos 0
      → of (value_or fresh found) ≡ of (value_or zero_value found)
  fresh_of fresh none zero fresh_zero = fresh_zero ∙ sym zero
  fresh_of fresh (some v) zero fresh_zero = refl

  at-upsert :
      (key other : String) (x : ℤ) (fresh : V) (change : V → V) (dict : Dict String V)
      → of zero_value ≡ pos 0
      → of fresh ≡ pos 0
      → ((v : V) → of (change v) ≡ add64 (of v) x)
      → at other (upsert key fresh change dict)
        ≡ (if key == other then add64 (at other dict) x else at other dict)
  at-upsert key other x fresh change dict zero fresh_zero adds =
      ap (λ o. of (value_or zero_value o))
        (lookup-insert key other (change (value_or fresh (lookup key dict))) dict)
      ∙ elim (Bool-cases (key == other)) [
        | inl e ↦
            let same : key ≡ other = (string_eq.beq_iff key other).0 e in
            rw e (
              adds (value_or fresh (lookup key dict))
              ∙ ap (λ y. add64 y x) (fresh_of fresh (lookup key dict) zero fresh_zero)
              ∙ ap (λ name. add64 (at name dict) x) same)
        | inr e ↦ rw e refl
      ]

abbrev pub client_total : Counter → String → UsageMeter → ℤ
client_total c name m = at (client_count c) (no_client_usage 0) name m.clients

abbrev pub country_total : Counter → String → UsageMeter → ℤ
country_total c name m = at (model_count c) no_model_usage name m.countries

abbrev pub ip_total : Counter → String → UsageMeter → ℤ
ip_total c name m = at (ip_count c) (no_ip_usage 0) name m.ips

client_total-count :
    (c : Counter) (name : String) (u : Usage) (m : UsageMeter)
    → client_total c name (count u m) ≡ (
        if u.client == name
        then add64 (client_total c name m) (added c u)
        else client_total c name m)
unfolding count
client_total-count c name u m =
    at-upsert (client_count c) (no_client_usage 0) u.client name (added c u) (no_client_usage u.now)
      (count_client u) m.clients (no_client_count c 0) (no_client_count c u.now)
      (added-count_client c u)

country_total-count :
    (c : Counter) (name : String) (u : Usage) (m : UsageMeter)
    → country_total c name (count u m) ≡ (
        if u.country == name
        then add64 (country_total c name m) (added c u)
        else country_total c name m)
unfolding count
country_total-count c name u m =
    at-upsert (model_count c) no_model_usage u.country name (added c u) no_model_usage
      (count_model u) m.countries (no_model_count c) (no_model_count c) (added-count_model c u)

ip_total-count :
    (c : Counter) (name : String) (u : Usage) (m : UsageMeter)
    → ip_total c name (count u m)
      ≡ (if u.ip == name then add64 (ip_total c name m) (added c u) else ip_total c name m)
unfolding count
ip_total-count c name u m =
    at-upsert (ip_count c) (no_ip_usage 0) u.ip name (added c u) (no_ip_usage u.now) (count_ip u)
      m.ips (no_ip_count c 0) (no_ip_count c u.now) (added-count_ip c u)

-- A counter that each request changes as the tally does follows the tally over a run.
tally-record_all :
    (total : UsageMeter → ℤ) (label label' : Usage → String) (c : Counter) (name : String)
    → ((u : Usage) → label (normalize u) ≡ label' u)
    → ((u : Usage) (m : UsageMeter)
        → total (count u m) ≡ (if label u == name then add64 (total m) (added c u) else total m))
    → (us : List Usage) (m : UsageMeter)
    → total (record_all us m) ≡ tally label' c name (total m) us
unfolding record_all record_usage
tally-record_all total label label' c name same step [] m = refl
tally-record_all total label label' c name same step (u ∷ us) m =
    tally-record_all total label label' c name same step us (count (normalize u) m)
    ∙ ap (λ sum. tally label' c name sum us)
        (step (normalize u) m
          ∙ ap
              (λ (l : String).
                if l == name then add64 (total m) (added c (normalize u)) else total m)
              (same u)
          ∙ ap (λ (x : ℤ). if label' u == name then add64 (total m) x else total m)
              (added-normalize c u))

-- After any run of requests each counter of a client, a country and an IP is what it was before, with
-- the counts of exactly the requests that carry this label added, modulo the wrap-around of an
-- `int64`: an empty label is "unknown", or "local" for a country, and a negative count is 0.
pub record_all-tally :
    (c : Counter) (name : String) (us : List Usage) (m : UsageMeter)
    → (client_total c name (record_all us m)
        ≡ tally (λ u. named "unknown" u.client) c name (client_total c name m) us)
      × (country_total c name (record_all us m)
          ≡ tally (λ u. named "local" u.country) c name (country_total c name m) us)
      × (ip_total c name (record_all us m)
          ≡ tally (λ u. named "unknown" u.ip) c name (ip_total c name m) us)
unfolding normalize
record_all-tally c name us m = (
  tally-record_all (client_total c name) (λ u. u.client) (λ u. named "unknown" u.client) c name
      (λ u. refl) (client_total-count c name) us m,
  tally-record_all (country_total c name) (λ u. u.country) (λ u. named "local" u.country) c name
      (λ u. refl) (country_total-count c name) us m,
  tally-record_all (ip_total c name) (λ u. u.ip) (λ u. named "unknown" u.ip) c name (λ u. refl)
      (ip_total-count c name) us m,
)
