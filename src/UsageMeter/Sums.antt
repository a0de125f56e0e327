-- ===== src/UsageMeter/Sums.antt =====
-- The sums that a snapshot of the rollup shows (proxy/usage_meter.go): how one request changes them.
use omniswap.Prelude.{
  ℕ, String, true, false, List, [], ◌∷◌, ◌≡◌, refl, sym, ap, ◌∙◌, Bool-cases, inl, inr, All,
}
use omniswap.Prelude.Keys.{string_eq, ◌==◌}
use omniswap.Prelude.Dict.{Dict, lookup, insert}
use omniswap.Prelude.Int.{ℤ, pos, ◌+ℤ◌, int_laws}
use omniswap.Prelude.Word.{int64, add64, add64_assoc, add64_comm, wraps}
use omniswap.UsageMeter.{
  ModelUsage, ClientUsage, IpUsage, UsageMeter, Usage, value_or, clamp, normalize, no_model_usage,
  no_client_usage, no_ip_usage, count_model, count_ip, upsert, count_client, count, record_usage,
  record_all, sum_from, snapshot,
}

-- The three counters.
pub data Counter : Type 0 where
  requests_of : Counter
  input_of : Counter
  output_of : Counter

abbrev pub model_count : Counter → ModelUsage → ℤ
model_count requests_of mu = mu.requests
model_count input_of mu = mu.input_tokens
model_count output_of mu = mu.output_tokens

abbrev pub client_count : Counter → ClientUsage → ℤ
client_count requests_of cu = cu.requests
client_count input_of cu = cu.input_tokens
client_count output_of cu = cu.output_tokens

abbrev pub ip_count : Counter → IpUsage → ℤ
ip_count requests_of ipu = ipu.requests
ip_count input_of ipu = ipu.input_tokens
ip_count output_of ipu = ipu.output_tokens

-- What one request adds.
abbrev pub added : Counter → Usage → ℤ
added requests_of u = pos 1
added input_of u = u.in_tok
added output_of u = u.out_tok

module _ {ℓ} {V : Type ℓ} where
  upsert_here :
      (key k : String) (fresh v : V) (change : V → V) (rest : Dict String V)
      → (k == key) ≡ true
      → upsert key fresh change ((k, v) ∷ rest) ≡ (key, change v) ∷ rest
  upsert_here key k fresh v change rest e = rw e refl

  upsert_there :
      (key k : String) (fresh v : V) (change : V → V) (rest : Dict String V)
      → (k == key) ≡ false
      → upsert key fresh change ((k, v) ∷ rest) ≡ (k, v) ∷ upsert key fresh change rest
  upsert_there key k fresh v change rest e =
      let found : lookup key ((k, v) ∷ rest) ≡ lookup key rest = rw e refl in
      rw e (ap (λ o. (k, v) ∷ insert key (change (value_or fresh o)) rest) found)

module _ {ℓ} {V : Type ℓ} (of : V → ℤ) where
  sum_from-add64 :
      (sum x : ℤ) (dict : Dict String V)
      → sum_from of (add64 sum x) dict ≡ add64 (sum_from of sum dict) x
  unfolding sum_from
  sum_from-add64 sum x [] = refl
  sum_from-add64 sum x ((key, v) ∷ rest) =
      ap (λ start. sum_from of start rest)
        (add64_assoc sum x (of v)
          ∙ ap (add64 sum) (add64_comm x (of v))
          ∙ sym (add64_assoc sum (of v) x))
      ∙ sum_from-add64 (add64 sum (of v)) x rest

  -- A change that adds to every value adds as much to the sum, for a key that is new too.
  pub sum_from-upsert :
      (sum x : ℤ) (key : String) (fresh : V) (change : V → V) (dict : Dict String V)
      → of fresh ≡ pos 0
      → ((v : V) → of (change v) ≡ add64 (of v) x)
      → sum_from of sum (upsert key fresh change dict) ≡ add64 (sum_from of sum dict) x
  unfolding sum_from
  sum_from-upsert sum x key fresh change [] zero adds =
      rw (adds fresh, zero) (simp wraps (ap (λ y. int64 (sum +ℤ y)) (omega int_laws)))
  sum_from-upsert sum x key fresh change ((k, v) ∷ rest) zero adds = elim (Bool-cases (k == key)) [
    | inl e ↦
        ap (sum_from of sum) (upsert_here key k fresh v change rest e)
        ∙ ap (λ w. sum_from of (add64 sum w) rest) (adds v)
        ∙ ap (λ start. sum_from of start rest) (sym (add64_assoc sum (of v) x))
        ∙ sum_from-add64 (add64 sum (of v)) x rest
    | inr e ↦
        ap (sum_from of sum) (upsert_there key k fresh v change rest e)
        ∙ sum_from-upsert (add64 sum (of v)) x key fresh change rest zero adds
  ]

-- A property of the values, kept by the change and true of a fresh value.
All-upsert {ℓ κ} :
    {V : Type ℓ} (Q : V → Type κ) (key : String) (fresh : V) (change : V → V) (dict : Dict String V)
    → Q fresh
    → ((v : V) → Q v → Q (change v))
    → All (λ entry. Q entry.1) dict
    → All (λ entry. Q entry.1) (upsert key fresh change dict)
All-upsert Q key fresh change [] first keeps all = (keeps fresh first, tt)
All-upsert Q key fresh change ((k, v) ∷ rest) first keeps (q, all) = elim (Bool-cases (k == key)) [
  | inl e ↦ rw (upsert_here key k fresh v change rest e) (keeps v q, all)
  | inr e ↦
      rw (upsert_there key k fresh v change rest e)
        (q, All-upsert Q key fresh change rest first keeps all)
]

pub added-count_client :
    (c : Counter) (u : Usage) (cu : ClientUsage)
    → client_count c (count_client u cu) ≡ add64 (client_count c cu) (added c u)
added-count_client requests_of u cu = refl
added-count_client input_of u cu = refl
added-count_client output_of u cu = refl

pub added-count_model :
    (c : Counter) (u : Usage) (mu : ModelUsage)
    → model_count c (count_model u mu) ≡ add64 (model_count c mu) (added c u)
added-count_model requests_of u mu = refl
added-count_model input_of u mu = refl
added-count_model output_of u mu = refl

pub added-count_ip :
    (c : Counter) (u : Usage) (ipu : IpUsage)
    → ip_count c (count_ip u ipu) ≡ add64 (ip_count c ipu) (added c u)
added-count_ip requests_of u ipu = refl
added-count_ip input_of u ipu = refl
added-count_ip output_of u ipu = refl

pub no_model_count : (c : Counter) → model_count c no_model_usage ≡ pos 0
no_model_count requests_of = refl
no_model_count input_of = refl
no_model_count output_of = refl

pub no_client_count : (c : Counter) (now : ℕ) → client_count c (no_client_usage now) ≡ pos 0
no_client_count requests_of now = refl
no_client_count input_of now = refl
no_client_count output_of now = refl

pub no_ip_count : (c : Counter) (now : ℕ) → ip_count c (no_ip_usage now) ≡ pos 0
no_ip_count requests_of now = refl
no_ip_count input_of now = refl
no_ip_count output_of now = refl

abbrev sum_clients : Counter → UsageMeter → ℤ
sum_clients c m = sum_from (client_count c) (pos 0) m.clients

abbrev sum_countries : Counter → UsageMeter → ℤ
sum_countries c m = sum_from (model_count c) (pos 0) m.countries

abbrev sum_ips : Counter → UsageMeter → ℤ
sum_ips c m = sum_from (ip_count c) (pos 0) m.ips

sum_clients-count :
    (c : Counter) (u : Usage) (m : UsageMeter)
    → sum_clients c (count u m) ≡ add64 (sum_clients c m) (added c u)
unfolding count
sum_clients-count c u m =
    sum_from-upsert (client_count c) (pos 0) (added c u) u.client (no_client_usage u.now)
      (count_client u) m.clients (no_client_count c u.now) (added-count_client c u)

sum_countries-count :
    (c : Counter) (u : Usage) (m : UsageMeter)
    → sum_countries c (count u m) ≡ add64 (sum_countries c m) (added c u)
unfolding count
sum_countries-count c u m =
    sum_from-upsert (model_count c) (pos 0) (added c u) u.country no_model_usage (count_model u)
      m.countries (no_model_count c) (added-count_model c u)

sum_ips-count :
    (c : Counter) (u : Usage) (m : UsageMeter)
    → sum_ips c (count u m) ≡ add64 (sum_ips c m) (added c u)
unfolding count
sum_ips-count c u m =
    sum_from-upsert (ip_count c) (pos 0) (added c u) u.ip (no_ip_usage u.now) (count_ip u) m.ips
      (no_ip_count c u.now) (added-count_ip c u)

-- A client's counter against those of its models.
abbrev Split : Counter → ClientUsage → Type 0
Split c cu = client_count c cu ≡ sum_from (model_count c) (pos 0) cu.by_model

no_client_usage-Split : (c : Counter) (now : ℕ) → Split c (no_client_usage now)
unfolding sum_from
no_client_usage-Split c now = no_client_count c now

count_client-Split :
    (c : Counter) (u : Usage) (cu : ClientUsage) → Split c cu → Split c (count_client u cu)
count_client-Split c u cu s =
    added-count_client c u cu
    ∙ ap (λ sum. add64 sum (added c u)) s
    ∙ sym (
        sum_from-upsert (model_count c) (pos 0) (added c u) u.model no_model_usage (count_model u)
          cu.by_model (no_model_count c) (added-count_model c u))

-- The three rollups agree on every counter, and a client's counters on those of its models.
pub record IsConsistent (m : UsageMeter) : Type 0 where
  pub by_country : (c : Counter) → sum_clients c m ≡ sum_countries c m
  pub by_ip : (c : Counter) → sum_clients c m ≡ sum_ips c m
  pub by_model : (c : Counter) → All (λ entry. Split c entry.1) m.clients

clients-count :
    (c : Counter) (u : Usage) (m : UsageMeter)
    → All (λ entry. Split c entry.1) m.clients
    → All (λ entry. Split c entry.1) (count u m).clients
unfolding count
clients-count c u m all =
    All-upsert (Split c) u.client (no_client_usage u.now) (count_client u) m.clients
      (no_client_usage-Split c u.now) (count_client-Split c u) all

count-IsConsistent : (u : Usage) (m : UsageMeter) → IsConsistent m → IsConsistent (count u m)
count-IsConsistent u m s = record {
  by_country = λ c.
      sum_clients-count c u m
      ∙ ap (λ sum. add64 sum (added c u)) (s.by_country c)
      ∙ sym (sum_countries-count c u m);
  by_ip = λ c.
      sum_clients-count c u m
      ∙ ap (λ sum. add64 sum (added c u)) (s.by_ip c)
      ∙ sym (sum_ips-count c u m);
  by_model = λ c. clients-count c u m (s.by_model c);
}

-- After any run of requests, with any labels and token counts, the sums over the clients, over the
-- countries and over the IPs agree on each of the three counters, and each client's counters are the
-- sums over its models, all modulo the wrap-around of an `int64`, if that was so before the run.
pub record_all-IsConsistent :
    (us : List Usage) (m : UsageMeter) → IsConsistent m → IsConsistent (record_all us m)
unfolding record_all record_usage
record_all-IsConsistent [] m s = s
record_all-IsConsistent (u ∷ us) m s =
    record_all-IsConsistent us (count (normalize u) m) (count-IsConsistent (normalize u) m s)

-- The totals of a snapshot go up by the request's clamped counts, and the requests by one.
pub totals-record_usage :
    (u : Usage) (m : UsageMeter)
    → ((snapshot (record_usage u m)).totals.requests ≡ add64 (snapshot m).totals.requests (pos 1))
      × ((snapshot (record_usage u m)).totals.input_tokens
          ≡ add64 (snapshot m).totals.input_tokens (clamp u.in_tok))
      × ((snapshot (record_usage u m)).totals.output_tokens
          ≡ add64 (snapshot m).totals.output_tokens (clamp u.out_tok))
unfolding snapshot record_usage normalize
totals-record_usage u m = (
  sum_clients-count requests_of (normalize u) m,
  sum_clients-count input_of (normalize u) m,
  sum_clients-count output_of (normalize u) m,
)
