-- ===== src/UsageMeter.antt =====
-- The usage rollup for each client, country and IP (proxy/usage_meter.go). A time is a number. The
-- bytes on disk are made by a `marshal` that the model takes as a parameter, and whether a file
-- operation succeeds is an input.
pub mod Sums
pub mod Attribution
pub mod File
pub mod Disk
pub mod Order
mod Tests
use Prim.Native.String.{compare as compare_text}
use text.Mathlib.Text.{is_lt}
use omniswap.Prelude.{
  ℕ, suc, String, Bool, true, false, not, ◌||◌, Option, none, some, List, [], ◌∷◌, map,
  if◌then◌else◌, length, nat_beq,
}
use omniswap.Prelude.Keys.{string_eq, ◌==◌}
use omniswap.Prelude.Dict.{Dict, lookup, insert}
use omniswap.Prelude.Int.{ℤ, pos, ltb_ℤ, eqb_ℤ}
use omniswap.Prelude.Word.{add64}

-- `modelUsage`
pub record ModelUsage : Type 0 where
  pub requests : ℤ
  pub input_tokens : ℤ
  pub output_tokens : ℤ

-- `clientUsage`
pub record ClientUsage : Type 0 where
  pub requests : ℤ
  pub input_tokens : ℤ
  pub output_tokens : ℤ
  pub by_model : Dict String ModelUsage
  pub first_seen : ℕ
  pub last_seen : ℕ

-- `ipUsage`
pub record IpUsage : Type 0 where
  pub requests : ℤ
  pub input_tokens : ℤ
  pub output_tokens : ℤ
  pub client : String
  pub country : String
  pub first_seen : ℕ
  pub last_seen : ℕ

-- `usagePersist`; a nil map is `none`.
pub record UsagePersist : Type 0 where
  pub clients : Option (Dict String ClientUsage)
  pub countries : Option (Dict String ModelUsage)
  pub ips : Option (Dict String IpUsage)

-- `UsageMeter`
pub record UsageMeter : Type 0 where
  pub path : String
  pub clients : Dict String ClientUsage
  pub countries : Dict String ModelUsage
  pub ips : Dict String IpUsage
  pub dirty : Bool

-- What `Record` is called with, and the time of the call.
pub record Usage : Type 0 where
  pub client : String
  pub model : String
  pub country : String
  pub ip : String
  pub in_tok : ℤ
  pub out_tok : ℤ
  pub now : ℕ

abbrev pub value_or {ℓ} : {A : Type ℓ} → A → Option A → A
value_or default none = default
value_or default (some a) = a

abbrev pub label_or : String → String → String
label_or default label = if label == "" then default else label

abbrev pub clamp : ℤ → ℤ
clamp tokens = if ltb_ℤ tokens (pos 0) then pos 0 else tokens

unfoldable pub normalize : Usage → Usage
normalize u = record u {
  client = label_or "unknown" u.client;
  model = label_or "unknown" u.model;
  country = label_or "local" u.country;
  ip = label_or "unknown" u.ip;
  in_tok = clamp u.in_tok;
  out_tok = clamp u.out_tok;
}

abbrev pub no_model_usage : ModelUsage
no_model_usage = record { requests = pos 0; input_tokens = pos 0; output_tokens = pos 0 }

abbrev pub no_client_usage : ℕ → ClientUsage
no_client_usage now = record {
  requests = pos 0;
  input_tokens = pos 0;
  output_tokens = pos 0;
  by_model = [];
  first_seen = now;
  last_seen = 0;
}

abbrev pub no_ip_usage : ℕ → IpUsage
no_ip_usage now = record {
  requests = pos 0;
  input_tokens = pos 0;
  output_tokens = pos 0;
  client = "";
  country = "";
  first_seen = now;
  last_seen = 0;
}

abbrev pub count_model : Usage → ModelUsage → ModelUsage
count_model u mu = record {
  requests = add64 mu.requests (pos 1);
  input_tokens = add64 mu.input_tokens u.in_tok;
  output_tokens = add64 mu.output_tokens u.out_tok;
}

abbrev pub count_ip : Usage → IpUsage → IpUsage
count_ip u ipu = record {
  requests = add64 ipu.requests (pos 1);
  input_tokens = add64 ipu.input_tokens u.in_tok;
  output_tokens = add64 ipu.output_tokens u.out_tok;
  client = u.client;
  country = u.country;
  first_seen = ipu.first_seen;
  last_seen = u.now;
}

-- The entry of a key, a fresh one if there is none, with a change made to it.
abbrev pub upsert {ℓ} : {V : Type ℓ} → String → V → (V → V) → Dict String V → Dict String V
upsert key fresh change dict = insert key (change (value_or fresh (lookup key dict))) dict

abbrev pub count_client : Usage → ClientUsage → ClientUsage
count_client u cu = record {
  requests = add64 cu.requests (pos 1);
  input_tokens = add64 cu.input_tokens u.in_tok;
  output_tokens = add64 cu.output_tokens u.out_tok;
  by_model = upsert u.model no_model_usage (count_model u) cu.by_model;
  first_seen = cu.first_seen;
  last_seen = u.now;
}

-- `Record` after the defaults and the clamps.
unfoldable pub count : Usage → UsageMeter → UsageMeter
count u m = record m {
  countries = upsert u.country no_model_usage (count_model u) m.countries;
  ips = upsert u.ip (no_ip_usage u.now) (count_ip u) m.ips;
  clients = upsert u.client (no_client_usage u.now) (count_client u) m.clients;
  dirty = true;
}

-- `Record`
unfoldable pub record_usage : Usage → UsageMeter → UsageMeter
record_usage u m = count (normalize u) m

unfoldable pub record_all : List Usage → UsageMeter → UsageMeter
record_all [] m = m
record_all (u ∷ us) m = record_all us (record_usage u m)

-- `totReq += cu.Requests` and the like, over a map.
unfoldable pub sum_from {ℓ} : {V : Type ℓ} → (V → ℤ) → ℤ → Dict String V → ℤ
sum_from of sum [] = sum
sum_from of sum ((key, v) ∷ rest) = sum_from of (add64 sum (of v)) rest

pub record Totals : Type 0 where
  pub requests : ℤ
  pub input_tokens : ℤ
  pub output_tokens : ℤ
  pub total_tokens : ℤ

-- The order of the names in `Snapshot`: busiest first, then by name.
abbrev pub tokens_of : Dict String ClientUsage → String → ℤ
tokens_of clients name =
    let cu = value_or (no_client_usage 0) (lookup name clients) in
    add64 cu.input_tokens cu.output_tokens

abbrev pub busier : Dict String ClientUsage → String → String → Bool
busier clients a b =
    if eqb_ℤ (tokens_of clients a) (tokens_of clients b)
    then is_lt (compare_text a b)
    else ltb_ℤ (tokens_of clients b) (tokens_of clients a)

unfoldable pub put_in_order : Dict String ClientUsage → String → List String → List String
put_in_order clients name [] = name ∷ []
put_in_order clients name (other ∷ rest) =
    let later = put_in_order clients name rest in
    if busier clients name other then name ∷ other ∷ rest else other ∷ later

-- `sort.Slice` by a strict order of different names has one result only.
unfoldable pub in_order : Dict String ClientUsage → List String → List String
in_order clients [] = []
in_order clients (name ∷ names) = put_in_order clients name (in_order clients names)

abbrev pub names_of {ℓ} : {V : Type ℓ} → Dict String V → List String
names_of dict = map (λ entry. entry.0) dict

-- What `Snapshot` returns, less the time.
pub record Snapshot : Type 0 where
  pub order : List String
  pub clients : Dict String ClientUsage
  pub by_country : Dict String ModelUsage
  pub by_ip : Dict String IpUsage
  pub totals : Totals

unfoldable pub snapshot : UsageMeter → Snapshot
snapshot m =
    let tot_in = sum_from (λ cu. cu.input_tokens) (pos 0) m.clients in
    let tot_out = sum_from (λ cu. cu.output_tokens) (pos 0) m.clients in
    record {
      order = in_order m.clients (names_of m.clients);
      clients = m.clients;
      by_country = m.countries;
      by_ip = m.ips;
      totals = record {
        requests = sum_from (λ cu. cu.requests) (pos 0) m.clients;
        input_tokens = tot_in;
        output_tokens = tot_out;
        total_tokens = add64 tot_in tot_out;
      };
    }

-- `config.UsageReaders`, by default the admin alone.
unfoldable pub usage_reader_allowed : List String → String → Bool
usage_reader_allowed [] caller = caller == "admin"
usage_reader_allowed (r ∷ readers) caller = reads (r ∷ readers)
  where
    reads : List String → Bool
    reads [] = false
    reads (x ∷ xs) = caller == x || reads xs
