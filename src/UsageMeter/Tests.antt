-- ===== src/UsageMeter/Tests.antt =====
-- Tests and witnesses of the usage rollup.
use omniswap.Prelude.{true, false, none, some, [], ◌∷◌, ◌≡◌, refl}
use omniswap.Prelude.Int.{pos, negsuc, ◌+ℤ◌}
use omniswap.Prelude.Word.{int64}
use omniswap.UsageMeter.{
  UsagePersist, UsageMeter, Usage, Snapshot, normalize, record_usage, record_all, count, sum_from,
  snapshot, in_order, put_in_order, usage_reader_allowed, names_of,
}
use omniswap.UsageMeter.Sums.{input_of, IsConsistent}
use omniswap.UsageMeter.Attribution.{
  tally, named, client_total, country_total, ip_total, record_all-tally,
}
use omniswap.UsageMeter.File.{Outcome, flush, new_usage_meter}
use omniswap.UsageMeter.Disk.{
  completed, Stored, begun, ended, recording, beginning, ending, Steps, here, next, IsSaved,
  flush_all, flush-failed_write, Steps-IsSaved,
}

abbrev empty_meter : UsageMeter
empty_meter = record { path = "usage.json"; clients = []; countries = []; ips = []; dirty = false }

abbrev by_shay : Usage
by_shay = record {
  client = "shay";
  model = "big";
  country = "";
  ip = "10.0.0.1";
  in_tok = pos 7;
  out_tok = pos 5;
  now = 1;
}

abbrev by_nobody : Usage
by_nobody = record {
  client = "";
  model = "big";
  country = "IL";
  ip = "10.0.0.1";
  in_tok = pos 70;
  out_tok = negsuc 4;
  now = 2;
}

test_totals :
    (snapshot (record_all (by_shay ∷ by_nobody ∷ by_shay ∷ []) empty_meter)).totals ≡ record {
      requests = pos 3;
      input_tokens = pos 84;
      output_tokens = pos 10;
      total_tokens = pos 94;
    }
unfolding snapshot record_all record_usage count normalize sum_from int64 ◌+ℤ◌
test_totals = refl

test_order :
    (snapshot (record_all (by_shay ∷ by_nobody ∷ by_shay ∷ []) empty_meter)).order
    ≡ "unknown" ∷ "shay" ∷ []
unfolding snapshot record_all record_usage count normalize in_order put_in_order int64 ◌+ℤ◌
test_order = refl

test_reader : usage_reader_allowed [] "admin" ≡ true
unfolding usage_reader_allowed
test_reader = refl

empty_meter-IsConsistent : IsConsistent empty_meter
unfolding sum_from
empty_meter-IsConsistent = record { by_country = λ c. refl; by_ip = λ c. refl; by_model = λ c. tt }

record_all-tally_example :
    (client_total input_of "local" (record_all (by_shay ∷ by_nobody ∷ []) empty_meter)
      ≡ tally (λ u. named "unknown" u.client) input_of "local" (pos 0) (by_shay ∷ by_nobody ∷ []))
    × (country_total input_of "local" (record_all (by_shay ∷ by_nobody ∷ []) empty_meter)
        ≡ tally (λ u. named "local" u.country) input_of "local" (pos 0) (by_shay ∷ by_nobody ∷ []))
    × (ip_total input_of "local" (record_all (by_shay ∷ by_nobody ∷ []) empty_meter)
        ≡ tally (λ u. named "unknown" u.ip) input_of "local" (pos 0) (by_shay ∷ by_nobody ∷ []))
record_all-tally_example = record_all-tally input_of "local" (by_shay ∷ by_nobody ∷ []) empty_meter

-- An encoding that keeps all.
abbrev all_good : Outcome
all_good = record { marshalled = true; written = true; renamed = true }

abbrev rest : Stored UsagePersist (λ p. p) some
rest = record { meter = empty_meter; file = none; writing = none }

rest-IsSaved : IsSaved UsagePersist (λ p. p) some rest
unfolding new_usage_meter omniswap.UsageMeter.File.load
rest-IsSaved = record { has_path = refl; restored = λ clean. refl }

-- A request is recorded, and another one while the flush of the first is writing.
abbrev recorded_once : Stored UsagePersist (λ p. p) some
recorded_once = record rest { meter = record_usage by_shay empty_meter }

abbrev flushing : Stored UsagePersist (λ p. p) some
flushing = record recorded_once {
  meter = (begun UsagePersist (λ p. p) some true recorded_once.meter).0;
  writing = (begun UsagePersist (λ p. p) some true recorded_once.meter).1;
}

abbrev recorded_twice : Stored UsagePersist (λ p. p) some
recorded_twice = record flushing { meter = record_usage by_nobody flushing.meter }

abbrev at_rest : Stored UsagePersist (λ p. p) some
at_rest = record recorded_twice {
  file = ended UsagePersist (λ p. p) some completed recorded_twice.writing recorded_twice.file;
  writing = none;
}

rest-Steps : Steps UsagePersist (λ p. p) some rest at_rest
rest-Steps =
    next
      (next (next (next here (recording by_shay rest)) (beginning true recorded_once refl))
        (recording by_nobody flushing))
      (ending recorded_twice)

Steps-IsSaved_example : IsSaved UsagePersist (λ p. p) some at_rest
Steps-IsSaved_example = Steps-IsSaved UsagePersist (λ p. p) some (λ p. refl) rest-Steps rest-IsSaved

abbrev full_disk : Outcome
full_disk = record { marshalled = true; written = false; renamed = true }

flush-failed_write_example :
    flush_all UsagePersist
      (λ p. p)
      some
      (full_disk ∷ all_good ∷ [])
      (record empty_meter { dirty = true }, none)
    ≡ (empty_meter, none)
flush-failed_write_example =
    flush-failed_write UsagePersist (λ p. p) some full_disk (all_good ∷ [])
      (record empty_meter { dirty = true }) none refl refl refl refl
