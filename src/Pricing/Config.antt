-- ===== src/Pricing/Config.antt =====
-- From the configured credit rates to a price book (proxy/pricing_config.go), with the warnings
-- that go to the log; a nil logger drops them. A Go map is ranged over in any order: here in that
-- of the list, and no lookup of the result depends on it.
use omniswap.Prelude.{
  String, Option, none, some, List, [], ◌∷◌, ◌++◌, map, ◌≡◌, refl, arith, if◌then◌else◌, ◌||◌,
  Option-cases, ◌↔◌, inl, inr,
}
use omniswap.Prelude.Keys.{string_eq, ◌==◌}
use omniswap.Prelude.Dict.{Dict, lookup, insert, lookup-insert, IsMap}
use omniswap.Prelude.Int.{ℤ, pos, ◌≤ℤ◌, ltb_ℤ, leb_ℤ, eqb_ℤ}
use omniswap.Pricing.{ModelRate, PriceBook}

-- `config.CreditRate`
pub record CreditRate : Type 0 where
  pub input_per_1k : ℤ
  pub output_per_1k : ℤ
  pub max_output_tokens : ℤ

pub data Warning : Type 0 where
  negative_rate no_ceiling low_ceiling free_output : Warning

abbrev pub suspiciously_low_ceiling : ℤ
suspiciously_low_ceiling = pos 2048

abbrev pub model_rate : CreditRate → ModelRate
model_rate r = record {
  input_per_1k = r.input_per_1k;
  output_per_1k = r.output_per_1k;
  max_output_tokens = r.max_output_tokens;
}

-- One round of the loop: the warnings about a rate, and the rate if it is not dropped.
unfoldable pub vet : CreditRate → List Warning × Option ModelRate
vet r =
    if ltb_ℤ r.input_per_1k (pos 0) || ltb_ℤ r.output_per_1k (pos 0)
    then (negative_rate ∷ [], none)
    else if leb_ℤ r.max_output_tokens (pos 0)
    then (no_ceiling ∷ [], none)
    else (
      (if ltb_ℤ r.max_output_tokens suspiciously_low_ceiling then low_ceiling ∷ [] else [])
          ++ (if eqb_ℤ r.output_per_1k (pos 0) then free_output ∷ [] else []),
      some (model_rate r),
    )

abbrev keep : String → Option ModelRate → Dict String ModelRate → Dict String ModelRate
keep model none m = m
keep model (some u) m = insert model u m

add_rates : Dict String CreditRate → Dict String ModelRate → Dict String ModelRate
add_rates [] m = m
add_rates ((model, r) ∷ rest) m = add_rates rest (keep model (vet r).1 m)

unfoldable pub price_book_from_config : Dict String CreditRate → PriceBook
unfolding add_rates vet
price_book_from_config rates = record { rates = add_rates rates [] }

-- What `warnPricing` is called with, for a logger that is not nil.
unfoldable pub warnings : Dict String CreditRate → List (String × Warning)
unfolding vet
warnings [] = []
warnings ((model, r) ∷ rest) = map (λ w. (model, w)) (vet r).0 ++ warnings rest

-- A usable rate: neither price is negative, and there is a ceiling to reserve against.
pub record IsUsable (r : CreditRate) : Type 0 where
  pub input_rate : pos 0 ≤ℤ r.input_per_1k
  pub output_rate : pos 0 ≤ℤ r.output_per_1k
  pub ceiling : pos 1 ≤ℤ r.max_output_tokens

vet_keeps : (r : CreditRate) → IsUsable r → (vet r).1 ≡ some (model_rate r)
unfolding vet
vet_keeps r u = ground arith

vet_kept : (r : CreditRate) {u : ModelRate} → (vet r).1 ≡ some u → IsUsable r × (u ≡ model_rate r)
unfolding vet
vet_kept r h = ground arith

abbrev vetted : Option CreditRate → Option ModelRate
vetted none = none
vetted (some r) = (vet r).1

abbrev or_else : Option ModelRate → Option ModelRate → Option ModelRate
or_else none o = o
or_else (some u) o = some u

lookup-keep :
    (j model : String) (o : Option ModelRate) (m : Dict String ModelRate)
    → lookup model (keep j o m)
      ≡ (if j == model then or_else o (lookup model m) else lookup model m)
lookup-keep j model none m = ground arith
lookup-keep j model (some u) m = lookup-insert j model u m

lookup-add_rates :
    (rates : Dict String CreditRate) (m : Dict String ModelRate) (model : String)
    → IsMap rates
    → lookup model (add_rates rates m) ≡ or_else (vetted (lookup model rates)) (lookup model m)
unfolding add_rates
lookup-add_rates [] m model h = refl
lookup-add_rates ((j, r) ∷ rest) m model h = ground (
  arith,
  lookup-add_rates rest (keep j (vet r).1 m) model h.1,
  lookup-keep j model (vet r).1 m,
  string_eq.beq_iff j model,
)

-- For a configuration that binds each model once: a model is priced exactly if its configured rate
-- is usable, and then at that rate. So a rate that is negative, or that has no ceiling, leaves the
-- model unpriced.
pub price_book_from_config_lem :
    (rates : Dict String CreditRate) (model : String) (u : ModelRate)
    → IsMap rates
    → (lookup model (price_book_from_config rates).rates ≡ some u)
      ↔ ((r : CreditRate) × (lookup model rates ≡ some r) × IsUsable r × (u ≡ model_rate r))
unfolding price_book_from_config
price_book_from_config_lem rates model u h = (priced, usable)
  where
    priced :
        lookup model (add_rates rates []) ≡ some u
        → (r : CreditRate) × (lookup model rates ≡ some r) × IsUsable r × (u ≡ model_rate r)
    priced e = elim (Option-cases (lookup model rates)) [
      | inl absent ↦ absurd (ground (arith, lookup-add_rates rates [] model h))
      | inr (r, found) ↦
          let kept = vet_kept r {u = u} (ground (arith, lookup-add_rates rates [] model h)) in
          (r, found, kept.0, kept.1)
    ]

    usable :
        (r : CreditRate) × (lookup model rates ≡ some r) × IsUsable r × (u ≡ model_rate r)
        → lookup model (add_rates rates []) ≡ some u
    usable (r, found, ok, e) = ground (arith, lookup-add_rates rates [] model h, vet_keeps r ok)
