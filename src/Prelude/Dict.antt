-- ===== src/Prelude/Dict.antt =====
-- Go's maps, as association lists: a lookup returns the first binding of its key, an insertion
-- replaces it in place, and a deletion removes every binding of its key.
use omniswap.Prelude.{◌≡◌, refl, ◌≢◌, Option, none, some, List, [], ◌∷◌, arith, if◌then◌else◌}
use omniswap.Prelude.Keys.{Eq, ◌==◌, ==_refl, ==_ne}

abbrev pub Dict {ℓ κ} : Type ℓ → Type κ → Type (ℓ ⊔ κ)
Dict K V = List (K × V)

module _ {ℓ κ} {K : Type ℓ} {V : Type κ} ⦃e : Eq K⦄ where
  abbrev pub lookup : K → Dict K V → Option V
  lookup key [] = none
  lookup key ((x, v) ∷ rest) = if x == key then some v else lookup key rest

  abbrev pub insert : K → V → Dict K V → Dict K V
  insert key v [] = (key, v) ∷ []
  insert key v ((x, w) ∷ rest) = if x == key then (key, v) ∷ rest else (x, w) ∷ insert key v rest

  pub lookup-insert :
      (key other : K) (v : V) (dict : Dict K V)
      → lookup other (insert key v dict) ≡ (if key == other then some v else lookup other dict)
  lookup-insert key other v [] = refl
  lookup-insert key other v ((x, w) ∷ rest) = ground (
    lookup-insert key other v rest,
    e.beq_iff x key,
    e.beq_iff x other,
    e.beq_iff key other,
    arith,
  )

  pub lookup-insert_self : (k : K) (v : V) (m : Dict K V) → lookup k (insert k v m) ≡ some v
  lookup-insert_self k v m = ground (arith, lookup-insert k k v m, ==_refl k)

  pub lookup-insert_ne :
      (k j : K) (v : V) (m : Dict K V) → k ≢ j → lookup j (insert k v m) ≡ lookup j m
  lookup-insert_ne k j v m h = ground (arith, lookup-insert k j v m, ==_ne k j h)

-- A Go map binds a key once.
abbrev pub IsMap {ℓ κ} : {K : Type ℓ} {V : Type κ} ⦃e : Eq K⦄ → Dict K V → Type κ
IsMap [] = Unit
IsMap ((k, v) ∷ m) = (lookup k m ≡ none) × IsMap m
