-- ===== src/UsageMeter/Order.antt =====
-- The order of the clients in a snapshot (proxy/usage_meter.go).
use Prim.Native.String.{compare as compare_text}
use text.Mathlib.Text.{is_lt}
use mathlib.Core.List.{Perm}
use mathlib.Core.List.Perm
use omniswap.Prelude.{
  String, Bool, true, false, List, [], ◌∷◌, ◌≡◌, arith, if◌then◌else◌, All, Bool-cases, inl, inr,
}
use omniswap.Prelude.Dict.{Dict}
use omniswap.Prelude.Int.{ℤ, ◌≤ℤ◌, eqb_ℤ, ltb_ℤ}
use omniswap.UsageMeter.{
  ClientUsage, UsageMeter, tokens_of, busier, put_in_order, in_order, names_of, snapshot,
}

first_le : (x y : ℤ) (tie : Bool) → (if eqb_ℤ x y then tie else ltb_ℤ y x) ≡ true → y ≤ℤ x
first_le x y tie h = ground arith

second_le : (x y : ℤ) (tie : Bool) → (if eqb_ℤ x y then tie else ltb_ℤ y x) ≡ false → x ≤ℤ y
second_le x y tie h = ground arith

le_trans : (x y z : ℤ) → x ≤ℤ y → y ≤ℤ z → x ≤ℤ z
le_trans x y z h k = omega arith

module _ (clients : Dict String ClientUsage) where
  abbrev pub IsDescending : List String → Type 0
  IsDescending [] = Unit
  IsDescending (name ∷ names) =
      All (λ other. tokens_of clients other ≤ℤ tokens_of clients name) names × IsDescending names

  busier→le :
      (a b : String) → busier clients a b ≡ true → tokens_of clients b ≤ℤ tokens_of clients a
  busier→le a b h =
      first_le (tokens_of clients a) (tokens_of clients b) (is_lt (compare_text a b)) h

  not_busier→le :
      (a b : String) → busier clients a b ≡ false → tokens_of clients a ≤ℤ tokens_of clients b
  not_busier→le a b h =
      second_le (tokens_of clients a) (tokens_of clients b) (is_lt (compare_text a b)) h

  put_in_order-All :
      (P : String → Type 0) (name : String) (names : List String)
      → P name
      → All P names
      → All P (put_in_order clients name names)
  unfolding put_in_order
  put_in_order-All P name [] h all = (h, tt)
  put_in_order-All P name (other ∷ rest) h (k, all) =
      elim (Bool-cases (busier clients name other)) [
        | inl e ↦ rw e (h, (k, all))
        | inr e ↦ rw e (k, put_in_order-All P name rest h all)
      ]

  put_in_order-Perm :
      (name : String) (names : List String) → Perm (put_in_order clients name names) (name ∷ names)
  unfolding put_in_order
  put_in_order-Perm name [] = Perm.refl (name ∷ [])
  put_in_order-Perm name (other ∷ rest) = elim (Bool-cases (busier clients name other)) [
    | inl e ↦ rw e (Perm.refl (name ∷ other ∷ rest))
    | inr e ↦
        rw e
          (Perm.trans (Perm.cons other (put_in_order-Perm name rest)) (Perm.swap name other rest))
  ]

  All-tokens_of :
      (x y : ℤ) (names : List String)
      → x ≤ℤ y
      → All (λ other. tokens_of clients other ≤ℤ x) names
      → All (λ other. tokens_of clients other ≤ℤ y) names
  All-tokens_of x y [] h all = tt
  All-tokens_of x y (other ∷ names) h (k, all) =
      (le_trans (tokens_of clients other) x y k h, All-tokens_of x y names h all)

  put_in_order-IsDescending :
      (name : String) (names : List String)
      → IsDescending names
      → IsDescending (put_in_order clients name names)
  unfolding put_in_order
  put_in_order-IsDescending name [] d = (tt, tt)
  put_in_order-IsDescending name (other ∷ rest) (all, d) =
      elim (Bool-cases (busier clients name other)) [
        | inl e ↦
            let le = busier→le name other e in
            rw e (
              (le, All-tokens_of (tokens_of clients other) (tokens_of clients name) rest le all),
              (all, d),
            )
        | inr e ↦ rw e (
          put_in_order-All (λ x. tokens_of clients x ≤ℤ tokens_of clients other) name rest
              (not_busier→le name other e) all,
          put_in_order-IsDescending name rest d,
        )
      ]

  in_order-IsDescending : (names : List String) → IsDescending (in_order clients names)
  unfolding in_order
  in_order-IsDescending [] = tt
  in_order-IsDescending (name ∷ names) =
      put_in_order-IsDescending name (in_order clients names) (in_order-IsDescending names)

  in_order-Perm : (names : List String) → Perm (in_order clients names) names
  unfolding in_order
  in_order-Perm [] = Perm.refl []
  in_order-Perm (name ∷ names) =
      Perm.trans (put_in_order-Perm name (in_order clients names))
        (Perm.cons name (in_order-Perm names))

-- The order of a snapshot lists every client once for each of its entries, and no client has more
-- tokens, modulo the wrap-around of an `int64`, than one before it.
pub order-snapshot :
    (m : UsageMeter)
    → Perm (snapshot m).order (names_of m.clients) × IsDescending m.clients (snapshot m).order
unfolding snapshot
order-snapshot m = (
  in_order-Perm m.clients (names_of m.clients),
  in_order-IsDescending m.clients (names_of m.clients),
)
