-- ===== src/Allowance/Parse.antt =====
-- What `parseAllowanceSnapshot` of proxy/allowance.go accepts.
use omniswap.Prelude.{
  ℕ, suc, ◌<◌, String, false, Option, none, some, List, [], ◌∷◌, ◌≡◌, ◌≢◌, refl, arith, inr, ◌↔◌,
  All,
}
use omniswap.Prelude.Keys.{string_eq}
use omniswap.Prelude.Int.{pos, ◌≤ℤ◌}
use omniswap.Allowance.{
  AllowanceEntry, AllowanceSnapshot, contains, check_entries, parse_allowance_snapshot,
}

-- The entry names a key, and its balance is not negative.
abbrev pub IsValid : AllowanceEntry → Type 0
IsValid e = (e.key_fingerprint ≢ "") × (pos 0 ≤ℤ e.balance)

-- No entry is about the key.
abbrev pub Absent : String → List AllowanceEntry → Type 0
Absent key [] = Unit
Absent key (e ∷ es) = (e.key_fingerprint ≢ key) × Absent key es

abbrev pub IsDistinct : List AllowanceEntry → Type 0
IsDistinct [] = Unit
IsDistinct (e ∷ es) = Absent e.key_fingerprint es × IsDistinct es

-- No entry is about a key of the list.
abbrev AbsentAll : List String → List AllowanceEntry → Type 0
AbsentAll seen [] = Unit
AbsentAll seen (e ∷ es) = (contains e.key_fingerprint seen ≡ false) × AbsentAll seen es

AbsentAll-cons :
    (key : String) (seen : List String) (es : List AllowanceEntry)
    → AbsentAll (key ∷ seen) es ↔ (Absent key es × AbsentAll seen es)
unfolding contains
AbsentAll-cons key seen [] = ground arith
AbsentAll-cons key seen (e ∷ es) =
    ground (arith, AbsentAll-cons key seen es, string_eq.beq_iff key e.key_fingerprint)

AbsentAll-nil : (es : List AllowanceEntry) → AbsentAll [] es
unfolding contains
AbsentAll-nil [] = tt
AbsentAll-nil (e ∷ es) = (refl, AbsentAll-nil es)

check_entries-none :
    (i : ℕ) (seen : List String) (es : List AllowanceEntry)
    → (check_entries i seen es ≡ none) ↔ (All IsValid es × IsDistinct es × AbsentAll seen es)
unfolding check_entries
check_entries-none i seen [] = ground arith
check_entries-none i seen (e ∷ es) = ground (
  arith,
  check_entries-none (suc i) (e.key_fingerprint ∷ seen) es,
  AbsentAll-cons e.key_fingerprint seen es,
  string_eq.beq_iff e.key_fingerprint "",
)

-- A push is accepted exactly if it decodes to a snapshot of a positive version whose entries each
-- name a key, have a balance of at least 0, and are about different keys; the result is that
-- snapshot.
pub parse_allowance_snapshot_lem :
    (decode : List ℕ → Option AllowanceSnapshot) (raw : List ℕ) (s : AllowanceSnapshot)
    → (parse_allowance_snapshot decode raw ≡ inr s)
      ↔ ((decode raw ≡ some s) × (0 < s.ver) × All IsValid s.allowances × IsDistinct s.allowances)
unfolding parse_allowance_snapshot
parse_allowance_snapshot_lem decode raw s =
    ground (arith, check_entries-none 0 [] s.allowances, AbsentAll-nil s.allowances)
