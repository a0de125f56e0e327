-- ===== src/Allowance.antt =====
-- The pushed allowance snapshot (proxy/allowance.go): parsing, its application to the ledger, and
-- its freshness. The strict JSON decoder is a parameter; texts of errors and log lines are left out.
pub mod Parse
pub mod Apply
pub mod Age
mod Tests
use omniswap.Prelude.{
  ℕ, suc, String, Bool, true, false, Option, none, some, List, [], ◌∷◌, ◌⊎◌, inl, inr,
  if◌then◌else◌, leb, nat_beq, ◌||◌,
}
use omniswap.Prelude.Keys.{string_eq, ◌==◌}
use omniswap.Prelude.Int.{ℤ, pos, ltb_ℤ, leb_ℤ}
use omniswap.Prelude.Word.{add64, sub64}
use omniswap.Ledger.{CreditLedger, set_allowance}

pub record AllowanceEntry : Type 0 where
  pub key_fingerprint : String
  pub balance : ℤ
  pub watermark : ℕ

pub record AllowanceSnapshot : Type 0 where
  pub ver : ℕ
  pub ts_unix : ℤ
  pub allowances : List AllowanceEntry

-- Why a push is malformed; an entry is named by its index.
pub data ParseError : Type 0 where
  bad_json zero_ver : ParseError
  missing_key negative_balance duplicate_key : ℕ → ParseError

unfoldable pub contains : String → List String → Bool
contains key [] = false
contains key (k ∷ seen) = k == key || contains key seen

-- The loop over the entries: the first thing that is wrong with them, if any.
unfoldable pub check_entries : ℕ → List String → List AllowanceEntry → Option ParseError
check_entries i seen [] = none
check_entries i seen (e ∷ es) =
    let rest = check_entries (suc i) (e.key_fingerprint ∷ seen) es in
    if e.key_fingerprint == ""
    then some (missing_key i)
    else if ltb_ℤ e.balance (pos 0)
    then some (negative_balance i)
    else if contains e.key_fingerprint seen
    then some (duplicate_key i)
    else rest

module _ (decode : List ℕ → Option AllowanceSnapshot) where
  unfoldable pub parse_allowance_snapshot : List ℕ → ParseError ⊎ AllowanceSnapshot
  parse_allowance_snapshot raw = elim (decode raw) [
    | none ↦ inl bad_json
    | some s ↦
        if nat_beq s.ver 0
        then inl zero_ver
        else elim (check_entries 0 [] s.allowances) [ some err ↦ inl err | none ↦ inr s ]
  ]

-- `allowanceIngester`, with the ledger that it points to.
pub record AllowanceIngester : Type 0 where
  pub ledger : CreditLedger
  pub last_ver : ℕ
  pub last_ts : ℤ
  pub rejects : ℤ

unfoldable pub new_allowance_ingester : CreditLedger → AllowanceIngester
new_allowance_ingester l = record { ledger = l; last_ver = 0; last_ts = pos 0; rejects = pos 0 }

unfoldable pub reject : AllowanceIngester → AllowanceIngester
reject a = record a { rejects = add64 a.rejects (pos 1) }

-- The loop of `Apply`.
unfoldable pub set_allowances : List AllowanceEntry → ℕ → CreditLedger → CreditLedger
set_allowances [] ver l = l
set_allowances (e ∷ es) ver l =
    set_allowances es ver (set_allowance e.key_fingerprint e.balance e.watermark ver l)

-- `Apply`, with whether it applied.
unfoldable pub apply :
    (List ℕ → Option AllowanceSnapshot) → List ℕ → AllowanceIngester → AllowanceIngester × Bool
apply decode raw a = elim (parse_allowance_snapshot decode raw) [
  | inl err ↦ (reject a, false)
  | inr s ↦ if leb s.ver a.last_ver then (reject a, false) else (
    record a {
      ledger = set_allowances s.allowances s.ver a.ledger;
      last_ver = s.ver;
      last_ts = s.ts_unix;
    },
    true,
  )
]

pub data Freshness : Type 0 where
  fresh stale expired : Freshness

unfoldable pub snapshot_freshness : ℤ → ℤ → ℤ → ℤ → ℤ → Freshness
snapshot_freshness ts_unix now_unix grace_sec hard_max_sec skew_sec =
    let age = sub64 now_unix ts_unix in
    if leb_ℤ ts_unix (pos 0)
    then expired
    else if ltb_ℤ age (sub64 (pos 0) skew_sec)
    then expired
    else if leb_ℤ age grace_sec
    then fresh
    else if leb_ℤ age hard_max_sec
    then stale
    else expired

unfoldable pub freshness : AllowanceIngester → ℤ → ℤ → ℤ → ℤ → Freshness
freshness a now_unix grace_sec hard_max_sec skew_sec =
    if nat_beq a.last_ver 0
    then expired
    else snapshot_freshness a.last_ts now_unix grace_sec hard_max_sec skew_sec
