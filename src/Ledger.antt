-- ===== src/Ledger.antt =====
-- The per-key credit ledger (proxy/credit_ledger.go). Every method runs under the ledger's mutex,
-- so a call is one step: it takes the ledger and returns the new one. Amounts are `int64` with
-- wrap-around; versions and sequence numbers are `uint64`, which are only compared.
pub mod Account
pub mod World
pub mod Induction
pub mod Holds
pub mod Confirmed
pub mod Sound
pub mod Overspend
mod Tests
use omniswap.Prelude.{
  ℕ, String, Bool, true, false, not, Option, none, some, [], ◌∷◌, if◌then◌else◌, leb, ltb,
}
use omniswap.Prelude.Keys.{string_eq, nat_eq, ◌==◌}
use omniswap.Prelude.Dict.{Dict, lookup, insert}
use omniswap.Prelude.Int.{ℤ, pos, ltb_ℤ, leb_ℤ}
use omniswap.Prelude.Word.{add64, sub64}

-- `keyCredit`
pub record KeyCredit : Type 0 where
  pub allowance : ℤ
  pub allowance_ver : ℕ
  pub ack_watermark : ℕ
  pub confirmed : Dict ℕ ℤ
  pub confirmed_sum : ℤ
  pub confirmed_high : ℕ
  pub pending : ℤ
  pub reserved : ℤ

-- `creditLedger`
pub record CreditLedger : Type 0 where
  pub keys : Dict String KeyCredit
  pub skips : ℤ

unfoldable pub new_credit_ledger : CreditLedger
new_credit_ledger = record { keys = []; skips = pos 0 }

abbrev pub zero_account : KeyCredit
zero_account = record {
  allowance = pos 0;
  allowance_ver = 0;
  ack_watermark = 0;
  confirmed = [];
  confirmed_sum = pos 0;
  confirmed_high = 0;
  pending = pos 0;
  reserved = pos 0;
}

-- `keyLocked`: the account of a key, a zero one on first use. Where the code changes the account
-- through the pointer, the model writes it back with `put`.
unfoldable pub key_locked : String → CreditLedger → KeyCredit
key_locked key l = elim (lookup key l.keys) [ none ↦ zero_account | some k ↦ k ]

unfoldable pub put : String → KeyCredit → CreditLedger → CreditLedger
put key k l = record l { keys = insert key k l.keys }

unfoldable pub available : KeyCredit → ℤ
available k = sub64 (sub64 (sub64 k.allowance k.reserved) k.pending) k.confirmed_sum

-- `Reservation`; its ledger is the one that a method is given.
pub record Reservation : Type 0 where
  pub key : String
  pub cost : ℤ
  pub done : Bool

unfoldable pub reserve : String → ℤ → CreditLedger → CreditLedger × Option Reservation
reserve key cost l =
    let k = key_locked key l in
    let c = if ltb_ℤ cost (pos 0) then pos 0 else cost in
    if ltb_ℤ (available k) c then (put key k l, none) else (
      put key (record k { reserved = add64 k.reserved c }) l,
      some (record { key = key; cost = c; done = false }),
    )

-- `Release`, on a receiver that is not nil: the ledger, and the reservation as it is left.
unfoldable pub release : Reservation → CreditLedger → CreditLedger × Reservation
release r l =
    let k = key_locked r.key l in
    if r.done
    then (l, r)
    else (put r.key (record k { reserved = sub64 k.reserved r.cost }) l, record r { done = true })

-- The bill of a true-up: `actual`, clamped to [0, cost].
unfoldable pub clamp : ℤ → ℤ → ℤ
clamp actual cost =
    let a = if ltb_ℤ actual (pos 0) then pos 0 else actual in if ltb_ℤ cost a then cost else a

-- `TrueUp`, with the result that it returns.
unfoldable pub true_up : Reservation → ℤ → CreditLedger → CreditLedger × Reservation × Bool
true_up r actual l =
    let k = key_locked r.key l in
    if r.done then (l, r, false) else (
      put r.key
          (record k {
            reserved = sub64 k.reserved r.cost;
            pending = add64 k.pending (clamp actual r.cost);
          })
          l,
      record r { done = true },
      true,
    )

-- The part of `Confirm` below the replay test.
unfoldable pub settle : ℤ → ℕ → KeyCredit → KeyCredit
settle cost seq k =
    let k' = record k {
      confirmed_high = seq;
      pending = if leb_ℤ cost k.pending then sub64 k.pending cost else pos 0;
    } in
    if ltb k.ack_watermark seq
    then record k' {
      confirmed = insert seq cost k.confirmed;
      confirmed_sum = add64 k.confirmed_sum cost;
    }
    else k'

unfoldable pub confirm : String → ℤ → ℕ → CreditLedger → CreditLedger
confirm key cost seq l =
    let k = key_locked key l in
    if leb_ℤ cost (pos 0)
    then l
    else if leb seq k.confirmed_high
    then record (put key k l) { skips = add64 l.skips (pos 1) }
    else put key (settle cost seq k) l

-- The loop of `SetAllowance` over the confirmed debits: what stays in the map, and what is left of
-- the sum. Go ranges over the map in any order, and the differences commute.
unfoldable pub aged : ℕ → Dict ℕ ℤ → Dict ℕ ℤ
aged watermark [] = []
aged watermark ((seq, cost) ∷ m) =
    let rest = aged watermark m in if leb seq watermark then rest else (seq, cost) ∷ rest

unfoldable pub aged_sum : ℕ → Dict ℕ ℤ → ℤ → ℤ
aged_sum watermark [] sum = sum
aged_sum watermark ((seq, cost) ∷ m) sum =
    aged_sum watermark m (if leb seq watermark then sub64 sum cost else sum)

-- `SetAllowance` on one account.
unfoldable pub renew : ℤ → ℕ → ℕ → KeyCredit → KeyCredit
renew balance watermark ver k =
    let k' = record k { allowance_ver = ver; allowance = balance } in
    if ltb ver k.allowance_ver
    then k
    else if ltb k.ack_watermark watermark
    then record k' {
      confirmed = aged watermark k.confirmed;
      confirmed_sum = aged_sum watermark k.confirmed k.confirmed_sum;
      ack_watermark = watermark;
    }
    else k'

unfoldable pub set_allowance : String → ℤ → ℕ → ℕ → CreditLedger → CreditLedger
set_allowance key balance watermark ver l =
    put key (renew balance watermark ver (key_locked key l)) l

-- `Available`: it creates the account of a key that it has not seen.
unfoldable pub available_of : String → CreditLedger → CreditLedger × ℤ
available_of key l = let k = key_locked key l in (put key k l, available k)
