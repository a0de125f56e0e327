-- ===== src/Ledger/World.antt =====
-- The ledger together with the reservations that were handed out, and any sequence of calls on
-- them. A `*Reservation` is shared by whoever holds the pointer, so the reservations stand in a list
-- and a caller names one by its position.
use omniswap.Prelude.{
  ℕ, String, Option, none, some, List, [], ◌∷◌, ◌++◌, if◌then◌else◌, get_elem?, set,
}
use omniswap.Prelude.Keys.{string_eq, ◌==◌}
use omniswap.Prelude.Int.{ℤ, pos}
use omniswap.Prelude.Word.{add64}
use omniswap.Ledger.{
  CreditLedger, Reservation, new_credit_ledger, reserve, release, true_up, confirm, set_allowance,
}

pub record World : Type 0 where
  pub ledger : CreditLedger
  pub holds : List Reservation

pub data Op : Type 0 where
  reserve_op : String → ℤ → Op
  release_op : ℕ → Op
  true_up_op : ℕ → ℤ → Op
  confirm_op : String → ℤ → ℕ → Op
  set_allowance_op : String → ℤ → ℕ → ℕ → Op

abbrev pub granted : Option Reservation → List Reservation → List Reservation
granted none holds = holds
granted (some r) holds = holds ++ r ∷ []

-- A call on the reservation at a position; a nil receiver changes nothing.
abbrev pub on_hold : Option Reservation → (Reservation → World) → World → World
on_hold none f w = w
on_hold (some r) f w = f r

unfoldable pub step : Op → World → World
step (reserve_op key cost) w =
    let (l, r) = reserve key cost w.ledger in record { ledger = l; holds = granted r w.holds }
step (release_op i) w =
    on_hold (get_elem? w.holds i)
      (λ r. let (l, r') = release r w.ledger in record { ledger = l; holds = set w.holds i r' }) w
step (true_up_op i actual) w =
    on_hold (get_elem? w.holds i)
      (λ r.
        let (l, r', billed) = true_up r actual w.ledger in
        record { ledger = l; holds = set w.holds i r' })
      w
step (confirm_op key cost seq) w = record w { ledger = confirm key cost seq w.ledger }
step (set_allowance_op key balance watermark ver) w = record w {
  ledger = set_allowance key balance watermark ver w.ledger;
}

unfoldable pub run : List Op → World → World
run [] w = w
run (op ∷ ops) w = run ops (step op w)

unfoldable pub fresh : World
unfolding new_credit_ledger
fresh = record { ledger = new_credit_ledger; holds = [] }

-- The cost of a reservation to a key while it is unresolved.
abbrev pub open_cost : String → Reservation → ℤ
open_cost key r = if r.key == key then (if r.done then pos 0 else r.cost) else pos 0

-- The sum of a key's unresolved holds, in `int64`.
unfoldable pub open_holds : String → List Reservation → ℤ
open_holds key [] = pos 0
open_holds key (r ∷ rs) = add64 (open_cost key r) (open_holds key rs)
