-- ===== src/Ledger/Account.antt =====
-- The account of a key under each method of the ledger, and what the methods leave alone.
use omniswap.Prelude.{
  ℕ, String, true, false, none, some, ◌≡◌, refl, sym, arith, inl, inr, ◌∙◌, if◌then◌else◌, leb,
  Bool-cases,
}
use omniswap.Prelude.Keys.{string_eq, ◌==◌}
use omniswap.Prelude.Dict.{lookup-insert}
use omniswap.Prelude.Int.{ℤ, pos, ltb_ℤ, leb_ℤ}
use omniswap.Prelude.Word.{add64, sub64}
use omniswap.Ledger.{
  KeyCredit, CreditLedger, Reservation, key_locked, put, available, reserve, release, true_up,
  clamp, confirm, settle, renew, set_allowance,
}

pub key_locked-put :
    (j key : String) (k : KeyCredit) (l : CreditLedger)
    → key_locked j (put key k l) ≡ (if key == j then k else key_locked j l)
unfolding key_locked put
key_locked-put j key k l = ground (arith, lookup-insert key j k l.keys)

-- A change of one account, as another key sees it.
abbrev pub at_key : String → String → (KeyCredit → KeyCredit) → KeyCredit → KeyCredit
at_key key j f k = if key == j then f k else k

key_locked-update :
    (j key : String) (f : KeyCredit → KeyCredit) (l : CreditLedger)
    → key_locked j (put key (f (key_locked key l)) l) ≡ at_key key j f (key_locked j l)
key_locked-update j key f l =
    key_locked-put j key (f (key_locked key l)) l
    ∙ elim (Bool-cases (key == j)) [ inl e ↦ rw (e, (string_eq.beq_iff key j).0 e) | inr e ↦ rw e ]

key_locked-same :
    (j key : String) (l : CreditLedger)
    → key_locked j (put key (key_locked key l) l) ≡ key_locked j l
key_locked-same j key l =
    ground (arith, key_locked-put j key (key_locked key l) l, string_eq.beq_iff key j)

key_locked-skips :
    (j : String) (n : ℤ) (l : CreditLedger) → key_locked j (record l { skips = n }) ≡ key_locked j l
unfolding key_locked
key_locked-skips j n l = refl

-- What each method does to the account of the key that it is about.
abbrev pub reserved_by : ℤ → KeyCredit → KeyCredit
reserved_by c k = record k { reserved = add64 k.reserved c }

abbrev pub released : ℤ → KeyCredit → KeyCredit
released c k = record k { reserved = sub64 k.reserved c }

abbrev pub trued_up : ℤ → ℤ → KeyCredit → KeyCredit
trued_up c actual k = record k {
  reserved = sub64 k.reserved c;
  pending = add64 k.pending (clamp actual c);
}

-- `if cost < 0 { cost = 0 }`
abbrev pub at_least_zero : ℤ → ℤ
at_least_zero cost = if ltb_ℤ cost (pos 0) then pos 0 else cost

-- `Reserve` denies exactly if the balance is below the cost, and then no account changes.
pub reserve_denied :
    (key j : String) (cost : ℤ) (l : CreditLedger)
    → ltb_ℤ (available (key_locked key l)) (at_least_zero cost) ≡ true
    → ((reserve key cost l).1 ≡ none) × (key_locked j (reserve key cost l).0 ≡ key_locked j l)
unfolding reserve
reserve_denied key j cost l h = rw h (refl, key_locked-same j key l)

pub reserve_granted :
    (key j : String) (cost : ℤ) (l : CreditLedger)
    → ltb_ℤ (available (key_locked key l)) (at_least_zero cost) ≡ false
    → ((reserve key cost l).1
        ≡ some (record { key = key; cost = at_least_zero cost; done = false }))
      × (key_locked j (reserve key cost l).0
          ≡ at_key key j (reserved_by (at_least_zero cost)) (key_locked j l))
unfolding reserve
reserve_granted key j cost l h =
    rw h (refl, key_locked-update j key (reserved_by (at_least_zero cost)) l)

pub key_locked-release :
    (j : String) (r : Reservation) (l : CreditLedger)
    → r.done ≡ false
    → key_locked j (release r l).0 ≡ at_key r.key j (released r.cost) (key_locked j l)
unfolding release
key_locked-release j r l h = rw h (key_locked-update j r.key (released r.cost) l)

pub key_locked-true_up :
    (j : String) (r : Reservation) (actual : ℤ) (l : CreditLedger)
    → r.done ≡ false
    → key_locked j (true_up r actual l).0 ≡ at_key r.key j (trued_up r.cost actual) (key_locked j l)
unfolding true_up
key_locked-true_up j r actual l h = rw h (key_locked-update j r.key (trued_up r.cost actual) l)

pub key_locked-set_allowance :
    (j key : String) (balance : ℤ) (watermark ver : ℕ) (l : CreditLedger)
    → key_locked j (set_allowance key balance watermark ver l)
      ≡ at_key key j (renew balance watermark ver) (key_locked j l)
unfolding set_allowance
key_locked-set_allowance j key balance watermark ver l =
    key_locked-update j key (renew balance watermark ver) l

-- `Confirm` on one account.
abbrev pub confirmed_with : ℤ → ℕ → KeyCredit → KeyCredit
confirmed_with cost seq k =
    if leb_ℤ cost (pos 0) then k else if leb seq k.confirmed_high then k else settle cost seq k

pub key_locked-confirm :
    (j key : String) (cost : ℤ) (seq : ℕ) (l : CreditLedger)
    → key_locked j (confirm key cost seq l)
      ≡ at_key key j (confirmed_with cost seq) (key_locked j l)
unfolding confirm
key_locked-confirm j key cost seq l = written ∙ key_locked-update j key (confirmed_with cost seq) l
  where
    written :
        key_locked j (confirm key cost seq l)
        ≡ key_locked j (put key (confirmed_with cost seq (key_locked key l)) l)
    written = elim (Bool-cases (leb_ℤ cost (pos 0))) [
      | inl free ↦ rw free (sym (key_locked-same j key l))
      | inr charged ↦ elim (Bool-cases (leb seq (key_locked key l).confirmed_high)) [
        | inl replay ↦ rw (charged, replay) (key_locked-skips j _ _)
        | inr fresh ↦ rw (charged, fresh)
      ]
    ]

-- A resolved reservation stays as it is, and its ledger too: both methods are idempotent.
pub release_done : (r : Reservation) (l : CreditLedger) → r.done ≡ true → release r l ≡ (l, r)
unfolding release
release_done r l h = rw h

pub true_up_done :
    (r : Reservation) (actual : ℤ) (l : CreditLedger)
    → r.done ≡ true
    → true_up r actual l ≡ (l, r, false)
unfolding true_up
true_up_done r actual l h = rw h

pub release_open :
    (r : Reservation) (l : CreditLedger)
    → r.done ≡ false
    → (release r l).1 ≡ record r { done = true }
unfolding release
release_open r l h = rw h

pub true_up_open :
    (r : Reservation) (actual : ℤ) (l : CreditLedger)
    → r.done ≡ false
    → ((true_up r actual l).1 ≡ record r { done = true }) × ((true_up r actual l).2 ≡ true)
unfolding true_up
true_up_open r actual l h = rw h (refl, refl)
