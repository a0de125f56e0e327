-- ===== src/Gate/Request.antt =====
-- A whole request through the billing block of `proxyInferenceHandler` (proxy/proxymanager.go): it
-- is admitted, dispatched and resolved.
use omniswap.Prelude.{
  String, true, false, Option, none, some, ◌≡◌, refl, arith, inl, inr, Bool-cases,
}
use omniswap.Prelude.Keys.{string_eq, ◌==◌}
use omniswap.Prelude.Int.{ℤ, ◌≤ℤ◌, ltb_ℤ}
use omniswap.Prelude.Word.{add64, sub64-add64, InRange}
use omniswap.Pricing.{PriceBook}
use omniswap.Ledger.{KeyCredit, CreditLedger, reserve, available, clamp, key_locked}
use omniswap.Ledger.Account.{at_key, reserved_by, at_least_zero, reserve_granted}
use omniswap.Gate.{
  CreditGate, CreditReservation, Call, returned, admit, admit_ok, recover_gate_fault, contain_admit,
  guarded_admit, guarded_resolve,
}
use omniswap.Gate.Wiring.{CreditCapture, resolve_reservation, credit_block}
use omniswap.Gate.Decision.{
  account, account_of, quote, quoted_ledger, granted, charged, admit_on_grant,
}
use omniswap.Gate.Resolve.{bill, charge, resolve_reservation_lem}

-- What a request leaves on its key's account, whose hold was `c`.
abbrev pub settled : ℤ → Option ℤ → KeyCredit → KeyCredit
settled c none k = k
settled c (some b) k = record k { pending = add64 k.pending (clamp b c) }

charge-reserved_by :
    (c : ℤ) (b : Option ℤ) (k : KeyCredit)
    → InRange k.reserved
    → charge c b (reserved_by c k) ≡ settled c b k
charge-reserved_by c none k h = rw (sub64-add64 k.reserved c h) refl
charge-reserved_by c (some b) k h = rw (sub64-add64 k.reserved c h) refl

guarded_admit-admit :
    (g : CreditGate) (key model : String) (p m : ℤ)
    → let out = admit key model p m g in guarded_admit key model p m g ≡ (out.0, (out.1, out.2))
unfolding guarded_admit contain_admit recover_gate_fault
guarded_admit-admit g key model p m = refl

guarded_resolve-returned :
    (fn : Call CreditReservation) (g : CreditGate) (rsv : CreditReservation)
    → (fn g rsv).2 ≡ returned
    → guarded_resolve fn g (some rsv) ≡ ((fn g rsv).0, some (fn g rsv).1, returned)
unfolding guarded_resolve recover_gate_fault
guarded_resolve-returned fn g rsv h = ground arith

-- The account of a key after the two calls, for a request that is granted a hold.
granted-account :
    (g : CreditGate) (key model : String) (cap : CreditCapture) (j : String) (c : ℤ)
    {l : CreditLedger} {prices : PriceBook}
    → g.ledger ≡ some l
    → g.prices ≡ some prices
    → ltb_ℤ (available (key_locked key l)) (at_least_zero c) ≡ false
    → InRange (key_locked key l).reserved
    → let rsv = granted key model c in
      let out = resolve_reservation (some cap) (charged g key c l) rsv in
      (out.2 ≡ returned)
      × (account j out.0
          ≡ at_key key j (settled (at_least_zero c) (bill prices rsv (some cap))) (account j g))
granted-account g key model cap j c {l} {prices} hl hp enough hr =
    let b = bill prices (granted key model c) (some cap) in
    let all =
      resolve_reservation_lem (some cap) (charged g key c l) (granted key model c)
        {l = (reserve key c l).0} j refl refl refl hp refl in
    (
      all.0,
      rw
          (
            all.2,
            account_of j (charged g key c l) {l = (reserve key c l).0} refl,
            (reserve_granted key j c l enough).1,
            account_of j g hl,
          )
          (elim (Bool-cases (key == j)) [
            | inl e ↦ rw e (
                charge-reserved_by (at_least_zero c) b (key_locked j l)
                  (rw⁻¹ ((string_eq.beq_iff key j).0 e) hr))
            | inr e ↦ rw e refl
          ]),
    )

credit_block-enforcing :
    (g : CreditGate) (key model : String) (p m : ℤ) (cap : CreditCapture)
    → g.enforce ≡ true
    → let out = guarded_admit key model p m g in
      out.1.1 ≡ admit_ok
      → credit_block true key model p m (λ g'. (g', cap)) g
        ≡ ((guarded_resolve (resolve_reservation (some cap)) out.0 out.1.0).0, none)
unfolding credit_block
credit_block-enforcing g key model p m cap h k = ground arith

-- A metered request of an enforcing gate that is priced at `c`, which the available balance of its
-- key covers, and that meets no other request: it goes on, and in the end the reserved sum of its
-- key is what it was, its pending sum has grown by the bill, clamped to [0, c], or is what it was
-- for a refund, and no other account has changed.
pub credit_block_bills :
    (g : CreditGate) (key model : String) (p m : ℤ) (cap : CreditCapture) (j : String)
    {l : CreditLedger} {c : ℤ} {prices : PriceBook}
    → g.enforce ≡ true
    → quote g model p m ≡ some (l, c)
    → g.prices ≡ some prices
    → at_least_zero c ≤ℤ available (key_locked key l)
    → InRange (key_locked key l).reserved
    → let out = credit_block true key model p m (λ g'. (g', cap)) g in
      (out.1 ≡ none)
      × (account j out.0
          ≡ at_key key j
              (settled (at_least_zero c) (bill prices (granted key model c) (some cap)))
              (account j g))
credit_block_bills g key model p m cap j {l} {c} {prices} he hq hp enough hr =
    let covered : ltb_ℤ (available (key_locked key l)) (at_least_zero c) ≡ false = ground arith in
    let grant = reserve_granted key key c l covered in
    let all =
      granted-account g key model cap j c {l = l} {prices = prices} (quoted_ledger g model p m hq)
        hp covered hr in
    let resolved =
      guarded_resolve-returned (resolve_reservation (some cap)) (charged g key c l)
        (granted key model c) all.0 in
    let admitted : guarded_admit key model p m g
        ≡ (charged g key c l, (some (granted key model c), admit_ok)) =
      rw
        (
          guarded_admit-admit g key model p m,
          admit_on_grant g key model p m {l = l} {c = c} he hq grant.0,
        )
        refl in
    rw (credit_block-enforcing g key model p m cap he (rw admitted refl), admitted, resolved)
      (refl, all.1)
