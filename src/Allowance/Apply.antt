-- ===== src/Allowance/Apply.antt =====
-- `Apply` of proxy/allowance.go: the accounts that a snapshot sets, and the last-good state that a
-- rejected push leaves.
use omniswap.Prelude.{
  ℕ, ◌≤◌, ◌<◌, String, true, false, Option, none, some, List, [], ◌∷◌, ◌≡◌, refl, arith, ◌⊎◌, inl,
  inr, if◌then◌else◌, Bool-cases, Sum-cases, leb,
}
use omniswap.Prelude.Keys.{string_eq, ◌==◌}
use omniswap.Prelude.Int.{pos}
use omniswap.Prelude.Word.{add64}
use omniswap.Ledger.{KeyCredit, CreditLedger, key_locked, renew, set_allowance}
use omniswap.Ledger.Account.{key_locked-set_allowance}
use omniswap.Allowance.{
  AllowanceEntry, AllowanceSnapshot, ParseError, AllowanceIngester, parse_allowance_snapshot,
  set_allowances, reject, apply,
}
use omniswap.Allowance.Parse.{Absent, IsDistinct, parse_allowance_snapshot_lem}

-- The entry for a key, if there is one.
abbrev pub entry_for : String → List AllowanceEntry → Option AllowanceEntry
entry_for key [] = none
entry_for key (e ∷ es) = if e.key_fingerprint == key then some e else entry_for key es

-- What a snapshot does to an account.
abbrev pub renewed : ℕ → Option AllowanceEntry → KeyCredit → KeyCredit
renewed ver none k = k
renewed ver (some e) k = renew e.balance e.watermark ver k

entry_for-Absent :
    (key : String) (es : List AllowanceEntry) → Absent key es → entry_for key es ≡ none
entry_for-Absent key [] h = refl
entry_for-Absent key (e ∷ es) h =
    ground (arith, entry_for-Absent key es h.1, string_eq.beq_iff e.key_fingerprint key)

key_locked-set_allowances :
    (j : String) (es : List AllowanceEntry) (ver : ℕ) (l : CreditLedger)
    → IsDistinct es
    → key_locked j (set_allowances es ver l) ≡ renewed ver (entry_for j es) (key_locked j l)
unfolding set_allowances
key_locked-set_allowances j [] ver l h = refl
key_locked-set_allowances j (e ∷ es) ver l h =
    let l' = set_allowance e.key_fingerprint e.balance e.watermark ver l in
    let one = key_locked-set_allowance j e.key_fingerprint e.balance e.watermark ver l in
    rw (key_locked-set_allowances j es ver l' h.1, one)
      (elim (Bool-cases (e.key_fingerprint == j)) [
        | inl same ↦
            rw
              (
                same,
                entry_for-Absent j es (rw⁻¹ ((string_eq.beq_iff e.key_fingerprint j).0 same) h.0),
              )
              refl
        | inr other ↦ rw other refl
      ])

-- No account has a version above the last one applied: the ledger's versions come from here.
abbrev pub IsBehind : AllowanceIngester → Type 0
IsBehind a = (j : String) → (key_locked j a.ledger).allowance_ver ≤ a.last_ver

-- A push that is malformed, or whose version is at most the last one applied, is rejected: the
-- rejection is counted, and the ledger, the version and the timestamp are held. Every other push is
-- applied: its version and timestamp are recorded, the account of each entry is renewed with the
-- entry's balance and watermark, and every other account is as it was.
pub apply_lem :
    (decode : List ℕ → Option AllowanceSnapshot) (raw : List ℕ) (a : AllowanceIngester) (j : String)
    → let out = apply decode raw a in
      ((out.1 ≡ false)
        × (out.0 ≡ record a { rejects = add64 a.rejects (pos 1) })
        × (((err : ParseError) × (parse_allowance_snapshot decode raw ≡ inl err))
            ⊎ ((s : AllowanceSnapshot) × (parse_allowance_snapshot decode raw ≡ inr s)
                × (s.ver ≤ a.last_ver))))
      ⊎ ((s : AllowanceSnapshot) × (out.1 ≡ true)
          × (parse_allowance_snapshot decode raw ≡ inr s)
          × (a.last_ver < s.ver)
          × (out.0.last_ver ≡ s.ver)
          × (out.0.last_ts ≡ s.ts_unix)
          × (out.0.rejects ≡ a.rejects)
          × (key_locked j out.0.ledger
              ≡ renewed s.ver (entry_for j s.allowances) (key_locked j a.ledger)))
unfolding apply reject
apply_lem decode raw a j = elim (Sum-cases (parse_allowance_snapshot decode raw)) [
  | inl (err, malformed) ↦ rw (malformed, apply) (inl (refl, refl, inl (err, refl)))
  | inr (s, parsed) ↦ elim (Bool-cases (leb s.ver a.last_ver)) [
    | inl old ↦ rw (parsed, old, apply) (inl (refl, refl, inr (s, refl, ground arith)))
    | inr newer ↦
        let ok = (parse_allowance_snapshot_lem decode raw s).0 parsed in
        rw (parsed, newer, apply)
          (inr (
            s,
            refl,
            refl,
            ground arith,
            refl,
            refl,
            refl,
            key_locked-set_allowances j s.allowances s.ver a.ledger ok.3,
          ))
  ]
]

renewed-applied :
    (ver : ℕ) (o : Option AllowanceEntry) (k : KeyCredit)
    → k.allowance_ver ≤ ver
    → ((renewed ver o k).allowance_ver ≤ ver)
      × ((renewed ver o k).allowance ≡ elim o [ none ↦ k.allowance | some e ↦ e.balance ])
unfolding renew
renewed-applied ver o k h = ground arith

-- On an ingester whose ledger has no account of a later version than the last one applied, a call
-- keeps that so and never lowers the version applied; and if the call applies a snapshot, each
-- account that the snapshot has an entry for has exactly that entry's balance as its allowance, and
-- every other account keeps its allowance.
pub apply_sets_balances :
    (decode : List ℕ → Option AllowanceSnapshot) (raw : List ℕ) (a : AllowanceIngester) (j : String)
    → IsBehind a
    → let out = apply decode raw a in
      (a.last_ver ≤ out.0.last_ver)
      × ((key_locked j out.0.ledger).allowance_ver ≤ out.0.last_ver)
      × ((out.1 ≡ false) × (key_locked j out.0.ledger ≡ key_locked j a.ledger)
          ⊎ ((s : AllowanceSnapshot) × (parse_allowance_snapshot decode raw ≡ inr s)
              × ((key_locked j out.0.ledger).allowance ≡ elim (entry_for j s.allowances) [
                | none ↦ (key_locked j a.ledger).allowance
                | some e ↦ e.balance
              ])))
apply_sets_balances decode raw a j h = elim (apply_lem decode raw a j) [
  | inl (held, same, why) ↦ rw same (omega arith, h j, inl (held, refl))
  | inr (s, applied, parsed, newer, ver, ts, rejects, accounts) ↦
      let set =
        renewed-applied s.ver (entry_for j s.allowances) (key_locked j a.ledger)
          (omega (arith, h j)) in
      rw (ver, accounts) (omega arith, set.0, inr (s, parsed, set.1))
]
