-- ===== src/Ledger/Sound.antt =====
-- An account that its allowance covers, and the methods that keep it so.
use omniswap.Prelude.{ℕ, ◌+◌, ◌^◌, ◌≤◌, ◌≡◌, arith}
use omniswap.Prelude.Keys.{string_eq}
use omniswap.Prelude.Int.{ℤ, pos, pos_part, neg_part, ◌≤ℤ◌, neg_part_zero}
use omniswap.Prelude.Word.{add64_parts, sub64_parts, word_laws}
use omniswap.Ledger.{KeyCredit, available, clamp, settle}
use omniswap.Ledger.Account.{reserved_by, released, trued_up, confirmed_with, at_least_zero}

-- Allowances up to this many credits, about 2.3 * 10^18, leave no sum of the ledger room to wrap.
abbrev pub max_credit : ℕ
max_credit = 2 ^ 61

-- All that an account has held, billed and confirmed is covered by its allowance.
pub record IsFunded (k : KeyCredit) : Type 0 where
  pub allowance_cap : k.allowance ≤ℤ pos max_credit
  pub reserved_pos : pos 0 ≤ℤ k.reserved
  pub pending_pos : pos 0 ≤ℤ k.pending
  pub confirmed_pos : pos 0 ≤ℤ k.confirmed_sum
  pub covered :
      pos_part k.reserved + pos_part k.pending + pos_part k.confirmed_sum + neg_part k.allowance
      ≤ pos_part k.allowance

pub available_exact :
    (k : KeyCredit)
    → IsFunded k
    → (pos 0 ≤ℤ available k)
      × (pos_part (available k)
            + pos_part k.reserved
            + pos_part k.pending
            + pos_part k.confirmed_sum
          ≡ pos_part k.allowance)
unfolding available
available_exact k f = omega word_laws

pub at_least_zero_pos : (c : ℤ) → pos 0 ≤ℤ at_least_zero c
at_least_zero_pos c = ground arith

pub reserved_by-IsFunded :
    (c : ℤ) (k : KeyCredit)
    → IsFunded k
    → pos 0 ≤ℤ c
    → c ≤ℤ available k
    → IsFunded (reserved_by c k)
reserved_by-IsFunded c k f hc h = omega (word_laws, available_exact k f)

pub released-IsFunded :
    (c : ℤ) (k : KeyCredit) → IsFunded k → pos 0 ≤ℤ c → c ≤ℤ k.reserved → IsFunded (released c k)
released-IsFunded c k f hc h = omega word_laws

clamp_bounds : (a c : ℤ) → pos 0 ≤ℤ c → (pos 0 ≤ℤ clamp a c) × (clamp a c ≤ℤ c)
unfolding clamp
clamp_bounds a c h = ground arith

pub trued_up-IsFunded :
    (c a : ℤ) (k : KeyCredit)
    → IsFunded k
    → pos 0 ≤ℤ c
    → c ≤ℤ k.reserved
    → IsFunded (trued_up c a k)
trued_up-IsFunded c a k f hc h = omega (word_laws, clamp_bounds a c hc)

pub confirmed_with-IsFunded :
    (cost : ℤ) (seq : ℕ) (k : KeyCredit)
    → IsFunded k
    → cost ≤ℤ k.pending
    → IsFunded (confirmed_with cost seq k)
unfolding settle
confirmed_with-IsFunded cost seq k f h = ground (
  arith,
  sub64_parts k.pending cost,
  add64_parts k.confirmed_sum cost,
  neg_part_zero k.pending f.pending_pos,
  neg_part_zero k.confirmed_sum f.confirmed_pos,
)

pub confirmed_with-reserved :
    (cost : ℤ) (seq : ℕ) (k : KeyCredit) → (confirmed_with cost seq k).reserved ≡ k.reserved
unfolding settle
confirmed_with-reserved cost seq k = ground arith
