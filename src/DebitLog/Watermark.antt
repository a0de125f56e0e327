-- ===== src/DebitLog/Watermark.antt =====
-- The Seq of proxy/debit_log.go as a gap-free watermark, over appends, crashes and restarts.
use omniswap.Prelude.{
  ℕ, suc, ◌+◌, ◌≤◌, ◌<◌, ◌^◌, true, Option, some, List, [], ◌∷◌, ◌++◌, ◌≡◌, refl, arith, length,
  length-append, Bool-cases, inl, inr, ltb,
}
use omniswap.DebitLog.{DebitEvent, DebitLog, with_newline, next_seq, above, since_with_head}
use omniswap.DebitLog.Codec.{IsEncoded, IsEncoded-snoc}
use omniswap.DebitLog.Restore.{max_seqs}

-- Each event's Seq is one above that of the event before it; the first is one above `n`.
abbrev pub IsConsecutive : ℕ → List DebitEvent → Type 0
IsConsecutive n [] = Unit
IsConsecutive n (ev ∷ evs) = (ev.seq ≡ suc n) × IsConsecutive (suc n) evs

IsConsecutive-snoc :
    (n : ℕ) (evs : List DebitEvent) (ev : DebitEvent)
    → IsConsecutive n evs
    → ev.seq ≡ suc (n + length evs)
    → IsConsecutive n (evs ++ ev ∷ [])
IsConsecutive-snoc n [] ev h e = (omega (arith, e), tt)
IsConsecutive-snoc n (x ∷ evs) ev h e =
    (h.0, IsConsecutive-snoc (suc n) evs ev h.1 (omega (arith, e)))

max_seqs-IsConsecutive :
    (n : ℕ) (ev : DebitEvent) (evs : List DebitEvent)
    → IsConsecutive n (ev ∷ evs)
    → max_seqs (ev ∷ evs) ≡ n + suc (length evs)
max_seqs-IsConsecutive n ev [] h = ground arith
max_seqs-IsConsecutive n ev (x ∷ evs) h = ground (arith, max_seqs-IsConsecutive (suc n) x evs h.1)

pub max_seqs-length : (evs : List DebitEvent) → IsConsecutive 0 evs → max_seqs evs ≡ length evs
max_seqs-length [] h = refl
max_seqs-length (ev ∷ evs) h = omega (arith, max_seqs-IsConsecutive 0 ev evs h)

pub above-all :
    (cursor n : ℕ) (evs : List DebitEvent)
    → cursor ≤ n
    → IsConsecutive n evs
    → above cursor evs ≡ evs
unfolding above
above-all cursor n [] h c = refl
above-all cursor n (ev ∷ evs) h c = ground (arith, above-all cursor (suc n) evs (omega arith) c.1)

pub above-IsConsecutive :
    (cursor n : ℕ) (evs : List DebitEvent)
    → n ≤ cursor
    → cursor ≤ n + length evs
    → IsConsecutive n evs
    → IsConsecutive cursor (above cursor evs)
      × (cursor + length (above cursor evs) ≡ n + length evs)
unfolding above
above-IsConsecutive cursor n [] h k c = ground arith
above-IsConsecutive cursor n (ev ∷ evs) h k c = elim (Bool-cases (ltb cursor ev.seq)) [
  | inl new ↦
      let e : cursor ≡ n = ground (arith, c.0) in
      rw (new, above-all cursor (suc n) evs (omega arith) c.1, e) (c, refl)
  | inr old ↦
      let rest = above-IsConsecutive cursor (suc n) evs (ground (arith, c.0)) (omega arith) c.1 in
      rw old (rest.0, omega (arith, rest.1))
]

module _ (marshal : DebitEvent → Option (List ℕ)) where
  -- The file is the log in memory, and the events have the Seqs 1, 2, ..., up to the head.
  pub record IsSound (dl : DebitLog) : Type 0 where
    pub opened : dl.is_open ≡ true
    pub encoded : IsEncoded marshal dl.events dl.file
    pub consecutive : IsConsecutive 0 dl.events
    pub head : dl.seq ≡ length dl.events

  -- A pull from a sound log returns, for a cursor up to the head, events whose Seqs are exactly the
  -- numbers above the cursor and up to the returned head, in order and without a gap.
  since_with_head_gap_free :
      (cursor : ℕ) (dl : DebitLog)
      → IsSound dl
      → cursor ≤ dl.seq
      → let out = since_with_head cursor dl in
        IsConsecutive cursor out.0 × (cursor + length out.0 ≡ out.1)
  unfolding since_with_head
  since_with_head_gap_free cursor dl h k =
      let all =
        above-IsConsecutive cursor 0 dl.events (omega arith) (omega (arith, h.head))
          h.consecutive in
      (all.0, omega (arith, all.1, h.head))

  pub append-IsSound :
      (ev : DebitEvent) (dl : DebitLog) (line : List ℕ)
      → IsSound dl
      → dl.seq + 1 < 2 ^ 64
      → let stamped = record ev { seq = next_seq dl.seq } in
        marshal stamped ≡ some line
        → IsSound (record dl {
          is_open = true;
          file = dl.file ++ with_newline line;
          seq = next_seq dl.seq;
          events = dl.events ++ stamped ∷ [];
        })
  append-IsSound ev dl line h k m = record {
    opened = refl;
    encoded = IsEncoded-snoc marshal dl.events _ dl.file line h.encoded m;
    consecutive = IsConsecutive-snoc 0 dl.events _ h.consecutive (omega (arith, h.head));
    head =
        omega (arith, h.head, length-append dl.events ((record ev { seq = next_seq dl.seq }) ∷ []));
  }
