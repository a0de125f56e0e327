-- ===== src/DebitLog/Restore.antt =====
-- `load` of proxy/debit_log.go on a file of encoded events with a torn tail.
use omniswap.Prelude.{
  ℕ, true, false, Option, some, List, [], ◌∷◌, ◌++◌, ◌≡◌, refl, arith, All, ++_assoc, nat_beq,
  length, take-length-++, length-append,
}
use omniswap.DebitLog.{
  DebitEvent, newline, with_newline, nothing_loaded, loaded_line, max_nat, load_loop, open_log,
}
use omniswap.DebitLog.Codec.{NotNewline, IsCodec, IsEncoded}

abbrev pub max_seqs : List DebitEvent → ℕ
max_seqs [] = 0
max_seqs (ev ∷ evs) = max_nat ev.seq (max_seqs evs)

not_newline : (b : ℕ) → NotNewline b → nat_beq b newline ≡ false
not_newline b h = ground arith

module _ (unmarshal : List ℕ → Option DebitEvent) where
  load_loop-torn :
      (line torn : List ℕ) → All NotNewline torn → load_loop unmarshal line torn ≡ nothing_loaded
  unfolding load_loop
  load_loop-torn line [] h = refl
  load_loop-torn line (b ∷ torn) h =
      rw (not_newline b h.0) (load_loop-torn (line ++ b ∷ []) torn h.1)

  load_loop-line :
      (read line rest : List ℕ) (ev : DebitEvent)
      → All NotNewline line
      → unmarshal (read ++ with_newline line) ≡ some ev
      → load_loop unmarshal read (with_newline line ++ rest)
        ≡ loaded_line ev (read ++ with_newline line) (load_loop unmarshal [] rest)
  unfolding load_loop
  load_loop-line read [] rest ev h e = rw (e, load_loop) refl
  load_loop-line read (b ∷ line) rest ev h e =
      let joined = ++_assoc read (b ∷ []) (with_newline line) in
      let more = load_loop-line (read ++ b ∷ []) line rest ev h.1 (rw joined e) in
      rw (not_newline b h.0, more, joined) refl

module _ (marshal : DebitEvent → Option (List ℕ)) (unmarshal : List ℕ → Option DebitEvent)
    (codec : IsCodec marshal unmarshal) where
  load_loop-encoded :
      (evs : List DebitEvent) (file torn : List ℕ)
      → IsEncoded marshal evs file
      → All NotNewline torn
      → load_loop unmarshal [] (file ++ torn)
        ≡ record { events = evs; max_seq = max_seqs evs; good_offset = length file }
  load_loop-encoded [] file torn h t = rw h (load_loop-torn unmarshal [] torn t)
  load_loop-encoded (ev ∷ evs) file torn (line, rest, m, f, h) t =
      rw
        (
          f,
          ++_assoc (with_newline line) rest torn,
          load_loop-line unmarshal [] line (rest ++ torn) ev (codec.one_line ev line m)
              (codec.round_trip ev line m),
          load_loop-encoded evs rest torn h t,
          length-append (with_newline line) rest,
        )
        refl

  -- Whatever torn bytes without a newline follow the lines of some events, opening the file restores
  -- exactly those events, resumes at the highest Seq among them, and cuts the torn bytes off.
  pub open_log-encoded :
      (evs : List DebitEvent) (file torn : List ℕ)
      → IsEncoded marshal evs file
      → All NotNewline torn
      → open_log unmarshal (file ++ torn)
        ≡ record { is_open = true; seq = max_seqs evs; events = evs; file = file }
  unfolding open_log
  open_log-encoded evs file torn h t =
      rw (load_loop-encoded evs file torn h t, take-length-++ file torn) refl
