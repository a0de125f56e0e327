-- ===== src/DebitLog/Tests.antt =====
-- A small codec, a log with a torn line, and the theorems at inputs that meet their hypotheses.
use omniswap.Prelude.{
  ℕ, zero, suc, ◌+◌, ◌-◌, Bool, true, Option, none, some, List, [], ◌∷◌, ◌++◌, ◌≡◌, refl, arith,
  if◌then◌else◌, ◌&&◌, All, length, ap, sym, ◌∙◌,
}
use omniswap.Prelude.Keys.{string_eq, ◌==◌}
use omniswap.Prelude.Int.{pos, eqb_ℤ}
use omniswap.DebitLog.{DebitEvent, DebitLog, with_newline, open_log}
use omniswap.DebitLog.Codec.{NotNewline, IsCodec, IsEncoded}
use omniswap.DebitLog.Restore.{max_seqs, open_log-encoded}
use omniswap.DebitLog.Watermark.{IsSound}
use omniswap.DebitLog.Crashes.{LogOp, append_op, refused_op, crash_op, run, run_keeps_watermark}

abbrev pub plain : ℕ → DebitEvent
plain n = record {
  request_id = "r";
  seq = n;
  ts = pos 0;
  key_fingerprint = "k";
  client_label = "c";
  model = "m";
  input_tokens = pos 10;
  output_tokens = pos 5;
  node = "n";
  country = "";
}

abbrev is_plain : DebitEvent → Bool
is_plain ev =
    ev.request_id == "r"
    && ev.key_fingerprint == "k"
    && ev.client_label == "c"
    && ev.model == "m"
    && ev.node == "n"
    && ev.country == ""
    && eqb_ℤ ev.ts (pos 0)
    && eqb_ℤ ev.input_tokens (pos 10)
    && eqb_ℤ ev.output_tokens (pos 5)

abbrev pub ones : ℕ → List ℕ
ones zero = []
ones (suc n) = 1 ∷ ones n

-- An event of the one kind that it encodes is as many ones as its Seq.
abbrev pub marshal : DebitEvent → Option (List ℕ)
marshal ev = if is_plain ev then some (ones ev.seq) else none

abbrev pub unmarshal : List ℕ → Option DebitEvent
unmarshal line = some (plain (length line - 1))

ones-NotNewline : (n : ℕ) → All NotNewline (ones n)
ones-NotNewline zero = tt
ones-NotNewline (suc n) = (omega arith, ones-NotNewline n)

pub length-ones : (n : ℕ) → length (with_newline (ones n)) ≡ n + 1
length-ones zero = refl
length-ones (suc n) = omega (arith, length-ones n)

is_plain_lem : (ev : DebitEvent) → is_plain ev ≡ true → ev ≡ plain ev.seq
is_plain_lem ev h = ground (
  arith,
  string_eq.beq_iff ev.request_id "r",
  string_eq.beq_iff ev.key_fingerprint "k",
  string_eq.beq_iff ev.client_label "c",
  string_eq.beq_iff ev.model "m",
  string_eq.beq_iff ev.node "n",
  string_eq.beq_iff ev.country "",
)

marshal_inv :
    (ev : DebitEvent) (line : List ℕ)
    → marshal ev ≡ some line
    → (is_plain ev ≡ true) × (line ≡ ones ev.seq)
marshal_inv ev line h = ground arith

unmarshal-ones : (n : ℕ) → unmarshal (with_newline (ones n)) ≡ some (plain n)
unmarshal-ones n = rw (length-ones n) (ap (λ k. some (plain k)) (omega arith))

pub codec : IsCodec marshal unmarshal
codec = record {
  one_line = λ ev line h. rw (marshal_inv ev line h).1 (ones-NotNewline ev.seq);
  round_trip = λ ev line h.
      rw (marshal_inv ev line h).1
        (unmarshal-ones ev.seq ∙ ap some (sym (is_plain_lem ev (marshal_inv ev line h).0)));
}

-- Two events, and the torn start of a third.
abbrev file : List ℕ
file = with_newline (ones 1) ++ with_newline (ones 2)

file-IsEncoded : IsEncoded marshal (plain 1 ∷ plain 2 ∷ []) file
file-IsEncoded = (ones 1, with_newline (ones 2), refl, refl, (ones 2, [], refl, refl, refl))

open_log-encoded_example : open_log unmarshal (file ++ ones 2) ≡ record {
  is_open = true;
  seq = max_seqs (plain 1 ∷ plain 2 ∷ []);
  events = plain 1 ∷ plain 2 ∷ [];
  file = file;
}
open_log-encoded_example =
    open_log-encoded marshal unmarshal codec (plain 1 ∷ plain 2 ∷ []) file (ones 2) file-IsEncoded
      (ones-NotNewline 2)

abbrev pub two : DebitLog
two = record { is_open = true; seq = 2; events = plain 1 ∷ plain 2 ∷ []; file = file }

pub two-IsSound : IsSound marshal two
two-IsSound = record {
  opened = refl;
  encoded = file-IsEncoded;
  consecutive = (refl, (refl, tt));
  head = refl;
}

-- An append, one that is refused, a crash after two bytes of the next one, and another append.
abbrev ops : List (LogOp marshal unmarshal)
ops = append_op (plain 0) ∷ refused_op (plain 1) ∷ crash_op (plain 0) 2 ∷ append_op (plain 9) ∷ []

run_keeps_watermark_example :
    IsSound marshal (run marshal unmarshal ops two)
    × ((more : List DebitEvent) × ((run marshal unmarshal ops two).events ≡ two.events ++ more))
run_keeps_watermark_example =
    run_keeps_watermark marshal unmarshal codec ops two two-IsSound (omega arith)
