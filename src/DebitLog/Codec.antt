-- ===== src/DebitLog/Codec.antt =====
-- What proxy/debit_log.go relies on in the JSON codec, and the files that hold encoded events.
use omniswap.Prelude.{
  ℕ, Option, some, List, [], ◌∷◌, ◌++◌, ◌≡◌, ◌≢◌, refl, All, sym, ++_assoc, ++_nil,
}
use omniswap.DebitLog.{DebitEvent, newline, with_newline}

abbrev pub NotNewline : ℕ → Type 0
NotNewline b = b ≢ newline

-- A marshalled event is one line, and it unmarshals, newline included, to that event.
pub record IsCodec (marshal : DebitEvent → Option (List ℕ)) (unmarshal : List ℕ → Option DebitEvent)
    : Type 0 where
  pub one_line : (ev : DebitEvent) (line : List ℕ) → marshal ev ≡ some line → All NotNewline line
  pub round_trip :
      (ev : DebitEvent) (line : List ℕ)
      → marshal ev ≡ some line
      → unmarshal (with_newline line) ≡ some ev

module _ (marshal : DebitEvent → Option (List ℕ)) where
  -- The file holds the line of each event, in order, and nothing else.
  abbrev pub IsEncoded : List DebitEvent → List ℕ → Type 0
  IsEncoded [] file = file ≡ []
  IsEncoded (ev ∷ evs) file =
      (line : List ℕ) × (rest : List ℕ) × (marshal ev ≡ some line)
      × (file ≡ with_newline line ++ rest)
      × IsEncoded evs rest

  pub IsEncoded-snoc :
      (evs : List DebitEvent) (ev : DebitEvent) (file line : List ℕ)
      → IsEncoded evs file
      → marshal ev ≡ some line
      → IsEncoded (evs ++ ev ∷ []) (file ++ with_newline line)
  IsEncoded-snoc [] ev file line h e = rw h (line, [], e, sym (++_nil (with_newline line)), refl)
  IsEncoded-snoc (x ∷ evs) ev file line (first, rest, m, f, h) e = (
    first,
    rest ++ with_newline line,
    m,
    rw f (++_assoc (with_newline first) rest (with_newline line)),
    IsEncoded-snoc evs ev rest line h e,
  )
