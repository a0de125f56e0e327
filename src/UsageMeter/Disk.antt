-- ===== src/UsageMeter/Disk.antt =====
-- What of the rollup is on disk (proxy/usage_meter.go). A flush reads the meter under its lock and
-- writes the file after it, so it is two steps, between which other calls may come.
use mathlib.Core.Path.{subst}
use omniswap.Prelude.{
  Bool, true, false, Option, none, some, List, [], ◌∷◌, ◌≡◌, refl, sym, ap, ◌∙◌, arith, Bool-cases,
  inl, inr,
}
use omniswap.Prelude.Keys.{string_eq, ◌==◌}
use omniswap.UsageMeter.{UsagePersist, UsageMeter, Usage, record_usage, count}
use omniswap.UsageMeter.File.{
  Outcome, persist_of, begin_flush, end_flush, flush, load, new_usage_meter, cleared,
}

-- A write and a renaming that succeed.
abbrev pub completed : Outcome
completed = record { marshalled = true; written = true; renamed = true }

module _ {ℓ} (Bytes : Type ℓ) (marshal : UsagePersist → Bytes)
    (unmarshal : Bytes → Option UsagePersist) where
  -- The meter, its file, and the bytes that a flush which has left the lock is writing.
  pub record Stored : Type ℓ where
    pub meter : UsageMeter
    pub file : Option Bytes
    pub writing : Option Bytes

  abbrev pub begun : Bool → UsageMeter → UsageMeter × Option Bytes
  begun marshalled m = begin_flush Bytes marshal unmarshal marshalled m

  abbrev pub ended : Outcome → Option Bytes → Option Bytes → Option Bytes
  ended out bytes file = end_flush Bytes marshal unmarshal out bytes file

  -- One step: a request is recorded, `Reset` clears the meter, a flush begins while no other one is
  -- writing, and the flush that is writing brings this to its end. Flushes that overlap are left out:
  -- nothing in the source orders their writes.
  pub data Step : Stored → Stored → Type ℓ where
    recording : (u : Usage) (s : Stored) → Step s (record s { meter = record_usage u s.meter })
    clearing : (s : Stored) → Step s (record s { meter = cleared s.meter })
    beginning :
        (marshalled : Bool) (s : Stored)
        → s.writing ≡ none
        → Step s (record s {
          meter = (begun marshalled s.meter).0;
          writing = (begun marshalled s.meter).1;
        })
    ending :
        (s : Stored) → Step s (record s { file = ended completed s.writing s.file; writing = none })

  pub data Steps (s : Stored) : Stored → Type ℓ where
    here : Steps s s
    next : {t u : Stored} → Steps s t → Step t u → Steps s u

  -- What the file is once the write in progress, if there is one, has ended.
  abbrev pub file_to_be : Stored → Option Bytes
  file_to_be s = elim s.writing [ none ↦ s.file | some bytes ↦ some bytes ]

  -- A meter with a path that is not dirty is the one that the next start of the program makes, once
  -- the write in progress has ended.
  pub record IsSaved (s : Stored) : Type ℓ where
    pub has_path : (s.meter.path == "") ≡ false
    pub restored :
        s.meter.dirty ≡ false
        → new_usage_meter Bytes marshal unmarshal s.meter.path (file_to_be s) ≡ s.meter

  -- Flushes one after the other.
  abbrev pub flush_all : List Outcome → UsageMeter × Option Bytes → UsageMeter × Option Bytes
  flush_all [] s = s
  flush_all (out ∷ outs) s = flush_all outs (flush Bytes marshal unmarshal out s.0 s.1)

  flush_clean :
      (out : Outcome) (m : UsageMeter) (file : Option Bytes)
      → m.dirty ≡ false
      → flush Bytes marshal unmarshal out m file ≡ (m, file)
  unfolding flush begin_flush end_flush
  flush_clean out m file h = ground arith

  flush_all_clean :
      (outs : List Outcome) (m : UsageMeter) (file : Option Bytes)
      → m.dirty ≡ false
      → flush_all outs (m, file) ≡ (m, file)
  flush_all_clean [] m file h = refl
  flush_all_clean (out ∷ outs) m file h =
      ap (flush_all outs) (flush_clean out m file h) ∙ flush_all_clean outs m file h

  -- When the write of a flush fails, the meter counts as clean: however often it is flushed then, and
  -- whether or not the writes succeed, the file stays as it was before the failure.
  pub flush-failed_write :
      (failed : Outcome) (outs : List Outcome) (m : UsageMeter) (file : Option Bytes)
      → m.dirty ≡ true
      → (m.path == "") ≡ false
      → failed.marshalled ≡ true
      → failed.written ≡ false
      → flush_all (failed ∷ outs) (m, file) ≡ (record m { dirty = false }, file)
  unfolding flush begin_flush end_flush
  flush-failed_write failed outs m file h k g w =
      let first : flush Bytes marshal unmarshal failed m file ≡ (record m { dirty = false }, file) =
        rw (h, k, g, w, begin_flush, end_flush) refl in
      ap (flush_all outs) first ∙ flush_all_clean outs (record m { dirty = false }) file refl

  ending-to_be : (s : Stored) → ended completed s.writing s.file ≡ file_to_be s
  unfolding end_flush
  ending-to_be s = ground arith

  module _ (decodes : (p : UsagePersist) → unmarshal (marshal p) ≡ some p) where
    load-marshal :
        (m : UsageMeter)
        → (m.path == "") ≡ false
        → new_usage_meter Bytes marshal unmarshal m.path (some (marshal (persist_of m)))
          ≡ record m { dirty = false }
    unfolding new_usage_meter load
    load-marshal m h = rw (h, decodes (persist_of m)) refl

    begun_clean :
        (marshalled : Bool) (m : UsageMeter) → m.dirty ≡ false → begun marshalled m ≡ (m, none)
    unfolding begin_flush
    begun_clean marshalled m h = ground arith

    begun-IsSaved :
        (marshalled : Bool) (m : UsageMeter) (file : Option Bytes)
        → IsSaved (record { meter = m; file = file; writing = none })
        → IsSaved (record {
          meter = (begun marshalled m).0;
          file = file;
          writing = (begun marshalled m).1;
        })
    unfolding begin_flush
    begun-IsSaved marshalled m file s = elim (Bool-cases m.dirty) [
      | inl e ↦ elim (Bool-cases marshalled) [
        | inl g ↦
            rw (e, s.has_path, g, begin_flush)
              (record { has_path = s.has_path; restored = λ clean. load-marshal m s.has_path })
        | inr g ↦
            rw (e, s.has_path, g, begin_flush)
              (record { has_path = s.has_path; restored = λ clean. absurd cc })
      ]
      | inr e ↦
          subst
            (λ (out : UsageMeter × Option Bytes).
              IsSaved (record { meter = out.0; file = file; writing = out.1 }))
            (sym (begun_clean marshalled m e)) s
    ]

    Step-IsSaved : {s t : Stored} → Step s t → IsSaved s → IsSaved t
    unfolding record_usage count cleared
    Step-IsSaved (recording u s) h = record { has_path = h.has_path; restored = λ clean. absurd cc }
    Step-IsSaved (clearing s) h = record { has_path = h.has_path; restored = λ clean. absurd cc }
    Step-IsSaved (beginning marshalled s idle) h =
        begun-IsSaved marshalled s.meter s.file
          (record { has_path = h.has_path; restored = λ clean. rw idle at (h.restored clean) })
    Step-IsSaved (ending s) h = record {
      has_path = h.has_path;
      restored = λ clean. rw (ending-to_be s) (h.restored clean);
    }

    -- After any run of recorded requests, resets, and flushes whose writes succeed, on a meter with a
    -- path whose clean state was on disk, where requests and resets may come while a flush is
    -- writing, but no second flush begins then: whenever the meter is clean, it is exactly what a
    -- restart makes of the file, once the write in progress has ended, if the encoding can be read
    -- back.
    pub Steps-IsSaved : {s t : Stored} → Steps s t → IsSaved s → IsSaved t
    Steps-IsSaved here saved = saved
    Steps-IsSaved (next steps step) saved = Step-IsSaved step (Steps-IsSaved steps saved)
