-- ===== src/LogMonitor/History.antt =====
-- The history of a monitor after any run of writes and clears (proxy/logMonitor.go).
use omniswap.Prelude.{
  ℕ, suc, zero, ◌-◌, ◌<◌, Bool, true, false, some, List, [], ◌∷◌, ◌++◌, ◌≡◌, refl, sym, ◌∙◌, arith,
  if◌then◌else◌, nat_beq, length, ++_nil, inl, inr, Option-cases,
}
use omniswap.Prelude.Slices.{newest, newest-newest, drop-nil}
use omniswap.LogMonitor.{
  new_circular_buffer, zeros, put, get_history, log_buffer_size, LogMonitor, buffer_of, write,
  history, clear, Op, write_op, clear_op, run, new_log_monitor,
}
use omniswap.LogMonitor.Ring.{IsSound, put-IsSound, length-put, get_history-put}

-- All that was written since the last clear, without the writes that failed.
abbrev written : List ℕ → List Op → List ℕ
written before [] = before
written before (write_op fails p ∷ ops) = written (if fails then before else before ++ p) ops
written before (clear_op ∷ ops) = written [] ops

length-zeros : (n : ℕ) → length (zeros n) ≡ n
length-zeros zero = refl
length-zeros (suc n) = omega (arith, length-zeros n)

new_circular_buffer-IsSound : (n : ℕ) → 0 < n → IsSound (new_circular_buffer n)
unfolding new_circular_buffer
new_circular_buffer-IsSound n h = record {
  room = omega (arith, length-zeros n);
  head_in = omega (arith, length-zeros n);
  size_in = omega arith;
}

get_history-new_circular_buffer : (n : ℕ) → get_history (new_circular_buffer n) ≡ []
unfolding new_circular_buffer get_history
get_history-new_circular_buffer n = refl

nonempty : (x : ℕ) (p : List ℕ) → nat_beq (suc (length p)) 0 ≡ false
nonempty x p = ground arith

record Keeps (w : LogMonitor) (bytes : List ℕ) : Type 0 where
  sound : IsSound (buffer_of w)
  full : length (buffer_of w).bytes ≡ log_buffer_size
  newest_kept : get_history (buffer_of w) ≡ newest log_buffer_size bytes

history-buffer_of : (w : LogMonitor) → history w ≡ get_history (buffer_of w)
unfolding history
history-buffer_of w = elim (Option-cases w.buffer) [
  | inl e ↦ rw (e, history) (sym (get_history-new_circular_buffer log_buffer_size))
  | inr (cb, e) ↦ rw (e, history) refl
]

room : 0 < log_buffer_size
unfolding log_buffer_size
room = omega arith

length-new_circular_buffer : (n : ℕ) → length (new_circular_buffer n).bytes ≡ n
unfolding new_circular_buffer
length-new_circular_buffer n = length-zeros n

new_log_monitor-Keeps : Keeps new_log_monitor []
unfolding new_log_monitor
new_log_monitor-Keeps = record {
  sound = new_circular_buffer-IsSound log_buffer_size room;
  full = length-new_circular_buffer log_buffer_size;
  newest_kept =
      get_history-new_circular_buffer log_buffer_size ∙ sym (drop-nil (0 - log_buffer_size));
}

clear-new_log_monitor : (w : LogMonitor) → clear w ≡ new_log_monitor
unfolding clear new_log_monitor
clear-new_log_monitor w = refl

put-Keeps :
    (p bytes : List ℕ) (w : LogMonitor)
    → Keeps w bytes
    → Keeps (record w { buffer = some (put p (buffer_of w)) }) (bytes ++ p)
put-Keeps p bytes w k = record {
  sound = put-IsSound p (buffer_of w) k.sound;
  full = length-put p (buffer_of w) k.sound ∙ k.full;
  newest_kept =
      get_history-put p (buffer_of w) k.sound
      ∙ rw (k.full, k.newest_kept) (newest-newest log_buffer_size bytes p);
}

write-Keeps :
    (fails : Bool) (p bytes : List ℕ) (w : LogMonitor)
    → Keeps w bytes
    → Keeps (write fails p w) (if fails then bytes else bytes ++ p)
unfolding write
write-Keeps true [] bytes w k = k
write-Keeps false [] bytes w k = rw (++_nil bytes) k
write-Keeps true (x ∷ p) bytes w k = rw (nonempty x p) k
write-Keeps false (x ∷ p) bytes w k = rw (nonempty x p) (put-Keeps (x ∷ p) bytes w k)

run-Keeps :
    (ops : List Op) (bytes : List ℕ) (w : LogMonitor)
    → Keeps w bytes
    → Keeps (run ops w) (written bytes ops)
unfolding run
run-Keeps [] bytes w k = k
run-Keeps (write_op fails p ∷ ops) bytes w k =
    run-Keeps ops (if fails then bytes else bytes ++ p) (write fails p w)
      (write-Keeps fails p bytes w k)
run-Keeps (clear_op ∷ ops) bytes w k =
    run-Keeps ops [] (clear w) (rw (clear-new_log_monitor w) new_log_monitor-Keeps)

-- The history that a monitor shows after any run of writes, of any lengths, and clears is the newest
-- 102400 bytes of what was written since the last clear, in the order of the writes. A write that
-- the writer behind the monitor refuses leaves nothing.
pub history-run :
    (ops : List Op) → history (run ops new_log_monitor) ≡ newest log_buffer_size (written [] ops)
history-run ops =
    history-buffer_of (run ops new_log_monitor)
    ∙ (run-Keeps ops [] new_log_monitor new_log_monitor-Keeps).newest_kept
