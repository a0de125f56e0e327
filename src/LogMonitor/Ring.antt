-- ===== src/LogMonitor/Ring.antt =====
-- The circular buffer of proxy/logMonitor.go as a queue of bytes: what a write does to the bytes in
-- the order of their age.
use omniswap.Prelude.{
  ℕ, ◌+◌, ◌-◌, ◌%◌, ◌≤◌, ◌<◌, List, [], ◌∷◌, ◌++◌, ◌≡◌, refl, sym, ap, ◌∙◌, arith, nat_beq, length,
  take, length-append, ++_assoc, ++_nil, take-length-++, min, Bool-cases, inl, inr, le_cases,
  le→leb, gt→leb,
}
use native.Mathlib.Nat.{mod-eq_of_lt, mod_self, mod-lt}
use omniswap.Prelude.Slices.{
  newest, drop, length-drop, length-take, take-drop, drop-drop, drop-append, drop-take, drop-past,
  take-all, drop-all, drop-length-++,
}
use omniswap.LogMonitor.{CircularBuffer, copy_at, put, get_history}

pub record IsSound (cb : CircularBuffer) : Type 0 where
  pub room : 0 < length cb.bytes
  pub head_in : cb.head < length cb.bytes
  pub size_in : cb.size ≤ length cb.bytes

-- All bytes of the buffer, the oldest position first.
abbrev pub rotate : ℕ → List ℕ → List ℕ
rotate n bytes = drop n bytes ++ take n bytes

length-rotate : (n : ℕ) (bytes : List ℕ) → n ≤ length bytes → length (rotate n bytes) ≡ length bytes
length-rotate n bytes h =
    omega (
      arith,
      length-append (drop n bytes) (take n bytes),
      length-drop n bytes,
      length-take n bytes h,
    )

-- What is next to the seam of a rotation.
rotate-++ : (n : ℕ) (xs ys : List ℕ) → length xs ≡ n → rotate n (xs ++ ys) ≡ ys ++ xs
rotate-++ n xs ys h = rw (sym h, drop-length-++ xs ys, take-length-++ xs ys) refl

rotate-length : (n : ℕ) (bytes : List ℕ) → length bytes ≡ n → rotate n bytes ≡ rotate 0 bytes
rotate-length n bytes h = rw (drop-all n bytes h, take-all n bytes h, ++_nil bytes) refl

-- The newest bytes, when they end before the head and when they reach around it.
newest_before :
    (n h s : ℕ) (bytes : List ℕ)
    → length bytes ≡ n
    → s ≤ h
    → h ≤ n
    → take s (drop (h - s) bytes) ≡ drop (n - s) (rotate h bytes)
newest_before n h s bytes e k l =
    let seam : n - s ≡ (n - h) + (h - s) = omega arith in
    let upto : h ≡ (h - s) + s = omega arith in
    sym (drop-take (h - s) s bytes)
    ∙ ap (λ m. drop (h - s) (take m bytes)) (sym upto)
    ∙ sym (
        ap (λ m. drop m (rotate h bytes)) seam
        ∙ drop-past (n - h) (h - s) (drop h bytes) (take h bytes)
            (omega (arith, length-drop h bytes)))

newest_around :
    (n h s : ℕ) (bytes : List ℕ)
    → length bytes ≡ n
    → h ≤ s
    → s ≤ n
    → drop (h + n - s) bytes ++ take h bytes ≡ drop (n - s) (rotate h bytes)
newest_around n h s bytes e k l =
    let start : h + n - s ≡ h + (n - s) = omega arith in
    let before : n - s ≤ length (drop h bytes) = omega (arith, length-drop h bytes) in
    rw (start, drop-append (n - s) (drop h bytes) (take h bytes) before, drop-drop (n - s) h bytes)
      refl

start_before : (n h s : ℕ) → s ≤ h → h < n → (h + n - s) % n ≡ h - s
start_before n h s k l =
    let shift : h + n - s ≡ h - s + n = omega arith in
    let small : h - s < n = omega arith in rw shift (grind arith)

-- The buffer holds the newest `size` bytes.
pub get_history-rotate :
    (cb : CircularBuffer)
    → IsSound cb
    → get_history cb ≡ drop (length cb.bytes - cb.size) (rotate cb.head cb.bytes)
unfolding get_history
get_history-rotate cb s =
    let n = length cb.bytes in
    let whole = λ (m : ℕ) (e : m ≡ n).
      drop-all m (rotate cb.head cb.bytes) (omega (arith, length-rotate cb.head cb.bytes)) in
    let before = newest_before n cb.head cb.size cb.bytes refl in
    let around = newest_around n cb.head cb.size cb.bytes refl in
    elim (Bool-cases (nat_beq cb.size 0)) [
      | inl e ↦ rw (e, get_history) (sym (whole (n - cb.size) (ground arith)))
      | inr e ↦ elim (le_cases cb.size cb.head) [
        | inl k ↦
            rw
              (
                e,
                start_before n cb.head cb.size k s.head_in,
                le→leb (cb.head - cb.size + cb.size) n (omega arith),
                get_history,
              )
              (before k (omega arith))
        | inr k ↦
            let from = cb.head + n - cb.size in
            let start : from % n ≡ from = mod-eq_of_lt (omega arith) in
            let whole_rest : length (drop from cb.bytes) ≡ n - from = length-drop from cb.bytes in
            elim (le_cases (from + cb.size) n) [
              | inl z ↦
                  let at_zero : cb.head ≡ 0 = omega arith in
                  let none_before : take cb.head cb.bytes ≡ [] =
                    ap (λ m. take m cb.bytes) at_zero in
                  let all : take cb.size (drop from cb.bytes)
                      ≡ drop from cb.bytes ++ take cb.head cb.bytes =
                    rw (take-all cb.size (drop from cb.bytes) (omega arith), none_before)
                      (sym (++_nil (drop from cb.bytes))) in
                  rw (e, start, le→leb (from + cb.size) n z, get_history)
                    (all ∙ around (omega arith) s.size_in)
              | inr z ↦
                  let rest : cb.size - (n - from) ≡ cb.head = omega arith in
                  rw (e, start, gt→leb (from + cb.size) n z, rest, get_history)
                    (around (omega arith) s.size_in)
            ]
      ]
    ]

-- The bytes after a write that fits before the end, and after one that wraps around.
place-rotate :
    (n h : ℕ) (bytes p : List ℕ)
    → length bytes ≡ n
    → h + length p ≤ n
    → rotate (h + length p) (copy_at bytes h p) ≡ drop (length p) (rotate h bytes ++ p)
place-rotate n h bytes p e k =
    let before = take h bytes in
    let after = drop (h + length p) bytes in
    let seam : length (before ++ p) ≡ h + length p =
      omega (arith, length-append before p, length-take h bytes) in
    let fits : length p ≤ length (drop h bytes) = omega (arith, length-drop h bytes) in
    rw (sym (++_assoc before p after), rotate-++ (h + length p) (before ++ p) after seam)
      (sym (
        rw
          (
            ++_assoc (drop h bytes) before p,
            drop-append (length p) (drop h bytes) (before ++ p) fits,
            drop-drop (length p) h bytes,
          )
          refl))

wrap-rotate :
    (n h f : ℕ) (bytes p : List ℕ)
    → length bytes ≡ n
    → h + f ≡ n
    → f < length p
    → length p < n
    → (rotate (length p - f) (copy_at (copy_at bytes h (take f p)) 0 (drop f p))
        ≡ drop (length p) (rotate h bytes ++ p))
wrap-rotate n h f bytes p e g k l =
    let before = take h bytes in
    let over = length p - f in
    let l_first : length (take f p) ≡ f = length-take f p (omega arith) in
    let l_rest : length (drop f p) ≡ over = length-drop f p in
    let past : 0 + length (drop f p) ≡ over = omega arith in
    let l_before : length before ≡ h = length-take h bytes (omega arith) in
    let l_after : length (drop h bytes) ≡ f = omega (arith, length-drop h bytes) in
    let first_full : copy_at bytes h (take f p) ≡ before ++ take f p =
      rw (drop-all (h + length (take f p)) bytes (omega arith), ++_nil (take f p)) refl in
    let kept : drop over (before ++ take f p) ≡ drop over before ++ take f p =
      drop-append over before (take f p) (omega arith) in
    let split : length p ≡ f + over = omega arith in
    let right : drop (length p) (rotate h bytes ++ p) ≡ drop over before ++ p =
      ap (λ m. drop m (rotate h bytes ++ p)) split
      ∙ (rw
          (++_assoc (drop h bytes) before p, drop-past f over (drop h bytes) (before ++ p) l_after)
          (drop-append over before p (omega arith))) in
    rw
      (
        first_full,
        past,
        rotate-++ over (drop f p) (drop over (before ++ take f p)) l_rest,
        kept,
        right,
        ++_assoc (drop over before) (take f p) (drop f p),
        take-drop f p,
      )
      refl

pub length-copy_at :
    (bytes : List ℕ) (i : ℕ) (p : List ℕ)
    → i + length p ≤ length bytes
    → length (copy_at bytes i p) ≡ length bytes
length-copy_at bytes i p h =
    let rest = drop (i + length p) bytes in
    omega (
      arith,
      length-append (take i bytes) (p ++ rest),
      length-append p rest,
      length-take i bytes,
      length-drop (i + length p) bytes,
    )

-- The head goes back to 0 at the end of the data.
rotate-mod :
    (n i : ℕ) (bytes : List ℕ)
    → length bytes ≡ n
    → 0 < n
    → i ≤ n
    → rotate (i % n) bytes ≡ rotate i bytes
rotate-mod n i bytes h k l = elim (le_cases n i) [
  | inl e ↦
      let at_end : i ≡ n = omega arith in
      let mod_zero : i % n ≡ 0 = rw (at_end, mod_self n) refl in
      ap (λ m. rotate m bytes) mod_zero ∙ sym (rotate-length i bytes (omega arith))
  | inr e ↦ ap (λ m. rotate m bytes) (mod-eq_of_lt e)
]

-- Of an input as long as the data, the end is kept.
long-rotate :
    (n h : ℕ) (bytes p : List ℕ)
    → length bytes ≡ n
    → h ≤ n
    → n ≤ length p
    → rotate 0 (copy_at bytes 0 (drop (length p - n) p)) ≡ drop (length p) (rotate h bytes ++ p)
long-rotate n h bytes p e k l =
    let kept = drop (length p - n) p in
    let l_kept : length kept ≡ n = omega (arith, length-drop (length p - n) p) in
    let split : length p ≡ n + (length p - n) = omega arith in
    let l_old : length (rotate h bytes) ≡ n = length-rotate h bytes (omega arith) ∙ e in
    rw (drop-all (0 + length kept) bytes (omega arith), ++_nil kept, ++_nil kept)
      (sym (
        ap (λ m. drop m (rotate h bytes ++ p)) split
        ∙ drop-past n (length p - n) (rotate h bytes) p l_old))

length_zero : (xs : List ℕ) → length xs ≡ 0 → xs ≡ []
length_zero [] h = refl
length_zero (x ∷ xs) h = absurd (omega arith)

-- A write moves the bytes of the buffer past the written ones, whatever their number.
put-rotate :
    (p : List ℕ) (cb : CircularBuffer)
    → IsSound cb
    → rotate (put p cb).head (put p cb).bytes ≡ drop (length p) (rotate cb.head cb.bytes ++ p)
unfolding put
put-rotate p cb s =
    let n = length cb.bytes in
    elim (Bool-cases (nat_beq (length p) 0)) [
      | inl e ↦
          rw (e, put) (rw (length_zero p (ground arith)) (sym (++_nil (rotate cb.head cb.bytes))))
      | inr e ↦ elim (le_cases n (length p)) [
        | inl k ↦
            rw (e, le→leb n (length p) k, put)
              (long-rotate n cb.head cb.bytes p refl (omega arith) k)
        | inr k ↦ elim (le_cases (length p) (n - cb.head)) [
          | inl z ↦
              rw (e, gt→leb n (length p) k, le→leb (length p) (n - cb.head) z, put)
                (rotate-mod n (cb.head + length p) (copy_at cb.bytes cb.head p)
                    (length-copy_at cb.bytes cb.head p (omega arith)) s.room (omega arith)
                  ∙ place-rotate n cb.head cb.bytes p refl (omega arith))
          | inr z ↦
              rw (e, gt→leb n (length p) k, gt→leb (length p) (n - cb.head) z, put)
                (wrap-rotate n cb.head (n - cb.head) cb.bytes p refl (omega arith) z k)
        ]
      ]
    ]

pub length-put :
    (p : List ℕ) (cb : CircularBuffer) → IsSound cb → length (put p cb).bytes ≡ length cb.bytes
unfolding put
length-put p cb s =
    let n = length cb.bytes in
    let f = n - cb.head in
    let kept = drop (length p - n) p in
    let first = copy_at cb.bytes cb.head (take f p) in
    let l_all = length-copy_at cb.bytes 0 kept in
    let l_fit = length-copy_at cb.bytes cb.head p in
    let l_first = length-copy_at cb.bytes cb.head (take f p) in
    let l_rest = length-copy_at first 0 (drop f p) in
    ground (
      arith,
      l_all,
      l_fit,
      l_first,
      l_rest,
      length-drop (length p - n) p,
      length-take f p,
      length-drop f p,
    )

put-size :
    (p : List ℕ) (cb : CircularBuffer)
    → IsSound cb
    → (put p cb).size ≡ min (length cb.bytes) (cb.size + length p)
unfolding put
put-size p cb s = ground arith

put-head : (p : List ℕ) (cb : CircularBuffer) → IsSound cb → (put p cb).head < length cb.bytes
unfolding put
put-head p cb s = ground (arith, mod-lt (cb.head + length p) s.room)

pub put-IsSound : (p : List ℕ) (cb : CircularBuffer) → IsSound cb → IsSound (put p cb)
put-IsSound p cb s = record {
  room = omega (arith, length-put p cb s);
  head_in = omega (arith, length-put p cb s, put-head p cb s);
  size_in = omega (arith, length-put p cb s, put-size p cb s);
}

-- A write to a sound buffer of any capacity, with an input of any length, leaves as the history the
-- newest bytes of the old history followed by the input, up to the capacity.
pub get_history-put :
    (p : List ℕ) (cb : CircularBuffer)
    → IsSound cb
    → get_history (put p cb) ≡ newest (length cb.bytes) (get_history cb ++ p)
get_history-put p cb s =
    let n = length cb.bytes in
    let all = rotate cb.head cb.bytes in
    let after = put p cb in
    let l_all : length all ≡ n = length-rotate cb.head cb.bytes (omega arith) in
    let old : get_history cb ++ p ≡ drop (n - cb.size) (all ++ p) =
      rw (get_history-rotate cb s) (sym (drop-append (n - cb.size) all p (omega arith))) in
    let l_old : length (drop (n - cb.size) (all ++ p)) ≡ cb.size + length p =
      omega (arith, length-drop (n - cb.size) (all ++ p), length-append all p) in
    let same : length p + (length after.bytes - after.size)
        ≡ n - cb.size + (cb.size + length p - n) =
      omega (arith, length-put p cb s, put-size p cb s) in
    rw
      (
        old,
        l_old,
        get_history-rotate after (put-IsSound p cb s),
        put-rotate p cb s,
        drop-drop (length after.bytes - after.size) (length p) (all ++ p),
        drop-drop (cb.size + length p - n) (n - cb.size) (all ++ p),
      )
      (ap (λ m. drop m (all ++ p)) same)
