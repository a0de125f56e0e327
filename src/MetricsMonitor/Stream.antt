-- ===== src/MetricsMonitor/Stream.antt =====
-- The backward scan of a stream (proxy/metrics_monitor.go) against the list of its lines.
use omniswap.Prelude.{
  ℕ, zero, suc, ◌-◌, ◌≤◌, ◌<◌, false, Option, none, some, List, [], ◌∷◌, ◌++◌, ◌≡◌, ◌⊎◌, refl, sym,
  ap, ◌∙◌, arith, if◌then◌else◌, nat_beq, length, take, Bool-cases, Option-cases, inl, inr,
}
use omniswap.Prelude.Slices.{drop, take-all, length-take}
use omniswap.Prelude.Text.{Text, trim_left, trim_right, count_of, split}
use omniswap.Prelude.Split.{split_none, split_last}
use omniswap.MetricsMonitor.{
  newline, Json, line_start, read_line, scan_back, process_streaming_response,
}

line_start_zero : (s : Text) → line_start s ≡ 0 → count_of newline s ≡ 0
unfolding line_start count_of
line_start_zero [] h = refl
line_start_zero (c ∷ cs) h = ground (arith, line_start_zero cs)

-- Where the last line starts after a newline.
record Cut (s : Text) (k : ℕ) : Type 0 where
  joined : s ≡ take k s ++ (newline ∷ drop (suc k) s)
  line : count_of newline (drop (suc k) s) ≡ 0
  inside : k < length s

line_start-Cut : (s : Text) (k : ℕ) → line_start s ≡ suc k → Cut s k
unfolding line_start count_of
line_start-Cut [] k h = absurd (omega arith)
line_start-Cut (c ∷ cs) zero h =
    let none_after : line_start cs ≡ 0 = ground arith in
    let here : c ≡ newline = ground arith in
    record {
      joined = ap (λ d. d ∷ cs) here;
      line = line_start_zero cs none_after;
      inside = omega arith;
    }
line_start-Cut (c ∷ cs) (suc k) h =
    let later : line_start cs ≡ suc k = ground arith in
    let cut = line_start-Cut cs k later in
    record { joined = ap (◌∷◌ c) cut.joined; line = cut.line; inside = omega (arith, cut.inside) }

start_cases : (n : ℕ) → (n ≡ 0) ⊎ ((k : ℕ) × (n ≡ suc k))
start_cases zero = inl refl
start_cases (suc k) = inr (k, refl)

start_later : (n : ℕ) → nat_beq n 0 ≡ false → (k : ℕ) × (n ≡ suc k)
start_later zero h = absurd (ground arith)
start_later (suc k) h = (k, refl)

whole : (o : Option Json) → o ≡ (elim o [ none ↦ none | some j ↦ some j ])
whole none = refl
whole (some j) = refl

take-take : (k n : ℕ) (xs : Text) → k ≤ n → take k (take n xs) ≡ take k xs
take-take zero n xs h = refl
take-take (suc k) zero xs h = absurd (omega arith)
take-take (suc k) (suc n) [] h = refl
take-take (suc k) (suc n) (x ∷ xs) h = ap (◌∷◌ x) (take-take k n xs (omega arith))

module _ (json : Text → Option Json) where
  -- The data of the last line that has some.
  abbrev pub last_data : List Text → Option Json
  last_data [] = none
  last_data (line ∷ lines) = elim (last_data lines) [ none ↦ read_line json line | some j ↦ some j ]

  last_data-++ :
      (lines : List Text) (line : Text)
      → last_data (lines ++ (line ∷ []))
        ≡ (elim (read_line json line) [ none ↦ last_data lines | some j ↦ some j ])
  last_data-++ [] line = elim (Option-cases (read_line json line)) [
    | inl e ↦ rw e refl
    | inr (j, e) ↦ rw e refl
  ]
  last_data-++ (l ∷ lines) line = elim (Option-cases (read_line json line)) [
    | inl e ↦ rw (last_data-++ lines line, e) refl
    | inr (j, e) ↦ rw (last_data-++ lines line, e) refl
  ]

  -- The data of a text whose last line starts at `n`.
  abbrev by_last : ℕ → Text → Option Json
  by_last n s = elim (read_line json (drop n s)) [
    | some j ↦ some j
    | none ↦ if nat_beq n 0 then none else last_data (split newline (take (n - 1) s))
  ]

  by_last_later :
      (n k : ℕ) (s : Text)
      → n ≡ suc k
      → by_last n s ≡ (elim (read_line json (drop (suc k) s)) [
        | none ↦ last_data (split newline (take k s))
        | some j ↦ some j
      ])
  by_last_later n k s h =
      let later : nat_beq n 0 ≡ false = ground arith in
      let line_end : n - 1 ≡ k = omega arith in
      let shift : read_line json (drop n s) ≡ read_line json (drop (suc k) s) =
        ap (λ m. read_line json (drop m s)) h in
      elim (Option-cases (read_line json (drop (suc k) s))) [
        | inl e ↦ rw (shift, e, later, line_end, by_last) refl
        | inr (j, e) ↦ rw (shift, e, by_last) refl
      ]

  last_data_step : (s : Text) → last_data (split newline s) ≡ by_last (line_start s) s
  last_data_step s = elim (start_cases (line_start s)) [
    | inl e ↦
        ap last_data (split_none newline s (line_start_zero s e))
        ∙ whole (read_line json s)
        ∙ ap (λ n. by_last n s) (sym e)
    | inr (k, e) ↦
        let cut = line_start-Cut s k e in
        ap (λ t. last_data (split newline t)) cut.joined
        ∙ ap last_data (split_last newline (take k s) (drop (suc k) s) cut.line)
        ∙ last_data-++ (split newline (take k s)) (drop (suc k) s)
        ∙ sym (by_last_later (line_start s) k s e)
  ]

  last_data_empty : last_data (split newline []) ≡ none
  unfolding split read_line trim_left trim_right
  last_data_empty = refl

  scan_back-split :
      (fuel : ℕ) (body : Text) (at : ℕ)
      → at ≤ fuel
      → at ≤ length body
      → scan_back json fuel body at ≡ last_data (split newline (take at body))
  unfolding scan_back
  scan_back-split zero body at h k =
      let none_left : at ≡ 0 = omega arith in
      sym (ap (λ n. last_data (split newline (take n body))) none_left ∙ last_data_empty)
  scan_back-split (suc fuel) body at h k =
      let seen = take at body in
      elim (Bool-cases (nat_beq at 0)) [
        | inl e ↦
            let none_left : at ≡ 0 = ground arith in
            rw (e, scan_back)
              (sym (ap (λ n. last_data (split newline (take n body))) none_left ∙ last_data_empty))
        | inr e ↦ elim (Option-cases (read_line json (drop (line_start seen) seen))) [
          | inr (j, r) ↦ rw (e, r, scan_back) (sym (last_data_step seen ∙ rw (r, by_last) refl))
          | inl r ↦ elim (Bool-cases (nat_beq (line_start seen) 0)) [
            | inl z ↦ rw (e, r, z, scan_back) (sym (last_data_step seen ∙ rw (r, z, by_last) refl))
            | inr z ↦
                let (m, g) = start_later (line_start seen) z in
                let cut = line_start-Cut seen m g in
                let inside : m < at = omega (arith, cut.inside, length-take at body k) in
                let before : line_start seen - 1 ≡ m = omega arith in
                let same : take (line_start seen - 1) seen ≡ take (line_start seen - 1) body =
                  take-take (line_start seen - 1) at body (omega arith) in
                rw (e, r, z, scan_back)
                  (scan_back-split fuel body (line_start seen - 1) (omega arith) (omega arith)
                    ∙ ap (λ t. last_data (split newline t)) (sym same)
                    ∙ sym (last_data_step seen ∙ rw (r, z, by_last) refl))
          ]
        ]
      ]

  -- The backward scan, whose fuel is the length of the body, ends with the data of the last line of
  -- the body that has a usage or timings object, for any body: it is a search through all lines,
  -- and no line is lost to the fuel.
  pub process_streaming_response-last_data :
      (body : Text) → process_streaming_response json body ≡ last_data (split newline body)
  unfolding process_streaming_response
  process_streaming_response-last_data body =
      scan_back-split (length body) body (length body) (omega arith) (omega arith)
      ∙ ap (λ s. last_data (split newline s)) (take-all (length body) body refl)
