-- ===== src/MetricsMonitor/Bounded.antt =====
-- The bounded list of metrics (proxy/metrics_monitor.go).
use omniswap.Prelude.{
  ℕ, suc, ◌-◌, ◌≤◌, le_cases, lt→ltb, ge→ltb, List, [], ◌∷◌, ◌++◌, ◌≡◌, refl, sym, ap, ◌∙◌, arith,
  length, inl, inr, ++_assoc, ++_nil,
}
use omniswap.Prelude.Slices.{drop, newest, newest-newest}
use omniswap.MetricsMonitor.{TokenMetrics, MetricsMonitor, add_metrics, get_metrics}

-- The metrics with their ids, from the next one on.
abbrev pub numbered : ℕ → List TokenMetrics → List TokenMetrics
numbered n [] = []
numbered n (tm ∷ tms) = record tm { id = n } ∷ numbered (suc n) tms

abbrev pub add_all : List TokenMetrics → MetricsMonitor → MetricsMonitor
add_all [] mp = mp
add_all (tm ∷ tms) mp = add_all tms (add_metrics tm mp).0

newest_short : (n : ℕ) (xs : List TokenMetrics) → length xs ≤ n → newest n xs ≡ xs
newest_short n xs h = let cut : length xs - n ≡ 0 = omega arith in ap (λ m. drop m xs) cut

add_metrics-newest :
    (tm : TokenMetrics) (mp : MetricsMonitor)
    → (add_metrics tm mp).0.metrics
      ≡ newest mp.max_metrics (mp.metrics ++ (record tm { id = mp.next_id } ∷ []))
unfolding add_metrics
add_metrics-newest tm mp =
    let all = mp.metrics ++ (record tm { id = mp.next_id } ∷ []) in
    elim (le_cases (length all) mp.max_metrics) [
      | inl e ↦ rw (ge→ltb mp.max_metrics (length all) e) (sym (newest_short mp.max_metrics all e))
      | inr e ↦ rw (lt→ltb mp.max_metrics (length all) e) refl
    ]

-- After any run of additions the list holds the newest of all metrics, those that were there and the
-- added ones in their order, with consecutive ids from the next one on, as many as the bound allows.
pub get_metrics-add_all :
    (tms : List TokenMetrics) (mp : MetricsMonitor) (before : List TokenMetrics)
    → mp.metrics ≡ newest mp.max_metrics before
    → get_metrics (add_all tms mp) ≡ newest mp.max_metrics (before ++ numbered mp.next_id tms)
unfolding get_metrics add_metrics
get_metrics-add_all [] mp before h = h ∙ ap (newest mp.max_metrics) (sym (++_nil before))
get_metrics-add_all (tm ∷ tms) mp before h =
    let stamped = record tm { id = mp.next_id } in
    let now : (add_metrics tm mp).0.metrics ≡ newest mp.max_metrics (before ++ (stamped ∷ [])) =
      add_metrics-newest tm mp
      ∙ ap (λ xs. newest mp.max_metrics (xs ++ (stamped ∷ []))) h
      ∙ newest-newest mp.max_metrics before (stamped ∷ []) in
    get_metrics-add_all tms (add_metrics tm mp).0 (before ++ (stamped ∷ [])) now
    ∙ ap (newest mp.max_metrics) (++_assoc before (stamped ∷ []) (numbered (suc mp.next_id) tms))
