-- ===== src/Hub/SpanTracker/Recovery.antt =====
-- How a degraded or skipped span of a SpanTracker (internal/hub/batch.go) comes back.
use sofar_hyd_diag.Prelude.{
  ℕ, zero, suc, ◌+◌, ◌-◌, ◌%◌, ◌≤◌, ◌<◌, ◌≡◌, ◌≢◌, ◌∙◌, true, leb, replicate, if◌then◌else◌, arith,
}
use sofar_hyd_diag.Hub.SpanTracker.Invariant.{run_ops-failures}
use sofar_hyd_diag.Hub.SpanTracker.{
  normal, degraded, SpanTracker, failure, ticks, record_success, tick, should_probe, apply_op,
  run_ops, state,
}

run_ops-ticks :
    (n : ℕ) (st : SpanTracker) → run_ops st (replicate n ticks) ≡ record st { cycle = st.cycle + n }
unfolding run_ops apply_op tick
run_ops-ticks zero st = ground arith
run_ops-ticks (suc n) st = run_ops-ticks n (tick st) ∙ ground arith

-- Among the next `probe_interval` read cycles of a span that is not normal, the first that is
-- probed: it makes the cycle a multiple of the interval.
unfoldable pub cycles_to_probe : SpanTracker → ℕ
cycles_to_probe st = st.probe_interval - st.cycle % st.probe_interval

-- With a positive probe interval (10 as the hub makes trackers), a degraded or skipped span is due
-- for a probe again within the next interval of read cycles in which nothing else happens to the
-- tracker.
pub should_probe_within_interval :
    (st : SpanTracker) (a : ℕ)
    → 0 < st.probe_interval
    → state st a ≢ normal
    → (n : ℕ) × (1 ≤ n)
      × (n ≤ st.probe_interval)
      × (should_probe (run_ops st (replicate n ticks)) a ≡ true)
unfolding state should_probe
should_probe_within_interval st a pos h = (
  cycles_to_probe st,
  unfold cycles_to_probe in omega arith,
  unfold cycles_to_probe in omega arith,
  rw (run_ops-ticks (cycles_to_probe st) st) (unfold cycles_to_probe in grind arith),
)

record_success-fields :
    (st : SpanTracker) (a : ℕ)
    → ((record_success st a).states a ≡ normal)
      × ((record_success st a).fail_counts a ≡ 0)
      × ((record_success st a).threshold ≡ st.threshold)
unfolding record_success
record_success-fields st a = ground arith

-- One success is a full reset: from any tracker with a positive threshold, after a success of a
-- span, n consecutive batch failures degrade it again exactly when n reaches the threshold.
pub record_success-failures :
    (st : SpanTracker) (n a : ℕ)
    → 0 < st.threshold
    → state (run_ops (record_success st a) (replicate n (failure a))) a
      ≡ (if leb st.threshold n then degraded else normal)
record_success-failures st n a pos =
    let (e, f, t) = record_success-fields st a in
    run_ops-failures n (record_success st a) a e (omega (arith, f, t)) ∙ rw (f, t) (ground arith)
