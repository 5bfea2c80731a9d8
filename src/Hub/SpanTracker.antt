-- ===== src/Hub/SpanTracker.antt =====
-- internal/hub/batch.go: three-state degradation of batch spans. A Go map from uint16 is a
-- function that gives the zero value where there is no key. The counters are Go ints, far from
-- 2 ^ 63 after one increment a read cycle.
pub mod Invariant
pub mod Recovery
use sofar_hyd_diag.Prelude.{
  ℕ, suc, ◌+◌, ◌%◌, String, Bool, true, false, not, ◌&&◌, ◌||◌, List, [], ◌∷◌, ltb, leb, ◌==◌,
  if◌then◌else◌, update,
}

pub data SpanState : Type 0 where
  normal degraded skipped : SpanState

abbrev pub span_state_string : SpanState → String
span_state_string normal = "normal"
span_state_string degraded = "degraded"
span_state_string skipped = "skipped"

abbrev pub is_normal : SpanState → Bool
is_normal normal = true
is_normal _ = false

abbrev pub is_state_skipped : SpanState → Bool
is_state_skipped skipped = true
is_state_skipped _ = false

abbrev pub default_degradation_threshold : ℕ
default_degradation_threshold = 3

abbrev pub default_probe_interval : ℕ
default_probe_interval = 10

pub record SpanTracker : Type 0 where
  pub fail_counts : ℕ → ℕ
  pub states : ℕ → SpanState
  pub indiv_fails : ℕ → ℕ
  pub threshold : ℕ
  pub cycle : ℕ
  pub probe_interval : ℕ

unfoldable pub new_span_tracker : ℕ → SpanTracker
new_span_tracker threshold = record {
  fail_counts = λ _. 0;
  states = λ _. normal;
  indiv_fails = λ _. 0;
  threshold = threshold;
  cycle = 0;
  probe_interval = default_probe_interval;
}

unfoldable pub record_success : SpanTracker → ℕ → SpanTracker
record_success st start_addr =
    if ltb 0 (st.fail_counts start_addr) || not (is_normal (st.states start_addr))
    then record st {
      states = update st.states start_addr normal;
      fail_counts = update st.fail_counts start_addr 0;
      indiv_fails = update st.indiv_fails start_addr 0;
    }
    else st

-- `st.states[startAddr] >= SpanDegraded`
unfoldable pub is_degraded : SpanTracker → ℕ → Bool
is_degraded st start_addr = not (is_normal (st.states start_addr))

unfoldable pub record_failure : SpanTracker → ℕ → SpanTracker × Bool
unfolding is_degraded
record_failure st start_addr =
    let fails = suc (st.fail_counts start_addr) in
    let counted = record st { fail_counts = update st.fail_counts start_addr fails } in
    let st' =
      if is_normal (counted.states start_addr) && leb counted.threshold fails
      then record counted { states = update counted.states start_addr degraded }
      else counted in
    (st', is_degraded st' start_addr)

unfoldable pub state : SpanTracker → ℕ → SpanState
state st start_addr = st.states start_addr

unfoldable pub is_skipped : SpanTracker → ℕ → Bool
is_skipped st start_addr = is_state_skipped (st.states start_addr)

unfoldable pub record_individual_failure : SpanTracker → ℕ → SpanTracker × Bool
unfolding is_skipped
record_individual_failure st start_addr =
    let fails = suc (st.indiv_fails start_addr) in
    let counted = record st { indiv_fails = update st.indiv_fails start_addr fails } in
    let st' =
      if leb 2 fails
      then record counted { states = update counted.states start_addr skipped }
      else counted in
    (st', is_skipped st' start_addr)

unfoldable pub tick : SpanTracker → SpanTracker
tick st = record st { cycle = suc st.cycle }

unfoldable pub should_probe : SpanTracker → ℕ → Bool
should_probe st start_addr =
    if is_normal (st.states start_addr)
    then false
    else ltb 0 st.cycle && st.cycle % st.probe_interval == 0

unfoldable pub reset : SpanTracker → SpanTracker
reset st = record st { states = λ _. normal; fail_counts = λ _. 0; indiv_fails = λ _. 0; cycle = 0 }

-- A call of one of the operations that change the tracker.
pub data TrackerOp : Type 0 where
  success failure individual_failure : ℕ → TrackerOp
  ticks resets : TrackerOp

unfoldable pub apply_op : SpanTracker → TrackerOp → SpanTracker
apply_op st (success a) = record_success st a
apply_op st (failure a) = (record_failure st a).0
apply_op st (individual_failure a) = (record_individual_failure st a).0
apply_op st ticks = tick st
apply_op st resets = reset st

unfoldable pub run_ops : SpanTracker → List TrackerOp → SpanTracker
run_ops st [] = st
run_ops st (o ∷ os) = run_ops (apply_op st o) os
