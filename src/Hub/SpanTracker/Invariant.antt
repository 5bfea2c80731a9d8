-- ===== src/Hub/SpanTracker/Invariant.antt =====
-- What the counters of a SpanTracker (internal/hub/batch.go) say of its states, for every sequence
-- of operations.
use sofar_hyd_diag.Prelude.{
  ℕ, zero, suc, ◌+◌, ◌≤◌, ◌<◌, ◌≡◌, refl, inl, inr, Bool-cases, List, [], ◌∷◌, leb, replicate,
  if◌then◌else◌, ==_iff, arith,
}
use sofar_hyd_diag.Hub.SpanTracker.{
  SpanState, normal, degraded, skipped, SpanTracker, TrackerOp, success, failure,
  individual_failure, ticks, resets, new_span_tracker, record_success, record_failure,
  record_individual_failure, tick, reset, apply_op, run_ops, state,
}

-- The state of one span against its two counters.
abbrev pub Counted : ℕ → SpanState → ℕ → ℕ → Type 0
Counted threshold normal fails indiv = (fails < threshold) × (indiv < 2)
Counted threshold degraded fails indiv = (threshold ≤ fails) × (indiv < 2)
Counted threshold skipped fails indiv = 2 ≤ indiv

abbrev pub IsConsistent : SpanTracker → Type 0
IsConsistent st = (a : ℕ) → Counted st.threshold (st.states a) (st.fail_counts a) (st.indiv_fails a)

apply_op-IsConsistent :
    (st : SpanTracker) (o : TrackerOp)
    → 0 < st.threshold
    → IsConsistent st
    → IsConsistent (apply_op st o)
unfolding apply_op record_success record_failure record_individual_failure tick reset
apply_op-IsConsistent st (success b) pos h a = ground (arith, h a)
apply_op-IsConsistent st (failure b) pos h a = ground (arith, h a, h b, ==_iff b a)
apply_op-IsConsistent st (individual_failure b) pos h a = ground (arith, h a, h b)
apply_op-IsConsistent st ticks pos h a = h a
apply_op-IsConsistent st resets pos h a = ground arith

apply_op-threshold : (st : SpanTracker) (o : TrackerOp) → (apply_op st o).threshold ≡ st.threshold
unfolding apply_op record_success record_failure record_individual_failure tick reset
apply_op-threshold st (success b) = ground arith
apply_op-threshold st (failure b) = ground arith
apply_op-threshold st (individual_failure b) = ground arith
apply_op-threshold st ticks = refl
apply_op-threshold st resets = refl

pub run_ops-threshold :
    (st : SpanTracker) (os : List TrackerOp) → (run_ops st os).threshold ≡ st.threshold
unfolding run_ops
run_ops-threshold st [] = refl
run_ops-threshold st (o ∷ os) =
    ground (arith, run_ops-threshold (apply_op st o) os, apply_op-threshold st o)

pub run_ops-IsConsistent :
    (st : SpanTracker) (os : List TrackerOp)
    → 0 < st.threshold
    → IsConsistent st
    → IsConsistent (run_ops st os)
unfolding run_ops
run_ops-IsConsistent st [] pos h = h
run_ops-IsConsistent st (o ∷ os) pos h =
    run_ops-IsConsistent (apply_op st o) os (omega (arith, apply_op-threshold st o))
      (apply_op-IsConsistent st o pos h)

-- After any operations on a new tracker with a positive threshold, a span is normal only with
-- fewer failures counted than the threshold, degraded only with at least that many, and skipped
-- only with two or more individual-read failures counted (normal and degraded: fewer than two).
pub new_span_tracker-IsConsistent :
    (threshold : ℕ) (os : List TrackerOp)
    → 0 < threshold
    → (a : ℕ)
    → Counted threshold
        (state (run_ops (new_span_tracker threshold) os) a)
        ((run_ops (new_span_tracker threshold) os).fail_counts a)
        ((run_ops (new_span_tracker threshold) os).indiv_fails a)
unfolding new_span_tracker state
new_span_tracker-IsConsistent t os pos a =
    rw (run_ops-threshold (new_span_tracker t) os) at
      (run_ops-IsConsistent (new_span_tracker t) os pos (λ b. (pos, omega arith)) a)

-- Whether an operation is about the span at `a` (a reset is about all).
abbrev pub Touches : ℕ → TrackerOp → Type 0
Touches a (success b) = a ≡ b
Touches a (failure b) = a ≡ b
Touches a (individual_failure b) = a ≡ b
Touches a ticks = ⊥
Touches a resets = Unit

-- An operation that is not about a span leaves its state and its counters alone.
pub apply_op-other :
    (st : SpanTracker) (o : TrackerOp) (a : ℕ)
    → ¬ Touches a o
    → (state (apply_op st o) a ≡ state st a)
      × ((apply_op st o).fail_counts a ≡ st.fail_counts a)
      × ((apply_op st o).indiv_fails a ≡ st.indiv_fails a)
unfolding apply_op record_success record_failure record_individual_failure tick reset state
apply_op-other st (success b) a h = ground (arith, ==_iff b a)
apply_op-other st (failure b) a h = ground (arith, ==_iff b a)
apply_op-other st (individual_failure b) a h = ground (arith, ==_iff b a)
apply_op-other st ticks a h = (refl, refl, refl)
apply_op-other st resets a h = absurd (h tt)

failure-degraded :
    (st : SpanTracker) (a : ℕ)
    → st.states a ≡ degraded
    → (apply_op st (failure a)).states a ≡ degraded
unfolding apply_op record_failure
failure-degraded st a e = ground arith

failures-degraded :
    (n : ℕ) (st : SpanTracker) (a : ℕ)
    → st.states a ≡ degraded
    → state (run_ops st (replicate n (failure a))) a ≡ degraded
unfolding run_ops state
failures-degraded zero st a e = e
failures-degraded (suc n) st a e =
    failures-degraded n (apply_op st (failure a)) a (failure-degraded st a e)

failure-normal :
    (st : SpanTracker) (a : ℕ)
    → st.states a ≡ normal
    → ((apply_op st (failure a)).states a
        ≡ (if leb st.threshold (suc (st.fail_counts a)) then degraded else normal))
      × ((apply_op st (failure a)).fail_counts a ≡ suc (st.fail_counts a))
      × ((apply_op st (failure a)).threshold ≡ st.threshold)
unfolding apply_op record_failure
failure-normal st a e = ground arith

-- Consecutive failed batch reads of a normal span with fewer failures counted than the threshold
-- degrade it exactly when the count reaches the threshold; they never make it skipped.
pub run_ops-failures :
    (n : ℕ) (st : SpanTracker) (a : ℕ)
    → st.states a ≡ normal
    → st.fail_counts a < st.threshold
    → state (run_ops st (replicate n (failure a))) a
      ≡ (if leb st.threshold (st.fail_counts a + n) then degraded else normal)
unfolding run_ops state
run_ops-failures zero st a e h = ground arith
run_ops-failures (suc n) st a e h = elim (Bool-cases (leb st.threshold (suc (st.fail_counts a)))) [
  | inl reached ↦
      ground (arith, failure-normal st a e, failures-degraded n (apply_op st (failure a)) a)
  | inr not_yet ↦
      ground (arith, failure-normal st a e, run_ops-failures n (apply_op st (failure a)) a)
]
