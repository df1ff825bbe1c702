-- ===== src/Breaker/Invariant.antt =====
-- What holds of the breaker after every history of calls.
use himadri.Common.{ℕ, ◌≤◌, ◌<◌, ◌≡◌, ◌⊎◌, inl, List, [], ◌∷◌, arith, u64_mod, refl}
use himadri.Breaker.{
  CircuitBreakerConfig, BreakerInner, Call, allows, succeeds, fails, resets, new, allow,
  record_success, record_failure, reset, step, run, state_closed, state_open, state_half_open,
}

-- Thresholds that the counters can meet.
pub record IsSensible (c : CircuitBreakerConfig) : Type 0 where
  pub threshold_pos : 0 < c.failure_threshold
  pub threshold_fits : c.failure_threshold < u64_mod
  pub probes_pos : 0 < c.half_open_max_calls
  pub probes_fit : c.half_open_max_calls < u64_mod

-- Closed: below the failure threshold. Open and half-open: at it. Half-open: some probe is admitted, and
-- fewer than `half_open_max_calls` have succeeded.
abbrev pub InState : CircuitBreakerConfig → BreakerInner → Type 0
InState c b =
    ((b.state ≡ state_closed) × (b.failure_count < c.failure_threshold))
    ⊎ (((b.state ≡ state_open) × (b.failure_count ≡ c.failure_threshold))
        ⊎ ((b.state ≡ state_half_open)
            × (b.failure_count ≡ c.failure_threshold)
            × (b.success_count < c.half_open_max_calls)
            × (0 < b.half_open_admitted)))

-- In every state no more successes and admissions are counted than `half_open_max_calls`.
abbrev pub Inv : CircuitBreakerConfig → BreakerInner → Type 0
Inv c b =
    InState c b
    × (b.success_count ≤ c.half_open_max_calls)
    × (b.half_open_admitted ≤ c.half_open_max_calls)

module _ {c : CircuitBreakerConfig} (sensible : IsSensible c) where
  allow-Inv : (now : ℕ) (b : BreakerInner) → Inv c b → Inv c (allow c now b).0
  unfolding allow
  allow-Inv now b v = ground arith

  record_success-Inv : (b : BreakerInner) → Inv c b → Inv c (record_success c b)
  unfolding record_success
  record_success-Inv b v = ground arith

  record_failure-Inv : (now : ℕ) (b : BreakerInner) → Inv c b → Inv c (record_failure c now b)
  unfolding record_failure
  record_failure-Inv now b v = ground arith

  reset-Inv : (b : BreakerInner) → Inv c (reset b)
  unfolding reset
  reset-Inv b = (inl (refl, sensible.threshold_pos), omega arith, omega arith)

  pub step-Inv : (b : BreakerInner) (e : Call) → Inv c b → Inv c (step c b e)
  unfolding step
  step-Inv b (allows now) v = allow-Inv now b v
  step-Inv b succeeds v = record_success-Inv b v
  step-Inv b (fails now) v = record_failure-Inv now b v
  step-Inv b resets v = reset-Inv b

  run-Inv : (b : BreakerInner) (es : List Call) → Inv c b → Inv c (run c b es)
  unfolding run
  run-Inv b [] v = v
  run-Inv b (e ∷ es) v = run-Inv (step c b e) es (step-Inv b e v)

  -- With a failure threshold and a number of probes that are positive and below 2^64, after every sequence
  -- of calls on a new breaker, whatever the clock readings: the breaker is closed and has counted fewer
  -- failures than the threshold, or it is open or half-open and has counted exactly as many; when half-open
  -- it has admitted at least one probe and counted fewer successes than `half_open_max_calls`; and in every
  -- state it has counted at most that many successes and admissions.
  pub run-new-Inv : (es : List Call) → Inv c (run c new es)
  run-new-Inv es = run-Inv new es (inl (refl, sensible.threshold_pos), omega arith, omega arith)
