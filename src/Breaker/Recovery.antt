-- ===== src/Breaker/Recovery.antt =====
-- Opening, recovery and the half-open phase, over whole sequences of calls.
use himadri.Common.{
  ℕ, zero, suc, ◌+◌, ◌-◌, ◌≤◌, ◌<◌, ◌≡◌, refl, List, [], ◌∷◌, arith, min, length, ltb,
  if◌then◌else◌, All,
}
use himadri.Breaker.{
  CircuitBreakerConfig, BreakerInner, new, closed, open_circuit, half_open, allow, record_success,
  record_failure, state, state_closed, state_open, state_half_open,
}
use himadri.Breaker.Invariant.{IsSensible}

-- Failures in a row, at the times of the list.
unfoldable pub failures : CircuitBreakerConfig → List ℕ → BreakerInner → BreakerInner
failures c [] b = b
failures c (now ∷ times) b = failures c times (record_failure c now b)

-- Calls of `allow` in a row, and how many of them are admitted.
unfoldable pub probes : CircuitBreakerConfig → List ℕ → BreakerInner → BreakerInner × ℕ
probes c [] b = (b, 0)
probes c (now ∷ times) b =
    let rest = probes c times (allow c now b).0 in
    (rest.0, if (allow c now b).1 then suc rest.1 else rest.1)

unfoldable pub successes : CircuitBreakerConfig → ℕ → BreakerInner → BreakerInner
successes c zero b = b
successes c (suc n) b = successes c n (record_success c b)

module _ {c : CircuitBreakerConfig} (sensible : IsSensible c) where
  failures-open :
      (times : List ℕ) (b : BreakerInner)
      → b.state ≡ state_open
      → state (failures c times b) ≡ open_circuit
  unfolding failures state
  failures-open [] b o = ground arith
  failures-open (now ∷ times) b o =
      failures-open times (record_failure c now b) (unfold record_failure in ground arith)

  failures-from :
      (times : List ℕ) (b : BreakerInner)
      → b.state ≡ state_closed
      → b.failure_count < c.failure_threshold
      → state (failures c times b) ≡ (
          if ltb (b.failure_count + length times) c.failure_threshold then closed else open_circuit)
  unfolding failures state record_failure
  failures-from [] b o h = ground arith
  failures-from (now ∷ times) b o h = ground (
    arith,
    failures-from times (record_failure c now b),
    failures-open times (record_failure c now b),
  )

  -- A closed breaker that has counted no failure is open after a run of failures exactly when the
  -- run is at least as long as `failure_threshold`, and closed otherwise.
  pub state-failures :
      (times : List ℕ) (b : BreakerInner)
      → b.state ≡ state_closed
      → b.failure_count ≡ 0
      → state (failures c times b)
        ≡ (if ltb (length times) c.failure_threshold then closed else open_circuit)
  state-failures times b o z = ground (arith, failures-from times b)

  probes_half_open :
      (times : List ℕ) (b : BreakerInner)
      → b.state ≡ state_half_open
      → b.half_open_admitted ≤ c.half_open_max_calls
      → ((probes c times b).0.state ≡ state_half_open)
        × ((probes c times b).1 ≡ min (length times) (c.half_open_max_calls - b.half_open_admitted))
  unfolding probes allow
  probes_half_open [] b o h = ground arith
  probes_half_open (now ∷ times) b o h =
      ground (arith, probes_half_open times (allow c now b).0, sensible.probes_fit)

  -- An open breaker whose recovery timeout has passed when `allow` is first called becomes
  -- half-open and admits of any run of calls, at any later times and with no outcome reported in
  -- between, the first `half_open_max_calls` and no more.
  pub probes_after_timeout :
      (now : ℕ) (times : List ℕ) (b : BreakerInner)
      → b.state ≡ state_open
      → c.recovery_timeout ≤ now - b.last_failure_time
      → ((probes c (now ∷ times) b).0.state ≡ state_half_open)
        × ((probes c (now ∷ times) b).1 ≡ min (suc (length times)) c.half_open_max_calls)
  unfolding probes allow
  probes_after_timeout now times b o h =
      ground (arith, probes_half_open times (allow c now b).0, sensible.probes_pos)

  -- An open breaker admits no call, and does not change, as long as every call comes less than
  -- `recovery_timeout` after the last failure.
  pub probes_before_timeout :
      (times : List ℕ) (b : BreakerInner)
      → b.state ≡ state_open
      → All (λ now. now - b.last_failure_time < c.recovery_timeout) times
      → probes c times b ≡ (b, 0)
  unfolding probes allow
  probes_before_timeout [] b o h = refl
  probes_before_timeout (now ∷ times) b o (h, hs) =
      ground (arith, probes_before_timeout times b o hs)

  probes_exhausted :
      (times : List ℕ) (b : BreakerInner)
      → b.state ≡ state_half_open
      → c.half_open_max_calls ≤ b.half_open_admitted
      → probes c times b ≡ (b, 0)
  unfolding probes allow
  probes_exhausted [] b o h = refl
  probes_exhausted (now ∷ times) b o h = ground (arith, probes_exhausted times b o h)

  probes_admitted :
      (times : List ℕ) (b : BreakerInner)
      → b.state ≡ state_half_open
      → b.half_open_admitted ≤ c.half_open_max_calls
      → ((probes c times b).0.state ≡ state_half_open)
        × ((probes c times b).0.half_open_admitted
            ≡ min (b.half_open_admitted + length times) c.half_open_max_calls)
  unfolding probes allow
  probes_admitted [] b o h = ground arith
  probes_admitted (now ∷ times) b o h =
      ground (arith, probes_admitted times (allow c now b).0, sensible.probes_fit)

  -- The state and the admissions of an open breaker after a run of calls that begins past its timeout.
  probes_waited :
      (now : ℕ) (times : List ℕ) (b : BreakerInner)
      → b.state ≡ state_open
      → c.recovery_timeout ≤ now - b.last_failure_time
      → ((probes c (now ∷ times) b).0.state ≡ state_half_open)
        × ((probes c (now ∷ times) b).0.half_open_admitted
            ≡ min (suc (length times)) c.half_open_max_calls)
  unfolding probes allow
  probes_waited now times b o h =
      ground (arith, probes_admitted times (allow c now b).0, sensible.probes_pos)

  failures-state_open :
      (times : List ℕ) (b : BreakerInner)
      → b.state ≡ state_open
      → (failures c times b).state ≡ state_open
  unfolding failures
  failures-state_open [] b o = o
  failures-state_open (now ∷ times) b o =
      failures-state_open times (record_failure c now b) (unfold record_failure in ground arith)

  failures-enough :
      (times : List ℕ) (b : BreakerInner)
      → b.state ≡ state_closed
      → b.failure_count < c.failure_threshold
      → c.failure_threshold ≤ b.failure_count + length times
      → (failures c times b).state ≡ state_open
  unfolding failures record_failure
  failures-enough [] b o h enough = ground arith
  failures-enough (now ∷ times) b o h enough = ground (
    arith,
    sensible.threshold_fits,
    failures-enough times (record_failure c now b),
    failures-state_open times (record_failure c now b),
  )

  -- A new breaker that fails often enough to open, and is asked `half_open_max_calls` times or more once
  -- its recovery timeout has passed, refuses every later call and no longer changes, at whatever times the
  -- calls come, as long as no outcome is reported: it does not recover by waiting.
  pub probes_never_recover :
      (failing : List ℕ) (now : ℕ) (times later : List ℕ)
      → c.failure_threshold ≤ length failing
      → c.recovery_timeout ≤ now - (failures c failing new).last_failure_time
      → c.half_open_max_calls ≤ suc (length times)
      → probes c later (probes c (now ∷ times) (failures c failing new)).0
        ≡ ((probes c (now ∷ times) (failures c failing new)).0, 0)
  probes_never_recover failing now times later enough waited all =
      let opened = failures-enough failing new refl sensible.threshold_pos (omega arith) in
      let (half, admitted) = probes_waited now times (failures c failing new) opened waited in
      probes_exhausted later _ half (omega arith)

  successes-closed :
      (n : ℕ) (b : BreakerInner) → b.state ≡ state_closed → state (successes c n b) ≡ closed
  unfolding successes state record_success
  successes-closed zero b o = ground arith
  successes-closed (suc n) b o = ground (arith, successes-closed n (record_success c b))

  -- A half-open breaker closes after exactly as many successes as are missing from
  -- `half_open_max_calls`, and stays half-open on fewer.
  pub state-successes :
      (n : ℕ) (b : BreakerInner)
      → b.state ≡ state_half_open
      → b.success_count < c.half_open_max_calls
      → state (successes c n b)
        ≡ (if ltb (b.success_count + n) c.half_open_max_calls then half_open else closed)
  unfolding successes state record_success
  state-successes zero b o h = ground arith
  state-successes (suc n) b o h = ground (
    arith,
    sensible.probes_fit,
    state-successes n (record_success c b),
    successes-closed n (record_success c b),
  )
