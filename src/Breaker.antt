-- ===== src/Breaker.antt =====
-- crates/himadri-circuitbreaker/src/lib.rs: the in-memory circuit breaker.
-- Every operation runs under one mutex, so it is a function on the guarded state. The readings of
-- the monotonic clock (`now_millis`) are arguments.
pub mod Invariant
pub mod Recovery
use himadri.Common.{
  ℕ, ◌+◌, ◌-◌, ◌&&◌, Bool, true, false, ltb, leb, ◌==◌, if◌then◌else◌, wrapping_add, saturating_sub,
  List, [], ◌∷◌,
}

abbrev pub state_closed : ℕ
state_closed = 0

abbrev pub state_open : ℕ
state_open = 1

abbrev pub state_half_open : ℕ
state_half_open = 2

-- `recovery_timeout` in milliseconds, as `allow` reads it.
pub record CircuitBreakerConfig : Type 0 where
  pub failure_threshold : ℕ
  pub recovery_timeout : ℕ
  pub half_open_max_calls : ℕ

abbrev pub default_config : CircuitBreakerConfig
default_config = record { failure_threshold = 5; recovery_timeout = 30000; half_open_max_calls = 3 }

pub data CircuitState : Type 0 where
  closed open_circuit half_open : CircuitState

pub record BreakerInner : Type 0 where
  pub state : ℕ
  pub failure_count : ℕ
  pub success_count : ℕ
  pub half_open_admitted : ℕ
  pub last_failure_time : ℕ

abbrev pub new : BreakerInner
new = record {
  state = state_closed;
  failure_count = 0;
  success_count = 0;
  half_open_admitted = 0;
  last_failure_time = 0;
}

unfoldable pub allow : CircuitBreakerConfig → ℕ → BreakerInner → BreakerInner × Bool
unfolding wrapping_add
allow config now b =
    if b.state == state_closed
    then (b, true)
    else if b.state == state_open
    then if leb config.recovery_timeout (saturating_sub now b.last_failure_time)
      then (record b { state = state_half_open; success_count = 0; half_open_admitted = 1 }, true)
      else (b, false)
    else if b.state == state_half_open && ltb b.half_open_admitted config.half_open_max_calls
    then (record b { half_open_admitted = wrapping_add b.half_open_admitted 1 }, true)
    else (b, false)

unfoldable pub record_success : CircuitBreakerConfig → BreakerInner → BreakerInner
unfolding wrapping_add
record_success config b =
    if b.state == state_closed
    then record b { failure_count = 0 }
    else if b.state == state_half_open
    then if leb config.half_open_max_calls (wrapping_add b.success_count 1)
      then record b {
        state = state_closed;
        failure_count = 0;
        success_count = wrapping_add b.success_count 1;
      }
      else record b { success_count = wrapping_add b.success_count 1 }
    else b

unfoldable pub record_failure : CircuitBreakerConfig → ℕ → BreakerInner → BreakerInner
unfolding wrapping_add
record_failure config now b =
    if b.state == state_closed
    then if leb config.failure_threshold (wrapping_add b.failure_count 1)
      then record b {
        state = state_open;
        failure_count = wrapping_add b.failure_count 1;
        last_failure_time = now;
      }
      else record b { failure_count = wrapping_add b.failure_count 1; last_failure_time = now }
    else if b.state == state_half_open
    then record b { state = state_open; last_failure_time = now }
    else record b { last_failure_time = now }

unfoldable pub state : BreakerInner → CircuitState
state b =
    if b.state == state_open
    then open_circuit
    else if b.state == state_half_open
    then half_open
    else closed

unfoldable pub failure_count : BreakerInner → ℕ
failure_count b = b.failure_count

unfoldable pub reset : BreakerInner → BreakerInner
reset b = record b {
  state = state_closed;
  failure_count = 0;
  success_count = 0;
  half_open_admitted = 0;
}

-- A call of the breaker; time is the reading of the clock that the call makes.
pub data Call : Type 0 where
  allows : ℕ → Call
  succeeds : Call
  fails : ℕ → Call
  resets : Call

unfoldable pub step : CircuitBreakerConfig → BreakerInner → Call → BreakerInner
step config b (allows now) = (allow config now b).0
step config b succeeds = record_success config b
step config b (fails now) = record_failure config now b
step config b resets = reset b

unfoldable pub run : CircuitBreakerConfig → BreakerInner → List Call → BreakerInner
run config b [] = b
run config b (e ∷ es) = run config (step config b e) es
