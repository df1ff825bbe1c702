-- ===== src/Tests/Breaker.antt =====
-- crates/himadri-circuitbreaker/src/lib.rs on concrete calls, with the default configuration.
use himadri.Common.{ℕ, ◌≡◌, ◌≤◌, ◌-◌, refl, List, [], ◌∷◌, arith}
use himadri.Breaker.{
  BreakerInner, Call, allows, succeeds, fails, new, default_config, open_circuit, half_open, state,
  allow, run, step, record_success, record_failure,
}
use himadri.Breaker.Invariant.{IsSensible, Inv, run-new-Inv}
use himadri.Breaker.Recovery.{
  failures, probes, state-failures, probes_after_timeout, probes_never_recover,
}

default-IsSensible : IsSensible default_config
default-IsSensible = record {
  threshold_pos = omega arith;
  threshold_fits = omega arith;
  probes_pos = omega arith;
  probes_fit = omega arith;
}

abbrev five_times : List ℕ
five_times = 100 ∷ 200 ∷ 300 ∷ 400 ∷ 500 ∷ []

abbrev opened : BreakerInner
opened = record {
  state = 1;
  failure_count = 5;
  success_count = 0;
  half_open_admitted = 0;
  last_failure_time = 1000;
}

abbrev history : List Call
history =
    fails 1 ∷ fails 2 ∷ fails 3 ∷ fails 4 ∷ fails 5 ∷ allows 40000 ∷ allows 40001 ∷ succeeds ∷ []

history_half_open : state (run default_config new history) ≡ half_open
unfolding state run step record_success allow record_failure
history_half_open = refl

run-new-Inv_example : Inv default_config (run default_config new history)
run-new-Inv_example = run-new-Inv default-IsSensible history

state-failures_example : state (failures default_config five_times new) ≡ open_circuit
state-failures_example = state-failures default-IsSensible five_times new refl refl

probes_after_timeout_example :
    ((probes default_config (31000 ∷ 31000 ∷ five_times) opened).0.state ≡ 2)
    × ((probes default_config (31000 ∷ 31000 ∷ five_times) opened).1 ≡ 3)
probes_after_timeout_example =
    probes_after_timeout default-IsSensible 31000 (31000 ∷ five_times) opened refl (omega arith)

last_failure : (failures default_config five_times new).last_failure_time ≡ 500
unfolding failures record_failure
last_failure = refl

long_waited :
    default_config.recovery_timeout
    ≤ 31000 - (failures default_config five_times new).last_failure_time
long_waited = omega (arith, last_failure)

probes_never_recover_example :
    probes default_config
      (900000 ∷ 9000000 ∷ [])
      (probes default_config
        (31000 ∷ 31001 ∷ 31002 ∷ [])
        (failures default_config five_times new)).0
    ≡ (
      (probes default_config
          (31000 ∷ 31001 ∷ 31002 ∷ [])
          (failures default_config five_times new)).0,
      0,
    )
probes_never_recover_example =
    probes_never_recover default-IsSensible five_times 31000 (31001 ∷ 31002 ∷ [])
      (900000 ∷ 9000000 ∷ []) (omega arith) long_waited (omega arith)
