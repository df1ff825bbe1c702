-- ===== src/Tests/Limiter.antt =====
-- crates/himadri-ratelimit on concrete calls.
use himadri.Common.{
  ℕ, ◌≡◌, ◌≢◌, ◌≤◌, ◌*◌, refl, List, [], ◌∷◌, arith, String, saturating_mul, saturating_add, some,
}
use himadri.Limiter.Bucket.{TokenBucket, allow, refill, credit_of, add_credit, consume, new}
use himadri.Limiter.Interleaving.{Turn, System, idle, run, start, step, thread_step}
use himadri.Limiter.Conservation.{all_idle, granted-run-le}
use himadri.Limiter.Store.{Readings, ShardedRateLimiter, bucket_of, allow_with_params, RateLimiter}
use himadri.Limiter.Isolation.{IsReady, Serves, allow_with_params_lem}

-- Three of ten tokens left, at five tokens a second.
abbrev bucket : TokenBucket
bucket = record { tokens = 3; last_refill = 1000000; rate = 5; capacity = 10 }

refilled : (refill 2000000 bucket).tokens ≡ 8
unfolding refill credit_of saturating_mul add_credit saturating_add
refilled = refl

abbrev turn : ℕ → Turn
turn thread = record { thread = thread; n = 1; now = 2000000 }

abbrev schedule : List Turn
schedule =
    turn 0 ∷ turn 1 ∷ turn 0 ∷ turn 1 ∷ turn 0 ∷ turn 0 ∷ turn 1 ∷ turn 0 ∷ turn 1 ∷ turn 1 ∷ []

both_granted : (run (start 1000000 5 1 (all_idle 2)) schedule).granted ≡ 1
unfolding run start all_idle step thread_step credit_of saturating_mul new add_credit consume
    saturating_add
both_granted = refl

granted-run-le_example :
    ((run (start 1000000 5 1 (all_idle 2)) schedule).granted * 1000000 ≤ 6000000)
    × ((run (start 1000000 5 1 (all_idle 2)) schedule).bucket.tokens ≤ 1)
granted-run-le_example = granted-run-le 1000000 2000000 5 1 2 schedule (omega arith) (ground arith)

abbrev alone : System
alone = record { bucket = bucket; threads = idle ∷ []; granted = 0; claimed = 0 }

abbrev asking : Turn
asking = record { thread = 0; n = 4; now = 2000000 }

abbrev five_turns : List Turn
five_turns = asking ∷ asking ∷ asking ∷ asking ∷ asking ∷ []

abbrev pub first_code : String → ℕ
first_code key = 7

abbrev store : ShardedRateLimiter
store = record { shards = [] ∷ [] ∷ []; num_shards = 2; rate = 5; capacity = 10 }

abbrev pub readings : Readings
readings = record { created = 1000000; used = 1000000 }

store-IsReady : IsReady store
store-IsReady = record { some_shard = omega arith; all_shards = refl }

-- The second shard holds a bucket under the key, with another rate.
abbrev used_store : ShardedRateLimiter
used_store = record store { shards = [] ∷ (("org:a", bucket) ∷ []) ∷ [] }

used_store-IsReady : IsReady used_store
used_store-IsReady = record { some_shard = omega arith; all_shards = refl }

allow_with_params_lem_example :
    (b : TokenBucket) × Serves readings.created 7 10 (bucket_of first_code used_store "org:a") b
    × (s' : ShardedRateLimiter) × (allow_with_params first_code used_store "org:a" 7 10 readings
        ≡ some (s', (allow readings.used b).1))
    × IsReady s'
    × (bucket_of first_code s' "org:a" ≡ some (allow readings.used b).0)
    × ((j : String) → "org:a" ≢ j → bucket_of first_code s' j ≡ bucket_of first_code used_store j)
allow_with_params_lem_example =
    allow_with_params_lem first_code used_store "org:a" 7 10 readings used_store-IsReady

abbrev pub limiter : RateLimiter
limiter = record { global = store; per_entity = store; default_rate = 5; default_burst = 10 }
