-- ===== src/Tests/Window.antt =====
-- crates/himadri-plugins/src/rate_limit.rs on concrete calls: a counter of two requests a second.
use himadri.Common.{ℕ, ◌≡◌, ◌≤◌, refl, List, [], ◌∷◌, true, arith, ◌*◌, ◌+◌, saturating_add}
use himadri.Common.{String, none, some, lookup, length, All, ◌⊎◌, ◌≢◌}
use himadri.Window.Store.{Shard, RateLimiterStore, Request, new_store, allow_in_shard, serve}
use himadri.Window.Capacity.{counter_for, allow_in_shard_lem, serve-new_store}
use himadri.Window.Counter.{allow, FixedWindowCounter, new, half, allow_n, count, window_index}
use himadri.Window.Bounds.{granted_in, granted_in-le, stale_reading_erases}

abbrev calls : List (ℕ × ℕ)
calls = (1000000, 1) ∷ (1500000, 1) ∷ (1900000, 1) ∷ (2000000, 1) ∷ []

-- One request counted in the window 3.
abbrev counting : FixedWindowCounter
counting = record { packed = 3 * half + 1; window_us = 1000000; max_requests = 2 }

two_granted : granted_in 1 (new 2 1000000) calls ≡ 2
unfolding granted_in new allow_n saturating_add
two_granted = refl

granted_in-le_example : granted_in 1 (new 2 1000000) calls ≤ 2
granted_in-le_example = granted_in-le 2 1000000 1 calls (ground arith)

stale_reading_erases_example :
    ((allow_n 2999999 1 counting).1 ≡ true)
    × (count 3200000 (allow_n 2999999 1 counting).0 ≡ 0)
    × ((allow_n 3200000 2 (allow_n 2999999 1 counting).0).1 ≡ true)
unfolding window_index
stale_reading_erases_example =
    stale_reading_erases 3 1 2999999 3200000 counting (refl, omega arith, omega arith) (omega arith)
      (λ e. omega (arith, e)) refl

abbrev last_code : String → ℕ
last_code key = 3

abbrev requests : List Request
requests =
    record { key = "a"; now = 0; random = 5 }
    ∷ record { key = "b"; now = 1; random = 6 }
    ∷ record { key = "c"; now = 2; random = 7 }
    ∷ []

serve-new_store_example :
    (s : RateLimiterStore) × (serve last_code (new_store 2 1000000 2 4) requests ≡ some s)
    × All (λ m. length m ≤ 2) s.shards
serve-new_store_example =
    serve-new_store last_code 2 1000000 2 4 requests (omega arith) (omega arith)

abbrev shard : Shard
shard = ("a", counting) ∷ ("b", counting) ∷ []

abbrev asking : Request
asking = record { key = "c"; now = 3200000; random = 6 }

allow_in_shard_lem_example :
    ((allow_in_shard (new_store 2 1000000 2 4) asking shard).1
      ≡ (allow 3200000 (counter_for (new_store 2 1000000 2 4) (lookup "c" shard))).1)
    × (lookup "c" (allow_in_shard (new_store 2 1000000 2 4) asking shard).0
        ≡ some (allow 3200000 (counter_for (new_store 2 1000000 2 4) (lookup "c" shard))).0)
    × ((j : String)
        → "c" ≢ j
        → (lookup j (allow_in_shard (new_store 2 1000000 2 4) asking shard).0 ≡ lookup j shard)
          ⊎ ((lookup "c" shard ≡ none)
              × (lookup j (allow_in_shard (new_store 2 1000000 2 4) asking shard).0 ≡ none)))
allow_in_shard_lem_example = allow_in_shard_lem (new_store 2 1000000 2 4) asking shard
