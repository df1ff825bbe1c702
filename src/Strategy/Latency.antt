-- ===== src/Strategy/Latency.antt =====
-- crates/himadri/src/latency_store.rs: the in-memory latency store. Its two counters are atomics
-- that wrap.
use himadri.Common.{
  ℕ, ◌+◌, ◌/◌, ◌<◌, ◌≡◌, ◌∙◌, String, List, [], ◌∷◌, Option, none, some, arith, if◌then◌else◌, ◌==◌,
  lookup, insert, lookup-insert, eq_refl, unwrap_or, wrapping_add, wrapping_add_lem, u64_max,
  u64_mod, length, suc,
}

pub record LatencyEntry : Type 0 where
  pub sum : ℕ
  pub count : ℕ

abbrev pub LatencyStore : Type 0
LatencyStore = List (String × LatencyEntry)

unfoldable pub record_latency : String → ℕ → LatencyStore → LatencyStore
record_latency provider latency_ms s =
    let entry = unwrap_or (lookup provider s) (record { sum = 0; count = 0 }) in
    insert provider
      (record { sum = wrapping_add entry.sum latency_ms; count = wrapping_add entry.count 1 }) s

-- `sum.checked_div(count).unwrap_or(u64::MAX)`
unfoldable pub average : Option LatencyEntry → ℕ
average none = u64_max
average (some e) = if e.count == 0 then u64_max else e.sum / e.count

unfoldable pub get_avg_latency : String → LatencyStore → ℕ
unfolding average
get_avg_latency provider s = average (lookup provider s)

unfoldable pub record_all : String → List ℕ → LatencyStore → LatencyStore
record_all provider [] s = s
record_all provider (l ∷ ls) s = record_all provider ls (record_latency provider l s)

abbrev pub total : List ℕ → ℕ
total [] = 0
total (l ∷ ls) = l + total ls

lookup-record_all :
    (provider : String) (ls : List ℕ) (s : LatencyStore) (e : LatencyEntry)
    → lookup provider s ≡ some e
    → e.sum + total ls < u64_mod
    → e.count + length ls < u64_mod
    → lookup provider (record_all provider ls s)
      ≡ some (record { sum = e.sum + total ls; count = e.count + length ls })
unfolding record_all
lookup-record_all provider [] s e h a b = ground arith
lookup-record_all provider (l ∷ ls) s e h a b =
    let e' : LatencyEntry = record { sum = e.sum + l; count = e.count + 1 } in
    let here : lookup provider (record_latency provider l s) ≡ some e' =
      unfold record_latency in
      ground (
        arith,
        lookup-insert provider provider
            (record { sum = wrapping_add e.sum l; count = wrapping_add e.count 1 }) s,
        eq_refl provider,
        wrapping_add_lem e.sum l,
        wrapping_add_lem e.count 1,
      ) in
    lookup-record_all provider ls (record_latency provider l s) e' here (omega arith) (omega arith)
    ∙ ground arith

lookup-record_first :
    (provider : String) (l : ℕ) (s : LatencyStore)
    → lookup provider s ≡ none
    → l < u64_mod
    → lookup provider (record_latency provider l s) ≡ some (record { sum = l; count = 1 })
unfolding record_latency
lookup-record_first provider l s h a = ground (
  arith,
  lookup-insert provider provider (record { sum = wrapping_add 0 l; count = wrapping_add 0 1 }) s,
  eq_refl provider,
  wrapping_add_lem 0 l,
  wrapping_add_lem 0 1,
)

-- A provider never recorded has the greatest latency there is; one recorded any number of times,
-- while the counters do not overflow, has the average of the recorded latencies, rounded down.
pub get_avg_latency-record_all :
    (provider : String) (l : ℕ) (ls : List ℕ) (s : LatencyStore)
    → lookup provider s ≡ none
    → l + total ls < u64_mod
    → suc (length ls) < u64_mod
    → (get_avg_latency provider s ≡ u64_max)
      × (get_avg_latency provider (record_all provider (l ∷ ls) s)
          ≡ (l + total ls) / suc (length ls))
unfolding get_avg_latency record_all
get_avg_latency-record_all provider l ls s h a b =
    let first : LatencyEntry = record { sum = l; count = 1 } in
    (
      rw h,
      rw
          (lookup-record_all provider ls (record_latency provider l s) first
            (lookup-record_first provider l s h (omega arith)) (omega arith) (omega arith))
          (ground arith),
    )
