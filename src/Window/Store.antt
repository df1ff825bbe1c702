-- ===== src/Window/Store.antt =====
-- crates/himadri-plugins/src/rate_limit.rs, `RateLimiterStore`: a counter for each key, in shards
-- that evict a random key when they are full. The hash and the random numbers are parameters; `none`
-- is a panic. A map's order of iteration is the list's.
use himadri.Common.{
  ℕ, zero, suc, ◌%◌, String, Bool, ◌&&◌, List, [], ◌∷◌, Option, none, some, if◌then◌else◌, ◌==◌,
  ltb, leb, length, get_elem?, set, lookup, insert, remove, ◌>>=◌, map,
}
use himadri.Window.Counter.{FixedWindowCounter, new, allow, count, reset}

abbrev pub Shard : Type 0
Shard = List (String × FixedWindowCounter)

pub record RateLimiterStore : Type 0 where
  pub shards : List Shard
  pub num_shards : ℕ
  pub rate : ℕ
  pub window : ℕ
  pub max_keys : ℕ

unfoldable pub empty_maps : ℕ → List Shard
empty_maps zero = []
empty_maps (suc n) = [] ∷ empty_maps n

unfoldable pub new_store : ℕ → ℕ → ℕ → ℕ → RateLimiterStore
unfolding empty_maps
new_store rate window max_keys num_shards = record {
  shards = empty_maps num_shards;
  num_shards = num_shards;
  rate = rate;
  window = window;
  max_keys = max_keys;
}

-- What a request asks of the store: its key, the clock, and the random number of an eviction.
pub record Request : Type 0 where
  pub key : String
  pub now : ℕ
  pub random : ℕ

unfoldable pub evict : ℕ → ℕ → Shard → Shard
evict max_keys random m =
    if ltb 0 max_keys && leb max_keys (length m)
    then elim (get_elem? m (random % length m)) [
      | none ↦ m
      | some (evict_key, counter) ↦ remove evict_key m
    ]
    else m

-- The fast path, and the slow path for a key without a counter.
unfoldable pub allow_in_shard : RateLimiterStore → Request → Shard → Shard × Bool
unfolding evict
allow_in_shard s q m = elim (lookup q.key m) [
  | some counter ↦ let asked = allow q.now counter in (insert q.key asked.0 m, asked.1)
  | none ↦
      let asked = allow q.now (new s.rate s.window) in
      (insert q.key asked.0 (evict s.max_keys q.random m), asked.1)
]

unfoldable pub reset_all : RateLimiterStore → RateLimiterStore
reset_all s = record s { shards = map (λ _. []) s.shards }

module _ (hash : String → ℕ) where
  unfoldable pub store_index : RateLimiterStore → String → Option ℕ
  store_index s key = if s.num_shards == 0 then none else some (hash key % s.num_shards)

  unfoldable pub store_allow : RateLimiterStore → Request → Option (RateLimiterStore × Bool)
  unfolding store_index allow_in_shard
  store_allow s q = do
    i ← store_index s q.key
    m ← get_elem? s.shards i
    let asked = allow_in_shard s q m
    some (record s { shards = set s.shards i asked.0 }, asked.1)

  unfoldable pub get_count : RateLimiterStore → String → ℕ → Option ℕ
  unfolding store_index
  get_count s key now = do
    i ← store_index s key
    m ← get_elem? s.shards i
    elim (lookup key m) [ none ↦ some 0 | some counter ↦ some (count now counter) ]

  unfoldable pub reset_key : RateLimiterStore → String → ℕ → Option RateLimiterStore
  unfolding store_index
  reset_key s key now = do
    i ← store_index s key
    m ← get_elem? s.shards i
    elim (lookup key m) [
      | none ↦ some s
      | some counter ↦
          some (record s { shards = set s.shards i (insert key (reset now counter) m) })
    ]

  -- Requests one after another.
  unfoldable pub serve : RateLimiterStore → List Request → Option RateLimiterStore
  serve s [] = some s
  serve s (q ∷ qs) = do (s', allowed) ← store_allow s q; serve s' qs
