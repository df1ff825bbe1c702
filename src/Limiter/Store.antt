-- ===== src/Limiter/Store.antt =====
-- crates/himadri-ratelimit/src/token_bucket.rs, `ShardedRateLimiter`, and src/lib.rs, `RateLimiter`.
-- The hash (ahash's `AHasher`) is a parameter. `none` is a panic: no shard, or an index out of range.
-- The clock is read when a bucket is made and again when it is asked; both readings are arguments.
use Prim.Native.String.{◌++◌}
use himadri.Common.{
  ℕ, zero, suc, ◌%◌, String, Bool, ◌&&◌, List, [], ◌∷◌, Option, none, some, ◌==◌, if◌then◌else◌,
  get_elem?, set, lookup, insert, ◌>>=◌, unwrap_or, map,
}
use himadri.Limiter.Bucket.{TokenBucket, new, allow}

-- The readings of one call: at the creation of a bucket, and at its use.
pub record Readings : Type 0 where
  pub created : ℕ
  pub used : ℕ

abbrev pub Shard : Type 0
Shard = List (String × TokenBucket)

pub record ShardedRateLimiter : Type 0 where
  pub shards : List Shard
  pub num_shards : ℕ
  pub rate : ℕ
  pub capacity : ℕ

abbrev pub empty_shards : ℕ → List Shard
empty_shards zero = []
empty_shards (suc n) = [] ∷ empty_shards n

unfoldable pub new_sharded : ℕ → ℕ → ℕ → ShardedRateLimiter
new_sharded rate capacity num_shards = record {
  shards = empty_shards num_shards;
  num_shards = num_shards;
  rate = rate;
  capacity = capacity;
}

-- The bucket that a call uses, on the fast path and on the slow path: the one stored under the key,
-- if it has the parameters asked for, and a new one otherwise.
unfoldable pub bucket_for : ℕ → ℕ → ℕ → Option TokenBucket → TokenBucket
bucket_for created rate capacity none = new created rate capacity
bucket_for created rate capacity (some b) =
    if b.rate == rate && b.capacity == capacity then b else new created rate capacity

unfoldable pub clear : ShardedRateLimiter → ShardedRateLimiter
clear s = record s { shards = map (λ _. []) s.shards }

module _ (hash : String → ℕ) where
  unfoldable pub shard_index : ShardedRateLimiter → String → Option ℕ
  shard_index s key = if s.num_shards == 0 then none else some (hash key % s.num_shards)

  unfoldable pub allow_with_params :
      ShardedRateLimiter → String → ℕ → ℕ → Readings → Option (ShardedRateLimiter × Bool)
  unfolding shard_index
  allow_with_params s key rate capacity t = do
    i ← shard_index s key
    shard ← get_elem? s.shards i
    let asked = allow t.used (bucket_for t.created rate capacity (lookup key shard))
    some (record s { shards = set s.shards i (insert key asked.0 shard) }, asked.1)

  unfoldable pub allow_key :
      ShardedRateLimiter → String → Readings → Option (ShardedRateLimiter × Bool)
  unfolding allow_with_params
  allow_key s key t = allow_with_params s key s.rate s.capacity t

  -- The bucket stored under a key.
  unfoldable pub bucket_of : ShardedRateLimiter → String → Option TokenBucket
  unfolding shard_index
  bucket_of s key = do i ← shard_index s key; shard ← get_elem? s.shards i; lookup key shard

pub record RateLimiter : Type 0 where
  pub global : ShardedRateLimiter
  pub per_entity : ShardedRateLimiter
  pub default_rate : ℕ
  pub default_burst : ℕ

unfoldable pub new_limiter : ℕ → ℕ → RateLimiter
unfolding new_sharded
new_limiter rate burst = record {
  global = new_sharded rate burst 64;
  per_entity = new_sharded rate burst 64;
  default_rate = rate;
  default_burst = burst;
}

unfoldable pub set_defaults : ℕ → ℕ → RateLimiter → RateLimiter
set_defaults rate burst l = record l { default_rate = rate; default_burst = burst }

unfoldable pub clear_limiter : RateLimiter → RateLimiter
unfolding clear
clear_limiter l = record l { global = clear l.global; per_entity = clear l.per_entity }

-- `format!("{prefix}:{id}")`
abbrev pub entity_key : String → String → String
entity_key kind id = (kind ++ ":") ++ id

module _ (hash : String → ℕ) where
  unfoldable pub check_global : RateLimiter → Readings → Option (RateLimiter × Bool)
  check_global l t = do
    (g, ok) ← allow_with_params hash l.global "global" l.default_rate l.default_burst t
    some (record l { global = g }, ok)

  unfoldable pub check_entity :
      RateLimiter → String → String → Option ℕ → Option ℕ → Readings → Option (RateLimiter × Bool)
  check_entity l kind id rate burst t = do
    let r = unwrap_or rate l.default_rate
    let b = unwrap_or burst l.default_burst
    (e, ok) ← allow_with_params hash l.per_entity (entity_key kind id) r b t
    some (record l { per_entity = e }, ok)

  unfoldable pub check_org :
      RateLimiter → String → Option ℕ → Option ℕ → Readings → Option (RateLimiter × Bool)
  unfolding check_entity
  check_org l id rate burst t = check_entity l "org" id rate burst t

  unfoldable pub check_key :
      RateLimiter → String → Option ℕ → Option ℕ → Readings → Option (RateLimiter × Bool)
  unfolding check_entity
  check_key l id rate burst t = check_entity l "key" id rate burst t
