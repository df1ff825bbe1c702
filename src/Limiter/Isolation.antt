-- ===== src/Limiter/Isolation.antt =====
-- crates/himadri-ratelimit: when a check answers, and which buckets it touches.
use Prim.Native.String.{◌++◌}
use Prim.Native.Char.{Char, code}
use text.Mathlib.TextLemmas.{append_cancel_left, cons-append}
use native.Mathlib.Decide.{ℕ_discrete}
use mathlib.Core.Option.{some-injective}
use himadri.Common.{
  ℕ, ◌%◌, ◌<◌, ◌≡◌, ◌≢◌, refl, sym, ap, ◌∙◌, String, Bool, List, some, arith, if◌then◌else◌,
  get_elem?, set, lookup, insert, unwrap_or, length, length-set, get_elem?-some, get_elem?-set_self,
  get_elem?-set_ne, lookup-insert, eq_iff, eq_refl, ◌⊎◌, inl, inr, ◌&&◌, ◌==◌, Option, none,
  Bool-cases,
}
use text.Mathlib.Text.{◌==◌ as str_eq}
use himadri.Limiter.Bucket.{TokenBucket, new, allow}
use himadri.Limiter.Store.{
  Readings, ShardedRateLimiter, shard_index, bucket_for, allow_with_params, bucket_of, RateLimiter,
  entity_key, check_key,
}

-- As many shards as the index is taken over.
pub record IsReady (s : ShardedRateLimiter) : Type 0 where
  pub some_shard : 0 < s.num_shards
  pub all_shards : length s.shards ≡ s.num_shards

-- The stored bucket serves a call if it has the parameters asked for; with no such bucket a new one does.
abbrev pub Serves : (created rate capacity : ℕ) → Option TokenBucket → TokenBucket → Type 0
Serves created rate capacity stored b =
    ((stored ≡ some b) × (b.rate ≡ rate) × (b.capacity ≡ capacity))
    ⊎ (((old : TokenBucket) → stored ≡ some old → ¬ ((old.rate ≡ rate) × (old.capacity ≡ capacity)))
        × (b ≡ record {
          tokens = capacity;
          last_refill = created;
          rate = rate;
          capacity = capacity;
        }))

bucket_for-Serves :
    (created rate capacity : ℕ) (stored : Option TokenBucket)
    → Serves created rate capacity stored (bucket_for created rate capacity stored)
unfolding bucket_for new
bucket_for-Serves created rate capacity none = inr (λ old h. cc, refl)
bucket_for-Serves created rate capacity (some b) =
    elim (Bool-cases (b.rate == rate && b.capacity == capacity)) [
      | inl e ↦ rw e (inl (refl, ground arith, ground arith))
      | inr e ↦ rw e (
          inr (
            λ old h same.
                let p = some-injective b old h in
                ground (arith, same, ap (λ x. x.rate) p, ap (λ x. x.capacity) p),
            refl,
          ))
    ]

module _ (hash : String → ℕ) where
  -- The shard of a key, and the index of it.
  record At (s : ShardedRateLimiter) (key : String) : Type 0 where
    index : ℕ
    shard : List (String × TokenBucket)
    indexed : shard_index hash s key ≡ some index
    found : get_elem? s.shards index ≡ some shard
    below : index < length s.shards
    hashed : index ≡ hash key % s.num_shards

  at : (s : ShardedRateLimiter) (key : String) → IsReady s → At s key
  unfolding shard_index
  at s key v =
      let i = hash key % s.num_shards in
      let positive = v.some_shard in
      let in_range : i < length s.shards = omega arith in
      let (shard, found) = get_elem?-some s.shards i in_range in
      record {
        index = i;
        shard = shard;
        indexed = ground arith;
        found = found;
        below = in_range;
        hashed = refl;
      }

  bucket_of-At :
      (s : ShardedRateLimiter) (key : String) (a : At s key)
      → bucket_of hash s key ≡ lookup key a.shard
  unfolding bucket_of
  bucket_of-At s key a = rw (a.indexed, a.found)

  -- The store with one shard replaced by that shard with a bucket put in.
  abbrev put : (s : ShardedRateLimiter) (key : String) → At s key → TokenBucket → ShardedRateLimiter
  put s key a b = record s { shards = set s.shards a.index (insert key b a.shard) }

  put-IsReady :
      (s : ShardedRateLimiter) (key : String) (a : At s key) (b : TokenBucket)
      → IsReady s
      → IsReady (put s key a b)
  put-IsReady s key a b v = record {
    some_shard = v.some_shard;
    all_shards = length-set s.shards a.index (insert key b a.shard) ∙ v.all_shards;
  }

  -- The shard of a key after the write, where the written shard is found there.
  At-put :
      (s : ShardedRateLimiter) (key j : String) (a : At s key) (c : At s j) (b : TokenBucket)
      (shard : List (String × TokenBucket))
      → get_elem? (set s.shards a.index (insert key b a.shard)) c.index ≡ some shard
      → bucket_of hash (put s key a b) j ≡ lookup j shard
  unfolding shard_index
  At-put s key j a c b shard found = bucket_of-At (put s key a b) j (record {
    index = c.index;
    shard = shard;
    indexed = c.indexed;
    found = found;
    below = omega (arith, length-set s.shards a.index (insert key b a.shard), c.below);
    hashed = c.hashed;
  })

  bucket_of-put :
      (s : ShardedRateLimiter) (key j : String) (a : At s key) (c : At s j) (b : TokenBucket)
      → bucket_of hash (put s key a b) j ≡ (if str_eq key j then some b else bucket_of hash s j)
  bucket_of-put s key j a c b = elim (ℕ_discrete a.index c.index) [
    | yes same ↦ ground (
      arith,
      At-put s key j a c b (insert key b a.shard),
      get_elem?-set_self s.shards a.index (insert key b a.shard),
      lookup-insert key j b a.shard,
      bucket_of-At s j c,
    )
    | no other ↦ ground (
      arith,
      At-put s key j a c b c.shard,
      get_elem?-set_ne s.shards a.index c.index (insert key b a.shard),
      bucket_of-At s j c,
      eq_iff key j,
      ap (λ k. hash k % s.num_shards) {x = key} {y = j},
    )
  ]

  allow_with_params-At :
      (s : ShardedRateLimiter) (key : String) (rate capacity : ℕ) (t : Readings) (a : At s key)
      → let asked : TokenBucket × Bool =
          allow t.used (bucket_for t.created rate capacity (bucket_of hash s key)) in
        allow_with_params hash s key rate capacity t ≡ some (put s key a asked.0, asked.1)
  unfolding allow_with_params
  allow_with_params-At s key rate capacity t a =
      rw (bucket_of-At s key a) (rw (a.indexed, a.found, allow_with_params, shard_index))

  pub allow_with_params-put :
      (s : ShardedRateLimiter) (key : String) (rate capacity : ℕ) (t : Readings)
      → IsReady s
      → let asked : TokenBucket × Bool =
          allow t.used (bucket_for t.created rate capacity (bucket_of hash s key)) in
        (s' : ShardedRateLimiter) × (allow_with_params hash s key rate capacity t
          ≡ some (s', asked.1))
        × IsReady s'
        × ((j : String)
            → bucket_of hash s' j ≡ (if str_eq key j then some asked.0 else bucket_of hash s j))
  allow_with_params-put s key rate capacity t v =
      let a = at s key v in
      let asked : TokenBucket × Bool =
        allow t.used (bucket_for t.created rate capacity (bucket_of hash s key)) in
      (
        put s key a asked.0,
        allow_with_params-At s key rate capacity t a,
        put-IsReady s key a asked.0 v,
        λ j. bucket_of-put s key j a (at s j v) asked.0,
      )

  -- On a store with shards, a check always answers: it asks the bucket that is stored under the key with
  -- the rate and the capacity asked for, or a new one if no such bucket is stored, stores what that bucket
  -- becomes under the key, and leaves the buckets of all other keys as they were.
  pub allow_with_params_lem :
      (s : ShardedRateLimiter) (key : String) (rate capacity : ℕ) (t : Readings)
      → IsReady s
      → (b : TokenBucket) × Serves t.created rate capacity (bucket_of hash s key) b
        × (s' : ShardedRateLimiter) × (allow_with_params hash s key rate capacity t
            ≡ some (s', (allow t.used b).1))
        × IsReady s'
        × (bucket_of hash s' key ≡ some (allow t.used b).0)
        × ((j : String) → key ≢ j → bucket_of hash s' j ≡ bucket_of hash s j)
  allow_with_params_lem s key rate capacity t v =
      let (s', run, ready, law) = allow_with_params-put s key rate capacity t v in
      (
        bucket_for t.created rate capacity (bucket_of hash s key),
        bucket_for-Serves t.created rate capacity (bucket_of hash s key),
        s',
        run,
        ready,
        rw (law key, eq_refl key) refl,
        λ j ne. ground (arith, law j, eq_iff key j),
      )

first : String → ℕ
first String.[] = 0
first (String.◌∷◌ c s) = code c

first-append : (c : Char) (s t : String) → first (String.◌∷◌ c s ++ t) ≡ code c
unfolding first
first-append c s t = rw cons-append

-- The keys of an organisation and of an API key never meet.
entity_key-ne : (o k : String) → entity_key "org" o ≢ entity_key "key" k
entity_key-ne o k e =
    let differ : code "o" ≡ code "k" =
      sym (first-append "o" "rg:" o) ∙ ap first e ∙ first-append "k" "ey:" k in
    omega (arith, differ)

entity_key-injective : (kind a b : String) → entity_key kind a ≡ entity_key kind b → a ≡ b
entity_key-injective kind a b = append_cancel_left (kind ++ ":") a b

module _ (hash : String → ℕ) where
  -- A check of an API key always answers. It leaves the global limiter, the bucket of every
  -- organisation and the buckets of all other API keys as they were.
  pub check_key_lem :
      (l : RateLimiter) (id : String) (rate burst : Option ℕ) (t : Readings)
      → IsReady l.per_entity
      → (l' : RateLimiter) × (ok : Bool) × (check_key hash l id rate burst t ≡ some (l', ok))
        × (l'.global ≡ l.global)
        × ((o : String)
            → bucket_of hash l'.per_entity (entity_key "org" o)
              ≡ bucket_of hash l.per_entity (entity_key "org" o))
        × ((other : String)
            → other ≢ id
            → bucket_of hash l'.per_entity (entity_key "key" other)
              ≡ bucket_of hash l.per_entity (entity_key "key" other))
  unfolding check_key
  check_key_lem l id rate burst t v =
      let r = unwrap_or rate l.default_rate in
      let b = unwrap_or burst l.default_burst in
      let (e, run, ready, law) =
        allow_with_params-put hash l.per_entity (entity_key "key" id) r b t v in
      (
        record l { per_entity = e },
        (allow t.used
            (bucket_for t.created r b (bucket_of hash l.per_entity (entity_key "key" id)))).1,
        rw run,
        refl,
        λ o. ground (
          arith,
          law (entity_key "org" o),
          eq_iff (entity_key "key" id) (entity_key "org" o),
          entity_key-ne o id,
        ),
        λ other ne. ground (
          arith,
          law (entity_key "key" other),
          eq_iff (entity_key "key" id) (entity_key "key" other),
          entity_key-injective "key" id other,
        ),
      )
