-- ===== src/Window/Capacity.antt =====
-- crates/himadri-plugins/src/rate_limit.rs, `RateLimiterStore`: its size, and what a request changes.
use mathlib.Core.Path.{subst}
use text.Mathlib.Text.{◌==◌ as str_eq}
use himadri.Common.{
  ℕ, zero, suc, ◌%◌, ◌≤◌, ◌<◌, ◌≡◌, ◌≢◌, ◌⊎◌, inl, inr, refl, ap, ◌∙◌, String, Bool, true, ◌&&◌,
  List, [], ◌∷◌, Option, none, some, arith, ltb, leb, length, get_elem?, set, lookup, insert,
  eq_iff, eq_refl, All, set-All, get_elem?-All, get_elem?-some, length-set, lookup-insert,
  lookup-remove, length-insert_new, length-insert_old, length-remove-lt, Option-cases, Bool-cases,
}
use himadri.Window.Counter.{FixedWindowCounter, new, allow}
use himadri.Window.Store.{
  Shard, RateLimiterStore, empty_maps, new_store, Request, evict, allow_in_shard, store_index,
  store_allow, serve,
}

evict-room :
    (max_keys random : ℕ) (m : Shard)
    → 0 < max_keys
    → length m ≤ max_keys
    → suc (length (evict max_keys random m)) ≤ max_keys
unfolding evict
evict-room max_keys random m pos le = elim (Bool-cases (leb max_keys (length m))) [
  | inr room ↦ ground arith
  | inl full ↦
      let at_limit : max_keys ≤ length m = ground arith in
      let below : random % length m < length m = omega arith in
      let ((k, c), found) = get_elem?-some m (random % length m) below in
      let shorter = length-remove-lt m (random % length m) found in
      let asked : (ltb 0 max_keys && leb max_keys (length m)) ≡ true = ground arith in
      rw (asked, found) (omega arith)
]

lookup-evict :
    (max_keys random : ℕ) (m : Shard) (j : String)
    → (lookup j (evict max_keys random m) ≡ lookup j m)
      ⊎ (lookup j (evict max_keys random m) ≡ none)
unfolding evict
lookup-evict max_keys random m j = elim (Bool-cases (ltb 0 max_keys && leb max_keys (length m))) [
  | inr room ↦ inl (rw room)
  | inl full ↦ elim (Option-cases (get_elem? m (random % length m))) [
    | inl missing ↦ inl (rw (full, missing))
    | inr ((k, c), found) ↦ elim (Bool-cases (str_eq k j)) [
      | inl gone ↦ inr (rw (full, found, lookup-remove k j m, gone))
      | inr kept ↦ inl (rw (full, found, lookup-remove k j m, kept))
    ]
  ]
]

-- The counter that a request asks.
abbrev pub counter_for : RateLimiterStore → Option FixedWindowCounter → FixedWindowCounter
counter_for s none = new s.rate s.window
counter_for s (some counter) = counter

-- A request is answered by the counter of its key, or a new one if there is none, which the shard
-- then holds; the counter of any other key stays as it was or is evicted, and it is evicted only by
-- a request for a key that had no counter.
pub allow_in_shard_lem :
    (s : RateLimiterStore) (q : Request) (m : Shard)
    → ((allow_in_shard s q m).1 ≡ (allow q.now (counter_for s (lookup q.key m))).1)
      × (lookup q.key (allow_in_shard s q m).0
          ≡ some (allow q.now (counter_for s (lookup q.key m))).0)
      × ((j : String)
          → q.key ≢ j
          → (lookup j (allow_in_shard s q m).0 ≡ lookup j m)
            ⊎ ((lookup q.key m ≡ none) × (lookup j (allow_in_shard s q m).0 ≡ none)))
unfolding allow_in_shard
allow_in_shard_lem s q m = elim (Option-cases (lookup q.key m)) [
  | inl absent ↦
      let c = (allow q.now (new s.rate s.window)).0 in
      let kept = evict s.max_keys q.random m in
      rw (absent, allow_in_shard)
        (
          refl,
          lookup-insert q.key q.key c kept ∙ rw (eq_refl q.key),
          λ j ne.
              let same : lookup j (insert q.key c kept) ≡ lookup j kept =
                ground (arith, lookup-insert q.key j c kept, eq_iff q.key j) in
              elim (lookup-evict s.max_keys q.random m j) [
                | inl e ↦ inl (same ∙ e)
                | inr e ↦ inr (refl, same ∙ e)
              ],
        )
  | inr (counter, present) ↦
      let c = (allow q.now counter).0 in
      rw (present, allow_in_shard)
        (
          refl,
          lookup-insert q.key q.key c m ∙ rw (eq_refl q.key),
          λ j ne. inl (ground (arith, lookup-insert q.key j c m, eq_iff q.key j)),
        )
]

length-allow_in_shard :
    (s : RateLimiterStore) (q : Request) (m : Shard)
    → 0 < s.max_keys
    → length m ≤ s.max_keys
    → length (allow_in_shard s q m).0 ≤ s.max_keys
unfolding allow_in_shard
length-allow_in_shard s q m pos le = elim (Option-cases (lookup q.key m)) [
  | inl absent ↦
      let kept = evict s.max_keys q.random m in
      let c = (allow q.now (new s.rate s.window)).0 in
      rw (absent, allow_in_shard)
        (omega (arith, length-insert_new q.key c kept, evict-room s.max_keys q.random m pos le))
  | inr (counter, present) ↦
      rw (present, allow_in_shard)
        (omega (arith, length-insert_old q.key (allow q.now counter).0 m present))
]

-- A store with shards and a cap, no shard of which is above the cap.
pub record IsCapped (s : RateLimiterStore) : Type 0 where
  pub some_shard : 0 < s.num_shards
  pub all_shards : length s.shards ≡ s.num_shards
  pub cap : 0 < s.max_keys
  pub within : All (λ m. length m ≤ s.max_keys) s.shards

module _ (hash : String → ℕ) where
  pub store_allow-IsCapped :
      (s : RateLimiterStore) (q : Request)
      → IsCapped s
      → (s' : RateLimiterStore) × (allowed : Bool) × (store_allow hash s q ≡ some (s', allowed))
        × IsCapped s'
        × (s'.max_keys ≡ s.max_keys)
  unfolding store_allow store_index
  store_allow-IsCapped s q v =
      let i = hash q.key % s.num_shards in
      let positive = v.some_shard in
      let in_range : i < length s.shards = omega (arith, v.all_shards) in
      let (m, found) = get_elem?-some s.shards i in_range in
      let indexed : store_index hash s q.key ≡ some i = ground arith in
      let asked = allow_in_shard s q m in
      let below = get_elem?-All (λ m. length m ≤ s.max_keys) s.shards i found v.within in
      (
        record s { shards = set s.shards i asked.0 },
        asked.1,
        rw (indexed, found, store_allow),
        record {
          some_shard = v.some_shard;
          all_shards = length-set s.shards i asked.0 ∙ v.all_shards;
          cap = v.cap;
          within =
              set-All (λ m. length m ≤ s.max_keys) s.shards i asked.0
                (length-allow_in_shard s q m v.cap below) v.within;
        },
        refl,
      )

  serve-IsCapped :
      (s : RateLimiterStore) (qs : List Request)
      → IsCapped s
      → (s' : RateLimiterStore) × (serve hash s qs ≡ some s')
        × IsCapped s'
        × (s'.max_keys ≡ s.max_keys)
  unfolding serve
  serve-IsCapped s [] v = (s, refl, v, refl)
  serve-IsCapped s (q ∷ qs) v =
      let (s1, allowed, run, v1, same) = store_allow-IsCapped s q v in
      let (s2, run2, v2, same2) = serve-IsCapped s1 qs v1 in (s2, rw run run2, v2, same2 ∙ same)

pub empty_maps-IsCapped :
    (max_keys n : ℕ) → (length (empty_maps n) ≡ n) × All (λ m. length m ≤ max_keys) (empty_maps n)
unfolding empty_maps
empty_maps-IsCapped max_keys zero = (refl, tt)
empty_maps-IsCapped max_keys (suc n) =
    let (same, within) = empty_maps-IsCapped max_keys n in (ap suc same, (omega arith, within))

-- A new store with shards and a cap serves every sequence of requests without a panic, whatever
-- clock readings and random numbers come with them, and no shard ever holds more keys than the cap.
pub serve-new_store :
    (hash : String → ℕ) (rate window max_keys num_shards : ℕ) (qs : List Request)
    → 0 < max_keys
    → 0 < num_shards
    → (s : RateLimiterStore) × (serve hash (new_store rate window max_keys num_shards) qs ≡ some s)
      × All (λ m. length m ≤ max_keys) s.shards
unfolding new_store
serve-new_store hash rate window max_keys num_shards qs cap some_shard =
    let (all_shards, within) = empty_maps-IsCapped max_keys num_shards in
    let (s, run, v, same) =
      serve-IsCapped hash (new_store rate window max_keys num_shards) qs
        (record { some_shard = some_shard; all_shards = all_shards; cap = cap; within = within }) in
    (s, run, subst (λ c. All (λ m. length m ≤ c) s.shards) same v.within)
