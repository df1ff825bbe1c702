-- ===== src/Policy/RateLimits.antt =====
-- crates/himadri/src/gateway/policy.rs, `check_rate_limits`: the global bucket, then the API key's,
-- then the organisation's. Each check has its own readings of the clock.
use mathlib.Core.Path.{subst}
use himadri.Limiter.Bucket.{allow}
use himadri.Common.{
  ℕ, ◌≡◌, ◌≢◌, ◌⊎◌, inl, inr, refl, ap, ◌∙◌, String, Bool, true, false, not, Option, none, some,
  if◌then◌else◌, lookup, ◌>>=◌, unwrap_or, arith, eq_iff, Bool-cases, Option-cases,
}
use himadri.Types.{AuthContext, RateLimitOverride}
use himadri.Errors.{rate_limited}
use himadri.Limiter.Store.{
  Readings, bucket_of, RateLimiter, entity_key, check_global, check_entity, check_key, check_org,
  bucket_for,
}
use himadri.Limiter.Isolation.{IsReady, allow_with_params-put}
use himadri.Policy.Config.{RateLimitConfig, Config}
use himadri.Policy.Checks.{Result, ok, err}

-- The limiter after the checks, and their answer; `none` is a panic of the limiter.
abbrev pub Limited : Type 0
Limited = Option (RateLimiter × Bool)

abbrev pub override_rate : Option RateLimitOverride → Option ℕ
override_rate none = none
override_rate (some o) = o.requests_per_second

abbrev pub override_burst : Option RateLimitOverride → Option ℕ
override_burst none = none
override_burst (some o) = o.burst_size

-- The rate limit of an organisation, if it is configured and enabled.
unfoldable pub org_limit : Config → String → Option RateLimitConfig
org_limit config org_id = do
  org ← lookup org_id config.orgs
  limit ← org.rate_limit
  if limit.enabled then some limit else none

-- One check after another: the first that refuses ends the request.
abbrev pub and_then : Limited → (RateLimiter → Limited) → Limited
and_then none next = none
and_then (some (l, false)) next = some (l, false)
and_then (some (l, true)) next = next l

abbrev pub answer : Limited → Option (RateLimiter × Result (Unit {0}))
answer none = none
answer (some (l, false)) = some (l, err (rate_limited 1))
answer (some (l, true)) = some (l, ok tt)

module _ (hash : String → ℕ) {F : Type 0} where
  unfoldable pub limit_key : AuthContext F → Readings → RateLimiter → Limited
  limit_key auth t l = elim auth.key_id [
    | none ↦ some (l, true)
    | some id ↦
        check_key hash l id (override_rate auth.rate_limit_override)
          (override_burst auth.rate_limit_override) t
  ]

  unfoldable pub limit_org : AuthContext F → Config → Readings → RateLimiter → Limited
  unfolding org_limit
  limit_org auth config t l = elim auth.org_id [
    | none ↦ some (l, true)
    | some id ↦ elim (org_limit config id) [
      | none ↦ some (l, true)
      | some limit ↦ check_org hash l id (some limit.requests_per_second) (some limit.burst_size) t
    ]
  ]

  unfoldable pub limit_principal :
      Option (AuthContext F) → Config → Readings → Readings → RateLimiter → Limited
  unfolding limit_key limit_org
  limit_principal none config t u l = some (l, true)
  limit_principal (some auth) config t u l = and_then (limit_key auth t l) (limit_org auth config u)

  unfoldable pub check_rate_limits :
      Option (AuthContext F)
      → Config
      → Readings
      → Readings
      → Readings
      → RateLimiter
      → Option (RateLimiter × Result (Unit {0}))
  unfolding limit_principal
  check_rate_limits auth config t u v l =
      if not config.rate_limit.enabled
      then some (l, ok tt)
      else answer (and_then (check_global hash l t) (limit_principal auth config u v))

-- What a check leaves as it was: every entity's bucket but those of the keys in `only`, and every bucket of
-- the global store but the one of its key.
pub record Keeps (hash : String → ℕ) (only : String → Type 0) (l l' : RateLimiter) : Type 0 where
  pub ready : IsReady l'.per_entity
  pub global_ready : IsReady l'.global
  pub others :
      (j : String) → ¬ only j → bucket_of hash l'.per_entity j ≡ bucket_of hash l.per_entity j
  pub other_global :
      (j : String) → "global" ≢ j → bucket_of hash l'.global j ≡ bucket_of hash l.global j

-- The check answers, and keeps the rest.
abbrev pub Answers : (String → ℕ) → (String → Type 0) → RateLimiter → Limited → Type 0
Answers hash only l r =
    (l' : RateLimiter) × (verdict : Bool) × (r ≡ some (l', verdict)) × Keeps hash only l l'

module _ (hash : String → ℕ) {only : String → Type 0} where
  Answers-unchanged :
      (l : RateLimiter)
      → IsReady l.per_entity
      → IsReady l.global
      → Answers hash only l (some (l, true))
  Answers-unchanged l v g = (
    l,
    true,
    refl,
    record { ready = v; global_ready = g; others = λ j no. refl; other_global = λ j ne. refl },
  )

  check_entity-Answers :
      (l : RateLimiter) (kind id : String) (rate burst : Option ℕ) (t : Readings)
      → IsReady l.per_entity
      → IsReady l.global
      → only (entity_key kind id)
      → Answers hash only l (check_entity hash l kind id rate burst t)
  unfolding check_entity
  check_entity-Answers l kind id rate burst t v g named =
      let r = unwrap_or rate l.default_rate in
      let b = unwrap_or burst l.default_burst in
      let (e, run, ready, law) =
        allow_with_params-put hash l.per_entity (entity_key kind id) r b t v in
      (
        record l { per_entity = e },
        (allow t.used
            (bucket_for t.created r b (bucket_of hash l.per_entity (entity_key kind id)))).1,
        rw run,
        record {
          ready = ready;
          global_ready = g;
          others = λ j no.
              let other : entity_key kind id ≢ j = λ e. no (subst only e named) in
              ground (arith, law j, eq_iff (entity_key kind id) j);
          other_global = λ j ne. refl;
        },
      )

  and_then-Answers :
      (l : RateLimiter) (first : Limited) (next : RateLimiter → Limited)
      → Answers hash only l first
      → ((l' : RateLimiter) → Keeps hash only l l' → Answers hash only l' (next l'))
      → Answers hash only l (and_then first next)
  and_then-Answers l first next (l', false, run, kept) later = rw run (l', false, refl, kept)
  and_then-Answers l first next (l', true, run, kept) later =
      let (l'', verdict, run', kept') = later l' kept in
      rw run (
        l'',
        verdict,
        run',
        record {
          ready = kept'.ready;
          global_ready = kept'.global_ready;
          others = λ j no. kept'.others j no ∙ kept.others j no;
          other_global = λ j ne. kept'.other_global j ne ∙ kept.other_global j ne;
        },
      )

  check_global-Answers :
      (l : RateLimiter) (t : Readings)
      → IsReady l.per_entity
      → IsReady l.global
      → Answers hash only l (check_global hash l t)
  unfolding check_global
  check_global-Answers l t v g =
      let (s, run, ready, law) =
        allow_with_params-put hash l.global "global" l.default_rate l.default_burst t g in
      (
        record l { global = s },
        (allow t.used (
            bucket_for t.created l.default_rate l.default_burst
              (bucket_of hash l.global "global"))).1,
        rw run,
        record {
          ready = v;
          global_ready = ready;
          others = λ j no. refl;
          other_global = λ j ne. ground (arith, law j, eq_iff "global" j);
        },
      )

-- The buckets that belong to a principal: its API key's and its organisation's.
abbrev pub Own : {F : Type 0} → Option (AuthContext F) → String → Type 0
Own none j = ⊥
Own (some auth) j =
    ((id : String) × (auth.key_id ≡ some id) × (entity_key "key" id ≡ j))
    ⊎ ((id : String) × (auth.org_id ≡ some id) × (entity_key "org" id ≡ j))

answer-cases :
    (l : RateLimiter) (verdict : Bool)
    → (r : Result (Unit {0})) × (answer (some (l, verdict)) ≡ some (l, r))
      × ((r ≡ ok tt) ⊎ (r ≡ err (rate_limited 1)))
answer-cases l true = (ok tt, refl, inl refl)
answer-cases l false = (err (rate_limited 1), refl, inr refl)

module _ (hash : String → ℕ) {F : Type 0} where
  limit_key-Answers :
      {only : String → Type 0} (auth : AuthContext F) (t : Readings) (l : RateLimiter)
      → ((id : String) → auth.key_id ≡ some id → only (entity_key "key" id))
      → IsReady l.per_entity
      → IsReady l.global
      → Answers hash only l (limit_key hash auth t l)
  unfolding limit_key check_key
  limit_key-Answers auth t l named v g = elim (Option-cases auth.key_id) [
    | inl e ↦ rw (e, limit_key) (Answers-unchanged hash l v g)
    | inr (id, e) ↦
        rw (e, limit_key)
          (check_entity-Answers hash l "key" id (override_rate auth.rate_limit_override)
            (override_burst auth.rate_limit_override) t v g (named id e))
  ]

  limit_org-Answers :
      {only : String → Type 0} (auth : AuthContext F) (config : Config) (t : Readings)
      (l : RateLimiter)
      → ((id : String) → auth.org_id ≡ some id → only (entity_key "org" id))
      → IsReady l.per_entity
      → IsReady l.global
      → Answers hash only l (limit_org hash auth config t l)
  unfolding limit_org check_org
  limit_org-Answers auth config t l named v g = elim (Option-cases auth.org_id) [
    | inl e ↦ rw (e, limit_org) (Answers-unchanged hash l v g)
    | inr (id, e) ↦ elim (Option-cases (org_limit config id)) [
      | inl off ↦ rw (e, limit_org, off) (Answers-unchanged hash l v g)
      | inr (limit, on) ↦
          rw (e, limit_org, on)
            (check_entity-Answers hash l "org" id (some limit.requests_per_second)
              (some limit.burst_size) t v g (named id e))
    ]
  ]

  limit_principal-Answers :
      (auth : Option (AuthContext F)) (config : Config) (t u : Readings) (l : RateLimiter)
      → IsReady l.per_entity
      → IsReady l.global
      → Answers hash (Own auth) l (limit_principal hash auth config t u l)
  unfolding limit_principal
  limit_principal-Answers none config t u l v g = Answers-unchanged hash l v g
  limit_principal-Answers (some auth) config t u l v g =
      and_then-Answers hash l (limit_key hash auth t l) (limit_org hash auth config u)
        (limit_key-Answers auth t l (λ id e. inl (id, e, refl)) v g)
        λ l' kept.
          limit_org-Answers auth config u l' (λ id e. inr (id, e, refl)) kept.ready
            kept.global_ready

  check_rate_limits-if :
      (auth : Option (AuthContext F)) (config : Config) (t u v : Readings) (l : RateLimiter)
      {enabled : Bool}
      → config.rate_limit.enabled ≡ enabled
      → check_rate_limits hash auth config t u v l ≡ (
          if not enabled
          then some (l, ok tt)
          else answer (and_then (check_global hash l t) (limit_principal hash auth config u v)))
  unfolding check_rate_limits
  check_rate_limits-if auth config t u v l e =
      ap
        (λ b.
          if not b
          then some (l, ok tt)
          else answer (and_then (check_global hash l t) (limit_principal hash auth config u v)))
        e

  -- With both stores ready, the rate limits of a request are always decided: the request passes or
  -- is refused as rate limited for one second, the stores stay ready, and no bucket changes but the one
  -- of the global store's key "global" and those of the principal's own API key and organisation.
  pub check_rate_limits_lem :
      (auth : Option (AuthContext F)) (config : Config) (t u v : Readings) (l : RateLimiter)
      → IsReady l.per_entity
      → IsReady l.global
      → (l' : RateLimiter) × (r : Result (Unit {0})) × (check_rate_limits hash auth config t u v l
          ≡ some (l', r))
        × ((r ≡ ok tt) ⊎ (r ≡ err (rate_limited 1)))
        × Keeps hash (Own auth) l l'
  check_rate_limits_lem auth config t u v l ready global_ready =
      elim (Bool-cases config.rate_limit.enabled) [
        | inr off ↦ (
          l,
          ok tt,
          check_rate_limits-if auth config t u v l off,
          inl refl,
          record {
            ready = ready;
            global_ready = global_ready;
            others = λ j no. refl;
            other_global = λ j ne. refl;
          },
        )
        | inl on ↦
            let (l', verdict, run, kept) =
              and_then-Answers hash l (check_global hash l t) (limit_principal hash auth config u v)
                (check_global-Answers hash l t ready global_ready)
                (λ m kept.
                  limit_principal-Answers auth config u v m kept.ready kept.global_ready) in
            let (r, answered, shape) = answer-cases l' verdict in
            (
              l',
              r,
              check_rate_limits-if auth config t u v l on ∙ (ap answer run ∙ answered),
              shape,
              kept,
            )
      ]
