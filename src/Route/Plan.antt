-- ===== src/Route/Plan.antt =====
-- crates/himadri/src/gateway/route.rs, `with_failover`: the outcome of a request as it can be read off
-- the state at the start, with no other request meanwhile.
use himadri.Common.{
  ℕ, suc, ◌≡◌, ◌≢◌, ◌⊎◌, inl, inr, refl, ap, ◌∙◌, String, Bool, true, false, List, [], ◌∷◌, Option,
  none, some, arith, lookup, lookup-insert, unwrap_or, eq_iff, Option-cases, All, ◌==◌,
  if◌then◌else◌,
}
use himadri.Types.{Target}
use himadri.Errors.{ProviderError, rate_limited, network, api, provider_retryable}
use himadri.Breaker.{BreakerInner, default_config, allow}
use himadri.Policy.Checks.{Result, ok, err}
use himadri.Route.Targets.{routing_key}
use himadri.Route.Failover.{
  AttemptError, circuit_open, provider_not_found, api_key, provider, Outcome, done, failed, Clock,
  Routing, breaker_of, set_breaker, settle, note_latency, Verdict, skip, stop, judge, execute,
  proceed, attempt, failover_from, with_failover, Run, follow,
}

-- A breaker other than the one that is set.
breaker_of-set_breaker :
    (k j : String) (b : BreakerInner) (r : Routing)
    → k ≢ j
    → breaker_of j (set_breaker k b r) ≡ breaker_of j r
unfolding breaker_of set_breaker
breaker_of-set_breaker k j b r ne =
    ground (arith, lookup-insert k j b r.circuit_breakers, eq_iff k j)

breaker_of-note_latency :
    (j name : String) (ms : ℕ) (r : Routing)
    → breaker_of j (note_latency name ms r) ≡ breaker_of j r
unfolding breaker_of note_latency
breaker_of-note_latency j name ms r = elim (Option-cases r.latency_store) [
  | inl e ↦ rw e
  | inr (s, e) ↦ rw e
]

Result-cases : {A : Type 0} (m : Result A) → ((a : A) × (m ≡ ok a)) ⊎ ((e : _) × (m ≡ err e))
Result-cases (ok a) = inl (a, refl)
Result-cases (err e) = inr (e, refl)

abbrev pub pick :
    {F T : Type 0}
    → Verdict T
    → Target F
    → (AttemptError → Target F × Outcome T AttemptError)
    → Target F × Outcome T AttemptError
pick (skip e) t next = next e
pick (stop o) t next = (t, o)

-- The target and the outcome of a run of the loop.
abbrev pub answer_of : {F T : Type 0} → Run F T → Target F × Outcome T AttemptError
answer_of (r, (t, (o, latency))) = (t, o)

answer_of-follow :
    {F T : Type 0} (v : Verdict T) (r : Routing) (t : Target F) (latency : ℕ)
    (next : AttemptError → Run F T) (g : AttemptError → Target F × Outcome T AttemptError)
    → ((e : AttemptError) → answer_of (next e) ≡ g e)
    → answer_of (follow v r t latency next) ≡ pick v t g
answer_of-follow (skip e) r t latency next g h = h e
answer_of-follow (stop o) r t latency next g h = refl

breaker_of-follow :
    {F T : Type 0} (k : String) (v : Verdict T) (r : Routing) (t : Target F) (latency : ℕ)
    (next : AttemptError → Run F T) {b : BreakerInner}
    → breaker_of k r ≡ b
    → ((e : AttemptError) → breaker_of k (next e).0 ≡ b)
    → breaker_of k (follow v r t latency next).0 ≡ b
breaker_of-follow k (skip e) r t latency next here h = h e
breaker_of-follow k (stop o) r t latency next here h = here

-- The verdict on a call by its outcome: a rate limit, a failure of the network and the statuses 500, 502,
-- 503, 504 and 529 are worth another target, and nothing else is.
abbrev pub passing_statuses : List ℕ
passing_statuses = 500 ∷ 502 ∷ 503 ∷ 504 ∷ 529 ∷ []

abbrev pub is_one_of : List ℕ → ℕ → Bool
is_one_of [] n = false
is_one_of (s ∷ ss) n = if n == s then true else is_one_of ss n

abbrev pub verdict_if : {T : Type 0} → (another : Bool) → ProviderError → Verdict T
verdict_if true e = skip (provider e)
verdict_if false e = stop (failed (provider e))

abbrev pub verdict_on : {T : Type 0} → Outcome T ProviderError → Verdict T
verdict_on (done v) = stop (done v)
verdict_on (failed (rate_limited s)) = verdict_if true (rate_limited s)
verdict_on (failed (network m)) = verdict_if true (network m)
verdict_on (failed (api status m)) = verdict_if (is_one_of passing_statuses status) (api status m)
verdict_on (failed e) = verdict_if false e

status-cases :
    {T : Type 0} (s : ℕ) (m : String)
    → judge {T = T} (failed (api s m)) ≡ verdict_if (is_one_of passing_statuses s) (api s m)
unfolding judge provider_retryable
status-cases s m = ground arith

judge-verdict_on : {T : Type 0} (o : Outcome T ProviderError) → judge o ≡ verdict_on o
unfolding judge provider_retryable
judge-verdict_on (done v) = refl
judge-verdict_on (failed (api status m)) = status-cases status m
judge-verdict_on (failed e) = refl

module _ {F C T : Type 0} (providers : List (String × C)) (key_of : Target F → Result String)
    (op : ℕ → C → String → Outcome T ProviderError) (clock : ℕ → Clock) where
  verdict_by : ℕ → Target F → Bool → Option C → Result String → Verdict T
  verdict_by i t false client secret = skip (circuit_open t.provider)
  verdict_by i t true none secret = skip (provider_not_found t.provider)
  verdict_by i t true (some client) (err e) = skip (api_key e)
  verdict_by i t true (some client) (ok secret) = verdict_on (op i client secret)

  -- The verdict on a target whose breaker is `b`: skipped if the breaker refuses, if there is no
  -- client or no key, or if the call fails in a way that is worth another target; final otherwise.
  unfoldable pub verdict_of : ℕ → Target F → BreakerInner → Verdict T
  unfolding verdict_by
  verdict_of i t b =
      verdict_by i t (allow default_config (clock i).asked b).1 (lookup (routing_key t) providers)
        (key_of t)

  proceed-verdict :
      (i : ℕ) (t : Target F) (r : Routing) (b : BreakerInner) (admitted : Bool) (client : Option C)
      (secret : Result String)
      → (proceed providers key_of op clock i t r b admitted client secret).verdict
        ≡ verdict_by i t admitted client secret
  unfolding proceed execute verdict_by
  proceed-verdict i t r b false client secret = refl
  proceed-verdict i t r b true none secret = refl
  proceed-verdict i t r b true (some client) (err e) = refl
  proceed-verdict i t r b true (some client) (ok secret) = judge-verdict_on (op i client secret)

  attempt-verdict :
      (i : ℕ) (t : Target F) (r : Routing)
      → (attempt providers key_of op clock i t r).verdict
        ≡ verdict_of i t (breaker_of (routing_key t) r)
  unfolding attempt verdict_of
  attempt-verdict i t r =
      let asked = allow default_config (clock i).asked (breaker_of (routing_key t) r) in
      proceed-verdict i t (set_breaker (routing_key t) asked.0 r) asked.0 asked.1
        (lookup (routing_key t) providers) (key_of t)

  proceed-other :
      (i : ℕ) (t : Target F) (r : Routing) (b : BreakerInner) (admitted : Bool) (client : Option C)
      (secret : Result String) (k : String)
      → routing_key t ≢ k
      → breaker_of k (proceed providers key_of op clock i t r b admitted client secret).routing
        ≡ breaker_of k r
  unfolding proceed execute
  proceed-other i t r b false client secret k ne = refl
  proceed-other i t r b true none secret k ne = refl
  proceed-other i t r b true (some client) (err e) k ne = refl
  proceed-other i t r b true (some client) (ok secret) k ne =
      let b' = settle (clock i).failed_at (op i client secret) b in
      breaker_of-note_latency k t.provider (clock i).latency_ms (set_breaker (routing_key t) b' r)
      ∙ breaker_of-set_breaker (routing_key t) k b' r ne

  attempt-other :
      (i : ℕ) (t : Target F) (r : Routing) (k : String)
      → routing_key t ≢ k
      → breaker_of k (attempt providers key_of op clock i t r).routing ≡ breaker_of k r
  unfolding attempt
  attempt-other i t r k ne =
      let asked = allow default_config (clock i).asked (breaker_of (routing_key t) r) in
      proceed-other i t (set_breaker (routing_key t) asked.0 r) asked.0 asked.1
        (lookup (routing_key t) providers) (key_of t) k ne
      ∙ breaker_of-set_breaker (routing_key t) k asked.0 r ne

  -- The first target that is not skipped and its outcome, or the last target and why it was skipped,
  -- when every breaker is as `r` has it.
  unfoldable pub first_final :
      Routing → ℕ → Target F → List (Target F) → Target F × Outcome T AttemptError
  first_final r i t [] = pick (verdict_of i t (breaker_of (routing_key t) r)) t (λ e. (t, failed e))
  first_final r i t (u ∷ us) =
      let later = first_final r (suc i) u us in
      pick (verdict_of i t (breaker_of (routing_key t) r)) t (λ e. later)

  -- Two states that agree on the breakers of the targets.
  abbrev Agree : Routing → Routing → List (Target F) → Type 0
  Agree r s ts = All (λ u. breaker_of (routing_key u) r ≡ breaker_of (routing_key u) s) ts

  -- No two targets of the list have the same key.
  abbrev pub KeysDiffer : List (Target F) → Type 0
  KeysDiffer [] = Unit
  KeysDiffer (t ∷ ts) = All (λ u. routing_key t ≢ routing_key u) ts × KeysDiffer ts

  Agree-after :
      (i : ℕ) (t : Target F) (ts : List (Target F)) (r s : Routing)
      → All (λ u. routing_key t ≢ routing_key u) ts
      → Agree r s ts
      → Agree (attempt providers key_of op clock i t r).routing s ts
  Agree-after i t [] r s d h = tt
  Agree-after i t (u ∷ us) r s (ne, d) (same, h) =
      (attempt-other i t r (routing_key u) ne ∙ same, Agree-after i t us r s d h)

  failover_from-first_final :
      (i latency : ℕ) (t : Target F) (ts : List (Target F)) (r s : Routing)
      → KeysDiffer (t ∷ ts)
      → Agree r s (t ∷ ts)
      → answer_of (failover_from providers key_of op clock i latency t ts r) ≡ first_final s i t ts
  unfolding failover_from first_final
  failover_from-first_final i latency t [] r s d (here, agree) =
      let a = attempt providers key_of op clock i t r in
      answer_of-follow a.verdict a.routing t (unwrap_or a.latency latency)
        (λ e. (a.routing, (t, (failed e, unwrap_or a.latency latency)))) (λ e. (t, failed e))
        (λ e. refl)
      ∙ ap (λ v. pick v t (λ e. (t, failed e))) (attempt-verdict i t r ∙ ap (verdict_of i t) here)
  failover_from-first_final i latency t (u ∷ us) r s (first, d) (here, agree) =
      let a = attempt providers key_of op clock i t r in
      let measured = unwrap_or a.latency latency in
      let later =
        failover_from-first_final (suc i) measured u us a.routing s d
          (Agree-after i t (u ∷ us) r s first agree) in
      answer_of-follow a.verdict a.routing t measured
        (λ e. failover_from providers key_of op clock (suc i) measured u us a.routing)
        (λ e. first_final s (suc i) u us) (λ e. later)
      ∙ ap (λ v. pick v t (λ e. first_final s (suc i) u us))
          (attempt-verdict i t r ∙ ap (verdict_of i t) here)

  Agree-refl : (r : Routing) (ts : List (Target F)) → Agree r r ts
  Agree-refl r [] = tt
  Agree-refl r (t ∷ ts) = (refl, Agree-refl r ts)

  -- For targets with keys of their own, the failover answers with the first target that is not
  -- skipped, each judged by the breaker that it had before the request: a target is skipped exactly
  -- when its breaker refuses, it has no client or no key, or its call fails with a rate limit, a failure
  -- of the network or one of the statuses 500, 502, 503, 504 and 529; if all are skipped, the last one's
  -- reason is the answer.
  pub with_failover-first_final :
      (t : Target F) (ts : List (Target F)) (r : Routing)
      → KeysDiffer (t ∷ ts)
      → (run : Run F T) × (with_failover providers key_of op clock (t ∷ ts) r ≡ some run)
        × (answer_of run ≡ first_final r 0 t ts)
  unfolding with_failover
  with_failover-first_final t ts r d = (
    failover_from providers key_of op clock 0 0 t ts r,
    refl,
    failover_from-first_final 0 0 t ts r r d (Agree-refl r (t ∷ ts)),
  )

  failover_from-untouched :
      (i latency : ℕ) (t : Target F) (ts : List (Target F)) (r : Routing) (k : String)
      → All (λ u. routing_key u ≢ k) (t ∷ ts)
      → breaker_of k (failover_from providers key_of op clock i latency t ts r).0 ≡ breaker_of k r
  unfolding failover_from
  failover_from-untouched i latency t [] r k (ne, h) =
      let a = attempt providers key_of op clock i t r in
      let measured = unwrap_or a.latency latency in
      breaker_of-follow k a.verdict a.routing t measured
        (λ e. (a.routing, (t, (failed e, measured)))) (attempt-other i t r k ne)
        (λ e. attempt-other i t r k ne)
  failover_from-untouched i latency t (u ∷ us) r k (ne, h) =
      let a = attempt providers key_of op clock i t r in
      let measured = unwrap_or a.latency latency in
      let later = failover_from-untouched (suc i) measured u us a.routing k h in
      breaker_of-follow k a.verdict a.routing t measured
        (λ e. failover_from providers key_of op clock (suc i) measured u us a.routing)
        (attempt-other i t r k ne) (λ e. later ∙ attempt-other i t r k ne)

  -- A failover leaves the breaker of every endpoint that is not among its targets as it was.
  pub with_failover-untouched :
      (t : Target F) (ts : List (Target F)) (r : Routing) (k : String)
      → All (λ u. routing_key u ≢ k) (t ∷ ts)
      → (run : Run F T) × (with_failover providers key_of op clock (t ∷ ts) r ≡ some run)
        × (breaker_of k run.0 ≡ breaker_of k r)
  unfolding with_failover
  with_failover-untouched t ts r k h = (
    failover_from providers key_of op clock 0 0 t ts r,
    refl,
    failover_from-untouched 0 0 t ts r k h,
  )
