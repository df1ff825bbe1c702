-- ===== src/Limiter/Conservation.antt =====
-- crates/himadri-ratelimit/src/token_bucket.rs: what no interleaving of threads can exceed.
use mathlib.Core.Path.{subst}
use himadri.Common.{
  ℕ, zero, suc, ◌+◌, ◌-◌, ◌*◌, ◌≤◌, ◌≡◌, refl, List, [], ◌∷◌, some, arith, saturating_add-le,
  get_elem?, get_elem?-All, set-All, inl, inr, Option-cases, All, if◌then◌else◌, ◌<◌, ◌∙◌,
}
use himadri.Limiter.Bucket.{
  TokenBucket, new, credit_of, credit_of-le, add_credit, consume, refill, allow_n,
}
use himadri.Limiter.Interleaving.{
  Pc, idle, read_clock, loaded, won, consuming, returned, Moved, thread_step, System, Turn, update,
  step, run, start, pending, total_pending, total_pending-set,
}

-- The clock reading that a thread holds is at most `last`.
abbrev pub Before : ℕ → Pc → Type 0
Before last (read_clock n now) = now ≤ last
Before last (loaded n now l) = now ≤ last
Before last _ = Unit

credit_of-before : (rate now last : ℕ) → now < last → credit_of rate now last ≡ 0
credit_of-before rate now last h =
    let early : now - last ≡ 0 = omega arith in
    let nothing : (now - last) * rate ≡ 0 = rw early (omega arith) in
    omega (arith, credit_of-le rate now last)

module _ (end : ℕ) where
  -- One atomic operation neither makes tokens beyond the credit it claims, nor claims more than
  -- the time by which it advances `last_refill` is worth.
  record IsSound (b : TokenBucket) (p : Pc) (m : Moved) : Type 0 where
    rate_same : m.bucket.rate ≡ b.rate
    capacity_same : m.bucket.capacity ≡ b.capacity
    filled : m.bucket.tokens ≤ b.capacity
    conserved : m.granted + m.bucket.tokens + pending m.pc ≤ b.tokens + pending p + m.claimed
    later : b.last_refill ≤ m.bucket.last_refill
    earned : m.claimed * 1000000 ≤ (m.bucket.last_refill - b.last_refill) * b.rate
    ended : m.bucket.last_refill ≤ end
    before : Before end m.pc

  loaded-IsSound :
      (b : TokenBucket) (k t last n now : ℕ)
      → b.tokens ≤ b.capacity
      → b.last_refill ≤ end
      → t ≤ end
      → IsSound b (loaded k t last) (thread_step b (loaded k t last) n now)
  unfolding thread_step
  loaded-IsSound b k t last n now f e h =
      ground (arith, credit_of-le b.rate t last, credit_of-before b.rate t last)

  thread_step-IsSound :
      (b : TokenBucket) (p : Pc) (n now : ℕ)
      → b.tokens ≤ b.capacity
      → b.last_refill ≤ end
      → now ≤ end
      → Before end p
      → IsSound b p (thread_step b p n now)
  unfolding thread_step add_credit consume
  thread_step-IsSound b idle n now f e h q = ground arith
  thread_step-IsSound b (returned r) n now f e h q = ground arith
  thread_step-IsSound b (read_clock k t) n now f e h q = ground arith
  thread_step-IsSound b (loaded k t last) n now f e h q = loaded-IsSound b k t last n now f e q
  thread_step-IsSound b (won k credit) n now f e h q =
      ground (arith, saturating_add-le b.tokens credit)
  thread_step-IsSound b (consuming k) n now f e h q = ground arith

module _ (began end rate capacity : ℕ) where
  -- What every reachable system satisfies.
  pub record Inv (s : System) : Type 0 where
    pub rate_same : s.bucket.rate ≡ rate
    pub capacity_same : s.bucket.capacity ≡ capacity
    pub filled : s.bucket.tokens ≤ capacity
    pub conserved : s.granted + s.bucket.tokens + total_pending s.threads ≤ capacity + s.claimed
    pub later : began ≤ s.bucket.last_refill
    pub earned : s.claimed * 1000000 ≤ (s.bucket.last_refill - began) * rate
    pub ended : s.bucket.last_refill ≤ end
    pub before : All (Before end) s.threads

  span_mul :
      (x y : ℕ) → began ≤ x → x ≤ y → (x - began) * rate + (y - x) * rate ≡ (y - began) * rate
  span_mul x y h k =
      let parts : y - began ≡ (x - began) + (y - x) = omega arith in rw parts (omega arith)

  update-Inv :
      (s : System) (i : ℕ) (p : Pc) (m : Moved)
      → get_elem? s.threads i ≡ some p
      → IsSound end s.bucket p m
      → Inv s
      → Inv (update s i m)
  update-Inv s i p m found sound v = record {
    rate_same = sound.rate_same ∙ v.rate_same;
    capacity_same = sound.capacity_same ∙ v.capacity_same;
    filled = omega arith;
    conserved = omega (arith, total_pending-set s.threads i m.pc found);
    later = omega arith;
    earned = omega (
      arith,
      span_mul s.bucket.last_refill m.bucket.last_refill v.later sound.later,
      subst (λ r. m.claimed * 1000000 ≤ (m.bucket.last_refill - s.bucket.last_refill) * r)
          v.rate_same sound.earned,
    );
    ended = sound.ended;
    before = set-All (Before end) s.threads i m.pc sound.before v.before;
  }

  step-Inv : (s : System) (t : Turn) → t.now ≤ end → Inv s → Inv (step s t)
  unfolding step
  step-Inv s t h v = elim (Option-cases (get_elem? s.threads t.thread)) [
    | inl missing ↦ rw (missing, step) v
    | inr (p, found) ↦
        rw (found, step)
          (update-Inv s t.thread p (thread_step s.bucket p t.n t.now) found
            (thread_step-IsSound end s.bucket p t.n t.now (omega arith) v.ended h
              (get_elem?-All (Before end) s.threads t.thread found v.before))
            v)
  ]

  run-Inv : (s : System) (ts : List Turn) → All (λ t. t.now ≤ end) ts → Inv s → Inv (run s ts)
  unfolding run
  run-Inv s [] h v = v
  run-Inv s (t ∷ ts) (h, hs) v = run-Inv (step s t) ts hs (step-Inv s t h v)

unfoldable pub all_idle : ℕ → List Pc
all_idle zero = []
all_idle (suc k) = idle ∷ all_idle k

all_idle-Before : (end k : ℕ) → All (Before end) (all_idle k)
unfolding all_idle
all_idle-Before end zero = tt
all_idle-Before end (suc k) = (tt, all_idle-Before end k)

total_pending-all_idle : (k : ℕ) → total_pending (all_idle k) ≡ 0
unfolding all_idle
total_pending-all_idle zero = refl
total_pending-all_idle (suc k) = omega (arith, total_pending-all_idle k)

start-Inv :
    (began end rate capacity k : ℕ)
    → began ≤ end
    → Inv began end rate capacity (start began rate capacity (all_idle k))
unfolding start new
start-Inv began end rate capacity k h = record {
  rate_same = refl;
  capacity_same = refl;
  filled = omega arith;
  conserved = omega (arith, total_pending-all_idle k);
  later = omega arith;
  earned = omega arith;
  ended = h;
  before = all_idle-Before end k;
}

-- However the atomic operations of any number of threads interleave, if every clock reading is at
-- most `end`, then the tokens granted in all are at most the capacity plus `rate` tokens for each
-- second between the bucket's creation and `end`, and the bucket never holds more than its
-- capacity.
pub granted-run-le :
    (began end rate capacity k : ℕ) (ts : List Turn)
    → began ≤ end
    → All (λ t. t.now ≤ end) ts
    → ((run (start began rate capacity (all_idle k)) ts).granted * 1000000
        ≤ capacity * 1000000 + (end - began) * rate)
      × ((run (start began rate capacity (all_idle k)) ts).bucket.tokens ≤ capacity)
granted-run-le began end rate capacity k ts h readings =
    let v : Inv began end rate capacity (run (start began rate capacity (all_idle k)) ts) =
      run-Inv began end rate capacity _ ts readings (start-Inv began end rate capacity k h) in
    (grind arith, v.filled)

-- A thread that runs alone does what `allow_n` does.
pub run-alone :
    (b : TokenBucket) (n now : ℕ)
    → let alone : System = record { bucket = b; threads = idle ∷ []; granted = 0; claimed = 0 } in
      let turn : Turn = record { thread = 0; n = n; now = now } in
      let after : System = run alone (turn ∷ turn ∷ turn ∷ turn ∷ turn ∷ []) in
      (after.bucket ≡ (allow_n now n b).0)
      × (after.granted ≡ (if (allow_n now n b).1 then n else 0))
unfolding run step thread_step allow_n refill add_credit consume
run-alone b n now = ground arith
