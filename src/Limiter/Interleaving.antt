-- ===== src/Limiter/Interleaving.antt =====
-- crates/himadri-ratelimit/src/token_bucket.rs: `TokenBucket::allow_n` run by several threads, one
-- atomic operation at a time, under every schedule.
use mathlib.Core.Option.{some-injective}
use himadri.Common.{
  ℕ, zero, suc, ◌+◌, ◌≡◌, Bool, List, [], ◌∷◌, none, some, arith, ◌==◌, if◌then◌else◌, get_elem?,
  set, ap,
}
use himadri.Limiter.Bucket.{TokenBucket, new, credit_of, add_credit, consume}

-- Where a thread stands in `allow_n n`: it has read the clock; it has loaded `last_refill`; it has
-- won the exchange and must credit; it is about to consume; it has returned.
pub data Pc : Type 0 where
  idle : Pc
  read_clock : (n now : ℕ) → Pc
  loaded : (n now last : ℕ) → Pc
  won : (n credit : ℕ) → Pc
  consuming : (n : ℕ) → Pc
  returned : Bool → Pc

-- One atomic operation: the bucket and the thread after it, the tokens that it granted and the
-- credit that it claimed.
pub record Moved : Type 0 where
  pub bucket : TokenBucket
  pub pc : Pc
  pub granted : ℕ
  pub claimed : ℕ

abbrev moved : TokenBucket → Pc → ℕ → ℕ → Moved
moved b pc g c = record { bucket = b; pc = pc; granted = g; claimed = c }

-- A thread that is idle or has returned starts a call for `n` tokens at the clock reading `now`.
unfoldable pub thread_step : TokenBucket → Pc → ℕ → ℕ → Moved
thread_step b idle n now = moved b (read_clock n now) 0 0
thread_step b (returned _) n now = moved b (read_clock n now) 0 0
thread_step b (read_clock m t) n now = moved b (loaded m t b.last_refill) 0 0
thread_step b (loaded m t last) n now =
    if credit_of b.rate t last == 0
    then moved b (consuming m) 0 0
    else if b.last_refill == last
    then moved (record b { last_refill = t }) (won m (credit_of b.rate t last)) 0
        (credit_of b.rate t last)
    else moved b (consuming m) 0 0
thread_step b (won m credit) n now = moved (add_credit credit b) (consuming m) 0 0
thread_step b (consuming m) n now =
    moved (consume m b).0 (returned (consume m b).1) (if (consume m b).1 then m else 0) 0

-- The shared bucket and its threads; `granted` and `claimed` count over the whole run.
pub record System : Type 0 where
  pub bucket : TokenBucket
  pub threads : List Pc
  pub granted : ℕ
  pub claimed : ℕ

-- One entry of a schedule: the thread that moves, and the arguments of a call that it starts.
pub record Turn : Type 0 where
  pub thread : ℕ
  pub n : ℕ
  pub now : ℕ

abbrev pub update : System → ℕ → Moved → System
update s i m = record {
  bucket = m.bucket;
  threads = set s.threads i m.pc;
  granted = s.granted + m.granted;
  claimed = s.claimed + m.claimed;
}

unfoldable pub step : System → Turn → System
step s t = elim (get_elem? s.threads t.thread) [
  | none ↦ s
  | some pc ↦ update s t.thread (thread_step s.bucket pc t.n t.now)
]

unfoldable pub run : System → List Turn → System
run s [] = s
run s (t ∷ ts) = run (step s t) ts

unfoldable pub start : ℕ → ℕ → ℕ → List Pc → System
start now rate capacity threads = record {
  bucket = new now rate capacity;
  threads = threads;
  granted = 0;
  claimed = 0;
}

-- The credit that a thread has claimed and not yet added.
abbrev pub pending : Pc → ℕ
pending (won n credit) = credit
pending _ = 0

abbrev pub total_pending : List Pc → ℕ
total_pending [] = 0
total_pending (p ∷ ps) = pending p + total_pending ps

pub total_pending-set :
    (ps : List Pc) (i : ℕ) {p : Pc} (q : Pc)
    → get_elem? ps i ≡ some p
    → total_pending (set ps i q) + pending p ≡ total_pending ps + pending q
total_pending-set [] i q h = cc
total_pending-set (x ∷ ps) zero {p = p} q h = omega (arith, ap pending (some-injective _ _ h))
total_pending-set (x ∷ ps) (suc i) q h = omega (arith, total_pending-set ps i q h)
