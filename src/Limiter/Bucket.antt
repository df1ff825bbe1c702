-- ===== src/Limiter/Bucket.antt =====
-- crates/himadri-ratelimit/src/token_bucket.rs, `TokenBucket`, as a single caller sees it.
-- Readings of the monotonic clock (`now_micros`) are arguments.
use himadri.Common.{
  ℕ, ◌+◌, ◌-◌, ◌*◌, ◌/◌, ◌≤◌, ◌≡◌, Bool, true, false, arith, leb, ◌==◌, if◌then◌else◌, min,
  saturating_add, saturating_sub, saturating_mul, saturating_mul-le, saturating_add-le,
}

pub record TokenBucket : Type 0 where
  pub tokens : ℕ
  pub last_refill : ℕ
  pub rate : ℕ
  pub capacity : ℕ

unfoldable pub new : ℕ → ℕ → ℕ → TokenBucket
new now rate capacity = record {
  tokens = capacity;
  last_refill = now;
  rate = rate;
  capacity = capacity;
}

-- The tokens that a refill at `now` is worth, if the last one was at `last`.
unfoldable pub credit_of : ℕ → ℕ → ℕ → ℕ
credit_of rate now last = saturating_mul (saturating_sub now last) rate / 1000000

-- The closure of the refill's `fetch_update`.
unfoldable pub add_credit : ℕ → TokenBucket → TokenBucket
add_credit credit b = record b { tokens = min (saturating_add b.tokens credit) b.capacity }

-- `fetch_update` with `checked_sub`.
unfoldable pub consume : ℕ → TokenBucket → TokenBucket × Bool
consume n b = if leb n b.tokens then (record b { tokens = b.tokens - n }, true) else (b, false)

unfoldable pub refill : ℕ → TokenBucket → TokenBucket
refill now b =
    let credit = credit_of b.rate now b.last_refill in
    if credit == 0 then b else add_credit credit (record b { last_refill = now })

unfoldable pub allow_n : ℕ → ℕ → TokenBucket → TokenBucket × Bool
allow_n now n b = consume n (refill now b)

unfoldable pub allow : ℕ → TokenBucket → TokenBucket × Bool
unfolding allow_n
allow now b = allow_n now 1 b

pub credit_of-le : (rate now last : ℕ) → credit_of rate now last * 1000000 ≤ (now - last) * rate
unfolding credit_of
credit_of-le rate now last = omega (arith, saturating_mul-le (now - last) rate)

-- A refill credits no more than `rate` tokens a second of the time since the last one, and never
-- fills the bucket beyond its capacity; a call that is allowed takes exactly its `n` tokens from
-- what the refill left, and one that is refused found fewer than `n` and takes none.
pub allow_n_lem :
    (now n : ℕ) (b : TokenBucket)
    → b.tokens ≤ b.capacity
    → ((refill now b).tokens ≤ b.capacity)
      × ((refill now b).tokens * 1000000 ≤ b.tokens * 1000000 + (now - b.last_refill) * b.rate)
      × ((allow_n now n b).0.tokens
          ≡ (if (allow_n now n b).1 then (refill now b).tokens - n else (refill now b).tokens))
      × ((allow_n now n b).1 ≡ leb n (refill now b).tokens)
unfolding allow_n refill add_credit consume
allow_n_lem now n b h = ground (
  arith,
  credit_of-le b.rate now b.last_refill,
  saturating_add-le b.tokens (credit_of b.rate now b.last_refill),
)
