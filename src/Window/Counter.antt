-- ===== src/Window/Counter.antt =====
-- crates/himadri-plugins/src/rate_limit.rs, `FixedWindowCounter`. The window's index and its count
-- share one word, `(window << 32) | count`: the count stays below 2^32, so the "or" is a sum. Each
-- `fetch_update` is one atomic step; the clock reading, taken before it, is an argument.
use himadri.Common.{
  ℕ, ◌+◌, ◌-◌, ◌*◌, ◌/◌, ◌%◌, ◌^◌, Bool, true, false, leb, ◌==◌, if◌then◌else◌, min, max,
  saturating_add, Option, none, some,
}

abbrev pub count_mask : ℕ
count_mask = 2 ^ 32 - 1

abbrev pub half : ℕ
half = 2 ^ 32

pub record FixedWindowCounter : Type 0 where
  pub packed : ℕ
  pub window_us : ℕ
  pub max_requests : ℕ

-- `window` is the duration in microseconds.
unfoldable pub new : ℕ → ℕ → FixedWindowCounter
new max_requests window = record {
  packed = 0;
  window_us = max window 1;
  max_requests = min max_requests count_mask;
}

unfoldable pub window_index : ℕ → FixedWindowCounter → ℕ
window_index now_us c = (now_us / c.window_us) % half

-- The count that `packed` holds for the window `w`.
unfoldable pub count_in : ℕ → FixedWindowCounter → ℕ
count_in w c = if c.packed / half == w then c.packed % half else 0

-- The closure of `fetch_update` for the window `w`.
unfoldable pub try_consume : ℕ → ℕ → FixedWindowCounter → Option ℕ
unfolding count_in
try_consume w n c =
    let next = saturating_add (count_in w c) n in
    if leb next c.max_requests then some (w * half + next) else none

abbrev pub commit : FixedWindowCounter → Option ℕ → FixedWindowCounter × Bool
commit c none = (c, false)
commit c (some packed) = (record c { packed = packed }, true)

unfoldable pub allow_n : ℕ → ℕ → FixedWindowCounter → FixedWindowCounter × Bool
unfolding window_index try_consume
allow_n now_us n c = commit c (try_consume (window_index now_us c) n c)

unfoldable pub allow : ℕ → FixedWindowCounter → FixedWindowCounter × Bool
unfolding allow_n
allow now_us c = allow_n now_us 1 c

unfoldable pub count : ℕ → FixedWindowCounter → ℕ
unfolding window_index count_in
count now_us c = count_in (window_index now_us c) c

unfoldable pub reset : ℕ → FixedWindowCounter → FixedWindowCounter
unfolding window_index
reset now_us c = record c { packed = window_index now_us c * half }
