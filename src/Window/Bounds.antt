-- ===== src/Window/Bounds.antt =====
-- crates/himadri-plugins/src/rate_limit.rs: how much a counter grants in one window.
use native.Mathlib.Decide.{ℕ_discrete}
use himadri.Common.{
  ap, zero, suc, Bool-cases, inl, inr, ℕ, ◌+◌, ◌-◌, ◌*◌, ◌&&◌, ◌/◌, ◌%◌, ◌≤◌, ◌<◌, ◌≡◌, ◌≢◌, refl,
  Bool, true, false, List, [], ◌∷◌, arith, leb, ltb, ◌==◌, if◌then◌else◌, min, max, saturating_add,
}
use himadri.Window.Counter.{
  FixedWindowCounter, new, half, window_index, try_consume, commit, allow_n, count,
}

-- The step that a call makes once it knows its window.
pub allow_in : ℕ → ℕ → FixedWindowCounter → FixedWindowCounter × Bool
allow_in w n c = commit c (try_consume w n c)

-- The counter's word holds a window and a count within the limit, and the limit fits its half.
abbrev pub Holds : ℕ → ℕ → FixedWindowCounter → Type 0
Holds w k c = (c.packed ≡ w * half + k) × (k ≤ c.max_requests) × (c.max_requests < half)

allow_in-same :
    (w k n : ℕ) (c : FixedWindowCounter)
    → Holds w k c
    → allow_in w n c ≡ (
        if leb (k + n) c.max_requests
        then (record c { packed = w * half + (k + n) }, true)
        else (c, false))
unfolding allow_in try_consume saturating_add
allow_in-same w k n c h = ground arith

allow_in-other :
    (w v k n : ℕ) (c : FixedWindowCounter)
    → Holds w k c
    → v ≢ w
    → allow_in v n c
      ≡ (if leb n c.max_requests then (record c { packed = v * half + n }, true) else (c, false))
unfolding allow_in try_consume saturating_add
allow_in-other w v k n c h d = ground arith

-- The requests granted in the window `w` by calls that come with a clock reading and a number.
unfoldable pub granted_in : ℕ → FixedWindowCounter → List (ℕ × ℕ) → ℕ
granted_in w c [] = 0
granted_in w c ((now, n) ∷ calls) =
    (if (allow_n now n c).1 && window_index now c == w then n else 0)
    + granted_in w (allow_n now n c).0 calls

-- No reading is below the one before it, and none is so late that the window's index wraps.
abbrev pub NeverBack : ℕ → ℕ → List (ℕ × ℕ) → Type 0
NeverBack window from [] = Unit
NeverBack window from ((now, n) ∷ calls) =
    (from ≤ now) × (now < window * half) × NeverBack window now calls

index_mono :
    (us from now : ℕ)
    → 0 < us
    → from ≤ now
    → now < us * half
    → ((from / us) % half ≤ (now / us) % half) × ((now / us) % half ≡ now / us)
index_mono us from now p h k = grind arith

allow_n-window :
    (now n : ℕ) (c : FixedWindowCounter) → allow_n now n c ≡ allow_in (window_index now c) n c
unfolding allow_n allow_in
allow_n-window now n c = refl

granted_in-cons :
    (w now n : ℕ) (c : FixedWindowCounter) (calls : List (ℕ × ℕ)) (r : FixedWindowCounter × Bool)
    → allow_in (window_index now c) n c ≡ r
    → granted_in w c ((now, n) ∷ calls)
      ≡ (if r.1 && window_index now c == w then n else 0) + granted_in w r.0 calls
unfolding granted_in
granted_in-cons w now n c calls r e = rw (allow_n-window now n c) (
    ap
      (λ (x : FixedWindowCounter × Bool).
        (if x.1 && window_index now c == w then n else 0) + granted_in w x.0 calls)
      e)

-- What a counter that holds `k` in the window `p` may still grant in the window `w`.
abbrev room : ℕ → ℕ → ℕ → FixedWindowCounter → ℕ
room w p k c = if w == p then c.max_requests - k else if ltb w p then 0 else c.max_requests

room-le : (w : ℕ) (c : FixedWindowCounter) → room w 0 0 c ≤ c.max_requests
room-le w c = ground arith

window_index-packed :
    (now packed : ℕ) (c : FixedWindowCounter)
    → window_index now (record c { packed = packed }) ≡ window_index now c
unfolding window_index
window_index-packed now packed c = refl

granted_in-from :
    (w p k from : ℕ) (c : FixedWindowCounter) (calls : List (ℕ × ℕ))
    → Holds p k c
    → 0 < c.window_us
    → p ≤ (from / c.window_us) % half
    → NeverBack c.window_us from calls
    → granted_in w c calls ≤ room w p k c
granted_in-from w p k from c [] h pos le nb = unfold granted_in in omega arith
granted_in-from w p k from c ((now, n) ∷ calls) h pos le (a, b, nb) =
    let v = (now / c.window_us) % half in
    let index : window_index now c ≡ v = unfold window_index in refl in
    let later = index_mono c.window_us from now pos a b in
    let refused = granted_in-from w p k now c calls h pos in
    elim (ℕ_discrete v p) [
      | yes e ↦ elim (Bool-cases (leb (k + n) c.max_requests)) [
        | inl fits ↦ ground (
          arith,
          granted_in-cons w now n c calls (record c { packed = p * half + (k + n) }, true),
          allow_in-same p k n c h,
          granted_in-from w p (k + n) now (record c { packed = p * half + (k + n) }) calls,
        )
        | inr full ↦
            ground
              (arith, granted_in-cons w now n c calls (c, false), allow_in-same p k n c h, refused)
      ]
      | no d ↦ elim (Bool-cases (leb n c.max_requests)) [
        | inl fits ↦ ground (
          arith,
          granted_in-cons w now n c calls (record c { packed = v * half + n }, true),
          allow_in-other p v k n c h,
          granted_in-from w v n now (record c { packed = v * half + n }) calls,
        )
        | inr full ↦
            ground (
              arith,
              granted_in-cons w now n c calls (c, false),
              allow_in-other p v k n c h,
              refused,
            )
      ]
    ]

-- A new counter never grants more than its limit in one window, over any sequence of calls whose
-- clock readings do not go backward and come before the window's index wraps.
pub granted_in-le :
    (rate window w : ℕ) (calls : List (ℕ × ℕ))
    → NeverBack (max window 1) 0 calls
    → granted_in w (new rate window) calls ≤ rate
unfolding new
granted_in-le rate window w calls nb = omega (
  arith,
  granted_in-from w 0 0 0 (new rate window) calls (omega arith) (omega arith) (omega arith) nb,
  room-le w (new rate window),
)

-- `m` single requests at one clock reading.
unfoldable pub burst : ℕ → ℕ → List (ℕ × ℕ)
burst zero now = []
burst (suc m) now = (now, 1) ∷ burst m now

-- A counter that holds `k` in the window of the clock reading grants, of `m` single requests at
-- that reading, as many as its limit leaves room for, and refuses the others.
pub granted_in-burst :
    (m now p k : ℕ) (c : FixedWindowCounter)
    → Holds p k c
    → window_index now c ≡ p
    → granted_in p c (burst m now) ≡ min m (c.max_requests - k)
unfolding burst
granted_in-burst zero now p k c h e = unfold granted_in in omega arith
granted_in-burst (suc m) now p k c h e = elim (Bool-cases (leb (k + 1) c.max_requests)) [
  | inl fits ↦ ground (
    arith,
    granted_in-cons p now 1 c (burst m now) (record c { packed = p * half + (k + 1) }, true),
    allow_in-same p k 1 c h,
    granted_in-burst m now p (k + 1) (record c { packed = p * half + (k + 1) }),
    window_index-packed now (p * half + (k + 1)) c,
  )
  | inr full ↦ ground (
    arith,
    granted_in-cons p now 1 c (burst m now) (c, false),
    allow_in-same p k 1 c h,
    granted_in-burst m now p k c h e,
  )
]

-- A call whose clock reading belongs to another window than the one that the counter holds, such
-- as a thread's that read the clock before a rollover and stores after it, is granted and erases
-- the count: afterwards the window that was being counted, however full, grants its whole limit
-- again.
pub stale_reading_erases :
    (p k stale now : ℕ) (c : FixedWindowCounter)
    → Holds p k c
    → 0 < c.max_requests
    → window_index stale c ≢ p
    → window_index now c ≡ p
    → ((allow_n stale 1 c).1 ≡ true)
      × (count now (allow_n stale 1 c).0 ≡ 0)
      × ((allow_n now c.max_requests (allow_n stale 1 c).0).1 ≡ true)
unfolding count
stale_reading_erases p k stale now c h pos d e =
    let v = window_index stale c in
    let c' : FixedWindowCounter = record c { packed = v * half + 1 } in
    let first : allow_n stale 1 c ≡ (c', true) =
      ground (arith, allow_n-window stale 1 c, allow_in-other p v k 1 c h) in
    let again : allow_n now c.max_requests c'
        ≡ (record c' { packed = p * half + c.max_requests }, true) =
      ground (
        arith,
        allow_n-window now c.max_requests c',
        window_index-packed now (v * half + 1) c,
        allow_in-other v p 1 c.max_requests c',
      ) in
    rw first (refl, ground (arith, window_index-packed now (v * half + 1) c, d), rw again)
