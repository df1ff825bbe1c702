-- ===== src/UsageStore/Totals.antt =====
-- crates/himadri-admin/src/usage_store.rs, `get_key_stats`: the totals of a key.
use himadri.Common.{
  ℕ, ◌+◌, ◌%◌, ◌≡◌, refl, ◌∙◌, String, Bool, true, false, List, [], ◌∷◌, arith, u64_mod,
  wrapping_add,
}
use himadri.Strategy.Select.{Floats}
use himadri.Plugins.Budget.{FloatCasts}
use himadri.UsageStore.{
  UsageRecord, UsageStore, Tally, is_key, count_if, count_unless, observe, observe_if, tally,
  no_tally, get_key_stats,
}

abbrev pub one_if : Bool → ℕ
one_if true = 1
one_if false = 0

abbrev pub one_unless : Bool → ℕ
one_unless true = 0
one_unless false = 1

abbrev pub amount_if : Bool → ℕ → ℕ
amount_if true n = n
amount_if false n = 0

module _ {F : Type 0} where
  -- The sum over the records of a key.
  abbrev pub sum_of : (UsageRecord F → ℕ) → String → List (UsageRecord F) → ℕ
  sum_of amount key [] = 0
  sum_of amount key (r ∷ rs) = amount_if (is_key key r.api_key_id) (amount r) + sum_of amount key rs

wrapping_add-mod : (n a x : ℕ) → n ≡ a % u64_mod → wrapping_add n x ≡ (a + x) % u64_mod
unfolding wrapping_add
wrapping_add-mod n a x h = omega arith

count_if-mod : (b : Bool) (n a : ℕ) → n ≡ a % u64_mod → count_if b n ≡ (a + one_if b) % u64_mod
count_if-mod true n a h = wrapping_add-mod n a 1 h
count_if-mod false n a h = omega arith

count_unless-mod :
    (b : Bool) (n a : ℕ) → n ≡ a % u64_mod → count_unless b n ≡ (a + one_unless b) % u64_mod
count_unless-mod true n a h = omega arith
count_unless-mod false n a h = wrapping_add-mod n a 1 h

module _ {F : Type 0} (ops : Floats F) (casts : FloatCasts F) where
  -- A number that each record of the key adds its amount to, up to the wrap.
  Adds : (Tally F → ℕ) → (UsageRecord F → ℕ) → Type 0
  Adds get amount =
      (r : UsageRecord F) (t : Tally F) (a : ℕ)
      → get t ≡ a % u64_mod
      → get (observe ops casts r t) ≡ (a + amount r) % u64_mod

  observe_if-sum :
      (get : Tally F → ℕ) (amount : UsageRecord F → ℕ)
      → Adds get amount
      → (b : Bool) (r : UsageRecord F) (t : Tally F) (a : ℕ) → get t ≡ a % u64_mod
      → get (observe_if ops casts b r t) ≡ (a + amount_if b (amount r)) % u64_mod
  unfolding Adds observe_if
  observe_if-sum get amount step true r t a h = step r t a h
  observe_if-sum get amount step false r t a h = h ∙ omega arith

  tally-sum :
      (get : Tally F → ℕ) (amount : UsageRecord F → ℕ)
      → Adds get amount
      → (key : String) (rs : List (UsageRecord F)) (t : Tally F) (a : ℕ) → get t ≡ a % u64_mod
      → get (tally ops casts key rs t) ≡ (a + sum_of amount key rs) % u64_mod
  unfolding tally
  tally-sum get amount step key [] t a h = h ∙ omega arith
  tally-sum get amount step key (r ∷ rs) t a h =
      let x = amount_if (is_key key r.api_key_id) (amount r) in
      tally-sum get amount step key rs (observe_if ops casts (is_key key r.api_key_id) r t) (a + x)
        (observe_if-sum get amount step (is_key key r.api_key_id) r t a h)
      ∙ omega arith

  tally-no_tally :
      (get : Tally F → ℕ) (amount : UsageRecord F → ℕ)
      → Adds get amount
      → get (no_tally ops casts) ≡ 0 % u64_mod
      → (key : String) (rs : List (UsageRecord F))
      → get (tally ops casts key rs (no_tally ops casts)) ≡ sum_of amount key rs % u64_mod
  tally-no_tally get amount step zero_first key rs =
      tally-sum get amount step key rs (no_tally ops casts) 0 zero_first ∙ omega arith

  -- The numbers of a key's statistics are the sums over its records, up to the wrap of `u64`: how many there
  -- are, how many of them succeeded and failed, and their tokens, whose total is the sum of both kinds.
  pub get_key_stats_lem :
      (key : String) (s : UsageStore F)
      → ((get_key_stats ops casts key s).total_requests ≡ sum_of (λ r. 1) key s.records % u64_mod)
        × ((get_key_stats ops casts key s).successful_requests
            ≡ sum_of (λ r. one_if r.success) key s.records % u64_mod)
        × ((get_key_stats ops casts key s).failed_requests
            ≡ sum_of (λ r. one_unless r.success) key s.records % u64_mod)
        × ((get_key_stats ops casts key s).total_prompt_tokens
            ≡ sum_of (λ r. r.prompt_tokens) key s.records % u64_mod)
        × ((get_key_stats ops casts key s).total_completion_tokens
            ≡ sum_of (λ r. r.completion_tokens) key s.records % u64_mod)
        × ((get_key_stats ops casts key s).total_tokens
            ≡ (sum_of (λ r. r.prompt_tokens) key s.records
                + sum_of (λ r. r.completion_tokens) key s.records)
              % u64_mod)
  unfolding get_key_stats observe Adds wrapping_add
  get_key_stats_lem key s =
      let prompt =
        tally-no_tally (λ t. t.total_prompt) (λ r. r.prompt_tokens)
          (λ r t a h. wrapping_add-mod t.total_prompt a r.prompt_tokens h) refl key s.records in
      let completion =
        tally-no_tally (λ t. t.total_completion) (λ r. r.completion_tokens)
          (λ r t a h. wrapping_add-mod t.total_completion a r.completion_tokens h) refl key
          s.records in
      (
        tally-no_tally (λ t. t.total_requests) (λ r. 1)
            (λ r t a h. wrapping_add-mod t.total_requests a 1 h) refl key s.records,
        tally-no_tally (λ t. t.successful) (λ r. one_if r.success)
            (λ r t a h. count_if-mod r.success t.successful a h) refl key s.records,
        tally-no_tally (λ t. t.failed) (λ r. one_unless r.success)
            (λ r t a h. count_unless-mod r.success t.failed a h) refl key s.records,
        prompt,
        completion,
        rw (prompt, completion) (omega arith),
      )
