-- ===== src/Tests/UsageStore.antt =====
-- crates/himadri-admin/src/usage_store.rs on three records; f64 is a number.
use himadri.Common.{
  ℕ, ◌≡◌, ◌%◌, ◌+◌, refl, Bool, true, false, List, [], ◌∷◌, Option, none, some, String, u64_mod,
}
use himadri.UsageStore.{
  UsageRecord, UsageStore, ModelPricing, add_record, get_key_stats, load_pricing,
}
use himadri.UsageStore.Totals.{one_if, one_unless, sum_of, get_key_stats_lem}
use himadri.Tests.Strategy.{ops}
use himadri.Tests.Budget.{casts}

abbrev used : String → ℕ → Bool → UsageRecord ℕ
used key tokens success = record {
  request_id = "r";
  api_key_id = some key;
  model = "gpt-4o";
  provider = "openai";
  prompt_tokens = tokens;
  completion_tokens = 1;
  total_tokens = tokens + 1;
  cost_usd = 2;
  latency_ms = 10;
  created_at = tokens;
  success = success;
  error_message = none;
}

abbrev price : String → ℕ → ModelPricing ℕ
price model usd = record { model = model; input_per_m_tokens = usd; output_per_m_tokens = usd }

abbrev store : UsageStore ℕ
store = record {
  records = used "k1" 5 true ∷ used "k2" 7 true ∷ used "k1" 9 false ∷ [];
  max_records = 3;
  pricing = price "gpt-4o" 3 ∷ [];
}

-- The oldest record makes room for the fourth.
three_left :
    (add_record (used "k1" 1 true) store).records
    ≡ used "k2" 7 true ∷ used "k1" 9 false ∷ used "k1" 1 true ∷ []
unfolding add_record
three_left = refl

last_override :
    load_pricing
      (some (price "new" 1 ∷ price "gpt-4o" 4 ∷ price "new" 2 ∷ []))
      (price "gpt-4o" 3 ∷ [])
    ≡ price "gpt-4o" 4 ∷ price "new" 2 ∷ []
unfolding load_pricing
last_override = refl

two_requests : (get_key_stats ops casts "k1" store).total_prompt_tokens ≡ 14
unfolding get_key_stats himadri.Common.wrapping_add
two_requests = refl

get_key_stats_lem_example :
    ((get_key_stats ops casts "k1" store).total_requests
      ≡ sum_of (λ r. 1) "k1" store.records % u64_mod)
    × ((get_key_stats ops casts "k1" store).successful_requests
        ≡ sum_of (λ r. one_if r.success) "k1" store.records % u64_mod)
    × ((get_key_stats ops casts "k1" store).failed_requests
        ≡ sum_of (λ r. one_unless r.success) "k1" store.records % u64_mod)
    × ((get_key_stats ops casts "k1" store).total_prompt_tokens
        ≡ sum_of (λ r. r.prompt_tokens) "k1" store.records % u64_mod)
    × ((get_key_stats ops casts "k1" store).total_completion_tokens
        ≡ sum_of (λ r. r.completion_tokens) "k1" store.records % u64_mod)
    × ((get_key_stats ops casts "k1" store).total_tokens
        ≡ (sum_of (λ r. r.prompt_tokens) "k1" store.records
            + sum_of (λ r. r.completion_tokens) "k1" store.records)
          % u64_mod)
get_key_stats_lem_example = get_key_stats_lem ops casts "k1" store
