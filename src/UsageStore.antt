-- ===== src/UsageStore.antt =====
-- crates/himadri-admin/src/usage_store.rs, `UsageStore`: the records of what was used, with the prices of
-- the models and the totals of a key. `F` is f64, times are numbers, and the built-in table of prices and
-- what `PRICING_TABLE` parses to are arguments.
pub mod Totals
pub mod Pricing
use text.Mathlib.Text.{◌==◌}
use himadri.Common.{
  ℕ, zero, suc, String, Bool, true, false, List, [], ◌∷◌, ◌++◌, Option, none, some, if◌then◌else◌,
  ltb, length, wrapping_add,
}
use himadri.Strategy.Select.{Floats}
use himadri.Plugins.Budget.{FloatCasts}

pub record UsageRecord (F : Type 0) : Type 0 where
  pub request_id : String
  pub api_key_id : Option String
  pub model : String
  pub provider : String
  pub prompt_tokens : ℕ
  pub completion_tokens : ℕ
  pub total_tokens : ℕ
  pub cost_usd : F
  pub latency_ms : ℕ
  pub created_at : ℕ
  pub success : Bool
  pub error_message : Option String

pub record ModelPricing (F : Type 0) : Type 0 where
  pub model : String
  pub input_per_m_tokens : F
  pub output_per_m_tokens : F

pub record UsageStore (F : Type 0) : Type 0 where
  pub records : List (UsageRecord F)
  pub max_records : ℕ
  pub pricing : List (ModelPricing F)

pub record UsageStats (F : Type 0) : Type 0 where
  pub api_key_id : String
  pub total_requests : ℕ
  pub successful_requests : ℕ
  pub failed_requests : ℕ
  pub total_prompt_tokens : ℕ
  pub total_completion_tokens : ℕ
  pub total_tokens : ℕ
  pub total_cost_usd : F
  pub avg_latency_ms : F
  pub last_request_at : Option ℕ
  pub models_used : List String

-- The variables of the loop of `get_key_stats`; the set of the models is a list.
pub record Tally (F : Type 0) : Type 0 where
  pub total_requests : ℕ
  pub successful : ℕ
  pub failed : ℕ
  pub total_prompt : ℕ
  pub total_completion : ℕ
  pub total_cost : F
  pub total_latency : ℕ
  pub last_request : Option ℕ
  pub models_used : List String

abbrev pub default_max_records : ℕ
default_max_records = 100000

abbrev pub is_key : String → Option String → Bool
is_key api_key_id none = false
is_key api_key_id (some id) = id == api_key_id

abbrev pub later : ℕ → Option ℕ → Option ℕ
later created_at none = some created_at
later created_at (some t) = if ltb t created_at then some created_at else some t

unfoldable pub insert : String → List String → List String
insert model [] = model ∷ []
insert model (m ∷ ms) = let rest = insert model ms in if m == model then m ∷ ms else m ∷ rest

abbrev pub count_if : Bool → ℕ → ℕ
count_if true n = wrapping_add n 1
count_if false n = n

abbrev pub count_unless : Bool → ℕ → ℕ
count_unless true n = n
count_unless false n = wrapping_add n 1

module _ {F : Type 0} where
  -- An override replaces the first entry of its model, or comes last.
  unfoldable pub override : ModelPricing F → List (ModelPricing F) → List (ModelPricing F)
  override entry [] = entry ∷ []
  override entry (p ∷ ps) =
      let rest = override entry ps in if p.model == entry.model then entry ∷ ps else p ∷ rest

  unfoldable pub override_all :
      List (ModelPricing F) → List (ModelPricing F) → List (ModelPricing F)
  unfolding override
  override_all [] pricing = pricing
  override_all (entry ∷ entries) pricing = override_all entries (override entry pricing)

  -- Without the variable, or with one that does not parse, the built-in table is kept.
  unfoldable pub load_pricing :
      Option (List (ModelPricing F)) → List (ModelPricing F) → List (ModelPricing F)
  unfolding override_all
  load_pricing none defaults = defaults
  load_pricing (some overrides) defaults = override_all overrides defaults

  abbrev pub new_store : List (ModelPricing F) → UsageStore F
  new_store pricing = record { records = []; max_records = default_max_records; pricing = pricing }

  -- `pop_front` while there are too many.
  unfoldable pub pop_front : ℕ → List (UsageRecord F) → List (UsageRecord F)
  pop_front max_records [] = []
  pop_front max_records (r ∷ rs) =
      let rest = pop_front max_records rs in
      if ltb max_records (suc (length rs)) then rest else r ∷ rs

  unfoldable pub add_record : UsageRecord F → UsageStore F → UsageStore F
  unfolding pop_front
  add_record r s = record s { records = pop_front s.max_records (s.records ++ (r ∷ [])) }

  unfoldable pub price_of : String → List (ModelPricing F) → Option (ModelPricing F)
  price_of model [] = none
  price_of model (p ∷ ps) =
      let rest = price_of model ps in if p.model == model then some p else rest

  abbrev pub mean : Floats F → FloatCasts F → ℕ → ℕ → F
  mean ops casts total zero = ops.zero_f
  mean ops casts total (suc n) = casts.div_f (casts.of_nat total) (casts.of_nat (suc n))

module _ {F : Type 0} (ops : Floats F) (casts : FloatCasts F) where
  abbrev cost_at : ℕ → ℕ → Option (ModelPricing F) → F
  cost_at prompt completion none = ops.zero_f
  cost_at prompt completion (some p) =
      ops.add_f (casts.mul_f (casts.div_f (casts.of_nat prompt) casts.million) p.input_per_m_tokens)
        (casts.mul_f (casts.div_f (casts.of_nat completion) casts.million) p.output_per_m_tokens)

  unfoldable pub calculate_cost : String → (prompt completion : ℕ) → UsageStore F → F
  unfolding price_of
  calculate_cost model prompt completion s = cost_at prompt completion (price_of model s.pricing)

  -- The body of the loop, for a record of the key.
  unfoldable pub observe : UsageRecord F → Tally F → Tally F
  unfolding insert
  observe r t = record {
    total_requests = wrapping_add t.total_requests 1;
    successful = count_if r.success t.successful;
    failed = count_unless r.success t.failed;
    total_prompt = wrapping_add t.total_prompt r.prompt_tokens;
    total_completion = wrapping_add t.total_completion r.completion_tokens;
    total_cost = ops.add_f t.total_cost r.cost_usd;
    total_latency = wrapping_add t.total_latency r.latency_ms;
    last_request = later r.created_at t.last_request;
    models_used = insert r.model t.models_used;
  }

  abbrev pub observe_if : Bool → UsageRecord F → Tally F → Tally F
  unfolding observe
  observe_if true r t = observe r t
  observe_if false r t = t

  unfoldable pub tally : String → List (UsageRecord F) → Tally F → Tally F
  unfolding observe
  tally api_key_id [] t = t
  tally api_key_id (r ∷ rs) t =
      tally api_key_id rs (observe_if (is_key api_key_id r.api_key_id) r t)

  abbrev pub no_tally : Tally F
  no_tally = record {
    total_requests = 0;
    successful = 0;
    failed = 0;
    total_prompt = 0;
    total_completion = 0;
    total_cost = ops.zero_f;
    total_latency = 0;
    last_request = none;
    models_used = [];
  }

  abbrev pub stats_of : String → Tally F → UsageStats F
  stats_of api_key_id t = record {
    api_key_id = api_key_id;
    total_requests = t.total_requests;
    successful_requests = t.successful;
    failed_requests = t.failed;
    total_prompt_tokens = t.total_prompt;
    total_completion_tokens = t.total_completion;
    total_tokens = wrapping_add t.total_prompt t.total_completion;
    total_cost_usd = t.total_cost;
    avg_latency_ms = mean ops casts t.total_latency t.total_requests;
    last_request_at = t.last_request;
    models_used = t.models_used;
  }

  unfoldable pub get_key_stats : String → UsageStore F → UsageStats F
  unfolding tally
  get_key_stats api_key_id s = stats_of api_key_id (tally api_key_id s.records no_tally)
