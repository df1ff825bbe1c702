-- ===== src/Plugins/Budget.antt =====
-- crates/himadri-plugins/src/budget.rs, `BudgetPlugin`: the plugin checks a principal's spend before a
-- request and adds to it after the response. The operations on `f64` and the wording of a rejection
-- (`format!`) are parameters, and `as_str` reads a JSON text.
use himadri.Common.{
  ℕ, String, Bool, ◌&&◌, List, [], Option, none, some, if◌then◌else◌, map, unwrap_or, or_else,
  ◌>>=◌,
}
use text.Mathlib.Text.{◌==◌}
use himadri.Types.{Usage, ChatCompletionResponse}
use himadri.Strategy.Select.{Floats}
use himadri.Plugins.Manager.{PluginError, rejected, budget_exceeded}
use himadri.Plugins.Context.{PluginContext, get_metadata, auth_key_id, auth_user_id}
use himadri.Plugins.Registry.{StoreRegistry, get_or_create, with, with_mut}
use himadri.Plugins.Spend.{SpendStore, new_store, add, get_micro, reset, reset_all}

-- The operations on `f64` that money needs: `to_u64` is the saturating cast.
pub record FloatCasts (F : Type 0) : Type 0 where
  pub million : F
  pub mul_f : F → F → F
  pub div_f : F → F → F
  pub round_f : F → F
  pub of_nat : ℕ → F
  pub to_u64 : F → ℕ

pub record BudgetPlugin (F : Type 0) : Type 0 where
  pub store_id : String
  pub spend_limit_usd : F
  pub input_per_m_tokens : F
  pub output_per_m_tokens : F

pub record BudgetConfig (F : Type 0) : Type 0 where
  pub store_id : Option String
  pub spend_limit_usd : Option F
  pub input_per_m_tokens : Option F
  pub output_per_m_tokens : Option F
  pub max_keys : Option ℕ

abbrev pub default_max_keys : ℕ
default_max_keys = 10000

abbrev pub no_price : String
no_price =
    "spend_limit_usd is set but both input_per_m_tokens and output_per_m_tokens are 0; cost will always be 0 and the budget limit will never be enforced"

-- `Result<Arc<BudgetPlugin>, String>`
pub data Built (F : Type 0) : Type 0 where
  built : BudgetPlugin F → Built F
  invalid : String → Built F

abbrev pub Registry : Type 0
Registry = StoreRegistry SpendStore

abbrev non_empty : Option String → Option String
non_empty none = none
non_empty (some s) = if s == "" then none else some s

-- The functions that the admin API calls.
unfoldable pub reset_store_key : String → String → Registry → Registry
reset_store_key store_id api_key stores = with_mut store_id (reset api_key) stores

unfoldable pub reset_store : String → Registry → Registry
reset_store store_id stores = with_mut store_id reset_all stores

module _ {F J : Type 0} (as_str : J → Option String) where
  -- The key or the user of the principal, and otherwise the `api_key` of the metadata.
  unfoldable pub spend_key : PluginContext F J → Option String
  spend_key ctx =
      or_else (or_else (auth_key_id ctx) (auth_user_id ctx))
        (non_empty (get_metadata "api_key" ctx >>= as_str))

module _ {F : Type 0} (ops : Floats F) (casts : FloatCasts F) where
  unfoldable pub usd_to_micro : F → ℕ
  usd_to_micro usd =
      casts.to_u64 (ops.max_f (casts.round_f (casts.mul_f usd casts.million)) ops.zero_f)

  unfoldable pub micro_to_usd : ℕ → F
  micro_to_usd micro = casts.div_f (casts.of_nat micro) casts.million

  unfoldable pub get_spend : String → String → Registry → F
  unfolding micro_to_usd
  get_spend store_id api_key stores =
      unwrap_or (with store_id (λ s. micro_to_usd (get_micro api_key s)) stores) ops.zero_f

  unfoldable pub get_all_spend : String → Registry → List (String × F)
  unfolding micro_to_usd
  get_all_spend store_id stores =
      unwrap_or (with store_id (λ s. map (λ e. (e.0, micro_to_usd e.1.micro_usd)) s.spend) stores)
        []

  abbrev pub is_zero : F → Bool
  is_zero x = ops.le_f x ops.zero_f && ops.le_f ops.zero_f x

  unfoldable pub new : BudgetConfig F → Registry → Registry × Built F
  new config stores =
      let store_id = unwrap_or config.store_id "default" in
      let spend_limit_usd = unwrap_or config.spend_limit_usd ops.zero_f in
      let input = unwrap_or config.input_per_m_tokens ops.zero_f in
      let output = unwrap_or config.output_per_m_tokens ops.zero_f in
      if ops.lt_f spend_limit_usd ops.zero_f
      then (stores, invalid "spend_limit_usd must be >= 0")
      else if ops.lt_f ops.zero_f spend_limit_usd && (is_zero input && is_zero output)
      then (stores, invalid no_price)
      else (
        get_or_create store_id (new_store (unwrap_or config.max_keys default_max_keys)) stores,
        built (record {
          store_id = store_id;
          spend_limit_usd = spend_limit_usd;
          input_per_m_tokens = input;
          output_per_m_tokens = output;
        }),
      )

  unfoldable pub calculate_cost : BudgetPlugin F → Usage → F
  calculate_cost plugin usage =
      ops.add_f
        (casts.mul_f (casts.div_f (casts.of_nat usage.prompt_tokens) casts.million)
          plugin.input_per_m_tokens)
        (casts.mul_f (casts.div_f (casts.of_nat usage.completion_tokens) casts.million)
          plugin.output_per_m_tokens)

  unfoldable pub effective_limit : BudgetPlugin F → Option F → F
  effective_limit plugin none = plugin.spend_limit_usd
  effective_limit plugin (some limit) =
      if ops.lt_f ops.zero_f limit then limit else plugin.spend_limit_usd

  unfoldable pub check_budget :
      (wording : F → F → String)
      → BudgetPlugin F
      → String
      → Option F
      → Registry
      → Option PluginError
  unfolding effective_limit get_spend
  check_budget wording plugin key per_principal stores =
      let limit = effective_limit plugin per_principal in
      let current = get_spend plugin.store_id key stores in
      if ops.le_f limit ops.zero_f
      then none
      else if ops.le_f limit current
      then some (rejected "budget" (wording current limit) budget_exceeded)
      else none

  -- What a response adds to the spend.
  abbrev pub charge : BudgetPlugin F → (now : ℕ) → String → Option Usage → Registry → Registry
  charge plugin now key none stores = stores
  charge plugin now key (some usage) stores =
      let cost = calculate_cost plugin usage in
      if ops.lt_f ops.zero_f cost
      then with_mut plugin.store_id (add now key (usd_to_micro cost)) stores
      else stores

  unfoldable pub record_cost :
      BudgetPlugin F → (now : ℕ) → String → Option ChatCompletionResponse → Registry → Registry
  unfolding calculate_cost usd_to_micro
  record_cost plugin now key none stores = stores
  record_cost plugin now key (some response) stores = charge plugin now key response.usage stores

  module _ {J : Type 0} (as_str : J → Option String) (wording : F → F → String) where
    abbrev per_principal : PluginContext F J → Option F
    per_principal ctx = ctx.auth >>= λ a. a.budget_limit_usd

    -- After the request if there is a response, and before it otherwise.
    abbrev pub execute_for :
        BudgetPlugin F
        → (now : ℕ) → Option String
        → (per_principal : Option F) → Option ChatCompletionResponse
        → Registry
        → Registry × Option PluginError
    execute_for plugin now none limit response stores = (stores, none)
    execute_for plugin now (some key) limit (some r) stores =
        (record_cost plugin now key (some r) stores, none)
    execute_for plugin now (some key) limit none stores =
        (stores, check_budget wording plugin key limit stores)

    unfoldable pub execute :
        BudgetPlugin F → (now : ℕ) → PluginContext F J → Registry → Registry × Option PluginError
    unfolding spend_key check_budget record_cost
    execute plugin now ctx stores =
        execute_for plugin now (spend_key as_str ctx) (per_principal ctx) ctx.response stores
