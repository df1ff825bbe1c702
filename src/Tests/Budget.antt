-- ===== src/Tests/Budget.antt =====
-- crates/himadri-plugins/src/budget.rs and src/rate_limit.rs on a few principals. A JSON value is a
-- text, and money is counted in whole millionths.
use text.Mathlib.Text.{◌==◌}
use himadri.Common.{
  ℕ, ◌+◌, ◌*◌, ◌/◌, ◌≤◌, ◌≡◌, ◌⊎◌, inr, refl, String, true, false, List, [], ◌∷◌, Option, none,
  some, arith, length, lookup, insert, remove, min, u64_max, saturating_add,
}
use himadri.Types.{AuthContext, api_key}
use himadri.Plugins.Manager.{PluginError}
use himadri.Plugins.Context.{PluginContext, from_request}
use himadri.Plugins.Spend.{SpendEntry, SpendStore, new_store, add, get_micro}
use himadri.Plugins.Spending.{Charge, add_all, total_of, newcomers, get_micro-add_all}
use himadri.Plugins.Oldest.{NoOlder}
use himadri.Plugins.Eviction.{Bounded, add-keeps, add_all-new_store}
use himadri.Plugins.Budget.{FloatCasts, BudgetPlugin}
use himadri.Plugins.Budget.{execute as budget_execute}
use himadri.Plugins.RateLimit.{RateLimitConfig, Reading, Registry, new_plugin, execute, get_user_id}
use himadri.Plugins.Limiting.{IsReady, new_plugin-IsReady, execute-IsReady}
use himadri.Plugins.Secrets.{with_secret, execute-with_secret}
use himadri.Tests.Strategy.{ops}
use himadri.Tests.Policy.{request}

abbrev charges : List Charge
charges =
    record { now = 1; key = "alice"; amount = 30 }
    ∷ record { now = 2; key = "bob"; amount = 5 }
    ∷ record { now = 3; key = "alice"; amount = 12 }
    ∷ []

abbrev spent : SpendStore
spent = add_all charges (new_store 2)

-- Alice was charged after Bob, so a third principal makes the store forget Bob.
forgets_bob : get_micro "bob" (add 4 "carol" 1 spent) ≡ 0
unfolding get_micro lookup add insert add_all remove
forgets_bob = refl

keeps_alice : get_micro "alice" (add 4 "carol" 1 spent) ≡ 42
unfolding get_micro lookup add insert add_all remove saturating_add
keeps_alice = refl

new-short : get_micro "alice" (new_store 2) ≤ u64_max
unfolding get_micro lookup
new-short = omega arith

-- Three charges of two principals, in a store for two.
new-roomy : length (new_store 2).spend + newcomers [] charges ≤ 2
unfolding newcomers himadri.Types.contains
new-roomy = omega arith

get_micro-add_all_example :
    get_micro "alice" (add_all charges (new_store 2))
    ≡ min (get_micro "alice" (new_store 2) + total_of "alice" charges) u64_max
get_micro-add_all_example =
    get_micro-add_all charges "alice" (new_store 2) (inr new-roomy) new-short

add_all-new_store_example : Bounded (add_all charges (new_store 2))
add_all-new_store_example = add_all-new_store charges 2

abbrev bob : SpendEntry
bob = record { micro_usd = 5; last_update = 2 }

bob_found : lookup "bob" spent.spend ≡ some bob
unfolding lookup add_all add insert saturating_add
bob_found = refl

others : ("carol" == "bob") ≡ false
others = refl

add-keeps_example :
    (lookup "bob" (add 4 "carol" 1 spent).spend ≡ some bob)
    ⊎ ((lookup "carol" spent.spend ≡ none)
        × (spent.max_keys ≤ length spent.spend)
        × NoOlder bob spent.spend)
add-keeps_example =
    add-keeps 4 "carol" "bob" 1 spent bob (add_all-new_store charges 2) others bob_found

abbrev caller : AuthContext ℕ
caller = record {
  api_key = "sk-secret";
  key_id = some "key1";
  scope = api_key;
  org_id = none;
  team_id = none;
  user_id = some "user1";
  rate_limit_override = none;
  roles = [];
  budget_limit_usd = none;
}

abbrev ctx : PluginContext ℕ String
ctx = from_request "r1" request (some caller)

-- The limit by user goes by the id of the key, although the user is known.
user_by_key : get_user_id {F = ℕ} {J = String} (λ j. some j) ctx ≡ some "key1"
unfolding get_user_id lookup
user_by_key = refl

abbrev limits : RateLimitConfig
limits = record {
  store_id = none;
  requests_per_second = some 10;
  key_rpm = some 60;
  user_rpm = some 30;
  ip_rpm = none;
  max_keys = none;
}

abbrev hash : String → ℕ
hash s = 7

abbrev reading : Reading
reading = record { now = 5; random = 3 }

limits-IsReady : IsReady (new_plugin limits []).1 (new_plugin limits []).0
unfolding lookup
limits-IsReady = new_plugin-IsReady limits [] (omega arith) (λ id s e. absurd (cc))

execute-IsReady_example :
    (end : Registry) × (denial : Option PluginError) × ((execute hash {F = ℕ} {J = String}
        (λ j. some j)
        (λ ip. true)
        (new_plugin limits []).1
        5
        reading
        reading
        reading
        ctx
        (new_plugin limits []).0).1
      ≡ some (end, denial))
    × IsReady (new_plugin limits []).1 end
execute-IsReady_example =
    execute-IsReady hash (λ j. some j) (λ ip. true) (new_plugin limits []).1 5 reading reading
      reading ctx (new_plugin limits []).0 limits-IsReady

abbrev pub casts : FloatCasts ℕ
casts = record {
  million = 1;
  mul_f = λ a b. a * b;
  div_f = λ a b. a / b;
  round_f = λ a. a;
  of_nat = λ a. a;
  to_u64 = λ a. a;
}

abbrev budget : BudgetPlugin ℕ
budget = record {
  store_id = "default";
  spend_limit_usd = 9;
  input_per_m_tokens = 1;
  output_per_m_tokens = 2;
}

abbrev worded : ℕ → ℕ → String
worded spent_usd limit = "budget exceeded"

execute-with_secret_example :
    (budget_execute ops casts (λ j. some j) worded budget 5 (with_secret "sk-other" ctx) []
      ≡ budget_execute ops casts (λ j. some j) worded budget 5 ctx [])
    × (execute hash
          (λ j. some j)
          (λ ip. true)
          (new_plugin limits []).1
          5
          reading
          reading
          reading
          (with_secret "sk-other" ctx)
          (new_plugin limits []).0
        ≡ execute hash
            (λ j. some j)
            (λ ip. true)
            (new_plugin limits []).1
            5
            reading
            reading
            reading
            ctx
            (new_plugin limits []).0)
execute-with_secret_example =
    execute-with_secret {F = ℕ} {J = String} (λ j. some j) ops casts worded hash (λ ip. true)
      "sk-other" budget (new_plugin limits []).1 5 reading reading reading ctx []
      (new_plugin limits []).0
