-- ===== src/Tests/ApiKeys.antt =====
-- crates/himadri-admin/src/store.rs on two keys; a text is its own digest.
use himadri.Common.{
  ◌≡◌, ◌≢◌, ◌↔◌, ℕ, String, refl, [], ◌∷◌, List, none, some, true, not, ◌&&◌, is_some, lookup,
  insert,
}
use himadri.ApiKeys.{
  ApiKey, CreateApiKeyRequest, empty_store, create, validate, rotate, delete, revoke, hash_api_key,
  expired, new_key, masked_key_display,
}
use himadri.ApiKeys.Consistent.{Consistent}
use himadri.ApiKeys.Runs.{Op, creating, run, perform, AllFresh, Fresh, run-empty_store}
use himadri.ApiKeys.Lifecycle.{Usable, validate_iff, validate-withdrawn}
use himadri.ApiKeys.Rotation.{validate-create, validate-rotate}

abbrev plain : String → String
plain s = s

abbrev request : CreateApiKeyRequest ℕ
request = record {
  name = "ci";
  scopes = "read" ∷ [];
  expires_at = some 100;
  metadata = none;
  org_id = some "org";
  team_id = none;
  user_id = none;
  models = none;
  rate_limit_override = none;
  token_budget = none;
}

abbrev ops : List (Op ℕ)
ops = creating "id1" "sk-1" 5 request ∷ creating "id2" "sk-2" 6 request ∷ []

abbrev first : ApiKey ℕ
first = record {
  id = "id1";
  name = "ci";
  key = "sha256:sk-1";
  scopes = "read" ∷ [];
  enabled = true;
  created_at = 5;
  last_used_at = none;
  expires_at = some 100;
  usage_count = 0;
  metadata = none;
  org_id = some "org";
  team_id = none;
  user_id = none;
  models = none;
  rate_limit_override = none;
  token_budget = none;
}

ops-AllFresh : AllFresh plain ops empty_store
unfolding AllFresh Fresh perform create new_key lookup insert hash_api_key
ops-AllFresh = ((refl, refl), ((refl, refl), tt))

store-Consistent : Consistent (run plain ops empty_store)
store-Consistent = run-empty_store plain ops ops-AllFresh

first_found : lookup "id1" (run plain ops empty_store).keys ≡ some first
unfolding run perform create new_key lookup insert hash_api_key
first_found = refl

first_hash : hash_api_key plain "sk-1" ≡ first.key
unfolding hash_api_key
first_hash = refl

new_hash : lookup (hash_api_key plain "sk-3") (run plain ops empty_store).keys_by_key ≡ none
unfolding run perform create new_key lookup insert hash_api_key
new_hash = refl

expired_key : (validate plain "sk-1" 101 101 (run plain ops empty_store)).1 ≡ none
unfolding run perform create new_key lookup insert hash_api_key validate
expired_key = refl

masked : masked_key_display "sha256:0123456789" ≡ "sk-****456789"
unfolding masked_key_display
masked = refl

run-empty_store_example : Consistent (run plain ops empty_store)
run-empty_store_example = run-empty_store plain ops ops-AllFresh

validate_iff_example :
    (is_some (validate plain "sk-1" 7 7 (run plain ops empty_store)).1 ≡ true) ↔ (
      (id : String) × (k : ApiKey ℕ) × (lookup id (run plain ops empty_store).keys ≡ some k)
      × (k.key ≡ hash_api_key plain "sk-1")
      × Usable k 7)
validate_iff_example = validate_iff plain (run plain ops empty_store) "sk-1" 7 7 store-Consistent

validate-withdrawn_example :
    ((validate plain "sk-1" 7 7 (delete "id1" (run plain ops empty_store)).0).1 ≡ none)
    × ((validate plain "sk-1" 7 7 (revoke "id1" (run plain ops empty_store)).0).1 ≡ none)
validate-withdrawn_example =
    validate-withdrawn plain (run plain ops empty_store) "id1" "sk-1" 7 7 first store-Consistent
      first_found first_hash

validate-create_example :
    is_some (validate plain "sk-9" 7 7 (create plain "id9" "sk-9" 6 request empty_store).0).1
    ≡ not (expired (some 100) 7)
validate-create_example = validate-create plain empty_store "id9" "sk-9" 6 7 7 request

validate-rotate_example :
    ((secret : String)
      → hash_api_key plain secret ≡ first.key
      → (validate plain secret 7 7 (rotate plain "id1" "sk-3" (run plain ops empty_store)).0).1
        ≡ none)
    × (is_some
          (validate plain "sk-3" 7 7 (rotate plain "id1" "sk-3" (run plain ops empty_store)).0).1
        ≡ (true && not (expired (some 100) 7)))
    × ((secret : String)
        → hash_api_key plain secret ≢ first.key
        → hash_api_key plain secret ≢ hash_api_key plain "sk-3"
        → (validate plain secret 7 7 (rotate plain "id1" "sk-3" (run plain ops empty_store)).0).1
          ≡ (validate plain secret 7 7 (run plain ops empty_store)).1)
validate-rotate_example =
    validate-rotate plain (run plain ops empty_store) "id1" "sk-3" 7 7 first store-Consistent
      first_found new_hash
