-- ===== src/ApiKeys.antt =====
-- crates/himadri-admin/src/store.rs, `ApiKeyStore`: the API keys in memory, and the index from the
-- hashes of their secrets. `J` is a JSON value, a time is a number, and `digest` is the hexadecimal
-- SHA-256 of a secret. An id and a secret are random: the operations that draw one take it. The maps
-- are association lists; a text is cut by its characters, which are bytes in a stored value.
pub mod Consistent
pub mod Runs
pub mod Lifecycle
pub mod Rotation
use Prim.Native.String.{◌++◌}
use himadri.Common.{
  ℕ, zero, suc, ◌+◌, ◌-◌, String, Bool, true, false, List, [], ◌∷◌, Option, none, some, map,
  if◌then◌else◌, ltb, lookup, insert, remove, unwrap_or, is_some, wrapping_add,
}
use himadri.Types.{RateLimitOverride}
use himadri.Policy.Config.{OrgTokenBudget}

pub record ApiKey (J : Type 0) : Type 0 where
  pub id : String
  pub name : String
  pub key : String
  pub scopes : List String
  pub enabled : Bool
  pub created_at : ℕ
  pub last_used_at : Option ℕ
  pub expires_at : Option ℕ
  pub usage_count : ℕ
  pub metadata : Option J
  pub org_id : Option String
  pub team_id : Option String
  pub user_id : Option String
  pub models : Option (List String)
  pub rate_limit_override : Option RateLimitOverride
  pub token_budget : Option OrgTokenBudget

pub record CreateApiKeyRequest (J : Type 0) : Type 0 where
  pub name : String
  pub scopes : List String
  pub expires_at : Option ℕ
  pub metadata : Option J
  pub org_id : Option String
  pub team_id : Option String
  pub user_id : Option String
  pub models : Option (List String)
  pub rate_limit_override : Option RateLimitOverride
  pub token_budget : Option OrgTokenBudget

-- In the outer option, `none` leaves the field as it is.
pub record UpdateApiKeyRequest (J : Type 0) : Type 0 where
  pub name : Option String
  pub scopes : Option (List String)
  pub enabled : Option Bool
  pub expires_at : Option (Option ℕ)
  pub metadata : Option (Option J)
  pub org_id : Option (Option String)
  pub team_id : Option (Option String)
  pub user_id : Option (Option String)
  pub models : Option (Option (List String))
  pub rate_limit_override : Option (Option RateLimitOverride)
  pub token_budget : Option (Option OrgTokenBudget)

pub record ApiKeyStore (J : Type 0) : Type 0 where
  pub keys : List (String × ApiKey J)
  pub keys_by_key : List (String × String)

unfoldable pub text_length : String → ℕ
text_length String.[] = 0
text_length (String.◌∷◌ c s) = suc (text_length s)

unfoldable pub drop_text : ℕ → String → String
drop_text zero s = s
drop_text (suc n) String.[] = String.[]
drop_text (suc n) (String.◌∷◌ c s) = drop_text n s

-- The last six characters.
unfoldable pub masked_key_display : String → String
unfolding text_length drop_text
masked_key_display stored = "sk-****" ++ drop_text (text_length stored - 6) stored

abbrev pub expired : Option ℕ → ℕ → Bool
expired none now = false
expired (some expires_at) now = ltb expires_at now

unfoldable pub hash_api_key : (digest : String → String) → String → String
hash_api_key digest key = "sha256:" ++ digest key

module _ {J : Type 0} where
  unfoldable pub mask_stored : ApiKey J → ApiKey J
  unfolding masked_key_display
  mask_stored k = record k { key = masked_key_display k.key }

  abbrev pub empty_store : ApiKeyStore J
  empty_store = record { keys = []; keys_by_key = [] }

  unfoldable pub get : String → ApiKeyStore J → Option (ApiKey J)
  get id s = elim (lookup id s.keys) [ none ↦ none | some k ↦ some (mask_stored k) ]

  unfoldable pub list_keys : ApiKeyStore J → List (ApiKey J)
  list_keys s = map (λ e. mask_stored e.1) s.keys

  unfoldable pub updated : UpdateApiKeyRequest J → ApiKey J → ApiKey J
  updated request k = record k {
    name = unwrap_or request.name k.name;
    scopes = unwrap_or request.scopes k.scopes;
    enabled = unwrap_or request.enabled k.enabled;
    expires_at = unwrap_or request.expires_at k.expires_at;
    metadata = unwrap_or request.metadata k.metadata;
    org_id = unwrap_or request.org_id k.org_id;
    team_id = unwrap_or request.team_id k.team_id;
    user_id = unwrap_or request.user_id k.user_id;
    models = unwrap_or request.models k.models;
    rate_limit_override = unwrap_or request.rate_limit_override k.rate_limit_override;
    token_budget = unwrap_or request.token_budget k.token_budget;
  }

  -- `get_mut`, and a write to the entry.
  abbrev pub write_key : String → ApiKey J → ApiKeyStore J → ApiKeyStore J
  write_key id k s = record s { keys = insert id k s.keys }

  abbrev pub update_found :
      String
      → UpdateApiKeyRequest J
      → ApiKeyStore J
      → Option (ApiKey J)
      → ApiKeyStore J × Option (ApiKey J)
  update_found id request s none = (s, none)
  update_found id request s (some k) =
      (write_key id (updated request k) s, some (mask_stored (updated request k)))

  unfoldable pub update :
      String → UpdateApiKeyRequest J → ApiKeyStore J → ApiKeyStore J × Option (ApiKey J)
  unfolding updated
  update id request s = update_found id request s (lookup id s.keys)

  abbrev pub delete_found : String → ApiKeyStore J → Option (ApiKey J) → ApiKeyStore J × Bool
  delete_found id s none = (s, false)
  delete_found id s (some k) =
      (record { keys = remove id s.keys; keys_by_key = remove k.key s.keys_by_key }, true)

  unfoldable pub delete : String → ApiKeyStore J → ApiKeyStore J × Bool
  delete id s = delete_found id s (lookup id s.keys)

  abbrev pub revoke_found : String → ApiKeyStore J → Option (ApiKey J) → ApiKeyStore J × Bool
  revoke_found id s none = (s, false)
  revoke_found id s (some k) = (write_key id (record k { enabled = false }) s, true)

  unfoldable pub revoke : String → ApiKeyStore J → ApiKeyStore J × Bool
  revoke id s = revoke_found id s (lookup id s.keys)

  -- The entry after a use at the time `now`.
  unfoldable pub used : ℕ → ApiKey J → ApiKey J
  used now k = record k { last_used_at = some now; usage_count = wrapping_add k.usage_count 1 }

  -- The guards on an entry, given whether it is enabled and past its time, and the use of it.
  abbrev pub use_if_valid :
      (enabled past : Bool)
      → (later : ℕ) → String
      → ApiKeyStore J
      → ApiKey J
      → ApiKeyStore J × Option (ApiKey J)
  use_if_valid false past later id s k = (s, none)
  use_if_valid true true later id s k = (s, none)
  use_if_valid true false later id s k =
      (write_key id (used later k) s, some (mask_stored (used later k)))

  -- The entry that the index leads to; the clock is read twice.
  abbrev pub validate_found :
      (now later : ℕ)
      → String
      → ApiKeyStore J
      → Option (ApiKey J)
      → ApiKeyStore J × Option (ApiKey J)
  validate_found now later id s none = (s, none)
  validate_found now later id s (some k) =
      use_if_valid k.enabled (expired k.expires_at now) later id s k

  module _ (digest : String → String) where
    -- The entry of a new key.
    unfoldable pub new_key : (id key : String) (now : ℕ) → CreateApiKeyRequest J → ApiKey J
    unfolding hash_api_key
    new_key id key now request = record {
      id = id;
      name = request.name;
      key = hash_api_key digest key;
      scopes = request.scopes;
      enabled = true;
      created_at = now;
      last_used_at = none;
      expires_at = request.expires_at;
      usage_count = 0;
      metadata = request.metadata;
      org_id = request.org_id;
      team_id = request.team_id;
      user_id = request.user_id;
      models = request.models;
      rate_limit_override = request.rate_limit_override;
      token_budget = request.token_budget;
    }

    unfoldable pub create :
        (id key : String) (now : ℕ)
        → CreateApiKeyRequest J
        → ApiKeyStore J
        → ApiKeyStore J × ApiKey J
    unfolding new_key hash_api_key
    create id key now request s =
        let api_key = new_key id key now request in
        (
          record {
            keys = insert id api_key s.keys;
            keys_by_key = insert (hash_api_key digest key) id s.keys_by_key;
          },
          record api_key { key = key },
        )

    abbrev pub validate_id :
        (now later : ℕ) → ApiKeyStore J → Option String → ApiKeyStore J × Option (ApiKey J)
    validate_id now later s none = (s, none)
    validate_id now later s (some id) = validate_found now later id s (lookup id s.keys)

    unfoldable pub validate :
        (key : String) (now later : ℕ) → ApiKeyStore J → ApiKeyStore J × Option (ApiKey J)
    unfolding hash_api_key used
    validate key now later s =
        validate_id now later s (lookup (hash_api_key digest key) s.keys_by_key)

    abbrev pub rotate_found :
        (id key : String) → ApiKeyStore J → Option (ApiKey J) → ApiKeyStore J × Option (ApiKey J)
    rotate_found id key s none = (s, none)
    rotate_found id key s (some old) = (
      record {
        keys = insert id (record old { key = hash_api_key digest key }) s.keys;
        keys_by_key = insert (hash_api_key digest key) id (remove old.key s.keys_by_key);
      },
      some (record old { key = key }),
    )

    unfoldable pub rotate : (id key : String) → ApiKeyStore J → ApiKeyStore J × Option (ApiKey J)
    unfolding hash_api_key
    rotate id key s = rotate_found id key s (lookup id s.keys)
