-- ===== src/ApiKeys/Runs.antt =====
-- crates/himadri-admin/src/store.rs: runs of operations on a store that begins empty.
use himadri.Common.{
  ℕ, String, ◌≡◌, refl, Bool, true, false, List, [], ◌∷◌, Option, none, some, lookup,
}
use himadri.ApiKeys.{
  ApiKey, ApiKeyStore, CreateApiKeyRequest, UpdateApiKeyRequest, updated, used, update,
  update_found, delete, delete_found, revoke, revoke_found, validate, validate_id, validate_found,
  use_if_valid, rotate, rotate_found, create, new_key, hash_api_key, empty_store, expired,
}
use himadri.ApiKeys.Consistent.{
  Consistent, write_key-Consistent, added-Consistent, removed-Consistent, rotated-Consistent,
}

-- The operations that may change the store, with what is drawn at random and the clock's readings.
pub data Op (J : Type 0) : Type 0 where
  creating : (id key : String) (now : ℕ) → CreateApiKeyRequest J → Op J
  updating : (id : String) → UpdateApiKeyRequest J → Op J
  deleting : (id : String) → Op J
  validating : (key : String) (now later : ℕ) → Op J
  revoking : (id : String) → Op J
  rotating : (id key : String) → Op J

module _ {J : Type 0} (digest : String → String) where
  unfoldable pub perform : Op J → ApiKeyStore J → ApiKeyStore J
  perform (creating id key now request) s = (create digest id key now request s).0
  perform (updating id request) s = (update id request s).0
  perform (deleting id) s = (delete id s).0
  perform (validating key now later) s = (validate digest key now later s).0
  perform (revoking id) s = (revoke id s).0
  perform (rotating id key) s = (rotate digest id key s).0

  unfoldable pub run : List (Op J) → ApiKeyStore J → ApiKeyStore J
  unfolding perform
  run [] s = s
  run (op ∷ ops) s = run ops (perform op s)

  -- What is drawn at random is new: an id, and the hash of a secret.
  unfoldable pub Fresh : Op J → ApiKeyStore J → Type 0
  Fresh (creating id key now request) s =
      (lookup id s.keys ≡ none) × (lookup (hash_api_key digest key) s.keys_by_key ≡ none)
  Fresh (rotating id key) s = lookup (hash_api_key digest key) s.keys_by_key ≡ none
  Fresh _ s = Unit

  unfoldable pub AllFresh : List (Op J) → ApiKeyStore J → Type 0
  AllFresh [] s = Unit
  AllFresh (op ∷ ops) s = Fresh op s × AllFresh ops (perform op s)

  update_found-Consistent :
      (id : String) (request : UpdateApiKeyRequest J) (s : ApiKeyStore J)
      (found : Option (ApiKey J))
      → lookup id s.keys ≡ found
      → Consistent s
      → Consistent (update_found id request s found).0
  unfolding updated
  update_found-Consistent id request s none e h = h
  update_found-Consistent id request s (some k) e h =
      write_key-Consistent s id k (updated request k) e refl refl h

  delete_found-Consistent :
      (id : String) (s : ApiKeyStore J) (found : Option (ApiKey J))
      → lookup id s.keys ≡ found
      → Consistent s
      → Consistent (delete_found id s found).0
  delete_found-Consistent id s none e h = h
  delete_found-Consistent id s (some k) e h = removed-Consistent s id k e h

  revoke_found-Consistent :
      (id : String) (s : ApiKeyStore J) (found : Option (ApiKey J))
      → lookup id s.keys ≡ found
      → Consistent s
      → Consistent (revoke_found id s found).0
  revoke_found-Consistent id s none e h = h
  revoke_found-Consistent id s (some k) e h = write_key-Consistent s id k _ e refl refl h

  use_if_valid-Consistent :
      (enabled past : Bool) (later : ℕ) (id : String) (s : ApiKeyStore J) (k : ApiKey J)
      → lookup id s.keys ≡ some k
      → Consistent s
      → Consistent (use_if_valid enabled past later id s k).0
  unfolding used
  use_if_valid-Consistent false past later id s k e h = h
  use_if_valid-Consistent true true later id s k e h = h
  use_if_valid-Consistent true false later id s k e h =
      write_key-Consistent s id k (used later k) e refl refl h

  validate_found-Consistent :
      (now later : ℕ) (id : String) (s : ApiKeyStore J) (found : Option (ApiKey J))
      → lookup id s.keys ≡ found
      → Consistent s
      → Consistent (validate_found now later id s found).0
  validate_found-Consistent now later id s none e h = h
  validate_found-Consistent now later id s (some k) e h =
      use_if_valid-Consistent k.enabled (expired k.expires_at now) later id s k e h

  validate_id-Consistent :
      (now later : ℕ) (s : ApiKeyStore J) (found : Option String)
      → Consistent s
      → Consistent (validate_id digest now later s found).0
  validate_id-Consistent now later s none h = h
  validate_id-Consistent now later s (some id) h =
      validate_found-Consistent now later id s (lookup id s.keys) refl h

  rotate_found-Consistent :
      (id key : String) (s : ApiKeyStore J) (found : Option (ApiKey J))
      → lookup id s.keys ≡ found
      → lookup (hash_api_key digest key) s.keys_by_key ≡ none
      → Consistent s
      → Consistent (rotate_found digest id key s found).0
  rotate_found-Consistent id key s none e fresh h = h
  rotate_found-Consistent id key s (some old) e fresh h =
      rotated-Consistent s id (hash_api_key digest key) old e fresh h

  perform-Consistent :
      (op : Op J) (s : ApiKeyStore J) → Fresh op s → Consistent s → Consistent (perform op s)
  unfolding perform Fresh create new_key update delete validate revoke rotate
  perform-Consistent (creating id key now request) s (new_id, new_hash) h =
      added-Consistent s (new_key digest id key now request) new_id new_hash h
  perform-Consistent (updating id request) s fresh h = update_found-Consistent id request s _ refl h
  perform-Consistent (deleting id) s fresh h = delete_found-Consistent id s _ refl h
  perform-Consistent (validating key now later) s fresh h =
      validate_id-Consistent now later s (lookup (hash_api_key digest key) s.keys_by_key) h
  perform-Consistent (revoking id) s fresh h = revoke_found-Consistent id s _ refl h
  perform-Consistent (rotating id key) s fresh h = rotate_found-Consistent id key s _ refl fresh h

  run-Consistent :
      (ops : List (Op J)) (s : ApiKeyStore J)
      → AllFresh ops s
      → Consistent s
      → Consistent (run ops s)
  unfolding run AllFresh
  run-Consistent [] s fresh h = h
  run-Consistent (op ∷ ops) s fresh h =
      run-Consistent ops (perform op s) fresh.1 (perform-Consistent op s fresh.0 h)

  -- After every run of operations on an empty store, in which each new id and each new hash is fresh,
  -- each key is found by its hash, and each hash that is stored leads to the key that has it.
  pub run-empty_store :
      (ops : List (Op J)) → AllFresh ops empty_store → Consistent (run ops empty_store)
  unfolding Consistent lookup
  run-empty_store ops fresh =
      run-Consistent ops empty_store fresh (λ id k e. absurd (cc), λ h id e. absurd (cc))
