-- ===== src/ApiKeys/Rotation.antt =====
-- crates/himadri-admin/src/store.rs: a new secret for a key, by `create` or by `rotate`.
use text.Mathlib.Text.{◌==◌}
use himadri.Common.{
  ℕ, String, ◌≡◌, ◌≢◌, inl, inr, ap, sym, ◌∙◌, true, false, not, ◌&&◌, List, none, some, is_some,
  Option-cases, lookup, insert, remove, text-cases, lookup-insert_self, lookup-insert_other,
  lookup-remove_self, lookup-remove_other,
}
use himadri.ApiKeys.{
  ApiKey, ApiKeyStore, CreateApiKeyRequest, validate, rotate, rotate_found, create, new_key,
  hash_api_key, expired,
}
use himadri.ApiKeys.Consistent.{Consistent}
use himadri.ApiKeys.Lifecycle.{validate_at, validate_unknown, use_if_valid_is, use_if_valid-same}

-- An answer from the map is not the answer of another text.
other_text :
    {V : Type 0} (a b : String) (v : V) (entries : List (String × V))
    → lookup a entries ≡ none
    → lookup b entries ≡ some v
    → (a == b) ≡ false
other_text a b v entries e f = elim (text-cases a b) [ inl p ↦ absurd (cc) | inr o ↦ o ]

apart : (a b : String) → a ≢ b → (a == b) ≡ false
apart a b h = elim (text-cases a b) [ inl p ↦ absurd (h p) | inr o ↦ o ]

module _ {J : Type 0} (digest : String → String) where
  -- Right after the creation of a key, its secret is accepted exactly at the times that come before the
  -- key's expiry, if it has one.
  pub validate-create :
      (s : ApiKeyStore J) (id key : String) (created now later : ℕ)
      (request : CreateApiKeyRequest J)
      → is_some (validate digest key now later (create digest id key created request s).0).1
        ≡ not (expired request.expires_at now)
  unfolding create new_key
  validate-create s id key created now later request =
      ap (λ p. is_some p.1)
        (validate_at digest (create digest id key created request s).0 key now later id
          (new_key digest id key created request)
          (lookup-insert_self (hash_api_key digest key) id s.keys_by_key)
          (lookup-insert_self id _ s.keys))
      ∙ use_if_valid_is true (expired request.expires_at now) later id _ _

  -- The store after a rotation of a key that it has.
  abbrev rotated : (id key : String) → ApiKeyStore J → ApiKey J → ApiKeyStore J
  rotated id key s old = (rotate_found digest id key s (some old)).0

  rotate-rotated :
      (s : ApiKeyStore J) (id key : String) (old : ApiKey J)
      → lookup id s.keys ≡ some old
      → (rotate digest id key s).0 ≡ rotated id key s old
  unfolding rotate
  rotate-rotated s id key old found = ap (λ f. (rotate_found digest id key s f).0) found

  at_hash :
      (s : ApiKeyStore J) (id : String) (old : ApiKey J)
      → Consistent s
      → lookup id s.keys ≡ some old
      → lookup old.key s.keys_by_key ≡ some id
  unfolding Consistent
  at_hash s id old consistent found = (consistent.0 id old found).0

  validate-rotated_old :
      (s : ApiKeyStore J) (id key secret : String) (now later : ℕ) (old : ApiKey J)
      → lookup old.key s.keys_by_key ≡ some id
      → lookup (hash_api_key digest key) s.keys_by_key ≡ none
      → hash_api_key digest secret ≡ old.key
      → (validate digest secret now later (rotated id key s old)).1 ≡ none
  validate-rotated_old s id key secret now later old at fresh same =
      let h = hash_api_key digest key in
      let o = other_text h old.key id s.keys_by_key fresh at in
      ap (λ p. p.1)
        (validate_unknown digest (rotated id key s old) secret now later (
          ap (λ z. lookup z (insert h id (remove old.key s.keys_by_key))) same
          ∙ lookup-insert_other h old.key id (remove old.key s.keys_by_key) o
          ∙ lookup-remove_self old.key s.keys_by_key))

  validate-rotated_new :
      (s : ApiKeyStore J) (id key : String) (now later : ℕ) (old : ApiKey J)
      → is_some (validate digest key now later (rotated id key s old)).1
        ≡ (old.enabled && not (expired old.expires_at now))
  validate-rotated_new s id key now later old =
      ap (λ p. is_some p.1)
        (validate_at digest (rotated id key s old) key now later id
          (record old { key = hash_api_key digest key })
          (lookup-insert_self (hash_api_key digest key) id _) (lookup-insert_self id _ s.keys))
      ∙ use_if_valid_is old.enabled (expired old.expires_at now) later id _ _

  validate-rotated_other :
      (s : ApiKeyStore J) (id key secret : String) (now later : ℕ) (old : ApiKey J)
      → Consistent s
      → lookup id s.keys ≡ some old
      → hash_api_key digest secret ≢ old.key
      → hash_api_key digest secret ≢ hash_api_key digest key
      → (validate digest secret now later (rotated id key s old)).1
        ≡ (validate digest secret now later s).1
  unfolding Consistent
  validate-rotated_other s id key secret now later old (by_id, by_hash) found not_old not_new =
      let h = hash_api_key digest key in
      let g = hash_api_key digest secret in
      let o1 = apart h g (λ p. not_new (sym p)) in
      let o2 = apart old.key g (λ p. not_old (sym p)) in
      let indexed =
        lookup-insert_other h g id (remove old.key s.keys_by_key) o1
        ∙ lookup-remove_other old.key g s.keys_by_key o2 in
      elim (Option-cases (lookup g s.keys_by_key)) [
        | inl e ↦
            ap (λ p. p.1)
              (validate_unknown digest (rotated id key s old) secret now later (indexed ∙ e))
            ∙ sym (ap (λ p. p.1) (validate_unknown digest s secret now later e))
        | inr (x, e) ↦
            let (y, at, key_of) = by_hash g x e in
            elim (text-cases id x) [
              | inl p ↦ absurd (not_old (cc))
              | inr o3 ↦
                  ap (λ p. p.1)
                    (validate_at digest (rotated id key s old) secret now later x y (indexed ∙ e)
                      (lookup-insert_other id x _ s.keys o3 ∙ at))
                  ∙ use_if_valid-same y.enabled (expired y.expires_at now) later x _ s y
                  ∙ sym (ap (λ p. p.1) (validate_at digest s secret now later x y e at))
            ]
      ]

  -- Once a key of a consistent store is rotated to a secret whose hash is fresh, the old secret is
  -- refused, the new one is accepted exactly while the key is enabled and has not expired, and every
  -- secret with another hash is answered as before.
  pub validate-rotate :
      (s : ApiKeyStore J) (id key : String) (now later : ℕ) (old : ApiKey J)
      → Consistent s
      → lookup id s.keys ≡ some old
      → lookup (hash_api_key digest key) s.keys_by_key ≡ none
      → ((secret : String)
          → hash_api_key digest secret ≡ old.key
          → (validate digest secret now later (rotate digest id key s).0).1 ≡ none)
        × (is_some (validate digest key now later (rotate digest id key s).0).1
            ≡ (old.enabled && not (expired old.expires_at now)))
        × ((secret : String)
            → hash_api_key digest secret ≢ old.key
            → hash_api_key digest secret ≢ hash_api_key digest key
            → (validate digest secret now later (rotate digest id key s).0).1
              ≡ (validate digest secret now later s).1)
  validate-rotate s id key now later old consistent found fresh =
      rw (rotate-rotated s id key old found) (
        λ secret same.
            validate-rotated_old s id key secret now later old (at_hash s id old consistent found)
              fresh same,
        validate-rotated_new s id key now later old,
        λ secret not_old not_new.
            validate-rotated_other s id key secret now later old consistent found not_old not_new,
      )
