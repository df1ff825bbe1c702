-- ===== src/ApiKeys/Lifecycle.antt =====
-- crates/himadri-admin/src/store.rs: which secrets are accepted, and how the operations change that.
use himadri.Common.{
  ℕ, String, ◌≡◌, ◌↔◌, inl, inr, refl, ap, sym, ◌∙◌, Bool, true, false, not, ◌&&◌, none, some,
  is_some, Option-cases, lookup, remove, lookup-insert_self, lookup-remove_self,
}
use mathlib.Core.Path.{subst}
use mathlib.Core.Option.{some-injective}
use himadri.ApiKeys.{
  ApiKey, ApiKeyStore, write_key, delete, delete_found, revoke, revoke_found, validate, validate_id,
  validate_found, use_if_valid, hash_api_key, expired,
}
use himadri.ApiKeys.Consistent.{Consistent}

module _ {J : Type 0} where
  -- The entry may be used at the time.
  abbrev pub Usable : ApiKey J → ℕ → Type 0
  Usable k now = (k.enabled ≡ true) × (expired k.expires_at now ≡ false)

  use_if_valid_iff :
      (enabled past : Bool) (later : ℕ) (id : String) (s : ApiKeyStore J) (k : ApiKey J)
      → (is_some (use_if_valid enabled past later id s k).1 ≡ true)
        ↔ ((enabled ≡ true) × (past ≡ false))
  use_if_valid_iff false past later id s k = (λ h. absurd (cc), λ h. h.0)
  use_if_valid_iff true true later id s k = (λ h. absurd (cc), λ h. sym h.1)
  use_if_valid_iff true false later id s k = (λ h. (refl, refl), λ h. refl)

  pub use_if_valid_is :
      (enabled past : Bool) (later : ℕ) (id : String) (s : ApiKeyStore J) (k : ApiKey J)
      → is_some (use_if_valid enabled past later id s k).1 ≡ (enabled && not past)
  use_if_valid_is false past later id s k = refl
  use_if_valid_is true true later id s k = refl
  use_if_valid_is true false later id s k = refl

  -- The answers of two stores on one entry.
  pub use_if_valid-same :
      (enabled past : Bool) (later : ℕ) (id : String) (s t : ApiKeyStore J) (k : ApiKey J)
      → (use_if_valid enabled past later id s k).1 ≡ (use_if_valid enabled past later id t k).1
  use_if_valid-same false past later id s t k = refl
  use_if_valid-same true true later id s t k = refl
  use_if_valid-same true false later id s t k = refl

  module _ (digest : String → String) where
    pub validate_at :
        (s : ApiKeyStore J) (key : String) (now later : ℕ) (id : String) (k : ApiKey J)
        → lookup (hash_api_key digest key) s.keys_by_key ≡ some id
        → lookup id s.keys ≡ some k
        → validate digest key now later s
          ≡ use_if_valid k.enabled (expired k.expires_at now) later id s k
    unfolding validate
    validate_at s key now later id k e f =
        ap (validate_id digest now later s) e ∙ ap (validate_found now later id s) f

    pub validate_unknown :
        (s : ApiKeyStore J) (key : String) (now later : ℕ)
        → lookup (hash_api_key digest key) s.keys_by_key ≡ none
        → validate digest key now later s ≡ (s, none)
    unfolding validate
    validate_unknown s key now later e = ap (validate_id digest now later s) e

    -- In a consistent store a secret is accepted exactly when some key has its hash, is enabled and has
    -- not expired.
    pub validate_iff :
        (s : ApiKeyStore J) (key : String) (now later : ℕ)
        → Consistent s
        → (is_some (validate digest key now later s).1 ≡ true) ↔ (
            (id : String) × (k : ApiKey J) × (lookup id s.keys ≡ some k)
            × (k.key ≡ hash_api_key digest key)
            × Usable k now)
    unfolding Consistent
    validate_iff s key now later (by_id, by_hash) =
        let h = hash_api_key digest key in
        elim (Option-cases (lookup h s.keys_by_key)) [
          | inl e ↦ (
            λ ok. let r = validate_unknown s key now later e in absurd (cc),
            λ (id, k, at, same, usable). let (a, b) = by_id id k at in absurd (cc),
          )
          | inr (x, e) ↦
              let (y, found, key_of) = by_hash h x e in
              let r = validate_at s key now later x y e found in
              let (to, from) = use_if_valid_iff y.enabled (expired y.expires_at now) later x s y in
              (
                λ ok. (x, y, found, key_of, to (ap (λ p. is_some p.1) (sym r) ∙ ok)),
                λ (id, k, at, same, usable).
                    let (a, b) = by_id id k at in
                    let id_of =
                      some-injective id x (sym a ∙ ap (λ z. lookup z s.keys_by_key) same ∙ e) in
                    let k_of =
                      some-injective k y (sym at ∙ ap (λ z. lookup z s.keys) id_of ∙ found) in
                    ap (λ p. is_some p.1) r ∙ from (subst (λ z. Usable z now) k_of usable),
              )
        ]

    -- A secret is refused at any time once its key is deleted or revoked.
    pub validate-withdrawn :
        (s : ApiKeyStore J) (id key : String) (now later : ℕ) (k : ApiKey J)
        → Consistent s
        → lookup id s.keys ≡ some k
        → hash_api_key digest key ≡ k.key
        → ((validate digest key now later (delete id s).0).1 ≡ none)
          × ((validate digest key now later (revoke id s).0).1 ≡ none)
    unfolding Consistent delete revoke
    validate-withdrawn s id key now later k (by_id, by_hash) found same =
        let (a, b) = by_id id k found in
        (
          ap (λ f. (validate digest key now later (delete_found id s f).0).1) found
              ∙ ap (λ p. p.1)
                  (validate_unknown _ key now later (
                    ap (λ h. lookup h (remove k.key s.keys_by_key)) same
                    ∙ lookup-remove_self k.key s.keys_by_key)),
          ap (λ f. (validate digest key now later (revoke_found id s f).0).1) found
              ∙ ap (λ p. p.1)
                  (validate_at (write_key id (record k { enabled = false }) s) key now later id _
                    (ap (λ h. lookup h s.keys_by_key) same ∙ a) (lookup-insert_self id _ s.keys)),
        )
