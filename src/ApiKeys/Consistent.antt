-- ===== src/ApiKeys/Consistent.antt =====
-- crates/himadri-admin/src/store.rs: how the index of the secrets relates to the keys.
use himadri.Common.{
  String, ◌≡◌, ◌⊎◌, inl, inr, ap, sym, ◌∙◌, false, List, none, some, eq_refl, lookup, insert,
  remove, text-cases, lookup-insert_self, lookup-insert_other, lookup-remove_self,
  lookup-remove_other,
}
use mathlib.Core.Path.{subst}
use mathlib.Core.Option.{some-injective}
use text.Mathlib.Text.{◌==◌}
use himadri.ApiKeys.{ApiKey, ApiKeyStore, write_key}

-- What an insertion has changed: the key itself, and no other.
inserted :
    {V : Type 0} (key name : String) (value found : V) (entries : List (String × V))
    → lookup name (insert key value entries) ≡ some found
    → ((key ≡ name) × (value ≡ found))
      ⊎ (((key == name) ≡ false) × (lookup name entries ≡ some found))
inserted key name value found entries h = elim (text-cases key name) [
  | inl p ↦ inl (
    p,
    some-injective _ _ (
        sym (lookup-insert_self key value entries)
        ∙ subst (λ x. lookup x (insert key value entries) ≡ some found) (sym p) h),
  )
  | inr o ↦ inr (o, sym (lookup-insert_other key name value entries o) ∙ h)
]

removed :
    {V : Type 0} (key name : String) (found : V) (entries : List (String × V))
    → lookup name (remove key entries) ≡ some found
    → ((key == name) ≡ false) × (lookup name entries ≡ some found)
removed key name found entries h = elim (text-cases key name) [
  | inl p ↦
      let gone =
        sym (lookup-remove_self key entries)
        ∙ subst (λ x. lookup x (remove key entries) ≡ some found) (sym p) h in
      absurd (cc)
  | inr o ↦ (o, sym (lookup-remove_other key name entries o) ∙ h)
]

pub differ : (a b : String) → (a == b) ≡ false → a ≡ b → ⊥
differ a b h p = let e = sym h ∙ (ap (λ x. a == x) (sym p) ∙ eq_refl a) in absurd (cc)

module _ {J : Type 0} where
  -- Every key is found by its hash under its own id, and every hash leads to a key that has it.
  unfoldable pub Consistent : ApiKeyStore J → Type 0
  Consistent s =
      ((id : String) (k : ApiKey J)
        → lookup id s.keys ≡ some k
        → (lookup k.key s.keys_by_key ≡ some id) × (k.id ≡ id))
      × ((h id : String)
          → lookup h s.keys_by_key ≡ some id
          → (k : ApiKey J) × (lookup id s.keys ≡ some k) × (k.key ≡ h))

  pub write_key-Consistent :
      (s : ApiKeyStore J) (id : String) (old k : ApiKey J)
      → lookup id s.keys ≡ some old
      → k.key ≡ old.key
      → k.id ≡ old.id
      → Consistent s
      → Consistent (write_key id k s)
  unfolding Consistent
  write_key-Consistent s id old k found same_key same_id (by_id, by_hash) = (
    λ x y e. elim (inserted id x k y s.keys e) [
      | inl (p, q) ↦ let (a, b) = by_id id old found in (cc, cc)
      | inr (o, e2) ↦ by_id x y e2
    ],
    λ h x e.
        let (y, at, key) = by_hash h x e in
        elim (text-cases id x) [
          | inl p ↦ (
            k,
            ap (λ z. lookup z (insert id k s.keys)) (sym p) ∙ lookup-insert_self id k s.keys,
            cc,
          )
          | inr o ↦ (y, lookup-insert_other id x k s.keys o ∙ at, key)
        ],
  )

  -- A key at a fresh id, under a fresh hash.
  pub added-Consistent :
      (s : ApiKeyStore J) (k : ApiKey J)
      → lookup k.id s.keys ≡ none
      → lookup k.key s.keys_by_key ≡ none
      → Consistent s
      → Consistent
          (record { keys = insert k.id k s.keys; keys_by_key = insert k.key k.id s.keys_by_key })
  unfolding Consistent
  added-Consistent s k new_id new_hash (by_id, by_hash) = (
    λ x y e. elim (inserted k.id x k y s.keys e) [
      | inl (p, q) ↦ let self = lookup-insert_self k.key k.id s.keys_by_key in (cc, cc)
      | inr (o, e2) ↦
          let (a, b) = by_id x y e2 in
          elim (text-cases k.key y.key) [
            | inl p ↦ absurd (cc)
            | inr o2 ↦ (lookup-insert_other k.key y.key k.id s.keys_by_key o2 ∙ a, b)
          ]
    ],
    λ h x e. elim (inserted k.key h k.id x s.keys_by_key e) [
      | inl (p, q) ↦ (
        k,
        ap (λ z. lookup z (insert k.id k s.keys)) (sym q) ∙ lookup-insert_self k.id k s.keys,
        p,
      )
      | inr (o, e2) ↦
          let (y, at, key) = by_hash h x e2 in
          elim (text-cases k.id x) [
            | inl p ↦ absurd (cc)
            | inr o2 ↦ (y, lookup-insert_other k.id x k s.keys o2 ∙ at, key)
          ]
    ],
  )

  pub removed-Consistent :
      (s : ApiKeyStore J) (id : String) (old : ApiKey J)
      → lookup id s.keys ≡ some old
      → Consistent s
      → Consistent (record { keys = remove id s.keys; keys_by_key = remove old.key s.keys_by_key })
  unfolding Consistent
  removed-Consistent s id old found (by_id, by_hash) = (
    λ x y e.
        let (o, e2) = removed id x y s.keys e in
        let (a, b) = by_id x y e2 in
        let (c, d) = by_id id old found in
        elim (text-cases old.key y.key) [
          | inl p ↦ absurd (differ id x o (some-injective _ _ (cc)))
          | inr o2 ↦ (lookup-remove_other old.key y.key s.keys_by_key o2 ∙ a, b)
        ],
    λ h x e.
        let (o, e2) = removed old.key h x s.keys_by_key e in
        let (y, at, key) = by_hash h x e2 in
        elim (text-cases id x) [
          | inl p ↦ absurd (differ old.key h o (cc))
          | inr o2 ↦ (y, lookup-remove_other id x s.keys o2 ∙ at, key)
        ],
  )

  -- Another hash for a key, under which no key is found yet.
  pub rotated-Consistent :
      (s : ApiKeyStore J) (id hash : String) (old : ApiKey J)
      → lookup id s.keys ≡ some old
      → lookup hash s.keys_by_key ≡ none
      → Consistent s
      → Consistent (record {
        keys = insert id (record old { key = hash }) s.keys;
        keys_by_key = insert hash id (remove old.key s.keys_by_key);
      })
  unfolding Consistent
  rotated-Consistent s id hash old found fresh (by_id, by_hash) = (
    λ x y e. elim (inserted id x (record old { key = hash }) y s.keys e) [
      | inl (p, q) ↦
          let self = lookup-insert_self hash id (remove old.key s.keys_by_key) in
          let (c, d) = by_id id old found in (cc, cc)
      | inr (o, e2) ↦
          let (a, b) = by_id x y e2 in
          let (c, d) = by_id id old found in
          elim (text-cases hash y.key) [
            | inl p ↦ absurd (cc)
            | inr o2 ↦ elim (text-cases old.key y.key) [
              | inl p ↦ absurd (differ id x o (some-injective _ _ (cc)))
              | inr o3 ↦ (
                lookup-insert_other hash y.key id (remove old.key s.keys_by_key) o2
                    ∙ lookup-remove_other old.key y.key s.keys_by_key o3
                    ∙ a,
                b,
              )
            ]
          ]
    ],
    λ h x e. elim (inserted hash h id x (remove old.key s.keys_by_key) e) [
      | inl (p, q) ↦ (
        record old { key = hash },
        ap (λ z. lookup z (insert id (record old { key = hash }) s.keys)) (sym q)
            ∙ lookup-insert_self id (record old { key = hash }) s.keys,
        p,
      )
      | inr (o, e2) ↦
          let (o2, e3) = removed old.key h x s.keys_by_key e2 in
          let (y, at, key) = by_hash h x e3 in
          elim (text-cases id x) [
            | inl p ↦ absurd (differ old.key h o2 (cc))
            | inr o3 ↦ (y, lookup-insert_other id x _ s.keys o3 ∙ at, key)
          ]
    ],
  )
