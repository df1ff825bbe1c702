-- ===== src/Strategy/Dedup.antt =====
-- crates/himadri/src/strategy.rs, `dedup_targets`: which endpoints are left.
use mathlib.Core.Path.{subst}
use himadri.Common.{
  ◌≡◌, ◌↔◌, ◌⊎◌, inl, inr, refl, sym, String, true, false, List, [], ◌∷◌, Option, none, some, arith,
  eq_iff, Bool-cases, All, All-map,
}
use himadri.Types.{Target}
use himadri.Strategy.Select.{same_text, same_endpoint, seen, dedup_from, dedup_targets}

same_text_iff : (a b : Option String) → (same_text a b ≡ true) ↔ (a ≡ b)
same_text_iff none none = ground arith
same_text_iff none (some b) = ground arith
same_text_iff (some a) none = ground arith
same_text_iff (some a) (some b) = ground (arith, eq_iff a b)

module _ {F : Type 0} where
  -- The four parts of an endpoint's identity agree.
  pub record SameEndpoint (a b : Target F) : Type 0 where
    pub id : a.id ≡ b.id
    pub provider : a.provider ≡ b.provider
    pub api_key_env : a.api_key_env ≡ b.api_key_env
    pub base_url : a.base_url ≡ b.base_url

  pub same_endpoint_iff : (a b : Target F) → (same_endpoint a b ≡ true) ↔ SameEndpoint a b
  unfolding same_endpoint
  same_endpoint_iff a b = (
    λ h. record {
      id = (same_text_iff a.id b.id).0 (ground arith);
      provider = (eq_iff a.provider b.provider).0 (ground arith);
      api_key_env = (same_text_iff a.api_key_env b.api_key_env).0 (ground arith);
      base_url = (same_text_iff a.base_url b.base_url).0 (ground arith);
    },
    λ e. rw (
      (same_text_iff a.id b.id).1 e.id,
      (eq_iff a.provider b.provider).1 e.provider,
      (same_text_iff a.api_key_env b.api_key_env).1 e.api_key_env,
      (same_text_iff a.base_url b.base_url).1 e.base_url,
    ),
  )

  same_endpoint_refl : (a : Target F) → same_endpoint a a ≡ true
  same_endpoint_refl a =
      (same_endpoint_iff a a).1
        (record { id = refl; provider = refl; api_key_env = refl; base_url = refl })

  -- No two targets of the list have the same endpoint.
  abbrev pub Distinct : List (Target F) → Type 0
  Distinct [] = Unit
  Distinct (t ∷ ts) = All (λ s. same_endpoint t s ≡ false) ts × Distinct ts

  seen-cons :
      (t k : Target F) (known : List (Target F))
      → seen t (k ∷ known) ≡ false
      → (same_endpoint k t ≡ false) × (seen t known ≡ false)
  unfolding seen
  seen-cons t k known h = ground arith

  dedup_from_fresh :
      (known ts : List (Target F)) → All (λ s. seen s known ≡ false) (dedup_from known ts)
  unfolding dedup_from
  dedup_from_fresh known [] = tt
  dedup_from_fresh known (t ∷ ts) =
      let later = dedup_from_fresh (t ∷ known) ts in
      let same = dedup_from_fresh known ts in
      elim (Bool-cases (seen t known)) [
        | inl old ↦ rw old same
        | inr new ↦ rw new (new, All-map _ (λ s h. (seen-cons s t known h).1) later)
      ]

  pub dedup_from-Distinct : (known ts : List (Target F)) → Distinct (dedup_from known ts)
  unfolding dedup_from
  dedup_from-Distinct known [] = tt
  dedup_from-Distinct known (t ∷ ts) =
      let later = dedup_from-Distinct (t ∷ known) ts in
      let same = dedup_from-Distinct known ts in
      elim (Bool-cases (seen t known)) [
        | inl old ↦ rw old same
        | inr new ↦
            rw new (
              All-map _ (λ s h. (seen-cons s t known h).0) (dedup_from_fresh (t ∷ known) ts),
              later,
            )
      ]

  dedup_from-old :
      (t : Target F) (known ts : List (Target F))
      → seen t known ≡ true
      → dedup_from known (t ∷ ts) ≡ dedup_from known ts
  unfolding dedup_from
  dedup_from-old t known ts h = rw h

  dedup_from-new :
      (t : Target F) (known ts : List (Target F))
      → seen t known ≡ false
      → dedup_from known (t ∷ ts) ≡ t ∷ dedup_from (t ∷ known) ts
  unfolding dedup_from
  dedup_from-new t known ts h = rw h

  -- Known before, or in the result.
  abbrev Kept : List (Target F) → List (Target F) → Target F → Type 0
  Kept known result t = (seen t known ≡ true) ⊎ (seen t result ≡ true)

  Kept-cons :
      (t s : Target F) (known result : List (Target F))
      → Kept (t ∷ known) result s
      → Kept known (t ∷ result) s
  unfolding seen
  Kept-cons t s known result h = ground arith

  seen_self : (t : Target F) (ts : List (Target F)) → seen t (t ∷ ts) ≡ true
  unfolding seen
  seen_self t ts = rw (same_endpoint_refl t)

  dedup_from_keeps : (known ts : List (Target F)) → All (Kept known (dedup_from known ts)) ts
  dedup_from_keeps known [] = tt
  dedup_from_keeps known (t ∷ ts) =
      let later = dedup_from_keeps (t ∷ known) ts in
      let same = dedup_from_keeps known ts in
      elim (Bool-cases (seen t known)) [
        | inl old ↦
            subst (λ l. All (Kept known l) (t ∷ ts)) (sym (dedup_from-old t known ts old))
              (inl old, same)
        | inr new ↦
            subst (λ l. All (Kept known l) (t ∷ ts)) (sym (dedup_from-new t known ts new))
              (
                inr (seen_self t (dedup_from (t ∷ known) ts)),
                All-map ts (λ s h. Kept-cons t s known (dedup_from (t ∷ known) ts) h) later,
              )
      ]

  -- Every endpoint of the list is in the result.
  pub dedup_targets_keeps : (ts : List (Target F)) → All (λ t. seen t (dedup_targets ts) ≡ true) ts
  unfolding dedup_targets seen
  dedup_targets_keeps ts = All-map ts (λ t h. in_result t h) (dedup_from_keeps [] ts)
    where
      in_result :
          (t : Target F)
          → (seen t [] ≡ true) ⊎ (seen t (dedup_from [] ts) ≡ true)
          → seen t (dedup_from [] ts) ≡ true
      in_result t h = ground arith

  -- The first target is always kept, as the first.
  pub dedup_targets_head :
      (t : Target F) (ts : List (Target F)) → dedup_targets (t ∷ ts) ≡ t ∷ dedup_from (t ∷ []) ts
  unfolding dedup_targets dedup_from seen
  dedup_targets_head t ts = refl

module _ {F : Type 0} (P : Target F → Type 0) where
  pub dedup_from-All : (known ts : List (Target F)) → All P ts → All P (dedup_from known ts)
  unfolding dedup_from
  dedup_from-All known [] h = tt
  dedup_from-All known (t ∷ ts) (here, h) =
      let fresh = dedup_from-All (t ∷ known) ts h in
      let rest = dedup_from-All known ts h in
      elim (Bool-cases (seen t known)) [
        | inl dropped ↦ rw dropped rest
        | inr kept ↦ rw kept (here, fresh)
      ]
