-- ===== src/Rbac/Decision.antt =====
-- crates/himadri-core/src/rbac.rs: who may use a model or a provider.
use himadri.Common.{
  String, ◌≡◌, ◌↔◌, ◌⊎◌, inl, inr, refl, ap, ◌∙◌, Bool, true, false, not, ◌||◌, List, [], ◌∷◌, ◌++◌,
  Option, none, some, arith, Bool-cases, Option-cases,
}
use himadri.Rbac.Pattern.{any_match, pattern_matches, codes}
use himadri.Rbac.Glob.{Glob}
use himadri.Rbac.Greedy.{pattern_matches_iff}
use himadri.Rbac.Access.{
  RbacDenial, no_matching_role, model_forbidden, provider_forbidden, Checked, ok, err, RolePolicy,
  RbacConfig, EffectivePolicy, merge_dimension, matched, merge_all, union_of, or_default,
  effective_policy, decide, check_dimension, check_model, check_provider,
}

abbrev pub Any {ℓ} : {A : Type ℓ} → (A → Type 0) → List A → Type 0
Any P [] = ⊥
Any P (x ∷ xs) = P x ⊎ Any P xs

-- No allow-list, or one with a pattern that the value matches.
abbrev pub Permits : Option (List String) → String → Type 0
Permits none value = Unit
Permits (some patterns) value = Any (λ p. Glob (codes p) (codes value)) patterns

-- The policies that apply to a principal: those of its roles, or else the default role's.
pub policies_for : RbacConfig → List String → List RolePolicy
policies_for config roles = elim (or_default config (matched config roles)) [
  | none ↦ []
  | some policies ↦ policies
]

any_match-Any :
    (patterns : List String) (value : String)
    → (any_match patterns value ≡ true) ↔ Any (λ p. Glob (codes p) (codes value)) patterns
unfolding any_match
any_match-Any [] value = (λ h. cc, λ h. absurd h)
any_match-Any (p ∷ ps) value =
    let (to, from) = pattern_matches_iff p value in
    let (to_rest, from_rest) = any_match-Any ps value in
    (
      λ h. elim (Bool-cases (pattern_matches p value)) [
        | inl e ↦ inl (to e)
        | inr e ↦ inr (to_rest (ground arith))
      ],
      λ a. elim a [ inl g ↦ rw (from g) | inr r ↦ ground (arith, from_rest r) ],
    )

any_match-append :
    (xs ys : List String) (value : String)
    → any_match (xs ++ ys) value ≡ (any_match xs value || any_match ys value)
unfolding any_match
any_match-append [] ys value = refl
any_match-append (x ∷ xs) ys value = ground (arith, any_match-append xs ys value)

abbrev allows : Option (List String) → String → Bool
allows none value = true
allows (some patterns) value = any_match patterns value

allows-Permits :
    (d : Option (List String)) (value : String) → (allows d value ≡ true) ↔ Permits d value
allows-Permits none value = (λ h. tt, λ h. refl)
allows-Permits (some patterns) value = any_match-Any patterns value

allows-merge_dimension :
    (acc item : Option (List String)) (value : String)
    → allows (merge_dimension acc item) value ≡ (allows acc value || allows item value)
unfolding merge_dimension
allows-merge_dimension none none value = refl
allows-merge_dimension (some a) none value = ground arith
allows-merge_dimension none (some l) value = refl
allows-merge_dimension (some a) (some l) value = any_match-append a l value

or_true : (a b c : Bool) → c ≡ (a || b) → b ≡ true → c ≡ true
or_true a b c e h = ground arith

not_both : (b : Bool) → b ≡ true → b ≡ false → ⊥
not_both b t f = cc

bypass {ℓ} :
    {P : Type ℓ} (enabled is_admin : Bool)
    → (not enabled || is_admin) ≡ true
    → (enabled ≡ false) ⊎ ((is_admin ≡ true) ⊎ P)
bypass false is_admin h = inl refl
bypass true true h = inr (inl refl)
bypass true false h = cc

decide-ok :
    (o : Option (List String)) (value : String) (denial : RbacDenial)
    → (decide o value denial ≡ ok) ↔ (allows o value ≡ true)
decide-ok none value denial = (λ h. refl, λ h. refl)
decide-ok (some l) value denial = (λ h. ground arith, λ h. rw h)

-- A dimension: its reading of one role's policy and of the merged one.
record Dimension : Type 0 where
  of_role : RolePolicy → Option (List String)
  of_all : EffectivePolicy → Option (List String)
  merged :
      (acc : EffectivePolicy) (p : RolePolicy)
      → of_all (record {
        models = merge_dimension acc.models p.models;
        providers = merge_dimension acc.providers p.providers;
      })
        ≡ merge_dimension (of_all acc) (of_role p)
  nothing :
      (value : String)
      → allows (of_all (record { models = some []; providers = some [] })) value ≡ false

effective_policy-union_of :
    (config : RbacConfig) (roles : List String)
    → effective_policy config roles ≡ union_of (policies_for config roles)
unfolding effective_policy policies_for
effective_policy-union_of config roles =
    elim (Option-cases (or_default config (matched config roles))) [
      | inl e ↦ rw (e, effective_policy, policies_for)
      | inr (ps, e) ↦ rw (e, effective_policy, policies_for)
    ]

module _ (d : Dimension) (value : String) where
  abbrev PermittedBy : RolePolicy → Type 0
  PermittedBy p = Permits (d.of_role p) value

  merge_all_iff :
      (acc : EffectivePolicy) (ps : List RolePolicy)
      → (allows (d.of_all (merge_all acc ps)) value ≡ true)
        ↔ ((allows (d.of_all acc) value ≡ true) ⊎ Any PermittedBy ps)
  unfolding merge_all
  merge_all_iff acc [] = (λ h. inl h, λ a. elim a [ inl h ↦ h | inr r ↦ absurd r ])
  merge_all_iff acc (p ∷ ps) =
      let next : EffectivePolicy = record {
        models = merge_dimension acc.models p.models;
        providers = merge_dimension acc.providers p.providers;
      } in
      let (to, from) = merge_all_iff next ps in
      let split : allows (d.of_all next) value
          ≡ (allows (d.of_all acc) value || allows (d.of_role p) value) =
        ap (λ o. allows o value) (d.merged acc p)
        ∙ allows-merge_dimension (d.of_all acc) (d.of_role p) value in
      let (permits, permitted) = allows-Permits (d.of_role p) value in
      (
        λ h. elim (to h) [
          | inl now ↦ elim (Bool-cases (allows (d.of_all acc) value)) [
            | inl before ↦ inl before
            | inr not_before ↦ inr (inl (permits (ground arith)))
          ]
          | inr rest ↦ inr (inr rest)
        ],
        λ a. elim a [
          | inl before ↦ from (inl (ground arith))
          | inr (inl here) ↦ from (inl (or_true _ _ _ split (permitted here)))
          | inr (inr rest) ↦ from (inr rest)
        ],
      )

  union_of_iff :
      (ps : List RolePolicy) (denial : RbacDenial)
      → (elim (union_of ps) as (λ o. Checked) [
        | none ↦ err no_matching_role
        | some policy ↦ decide (d.of_all policy) value denial
      ]
          ≡ ok)
        ↔ Any PermittedBy ps
  unfolding union_of
  union_of_iff [] denial = (λ h. cc, λ h. absurd h)
  union_of_iff (p ∷ ps) denial =
      let empty : EffectivePolicy = record { models = some []; providers = some [] } in
      let (to, from) = merge_all_iff empty (p ∷ ps) in
      let (to_allowed, to_ok) = decide-ok (d.of_all (merge_all empty (p ∷ ps))) value denial in
      (
        λ h. elim (to (to_allowed h)) [
          | inl impossible ↦ absurd (not_both _ impossible (d.nothing value))
          | inr a ↦ a
        ],
        λ a. to_ok (from (inr a)),
      )

  check_dimension_iff :
      (config : RbacConfig) (roles : List String) (is_admin : Bool) (deny : String → RbacDenial)
      → (check_dimension config roles is_admin value d.of_all deny ≡ ok) ↔ (
          (config.enabled ≡ false)
          ⊎ ((is_admin ≡ true) ⊎ Any PermittedBy (policies_for config roles)))
  unfolding check_dimension
  check_dimension_iff config roles is_admin deny =
      let (to, from) = union_of_iff (policies_for config roles) (deny value) in
      elim (Bool-cases (not config.enabled || is_admin)) [
        | inl open_to_all ↦ (λ h. bypass _ _ open_to_all, λ a. rw open_to_all)
        | inr checked ↦
            rw (checked, effective_policy-union_of config roles)
              (
                λ h. inr (inr (to h)),
                λ a. elim a [
                  | inl off ↦ absurd (ground arith)
                  | inr (inl admin) ↦ absurd (ground arith)
                  | inr (inr r) ↦ from r
                ],
              )
      ]

models : Dimension
unfolding merge_dimension
models = record {
  of_role = λ p. p.models;
  of_all = λ p. p.models;
  merged = λ acc p. refl;
  nothing = λ value. unfold any_match in refl;
}

providers : Dimension
unfolding merge_dimension
providers = record {
  of_role = λ p. p.providers;
  of_all = λ p. p.providers;
  merged = λ acc p. refl;
  nothing = λ value. unfold any_match in refl;
}

-- A principal may use a model exactly when access control is off, or the principal is an admin, or
-- one of the policies that apply to it (those of its roles that are configured, or else the
-- default role's) lists no models or lists a pattern that the model matches.
pub check_model_iff :
    (config : RbacConfig) (roles : List String) (is_admin : Bool) (model : String)
    → (check_model config roles is_admin model ≡ ok) ↔ (
        (config.enabled ≡ false)
        ⊎ ((is_admin ≡ true) ⊎ Any (λ p. Permits p.models model) (policies_for config roles)))
unfolding check_model models
check_model_iff config roles is_admin model =
    check_dimension_iff models model config roles is_admin model_forbidden

-- A principal may route to a provider exactly when access control is off, or the principal is an
-- admin, or one of the policies that apply to it lists no providers or lists a pattern that the
-- provider matches.
pub check_provider_iff :
    (config : RbacConfig) (roles : List String) (is_admin : Bool) (provider : String)
    → (check_provider config roles is_admin provider ≡ ok) ↔ (
        (config.enabled ≡ false)
        ⊎ ((is_admin ≡ true) ⊎ Any (λ p. Permits p.providers provider) (policies_for config roles)))
unfolding check_provider providers
check_provider_iff config roles is_admin provider =
    check_dimension_iff providers provider config roles is_admin provider_forbidden
