-- ===== src/Rbac/Access.antt =====
-- crates/himadri-core/src/rbac.rs: merging the policies of a principal's roles and checking one
-- dimension of them.
use himadri.Common.{
  String, Bool, not, ◌||◌, List, [], ◌∷◌, ◌++◌, Option, none, some, if◌then◌else◌, lookup,
}
use himadri.Rbac.Pattern.{any_match}

pub data RbacDenial : Type 0 where
  no_matching_role : RbacDenial
  model_forbidden : String → RbacDenial
  provider_forbidden : String → RbacDenial

-- `Result<(), RbacDenial>`
pub data Checked : Type 0 where
  ok : Checked
  err : RbacDenial → Checked

-- `none` is no restriction.
pub record RolePolicy : Type 0 where
  pub models : Option (List String)
  pub providers : Option (List String)

pub record RbacConfig : Type 0 where
  pub enabled : Bool
  pub roles : List (String × RolePolicy)
  pub default_role : Option String

pub record EffectivePolicy : Type 0 where
  pub models : Option (List String)
  pub providers : Option (List String)

unfoldable pub merge_dimension : Option (List String) → Option (List String) → Option (List String)
merge_dimension acc none = none
merge_dimension none (some list) = none
merge_dimension (some a) (some list) = some (a ++ list)

-- `roles.iter().filter_map(|r| self.roles.get(r))`
unfoldable pub matched : RbacConfig → List String → List RolePolicy
matched config [] = []
matched config (r ∷ rs) = elim (lookup r config.roles) [
  | none ↦ matched config rs
  | some policy ↦ policy ∷ matched config rs
]

abbrev pub to_list {ℓ} : {A : Type ℓ} → Option A → List A
to_list none = []
to_list (some a) = a ∷ []

-- The policies of the default role; `none` if no default is configured.
unfoldable pub default_policies : RbacConfig → Option (List RolePolicy)
default_policies config = elim config.default_role [
  | none ↦ none
  | some default ↦ some (to_list (lookup default config.roles))
]

unfoldable pub merge_all : EffectivePolicy → List RolePolicy → EffectivePolicy
unfolding merge_dimension
merge_all acc [] = acc
merge_all acc (p ∷ ps) =
    merge_all
      (record {
        models = merge_dimension acc.models p.models;
        providers = merge_dimension acc.providers p.providers;
      })
      ps

-- What follows the choice of the policies: none is no match, and otherwise their union.
unfoldable pub union_of : List RolePolicy → Option EffectivePolicy
unfolding merge_all
union_of [] = none
union_of (p ∷ ps) = some (merge_all (record { models = some []; providers = some [] }) (p ∷ ps))

abbrev pub or_default : RbacConfig → List RolePolicy → Option (List RolePolicy)
or_default config [] = default_policies config
or_default config (p ∷ ps) = some (p ∷ ps)

unfoldable pub effective_policy : RbacConfig → List String → Option EffectivePolicy
unfolding matched default_policies union_of
effective_policy config roles = elim (or_default config (matched config roles)) [
  | none ↦ none
  | some policies ↦ union_of policies
]

abbrev pub decide : Option (List String) → String → RbacDenial → Checked
decide none value denial = ok
decide (some allowed) value denial = if any_match allowed value then ok else err denial

unfoldable pub check_dimension :
    RbacConfig
    → List String
    → Bool
    → String
    → (EffectivePolicy → Option (List String))
    → (String → RbacDenial)
    → Checked
unfolding effective_policy
check_dimension config roles is_admin value select deny =
    if not config.enabled || is_admin then ok else elim (effective_policy config roles) [
      | none ↦ err no_matching_role
      | some policy ↦ decide (select policy) value (deny value)
    ]

unfoldable pub check_model : RbacConfig → List String → Bool → String → Checked
unfolding check_dimension
check_model config roles is_admin model =
    check_dimension config roles is_admin model (λ p. p.models) model_forbidden

unfoldable pub check_provider : RbacConfig → List String → Bool → String → Checked
unfolding check_dimension
check_provider config roles is_admin provider =
    check_dimension config roles is_admin provider (λ p. p.providers) provider_forbidden
