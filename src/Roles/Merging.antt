-- ===== src/Roles/Merging.antt =====
-- crates/himadri-core/src/roles.rs, `merge`: the capabilities as the set of what they grant.
use himadri.Common.{String, ◌≡◌, ◌↔◌, refl, Bool, true, false, ◌||◌, List, [], ◌∷◌, ◌++◌, arith}
use himadri.Types.{contains}
use himadri.Rbac.Decision.{Any}
use himadri.Roles.{RoleCapabilities, merge, no_capabilities}

pub data Capability : Type 0 where
  execute submit_requests read_models use_any_model use_any_provider : Capability
  read_usage read_logs manage_keys manage_config manage_team manage_budget : Capability
  named : String → Capability

-- The abstract view: whether a capability is granted.
unfoldable pub grants : RoleCapabilities → Capability → Bool
grants r execute = r.can_execute
grants r submit_requests = r.can_submit_requests
grants r read_models = r.can_read_models
grants r use_any_model = r.can_use_any_model
grants r use_any_provider = r.can_use_any_provider
grants r read_usage = r.can_read_usage
grants r read_logs = r.can_read_logs
grants r manage_keys = r.can_manage_keys
grants r manage_config = r.can_manage_config
grants r manage_team = r.can_manage_team
grants r manage_budget = r.can_manage_budget
grants r (named c) = contains c r.custom_capabilities

contains-append :
    (c : String) (a b : List String) → contains c (a ++ b) ≡ (contains c a || contains c b)
unfolding contains
contains-append c [] b = refl
contains-append c (x ∷ a) b = ground (arith, contains-append c a b)

grants-merge :
    (a b : RoleCapabilities) (c : Capability) → grants (merge a b) c ≡ (grants a c || grants b c)
unfolding grants merge
grants-merge a b execute = refl
grants-merge a b submit_requests = refl
grants-merge a b read_models = refl
grants-merge a b use_any_model = refl
grants-merge a b use_any_provider = refl
grants-merge a b read_usage = refl
grants-merge a b read_logs = refl
grants-merge a b manage_keys = refl
grants-merge a b manage_config = refl
grants-merge a b manage_team = refl
grants-merge a b manage_budget = refl
grants-merge a b (named s) = contains-append s a.custom_capabilities b.custom_capabilities

-- The roles of a principal, merged in turn.
unfoldable pub merge_all : List RoleCapabilities → RoleCapabilities
merge_all [] = no_capabilities
merge_all (r ∷ rs) = merge r (merge_all rs)

no_capabilities-grants : (c : Capability) → grants no_capabilities c ≡ false
unfolding grants contains
no_capabilities-grants execute = refl
no_capabilities-grants submit_requests = refl
no_capabilities-grants read_models = refl
no_capabilities-grants use_any_model = refl
no_capabilities-grants use_any_provider = refl
no_capabilities-grants read_usage = refl
no_capabilities-grants read_logs = refl
no_capabilities-grants manage_keys = refl
no_capabilities-grants manage_config = refl
no_capabilities-grants manage_team = refl
no_capabilities-grants manage_budget = refl
no_capabilities-grants (named s) = refl

-- Merged roles grant exactly what one of them grants: nothing is lost, and nothing is added.
pub merge_all-grants_iff :
    (rs : List RoleCapabilities) (c : Capability)
    → (grants (merge_all rs) c ≡ true) ↔ Any (λ r. grants r c ≡ true) rs
unfolding merge_all
merge_all-grants_iff [] c = rw (no_capabilities-grants c) (λ h. cc, λ h. absurd h)
merge_all-grants_iff (r ∷ rs) c =
    rw (grants-merge r (merge_all rs) c) (ground (arith, merge_all-grants_iff rs c))
