-- ===== src/Tests/Rbac.antt =====
-- crates/himadri-core/src/rbac.rs on a configuration with two roles and a default role.
use himadri.Common.{◌≡◌, ◌↔◌, ◌⊎◌, refl, [], ◌∷◌, true, false, none, some}
use himadri.Rbac.Pattern.{codes, pattern_matches}
use himadri.Rbac.Glob.{Glob}
use himadri.Rbac.Greedy.{pattern_matches_iff}
use himadri.Rbac.Access.{RolePolicy, RbacConfig, ok, check_model}
use himadri.Rbac.Decision.{Any, Permits, policies_for, check_model_iff}

abbrev developer : RolePolicy
developer = record { models = some ("gpt-4*" ∷ []); providers = some ("openai" ∷ []) }

abbrev viewer : RolePolicy
viewer = record { models = some ("gpt-3.5*" ∷ []); providers = none }

abbrev pub access : RbacConfig
access = record {
  enabled = true;
  roles = ("developer", developer) ∷ ("viewer", viewer) ∷ [];
  default_role = some "viewer";
}

two_stars : pattern_matches "a*b*c" "aXbbYc" ≡ true
unfolding pattern_matches
two_stars = refl

no_overlap : pattern_matches "ab*ba" "aba" ≡ false
unfolding pattern_matches
no_overlap = refl

pattern_matches_iff_example :
    (pattern_matches "gpt-4*" "gpt-4o" ≡ true) ↔ Glob (codes "gpt-4*") (codes "gpt-4o")
pattern_matches_iff_example = pattern_matches_iff "gpt-4*" "gpt-4o"

check_model_iff_example : (check_model access ("developer" ∷ []) false "gpt-4o" ≡ ok) ↔ (
    (true ≡ false)
    ⊎ ((false ≡ true)
        ⊎ Any (λ p. Permits p.models "gpt-4o") (policies_for access ("developer" ∷ []))))
check_model_iff_example = check_model_iff access ("developer" ∷ []) false "gpt-4o"
