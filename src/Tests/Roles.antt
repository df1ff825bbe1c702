-- ===== src/Tests/Roles.antt =====
-- crates/himadri-core/src/roles.rs on a few names and roles.
use text.Mathlib.Text.{◌==◌}
use himadri.Common.{◌≡◌, ◌↔◌, ◌⊎◌, String, refl, [], ◌∷◌, true, false, if◌then◌else◌}
use himadri.Rbac.Decision.{Any}
use himadri.Roles.{
  from_string, as_str, user_capabilities, analyst_capabilities, map_role, insert_role, okta,
  zitadel,
}
use himadri.Roles.Names.{from_string-as_str, map_role-insert_role}
use himadri.Roles.Merging.{read_usage, grants, merge_all, merge_all-grants_iff}

-- The two spellings are one role, with the first as its name.
spelling : as_str (from_string "poweruser") ≡ "power-user"
unfolding as_str from_string
spelling = refl

mapped : map_role okta "Group Administrator" ≡ "power-user"
unfolding map_role himadri.Common.lookup okta himadri.Common.insert
mapped = refl

from_string-as_str_example :
    from_string (as_str (from_string "ml-engineer")) ≡ from_string "ml-engineer"
from_string-as_str_example = from_string-as_str "ml-engineer"

map_role-insert_role_example :
    map_role (insert_role "viewer" "user" zitadel) "viewer"
    ≡ (if "viewer" == "viewer" then "user" else map_role zitadel "viewer")
map_role-insert_role_example = map_role-insert_role "viewer" "user" "viewer" zitadel

merge_all-grants_iff_example :
    (grants (merge_all (user_capabilities ∷ analyst_capabilities ∷ [])) read_usage ≡ true)
    ↔ Any (λ r. grants r read_usage ≡ true) (user_capabilities ∷ analyst_capabilities ∷ [])
merge_all-grants_iff_example =
    merge_all-grants_iff (user_capabilities ∷ analyst_capabilities ∷ []) read_usage
