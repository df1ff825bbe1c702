-- ===== src/Roles.antt =====
-- crates/himadri-core/src/roles.rs: the catalogue of roles, what they may do, and the names that the
-- vendors of identities give them. A `HashSet<String>` is a list, compared by what it contains.
pub mod Names
pub mod Merging
use text.Mathlib.Text.{◌==◌}
use himadri.Common.{
  String, Bool, true, false, ◌||◌, List, [], ◌∷◌, ◌++◌, Option, none, some, if◌then◌else◌, lookup,
  insert, unwrap_or,
}

pub data StandardRole : Type 0 where
  user power_user analyst admin : StandardRole
  custom : String → StandardRole

-- A `match` on the text.
unfoldable pub from_string : String → StandardRole
from_string s =
    if s == "user"
    then user
    else if s == "power-user"
    then power_user
    else if s == "poweruser"
    then power_user
    else if s == "analyst"
    then analyst
    else if s == "admin"
    then admin
    else custom s

unfoldable pub as_str : StandardRole → String
as_str user = "user"
as_str power_user = "power-user"
as_str analyst = "analyst"
as_str admin = "admin"
as_str (custom name) = name

pub record RoleCapabilities : Type 0 where
  pub can_execute : Bool
  pub can_submit_requests : Bool
  pub can_read_models : Bool
  pub can_use_any_model : Bool
  pub can_use_any_provider : Bool
  pub can_read_usage : Bool
  pub can_read_logs : Bool
  pub can_manage_keys : Bool
  pub can_manage_config : Bool
  pub can_manage_team : Bool
  pub can_manage_budget : Bool
  pub custom_capabilities : List String

-- The constructors of `RoleCapabilities` by role.
abbrev pub no_capabilities : RoleCapabilities
no_capabilities = record {
  can_execute = false;
  can_submit_requests = false;
  can_read_models = false;
  can_use_any_model = false;
  can_use_any_provider = false;
  can_read_usage = false;
  can_read_logs = false;
  can_manage_keys = false;
  can_manage_config = false;
  can_manage_team = false;
  can_manage_budget = false;
  custom_capabilities = [];
}

abbrev pub user_capabilities : RoleCapabilities
user_capabilities = record {
  can_execute = true;
  can_submit_requests = true;
  can_read_models = true;
  can_use_any_model = false;
  can_use_any_provider = false;
  can_read_usage = false;
  can_read_logs = false;
  can_manage_keys = false;
  can_manage_config = false;
  can_manage_team = false;
  can_manage_budget = false;
  custom_capabilities = [];
}

abbrev pub power_user_capabilities : RoleCapabilities
power_user_capabilities = record {
  can_execute = true;
  can_submit_requests = true;
  can_read_models = true;
  can_use_any_model = true;
  can_use_any_provider = true;
  can_read_usage = false;
  can_read_logs = false;
  can_manage_keys = false;
  can_manage_config = false;
  can_manage_team = false;
  can_manage_budget = false;
  custom_capabilities = [];
}

abbrev pub analyst_capabilities : RoleCapabilities
analyst_capabilities = record {
  can_execute = false;
  can_submit_requests = false;
  can_read_models = true;
  can_use_any_model = false;
  can_use_any_provider = false;
  can_read_usage = true;
  can_read_logs = true;
  can_manage_keys = false;
  can_manage_config = false;
  can_manage_team = false;
  can_manage_budget = false;
  custom_capabilities = [];
}

abbrev pub admin_capabilities : RoleCapabilities
admin_capabilities = record {
  can_execute = true;
  can_submit_requests = true;
  can_read_models = true;
  can_use_any_model = true;
  can_use_any_provider = true;
  can_read_usage = true;
  can_read_logs = true;
  can_manage_keys = true;
  can_manage_config = true;
  can_manage_team = true;
  can_manage_budget = true;
  custom_capabilities = [];
}

unfoldable pub merge : RoleCapabilities → RoleCapabilities → RoleCapabilities
merge self other = record {
  can_execute = self.can_execute || other.can_execute;
  can_submit_requests = self.can_submit_requests || other.can_submit_requests;
  can_read_models = self.can_read_models || other.can_read_models;
  can_use_any_model = self.can_use_any_model || other.can_use_any_model;
  can_use_any_provider = self.can_use_any_provider || other.can_use_any_provider;
  can_read_usage = self.can_read_usage || other.can_read_usage;
  can_read_logs = self.can_read_logs || other.can_read_logs;
  can_manage_keys = self.can_manage_keys || other.can_manage_keys;
  can_manage_config = self.can_manage_config || other.can_manage_config;
  can_manage_team = self.can_manage_team || other.can_manage_team;
  can_manage_budget = self.can_manage_budget || other.can_manage_budget;
  custom_capabilities = self.custom_capabilities ++ other.custom_capabilities;
}

pub data BillingTier : Type 0 where
  free pro enterprise : BillingTier
  custom_tier : String → BillingTier

unfoldable pub tier_from_string : String → BillingTier
tier_from_string s =
    if s == "free"
    then free
    else if s == "pro"
    then pro
    else if s == "enterprise"
    then enterprise
    else custom_tier s

unfoldable pub tier_as_str : BillingTier → String
tier_as_str free = "free"
tier_as_str pro = "pro"
tier_as_str enterprise = "enterprise"
tier_as_str (custom_tier s) = s

-- `VendorRoleMapping`, from a vendor's role to a standard one.
abbrev pub VendorRoleMapping : Type 0
VendorRoleMapping = List (String × String)

unfoldable pub zitadel : VendorRoleMapping
zitadel =
    insert "member" "user"
      (insert "viewer" "analyst" (insert "editor" "power-user" (insert "admin" "admin" [])))

unfoldable pub auth0 : VendorRoleMapping
auth0 =
    insert "User" "user"
      (insert "Viewer" "analyst" (insert "Editor" "power-user" (insert "Admin" "admin" [])))

unfoldable pub keycloak : VendorRoleMapping
keycloak = insert "realm-user" "user" (
    insert "realm-viewer" "analyst"
      (insert "realm-editor" "power-user" (insert "realm-admin" "admin" [])))

unfoldable pub entra : VendorRoleMapping
entra = insert "User" "user" (
    insert "Reader" "analyst"
      (insert "Editor" "power-user" (insert "Admin" "admin" (insert "GlobalAdmin" "admin" []))))

unfoldable pub okta : VendorRoleMapping
okta = insert "Okta User" "user" (
    insert "Help Desk Administrator" "analyst" (
      insert "User Administrator" "analyst" (
        insert "Group Administrator" "power-user" (
          insert "Application Administrator" "power-user" (
            insert "Organization Administrator" "admin"
              (insert "System Administrator" "admin" []))))))

unfoldable pub ping_identity : VendorRoleMapping
ping_identity =
    insert "User" "user" (
      insert "Auditor" "analyst" (insert "Editor" "power-user" (insert "Administrator" "admin" [])))

unfoldable pub map_role : VendorRoleMapping → String → String
map_role mapping vendor_role = unwrap_or (lookup vendor_role mapping) vendor_role

unfoldable pub insert_role : String → String → VendorRoleMapping → VendorRoleMapping
insert_role vendor_role standard_role mapping = insert vendor_role standard_role mapping
