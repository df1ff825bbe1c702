-- ===== src/Tests/Auth.antt =====
-- crates/himadri/src/combined_auth.rs with a master key and a validator of one JWT.
use himadri.Common.{
  ◌≡◌, ◌↔◌, ◌<◌, ℕ, String, refl, [], ◌∷◌, List, none, some, true, false, Option, is_some, arith,
  All, ◌==◌,
}
use himadri.Types.{AuthContext, api_key}
use himadri.Policy.Config.{OrgTokenBudget}
use himadri.Rbac.Pattern.{codes}
use himadri.ApiKeys.{ApiKeyStore, empty_store}
use himadri.Auth.{constant_time_eq, looks_like_jwt, strip_text, master}
use himadri.Auth.Comparison.{constant_time_eq_iff}
use himadri.Auth.Middleware.{
  CombinedAuth, memory, is_master, middleware, passed, denied, unauthorized, forbidden, bypasses,
}
use himadri.Auth.Admission.{
  Audited, HasRole, middleware-Audited, middleware-HasRole, middleware-key,
}

abbrev plain : String → String
plain s = s

abbrev no_limit : OrgTokenBudget → Option ℕ
no_limit budget = none

abbrev analyst : AuthContext ℕ
analyst = record {
  api_key = "jwt:u1";
  key_id = some "u1";
  scope = api_key;
  org_id = none;
  team_id = none;
  user_id = some "u1";
  rate_limit_override = none;
  roles = "analyst" ∷ [];
  budget_limit_usd = none;
}

abbrev auth : CombinedAuth ℕ ℕ (ApiKeyStore ℕ)
auth = record {
  keys = record { master_key = some "sk-master"; validate_key = memory plain 5 5 };
  jwt = some (λ token. some analyst);
  admin_login = none;
}

with_master :
    (middleware no_limit ("admin" ∷ []) auth (some "Bearer sk-master") empty_store).1
    ≡ passed master
unfolding middleware strip_text looks_like_jwt himadri.Types.has_role
with_master = refl

with_role :
    (middleware no_limit ("admin" ∷ "analyst" ∷ []) auth (some "Bearer a.b.c") empty_store).1
    ≡ passed analyst
unfolding middleware strip_text looks_like_jwt himadri.Types.has_role
with_role = refl

-- The bytes differ although the code points agree in their last eight bits.
other_byte : is_master (some "š") "a" ≡ false
unfolding is_master himadri.Auth.as_bytes
other_byte = refl

without_role :
    (middleware no_limit ("admin" ∷ []) auth (some "Bearer a.b.c") empty_store).1
    ≡ denied 403 (some forbidden)
unfolding middleware strip_text looks_like_jwt himadri.Types.has_role
without_role = refl

without_token :
    (middleware no_limit [] auth (some "Basic x") empty_store).1 ≡ denied 401 (some unauthorized)
unfolding middleware strip_text
without_token = refl

two_dots : looks_like_jwt "a..c" ≡ false
unfolding looks_like_jwt
two_dots = refl

abbrev secret : List ℕ
secret = 97 ∷ 98 ∷ []

bytes_ab : All (λ x. x < 256) secret
bytes_ab = ground arith

constant_time_eq_iff_example : (constant_time_eq secret secret ≡ true) ↔ (secret ≡ secret)
constant_time_eq_iff_example = constant_time_eq_iff secret secret bytes_ab bytes_ab

middleware-Audited_example :
    Audited (middleware no_limit ("admin" ∷ []) auth (some "Bearer a.b.c") empty_store).1
middleware-Audited_example =
    middleware-Audited no_limit ("admin" ∷ []) auth (some "Bearer a.b.c") empty_store

configured : bypasses auth ≡ false
unfolding bypasses
configured = refl

no_login : auth.admin_login ≡ none
no_login = refl

middleware-HasRole_example :
    HasRole
      ("admin" ∷ "analyst" ∷ [])
      (middleware no_limit ("admin" ∷ "analyst" ∷ []) auth (some "Bearer a.b.c") empty_store).1
middleware-HasRole_example =
    middleware-HasRole no_limit ("admin" ∷ "analyst" ∷ []) auth (some "Bearer a.b.c") empty_store
      no_login configured

has_master : is_some auth.keys.master_key ≡ true
has_master = refl

bearer : strip_text "Bearer " "Bearer sk-1" ≡ some "sk-1"
unfolding strip_text
bearer = refl

no_dot : All (λ c. (c == b'.') ≡ false) (codes "sk-1")
no_dot = ground arith

middleware-key_example :
    middleware no_limit [] auth (some "Bearer sk-1") empty_store
    ≡ middleware no_limit []
        (record auth { jwt = none; admin_login = none })
        (some "Bearer sk-1")
        empty_store
middleware-key_example =
    middleware-key no_limit [] auth "Bearer sk-1" "sk-1" empty_store has_master bearer no_dot
