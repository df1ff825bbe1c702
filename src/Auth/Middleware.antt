-- ===== src/Auth/Middleware.antt =====
-- crates/himadri/src/combined_auth.rs, `CombinedAuth::middleware`, and the key check of
-- crates/himadri-admin/src/middleware.rs that it falls back to.
use himadri.Common.{
  ℕ, String, Bool, true, false, ◌&&◌, not, List, Option, none, some, if◌then◌else◌, is_some, ◌>>=◌,
}
use himadri.Types.{AuthContext}
use himadri.Policy.Config.{OrgTokenBudget}
use himadri.Rbac.Pattern.{codes}
use himadri.ApiKeys.{ApiKey, ApiKeyStore, validate}
use himadri.Auth.{
  constant_time_eq, as_bytes, looks_like_jwt, strip_text, anonymous, master, enforce_required_roles,
  key_context,
}

-- `Result<Option<_>, ()>`: an answer, or an error of the backend.
pub data Answer (A : Type 0) : Type 0 where
  answer : Option A → Answer A
  backend_error : Answer A

-- `AuthMiddleware`, over the key store of any backend.
pub record AuthMiddleware (J S : Type 0) : Type 0 where
  pub master_key : Option String
  pub validate_key : String → S → S × Answer (ApiKey J)

-- `CombinedAuth`: the validators give the context of the claims that they accept.
pub record CombinedAuth (F J S : Type 0) : Type 0 where
  pub keys : AuthMiddleware J S
  pub jwt : Option (String → Option (AuthContext F))
  pub admin_login : Option (String → Option (AuthContext F))

pub data AuditStatus : Type 0 where
  unauthorized forbidden : AuditStatus

-- The request goes on with its principal, or is answered with a status; an audited failure has its own.
pub data Outcome (F : Type 0) : Type 0 where
  passed : AuthContext F → Outcome F
  denied : (status : ℕ) (audited : Option AuditStatus) → Outcome F

-- The in-memory key store, which never fails.
abbrev pub memory :
    {J : Type 0}
    → (digest : String → String) (now later : ℕ) → String
    → ApiKeyStore J
    → ApiKeyStore J × Answer (ApiKey J)
memory digest now later key s =
    ((validate digest key now later s).0, answer (validate digest key now later s).1)

unfoldable pub is_master : Option String → String → Bool
unfolding constant_time_eq as_bytes
is_master none token = false
is_master (some master_key) token =
    constant_time_eq (as_bytes (codes token)) (as_bytes (codes master_key))

-- The gate on the roles.
abbrev pub admit_if : {F : Type 0} → Bool → AuthContext F → Outcome F
admit_if true ctx = passed ctx
admit_if false ctx = denied 403 (some forbidden)

unfoldable pub admit : {F : Type 0} → (required : List String) → AuthContext F → Outcome F
unfolding enforce_required_roles
admit required ctx = admit_if (enforce_required_roles required ctx) ctx

abbrev pub conclude : {F : Type 0} → (required : List String) → Answer (AuthContext F) → Outcome F
conclude required (answer (some ctx)) = admit required ctx
conclude required (answer none) = denied 401 (some unauthorized)
conclude required backend_error = denied 500 none

-- A validator is asked about a token that looks like a JWT.
abbrev pub ask :
    {F : Type 0} → Option (String → Option (AuthContext F)) → Bool → String → Option (AuthContext F)
ask none jwt_like token = none
ask (some validator) false token = none
ask (some validator) true token = validator token

-- The locally issued tokens, then the JWTs, then the keys.
abbrev pub first_accepted :
    {F S : Type 0}
    → (required : List String) → (local jwt : Option (AuthContext F)) → S
    → S × Outcome F
    → S × Outcome F
first_accepted required (some ctx) jwt s fallback = (s, passed ctx)
first_accepted required none (some ctx) s fallback = (s, admit required ctx)
first_accepted required none none s fallback = fallback

abbrev pub context_of :
    {F J : Type 0}
    → (cost_limit_per_month : OrgTokenBudget → Option F) → Answer (ApiKey J)
    → Answer (AuthContext F)
context_of cost_limit_per_month backend_error = backend_error
context_of cost_limit_per_month (answer none) = answer none
context_of cost_limit_per_month (answer (some key)) =
    answer (some (key_context cost_limit_per_month key))

-- Nothing is configured.
unfoldable pub bypasses : {F J S : Type 0} → CombinedAuth F J S → Bool
bypasses auth =
    not (is_some auth.jwt) && (not (is_some auth.admin_login) && not (is_some auth.keys.master_key))

module _ {F J S : Type 0} (cost_limit_per_month : OrgTokenBudget → Option F) where
  unfoldable pub authenticate : AuthMiddleware J S → String → S → S × Answer (AuthContext F)
  unfolding is_master key_context
  authenticate auth token s =
      let asked = auth.validate_key token s in
      if is_master auth.master_key token
      then (s, answer (some master))
      else (asked.0, context_of cost_limit_per_month asked.1)

  module _ (required : List String) where
    unfoldable pub by_key : CombinedAuth F J S → String → S → S × Outcome F
    unfolding authenticate admit
    by_key auth token s =
        let asked = authenticate auth.keys token s in (asked.0, conclude required asked.1)

    abbrev pub with_token : CombinedAuth F J S → Option String → S → S × Outcome F
    with_token auth none s = (s, denied 401 (some unauthorized))
    with_token auth (some token) s =
        first_accepted required (ask auth.admin_login (looks_like_jwt token) token)
          (ask auth.jwt (looks_like_jwt token) token) s (by_key auth token s)

    -- The header is that of `Authorization`, if it is a text.
    unfoldable pub middleware : CombinedAuth F J S → Option String → S → S × Outcome F
    unfolding bypasses by_key
    middleware auth header s =
        if bypasses auth
        then (s, passed anonymous)
        else with_token auth (header >>= strip_text "Bearer ") s
