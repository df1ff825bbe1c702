-- ===== src/Auth/Admission.antt =====
-- crates/himadri/src/combined_auth.rs: who is let in, and what is audited.
use himadri.Common.{
  ℕ, ◌≡◌, ◌⊎◌, inl, inr, refl, ap, ◌∙◌, String, Bool, true, false, ◌&&◌, not, List, [], ◌∷◌, Option,
  none, some, Bool-cases, is_some, ◌>>=◌, ◌==◌, All, arith, eq_iff,
}
use text.Mathlib.Text.{◌==◌ as str_eq}
use himadri.Types.{AuthContext, contains, has_role}
use himadri.Rbac.Decision.{Any}
use himadri.Policy.Config.{OrgTokenBudget}
use himadri.Rbac.Pattern.{codes}
use himadri.Auth.{
  dot_parts, three_full, looks_like_jwt, strip_text, enforce_required_roles, has_any_role,
}
use himadri.Auth.Middleware.{
  Answer, answer, backend_error, CombinedAuth, Outcome, passed, denied, unauthorized, forbidden,
  authenticate, admit_if, admit, conclude, by_key, ask, first_accepted, with_token, bypasses,
  middleware,
}

-- A text without a dot is one part.
dot_parts-one : (cs : List ℕ) → All (λ c. (c == b'.') ≡ false) cs → dot_parts cs ≡ cs ∷ []
unfolding dot_parts
dot_parts-one [] h = refl
dot_parts-one (c ∷ cs) h = rw (h.0, dot_parts-one cs h.1) refl

one_part : (part : List ℕ) → three_full (part ∷ []) ≡ false
one_part [] = refl
one_part (c ∷ cs) = refl

pub looks_like_jwt-no_dot :
    (token : String) → All (λ c. (c == b'.') ≡ false) (codes token) → looks_like_jwt token ≡ false
unfolding looks_like_jwt
looks_like_jwt-no_dot token h = rw (dot_parts-one (codes token) h) (one_part (codes token))

-- What an answer is, and which failure is audited with it.
abbrev pub Audited : {F : Type 0} → Outcome F → Type 0
Audited (passed ctx) = Unit
Audited (denied status audited) =
    ((status ≡ 401) × (audited ≡ some unauthorized))
    ⊎ (((status ≡ 403) × (audited ≡ some forbidden)) ⊎ ((status ≡ 500) × (audited ≡ none)))

-- No role is required, or one of those required is among the roles of the principal.
abbrev pub Holds : List String → List String → Type 0
Holds required roles = (required ≡ []) ⊎ Any (λ role. Any (λ own. own ≡ role) roles) required

-- The principal of a request that is let in holds a required role.
abbrev pub HasRole : {F : Type 0} → (required : List String) → Outcome F → Type 0
HasRole required (passed ctx) = Holds required ctx.roles
HasRole required (denied status audited) = Unit

contains-Any :
    (role : String) (roles : List String)
    → contains role roles ≡ true
    → Any (λ own. own ≡ role) roles
unfolding contains
contains-Any role [] h = cc
contains-Any role (own ∷ roles) h = elim (Bool-cases (str_eq own role)) [
  | inl e ↦ inl ((eq_iff own role).0 e)
  | inr e ↦ inr (contains-Any role roles (ground arith))
]

has_any_role-Any :
    {F : Type 0} (required : List String) (ctx : AuthContext F)
    → has_any_role required ctx ≡ true
    → Any (λ role. Any (λ own. own ≡ role) ctx.roles) required
unfolding has_any_role has_role
has_any_role-Any [] ctx h = cc
has_any_role-Any (role ∷ required) ctx h = elim (Bool-cases (contains role ctx.roles)) [
  | inl e ↦ inl (contains-Any role ctx.roles e)
  | inr e ↦ inr (has_any_role-Any required ctx (ground arith))
]

enforce_required_roles-Holds :
    {F : Type 0} (required : List String) (ctx : AuthContext F)
    → enforce_required_roles required ctx ≡ true
    → Holds required ctx.roles
unfolding enforce_required_roles
enforce_required_roles-Holds [] ctx h = inl refl
enforce_required_roles-Holds (role ∷ required) ctx h =
    inr (has_any_role-Any (role ∷ required) ctx h)

and_false : (a b : Bool) → (a && (b && false)) ≡ false
and_false true true = refl
and_false true false = refl
and_false false b = refl

ask-false :
    {F : Type 0} (validator : Option (String → Option (AuthContext F))) (token : String)
    → ask validator false token ≡ none
ask-false none token = refl
ask-false (some validator) token = refl

module _ {F : Type 0} (required : List String) where
  admit_if-Audited : (b : Bool) (ctx : AuthContext F) → Audited (admit_if b ctx)
  admit_if-Audited true ctx = tt
  admit_if-Audited false ctx = inr (inl (refl, refl))

  conclude-Audited : (a : Answer (AuthContext F)) → Audited (conclude required a)
  unfolding admit
  conclude-Audited (answer (some ctx)) = admit_if-Audited (enforce_required_roles required ctx) ctx
  conclude-Audited (answer none) = inl (refl, refl)
  conclude-Audited backend_error = inr (inr (refl, refl))

  first_accepted-Audited :
      {S : Type 0} (local jwt : Option (AuthContext F)) (s : S) (fallback : S × Outcome F)
      → Audited fallback.1
      → Audited (first_accepted required local jwt s fallback).1
  unfolding admit
  first_accepted-Audited (some ctx) jwt s fallback h = tt
  first_accepted-Audited none (some ctx) s fallback h =
      admit_if-Audited (enforce_required_roles required ctx) ctx
  first_accepted-Audited none none s fallback h = h

  admit_if-HasRole :
      (b : Bool) (ctx : AuthContext F)
      → enforce_required_roles required ctx ≡ b
      → HasRole required (admit_if b ctx)
  admit_if-HasRole true ctx h = enforce_required_roles-Holds required ctx h
  admit_if-HasRole false ctx h = tt

  conclude-HasRole : (a : Answer (AuthContext F)) → HasRole required (conclude required a)
  unfolding admit
  conclude-HasRole (answer (some ctx)) = admit_if-HasRole _ ctx refl
  conclude-HasRole (answer none) = tt
  conclude-HasRole backend_error = tt

  first_accepted-HasRole :
      {S : Type 0} (jwt : Option (AuthContext F)) (s : S) (fallback : S × Outcome F)
      → HasRole required fallback.1
      → HasRole required (first_accepted required none jwt s fallback).1
  unfolding admit
  first_accepted-HasRole (some ctx) s fallback h = admit_if-HasRole _ ctx refl
  first_accepted-HasRole none s fallback h = h

module _ {F J S : Type 0} (cost_limit_per_month : OrgTokenBudget → Option F)
    (required : List String) where
  with_token-Audited :
      (auth : CombinedAuth F J S) (token : Option String) (s : S)
      → Audited (with_token cost_limit_per_month required auth token s).1
  unfolding by_key
  with_token-Audited auth none s = inl (refl, refl)
  with_token-Audited auth (some token) s =
      first_accepted-Audited {F = F} required (ask auth.admin_login (looks_like_jwt token) token)
        (ask auth.jwt (looks_like_jwt token) token) s
        (by_key cost_limit_per_month required auth token s)
        (conclude-Audited {F = F} required (authenticate cost_limit_per_month auth.keys token s).1)

  -- Every refusal is a 401 that is audited as unauthorized, a 403 that is audited as forbidden, or a 500
  -- of the backend, which is not audited.
  pub middleware-Audited :
      (auth : CombinedAuth F J S) (header : Option String) (s : S)
      → Audited (middleware cost_limit_per_month required auth header s).1
  unfolding middleware
  middleware-Audited auth header s = elim (Bool-cases (bypasses auth)) [
    | inl b ↦ rw b tt
    | inr b ↦ rw b (with_token-Audited auth (header >>= strip_text "Bearer ") s)
  ]

  with_token-HasRole :
      (auth : CombinedAuth F J S) (token : Option String) (s : S)
      → auth.admin_login ≡ none
      → HasRole required (with_token cost_limit_per_month required auth token s).1
  unfolding by_key
  with_token-HasRole auth none s h = tt
  with_token-HasRole auth (some token) s h = rw h (
      first_accepted-HasRole {F = F} required (ask auth.jwt (looks_like_jwt token) token) s
        (by_key cost_limit_per_month required auth token s)
        (conclude-HasRole {F = F} required (authenticate cost_limit_per_month auth.keys token s).1))

  -- Without the local admin login, and with a master key or JWTs configured, whoever is let in has one of
  -- the required roles among its own roles, if any is required.
  pub middleware-HasRole :
      (auth : CombinedAuth F J S) (header : Option String) (s : S)
      → auth.admin_login ≡ none
      → bypasses auth ≡ false
      → HasRole required (middleware cost_limit_per_month required auth header s).1
  unfolding middleware
  middleware-HasRole auth header s h b =
      rw b (with_token-HasRole auth (header >>= strip_text "Bearer ") s h)

  -- A token without a dot, as every key of the gateway is, is answered by the keys alone: configuring
  -- JWTs and the local login beside a master key changes nothing for it.
  pub middleware-key :
      (auth : CombinedAuth F J S) (header token : String) (s : S)
      → is_some auth.keys.master_key ≡ true
      → strip_text "Bearer " header ≡ some token
      → All (λ c. (c == b'.') ≡ false) (codes token)
      → middleware cost_limit_per_month required auth (some header) s
        ≡ middleware cost_limit_per_month required
            (record auth { jwt = none; admin_login = none })
            (some header)
            s
  unfolding middleware bypasses
  middleware-key auth header token s configured bearer no_dot =
      let not_jwt = looks_like_jwt-no_dot token no_dot in
      rw (configured, and_false (not (is_some auth.jwt)) (not (is_some auth.admin_login)), bearer)
        (ap
            (λ b.
              first_accepted required (ask auth.admin_login b token) (ask auth.jwt b token) s
                (by_key cost_limit_per_month required auth token s))
            not_jwt
          ∙ (rw (ask-false auth.admin_login token, ask-false auth.jwt token) refl))
