-- ===== src/Auth.antt =====
-- crates/himadri/src/combined_auth.rs and crates/himadri-admin/src/middleware.rs: who a request is
-- from. A text is read by its code points, and compared by its UTF-8 bytes. The two validators of JWTs, with the contexts that they
-- make of the claims, are parameters, `digest` is the SHA-256 of the key store, and
-- `cost_limit_per_month` a field of a token budget.
pub mod Middleware
pub mod Comparison
pub mod Admission
use Prim.Native.Char.{code}
use Prim.Native.String.{◌++◌}
use himadri.Common.{
  ℕ, zero, suc, ◌+◌, ◌*◌, ◌/◌, ◌%◌, String, Bool, true, false, ◌||◌, ◌&&◌, not, List, [], ◌∷◌,
  Option, none, some, if◌then◌else◌, ◌==◌, length, ◌>>=◌, unwrap_or, ltb,
}
use himadri.Common.{◌++◌ as append}
use himadri.Types.{AuthContext, AuthScope, admin, read_only, api_key, contains, has_role}
use himadri.Policy.Config.{OrgTokenBudget}
use himadri.ApiKeys.{ApiKey, ApiKeyStore, validate}
use himadri.Rbac.Pattern.{codes, push}

-- `a ^ b` and `a | b` of numbers below `2 ^ bits`.
unfoldable pub bit_xor : (bits : ℕ) → ℕ → ℕ → ℕ
bit_xor zero a b = 0
bit_xor (suc bits) a b = (a + b) % 2 + 2 * bit_xor bits (a / 2) (b / 2)

abbrev pub or_bit : ℕ → ℕ → ℕ
or_bit a b = if a + b == 0 then 0 else 1

unfoldable pub bit_or : (bits : ℕ) → ℕ → ℕ → ℕ
bit_or zero a b = 0
bit_or (suc bits) a b = or_bit (a % 2) (b % 2) + 2 * bit_or bits (a / 2) (b / 2)

-- The loop over the bytes of both, with the differences seen so far.
unfoldable pub accumulate : ℕ → List ℕ → List ℕ → ℕ
unfolding bit_xor bit_or
accumulate result [] ys = result
accumulate result (x ∷ xs) [] = result
accumulate result (x ∷ xs) (y ∷ ys) = accumulate (bit_or 8 result (bit_xor 8 x y)) xs ys

unfoldable pub constant_time_eq : List ℕ → List ℕ → Bool
unfolding accumulate
constant_time_eq a b = if not (length a == length b) then false else accumulate 0 a b == 0

-- `as_bytes` of a text, which is UTF-8.
unfoldable pub utf8_bytes : ℕ → List ℕ
utf8_bytes c =
    if ltb c 128
    then c ∷ []
    else if ltb c 2048
    then (192 + c / 64) ∷ (128 + c % 64) ∷ []
    else if ltb c 65536
    then (224 + c / 4096) ∷ (128 + (c / 64) % 64) ∷ (128 + c % 64) ∷ []
    else (240 + c / 262144) ∷ (128 + (c / 4096) % 64) ∷ (128 + (c / 64) % 64) ∷ (128 + c % 64) ∷ []

unfoldable pub as_bytes : List ℕ → List ℕ
unfolding utf8_bytes
as_bytes [] = []
as_bytes (c ∷ cs) = append (utf8_bytes c) (as_bytes cs)

-- `split('.')` of a token, and the number of its parts and whether one of them is empty.
unfoldable pub dot_parts : List ℕ → List (List ℕ)
dot_parts [] = [] ∷ []
dot_parts (c ∷ cs) = let parts = dot_parts cs in if c == b'.' then [] ∷ parts else push c parts

abbrev pub three_full : List (List ℕ) → Bool
three_full ((a ∷ a_rest) ∷ (b ∷ b_rest) ∷ (c ∷ c_rest) ∷ []) = true
three_full _ = false

unfoldable pub looks_like_jwt : String → Bool
unfolding dot_parts
looks_like_jwt token = three_full (dot_parts (codes token))

-- `strip_prefix` of a text.
unfoldable pub strip_text : String → String → Option String
strip_text String.[] s = some s
strip_text (String.◌∷◌ c p) String.[] = none
strip_text (String.◌∷◌ c p) (String.◌∷◌ d s) = if code c == code d then strip_text p s else none

module _ {F : Type 0} where
  unfoldable pub has_any_role : List String → AuthContext F → Bool
  has_any_role [] ctx = false
  has_any_role (r ∷ roles) ctx = has_role r ctx || has_any_role roles ctx

  abbrev pub anonymous : AuthContext F
  anonymous = record {
    api_key = "anonymous";
    key_id = none;
    scope = admin;
    org_id = none;
    team_id = none;
    user_id = none;
    rate_limit_override = none;
    roles = [];
    budget_limit_usd = none;
  }

  abbrev pub master : AuthContext F
  master = record {
    api_key = "master";
    key_id = none;
    scope = admin;
    org_id = none;
    team_id = none;
    user_id = none;
    rate_limit_override = none;
    roles = "admin" ∷ [];
    budget_limit_usd = none;
  }

abbrev pub is_empty_list : List String → Bool
is_empty_list [] = true
is_empty_list (r ∷ roles) = false

unfoldable pub enforce_required_roles :
    {F : Type 0} → (required : List String) → AuthContext F → Bool
unfolding has_any_role
enforce_required_roles required ctx = is_empty_list required || has_any_role required ctx

abbrev pub key_scope : List String → AuthScope
key_scope scopes =
    if contains "admin" scopes
    then admin
    else if contains "read-only" scopes
    then read_only
    else api_key

module _ {F J : Type 0} (cost_limit_per_month : OrgTokenBudget → Option F) where
  unfoldable pub key_context : ApiKey J → AuthContext F
  key_context key = record {
    api_key = "key:" ++ key.id;
    key_id = some key.id;
    scope = key_scope key.scopes;
    org_id = key.org_id;
    team_id = key.team_id;
    user_id = key.user_id;
    rate_limit_override = key.rate_limit_override;
    roles = key.scopes;
    budget_limit_usd = key.token_budget >>= cost_limit_per_month;
  }
