-- ===== src/Types.antt =====
-- crates/himadri-core/src/types.rs: principals, requests and routing targets, as far as the policy
-- checks, the strategies and the plugins read them. `F` stands for `f64`.
use package.text.Mathlib.Text.{◌==◌}
use Prim.Native.String.{◌++◌}
use himadri.Common.{ℕ, String, Bool, true, false, List, [], ◌∷◌, Option, if◌then◌else◌}

pub data AuthScope : Type 0 where
  admin read_only api_key : AuthScope

pub record RateLimitOverride : Type 0 where
  pub requests_per_second : Option ℕ
  pub burst_size : Option ℕ

pub record AuthContext (F : Type 0) : Type 0 where
  pub api_key : String
  pub key_id : Option String
  pub scope : AuthScope
  pub org_id : Option String
  pub team_id : Option String
  pub user_id : Option String
  pub rate_limit_override : Option RateLimitOverride
  pub roles : List String
  pub budget_limit_usd : Option F

abbrev pub is_admin_scope : AuthScope → Bool
is_admin_scope admin = true
is_admin_scope _ = false

unfoldable pub contains : String → List String → Bool
contains s [] = false
contains s (x ∷ xs) = if x == s then true else contains s xs

unfoldable pub has_role : {F : Type 0} → String → AuthContext F → Bool
unfolding contains
has_role role auth = contains role auth.roles

pub data Role : Type 0 where
  system user assistant tool : Role

pub data ContentPart : Type 0 where
  text_part : String → ContentPart
  image_url : String → ContentPart

pub data MessageContent : Type 0 where
  text : String → MessageContent
  parts : List ContentPart → MessageContent

-- The concatenated text parts; others are skipped.
unfoldable pub join_parts : List ContentPart → String
join_parts [] = ""
join_parts (text_part s ∷ ps) = s ++ join_parts ps
join_parts (image_url u ∷ ps) = join_parts ps

unfoldable pub flat_text : MessageContent → String
unfolding join_parts
flat_text (text s) = s
flat_text (parts ps) = join_parts ps

pub record Message : Type 0 where
  pub role : Role
  pub content : Option MessageContent

pub record ChatCompletionRequest : Type 0 where
  pub model : String
  pub messages : List Message
  pub stream : Bool
  pub max_tokens : Option ℕ

pub record Target (F : Type 0) : Type 0 where
  pub id : Option String
  pub provider : String
  pub weight : F
  pub models : Option (List String)
  pub api_key_env : Option String
  pub base_url : Option String

pub record Usage : Type 0 where
  pub prompt_tokens : ℕ
  pub completion_tokens : ℕ
  pub total_tokens : ℕ

-- The tool calls of a message are not modelled.
pub record ResponseMessage : Type 0 where
  pub role : Role
  pub content : Option String

pub record Choice : Type 0 where
  pub index : ℕ
  pub message : ResponseMessage
  pub finish_reason : Option String

pub record ChatCompletionResponse : Type 0 where
  pub id : String
  pub model : String
  pub choices : List Choice
  pub usage : Option Usage
