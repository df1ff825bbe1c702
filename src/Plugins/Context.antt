-- ===== src/Plugins/Context.antt =====
-- crates/himadri-plugin/src/context.rs: what the plugins see of a request. `F` stands for `f64` and `J`
-- for a JSON value; the request's id is random, and is an argument.
use Prim.Native.String.{◌++◌}
use himadri.Common.{ℕ, String, List, [], ◌∷◌, Option, none, some, lookup, insert, ◌>>=◌}
use himadri.Common.{◌++◌ as append}
use himadri.Types.{AuthContext, ChatCompletionRequest, ChatCompletionResponse}

pub record PluginContext (F J : Type 0) : Type 0 where
  pub request_id : String
  pub request : ChatCompletionRequest
  pub auth : Option (AuthContext F)
  pub metadata : List (String × J)
  pub provider : Option String
  pub latency : Option ℕ
  pub tokens_used : Option ℕ
  pub error : Option String
  pub response : Option ChatCompletionResponse
  pub response_text : Option String
  pub response_chunks : List String
  pub remote_ip : Option String

abbrev pub join : List String → String
join [] = ""
join (s ∷ ss) = s ++ join ss

module _ {F J : Type 0} where
  abbrev pub from_request :
      String → ChatCompletionRequest → Option (AuthContext F) → PluginContext F J
  from_request request_id request auth = record {
    request_id = request_id;
    request = request;
    auth = auth;
    metadata = [];
    provider = none;
    latency = none;
    tokens_used = none;
    error = none;
    response = none;
    response_text = none;
    response_chunks = [];
    remote_ip = none;
  }

  abbrev pub set_metadata : String → J → PluginContext F J → PluginContext F J
  set_metadata key value ctx = record ctx { metadata = insert key value ctx.metadata }

  abbrev pub get_metadata : String → PluginContext F J → Option J
  get_metadata key ctx = lookup key ctx.metadata

  abbrev pub auth_key_id : PluginContext F J → Option String
  auth_key_id ctx = ctx.auth >>= λ a. a.key_id

  abbrev pub auth_user_id : PluginContext F J → Option String
  auth_user_id ctx = ctx.auth >>= λ a. a.user_id

  abbrev pub set_response : ChatCompletionResponse → PluginContext F J → PluginContext F J
  set_response response ctx = record ctx { response = some response }

  abbrev pub set_response_text : String → PluginContext F J → PluginContext F J
  set_response_text text ctx = record ctx { response_text = some text }

  abbrev pub push_response_chunk : String → PluginContext F J → PluginContext F J
  push_response_chunk chunk ctx = record ctx {
    response_chunks = append ctx.response_chunks (chunk ∷ []);
  }

  unfoldable pub get_full_response_text : PluginContext F J → String
  get_full_response_text ctx = elim ctx.response_text [
    | some text ↦ text
    | none ↦ join ctx.response_chunks
  ]
