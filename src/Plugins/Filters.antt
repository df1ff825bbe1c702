-- ===== src/Plugins/Filters.antt =====
-- crates/himadri-plugins/src/max_token.rs and src/word_filter.rs: the two plugins that reject a request
-- for what it says. The wording of a reason (`format!`) and Unicode lowercasing are parameters.
use himadri.Common.{ℕ, String, false, List, Option, none, some, if◌then◌else◌, ltb, map}
use himadri.Plugins.Manager.{Plugin, PluginError, rejected, bad_request, before_request}
use himadri.Plugins.Context.{PluginContext}
use himadri.Policy.Checks.{message_texts, scan_messages}

module _ {F J : Type 0} where
  unfoldable pub max_token_execute :
      (wording : ℕ → ℕ → String) → ℕ → PluginContext F J → Option PluginError
  max_token_execute wording limit ctx = elim ctx.request.max_tokens [
    | none ↦ none
    | some max_tokens ↦
        if ltb limit max_tokens
        then some (rejected "max-token" (wording max_tokens limit) bad_request)
        else none
  ]

  -- `MaxTokenPlugin`
  unfoldable pub max_token_plugin : (wording : ℕ → ℕ → String) → ℕ → Plugin (PluginContext F J)
  unfolding max_token_execute
  max_token_plugin wording limit = record {
    name = "max-token";
    stage = before_request;
    also_after_request = false;
    execute = λ ctx. (ctx, max_token_execute wording limit ctx);
  }

  -- The words are lowercase already.
  unfoldable pub word_filter_execute :
      (wording to_lowercase : String → String)
      → List String
      → PluginContext F J
      → Option PluginError
  word_filter_execute wording to_lowercase words ctx =
      elim (scan_messages words (map to_lowercase (message_texts ctx.request.messages))) [
        | none ↦ none
        | some word ↦ some (rejected "word-filter" (wording word) bad_request)
      ]

  -- `WordFilterPlugin::new`
  unfoldable pub word_filter_plugin :
      (wording to_lowercase : String → String) → List String → Plugin (PluginContext F J)
  unfolding word_filter_execute
  word_filter_plugin wording to_lowercase blocked_words =
      let words = map to_lowercase blocked_words in
      record {
        name = "word-filter";
        stage = before_request;
        also_after_request = false;
        execute = λ ctx. (ctx, word_filter_execute wording to_lowercase words ctx);
      }
