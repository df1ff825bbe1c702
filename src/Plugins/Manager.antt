-- ===== src/Plugins/Manager.antt =====
-- crates/himadri-plugin/src/manager.rs and src/traits.rs: plugins, the stages that they are registered
-- for, and the runs of the stages. A plugin is what its trait promises: `Ctx` stands for the context
-- that it may rewrite, and `execute` gives the context after it and its error, if it fails.
use Prim.Native.String.{◌++◌}
use himadri.Common.{
  ℕ, String, Bool, true, false, not, ◌&&◌, List, [], ◌∷◌, Option, none, some, if◌then◌else◌, map,
}
use himadri.Common.{◌++◌ as append}

pub data Stage : Type 0 where
  before_request after_request after_response on_error : Stage

pub data RejectKind : Type 0 where
  bad_request : RejectKind
  rate_limited : (retry_after_secs : ℕ) → RejectKind
  budget_exceeded : RejectKind
  forbidden : RejectKind

pub data PluginError : Type 0 where
  rejected : (name reason : String) (kind : RejectKind) → PluginError
  internal : String → PluginError

pub data ResponseAction : Type 0 where
  allow : ResponseAction
  reject : String → ResponseAction
  redact : String → ResponseAction

-- `Result<ResponseAction, PluginError>`
pub data Reviewed : Type 0 where
  action : ResponseAction → Reviewed
  failure : PluginError → Reviewed

pub record Plugin (Ctx : Type 0) : Type 0 where
  pub name : String
  pub stage : Stage
  pub also_after_request : Bool
  pub execute : Ctx → Ctx × Option PluginError

pub record ResponseGuardrail (Ctx : Type 0) : Type 0 where
  pub name : String
  pub check_response : Ctx → String → Reviewed

pub record PluginManager (Ctx : Type 0) : Type 0 where
  pub before : List (Plugin Ctx)
  pub after : List (Plugin Ctx)
  pub after_response : List (Plugin Ctx)
  pub on_error : List (Plugin Ctx)
  pub response_guardrails : List (ResponseGuardrail Ctx)

abbrev pub is_after_request : Stage → Bool
is_after_request after_request = true
is_after_request _ = false

-- The texts of `Display`.
abbrev pub error_text : PluginError → String
error_text (rejected name reason kind) = "plugin " ++ (name ++ (" rejected request: " ++ reason))
error_text (internal m) = "plugin error: " ++ m

abbrev pub unless_allowed : Reviewed → Reviewed → Reviewed
unless_allowed (action allow) later = later
unless_allowed answer later = answer

-- After a plugin: its error ends the stage, and otherwise the answer of the later ones is the stage's.
abbrev pub continue_with :
    {Ctx : Type 0} → Ctx × Option PluginError → Ctx × Option PluginError → Ctx × Option PluginError
continue_with (ctx, none) later = later
continue_with (ctx, some e) later = (ctx, some e)

module _ {Ctx : Type 0} where
  -- The second registration of a plugin that also runs after the request.
  unfoldable pub register_also : Plugin Ctx → PluginManager Ctx → PluginManager Ctx
  register_also p m =
      if p.also_after_request && not (is_after_request p.stage)
      then record m { after = append m.after (p ∷ []) }
      else m

  unfoldable pub register_stage : Stage → Plugin Ctx → PluginManager Ctx → PluginManager Ctx
  register_stage before_request p m = record m { before = append m.before (p ∷ []) }
  register_stage after_request p m = record m { after = append m.after (p ∷ []) }
  register_stage Stage.after_response p m = record m {
    after_response = append m.after_response (p ∷ []);
  }
  register_stage Stage.on_error p m = record m { on_error = append m.on_error (p ∷ []) }

  unfoldable pub register : Plugin Ctx → PluginManager Ctx → PluginManager Ctx
  unfolding register_also register_stage
  register p m = register_stage p.stage p (register_also p m)

  unfoldable pub register_all : List (Plugin Ctx) → PluginManager Ctx → PluginManager Ctx
  register_all [] m = m
  register_all (p ∷ ps) m = register_all ps (register p m)

  unfoldable pub register_response_guardrail :
      ResponseGuardrail Ctx → PluginManager Ctx → PluginManager Ctx
  register_response_guardrail g m = record m {
    response_guardrails = append m.response_guardrails (g ∷ []);
  }

  unfoldable pub stage_plugins : Stage → PluginManager Ctx → List (Plugin Ctx)
  stage_plugins before_request m = m.before
  stage_plugins after_request m = m.after
  stage_plugins Stage.after_response m = m.after_response
  stage_plugins Stage.on_error m = m.on_error

  unfoldable pub stage_names : Stage → PluginManager Ctx → List String
  unfolding stage_plugins
  stage_names stage m = map (λ p. p.name) (stage_plugins stage m)

  -- The plugins in turn, up to the first that fails.
  unfoldable pub run_plugins : List (Plugin Ctx) → Ctx → Ctx × Option PluginError
  run_plugins [] ctx = (ctx, none)
  run_plugins (p ∷ ps) ctx =
      let later = run_plugins ps (p.execute ctx).0 in continue_with (p.execute ctx) later

  unfoldable pub run_before : PluginManager Ctx → Ctx → Ctx × Option PluginError
  unfolding run_plugins
  run_before m ctx = run_plugins m.before ctx

  -- All the plugins in turn, whatever fails.
  unfoldable pub run_logged : List (Plugin Ctx) → Ctx → Ctx
  run_logged [] ctx = ctx
  run_logged (p ∷ ps) ctx = run_logged ps (p.execute ctx).0

  unfoldable pub run_after : PluginManager Ctx → Ctx → Ctx
  run_after m ctx = run_logged m.after ctx

  unfoldable pub run_after_response : PluginManager Ctx → Ctx → Ctx
  run_after_response m ctx = run_logged m.after_response ctx

  unfoldable pub run_on_error : PluginManager Ctx → Ctx → Ctx
  run_on_error m ctx = run_logged m.on_error ctx

  unfoldable pub review : List (ResponseGuardrail Ctx) → Ctx → String → Reviewed
  review [] ctx response = action allow
  review (g ∷ gs) ctx response =
      let later = review gs ctx response in unless_allowed (g.check_response ctx response) later

  unfoldable pub run_response_guardrails : PluginManager Ctx → Ctx → String → Reviewed
  unfolding review
  run_response_guardrails m ctx response = review m.response_guardrails ctx response
