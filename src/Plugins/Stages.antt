-- ===== src/Plugins/Stages.antt =====
-- crates/himadri-plugin/src/manager.rs: what is registered where, and when a stage passes.
use mathlib.Core.List.{append_assoc, append-nil}
use himadri.Common.{
  ◌≡◌, ◌↔◌, refl, sym, ap, ◌∙◌, String, Bool, true, false, ◌||◌, ◌&&◌, not, arith, List, [], ◌∷◌,
  ◌++◌, Option, none, some, if◌then◌else◌, All,
}
use himadri.Plugins.Manager.{
  Stage, before_request, after_request, after_response, on_error, Plugin, PluginManager,
  PluginError, is_after_request, register, register_also, register_stage, register_all, run_plugins,
  allow, reject, redact, Reviewed, action, failure, ResponseGuardrail, review, unless_allowed,
  continue_with,
}

abbrev pub is_before_request : Stage → Bool
is_before_request before_request = true
is_before_request _ = false

unless_allowed_iff :
    (first later : Reviewed)
    → (unless_allowed first later ≡ action allow)
      ↔ ((first ≡ action allow) × (later ≡ action allow))
unless_allowed_iff (action allow) later = (λ h. (refl, h), λ h. h.1)
unless_allowed_iff (action (reject m)) later = (λ h. absurd (cc), λ h. h.0)
unless_allowed_iff (action (redact m)) later = (λ h. absurd (cc), λ h. h.0)
unless_allowed_iff (failure e) later = (λ h. absurd (cc), λ h. h.0)

module _ {Ctx : Type 0} where
  -- The plugins that run before the request: those of that stage.
  unfoldable pub runs_before : List (Plugin Ctx) → List (Plugin Ctx)
  runs_before [] = []
  runs_before (p ∷ ps) = if is_before_request p.stage then p ∷ runs_before ps else runs_before ps

  -- The plugins that run after the request: those of that stage, and those that ask for it besides
  -- their own.
  unfoldable pub runs_after : List (Plugin Ctx) → List (Plugin Ctx)
  runs_after [] = []
  runs_after (p ∷ ps) =
      if p.also_after_request || is_after_request p.stage then p ∷ runs_after ps else runs_after ps

  register_also-before :
      (p : Plugin Ctx) (m : PluginManager Ctx) → (register_also p m).before ≡ m.before
  unfolding register_also
  register_also-before p m = ground arith

  register_also-after :
      (p : Plugin Ctx) (m : PluginManager Ctx)
      → (register_also p m).after ≡ (
          if p.also_after_request && not (is_after_request p.stage)
          then m.after ++ (p ∷ [])
          else m.after)
  unfolding register_also
  register_also-after p m = ground arith

  register_stage-before :
      (stage : Stage) (p : Plugin Ctx) (m : PluginManager Ctx)
      → (register_stage stage p m).before
        ≡ (if is_before_request stage then m.before ++ (p ∷ []) else m.before)
  unfolding register_stage
  register_stage-before before_request p m = refl
  register_stage-before after_request p m = refl
  register_stage-before after_response p m = refl
  register_stage-before on_error p m = refl

  register_stage-after :
      (stage : Stage) (p : Plugin Ctx) (m : PluginManager Ctx)
      → (register_stage stage p m).after
        ≡ (if is_after_request stage then m.after ++ (p ∷ []) else m.after)
  unfolding register_stage
  register_stage-after before_request p m = refl
  register_stage-after after_request p m = refl
  register_stage-after after_response p m = refl
  register_stage-after on_error p m = refl

  register-before :
      (p : Plugin Ctx) (m : PluginManager Ctx)
      → (register p m).before
        ≡ (if is_before_request p.stage then m.before ++ (p ∷ []) else m.before)
  unfolding register
  register-before p m =
      register_stage-before p.stage p (register_also p m)
      ∙ ap (λ l. if is_before_request p.stage then l ++ (p ∷ []) else l) (register_also-before p m)

  register-after :
      (p : Plugin Ctx) (m : PluginManager Ctx)
      → (register p m).after ≡ (
          if p.also_after_request || is_after_request p.stage then m.after ++ (p ∷ []) else m.after)
  unfolding register
  register-after p m =
      register_stage-after p.stage p (register_also p m)
      ∙ ap (λ l. if is_after_request p.stage then l ++ (p ∷ []) else l) (register_also-after p m)
      ∙ ground arith

  extend :
      (test : Bool) (p : Plugin Ctx) (xs ys : List (Plugin Ctx))
      → (if test then xs ++ (p ∷ []) else xs) ++ ys ≡ xs ++ (if test then p ∷ ys else ys)
  extend true p xs ys = append_assoc xs (p ∷ []) ys
  extend false p xs ys = refl

  -- Registration keeps the order and puts each plugin where it runs, exactly once: before the
  -- request if that is its stage, and after the request if that is its stage or it asks for it.
  pub register_all_lem :
      (ps : List (Plugin Ctx)) (m : PluginManager Ctx)
      → ((register_all ps m).before ≡ m.before ++ runs_before ps)
        × ((register_all ps m).after ≡ m.after ++ runs_after ps)
  unfolding register_all runs_before runs_after
  register_all_lem [] m = (sym (append-nil m.before), sym (append-nil m.after))
  register_all_lem (p ∷ ps) m =
      let (before, after) = register_all_lem ps (register p m) in
      (
        before
            ∙ ap (λ l. l ++ runs_before ps) (register-before p m)
            ∙ extend (is_before_request p.stage) p m.before (runs_before ps),
        after
            ∙ ap (λ l. l ++ runs_after ps) (register-after p m)
            ∙ extend (p.also_after_request || is_after_request p.stage) p m.after (runs_after ps),
      )

  continue_with_assoc :
      (first second : Ctx × Option PluginError) (next : Ctx → Ctx × Option PluginError)
      → continue_with first (continue_with second (next second.0))
        ≡ continue_with (continue_with first second) (next (continue_with first second).0)
  continue_with_assoc (ctx, none) second next = refl
  continue_with_assoc (ctx, some e) second next = refl

  -- A failing plugin ends its stage: those after it do not run, and the stage's error is its error;
  -- when none of the first ones fails, the others go on from the context that they left.
  pub run_plugins-append :
      (ps qs : List (Plugin Ctx)) (ctx : Ctx)
      → run_plugins (ps ++ qs) ctx
        ≡ continue_with (run_plugins ps ctx) (run_plugins qs (run_plugins ps ctx).0)
  unfolding run_plugins
  run_plugins-append [] qs ctx = refl
  run_plugins-append (p ∷ ps) qs ctx =
      ap (continue_with (p.execute ctx)) (run_plugins-append ps qs (p.execute ctx).0)
      ∙ continue_with_assoc (p.execute ctx) (run_plugins ps (p.execute ctx).0) (run_plugins qs)

  -- A response passes the guardrails exactly when every one of them allows it.
  pub review_iff :
      (gs : List (ResponseGuardrail Ctx)) (ctx : Ctx) (response : String)
      → (review gs ctx response ≡ action allow)
        ↔ All (λ g. g.check_response ctx response ≡ action allow) gs
  unfolding review
  review_iff [] ctx response = (λ h. tt, λ h. refl)
  review_iff (g ∷ gs) ctx response =
      let (to, from) = review_iff gs ctx response in
      let (to_both, from_both) =
        unless_allowed_iff (g.check_response ctx response) (review gs ctx response) in
      (λ h. let (here, later) = to_both h in (here, to later), λ c. from_both (c.0, from c.1))
