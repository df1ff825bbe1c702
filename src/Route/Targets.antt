-- ===== src/Route/Targets.antt =====
-- crates/himadri/src/gateway/route.rs, `select_targets`, with the filters that it uses from
-- gateway/policy.rs and gateway/mod.rs, and the key of an endpoint.
use Prim.Native.String.{◌++◌}
use himadri.Common.{
  ℕ, String, Bool, true, not, List, [], ◌∷◌, Option, none, some, if◌then◌else◌, unwrap_or,
}
use himadri.Types.{AuthContext, contains, ChatCompletionRequest, Target}
use himadri.Errors.{not_found, forbidden}
use himadri.Rbac.Access.{RbacDenial, Checked, RbacConfig, check_provider}
use himadri.Policy.Config.{Config}
use himadri.Policy.Checks.{
  Result, ok, err, ◌>>=◌, PolicyDenial, rbac_denial, no_permitted_provider, principal,
}
use himadri.Strategy.Select.{Floats, Strategy, select_ordered}

abbrev pub denial_of : Option RbacDenial → PolicyDenial
denial_of none = no_permitted_provider
denial_of (some d) = rbac_denial d

module _ {F : Type 0} where
  unfoldable pub routing_key : Target F → String
  routing_key target = unwrap_or target.id target.provider

  unfoldable pub target_serves_model : Target F → String → Bool
  target_serves_model target model = elim target.models [
    | none ↦ true
    | some models ↦ contains model models
  ]

  unfoldable pub eligible : String → List (Target F) → List (Target F)
  eligible model [] = []
  eligible model (t ∷ ts) =
      let rest = eligible model ts in if target_serves_model t model then t ∷ rest else rest

  -- The targets whose provider is permitted.
  unfoldable pub permitted : RbacConfig → List String → Bool → List (Target F) → List (Target F)
  permitted rbac roles is_admin [] = []
  permitted rbac roles is_admin (t ∷ ts) =
      let rest = permitted rbac roles is_admin ts in
      elim (check_provider rbac roles is_admin t.provider) [
        | Checked.ok ↦ t ∷ rest
        | Checked.err d ↦ rest
      ]

  -- The denial that was seen last.
  unfoldable pub last_denial :
      RbacConfig → List String → Bool → Option RbacDenial → List (Target F) → Option RbacDenial
  last_denial rbac roles is_admin last [] = last
  last_denial rbac roles is_admin last (t ∷ ts) =
      elim (check_provider rbac roles is_admin t.provider) [
        | Checked.ok ↦ last_denial rbac roles is_admin last ts
        | Checked.err d ↦ last_denial rbac roles is_admin (some d) ts
      ]

  abbrev pub or_forbidden :
      (PolicyDenial → String) → Option RbacDenial → List (Target F) → Result (List (Target F))
  or_forbidden wording last [] = err (forbidden (wording (denial_of last)))
  or_forbidden wording last (t ∷ ts) = ok (t ∷ ts)

  unfoldable pub filter_targets_by_rbac :
      (PolicyDenial → String)
      → Option (AuthContext F)
      → RbacConfig
      → List (Target F)
      → Result (List (Target F))
  filter_targets_by_rbac wording auth rbac ordered =
      let roles = (principal auth).0 in
      let is_admin = (principal auth).1 in
      if not rbac.enabled
      then ok ordered
      else if is_admin
      then ok ordered
      else or_forbidden wording (last_denial rbac roles is_admin none ordered)
          (permitted rbac roles is_admin ordered)

  -- What follows the choice of the eligible targets.
  unfoldable pub order_eligible :
      (String → String)
      → (ℕ → F → F)
      → Floats F
      → Strategy F
      → ChatCompletionRequest
      → List (Target F)
      → Result (List (Target F))
  order_eligible to_lowercase draw ops strategy request [] =
      err (not_found (("No provider is configured to serve model '" ++ request.model) ++ "'"))
  order_eligible to_lowercase draw ops strategy request (t ∷ ts) =
      select_ordered ops to_lowercase draw strategy request (t ∷ ts)

  unfoldable pub select_targets :
      (PolicyDenial → String)
      → (String → String)
      → (ℕ → F → F)
      → Floats F
      → Strategy F
      → Config
      → List (Target F)
      → ChatCompletionRequest
      → Option (AuthContext F)
      → Result (List (Target F))
  unfolding eligible order_eligible filter_targets_by_rbac
  select_targets wording to_lowercase draw ops strategy config targets request auth = do
    ordered ← order_eligible to_lowercase draw ops strategy request (eligible request.model targets)
    filter_targets_by_rbac wording auth config.rbac ordered
