-- ===== src/Policy/Checks.antt =====
-- crates/himadri/src/gateway/policy.rs: the checks, on a snapshot of the configuration. Unicode
-- lowercasing and the wording of a denial (`format!`) are parameters.
use himadri.Common.{
  ℕ, String, Bool, false, not, List, [], ◌∷◌, Option, none, some, if◌then◌else◌, ltb, map, is_some,
}
use himadri.Types.{AuthContext, is_admin_scope, contains, flat_text, Message, ChatCompletionRequest}
use himadri.Errors.{GatewayError, forbidden}
use himadri.Rbac.Pattern.{codes, find_after}
use himadri.Rbac.Access.{RbacDenial, Checked, check_model}
use himadri.Policy.Config.{OrgTokenBudget, Config, ScopeKind, Scope, scopes}

pub data Result {ℓ} (A : Type ℓ) : Type ℓ where
  ok : A → Result A
  err : GatewayError → Result A

-- `?` on a result, and on one without a value.
infixl 5 ◌>>=◌
abbrev pub ◌>>=◌ {κ ℓ} : {B : Type κ} {A : Type ℓ} → Result A → (A → Result B) → Result B
err denied >>= next = err denied
ok value >>= next = next value

infixl 5 ◌>>◌
abbrev pub ◌>>◌ {κ} : {B : Type κ} → Result (Unit {0}) → Result B → Result B
first >> then_ = first >>= λ _. then_

-- The reasons that a policy check gives, before they are worded.
pub data PolicyDenial : Type 0 where
  model_not_allowed : (model : String) (kind : ScopeKind) (id : String) → PolicyDenial
  model_blocked : (model : String) (kind : ScopeKind) (id : String) → PolicyDenial
  blocked_word : (word : String) → PolicyDenial
  over_guardrail_limit : (requested : ℕ) (kind : ScopeKind) (limit : ℕ) → PolicyDenial
  over_budget_limit : (requested : ℕ) (kind : ScopeKind) (limit : ℕ) → PolicyDenial
  rbac_denial : RbacDenial → PolicyDenial
  no_permitted_provider : PolicyDenial

-- `str::contains`
unfoldable pub contains_text : String → String → Bool
contains_text text part = is_some (find_after (codes part) (codes text))

unfoldable pub not_allowed : Option (List String) → String → Bool
not_allowed none model = false
not_allowed (some list) model = not (contains model list)

unfoldable pub blocked : Option (List String) → String → Bool
blocked none model = false
blocked (some list) model = contains model list

-- The texts of the messages that have content.
unfoldable pub message_texts : List Message → List String
message_texts [] = []
message_texts (m ∷ ms) = elim m.content [
  | none ↦ message_texts ms
  | some content ↦ flat_text content ∷ message_texts ms
]

-- The first of the words that the text contains.
unfoldable pub find_word : List String → String → Option String
find_word [] text = none
find_word (w ∷ words) text = if contains_text text w then some w else find_word words text

-- The same over the messages in turn.
unfoldable pub scan_messages : List String → List String → Option String
scan_messages words [] = none
scan_messages words (text ∷ texts) = elim (find_word words text) [
  | none ↦ scan_messages words texts
  | some w ↦ some w
]

-- Both numbers are there and the first is above the second.
abbrev pub exceeds : Option ℕ → Option ℕ → Option (ℕ × ℕ)
exceeds none max = none
exceeds (some requested) none = none
exceeds (some requested) (some max) = if ltb max requested then some (requested, max) else none

abbrev pub budget_limit : Option OrgTokenBudget → Option ℕ
budget_limit none = none
budget_limit (some b) = b.max_tokens_per_request

-- The roles of a caller, and whether it is an admin.
abbrev pub principal : {F : Type 0} → Option (AuthContext F) → List String × Bool
principal none = ([], false)
principal (some auth) = (auth.roles, is_admin_scope auth.scope)

module _ (wording : PolicyDenial → String) (to_lowercase : String → String) where
  abbrev pub deny : PolicyDenial → Result (Unit {0})
  deny d = err (forbidden (wording d))

  unfoldable pub check_models : String → List Scope → Result (Unit {0})
  check_models model [] = ok tt
  check_models model (s ∷ ss) =
      if not_allowed s.allowed_models model
      then deny (model_not_allowed model s.kind s.id)
      else if blocked s.blocked_models model
      then deny (model_blocked model s.kind s.id)
      else check_models model ss

  -- One scope's guardrails, on the lowercased messages.
  unfoldable pub check_guardrail : ChatCompletionRequest → Scope → Result (Unit {0})
  check_guardrail request s =
      if not s.guardrails.enabled
      then ok tt
      else elim (scan_messages (map to_lowercase s.guardrails.blocked_words)
          (map to_lowercase (message_texts request.messages))) [
            | some word ↦ deny (blocked_word word)
            | none ↦ elim (exceeds request.max_tokens s.guardrails.max_tokens_per_request) [
              | some (requested, max) ↦ deny (over_guardrail_limit requested s.kind max)
              | none ↦ ok tt
            ]
          ]

  unfoldable pub check_guardrails : ChatCompletionRequest → List Scope → Result (Unit {0})
  unfolding check_guardrail
  check_guardrails request [] = ok tt
  check_guardrails request (s ∷ ss) = do check_guardrail request s; check_guardrails request ss

  module _ {F : Type 0} where
    unfoldable pub check_org_guardrails :
        Option (AuthContext F) → Config → ChatCompletionRequest → Result (Unit {0})
    unfolding check_models check_guardrails
    check_org_guardrails none config request = ok tt
    check_org_guardrails (some auth) config request = do
      check_models request.model (scopes config auth.org_id auth.team_id)
      check_guardrails request (scopes config auth.org_id auth.team_id)

  unfoldable pub check_budgets : ℕ → List Scope → Result (Unit {0})
  check_budgets requested [] = ok tt
  check_budgets requested (s ∷ ss) = elim (exceeds (some requested) (budget_limit s.token_budget)) [
    | some (r, max) ↦ deny (over_budget_limit r s.kind max)
    | none ↦ check_budgets requested ss
  ]

  abbrev pub of_checked : Checked → Result (Unit {0})
  of_checked Checked.ok = ok tt
  of_checked (Checked.err d) = deny (rbac_denial d)

  module _ {F : Type 0} where
    unfoldable pub check_token_budgets :
        Option (AuthContext F) → Config → ChatCompletionRequest → Result (Unit {0})
    unfolding check_budgets
    check_token_budgets auth config request = elim request.max_tokens [
      | none ↦ ok tt
      | some requested ↦ elim auth [
        | none ↦ ok tt
        | some a ↦ check_budgets requested (scopes config a.org_id a.team_id)
      ]
    ]

    unfoldable pub check_rbac_model : Option (AuthContext F) → Config → String → Result (Unit {0})
    check_rbac_model auth config model =
        if not config.rbac.enabled
        then ok tt
        else of_checked (check_model config.rbac (principal auth).0 (principal auth).1 model)
