-- ===== src/Strategy/Coverage.antt =====
-- crates/himadri/src/strategy.rs, `select_ordered`: what every strategy promises to the failover.
use mathlib.Core.List.Perm
use mathlib.Core.Logic.Or
use text.Mathlib.TextBridge.{IsPrefix}
use text.Mathlib.TextEquality.{starts_with_iff}
use himadri.Common.{
  ℕ, ◌≡◌, ◌↔◌, ◌⊎◌, ◌++◌, eq_iff, inl, inr, refl, ap, String, true, List, [], ◌∷◌, Option, none,
  some, or_else, unwrap_or, Bool-cases, All,
}
use himadri.Types.{ChatCompletionRequest, Target}
use himadri.Policy.Checks.{ok}
use himadri.Strategy.Select.{
  Floats, ConditionKey, model_prefix, ConditionRule, matches_condition, Strategy, single,
  conditional, ordered_with_primary, dedup_targets, order, select_ordered, find_condition,
}
use himadri.Strategy.Dedup.{dedup_targets_head}

module _ {F : Type 0} where
  primary-head :
      (p : Option (Target F)) (t : Target F) (ts : List (Target F))
      → (rest : List (Target F)) × (dedup_targets (ordered_with_primary p (t ∷ ts))
          ≡ unwrap_or p t ∷ rest)
  unfolding ordered_with_primary
  primary-head none t ts = (_, dedup_targets_head t ts)
  primary-head (some p) t ts = (_, dedup_targets_head p (t ∷ ts))

abbrev pub MatchesKey : ConditionKey → (value name : String) → Type 0
MatchesKey ConditionKey.model value name = name ≡ value
MatchesKey model_prefix value name = IsPrefix value name

module _ {F : Type 0} where
  -- The request's model is the rule's value, or begins with it.
  abbrev pub Matches : ChatCompletionRequest → ConditionRule F → Type 0
  Matches request rule = MatchesKey rule.key rule.value request.model

  matches_condition_iff :
      (key : ConditionKey) (value : String) (target : Target F) (request : ChatCompletionRequest)
      → (matches_condition (record { key = key; value = value; target = target }) request ≡ true)
        ↔ MatchesKey key value request.model
  unfolding matches_condition
  matches_condition_iff ConditionKey.model value target request = eq_iff request.model value
  matches_condition_iff model_prefix value target request = starts_with_iff request.model value

  -- `chosen` is the target of the first rule that matches, and `default` if none does.
  abbrev pub FirstMatch :
      ChatCompletionRequest → List (ConditionRule F) → (default chosen : Option (Target F)) → Type 0
  FirstMatch request rules default chosen =
      ((before after : List (ConditionRule F)) × (rule : ConditionRule F) × (rules
          ≡ before ++ (rule ∷ after))
        × All (λ r. ¬ Matches request r) before
        × Matches request rule
        × (chosen ≡ some rule.target))
      ⊎ (All (λ r. ¬ Matches request r) rules × (chosen ≡ default))

  FirstMatch-cons :
      (request : ChatCompletionRequest) (rule : ConditionRule F) (rules : List (ConditionRule F))
      (default chosen : Option (Target F))
      → ¬ Matches request rule
      → FirstMatch request rules default chosen
      → FirstMatch request (rule ∷ rules) default chosen
  FirstMatch-cons request rule rules default chosen other
        (inl (before, after, r, split, none_before, m, e)) =
      inl (rule ∷ before, after, r, ap (λ l. rule ∷ l) split, (other, none_before), m, e)
  FirstMatch-cons request rule rules default chosen other (inr (none_at_all, e)) =
      inr ((other, none_at_all), e)

  find_condition-FirstMatch :
      (rules : List (ConditionRule F)) (request : ChatCompletionRequest)
      (default : Option (Target F))
      → FirstMatch request rules default (or_else (find_condition rules request) default)
  unfolding find_condition
  find_condition-FirstMatch [] request default = inr (tt, refl)
  find_condition-FirstMatch (rule ∷ rules) request default =
      let (to, from) = matches_condition_iff rule.key rule.value rule.target request in
      elim (Bool-cases (matches_condition rule request)) [
        | inl m ↦ rw m (inl ([], rules, rule, refl, tt, to m, refl))
        | inr other ↦ rw other (
            FirstMatch-cons request rule rules default _ (λ h. cc (from h, other))
              (find_condition-FirstMatch rules request default))
      ]

-- The strategies that list every target.
abbrev pub ListsAll : {F : Type 0} → Strategy F → Type 0
ListsAll single = ⊥
ListsAll _ = Unit

module _ {F : Type 0} (ops : Floats F) (to_lowercase : String → String) (draw : ℕ → F → F) where
  -- With a rule that the request's model matches, the conditional strategy tries the target of the first
  -- such rule before all others; with none, its fallback target; and with neither, the first target
  -- configured.
  pub select_ordered_conditional :
      (rules : List (ConditionRule F)) (default : Option (Target F))
      (request : ChatCompletionRequest) (t : Target F) (ts : List (Target F))
      → (chosen : Option (Target F)) × FirstMatch request rules default chosen
        × (rest : List (Target F)) × (select_ordered ops to_lowercase draw
              (conditional rules default)
              request
              (t ∷ ts)
            ≡ ok (unwrap_or chosen t ∷ rest))
  unfolding select_ordered order
  select_ordered_conditional rules default request t ts =
      let (rest, e) = primary-head (or_else (find_condition rules request) default) t ts in
      (
        or_else (find_condition rules request) default,
        find_condition-FirstMatch rules request default,
        rest,
        ap ok e,
      )
