-- ===== src/Strategy/Select.antt =====
-- crates/himadri/src/strategy.rs: the strategies and `select_ordered`. `F` stands for `f64`, with
-- the operations that the source uses; the draws of the random generator, Unicode lowercasing and
-- the regular expressions are parameters.
use Prim.Native.String.{◌++◌}
use text.Mathlib.Text.{◌==◌ as str_eq, starts_with}
use himadri.Common.{
  ℕ, zero, suc, String, Bool, true, false, not, ◌&&◌, List, [], ◌∷◌, Option, none, some,
  if◌then◌else◌, leb, or_else, length,
}
use himadri.Types.{Role, user, flat_text, Message, ChatCompletionRequest, Target}
use himadri.Policy.Checks.{Result, ok, err, contains_text}
use himadri.Errors.{GatewayError}
use himadri.Strategy.Latency.{LatencyStore, get_avg_latency}

-- The operations on `f64`: `lt a b` is `a < b`, and so on; all are false on a NaN.
pub record Floats (F : Type 0) : Type 0 where
  pub zero_f : F
  pub one_f : F
  pub add_f : F → F → F
  pub sub_f : F → F → F
  pub max_f : F → F → F
  pub lt_f : F → F → Bool
  pub le_f : F → F → Bool

pub data ConditionKey : Type 0 where
  model model_prefix : ConditionKey

pub record ConditionRule (F : Type 0) : Type 0 where
  pub key : ConditionKey
  pub value : String
  pub target : Target F

pub data ContentConditionType : Type 0 where
  prompt_contains prompt_not_contains prompt_regex : ContentConditionType

-- A compiled regular expression is its `is_match`.
pub record ContentRule (F : Type 0) : Type 0 where
  pub condition_type : ContentConditionType
  pub value : String
  pub target : Target F
  pub compiled_regex : Option (String → Bool)

pub record AbTestVariant (F : Type 0) : Type 0 where
  pub target : Target F
  pub weight : F

pub data Strategy (F : Type 0) : Type 0 where
  single : Strategy F
  fallback : Strategy F
  load_balance : Strategy F
  least_latency : LatencyStore → Strategy F
  cost_optimized : Strategy F
  conditional : List (ConditionRule F) → Option (Target F) → Strategy F
  content_based : List (ContentRule F) → Option (Target F) → Strategy F
  ab_test : List (AbTestVariant F) → Strategy F

abbrev pub is_user : Role → Bool
is_user user = true
is_user _ = false

-- The texts of the user's messages, joined by a space.
unfoldable pub user_texts : List Message → List String
user_texts [] = []
user_texts (m ∷ ms) = elim m.content [
  | none ↦ user_texts ms
  | some c ↦ if is_user m.role then flat_text c ∷ user_texts ms else user_texts ms
]

unfoldable pub join_with : String → List String → String
join_with sep [] = ""
join_with sep (s ∷ []) = s
join_with sep (s ∷ t ∷ ss) = s ++ (sep ++ join_with sep (t ∷ ss))

unfoldable pub extract_user_content : ChatCompletionRequest → String
unfolding user_texts join_with
extract_user_content request = join_with " " (user_texts request.messages)

abbrev pub same_text : Option String → Option String → Bool
same_text none none = true
same_text (some a) (some b) = str_eq a b
same_text _ _ = false

module _ {F : Type 0} where
  unfoldable pub matches_condition : ConditionRule F → ChatCompletionRequest → Bool
  matches_condition rule request = elim rule.key [
    | model ↦ str_eq request.model rule.value
    | model_prefix ↦ starts_with request.model rule.value
  ]

  -- `iter().find(..)`, and the target of what is found.
  unfoldable pub find_condition : List (ConditionRule F) → ChatCompletionRequest → Option (Target F)
  unfolding matches_condition
  find_condition [] request = none
  find_condition (r ∷ rules) request =
      if matches_condition r request then some r.target else find_condition rules request

  unfoldable pub matches_content_rule :
      (String → String) → ContentRule F → ChatCompletionRequest → Bool
  unfolding extract_user_content
  matches_content_rule to_lowercase rule request = elim rule.condition_type [
    | prompt_contains ↦
        contains_text (to_lowercase (extract_user_content request)) (to_lowercase rule.value)
    | prompt_not_contains ↦
        not (contains_text (to_lowercase (extract_user_content request)) (to_lowercase rule.value))
    | prompt_regex ↦ elim rule.compiled_regex [
      | none ↦ false
      | some is_match ↦ is_match (extract_user_content request)
    ]
  ]

  unfoldable pub find_content :
      (String → String) → List (ContentRule F) → ChatCompletionRequest → Option (Target F)
  unfolding matches_content_rule
  find_content to_lowercase [] request = none
  find_content to_lowercase (r ∷ rules) request =
      if matches_content_rule to_lowercase r request
      then some r.target
      else find_content to_lowercase rules request

  unfoldable pub ordered_with_primary : Option (Target F) → List (Target F) → List (Target F)
  ordered_with_primary none targets = targets
  ordered_with_primary (some p) targets = p ∷ targets

  -- The identity of an endpoint: id, provider, key variable and base URL.
  unfoldable pub same_endpoint : Target F → Target F → Bool
  same_endpoint a b =
      same_text a.id b.id
      && str_eq a.provider b.provider
      && same_text a.api_key_env b.api_key_env
      && same_text a.base_url b.base_url

  unfoldable pub seen : Target F → List (Target F) → Bool
  seen t [] = false
  seen t (s ∷ ss) = if same_endpoint s t then true else seen t ss

  -- The filter over the targets, with the set of the endpoints seen so far.
  unfoldable pub dedup_from : List (Target F) → List (Target F) → List (Target F)
  unfolding seen
  dedup_from known [] = []
  dedup_from known (t ∷ ts) =
      let fresh = t ∷ dedup_from (t ∷ known) ts in
      let rest = dedup_from known ts in if seen t known then rest else fresh

  unfoldable pub dedup_targets : List (Target F) → List (Target F)
  unfolding dedup_from
  dedup_targets targets = dedup_from [] targets

-- A stable sort: each item goes before the first that it is not after.
module _ {A : Type 0} (not_after : A → A → Bool) where
  unfoldable pub sort_insert : A → List A → List A
  sort_insert x [] = x ∷ []
  sort_insert x (y ∷ ys) = if not_after x y then x ∷ y ∷ ys else y ∷ sort_insert x ys

  unfoldable pub sort_by : List A → List A
  unfolding sort_insert
  sort_by [] = []
  sort_by (x ∷ xs) = sort_insert x (sort_by xs)

module _ {F : Type 0} (ops : Floats F) where
  open ops use {zero_f, one_f, add_f, sub_f, max_f, lt_f, le_f}

  -- `iter().map(|t| t.weight.max(0.0)).sum()`
  unfoldable pub total_weight : F → List (Target F) → F
  total_weight acc [] = acc
  total_weight acc (t ∷ ts) = total_weight (add_f acc (max_f t.weight zero_f)) ts

  -- The scan that subtracts the weights from the draw, and the removal of the chosen target: the
  -- first at which nothing is left, or else the last.
  unfoldable pub take_chosen : F → Target F → List (Target F) → Target F × List (Target F)
  take_chosen r x [] = (x, [])
  take_chosen r x (y ∷ ys) =
      let r' = sub_f r (max_f x.weight zero_f) in
      let later = take_chosen r' y ys in
      if le_f r' zero_f then (x, y ∷ ys) else (later.0, x ∷ later.1)

  -- One round: the target that is taken and those that remain.
  unfoldable pub take_weighted : (F → F) → Target F → List (Target F) → Target F × List (Target F)
  unfolding total_weight take_chosen
  take_weighted draw x xs =
      let total = total_weight zero_f (x ∷ xs) in
      if le_f total zero_f then (x, xs) else take_chosen (draw total) x xs

  -- `draw n total` is the draw of the round that leaves `n` further ones.
  unfoldable pub load_loop : (ℕ → F → F) → ℕ → List (Target F) → List (Target F)
  unfolding take_weighted
  load_loop draw zero remaining = []
  load_loop draw (suc n) [] = []
  load_loop draw (suc n) (x ∷ xs) =
      let taken = take_weighted (draw n) x xs in taken.0 ∷ load_loop draw n taken.1

  unfoldable pub cost_not_after : Target F → Target F → Bool
  cost_not_after a b = not (lt_f b.weight a.weight)

  abbrev pub variant_weight : AbTestVariant F → F
  variant_weight v = if le_f v.weight zero_f then one_f else v.weight

  unfoldable pub total_variants : F → List (AbTestVariant F) → F
  total_variants acc [] = acc
  total_variants acc (v ∷ vs) = total_variants (add_f acc (variant_weight v)) vs

  -- The scan over the variants: the first whose cumulative weight is above the draw, or the last.
  unfoldable pub scan_variants : F → F → AbTestVariant F → List (AbTestVariant F) → Target F
  scan_variants r cumulative v [] = v.target
  scan_variants r cumulative v (w ∷ vs) =
      let c = add_f cumulative (variant_weight v) in
      let later = scan_variants r c w vs in if lt_f r c then v.target else later

  abbrev pub first? : List (Target F) → Option (Target F)
  first? [] = none
  first? (t ∷ ts) = some t

  unfoldable pub select_ab_test_variant :
      (F → F) → List (AbTestVariant F) → List (Target F) → Option (Target F)
  unfolding total_variants scan_variants
  select_ab_test_variant draw [] targets = first? targets
  select_ab_test_variant draw (v ∷ vs) targets =
      some (scan_variants (draw (total_variants zero_f (v ∷ vs))) zero_f v vs)

  -- The order before endpoints are made distinct; `targets` is not empty.
  unfoldable pub order :
      (String → String)
      → (ℕ → F → F)
      → Strategy F
      → ChatCompletionRequest
      → Target F
      → List (Target F)
      → List (Target F)
  unfolding load_loop sort_by cost_not_after find_condition find_content select_ab_test_variant
      ordered_with_primary get_avg_latency
  order to_lowercase draw strategy request t ts = elim strategy [
    | single ↦ t ∷ []
    | fallback ↦ t ∷ ts
    | load_balance ↦ load_loop draw (length (t ∷ ts)) (t ∷ ts)
    | least_latency store ↦
        sort_by (λ a b. leb (get_avg_latency a.provider store) (get_avg_latency b.provider store))
          (t ∷ ts)
    | cost_optimized ↦ sort_by cost_not_after (t ∷ ts)
    | conditional rules default ↦
        ordered_with_primary (or_else (find_condition rules request) default) (t ∷ ts)
    | content_based rules default ↦
        ordered_with_primary (or_else (find_content to_lowercase rules request) default) (t ∷ ts)
    | ab_test variants ↦
        ordered_with_primary (select_ab_test_variant (draw 0) variants (t ∷ ts)) (t ∷ ts)
  ]

  unfoldable pub select_ordered :
      (String → String)
      → (ℕ → F → F)
      → Strategy F
      → ChatCompletionRequest
      → List (Target F)
      → Result (List (Target F))
  unfolding order dedup_targets
  select_ordered to_lowercase draw strategy request [] =
      err (GatewayError.internal "No targets configured")
  select_ordered to_lowercase draw strategy request (t ∷ ts) =
      ok (dedup_targets (order to_lowercase draw strategy request t ts))
