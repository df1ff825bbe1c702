-- ===== src/Policy/Guardrails.antt =====
-- crates/himadri/src/gateway/policy.rs: when the checks of an organisation's rules pass.
use himadri.Common.{
  ℕ, ◌≤◌, ◌≡◌, ◌↔◌, ◌⊎◌, inl, inr, refl, String, true, false, List, [], ◌∷◌, ◌++◌, Option, none,
  some, map, arith, eq_iff, Bool-cases, Option-cases, All,
}
use himadri.Types.{AuthContext, contains, ChatCompletionRequest}
use himadri.Rbac.Pattern.{codes, find_after}
use himadri.Rbac.Greedy.{find_after_sound, find_after_complete}
use himadri.Rbac.Decision.{Any}
use himadri.Policy.Config.{Config, Scope, scopes}
use himadri.Policy.Checks.{
  Result, ok, err, ◌>>◌, PolicyDenial, contains_text, not_allowed, blocked, message_texts,
  find_word, scan_messages, exceeds, check_models, check_guardrail, check_guardrails,
  check_org_guardrails,
}

-- The part occurs somewhere in the text.
abbrev pub Occurs : String → String → Type 0
Occurs part text =
    (before : List ℕ) × (after : List ℕ) × (codes text ≡ before ++ (codes part ++ after))

contains_text_iff : (text part : String) → (contains_text text part ≡ true) ↔ Occurs part text
unfolding contains_text
contains_text_iff text part = (
  λ h. elim (Option-cases (find_after (codes part) (codes text))) [
    | inl missed ↦ absurd (ground arith)
    | inr (rest, found) ↦
        let (before, e) = find_after_sound (codes part) (codes text) rest found in (before, rest, e)
  ],
  λ (before, after, e).
      let (q, found) = find_after_complete (codes part) before after in rw e (rw found),
)

contains_iff : (s : String) (xs : List String) → (contains s xs ≡ true) ↔ Any (λ x. x ≡ s) xs
unfolding contains
contains_iff s [] = (λ h. cc, λ h. absurd h)
contains_iff s (x ∷ xs) = ground (arith, contains_iff s xs, eq_iff x s)

-- No list, or a list that has the model.
abbrev pub Allowed : Option (List String) → String → Type 0
Allowed none model = Unit
Allowed (some list) model = Any (λ m. m ≡ model) list

abbrev pub NotBlocked : Option (List String) → String → Type 0
NotBlocked none model = Unit
NotBlocked (some list) model = ¬ Any (λ m. m ≡ model) list

-- The request asks for no more than the limit, where both are given.
abbrev pub Within : Option ℕ → Option ℕ → Type 0
Within none max = Unit
Within (some requested) none = Unit
Within (some requested) (some max) = requested ≤ max

not_allowed_iff :
    (list : Option (List String)) (model : String)
    → (not_allowed list model ≡ false) ↔ Allowed list model
unfolding not_allowed
not_allowed_iff none model = (λ h. tt, λ h. refl)
not_allowed_iff (some list) model = ground (arith, contains_iff model list)

blocked_iff :
    (list : Option (List String)) (model : String)
    → (blocked list model ≡ false) ↔ NotBlocked list model
unfolding blocked
blocked_iff none model = (λ h. tt, λ h. refl)
blocked_iff (some list) model =
    let (to, from) = contains_iff model list in
    (
      λ h a. cc (from a),
      λ n. elim (Bool-cases (contains model list)) [ inl e ↦ absurd (n (to e)) | inr e ↦ e ],
    )

pub exceeds_iff : (r m : Option ℕ) → (exceeds r m ≡ none) ↔ Within r m
exceeds_iff none m = (λ h. tt, λ h. refl)
exceeds_iff (some r) none = (λ h. tt, λ h. refl)
exceeds_iff (some r) (some m) = ground arith

-- None of the words occurs in the text.
abbrev pub Clean : List String → String → Type 0
Clean words text = All (λ w. ¬ Occurs w text) words

find_word_iff :
    (words : List String) (text : String) → (find_word words text ≡ none) ↔ Clean words text
unfolding find_word
find_word_iff [] text = (λ h. tt, λ h. refl)
find_word_iff (w ∷ words) text =
    let (to, from) = contains_text_iff text w in
    let (to_rest, from_rest) = find_word_iff words text in
    elim (Bool-cases (contains_text text w)) [
      | inl e ↦ (λ h. absurd (ground arith), λ c. absurd (c.0 (to e)))
      | inr e ↦ rw e (λ h. (λ o. cc (from o), to_rest h), λ c. from_rest c.1)
    ]

scan_messages_iff :
    (words texts : List String) → (scan_messages words texts ≡ none) ↔ All (Clean words) texts
unfolding scan_messages
scan_messages_iff words [] = (λ h. tt, λ h. refl)
scan_messages_iff words (t ∷ texts) =
    let (to, from) = find_word_iff words t in
    let (to_rest, from_rest) = scan_messages_iff words texts in
    elim (Option-cases (find_word words t)) [
      | inl e ↦ rw (e, scan_messages) (λ h. (to e, to_rest h), λ c. from_rest c.1)
      | inr (w, e) ↦ (λ h. absurd (ground arith), λ c. absurd (ground (arith, from c.0)))
    ]

-- One scope's lists let the model through.
abbrev pub ModelPasses : String → Scope → Type 0
ModelPasses model s = Allowed s.allowed_models model × NotBlocked s.blocked_models model

-- One scope's guardrails are off, or no blocked word occurs in a message (both in lower case)
-- and the token limit is kept.
abbrev pub GuardrailPasses : (String → String) → ChatCompletionRequest → Scope → Type 0
GuardrailPasses to_lowercase request s =
    (s.guardrails.enabled ≡ false)
    ⊎ (All (Clean (map to_lowercase s.guardrails.blocked_words))
          (map to_lowercase (message_texts request.messages))
        × Within request.max_tokens s.guardrails.max_tokens_per_request)

both_ok : (m k : Result (Unit {0})) → (m >> k) ≡ ok tt → (m ≡ ok tt) × (k ≡ ok tt)
both_ok (ok tt) k h = (refl, h)
both_ok (err e) k h = absurd (cc)

module _ (wording : PolicyDenial → String) (to_lowercase : String → String) where
  check_models_iff :
      (model : String) (ss : List Scope)
      → (check_models wording to_lowercase model ss ≡ ok tt) ↔ All (ModelPasses model) ss
  unfolding check_models
  check_models_iff model [] = (λ h. tt, λ h. refl)
  check_models_iff model (s ∷ ss) =
      let (to_a, from_a) = not_allowed_iff s.allowed_models model in
      let (to_b, from_b) = blocked_iff s.blocked_models model in
      let (to, from) = check_models_iff model ss in
      elim (Bool-cases (not_allowed s.allowed_models model)) [
        | inl a ↦ rw a (λ h. absurd (cc), λ c. absurd (ground (arith, from_a c.0.0)))
        | inr a ↦ elim (Bool-cases (blocked s.blocked_models model)) [
          | inl b ↦ rw (a, b) (λ h. absurd (cc), λ c. absurd (ground (arith, from_b c.0.1)))
          | inr b ↦ rw (a, b) (λ h. ((to_a a, to_b b), to h), λ c. from c.1)
        ]
      ]

  check_guardrail_iff :
      (request : ChatCompletionRequest) (s : Scope)
      → (check_guardrail wording to_lowercase request s ≡ ok tt)
        ↔ GuardrailPasses to_lowercase request s
  unfolding check_guardrail
  check_guardrail_iff request s =
      let words = map to_lowercase s.guardrails.blocked_words in
      let texts = map to_lowercase (message_texts request.messages) in
      let limit = s.guardrails.max_tokens_per_request in
      let (to_w, from_w) = scan_messages_iff words texts in
      let (to_m, from_m) = exceeds_iff request.max_tokens limit in
      elim (Bool-cases s.guardrails.enabled) [
        | inr off ↦ rw off (λ h. inl refl, λ c. refl)
        | inl on ↦ elim (Option-cases (scan_messages words texts)) [
          | inr (w, e) ↦
              rw (on, e)
                (
                  λ h. absurd (cc),
                  λ c. elim c [
                    | inl f ↦ absurd (cc)
                    | inr (clean, within) ↦ absurd (ground (arith, from_w clean))
                  ],
                )
          | inl e ↦ elim (Option-cases (exceeds request.max_tokens limit)) [
            | inr (p, over) ↦
                rw (on, e, over)
                  (
                    λ h. absurd (cc),
                    λ c. elim c [
                      | inl f ↦ absurd (cc)
                      | inr (clean, within) ↦ absurd (ground (arith, from_m within))
                    ],
                  )
            | inl fits ↦ rw (on, e, fits) (λ h. inr (to_w e, to_m fits), λ c. refl)
          ]
        ]
      ]

  check_guardrails_iff :
      (request : ChatCompletionRequest) (ss : List Scope)
      → (check_guardrails wording to_lowercase request ss ≡ ok tt)
        ↔ All (GuardrailPasses to_lowercase request) ss
  unfolding check_guardrails
  check_guardrails_iff request [] = (λ h. tt, λ h. refl)
  check_guardrails_iff request (s ∷ ss) =
      let (to_s, from_s) = check_guardrail_iff request s in
      let (to, from) = check_guardrails_iff request ss in
      (
        λ h.
            let (here, rest) = both_ok (check_guardrail wording to_lowercase request s) _ h in
            (to_s here, to rest),
        λ c. rw (from_s c.0) (from c.1),
      )

  module _ {F : Type 0} where
    -- A request of an authenticated principal passes the rules of its organisation and team exactly
    -- when every scope that applies to it lets the model through and has its guardrails off or
    -- respected; in particular every scope's rules count, not the most specific ones alone.
    pub check_org_guardrails_iff :
        (auth : AuthContext F) (config : Config) (request : ChatCompletionRequest)
        → (check_org_guardrails wording to_lowercase (some auth) config request ≡ ok tt) ↔ (
            All (ModelPasses request.model) (scopes config auth.org_id auth.team_id)
            × All (GuardrailPasses to_lowercase request) (scopes config auth.org_id auth.team_id))
    unfolding check_org_guardrails
    check_org_guardrails_iff auth config request =
        let ss = scopes config auth.org_id auth.team_id in
        let (to_m, from_m) = check_models_iff request.model ss in
        let (to_g, from_g) = check_guardrails_iff request ss in
        (
          λ h.
              let (models, guards) =
                both_ok (check_models wording to_lowercase request.model ss) _ h in
              (to_m models, to_g guards),
          λ c. rw (from_m c.0) (from_g c.1),
        )
