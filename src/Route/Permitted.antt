-- ===== src/Route/Permitted.antt =====
-- crates/himadri/src/gateway/route.rs, `select_targets`: which targets a request can reach.
use mathlib.Core.List.{Mem, Perm, mem-cons, not-mem-nil}
use mathlib.Core.List.Perm
use mathlib.Core.Path.{subst}
use mathlib.Core.Logic.Or
use himadri.Common.{
  ℕ, ◌≡◌, ◌⊎◌, inl, inr, refl, sym, String, Bool, true, not, List, [], ◌∷◌, Option, none, arith,
  length, Bool-cases, All, ◌||◌,
}
use himadri.Types.{AuthContext, ChatCompletionRequest, Target}
use himadri.Rbac.Access.{Checked, RbacDenial, RbacConfig, check_dimension, check_provider}
use himadri.Policy.Config.{Config}
use himadri.Policy.Checks.{Result, ok, err, ◌>>=◌, PolicyDenial, principal}
use himadri.Strategy.Select.{
  Floats, Strategy, single, fallback, load_balance, least_latency, cost_optimized, conditional,
  content_based, ab_test, dedup_targets, dedup_from, order, select_ordered,
}
use himadri.Strategy.Dedup.{dedup_from-All}
use himadri.Strategy.Orders.{sort_by-perm, load_loop-perm}
use himadri.Strategy.Select.{load_loop}
use himadri.Route.Targets.{
  target_serves_model, eligible, permitted, last_denial, or_forbidden, filter_targets_by_rbac,
  order_eligible, select_targets,
}

Checked-cases : (c : Checked) → (c ≡ Checked.ok) ⊎ ((d : RbacDenial) × (c ≡ Checked.err d))
Checked-cases Checked.ok = inl refl
Checked-cases (Checked.err d) = inr (d, refl)

check_provider-open :
    (rbac : RbacConfig) (roles : List String) (is_admin : Bool) (provider : String)
    → (not rbac.enabled || is_admin) ≡ true
    → check_provider rbac roles is_admin provider ≡ Checked.ok
unfolding check_provider check_dimension
check_provider-open rbac roles is_admin provider h = rw h

>>=-ok :
    {A B : Type 0} (first : Result A) (next : A → Result B) {last : B}
    → first >>= next ≡ ok last
    → (value : A) × (next value ≡ ok last) × (first ≡ ok value)
>>=-ok (err denied) next h = cc
>>=-ok (ok value) next h = (value, h, refl)

All-of {ℓ} : {A : Type ℓ} (P : A → Type 0) → ((x : A) → P x) → (xs : List A) → All P xs
All-of P h [] = tt
All-of P h (x ∷ xs) = (h x, All-of P h xs)

All-mem : {A : Type 0} (P : A → Type 0) (xs : List A) → ((x : A) → Mem x xs → P x) → All P xs
All-mem P [] h = tt
All-mem P (x ∷ xs) h =
    (h x (mem-cons.1 (Or.inl refl)), All-mem P xs (λ y m. h y (mem-cons.1 (Or.inr m))))

module _ {F : Type 0} (rbac : RbacConfig) (roles : List String) (is_admin : Bool) where
  abbrev Reachable : Target F → Type 0
  Reachable t = check_provider rbac roles is_admin t.provider ≡ Checked.ok

  permitted-All : (ts : List (Target F)) → All Reachable (permitted rbac roles is_admin ts)
  unfolding permitted
  permitted-All [] = tt
  permitted-All (t ∷ ts) = elim (Checked-cases (check_provider rbac roles is_admin t.provider)) [
    | inl e ↦ rw (e, permitted) (e, permitted-All ts)
    | inr (d, e) ↦ rw (e, permitted) (permitted-All ts)
  ]

  permitted-keeps :
      (P : Target F → Type 0) (ts : List (Target F))
      → All P ts
      → All P (permitted rbac roles is_admin ts)
  unfolding permitted
  permitted-keeps P [] h = tt
  permitted-keeps P (t ∷ ts) (here, h) =
      elim (Checked-cases (check_provider rbac roles is_admin t.provider)) [
        | inl e ↦ rw (e, permitted) (here, permitted-keeps P ts h)
        | inr (d, e) ↦ rw (e, permitted) (permitted-keeps P ts h)
      ]

or_forbidden-ok :
    {F : Type 0} (wording : PolicyDenial → String) (last : Option RbacDenial)
    (ts allowed : List (Target F))
    → or_forbidden wording last ts ≡ ok allowed
    → ts ≡ allowed
or_forbidden-ok wording last [] allowed h = cc
or_forbidden-ok wording last (t ∷ ts) allowed h = cc

module _ {F : Type 0} (wording : PolicyDenial → String) (auth : Option (AuthContext F))
    (rbac : RbacConfig) where
  abbrev roles : List String
  roles = (principal auth).0

  abbrev is_admin : Bool
  is_admin = (principal auth).1

  filter_targets_by_rbac-cases :
      (ordered : List (Target F))
      → ((not rbac.enabled || is_admin) ≡ true)
          × (filter_targets_by_rbac wording auth rbac ordered ≡ ok ordered)
        ⊎ (filter_targets_by_rbac wording auth rbac ordered
            ≡ or_forbidden wording
                (last_denial rbac roles is_admin none ordered)
                (permitted rbac roles is_admin ordered))
  unfolding filter_targets_by_rbac
  filter_targets_by_rbac-cases ordered = elim (Bool-cases rbac.enabled) [
    | inr off ↦ inl (rw off, rw off)
    | inl on ↦ elim (Bool-cases is_admin) [
      | inl admin ↦ inl (ground arith, rw (on, admin))
      | inr checked ↦ inr (rw (on, checked))
    ]
  ]

  -- What the filter lets through has a permitted provider, and keeps what held of all targets.
  filter_targets_by_rbac-All :
      (P : Target F → Type 0) (ordered allowed : List (Target F))
      → filter_targets_by_rbac wording auth rbac ordered ≡ ok allowed
      → All P ordered
      → All (Reachable rbac roles is_admin) allowed × All P allowed
  filter_targets_by_rbac-All P ordered allowed h held =
      elim (filter_targets_by_rbac-cases ordered) [
        | inl (open_to_all, e) ↦ (
          All-of (Reachable rbac roles is_admin)
              (λ t. check_provider-open rbac roles is_admin t.provider open_to_all) allowed,
          (let same : ordered ≡ allowed = cc in subst (All P) same held),
        )
        | inr e ↦
            let same =
              or_forbidden-ok wording (last_denial rbac roles is_admin none ordered)
                (permitted rbac roles is_admin ordered) allowed cc in
            (
              subst (All (Reachable rbac roles is_admin)) same
                  (permitted-All rbac roles is_admin ordered),
              subst (All P) same (permitted-keeps rbac roles is_admin P ordered held),
            )
      ]

module _ {F : Type 0} (P : Target F → Type 0) where
  All-Mem :
      (is_prop : (t : Target F) → IsProp (P t)) (ts : List (Target F)) (t : Target F)
      → All P ts
      → Mem t ts
      → P t
  All-Mem is_prop [] t h m = absurd (not-mem-nil m)
  All-Mem is_prop (s ∷ ts) t (here, h) m =
      Or.elim (is_prop t) (mem-cons.0 m) (λ e. subst P (sym e) here) (All-Mem is_prop ts t h)

  All-perm :
      (is_prop : (t : Target F) → IsProp (P t)) (xs ys : List (Target F))
      → Perm xs ys
      → All P ys
      → All P xs
  All-perm is_prop xs ys p h = All-mem P xs (λ x m. All-Mem is_prop ys x h ((Perm.mem_iff p).0 m))

-- The strategies that have no targets of their own.
abbrev pub OnlyOrders : {F : Type 0} → Strategy F → Type 0
OnlyOrders (conditional rules default) = ⊥
OnlyOrders (content_based rules default) = ⊥
OnlyOrders (ab_test variants) = ⊥
OnlyOrders _ = Unit

abbrev pub Serves : {F : Type 0} → String → Target F → Type 0
Serves model t = target_serves_model t model ≡ true

eligible-All :
    {F : Type 0} (model : String) (ts : List (Target F)) → All (Serves model) (eligible model ts)
unfolding eligible
eligible-All model [] = tt
eligible-All model (t ∷ ts) =
    let rest = eligible-All model ts in
    elim (Bool-cases (target_serves_model t model)) [
      | inl e ↦ rw (e, eligible) (e, rest)
      | inr e ↦ rw (e, eligible) rest
    ]

module _ {F : Type 0} (ops : Floats F) (to_lowercase : String → String) (draw : ℕ → F → F) where
  order-All :
      (P : Target F → Type 0) (is_prop : (t : Target F) → IsProp (P t)) (strategy : Strategy F)
      (request : ChatCompletionRequest) (t : Target F) (ts : List (Target F))
      → OnlyOrders strategy
      → All P (t ∷ ts)
      → All P (order ops to_lowercase draw strategy request t ts)
  unfolding order
  order-All P is_prop single request t ts o (here, h) = (here, tt)
  order-All P is_prop fallback request t ts o h = h
  order-All P is_prop load_balance request t ts o h =
      All-perm P is_prop (load_loop ops draw (length (t ∷ ts)) (t ∷ ts)) (t ∷ ts)
        (load_loop-perm ops draw (length (t ∷ ts)) (t ∷ ts) refl) h
  order-All P is_prop (least_latency store) request t ts o h =
      All-perm P is_prop _ (t ∷ ts) (sort_by-perm _ (t ∷ ts)) h
  order-All P is_prop cost_optimized request t ts o h =
      All-perm P is_prop _ (t ∷ ts) (sort_by-perm _ (t ∷ ts)) h
  order-All P is_prop (conditional rules default) request t ts o h = absurd o
  order-All P is_prop (content_based rules default) request t ts o h = absurd o
  order-All P is_prop (ab_test variants) request t ts o h = absurd o

  order_eligible-All :
      (P : Target F → Type 0) (is_prop : (t : Target F) → IsProp (P t)) (strategy : Strategy F)
      (request : ChatCompletionRequest) (ts ordered : List (Target F))
      → OnlyOrders strategy
      → All P ts
      → order_eligible to_lowercase draw ops strategy request ts ≡ ok ordered
      → All P ordered
  unfolding order_eligible select_ordered dedup_targets
  order_eligible-All P is_prop strategy request [] ordered o h e = cc
  order_eligible-All P is_prop strategy request (t ∷ ts) ordered o h e =
      let listed = order ops to_lowercase draw strategy request t ts in
      let same : dedup_from [] listed ≡ ordered = cc in
      subst (All P) same
        (dedup_from-All P [] listed (order-All P is_prop strategy request t ts o h))

  module _ (wording : PolicyDenial → String) (config : Config) (auth : Option (AuthContext F)) where
    -- Every target that a request is tried on has a provider that role-based access permits the
    -- caller, also a target that a routing rule or a variant brings in by itself.
    pub select_targets-check_provider :
        (strategy : Strategy F) (targets allowed : List (Target F))
        (request : ChatCompletionRequest)
        → select_targets wording to_lowercase draw ops strategy config targets request auth
          ≡ ok allowed
        → All
            (λ t.
              check_provider config.rbac (principal auth).0 (principal auth).1 t.provider
              ≡ Checked.ok)
            allowed
    unfolding select_targets
    select_targets-check_provider strategy targets allowed request h =
        let (ordered, f, e) =
          >>=-ok
            (order_eligible to_lowercase draw ops strategy request (eligible request.model targets))
            (filter_targets_by_rbac wording auth config.rbac) h in
        (filter_targets_by_rbac-All wording auth config.rbac (λ t. Unit) ordered allowed f
          (All-of (λ t. Unit) (λ t. tt) ordered)).0

    -- Under a strategy that has no targets of its own, every target that a request is tried on
    -- serves the requested model.
    pub select_targets-Serves :
        (strategy : Strategy F) (targets allowed : List (Target F))
        (request : ChatCompletionRequest)
        → OnlyOrders strategy
        → select_targets wording to_lowercase draw ops strategy config targets request auth
          ≡ ok allowed
        → All (Serves request.model) allowed
    unfolding select_targets
    select_targets-Serves strategy targets allowed request o h =
        let (ordered, f, e) =
          >>=-ok
            (order_eligible to_lowercase draw ops strategy request (eligible request.model targets))
            (filter_targets_by_rbac wording auth config.rbac) h in
        (filter_targets_by_rbac-All wording auth config.rbac (Serves request.model) ordered allowed
          f
          (order_eligible-All (Serves request.model) (λ t. hlevel) strategy request
            (eligible request.model targets) ordered o (eligible-All request.model targets) e)).1
