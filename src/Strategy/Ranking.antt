-- ===== src/Strategy/Ranking.antt =====
-- crates/himadri/src/strategy.rs, the least-latency strategy: the order that the failover follows.
use himadri.Common.{ℕ, ◌≤◌, ◌≡◌, inl, inr, refl, String, List, [], ◌∷◌, Bool-cases}
use himadri.Types.{ChatCompletionRequest, Target}
use himadri.Policy.Checks.{ok}
use himadri.Strategy.Latency.{LatencyStore, get_avg_latency}
use himadri.Strategy.Select.{
  Floats, least_latency, seen, dedup_from, dedup_targets, order, select_ordered,
}
use himadri.Strategy.Dedup.{dedup_from-All}
use himadri.Strategy.Orders.{Ascending, sort_by-Ascending}

dedup_from-Ascending :
    {F : Type 0} (key : Target F → ℕ) (known ts : List (Target F))
    → Ascending key ts
    → Ascending key (dedup_from known ts)
unfolding dedup_from
dedup_from-Ascending key known [] h = tt
dedup_from-Ascending key known (t ∷ ts) (least, h) =
    let fresh = dedup_from-Ascending key (t ∷ known) ts h in
    let rest = dedup_from-Ascending key known ts h in
    elim (Bool-cases (seen t known)) [
      | inl dropped ↦ rw dropped rest
      | inr kept ↦ rw kept (dedup_from-All (λ u. key t ≤ key u) (t ∷ known) ts least, fresh)
    ]

module _ {F : Type 0} (ops : Floats F) (to_lowercase : String → String) (draw : ℕ → F → F) where
  -- The least-latency strategy orders the targets by the average latency of their provider, the
  -- lowest first.
  pub select_ordered_least_latency :
      (store : LatencyStore) (request : ChatCompletionRequest) (t : Target F) (ts : List (Target F))
      → (ordered : List (Target F)) × (select_ordered ops to_lowercase draw
            (least_latency store)
            request
            (t ∷ ts)
          ≡ ok ordered)
        × Ascending (λ u. get_avg_latency u.provider store) ordered
  unfolding select_ordered order dedup_targets
  select_ordered_least_latency store request t ts =
      let listed = order ops to_lowercase draw (least_latency store) request t ts in
      (
        dedup_from [] listed,
        refl,
        dedup_from-Ascending (λ u. get_avg_latency u.provider store) [] listed
            (sort_by-Ascending (λ u. get_avg_latency u.provider store) (t ∷ ts)),
      )
