-- ===== src/UsageStore/Pricing.antt =====
-- crates/himadri-admin/src/usage_store.rs, `load_pricing`: which price a model has.
use text.Mathlib.Text.{◌==◌}
use himadri.Common.{
  ◌≡◌, refl, ap, ◌∙◌, String, List, [], ◌∷◌, Option, some, arith, if◌then◌else◌, eq_iff,
}
use himadri.UsageStore.{ModelPricing, override, override_all, load_pricing, price_of}

module _ {F : Type 0} where
  -- The last entry of a model, or else what is given.
  abbrev pub last_price :
      String → List (ModelPricing F) → Option (ModelPricing F) → Option (ModelPricing F)
  last_price model [] before = before
  last_price model (p ∷ ps) before =
      last_price model ps (if p.model == model then some p else before)

  price_of-override :
      (model : String) (entry : ModelPricing F) (ps : List (ModelPricing F))
      → price_of model (override entry ps)
        ≡ (if entry.model == model then some entry else price_of model ps)
  unfolding price_of override
  price_of-override model entry [] = refl
  price_of-override model entry (p ∷ ps) = ground (
    arith,
    price_of-override model entry ps,
    eq_iff p.model entry.model,
    eq_iff p.model model,
    eq_iff entry.model model,
  )

  price_of-override_all :
      (model : String) (overrides ps : List (ModelPricing F))
      → price_of model (override_all overrides ps) ≡ last_price model overrides (price_of model ps)
  unfolding override_all
  price_of-override_all model [] ps = refl
  price_of-override_all model (entry ∷ entries) ps =
      price_of-override_all model entries (override entry ps)
      ∙ ap (last_price model entries) (price_of-override model entry ps)

  -- The price of a model is its last override, and the built-in one if there is none.
  pub price_of-load_pricing :
      (model : String) (overrides defaults : List (ModelPricing F))
      → price_of model (load_pricing (some overrides) defaults)
        ≡ last_price model overrides (price_of model defaults)
  unfolding load_pricing
  price_of-load_pricing model overrides defaults = price_of-override_all model overrides defaults
