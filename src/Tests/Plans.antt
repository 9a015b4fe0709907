-- ===== src/Tests/Plans.antt =====
-- Runs of the sweep of plan intents, and its theorems at these inputs.
use sentanyl_core_readonly.PlanIntents.Charged.{Charged, apply_target-Charged}
use sentanyl_core_readonly.PlanIntents.Outcomes.{
  Evolves, HasContracts, reconcile_stale_plan_intents-Evolves,
  reconcile_stale_plan_intents-HasContracts,
}
use sentanyl_core_readonly.PlanIntents.Sweep.{apply_target, reconcile_stale_plan_intents}
use sentanyl_core_readonly.PlanIntents.{
  Billing, Intent, Tenant, World, change_plan, confirm_plan_intents, found, pending, scheduled,
}
use sentanyl_core_readonly.Prelude.{
  ℕ, Bool, true, if◌then◌else◌, some, none, List, [], ◌∷◌, ◌++◌, Str, bytes, str_eq, ◌≡◌, refl, inr,
}

abbrev matching : (Intent → Bool) → List Intent → List Intent
matching q [] = []
matching q (i ∷ is) = if q i then i ∷ matching q is else matching q is

-- Stripe's state is the price of the one subscription.
abbrev billing : Billing Str
billing = record {
  key = bytes "sk";
  find = λ q is. some (matching q is);
  get_item = λ price sub. found (record {
    item_id = bytes "si";
    price_id = price;
    current_period_end = none;
    cancel_at_period_end = true;
  });
  update_price = λ price sub item target. (target, true);
  tier_of_price = λ price. some price;
  by_tier = λ tier. some tier;
  price_of_tier = λ tier. tier;
  snapshot_contract = λ tier. bytes "c-" ++ tier;
  is_intent_written = λ id. true;
  is_tenant_written = λ id. true;
}

abbrev upgrade : Intent
upgrade = record {
  id = bytes "i1";
  tenant_id = bytes "t1";
  kind = change_plan;
  to_tier = bytes "pro";
  stripe_sub_id = bytes "sub";
  status = pending;
  created_at = 0;
  effective_at = none;
  resolved_tier = [];
  note = [];
  resolved_at = none;
}

abbrev downgrade : Intent
downgrade = record upgrade {
  id = bytes "i2";
  to_tier = bytes "solo";
  status = scheduled;
  effective_at = some 50;
}

abbrev plans : World Str
plans = record {
  intents = upgrade ∷ downgrade ∷ [];
  tenants =
      record {
        id = bytes "t1";
        plan_tier = bytes "solo";
        plan_contract = bytes "c-solo";
        billing_change_kind = none;
        pending_plan_tier = none;
        billing_change_effective_at = none;
      }
      ∷ [];
  stripe = bytes "pro";
}

abbrev at_turn : Intent → ℕ
at_turn i = 100

abbrev tiers : List Tenant → List Str
tiers [] = []
tiers (t ∷ ts) = t.plan_tier ∷ tiers ts

abbrev outcomes : List Intent → List Str
outcomes [] = []
outcomes (i ∷ is) = i.resolved_tier ∷ outcomes is

-- Before the downgrade is due, a sweep takes the tier from Stripe.
early-tiers :
    tiers (reconcile_stale_plan_intents billing 10 40 at_turn at_turn at_turn plans).tenants
    ≡ bytes "pro" ∷ []
unfolding reconcile_stale_plan_intents str_eq
early-tiers = refl

-- Afterwards it settles both, the downgrade last.
late-outcomes :
    outcomes (reconcile_stale_plan_intents billing 10 60 at_turn at_turn at_turn plans).intents
    ≡ bytes "pro" ∷ bytes "solo" ∷ []
unfolding reconcile_stale_plan_intents str_eq
late-outcomes = refl

reconcile_stale_plan_intents-Evolves_example :
    Evolves
      (upgrade ∷ downgrade ∷ [])
      (reconcile_stale_plan_intents billing 10 60 at_turn at_turn at_turn plans).intents
reconcile_stale_plan_intents-Evolves_example =
    reconcile_stale_plan_intents-Evolves billing 10 60 at_turn at_turn at_turn plans

-- The webhook's confirmation settles what is pending and not what is scheduled.
confirmed-outcomes :
    outcomes (confirm_plan_intents billing (bytes "t1") (bytes "pro") at_turn plans).intents
    ≡ bytes "pro" ∷ [] ∷ []
unfolding confirm_plan_intents str_eq
confirmed-outcomes = refl

plans-HasContracts : HasContracts billing plans
plans-HasContracts = (record { known = inr (bytes "solo", refl); frozen = refl }, tt)

reconcile_stale_plan_intents-HasContracts_example :
    HasContracts billing (reconcile_stale_plan_intents billing 10 60 at_turn at_turn at_turn plans)
reconcile_stale_plan_intents-HasContracts_example =
    reconcile_stale_plan_intents-HasContracts billing 10 60 at_turn at_turn at_turn plans
      plans-HasContracts

apply_target-Charged_example :
    Charged billing downgrade plans
      (apply_target billing downgrade 60 plans (billing.by_tier (bytes "solo")))
apply_target-Charged_example = apply_target-Charged billing downgrade plans 60
