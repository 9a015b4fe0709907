-- ===== src/PlanIntents/Sweep.antt =====
-- routes/plan_change_intent.go: `reconcileStalePlanIntents`, `applyDueBillingChanges` and
-- `reconcileScheduledCancellations`, the passes of a sweep.
use sentanyl_core_readonly.PlanIntents.{
  Billing, Intent, Item, Lookup, Tenant, World, canceled, change_cancel, change_plan,
  clear_billing_change, confirmed, failed, found, is_due, is_pending, is_scheduled, kind_eq,
  not_found, or_effective, resolve_plan_intent, write_tenant,
}
use sentanyl_core_readonly.Prelude.{
  ℕ, ◌-◌, ◌*◌, Bool, true, false, ◌&&◌, ltb, leb, if◌then◌else◌, Option, some, none, List, [], ◌∷◌,
  ◌++◌, Str, bytes, str_eq, is_nil,
}

-- The queries of the three passes.
abbrev pub is_stale : ℕ → Intent → Bool
is_stale older_than i = is_pending i.status && leb i.created_at older_than

abbrev pub is_due_change : ℕ → Intent → Bool
is_due_change now i =
    kind_eq i.kind change_plan && (is_scheduled i.status && is_due i.effective_at now)

abbrev pub is_scheduled_cancellation : Intent → Bool
is_scheduled_cancellation i = kind_eq i.kind change_cancel && is_scheduled i.status

module _ {S : Type 0} (b : Billing S) where
  -- The tier and the contract that a sweep writes.
  abbrev pub with_tier : Str → Tenant → Tenant
  with_tier tier t = record t { plan_tier = tier; plan_contract = b.snapshot_contract tier }

  -- `reconcileStalePlanIntents`, behind the tenant's write.
  unfoldable pub reconciled : Str → Intent → ℕ → World S × Bool → World S
  unfolding resolve_plan_intent
  reconciled tier i now (w, false) = w
  reconciled tier i now (w, true) =
      resolve_plan_intent b i.id confirmed tier (bytes "reconciled from stripe") now w

  unfoldable pub reconcile_item : Intent → ℕ → World S → Lookup → World S
  unfolding resolve_plan_intent reconciled write_tenant
  reconcile_item i now w (not_found e) =
      if ltb (86_400 * 1_000_000_000) (now - i.created_at)
      then resolve_plan_intent b i.id failed [] (bytes "stripe lookup failed: " ++ e) now w
      else w
  reconcile_item i now w (found item) = elim (b.tier_of_price item.price_id) [
    | none ↦
        resolve_plan_intent b i.id failed [] (bytes "unmapped stripe price " ++ item.price_id) now w
    | some tier ↦ reconciled tier i now (write_tenant b i.tenant_id (with_tier tier) w)
  ]

  unfoldable pub reconcile_each : (Intent → ℕ) → List Intent → World S → World S
  unfolding reconcile_item
  reconcile_each clock [] w = w
  reconcile_each clock (i ∷ is) w =
      reconcile_each clock is (reconcile_item i (clock i) w (b.get_item w.stripe i.stripe_sub_id))

  -- `applyDueBillingChanges`, behind the tenant's write.
  unfoldable pub applied : Str → Intent → ℕ → World S × Bool → World S
  unfolding resolve_plan_intent
  applied tier i now (w, false) = w
  applied tier i now (w, true) =
      resolve_plan_intent b i.id confirmed tier (bytes "effective-dated downgrade applied") now w

  -- Behind Stripe's answer: the price is the target's, or a change of it was accepted.
  unfoldable pub apply_priced : Str → Intent → ℕ → World S × Bool → World S
  unfolding applied write_tenant
  apply_priced tier i now (w, false) = w
  apply_priced tier i now (w, true) = applied tier i now (
      write_tenant b i.tenant_id
        (λ t. record t {
          plan_tier = tier;
          plan_contract = b.snapshot_contract tier;
          billing_change_kind = none;
          pending_plan_tier = none;
          billing_change_effective_at = none;
        })
        w)

  -- The price that Stripe has is compared and, where it differs, changed.
  unfoldable pub ensure_price : Str → Intent → Item → World S → World S × Bool
  ensure_price tier i item w =
      let price = b.price_of_tier tier in
      let updated = b.update_price w.stripe i.stripe_sub_id item.item_id price in
      if str_eq item.price_id price then (w, true) else (record w { stripe = updated.0 }, updated.1)

  unfoldable pub apply_item : Str → Intent → ℕ → World S → Lookup → World S
  unfolding apply_priced ensure_price
  apply_item tier i now w (not_found e) = w
  apply_item tier i now w (found item) = apply_priced tier i now (ensure_price tier i item w)

  unfoldable pub apply_target : Intent → ℕ → World S → Option Str → World S
  unfolding resolve_plan_intent clear_billing_change apply_item
  apply_target i now w none =
      clear_billing_change b i.tenant_id
        (resolve_plan_intent b i.id failed [] (bytes "unknown target tier") now w)
  apply_target i now w (some tier) = apply_item tier i now w (b.get_item w.stripe i.stripe_sub_id)

  unfoldable pub apply_each : (Intent → ℕ) → List Intent → World S → World S
  unfolding apply_target
  apply_each clock [] w = w
  apply_each clock (i ∷ is) w =
      apply_each clock is (apply_target i (clock i) w (b.by_tier i.to_tier))

  unfoldable pub apply_due_billing_changes : ℕ → (Intent → ℕ) → World S → World S
  unfolding apply_each
  apply_due_billing_changes now clock w = elim (is_nil b.key) [
    | true ↦ w
    | false ↦ elim (b.find (is_due_change now) w.intents) [
      | none ↦ w
      | some is ↦ apply_each clock is w
    ]
  ]

  unfoldable pub project_cancellation : Intent → ℕ → World S → Lookup → World S
  unfolding resolve_plan_intent clear_billing_change write_tenant
  project_cancellation i now w (not_found e) = w
  project_cancellation i now w (found item) =
      if item.cancel_at_period_end
      then (write_tenant b i.tenant_id
          (λ t. record t {
            billing_change_kind = some change_cancel;
            billing_change_effective_at = or_effective item.current_period_end i.effective_at;
            pending_plan_tier = some [];
          })
          w).0
      else clear_billing_change b i.tenant_id (
          resolve_plan_intent b i.id canceled [] (bytes "Stripe cancellation no longer scheduled")
            now w)

  unfoldable pub cancel_each : (Intent → ℕ) → List Intent → World S → World S
  unfolding project_cancellation
  cancel_each clock [] w = w
  cancel_each clock (i ∷ is) w =
      cancel_each clock is
        (project_cancellation i (clock i) w (b.get_item w.stripe i.stripe_sub_id))

  unfoldable pub reconcile_scheduled_cancellations : (Intent → ℕ) → World S → World S
  unfolding cancel_each
  reconcile_scheduled_cancellations clock w = elim (is_nil b.key) [
    | true ↦ w
    | false ↦ elim (b.find is_scheduled_cancellation w.intents) [
      | none ↦ w
      | some is ↦ cancel_each clock is w
    ]
  ]

  -- The three passes of a sweep, each intent at its own time; the first one's error ends the sweep.
  unfoldable pub reconcile_stale_plan_intents :
      ℕ → ℕ → (Intent → ℕ) → (Intent → ℕ) → (Intent → ℕ) → World S → World S
  unfolding reconcile_each apply_due_billing_changes reconcile_scheduled_cancellations
  reconcile_stale_plan_intents older_than now reconciling applying cancelling w =
      elim (is_nil b.key) [
        | true ↦ w
        | false ↦ elim (b.find (is_stale older_than) w.intents) [
          | none ↦ w
          | some is ↦
              reconcile_scheduled_cancellations cancelling
                (apply_due_billing_changes now applying (reconcile_each reconciling is w))
        ]
      ]
