-- ===== src/PlanIntents/Kept.antt =====
-- routes/plan_change_intent.go: what each write keeps, the passes of a sweep keep.
use sentanyl_core_readonly.PlanIntents.Sweep.{
  applied, apply_due_billing_changes, apply_each, apply_item, apply_priced, apply_target,
  cancel_each, ensure_price, project_cancellation, reconcile_each, reconcile_item, is_due_change,
  is_scheduled_cancellation, is_stale, reconcile_scheduled_cancellations,
  reconcile_stale_plan_intents, reconciled, with_tier,
}
use sentanyl_core_readonly.PlanIntents.{
  Billing, Intent, Item, Lookup, Status, Tenant, World, canceled, clear_billing_change, confirmed,
  failed, found, is_open, not_found, resolve_plan_intent, write_tenant,
}
use sentanyl_core_readonly.Prelude.{
  ℕ, ◌-◌, ◌*◌, Bool, true, false, ltb, if_rule, Option, some, none, List, [], ◌∷◌, ◌++◌, Str, bytes,
  str_eq, ◌≡◌, ◌⊎◌, inl, inr, refl, is_nil,
}

module _ {S : Type 0} (b : Billing S) where
  -- A tier that the plans know, by a price or by its name.
  abbrev pub KnownTier : Str → Type 0
  KnownTier tier =
      ((price : Str) × (b.tier_of_price price ≡ some tier))
      ⊎ ((name : Str) × (b.by_tier name ≡ some tier))

  -- The tenant is on a tier that the plans know, with the contract of this tier.
  pub record HasContract (t : Tenant) : Type 0 where
    pub known : KnownTier t.plan_tier
    pub frozen : t.plan_contract ≡ b.snapshot_contract t.plan_tier

  abbrev pub KeepsContract : (Tenant → Tenant) → Type 0
  KeepsContract f = (t : Tenant) → HasContract t → HasContract (f t)

  module _ (P : World S → Type 0)
      (resolve : (id : Str) (status : Status) (tier note : Str) (now : ℕ) (w : World S)
        → is_open status ≡ false
        → P w
        → P (resolve_plan_intent b id status tier note now w))
      (write : (id : Str) (f : Tenant → Tenant) (w : World S)
        → KeepsContract f
        → P w
        → P (write_tenant b id f w).0)
      (charge : (s : S) (w : World S) → P w → P (record w { stripe = s })) where
    -- A pass that does nothing without a key or without an answer of the database.
    pass_keeps :
        (w : World S) (run : List Intent → World S)
        → P w
        → ((is : List Intent) → P (run is))
        → (keyless : Bool) (o : Option (List Intent))
        → P (elim keyless as (λ _. World S) [
          | true ↦ w
          | false ↦ elim o as (λ _. World S) [ none ↦ w | some is ↦ run is ]
        ])
    pass_keeps w run p k true o = p
    pass_keeps w run p k false none = p
    pass_keeps w run p k false (some is) = k is

    clear_keeps : (tenant : Str) (w : World S) → P w → P (clear_billing_change b tenant w)
    unfolding clear_billing_change
    clear_keeps tenant w = write tenant _ w (λ t h. record { known = h.known; frozen = h.frozen })

    reconciled_keeps :
        (tier : Str) (i : Intent) (now : ℕ) (r : World S × Bool)
        → P r.0
        → P (reconciled b tier i now r)
    unfolding reconciled
    reconciled_keeps tier i now (w, false) p = p
    reconciled_keeps tier i now (w, true) p = resolve _ confirmed _ _ _ w refl p

    reconcile_item_keeps :
        (i : Intent) (now : ℕ) (w : World S) (l : Lookup) → P w → P (reconcile_item b i now w l)
    unfolding reconcile_item
    reconcile_item_keeps i now w (not_found e) p =
        if_rule P (ltb (86_400 * 1_000_000_000) (now - i.created_at))
          (λ _. resolve _ failed _ _ _ w refl p) λ _. p
    reconcile_item_keeps i now w (found item) p = priced (b.tier_of_price item.price_id) refl
      where
        priced :
            (o : Option Str)
            → b.tier_of_price item.price_id ≡ o
            → P (elim o as (λ _. World S) [
              | none ↦
                  resolve_plan_intent b i.id failed []
                    (bytes "unmapped stripe price " ++ item.price_id)
                    now
                    w
              | some tier ↦
                  reconciled b tier i now (write_tenant b i.tenant_id (with_tier b tier) w)
            ])
        priced none e = resolve _ failed _ _ _ w refl p
        priced (some tier) e = reconciled_keeps tier i now _ (
            write i.tenant_id _ w (λ t h. record { known = inl (item.price_id, e); frozen = refl })
              p)

    reconcile_each_keeps :
        (clock : Intent → ℕ) (is : List Intent) (w : World S)
        → P w
        → P (reconcile_each b clock is w)
    unfolding reconcile_each
    reconcile_each_keeps clock [] w p = p
    reconcile_each_keeps clock (i ∷ is) w p =
        reconcile_each_keeps clock is _ (reconcile_item_keeps i (clock i) w _ p)

    applied_keeps :
        (tier : Str) (i : Intent) (now : ℕ) (r : World S × Bool)
        → P r.0
        → P (applied b tier i now r)
    unfolding applied
    applied_keeps tier i now (w, false) p = p
    applied_keeps tier i now (w, true) p = resolve _ confirmed _ _ _ w refl p

    apply_priced_keeps :
        (tier : Str) (i : Intent) (now : ℕ) (r : World S × Bool)
        → KnownTier tier
        → P r.0
        → P (apply_priced b tier i now r)
    unfolding apply_priced
    apply_priced_keeps tier i now (w, false) k p = p
    apply_priced_keeps tier i now (w, true) k p =
        applied_keeps tier i now _
          (write i.tenant_id _ w (λ t h. record { known = k; frozen = refl }) p)

    ensure_price_keeps :
        (tier : Str) (i : Intent) (item : Item) (w : World S)
        → P w
        → P (ensure_price b tier i item w).0
    unfolding ensure_price
    ensure_price_keeps tier i item w p =
        if_rule (λ (r : World S × Bool). P r.0) (str_eq item.price_id (b.price_of_tier tier))
          (λ _. p) λ _. charge _ w p

    apply_target_keeps :
        (i : Intent) (now : ℕ) (w : World S) (o : Option Str)
        → b.by_tier i.to_tier ≡ o
        → P w
        → P (apply_target b i now w o)
    unfolding apply_target
    apply_target_keeps i now w none e p =
        clear_keeps i.tenant_id _ (resolve _ failed _ _ _ w refl p)
    apply_target_keeps i now w (some tier) e p = priced (b.get_item w.stripe i.stripe_sub_id)
      where
        priced : (l : Lookup) → P (apply_item b tier i now w l)
        priced (not_found x) = p
        priced (found item) =
            apply_priced_keeps tier i now _ (inr (i.to_tier, e))
              (ensure_price_keeps tier i item w p)

    apply_each_keeps :
        (clock : Intent → ℕ) (is : List Intent) (w : World S) → P w → P (apply_each b clock is w)
    unfolding apply_each
    apply_each_keeps clock [] w p = p
    apply_each_keeps clock (i ∷ is) w p =
        apply_each_keeps clock is _ (apply_target_keeps i (clock i) w _ refl p)

    pub apply_due_billing_changes_keeps :
        (now : ℕ) (clock : Intent → ℕ) (w : World S)
        → P w
        → P (apply_due_billing_changes b now clock w)
    unfolding apply_due_billing_changes
    apply_due_billing_changes_keeps now clock w p =
        pass_keeps w (λ is. apply_each b clock is w) p (λ is. apply_each_keeps clock is w p)
          (is_nil b.key) (b.find (is_due_change now) w.intents)

    project_cancellation_keeps :
        (i : Intent) (now : ℕ) (w : World S) (l : Lookup)
        → P w
        → P (project_cancellation b i now w l)
    unfolding project_cancellation
    project_cancellation_keeps i now w (not_found e) p = p
    project_cancellation_keeps i now w (found item) p =
        if_rule P item.cancel_at_period_end
          (λ _. write i.tenant_id _ w (λ t h. record { known = h.known; frozen = h.frozen }) p)
          λ _. clear_keeps i.tenant_id _ (resolve _ canceled _ _ _ w refl p)

    cancel_each_keeps :
        (clock : Intent → ℕ) (is : List Intent) (w : World S) → P w → P (cancel_each b clock is w)
    unfolding cancel_each
    cancel_each_keeps clock [] w p = p
    cancel_each_keeps clock (i ∷ is) w p =
        cancel_each_keeps clock is _ (project_cancellation_keeps i (clock i) w _ p)

    pub reconcile_scheduled_cancellations_keeps :
        (clock : Intent → ℕ) (w : World S) → P w → P (reconcile_scheduled_cancellations b clock w)
    unfolding reconcile_scheduled_cancellations
    reconcile_scheduled_cancellations_keeps clock w p =
        pass_keeps w (λ is. cancel_each b clock is w) p (λ is. cancel_each_keeps clock is w p)
          (is_nil b.key) (b.find is_scheduled_cancellation w.intents)

    pub reconcile_stale_plan_intents_keeps :
        (older_than now : ℕ) (reconciling applying cancelling : Intent → ℕ) (w : World S)
        → P w
        → P (reconcile_stale_plan_intents b older_than now reconciling applying cancelling w)
    unfolding reconcile_stale_plan_intents
    reconcile_stale_plan_intents_keeps older_than now reconciling applying cancelling w p =
        pass_keeps w
          (λ is.
            reconcile_scheduled_cancellations b cancelling
              (apply_due_billing_changes b now applying (reconcile_each b reconciling is w)))
          p
          (λ is. reconcile_scheduled_cancellations_keeps cancelling _ (
            apply_due_billing_changes_keeps now applying _
              (reconcile_each_keeps reconciling is w p)))
          (is_nil b.key) (b.find (is_stale older_than) w.intents)
