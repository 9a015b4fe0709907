-- ===== src/PlanIntents/Outcomes.antt =====
-- routes/plan_change_intent.go: what a sweep leaves of the intents and of the tenants.
use sentanyl_core_readonly.PlanIntents.Kept.{
  HasContract, KeepsContract, reconcile_stale_plan_intents_keeps,
}
use sentanyl_core_readonly.PlanIntents.Sweep.{reconcile_stale_plan_intents}
use sentanyl_core_readonly.PlanIntents.{
  Billing, Intent, Status, Tenant, World, is_open, resolve_plan_intent, stamp, update_open,
  update_tenant, write_tenant,
}
use sentanyl_core_readonly.Prelude.Distinct.{All}
use sentanyl_core_readonly.Prelude.{
  ℕ, Bool, true, false, ◌&&◌, if_rule, and_iff, some, List, [], ◌∷◌, Str, str_eq, ◌≡◌,
}

-- An intent stays as it is, or it was open and now has an outcome, a note and a time.
pub data Settles (i : Intent) : Intent → Type 0 where
  kept : Settles i i
  settled :
      (status : Status) (tier note : Str) (now : ℕ)
      → is_open i.status ≡ true
      → is_open status ≡ false
      → Settles i
          (record i { status = status; resolved_tier = tier; note = note; resolved_at = some now })

-- The intents of a collection, one by one.
pub data Evolves : List Intent → List Intent → Type 0 where
  done : Evolves [] []
  each :
      {i j : Intent} {is js : List Intent} → Settles i j → Evolves is js → Evolves (i ∷ is) (j ∷ js)

Settles-trans : {i j k : Intent} → Settles i j → Settles j k → Settles i k
Settles-trans kept s = s
Settles-trans (settled status tier note now o c) kept = settled status tier note now o c
Settles-trans (settled status tier note now o c) (settled _ _ _ _ o' _) = absurd (cc)

Evolves-refl : (is : List Intent) → Evolves is is
Evolves-refl [] = done
Evolves-refl (i ∷ is) = each kept (Evolves-refl is)

Evolves-trans : {is js ks : List Intent} → Evolves is js → Evolves js ks → Evolves is ks
Evolves-trans done done = done
Evolves-trans (each s e) (each t f) = each (Settles-trans s t) (Evolves-trans e f)

update_open-Evolves :
    (id : Str) (status : Status) (tier note : Str) (now : ℕ) (is : List Intent)
    → is_open status ≡ false
    → Evolves is (update_open id (stamp status tier note now) is)
unfolding update_open stamp
update_open-Evolves id status tier note now [] c = done
update_open-Evolves id status tier note now (i ∷ is) c =
    if_rule (Evolves (i ∷ is)) (str_eq i.id id && is_open i.status)
      (λ h.
        each (settled status tier note now ((and_iff (str_eq i.id id) (is_open i.status)).0 h).1 c)
          (Evolves-refl is))
      λ _. each kept (update_open-Evolves id status tier note now is c)

module _ {S : Type 0} (b : Billing S) (old : List Intent) where
  abbrev EvolvedFrom : World S → Type 0
  EvolvedFrom w = Evolves old w.intents

  resolve-EvolvedFrom :
      (id : Str) (status : Status) (tier note : Str) (now : ℕ) (w : World S)
      → is_open status ≡ false
      → EvolvedFrom w
      → EvolvedFrom (resolve_plan_intent b id status tier note now w)
  unfolding resolve_plan_intent
  resolve-EvolvedFrom id status tier note now w c e =
      if_rule EvolvedFrom (b.is_intent_written id)
        (λ _. Evolves-trans e (update_open-Evolves id status tier note now w.intents c)) λ _. e

  write-EvolvedFrom :
      (id : Str) (f : Tenant → Tenant) (w : World S)
      → KeepsContract b f
      → EvolvedFrom w
      → EvolvedFrom (write_tenant b id f w).0
  unfolding write_tenant
  write-EvolvedFrom id f w k e =
      if_rule (λ (r : World S × Bool). EvolvedFrom r.0) (b.is_tenant_written id) (λ _. e) λ _. e

-- A sweep of stale intents, due downgrades and scheduled cancellations leaves every intent as it is,
-- or gives an intent that was pending or scheduled its outcome: an intent that has one never
-- changes again, and none is lost or added.
pub reconcile_stale_plan_intents-Evolves :
    {S : Type 0} (b : Billing S) (older_than now : ℕ) (reconciling applying cancelling : Intent → ℕ)
    (w : World S)
    → Evolves w.intents
        (reconcile_stale_plan_intents b older_than now reconciling applying cancelling w).intents
reconcile_stale_plan_intents-Evolves b older_than now reconciling applying cancelling w =
    reconcile_stale_plan_intents_keeps b (EvolvedFrom b w.intents) (resolve-EvolvedFrom b w.intents)
      (write-EvolvedFrom b w.intents) (λ s v e. e) older_than now reconciling applying cancelling w
      (Evolves-refl w.intents)

module _ {S : Type 0} (b : Billing S) where
  abbrev pub HasContracts : World S → Type 0
  HasContracts w = All (HasContract b) w.tenants

  update_tenant-HasContract :
      (id : Str) (f : Tenant → Tenant) (ts : List Tenant)
      → KeepsContract b f
      → All (HasContract b) ts
      → All (HasContract b) (update_tenant id f ts).0
  unfolding update_tenant
  update_tenant-HasContract id f [] k h = tt
  update_tenant-HasContract id f (t ∷ ts) k h =
      if_rule (λ (r : List Tenant × Bool). All (HasContract b) r.0) (str_eq t.id id)
        (λ _. (k t h.0, h.1)) λ _. (h.0, update_tenant-HasContract id f ts k h.1)

  resolve-HasContracts :
      (id : Str) (status : Status) (tier note : Str) (now : ℕ) (w : World S)
      → is_open status ≡ false
      → HasContracts w
      → HasContracts (resolve_plan_intent b id status tier note now w)
  unfolding resolve_plan_intent
  resolve-HasContracts id status tier note now w c h =
      if_rule HasContracts (b.is_intent_written id) (λ _. h) λ _. h

  write-HasContracts :
      (id : Str) (f : Tenant → Tenant) (w : World S)
      → KeepsContract b f
      → HasContracts w
      → HasContracts (write_tenant b id f w).0
  unfolding write_tenant
  write-HasContracts id f w k h =
      if_rule (λ (r : World S × Bool). HasContracts r.0) (b.is_tenant_written id)
        (λ _. update_tenant-HasContract id f w.tenants k h) λ _. h

-- If every tenant is on a tier that the plans know, by a price or by a name, and has the contract of
-- this tier, then so it is behind a sweep.
pub reconcile_stale_plan_intents-HasContracts :
    {S : Type 0} (b : Billing S) (older_than now : ℕ) (reconciling applying cancelling : Intent → ℕ)
    (w : World S)
    → HasContracts b w
    → HasContracts b
        (reconcile_stale_plan_intents b older_than now reconciling applying cancelling w)
reconcile_stale_plan_intents-HasContracts b =
    reconcile_stale_plan_intents_keeps b (HasContracts b) (resolve-HasContracts b)
      (write-HasContracts b) λ s v h. h
