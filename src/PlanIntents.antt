-- ===== src/PlanIntents.antt =====
-- routes/plan_change_intent.go: the intents of plan changes, how they are resolved, and the sweep
-- that reconciles them with Stripe (PlanIntents.Sweep); and `clearBillingChange` of routes/platform_billing.go.
pub mod Sweep
pub mod Kept
pub mod Outcomes
pub mod Charged
use sentanyl_core_readonly.Prelude.{
  ℕ, ◌-◌, ◌*◌, Bool, true, false, not, ◌&&◌, ltb, leb, if◌then◌else◌, Option, some, none, List, [],
  ◌∷◌, ◌++◌, Str, bytes, str_eq, is_nil,
}

-- The kinds of a billing change that the sweeps tell apart.
pub data Kind : Type 0 where
  change_plan change_cancel change_reactivate : Kind

abbrev pub kind_eq : Kind → Kind → Bool
kind_eq change_plan change_plan = true
kind_eq change_cancel change_cancel = true
kind_eq change_reactivate change_reactivate = true
kind_eq _ _ = false

pub data Status : Type 0 where
  pending scheduled confirmed failed canceled : Status

abbrev pub is_pending : Status → Bool
is_pending pending = true
is_pending _ = false

abbrev pub is_scheduled : Status → Bool
is_scheduled scheduled = true
is_scheduled _ = false

-- `{"$in": []string{PlanChangeIntentPending, PlanChangeIntentScheduled}}`.
abbrev pub is_open : Status → Bool
is_open pending = true
is_open scheduled = true
is_open _ = false

-- The fields of `models.PlanChangeIntent` that are read or written here. Times are nanoseconds.
pub record Intent : Type 0 where
  pub id : Str
  pub tenant_id : Str
  pub kind : Kind
  pub to_tier : Str
  pub stripe_sub_id : Str
  pub status : Status
  pub created_at : ℕ
  pub effective_at : Option ℕ
  pub resolved_tier : Str
  pub note : Str
  pub resolved_at : Option ℕ

-- The fields of `models.Tenant` that are written here; a field that is unset, or
-- holds the zero time, is `none`.
pub record Tenant : Type 0 where
  pub id : Str
  pub plan_tier : Str
  pub plan_contract : Str
  pub billing_change_kind : Option Kind
  pub pending_plan_tier : Option Str
  pub billing_change_effective_at : Option ℕ

-- `billing.SubscriptionItem`; the end of the period is `none` for the zero time.
pub record Item : Type 0 where
  pub item_id : Str
  pub price_id : Str
  pub current_period_end : Option ℕ
  pub cancel_at_period_end : Bool

-- An item, or the text of the error.
pub data Lookup : Type 0 where
  found : Item → Lookup
  not_found : Str → Lookup

-- What the file uses of Stripe (state `S`), of package plans and of the database: `find` answers
-- `Find(…).All`, with or without the limit of 50 and with `none` for an error, and a write of a
-- document may fail.
pub record Billing (S : Type 0) : Type 0 where
  pub key : Str
  pub find : (Intent → Bool) → List Intent → Option (List Intent)
  pub get_item : S → Str → Lookup
  pub update_price : S → Str → Str → Str → S × Bool
  pub tier_of_price : Str → Option Str
  pub by_tier : Str → Option Str
  pub price_of_tier : Str → Str
  pub snapshot_contract : Str → Str
  pub is_intent_written : Str → Bool
  pub is_tenant_written : Str → Bool

pub record World (S : Type 0) : Type 0 where
  pub intents : List Intent
  pub tenants : List Tenant
  pub stripe : S

-- What an outcome stamps on an intent.
unfoldable pub stamp : Status → Str → Str → ℕ → Intent → Intent
stamp status tier note now i = record i {
  status = status;
  resolved_tier = tier;
  note = note;
  resolved_at = some now;
}

-- `Update` of the open intent with the id.
unfoldable pub update_open : Str → (Intent → Intent) → List Intent → List Intent
update_open id f [] = []
update_open id f (i ∷ is) =
    let rest = update_open id f is in
    if str_eq i.id id && is_open i.status then f i ∷ is else i ∷ rest

-- `UpdateAll` of the scheduled intents of a tenant and kind.
unfoldable pub settle_scheduled : Str → Kind → (Intent → Intent) → List Intent → List Intent
settle_scheduled tenant kind f [] = []
settle_scheduled tenant kind f (i ∷ is) =
    let rest = settle_scheduled tenant kind f is in
    if str_eq i.tenant_id tenant && (kind_eq i.kind kind && is_scheduled i.status)
    then f i ∷ rest
    else i ∷ rest

-- `UpdateId` of a tenant; the flag is false if there is none.
unfoldable pub update_tenant : Str → (Tenant → Tenant) → List Tenant → List Tenant × Bool
update_tenant id f [] = ([], false)
update_tenant id f (t ∷ ts) =
    let rest = update_tenant id f ts in
    if str_eq t.id id then (f t ∷ ts, true) else (t ∷ rest.0, rest.1)

-- `t1 <= t2` for a time that may be missing; a missing one is at no time.
abbrev pub is_due : Option ℕ → ℕ → Bool
is_due none now = false
is_due (some t) now = leb t now

abbrev pub or_effective : Option ℕ → Option ℕ → Option ℕ
or_effective (some t) _ = some t
or_effective none o = o

module _ {S : Type 0} (b : Billing S) where
  -- `resolvePlanIntent`: an error is only logged.
  unfoldable pub resolve_plan_intent : Str → Status → Str → Str → ℕ → World S → World S
  unfolding update_open stamp
  resolve_plan_intent id status tier note now w =
      if b.is_intent_written id
      then record w { intents = update_open id (stamp status tier note now) w.intents }
      else w

  -- `markScheduledIntents`.
  unfoldable pub mark_scheduled_intents : Str → Kind → Status → Str → ℕ → World S → World S
  unfolding settle_scheduled
  mark_scheduled_intents tenant kind status note now w =
      if b.is_intent_written tenant
      then record w {
        intents =
            settle_scheduled tenant kind
              (λ i. record i { status = status; note = note; resolved_at = some now }) w.intents;
      }
      else w

  -- A write of a tenant that succeeds, and whether it did.
  unfoldable pub write_tenant : Str → (Tenant → Tenant) → World S → World S × Bool
  unfolding update_tenant
  write_tenant id f w =
      let written = update_tenant id f w.tenants in
      if b.is_tenant_written id then (record w { tenants = written.0 }, written.1) else (w, false)

  -- `clearBillingChange`, whose error is dropped.
  unfoldable pub clear_billing_change : Str → World S → World S
  unfolding write_tenant
  clear_billing_change tenant w =
      (write_tenant tenant
        (λ t. record t {
          billing_change_kind = none;
          pending_plan_tier = none;
          billing_change_effective_at = none;
        })
        w).0

  -- The loop of `confirmPlanIntents`.
  unfoldable pub confirm_each : Str → (Intent → ℕ) → List Intent → World S → World S
  unfolding resolve_plan_intent
  confirm_each tier clock [] w = w
  confirm_each tier clock (i ∷ is) w =
      confirm_each tier clock is
        (resolve_plan_intent i.id confirmed tier (bytes "authoritative state applied") (clock i) w)

  unfoldable pub confirm_plan_intents : Str → Str → (Intent → ℕ) → World S → World S
  unfolding confirm_each
  confirm_plan_intents tenant tier clock w =
      elim (b.find (λ i. str_eq i.tenant_id tenant && is_pending i.status) w.intents) [
        | none ↦ w
        | some is ↦ confirm_each tier clock is w
      ]
