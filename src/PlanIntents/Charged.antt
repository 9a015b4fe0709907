-- ===== src/PlanIntents/Charged.antt =====
-- routes/plan_change_intent.go: a due downgrade and the price at Stripe.
use sentanyl_core_readonly.PlanIntents.Sweep.{apply_item, apply_priced, apply_target, ensure_price}
use sentanyl_core_readonly.PlanIntents.{Billing, Intent, Item, Lookup, World, found, not_found}
use sentanyl_core_readonly.Prelude.{
  ℕ, Bool, true, false, if_rule, Option, some, none, Str, str_eq, str_eq_iff, ◌≡◌, ◌⊎◌, refl, inl,
  inr,
}

module _ {S : Type 0} (b : Billing S) (i : Intent) (w : World S) where
  -- What Stripe's answers were where a due downgrade changed a tenant.
  pub data Charged (v : World S) : Type 0 where
    same : v.tenants ≡ w.tenants → Charged v
    unknown : b.by_tier i.to_tier ≡ none → Charged v
    paid :
        (tier : Str) (item : Item)
        → b.by_tier i.to_tier ≡ some tier
        → b.get_item w.stripe i.stripe_sub_id ≡ found item
        → (item.price_id ≡ b.price_of_tier tier)
          ⊎ ((b.update_price w.stripe i.stripe_sub_id item.item_id (b.price_of_tier tier)).1 ≡ true)
        → Charged v

  priced-Charged :
      (tier : Str) (now : ℕ) (r : World S × Bool)
      → r.0.tenants ≡ w.tenants
      → (r.1 ≡ true → (v : World S) → Charged v)
      → Charged (apply_priced b tier i now r)
  unfolding apply_priced
  priced-Charged tier now (x, false) e k = same e
  priced-Charged tier now (x, true) e k = k refl _

  item-Charged :
      (tier : Str) (now : ℕ) (l : Lookup)
      → b.by_tier i.to_tier ≡ some tier
      → b.get_item w.stripe i.stripe_sub_id ≡ l
      → Charged (apply_item b tier i now w l)
  unfolding apply_item ensure_price
  item-Charged tier now (not_found x) t g = same refl
  item-Charged tier now (found item) t g =
      let price = b.price_of_tier tier in
      if_rule (λ (r : World S × Bool). Charged (apply_priced b tier i now r))
        (str_eq item.price_id price)
        (λ e. paid tier item t g (inl ((str_eq_iff item.price_id price).0 e)))
        λ _. priced-Charged tier now _ refl λ u v. paid tier item t g (inr u)

  target-Charged :
      (now : ℕ) (o : Option Str) → b.by_tier i.to_tier ≡ o → Charged (apply_target b i now w o)
  unfolding apply_target
  target-Charged now none t = unknown t
  target-Charged now (some tier) t = item-Charged tier now _ t refl

  -- A scheduled downgrade whose turn has come changes a tenant only if its target is a tier that the
  -- plans do not know, or if Stripe has the price of the target on the subscription, or accepted the
  -- change to it, before.
  pub apply_target-Charged : (now : ℕ) → Charged (apply_target b i now w (b.by_tier i.to_tier))
  apply_target-Charged now = target-Charged now (b.by_tier i.to_tier) refl
