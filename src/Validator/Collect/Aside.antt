-- ===== src/Validator/Collect/Aside.antt =====
-- The statements of pass 1 that declare no name: badges, tags, templates, levels and orders.
use mathlib.Core.Path.{fun_ext}
use sentanyl_core_readonly.Ast.{
  RequiredBadgesNode, BadgeTransactionNode, LifecycleBlock, ActionNode, action_node, ActionList,
  no_action, and_action, ConditionNode, condition_node, ConditionList, no_condition, and_condition,
  TriggerNode,
}
use sentanyl_core_readonly.Prelude.Equality.{has_key, str_instance}
use sentanyl_core_readonly.Prelude.Int.{ℤ}
use sentanyl_core_readonly.Prelude.{◌||◌, [], Str, bytes, str_eq, ◌≡◌, refl, ap, if_rule}
use sentanyl_core_readonly.Validator.Collect.Rules.{
  Collected, Collected-refl, Collected-same, Collected-skip, Collected-each_none, Collected-if_some,
}
use sentanyl_core_readonly.Validator.Collect.{
  add_badge, add_tag, add_template, collect_required_badges, collect_badge_transaction,
  collect_lifecycle, collect_condition_value, collect_condition, collect_conditions, collect_action,
  collect_actions, collect_trigger, set_storyline_order, set_enactment_level, set_enactment_order,
}
use sentanyl_core_readonly.Validator.{Kind, story_kind, names_of, Validator}

-- Writing to a map of another sort leaves the names alone.
names-add_badge :
    (b : Str) (v : Validator) (k : Kind) → names_of k (add_badge b v).symbols ≡ names_of k v.symbols
unfolding names_of add_badge
names-add_badge b v story_kind = refl
names-add_badge b v _ = refl

names-add_tag :
    (t : Str) (v : Validator) (k : Kind) → names_of k (add_tag t v).symbols ≡ names_of k v.symbols
unfolding names_of add_tag
names-add_tag t v story_kind = refl
names-add_tag t v _ = refl

names-add_template :
    (t : Str) (v : Validator) (k : Kind)
    → names_of k (add_template t v).symbols ≡ names_of k v.symbols
unfolding names_of add_template
names-add_template t v story_kind = refl
names-add_template t v _ = refl

names-set_storyline_order :
    (key : Str) (n : ℤ) (v : Validator) (k : Kind)
    → names_of k (set_storyline_order key n v).symbols ≡ names_of k v.symbols
unfolding names_of set_storyline_order
names-set_storyline_order key n v story_kind = refl
names-set_storyline_order key n v _ = refl

names-set_enactment_level :
    (key : Str) (n : ℤ) (v : Validator) (k : Kind)
    → names_of k (set_enactment_level key n v).symbols ≡ names_of k v.symbols
unfolding names_of set_enactment_level
names-set_enactment_level key n v story_kind = refl
names-set_enactment_level key n v _ = refl

names-set_enactment_order :
    (key : Str) (n : ℤ) (v : Validator) (k : Kind)
    → names_of k (set_enactment_order key n v).symbols ≡ names_of k v.symbols
unfolding names_of set_enactment_order
names-set_enactment_order key n v story_kind = refl
names-set_enactment_order key n v _ = refl

aside :
    (v w : Validator)
    → ((k : Kind) → names_of k w.symbols ≡ names_of k v.symbols)
    → w.errors ≡ v.errors
    → Collected [] v w
aside v w h e = Collected-same v w (fun_ext λ d. ap (has_key d.1) (h d.0)) e

pub add_badge-Collected : (b : Str) (v : Validator) → Collected [] v (add_badge b v)
add_badge-Collected b v = aside v _ (names-add_badge b v) (unfold add_badge in refl)

pub add_tag-Collected : (t : Str) (v : Validator) → Collected [] v (add_tag t v)
add_tag-Collected t v = aside v _ (names-add_tag t v) (unfold add_tag in refl)

pub add_template-Collected : (t : Str) (v : Validator) → Collected [] v (add_template t v)
add_template-Collected t v = aside v _ (names-add_template t v) (unfold add_template in refl)

pub set_storyline_order-Collected :
    (key : Str) (n : ℤ) (v : Validator) → Collected [] v (set_storyline_order key n v)
set_storyline_order-Collected key n v =
    aside v _ (names-set_storyline_order key n v) (unfold set_storyline_order in refl)

pub set_enactment_level-Collected :
    (key : Str) (n : ℤ) (v : Validator) → Collected [] v (set_enactment_level key n v)
set_enactment_level-Collected key n v =
    aside v _ (names-set_enactment_level key n v) (unfold set_enactment_level in refl)

pub set_enactment_order-Collected :
    (key : Str) (n : ℤ) (v : Validator) → Collected [] v (set_enactment_order key n v)
set_enactment_order-Collected key n v =
    aside v _ (names-set_enactment_order key n v) (unfold set_enactment_order in refl)

pub required_badges-Collected :
    (rb : RequiredBadgesNode) (v : Validator) → Collected [] v (collect_required_badges rb v)
unfolding collect_required_badges
required_badges-Collected rb v =
    Collected-skip (Collected-each_none add_badge add_badge-Collected rb.must_have v)
      (Collected-each_none add_badge add_badge-Collected rb.must_not_have _)

pub badge_transaction-Collected :
    (bt : BadgeTransactionNode) (v : Validator) → Collected [] v (collect_badge_transaction bt v)
unfolding collect_badge_transaction
badge_transaction-Collected bt v =
    Collected-skip (Collected-each_none add_badge add_badge-Collected bt.give_badges v)
      (Collected-each_none add_badge add_badge-Collected bt.remove_badges _)

pub lifecycle-Collected :
    (lc : LifecycleBlock) (v : Validator) → Collected [] v (collect_lifecycle lc v)
unfolding collect_lifecycle
lifecycle-Collected lc v =
    Collected-if_some collect_badge_transaction badge_transaction-Collected lc.badge_transaction v

condition_value-Collected :
    (t x : Str) (v : Validator) → Collected [] v (collect_condition_value t x v)
unfolding collect_condition_value
condition_value-Collected t x v =
    Collected-skip
      (if_rule (Collected [] v) (str_eq t (bytes "has_badge") || str_eq t (bytes "not_has_badge"))
        (λ _. add_badge-Collected x v) (λ _. Collected-refl v))
      (if_rule (Collected [] _) (str_eq t (bytes "has_tag") || str_eq t (bytes "not_has_tag"))
        (λ _. add_tag-Collected x _) (λ _. Collected-refl _))

mutual
  unfolding collect_condition

  condition-Collected : (c : ConditionNode) (v : Validator) → Collected [] v (collect_condition c v)
  condition-Collected (condition_node t x children) v =
      Collected-skip (condition_value-Collected t x v) (conditions-Collected children _)

  conditions-Collected :
      (cs : ConditionList) (v : Validator) → Collected [] v (collect_conditions cs v)
  conditions-Collected no_condition v = Collected-refl v
  conditions-Collected (and_condition c cs) v =
      Collected-skip (condition-Collected c v) (conditions-Collected cs _)

mutual
  unfolding collect_action

  action-Collected : (a : ActionNode) (v : Validator) → Collected [] v (collect_action a v)
  action-Collected (action_node a fallback) v =
      Collected-skip
        (Collected-if_some collect_badge_transaction badge_transaction-Collected a.badge_transaction
          v)
        (actions-Collected fallback _)

  actions-Collected : (list : ActionList) (v : Validator) → Collected [] v (collect_actions list v)
  actions-Collected no_action v = Collected-refl v
  actions-Collected (and_action a rest) v =
      Collected-skip (action-Collected a v) (actions-Collected rest _)

pub trigger-Collected : (t : TriggerNode) (v : Validator) → Collected [] v (collect_trigger t v)
unfolding collect_trigger
trigger-Collected t v =
    Collected-skip
      (Collected-skip
        (Collected-skip
          (Collected-if_some collect_required_badges required_badges-Collected t.required_badges v)
          (conditions-Collected t.conditions _))
        (actions-Collected t.actions _))
      (actions-Collected t.else_actions _)
