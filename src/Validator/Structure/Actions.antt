-- ===== src/Validator/Structure/Actions.antt =====
-- Pass 3 on durations, actions and triggers.
use mathlib.Core.Bool.{false≢true}
use sentanyl_core_readonly.Ast.{
  DurationNode, ActionFields, ActionNode, action_node, ActionList, no_action, and_action,
  TriggerNode,
}
use sentanyl_core_readonly.Diagnostic.Messages.{Message}
use sentanyl_core_readonly.Token.{Pos}
use sentanyl_core_readonly.Prelude.Int.{ℤ, not_positive}
use sentanyl_core_readonly.Prelude.{
  Bool, true, false, not, ◌&&◌, [], ◌∷◌, Str, bytes, ◌≡◌, ◌⊎◌, inl, inr, ◌↔◌, refl, sym, ◌∙◌,
  Bool-cases, has_prefix,
}
use sentanyl_core_readonly.Validator.Rules.{
  AllSome, Checked, Checked-refl, Checked-seq, Checked-map, Checked-skip, Checked-after,
  Checked-error_if, Checked-warn_if, Checked-if_some,
}
use sentanyl_core_readonly.Validator.Spec.{
  IsOneOf, IsPositive, IsDuration, IsAction, EachAction, EachActions, IsTrigger,
}
use sentanyl_core_readonly.Validator.Structure.Words.{one_of_iff, not-one_of_iff, not_positive_iff}
use sentanyl_core_readonly.Validator.Structure.{
  one_of, is_none, valid_units, validate_duration, retry_types, is_retry_action, valid_action_types,
  validate_retry_count, validate_retry, validate_action_fields, validate_action, validate_actions,
  valid_trigger_types, valid_scopes, validate_trigger,
}
use sentanyl_core_readonly.Validator.{SymbolTable, Validator, error_if, is_empty}

module _ (s : SymbolTable) where
  -- `if cond { v.errorf(…) }`, by what the absence of the error means.
  pub error_if-Checked :
      {P : Type 0} (cond : Bool) (p : Pos) (m : Message) (v : Validator)
      → (cond ≡ false ↔ P)
      → Checked s P v (error_if cond p m v)
  error_if-Checked cond p m v h = Checked-map h.0 h.1 (Checked-error_if cond p m v)

  validate_duration-Checked :
      (d : DurationNode) (v : Validator) → Checked s (IsDuration d) v (validate_duration d v)
  unfolding validate_duration
  validate_duration-Checked d v =
      Checked-map (λ h. record { positive = h.0; known_unit = h.1 })
        (λ h. (h.positive, h.known_unit))
        (Checked-seq (error_if-Checked (not_positive d.amount) _ _ v (not_positive_iff d.amount)) (
          error_if-Checked (not (one_of valid_units d.unit)) _ _ _
            (not-one_of_iff valid_units d.unit)))

  validate_retry_count-Checked :
      (a : ActionFields) (n : ℤ) (v : Validator)
      → Checked s (IsPositive n) v (validate_retry_count a n v)
  unfolding validate_retry_count
  validate_retry_count-Checked a n v = error_if-Checked (not_positive n) _ _ v (not_positive_iff n)

  validate_retry-Checked :
      (a : ActionFields) (v : Validator)
      → Checked s
          (IsOneOf retry_types a.action_type → AllSome IsPositive a.retry_max_count)
          v
          (validate_retry a v)
  unfolding validate_retry is_retry_action
  validate_retry-Checked a v = elim (Bool-cases (one_of retry_types a.action_type)) [
    | inl e ↦ rw e (
        Checked-map (λ h _. h) (λ h. h ((one_of_iff retry_types a.action_type).0 e))
          (Checked-after (Checked-warn_if (is_none a.retry_max_count) _ _ v) (
            Checked-if_some (validate_retry_count a) (validate_retry_count-Checked a)
              a.retry_max_count _)))
    | inr e ↦ rw e (
        Checked-map
          (λ _ h. absurd (false≢true (sym e ∙ (one_of_iff retry_types a.action_type).1 h)))
          (λ _. tt) (Checked-refl v))
  ]

  validate_action_fields-Checked :
      (a : ActionFields) (v : Validator) → Checked s (IsAction a) v (validate_action_fields a v)
  unfolding validate_action_fields
  validate_action_fields-Checked a v =
      Checked-map (λ h. record { known_type = h.0.0; bounded_retry = h.0.1; proper_wait = h.1 })
        (λ h. ((h.known_type, h.bounded_retry), h.proper_wait))
        (Checked-seq
          (Checked-seq
            (error_if-Checked (not (one_of valid_action_types a.action_type)) _ _ v
              (not-one_of_iff valid_action_types a.action_type))
            (validate_retry-Checked a _))
          (Checked-if_some validate_duration validate_duration-Checked a.wait _))

mutual
  unfolding validate_action EachAction

  validate_action-Checked :
      (s : SymbolTable) (a : ActionNode) (v : Validator)
      → Checked s (EachAction IsAction a) v (validate_action a v)
  validate_action-Checked s (action_node a fallback) v =
      Checked-seq (validate_action_fields-Checked s a v) (validate_actions-Checked s fallback _)

  validate_actions-Checked :
      (s : SymbolTable) (list : ActionList) (v : Validator)
      → Checked s (EachActions IsAction list) v (validate_actions list v)
  validate_actions-Checked s no_action v = Checked-refl v
  validate_actions-Checked s (and_action a rest) v =
      Checked-seq (validate_action-Checked s a v) (validate_actions-Checked s rest _)

scope_iff :
    (scope : Str)
    → (not (is_empty scope) && not (one_of valid_scopes scope)) ≡ false
      ↔ ((scope ≡ []) ⊎ IsOneOf valid_scopes scope)
scope_iff [] = (λ _. inl refl, λ _. refl)
scope_iff (c ∷ cs) =
    let r = not-one_of_iff valid_scopes (c ∷ cs) in
    (λ h. inr (r.0 h), λ h. elim h [ inl e ↦ absurd (cons≢nil e) | inr k ↦ r.1 k ])
  where
    cons≢nil : ¬ (c ∷ cs ≡ [])
    cons≢nil e = cc

outcome_iff : (a b : Bool) → (a && b) ≡ false ↔ ¬ ((a ≡ true) × (b ≡ true))
outcome_iff true true = (λ h. absurd (false≢true (sym h)), λ h. absurd (h (refl, refl)))
outcome_iff true false = (λ _ h. false≢true h.1, λ _. refl)
outcome_iff false b = (λ _ h. false≢true h.0, λ _. refl)

-- A trigger passes without an error exactly if it is as the specification says.
pub validate_trigger-Checked :
    (s : SymbolTable) (tr : TriggerNode) (v : Validator)
    → Checked s (IsTrigger tr) v (validate_trigger tr v)
unfolding validate_trigger
validate_trigger-Checked s tr v =
    Checked-map
      (λ h. record {
        known_type = h.0.0.0.0.0;
        known_scope = h.0.0.0.0.1;
        proper_within = h.0.0.0.1;
        proper_actions = h.0.0.1;
        proper_else = h.0.1;
        one_outcome = h.1;
      })
      (λ h. (
        ((((h.known_type, h.known_scope), h.proper_within), h.proper_actions), h.proper_else),
        h.one_outcome,
      ))
      (Checked-seq
        (Checked-seq
          (Checked-seq
            (Checked-seq
              (Checked-skip
                (Checked-seq
                  (error_if-Checked s (not (one_of valid_trigger_types tr.trigger_type)) _ _ v
                    (not-one_of_iff valid_trigger_types tr.trigger_type))
                  (error_if-Checked s
                    (not (is_empty tr.persist_scope) && not (one_of valid_scopes tr.persist_scope))
                    _ _ _ (scope_iff tr.persist_scope)))
                (Checked-warn_if (has_prefix tr.trigger_type (bytes "not_") && is_none tr.within) _
                  _ _))
              (Checked-if_some validate_duration (validate_duration-Checked s) tr.within _))
            (validate_actions-Checked s tr.actions _))
          (validate_actions-Checked s tr.else_actions _))
        (error_if-Checked s (tr.mark_complete && tr.mark_failed) _ _ _
          (outcome_iff tr.mark_complete tr.mark_failed)))
