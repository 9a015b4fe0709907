-- ===== src/Validator/Resolve/Sound.antt =====
-- Pass 2 reports an error exactly if a reference leads to no declared name.
use mathlib.Core.Bool.{false≢true}
use sentanyl_core_readonly.Ast.{
  OnCompleteBlock, ConditionalRouteNode, StorylineCompleteBlock, ActionFields, ActionNode,
  action_node, ActionList, no_action, and_action, TriggerNode, EnactmentNode, StorylineNode,
  StoryNode, ScriptAst,
}
use sentanyl_core_readonly.Diagnostic.Messages.{
  Message, complete_unknown_story, fail_unknown_story, complete_unknown_storyline,
  fail_unknown_storyline,
}
use sentanyl_core_readonly.Prelude.Distinct.{All, Has}
use sentanyl_core_readonly.Prelude.Equality.{has_key, str_instance}
use sentanyl_core_readonly.Prelude.{
  Bool, true, false, not, ◌&&◌, List, [], ◌∷◌, Str, bytes, str_eq, str_eq_iff, ◌≡◌, ◌⊎◌, inl, inr,
  ◌↔◌, refl, sym, ◌∙◌, arith, Bool-cases,
}
use sentanyl_core_readonly.Token.{Pos}
use sentanyl_core_readonly.Validator.Resolve.{
  known, check_ref, resolve_conditional_route, resolve_storyline_ref, resolve_story_ref,
  has_enactment, targets_enactment, targets_storyline, resolve_target, resolve_action,
  resolve_trigger_actions, resolve_trigger, resolve_enactment, resolve_storyline, resolve_story,
  resolve_references,
}
use sentanyl_core_readonly.Validator.Rules.{
  Checked, Checked-refl, Checked-seq, Checked-map, Checked-error_when, Checked-each,
  Checked-if_some,
}
use sentanyl_core_readonly.Validator.Spec.{
  IsOneOf, EachAction, EachActions, Declared, enactment_targets, storyline_targets, names_in,
  RefersToStoryline, RefersToStory, IsTargeted, IsTargetedTrigger, IsRouted, IsResolvedStoryline,
  IsResolvedStory,
}
use sentanyl_core_readonly.Validator.{
  SymbolTable, Kind, story_kind, storyline_kind, names_of, Validator, is_empty, key_of,
}

has_enactment_iff :
    (name : Str) (ens : List EnactmentNode)
    → has_enactment name ens ≡ true ↔ Has name (names_in ens)
unfolding has_enactment
has_enactment_iff name [] = (λ h. absurd (false≢true h), λ h. elim h [ ])
has_enactment_iff name (en ∷ ens) =
    let r = has_enactment_iff name ens in
    let q = str_eq_iff en.name name in
    (
      λ h. elim (Bool-cases (str_eq en.name name)) [
        | inl e ↦ inl (q.0 e)
        | inr e ↦ inr (r.0 (rw e at h))
      ],
      λ h. elim h [ inl e ↦ let t = q.1 e in ground arith | inr k ↦ let t = r.1 k in ground arith ],
    )

targets_enactment_iff : (t : Str) → targets_enactment t ≡ true ↔ IsOneOf enactment_targets t
targets_enactment_iff t = ground (
  arith,
  str_eq_iff t (bytes "jump_to_enactment"),
  str_eq_iff t (bytes "loop_to_enactment"),
  str_eq_iff t (bytes "next_enactment"),
)

targets_storyline_iff : (t : Str) → targets_storyline t ≡ true ↔ IsOneOf storyline_targets t
targets_storyline_iff t =
    ground
      (arith, str_eq_iff t (bytes "jump_to_storyline"), str_eq_iff t (bytes "loop_to_storyline"))

-- No action type targets both an enactment and a storyline.
targets_apart : (t : Str) → IsOneOf enactment_targets t → ¬ IsOneOf storyline_targets t
targets_apart t h k = ground arith

not-false_iff : {P : Type 0} (b : Bool) → (b ≡ true ↔ P) → not b ≡ false ↔ P
not-false_iff true h = (λ _. h.0 refl, λ _. refl)
not-false_iff false h = (λ e. absurd (false≢true (sym e)), λ p. absurd (false≢true (h.1 p)))

optional_iff :
    {P : Type 0} (name : Str) (b : Bool)
    → (b ≡ true ↔ P)
    → (not (is_empty name) && not b) ≡ false ↔ ((name ≡ []) ⊎ P)
optional_iff [] b h = (λ _. inl refl, λ _. refl)
optional_iff (c ∷ cs) b h =
    let r = not-false_iff b h in
    (λ e. inr (r.0 e), λ k. elim k [ inl e ↦ absurd (nonempty e) | inr p ↦ r.1 p ])
  where
    nonempty : ¬ (c ∷ cs ≡ [])
    nonempty e = cc

-- The symbols `s` have exactly the names `ds`.
abbrev pub HasNames : SymbolTable → List Declared → Type 0
HasNames s ds =
    (kind : Kind) (key : Str) → has_key key (names_of kind s) ≡ true ↔ Has (kind, key) ds

module _ (s : SymbolTable) (ds : List Declared) (has : HasNames s ds) where
  known_iff :
      (kind : Kind) (key : Str) (v : Validator)
      → v.symbols ≡ s
      → known kind key v ≡ true ↔ Has (kind, key) ds
  unfolding known
  known_iff kind key v e = rw e (has kind key)

  check_ref-Checked :
      (kind : Kind) (name key : Str) (p : Pos) (m : Message) (v : Validator)
      → Checked s ((name ≡ []) ⊎ Has (kind, key) ds) v (check_ref kind name key p m v)
  unfolding check_ref
  check_ref-Checked kind name key p m v =
      Checked-error_when (not (is_empty name) && not (known kind key v)) p m v
        (λ e. optional_iff name (known kind key v) (known_iff kind key v e))

  resolve_route-Checked :
      (story : StoryNode) (cr : ConditionalRouteNode) (v : Validator)
      → Checked s
          (RefersToStoryline ds story cr.next_storyline)
          v
          (resolve_conditional_route story cr v)
  unfolding resolve_conditional_route
  resolve_route-Checked story cr v = check_ref-Checked storyline_kind cr.next_storyline _ _ _ v

  resolve_storyline_ref-Checked :
      (message : Str → Str → Message) (story : StoryNode) (block : StorylineCompleteBlock)
      (v : Validator)
      → Checked s (IsRouted ds story block) v (resolve_storyline_ref message story block v)
  unfolding resolve_storyline_ref
  resolve_storyline_ref-Checked message story block v =
      Checked-map (λ h. record { next = h.0; routes = h.1 }) (λ h. (h.next, h.routes))
        (Checked-seq (check_ref-Checked storyline_kind block.next_storyline _ _ _ v) (
          Checked-each (resolve_conditional_route story) (resolve_route-Checked story)
            block.conditional_routes _))

  resolve_story_ref-Checked :
      (message : Str → Message) (block : OnCompleteBlock) (v : Validator)
      → Checked s (RefersToStory ds block) v (resolve_story_ref message block v)
  unfolding resolve_story_ref
  resolve_story_ref-Checked message block v = check_ref-Checked story_kind block.next_story _ _ _ v

  resolve_target-Checked :
      (story : StoryNode) (sl : StorylineNode) (a : ActionFields) (v : Validator)
      → Checked s (IsTargeted ds story sl a) v (resolve_target story sl a v)
  unfolding resolve_target
  resolve_target-Checked story sl a v =
      let en = targets_enactment_iff a.action_type in
      let st = targets_storyline_iff a.action_type in
      elim (Bool-cases (targets_enactment a.action_type)) [
        | inl e ↦ rw e (
            Checked-map
              (λ h. record {
                in_storyline = λ _. h;
                in_story = λ k. absurd (targets_apart a.action_type (en.0 e) k);
              })
              (λ h. h.in_storyline (en.0 e))
              (Checked-error_when (not (has_enactment a.target sl.enactments)) _ _ v
                (λ _. not-false_iff _ (has_enactment_iff a.target sl.enactments))))
        | inr e ↦ elim (Bool-cases (targets_storyline a.action_type)) [
          | inl f ↦
              rw (e, f)
                (Checked-map
                  (λ h. record {
                    in_storyline = λ k. absurd (false≢true (sym e ∙ en.1 k));
                    in_story = λ _. h;
                  })
                  (λ h. h.in_story (st.0 f))
                  (Checked-error_when (not (known storyline_kind (key_of story.name a.target) v)) _
                    _ v
                    (λ q.
                      not-false_iff _ (known_iff storyline_kind (key_of story.name a.target) v q))))
          | inr f ↦
              rw (e, f)
                (Checked-map
                  (λ _. record {
                    in_storyline = λ k. absurd (false≢true (sym e ∙ en.1 k));
                    in_story = λ k. absurd (false≢true (sym f ∙ st.1 k));
                  })
                  (λ _. tt) (Checked-refl v))
        ]
      ]

mutual
  unfolding resolve_action EachAction

  resolve_action-Checked :
      (s : SymbolTable) (ds : List Declared) (has : HasNames s ds) (story : StoryNode)
      (sl : StorylineNode) (a : ActionNode) (v : Validator)
      → Checked s (EachAction (IsTargeted ds story sl) a) v (resolve_action story sl a v)
  resolve_action-Checked s ds has story sl (action_node a fallback) v =
      Checked-seq (resolve_target-Checked s ds has story sl a v)
        (resolve_actions-Checked s ds has story sl fallback _)

  resolve_actions-Checked :
      (s : SymbolTable) (ds : List Declared) (has : HasNames s ds) (story : StoryNode)
      (sl : StorylineNode) (list : ActionList) (v : Validator)
      → Checked s
          (EachActions (IsTargeted ds story sl) list)
          v
          (resolve_trigger_actions story sl list v)
  resolve_actions-Checked s ds has story sl no_action v = Checked-refl v
  resolve_actions-Checked s ds has story sl (and_action a rest) v =
      Checked-seq (resolve_action-Checked s ds has story sl a v)
        (resolve_actions-Checked s ds has story sl rest _)

module _ (s : SymbolTable) (ds : List Declared) (has : HasNames s ds) where
  resolve_trigger-Checked :
      (story : StoryNode) (sl : StorylineNode) (trigger : TriggerNode) (v : Validator)
      → Checked s (IsTargetedTrigger ds story sl trigger) v (resolve_trigger story sl trigger v)
  unfolding resolve_trigger
  resolve_trigger-Checked story sl trigger v =
      Checked-map (λ h. record { actions = h.0; else_actions = h.1 })
        (λ h. (h.actions, h.else_actions))
        (Checked-seq (resolve_actions-Checked s ds has story sl trigger.actions v)
          (resolve_actions-Checked s ds has story sl trigger.else_actions _))

  resolve_enactment-Checked :
      (story : StoryNode) (sl : StorylineNode) (en : EnactmentNode) (v : Validator)
      → Checked s
          (All (IsTargetedTrigger ds story sl) en.triggers)
          v
          (resolve_enactment story sl en v)
  unfolding resolve_enactment
  resolve_enactment-Checked story sl en v =
      Checked-each (resolve_trigger story sl) (resolve_trigger-Checked story sl) en.triggers v

  resolve_storyline-Checked :
      (story : StoryNode) (sl : StorylineNode) (v : Validator)
      → Checked s (IsResolvedStoryline ds story sl) v (resolve_storyline story sl v)
  unfolding resolve_storyline
  resolve_storyline-Checked story sl v =
      Checked-map (λ h. record { on_complete = h.0.0; on_fail = h.0.1; triggers = h.1 })
        (λ h. ((h.on_complete, h.on_fail), h.triggers))
        (Checked-seq
          (Checked-seq
            (Checked-if_some (resolve_storyline_ref complete_unknown_storyline story)
              (resolve_storyline_ref-Checked s ds has complete_unknown_storyline story)
              sl.on_complete v)
            (Checked-if_some (resolve_storyline_ref fail_unknown_storyline story)
              (resolve_storyline_ref-Checked s ds has fail_unknown_storyline story) sl.on_fail _))
          (Checked-each (resolve_enactment story sl) (resolve_enactment-Checked story sl)
            sl.enactments _))

  resolve_story-Checked :
      (story : StoryNode) (v : Validator)
      → Checked s (IsResolvedStory ds story) v (resolve_story story v)
  unfolding resolve_story
  resolve_story-Checked story v =
      Checked-map (λ h. record { on_complete = h.0.0; on_fail = h.0.1; storylines = h.1 })
        (λ h. ((h.on_complete, h.on_fail), h.storylines))
        (Checked-seq
          (Checked-seq
            (Checked-if_some (resolve_story_ref complete_unknown_story)
              (resolve_story_ref-Checked s ds has complete_unknown_story) story.on_complete v)
            (Checked-if_some (resolve_story_ref fail_unknown_story)
              (resolve_story_ref-Checked s ds has fail_unknown_story) story.on_fail _))
          (Checked-each (resolve_storyline story) (resolve_storyline-Checked story) story.storylines
            _))

  -- Pass 2, on symbols that have exactly the names `ds`, keeps the symbols, and adds no error
  -- exactly if the next stories of the stories and the next storylines of their storylines and
  -- routes, where they are given, and the targets of the actions that jump or loop to a storyline
  -- are among these names, and the targets of the actions that jump or loop to an enactment, or go
  -- to the next one, are enactments of the same storyline.
  pub resolve_references-Checked :
      (ast : ScriptAst) (v : Validator)
      → Checked s (All (IsResolvedStory ds) ast.stories) v (resolve_references ast v)
  unfolding resolve_references
  resolve_references-Checked ast v = Checked-each resolve_story resolve_story-Checked ast.stories v
