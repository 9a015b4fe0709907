-- ===== src/Validator/Structure/Sound.antt =====
-- Pass 3 reports an error exactly if the script is not structured as the specification says.
use sentanyl_core_readonly.Ast.{
  action_node, ActionList, no_action, and_action, TriggerNode, SceneNode, EnactmentNode,
  StorylineNode, StoryNode, PageNode, StageNode, RouteNode, FunnelNode, SiteNode, ScriptAst,
}
use sentanyl_core_readonly.Prelude.Distinct.{All}
use sentanyl_core_readonly.Prelude.{not, ◌&&◌, List, ◌≢◌, [], ◌∷◌}
use sentanyl_core_readonly.Validator.Rules.{
  Checked, Checked-refl, Checked-seq, Checked-map, Checked-skip, Checked-warn_if, Checked-each,
}
use sentanyl_core_readonly.Validator.Spec.{
  IsEnactment, IsStoryline, IsStory, IsStage, IsRoute, IsFunnel, IsSite, IsStructured,
}
use sentanyl_core_readonly.Validator.Structure.Actions.{error_if-Checked, validate_trigger-Checked}
use sentanyl_core_readonly.Validator.Structure.Orders.{
  validate_story_orders-Checked, validate_enactment_orders-Checked,
}
use sentanyl_core_readonly.Validator.Structure.Words.{is_empty_iff}
use sentanyl_core_readonly.Validator.Structure.{
  one_of, validate_scene, validate_enactment, validate_storyline, validate_story, validate_trigger,
  validate_page, funnel_action_types, funnel_trigger_types, validate_funnel_action,
  validate_funnel_actions, validate_funnel_trigger, validate_stage, validate_route, validate_funnel,
  validate_site, validate_structure,
}
use sentanyl_core_readonly.Validator.{SymbolTable, Validator, error_if, is_empty}
use sentanyl_core_readonly.Diagnostic.Messages.{Message}
use sentanyl_core_readonly.Token.{Pos}

module _ (s : SymbolTable) where
  not_empty-Checked :
      {A : Type 0} (xs : List A) (p : Pos) (m : Message) (v : Validator)
      → Checked s (xs ≢ []) v (error_if (is_empty xs) p m v)
  not_empty-Checked xs p m v = error_if-Checked s (is_empty xs) p m v (is_empty_iff xs)

  validate_scene-Checked :
      (sc : SceneNode) (v : Validator) → Checked s (sc.name ≢ []) v (validate_scene sc v)
  unfolding validate_scene
  validate_scene-Checked sc v =
      Checked-skip (not_empty-Checked sc.name _ _ v)
        (Checked-warn_if (is_empty sc.subject && is_empty sc.template_name) _ _ _)

  validate_enactment-Checked :
      (en : EnactmentNode) (v : Validator) → Checked s (IsEnactment en) v (validate_enactment en v)
  unfolding validate_enactment
  validate_enactment-Checked en v =
      Checked-map
        (λ h. record {
          named = h.0.0.0;
          has_scenes = h.0.0.1;
          scenes_named = h.0.1;
          proper_triggers = h.1;
        })
        (λ h. (((h.named, h.has_scenes), h.scenes_named), h.proper_triggers))
        (Checked-seq
          (Checked-seq
            (Checked-seq (not_empty-Checked en.name _ _ v) (not_empty-Checked en.scenes _ _ _))
            (Checked-each validate_scene validate_scene-Checked en.scenes _))
          (Checked-each validate_trigger (validate_trigger-Checked s) en.triggers _))

  validate_storyline-Checked :
      (sl : StorylineNode) (v : Validator) → Checked s (IsStoryline sl) v (validate_storyline sl v)
  unfolding validate_storyline
  validate_storyline-Checked sl v =
      Checked-map
        (λ h. record {
          named = h.0.0.0;
          has_enactments = h.0.0.1;
          levels_differ = h.0.1.0;
          orders_differ = h.0.1.1;
          proper_enactments = h.1;
        })
        (λ h.
          (((h.named, h.has_enactments), (h.levels_differ, h.orders_differ)), h.proper_enactments))
        (Checked-seq
          (Checked-seq
            (Checked-seq (not_empty-Checked sl.name _ _ v) (not_empty-Checked sl.enactments _ _ _))
            (validate_enactment_orders-Checked s sl _))
          (Checked-each validate_enactment validate_enactment-Checked sl.enactments _))

  validate_story-Checked :
      (story : StoryNode) (v : Validator) → Checked s (IsStory story) v (validate_story story v)
  unfolding validate_story
  validate_story-Checked story v =
      Checked-map
        (λ h. record {
          named = h.0.0.0;
          has_storylines = h.0.0.1;
          orders_differ = h.0.1;
          proper_storylines = h.1;
        })
        (λ h. (((h.named, h.has_storylines), h.orders_differ), h.proper_storylines))
        (Checked-seq
          (Checked-seq
            (Checked-seq (not_empty-Checked story.name _ _ v)
              (not_empty-Checked story.storylines _ _ _))
            (validate_story_orders-Checked s story _))
          (Checked-each validate_storyline validate_storyline-Checked story.storylines _))

  -- The funnel checks on actions and triggers only warn.
  validate_funnel_actions-Checked :
      (list : ActionList) (v : Validator) → Checked s (Unit {0}) v (validate_funnel_actions list v)
  unfolding validate_funnel_actions validate_funnel_action
  validate_funnel_actions-Checked no_action v = Checked-refl v
  validate_funnel_actions-Checked (and_action (action_node a fallback) rest) v =
      Checked-skip (Checked-warn_if (not (one_of funnel_action_types a.action_type)) _ _ v)
        (validate_funnel_actions-Checked rest _)

  validate_funnel_trigger-Checked :
      (trigger : TriggerNode) (v : Validator)
      → Checked s (Unit {0}) v (validate_funnel_trigger trigger v)
  unfolding validate_funnel_trigger
  validate_funnel_trigger-Checked trigger v =
      Checked-skip
        (Checked-skip
          (Checked-warn_if (not (one_of funnel_trigger_types trigger.trigger_type)) _ _ v)
          (validate_funnel_actions-Checked trigger.actions _))
        (validate_funnel_actions-Checked trigger.else_actions _)

  validate_page-Checked :
      (pg : PageNode) (v : Validator) → Checked s (pg.name ≢ []) v (validate_page pg v)
  unfolding validate_page
  validate_page-Checked pg v = not_empty-Checked pg.name _ _ v

  All-Unit : {A : Type 0} (xs : List A) → All (λ (x : A). Unit {0}) xs
  All-Unit [] = tt
  All-Unit (x ∷ xs) = (tt, All-Unit xs)

  validate_stage-Checked :
      (stage : StageNode) (v : Validator) → Checked s (IsStage stage) v (validate_stage stage v)
  unfolding validate_stage
  validate_stage-Checked stage v =
      Checked-map (λ h. record { named = h.0; pages_named = h.1 }) (λ h. (h.named, h.pages_named))
        (Checked-skip
          (Checked-seq
            (Checked-skip (not_empty-Checked stage.name _ _ v)
              (Checked-warn_if (is_empty stage.path) _ _ _))
            (Checked-each validate_page validate_page-Checked stage.pages _))
          (Checked-map (λ _. tt) (λ _. All-Unit stage.triggers)
            (Checked-each validate_funnel_trigger validate_funnel_trigger-Checked stage.triggers
              _)))

  validate_route-Checked :
      (route : RouteNode) (v : Validator) → Checked s (IsRoute route) v (validate_route route v)
  unfolding validate_route
  validate_route-Checked route v =
      Checked-map (λ h. record { named = h.0.0; has_stages = h.0.1; proper_stages = h.1 })
        (λ h. ((h.named, h.has_stages), h.proper_stages))
        (Checked-seq
          (Checked-seq (not_empty-Checked route.name _ _ v) (not_empty-Checked route.stages _ _ _))
          (Checked-each validate_stage validate_stage-Checked route.stages _))

  validate_funnel-Checked :
      (funnel : FunnelNode) (v : Validator)
      → Checked s (IsFunnel funnel) v (validate_funnel funnel v)
  unfolding validate_funnel
  validate_funnel-Checked funnel v =
      Checked-map (λ h. record { named = h.0.0; has_routes = h.0.1; proper_routes = h.1 })
        (λ h. ((h.named, h.has_routes), h.proper_routes))
        (Checked-seq
          (Checked-seq (not_empty-Checked funnel.name _ _ v)
            (not_empty-Checked funnel.routes _ _ _))
          (Checked-each validate_route validate_route-Checked funnel.routes _))

  validate_site-Checked :
      (site : SiteNode) (v : Validator) → Checked s (IsSite site) v (validate_site site v)
  unfolding validate_site
  validate_site-Checked site v =
      Checked-map (λ h. record { named = h.0; pages_named = h.1 }) (λ h. (h.named, h.pages_named))
        (Checked-seq
          (Checked-skip (not_empty-Checked site.name _ _ v)
            (Checked-warn_if (is_empty site.pages) _ _ _))
          (Checked-each validate_page validate_page-Checked site.pages _))

  -- Pass 3 keeps the symbols, and adds no error exactly if the script is structured as the
  -- specification says.
  pub validate_structure-Checked :
      (ast : ScriptAst) (v : Validator) → Checked s (IsStructured ast) v (validate_structure ast v)
  unfolding validate_structure
  validate_structure-Checked ast v =
      Checked-map
        (λ h. record { proper_stories = h.0.0; proper_funnels = h.0.1; proper_sites = h.1 })
        (λ h. ((h.proper_stories, h.proper_funnels), h.proper_sites))
        (Checked-seq
          (Checked-seq (Checked-each validate_story validate_story-Checked ast.stories v)
            (Checked-each validate_funnel validate_funnel-Checked ast.funnels _))
          (Checked-each validate_site validate_site-Checked ast.sites _))
