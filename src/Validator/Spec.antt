-- ===== src/Validator/Spec.antt =====
-- What a script has to be, said without the validator: the specification of its passes.
use Prim.Native.String.{String}
use sentanyl_core_readonly.Ast.{
  DurationNode, ActionFields, ActionNode, action_node, ActionList, no_action, and_action,
  TriggerNode, SceneNode, EnactmentNode, StorylineNode, StoryNode, PageNode, StageNode, RouteNode,
  FunnelNode, SiteNode, ScriptAst, ConditionalRouteNode, StorylineCompleteBlock, OnCompleteBlock,
  FormNode,
}
use sentanyl_core_readonly.Prelude.Distinct.{All, AllDifferent, Has}
use sentanyl_core_readonly.Prelude.Equality.{str_instance}
use sentanyl_core_readonly.Prelude.Int.{ℤ, pos, negsuc}
use sentanyl_core_readonly.Prelude.{
  zero, suc, true, Option, some, none, List, [], ◌∷◌, ◌++◌, Str, bytes, ◌≡◌, ◌≢◌, ◌⊎◌,
}
use sentanyl_core_readonly.Validator.Rules.{AllSome}
use sentanyl_core_readonly.Validator.{
  Kind, story_kind, storyline_kind, enactment_kind, scene_kind, funnel_kind, route_kind, stage_kind,
  page_kind, form_kind, site_kind,
}

-- The words of the language: what a specification lists for itself.
abbrev pub unit_words : List String
unit_words = "d" ∷ "h" ∷ "m" ∷ "s" ∷ "days" ∷ "hours" ∷ "minutes" ∷ "seconds" ∷ []

-- Actions that may repeat what was sent.
abbrev pub retry_words : List String
retry_words =
    "retry_scene" ∷ "retry_enactment" ∷ "loop_to_enactment" ∷ "loop_to_storyline"
    ∷ "loop_to_start_enactment" ∷ "loop_to_start_storyline" ∷ []

abbrev pub action_words : List String
action_words =
    "next_scene" ∷ "prev_scene" ∷ "jump_to_enactment" ∷ "jump_to_storyline"
    ∷ "advance_to_next_storyline" ∷ "end_story" ∷ "mark_complete" ∷ "mark_failed" ∷ "unsubscribe"
    ∷ "give_badge" ∷ "remove_badge" ∷ "retry_scene" ∷ "retry_enactment" ∷ "loop_to_enactment"
    ∷ "loop_to_storyline" ∷ "loop_to_start_enactment" ∷ "loop_to_start_storyline" ∷ "wait"
    ∷ "send_immediate" ∷ "next_enactment" ∷ "jump_to_stage" ∷ "start_story" ∷ "send_email"
    ∷ "redirect" ∷ "provide_download" ∷ []

abbrev pub trigger_words : List String
trigger_words =
    "click" ∷ "not_click" ∷ "open" ∷ "not_open" ∷ "sent" ∷ "webhook" ∷ "nothing" ∷ "else" ∷ "bounce"
    ∷ "spam" ∷ "unsubscribe" ∷ "failure" ∷ "email_validated" ∷ "user_has_tag" ∷ "badge" ∷ "submit"
    ∷ "abandon" ∷ "purchase" ∷ []

abbrev pub scope_words : List String
scope_words = "scene" ∷ "enactment" ∷ "storyline" ∷ "story" ∷ "forever" ∷ []

-- The key of a name below the key of what it stands in.
abbrev pub path_of : Str → Str → Str
path_of parent name = parent ++ (b':' ∷ name)

-- The string is one of the words.
abbrev pub IsOneOf : List String → Str → Type 0
IsOneOf [] s = ⊥
IsOneOf (w ∷ ws) s = (bytes w ≡ s) ⊎ IsOneOf ws s

abbrev pub IsPositive : ℤ → Type 0
IsPositive (pos zero) = ⊥
IsPositive (pos (suc n)) = Unit
IsPositive (negsuc n) = ⊥

pub record IsDuration (d : DurationNode) : Type 0 where
  pub positive : IsPositive d.amount
  pub known_unit : IsOneOf unit_words d.unit

pub record IsAction (a : ActionFields) : Type 0 where
  pub known_type : IsOneOf action_words a.action_type
  pub bounded_retry : IsOneOf retry_words a.action_type → AllSome IsPositive a.retry_max_count
  pub proper_wait : AllSome IsDuration a.wait

-- A predicate at an action and all that stand below it as fallbacks.
unfoldable mutual
  pub EachAction : (ActionFields → Type 0) → ActionNode → Type 0
  EachAction P (action_node a fallback) = P a × EachActions P fallback

  pub EachActions : (ActionFields → Type 0) → ActionList → Type 0
  EachActions P no_action = Unit
  EachActions P (and_action a rest) = EachAction P a × EachActions P rest

pub record IsTrigger (tr : TriggerNode) : Type 0 where
  pub known_type : IsOneOf trigger_words tr.trigger_type
  pub known_scope : (tr.persist_scope ≡ []) ⊎ IsOneOf scope_words tr.persist_scope
  pub proper_within : AllSome IsDuration tr.within
  pub proper_actions : EachActions IsAction tr.actions
  pub proper_else : EachActions IsAction tr.else_actions
  pub one_outcome : ¬ ((tr.mark_complete ≡ true) × (tr.mark_failed ≡ true))

-- The numbers that some items have, in order.
abbrev pub numbers {ℓ} : {A : Type ℓ} → (A → Option ℤ) → List A → List ℤ
numbers f [] = []
numbers f (x ∷ xs) = elim (f x) [ none ↦ numbers f xs | some n ↦ n ∷ numbers f xs ]

pub record IsEnactment (en : EnactmentNode) : Type 0 where
  pub named : en.name ≢ []
  pub has_scenes : en.scenes ≢ []
  pub scenes_named : All (λ (sc : SceneNode). sc.name ≢ []) en.scenes
  pub proper_triggers : All IsTrigger en.triggers

pub record IsStoryline (sl : StorylineNode) : Type 0 where
  pub named : sl.name ≢ []
  pub has_enactments : sl.enactments ≢ []
  pub levels_differ : AllDifferent (numbers (λ (en : EnactmentNode). en.level) sl.enactments)
  pub orders_differ : AllDifferent (numbers (λ (en : EnactmentNode). en.order) sl.enactments)
  pub proper_enactments : All IsEnactment sl.enactments

pub record IsStory (story : StoryNode) : Type 0 where
  pub named : story.name ≢ []
  pub has_storylines : story.storylines ≢ []
  pub orders_differ : AllDifferent (numbers (λ (sl : StorylineNode). sl.order) story.storylines)
  pub proper_storylines : All IsStoryline story.storylines

pub record IsStage (stage : StageNode) : Type 0 where
  pub named : stage.name ≢ []
  pub pages_named : All (λ (pg : PageNode). pg.name ≢ []) stage.pages

pub record IsRoute (route : RouteNode) : Type 0 where
  pub named : route.name ≢ []
  pub has_stages : route.stages ≢ []
  pub proper_stages : All IsStage route.stages

pub record IsFunnel (funnel : FunnelNode) : Type 0 where
  pub named : funnel.name ≢ []
  pub has_routes : funnel.routes ≢ []
  pub proper_routes : All IsRoute funnel.routes

pub record IsSite (site : SiteNode) : Type 0 where
  pub named : site.name ≢ []
  pub pages_named : All (λ (pg : PageNode). pg.name ≢ []) site.pages

pub record IsStructured (ast : ScriptAst) : Type 0 where
  pub proper_stories : All IsStory ast.stories
  pub proper_funnels : All IsFunnel ast.funnels
  pub proper_sites : All IsSite ast.sites

-- A declared name: what it names, and its key.
abbrev pub Declared : Type 0
Declared = Kind × Str

abbrev pub enactment_targets : List String
enactment_targets = "jump_to_enactment" ∷ "loop_to_enactment" ∷ "next_enactment" ∷ []

abbrev pub storyline_targets : List String
storyline_targets = "jump_to_storyline" ∷ "loop_to_storyline" ∷ []

abbrev pub names_in : List EnactmentNode → List Str
names_in [] = []
names_in (en ∷ ens) = en.name ∷ names_in ens

-- The references that are checked, in a script that declares the names `ds`: the next story of a
-- story, the next storyline of a storyline and of its routes, and the targets of the actions above
-- in the triggers of stories. The targets of other actions (`start_story`, `jump_to_stage`) and all
-- of funnels are not.
module _ (ds : List Declared) where
  -- A reference to a storyline of the story, or none.
  abbrev pub RefersToStoryline : StoryNode → Str → Type 0
  RefersToStoryline story name = (name ≡ []) ⊎ Has (storyline_kind, path_of story.name name) ds

  abbrev pub RefersToStory : OnCompleteBlock → Type 0
  RefersToStory block = (block.next_story ≡ []) ⊎ Has (story_kind, block.next_story) ds

  pub record IsTargeted (story : StoryNode) (sl : StorylineNode) (a : ActionFields) : Type 0 where
    pub in_storyline :
        IsOneOf enactment_targets a.action_type → Has a.target (names_in sl.enactments)
    pub in_story :
        IsOneOf storyline_targets a.action_type
        → Has (storyline_kind, path_of story.name a.target) ds

  pub record IsTargetedTrigger (story : StoryNode) (sl : StorylineNode) (tr : TriggerNode)
      : Type 0 where
    pub actions : EachActions (IsTargeted story sl) tr.actions
    pub else_actions : EachActions (IsTargeted story sl) tr.else_actions

  pub record IsRouted (story : StoryNode) (block : StorylineCompleteBlock) : Type 0 where
    pub next : RefersToStoryline story block.next_storyline
    pub routes :
        All
          (λ (cr : ConditionalRouteNode). RefersToStoryline story cr.next_storyline)
          block.conditional_routes

  pub record IsResolvedStoryline (story : StoryNode) (sl : StorylineNode) : Type 0 where
    pub on_complete : AllSome (IsRouted story) sl.on_complete
    pub on_fail : AllSome (IsRouted story) sl.on_fail
    pub triggers :
        All (λ (en : EnactmentNode). All (IsTargetedTrigger story sl) en.triggers) sl.enactments

  pub record IsResolvedStory (story : StoryNode) : Type 0 where
    pub on_complete : AllSome RefersToStory story.on_complete
    pub on_fail : AllSome RefersToStory story.on_fail
    pub storylines : All (IsResolvedStoryline story) story.storylines

-- The names that a script declares, in the order of the traversal.
abbrev pub each {ℓ} : {A : Type ℓ} → (A → List Declared) → List A → List Declared
each f [] = []
each f (x ∷ xs) = f x ++ each f xs

abbrev pub scene_names : Str → SceneNode → List Declared
scene_names en_key sc = (scene_kind, path_of en_key sc.name) ∷ []

abbrev pub enactment_names : Str → EnactmentNode → List Declared
enactment_names sl_key en =
    (enactment_kind, path_of sl_key en.name) ∷ each (scene_names (path_of sl_key en.name)) en.scenes

abbrev pub storyline_names : StoryNode → StorylineNode → List Declared
storyline_names story sl =
    (storyline_kind, path_of story.name sl.name)
    ∷ each (enactment_names (path_of story.name sl.name)) sl.enactments

abbrev pub story_names : StoryNode → List Declared
story_names story = (story_kind, story.name) ∷ each (storyline_names story) story.storylines

abbrev pub form_names : Str → FormNode → List Declared
form_names pg_key fm = (form_kind, path_of pg_key fm.name) ∷ []

abbrev pub page_names : Str → PageNode → List Declared
page_names s_key pg =
    (page_kind, path_of s_key pg.name) ∷ each (form_names (path_of s_key pg.name)) pg.forms

abbrev pub stage_names : Str → StageNode → List Declared
stage_names r_key stage =
    (stage_kind, path_of r_key stage.name)
    ∷ each (page_names (path_of r_key stage.name)) stage.pages

abbrev pub route_names : FunnelNode → RouteNode → List Declared
route_names funnel route =
    (route_kind, path_of funnel.name route.name)
    ∷ each (stage_names (path_of funnel.name route.name)) route.stages

abbrev pub funnel_names : FunnelNode → List Declared
funnel_names funnel = (funnel_kind, funnel.name) ∷ each (route_names funnel) funnel.routes

abbrev pub site_page_names : SiteNode → PageNode → List Declared
site_page_names site pg = (page_kind, path_of site.name pg.name) ∷ []

abbrev pub site_names : SiteNode → List Declared
site_names site = (site_kind, site.name) ∷ each (site_page_names site) site.pages

unfoldable pub declarations : ScriptAst → List Declared
declarations ast =
    (each story_names ast.stories ++ each funnel_names ast.funnels) ++ each site_names ast.sites

-- What the validator demands of a script.
pub record IsWellFormed (ast : ScriptAst) : Type 0 where
  pub names_differ : AllDifferent (declarations ast)
  pub references : All (IsResolvedStory (declarations ast)) ast.stories
  pub structured : IsStructured ast
