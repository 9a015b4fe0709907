-- ===== src/Validator/Collect.antt =====
-- scripting/validator.go, pass 1: `collectNames` and its helpers.
pub mod Rules
pub mod Aside
pub mod Sound
use sentanyl_core_readonly.Ast.{
  RequiredBadgesNode, BadgeTransactionNode, LifecycleBlock, OnCompleteBlock, ConditionalRouteNode,
  StorylineCompleteBlock, ActionNode, action_node, ActionList, no_action, and_action, ConditionNode,
  condition_node, ConditionList, no_condition, and_condition, TriggerNode, SceneNode, EnactmentNode,
  StorylineNode, StoryNode, FormNode, PageNode, StageNode, RouteNode, FunnelNode, SiteNode,
  ScriptAst,
}
use sentanyl_core_readonly.Diagnostic.Messages.{
  Message, duplicate_story, duplicate_funnel, duplicate_site, duplicate_storyline,
  duplicate_enactment, duplicate_scene, duplicate_route, duplicate_stage, duplicate_page,
  duplicate_form, duplicate_site_page,
}
use sentanyl_core_readonly.Prelude.Equality.{lookup, insert, str_instance}
use sentanyl_core_readonly.Prelude.Int.{ℤ}
use sentanyl_core_readonly.Prelude.{
  Bool, true, false, not, ◌||◌, if◌then◌else◌, Option, some, none, List, [], ◌∷◌, ◌++◌, Str, bytes,
  str_eq,
}
use sentanyl_core_readonly.Token.{Pos}
use sentanyl_core_readonly.Validator.{
  SymbolTable, Kind, story_kind, storyline_kind, enactment_kind, scene_kind, funnel_kind,
  route_kind, stage_kind, page_kind, form_kind, site_kind, names_of, set_name, Validator, errorf,
  ◌▸◌, for_each, if_some, is_empty, key_of,
}

-- The error about a name that is there already.
unfoldable pub report_duplicate : Pos → (Pos → Message) → Option Pos → Validator → Validator
report_duplicate p message none v = v
report_duplicate p message (some existing) v = errorf p (message existing) v

-- `if existing, ok := names[key]; ok { v.errorf(…) }; names[key] = pos`.
unfoldable pub declare : Kind → Str → Pos → (Pos → Message) → Validator → Validator
unfolding report_duplicate
declare kind key p message v =
    let w = report_duplicate p message (lookup key (names_of kind v.symbols)) v in
    record w { symbols = set_name kind key p w.symbols }

unfoldable pub add_badge : Str → Validator → Validator
add_badge b v = record v {
  symbols = record v.symbols { badge_names = insert b true v.symbols.badge_names };
}

unfoldable pub add_tag : Str → Validator → Validator
add_tag t v = record v {
  symbols = record v.symbols { tag_names = insert t true v.symbols.tag_names };
}

unfoldable pub add_template : Str → Validator → Validator
add_template t v = record v {
  symbols = record v.symbols { template_names = insert t true v.symbols.template_names };
}

unfoldable pub collect_required_badges : RequiredBadgesNode → Validator → Validator
collect_required_badges rb v =
    v ▸ for_each add_badge rb.must_have ▸ for_each add_badge rb.must_not_have

unfoldable pub collect_badge_transaction : BadgeTransactionNode → Validator → Validator
collect_badge_transaction bt v =
    v ▸ for_each add_badge bt.give_badges ▸ for_each add_badge bt.remove_badges

unfoldable pub collect_lifecycle : LifecycleBlock → Validator → Validator
collect_lifecycle lc = if_some collect_badge_transaction lc.badge_transaction

-- The body of `collectBadgesFromCondition` before its loop over the children.
unfoldable pub collect_condition_value : Str → Str → Validator → Validator
collect_condition_value condition_type value v =
    v
    ▸ (λ w.
        if str_eq condition_type (bytes "has_badge")
          || str_eq condition_type (bytes "not_has_badge")
        then add_badge value w
        else w)
    ▸ (λ w.
        if str_eq condition_type (bytes "has_tag") || str_eq condition_type (bytes "not_has_tag")
        then add_tag value w
        else w)

unfoldable mutual
  pub collect_condition : ConditionNode → Validator → Validator
  collect_condition (condition_node condition_type value children) v =
      collect_conditions children (collect_condition_value condition_type value v)

  pub collect_conditions : ConditionList → Validator → Validator
  collect_conditions no_condition v = v
  collect_conditions (and_condition c cs) v = collect_conditions cs (collect_condition c v)

unfoldable mutual
  pub collect_action : ActionNode → Validator → Validator
  collect_action (action_node a fallback) v =
      collect_actions fallback (if_some collect_badge_transaction a.badge_transaction v)

  pub collect_actions : ActionList → Validator → Validator
  collect_actions no_action v = v
  collect_actions (and_action a rest) v = collect_actions rest (collect_action a v)

unfoldable pub collect_trigger : TriggerNode → Validator → Validator
collect_trigger tr v =
    v
    ▸ if_some collect_required_badges tr.required_badges
    ▸ collect_conditions tr.conditions
    ▸ collect_actions tr.actions
    ▸ collect_actions tr.else_actions

unfoldable pub set_storyline_order : Str → ℤ → Validator → Validator
set_storyline_order key n v = record v {
  symbols = record v.symbols { storyline_order = insert key n v.symbols.storyline_order };
}

unfoldable pub set_enactment_level : Str → ℤ → Validator → Validator
set_enactment_level key n v = record v {
  symbols = record v.symbols { enactment_levels = insert key n v.symbols.enactment_levels };
}

unfoldable pub set_enactment_order : Str → ℤ → Validator → Validator
set_enactment_order key n v = record v {
  symbols = record v.symbols { enactment_orders = insert key n v.symbols.enactment_orders };
}

unfoldable pub collect_scene : Str → EnactmentNode → SceneNode → Validator → Validator
collect_scene en_key en sc v =
    v
    ▸ declare scene_kind (key_of en_key sc.name) sc.pos (duplicate_scene sc.name en.name)
    ▸ for_each add_tag sc.tags
    ▸ (λ w. if not (is_empty sc.template_name) then add_template sc.template_name w else w)

unfoldable pub collect_enactment : Str → StorylineNode → EnactmentNode → Validator → Validator
collect_enactment sl_key sl en v =
    let en_key = key_of sl_key en.name in
    v
    ▸ declare enactment_kind en_key en.pos (duplicate_enactment en.name sl.name)
    ▸ if_some (set_enactment_level en_key) en.level
    ▸ if_some (set_enactment_order en_key) en.order
    ▸ for_each (collect_scene en_key en) en.scenes
    ▸ for_each collect_trigger en.triggers

-- `on_complete` and `on_fail` of a storyline.
unfoldable pub collect_storyline_block : StorylineCompleteBlock → Validator → Validator
collect_storyline_block block v =
    v
    ▸ if_some collect_badge_transaction block.badge_transaction
    ▸ for_each (λ cr. if_some collect_required_badges cr.required_badges) block.conditional_routes

unfoldable pub collect_storyline : StoryNode → StorylineNode → Validator → Validator
collect_storyline story sl v =
    let sl_key = key_of story.name sl.name in
    v
    ▸ declare storyline_kind sl_key sl.pos (duplicate_storyline sl.name story.name)
    ▸ if_some (set_storyline_order sl_key) sl.order
    ▸ if_some collect_required_badges sl.required_badges
    ▸ if_some collect_lifecycle sl.on_begin
    ▸ if_some collect_storyline_block sl.on_complete
    ▸ if_some collect_storyline_block sl.on_fail
    ▸ for_each (collect_enactment sl_key sl) sl.enactments

-- `on_complete` and `on_fail` of a story.
unfoldable pub collect_story_block : OnCompleteBlock → Validator → Validator
collect_story_block block = if_some collect_badge_transaction block.badge_transaction

unfoldable pub collect_story : StoryNode → Validator → Validator
collect_story story v =
    v
    ▸ declare story_kind story.name story.pos (duplicate_story story.name)
    ▸ if_some collect_required_badges story.required_badges
    ▸ if_some collect_lifecycle story.on_begin
    ▸ if_some collect_story_block story.on_complete
    ▸ if_some collect_story_block story.on_fail
    ▸ if_some add_badge story.start_trigger
    ▸ if_some add_badge story.complete_trigger
    ▸ for_each (collect_storyline story) story.storylines

unfoldable pub collect_form : Str → PageNode → FormNode → Validator → Validator
collect_form pg_key pg fm =
    declare form_kind (key_of pg_key fm.name) fm.pos (duplicate_form fm.name pg.name)

unfoldable pub collect_page : Str → StageNode → PageNode → Validator → Validator
collect_page s_key stage pg v =
    let pg_key = key_of s_key pg.name in
    v
    ▸ declare page_kind pg_key pg.pos (duplicate_page pg.name stage.name)
    ▸ for_each (collect_form pg_key pg) pg.forms

unfoldable pub collect_stage : Str → RouteNode → StageNode → Validator → Validator
collect_stage r_key route stage v =
    let s_key = key_of r_key stage.name in
    v
    ▸ declare stage_kind s_key stage.pos (duplicate_stage stage.name route.name)
    ▸ for_each (collect_page s_key stage) stage.pages
    ▸ for_each collect_trigger stage.triggers

unfoldable pub collect_route : FunnelNode → RouteNode → Validator → Validator
collect_route funnel route v =
    let r_key = key_of funnel.name route.name in
    v
    ▸ declare route_kind r_key route.pos (duplicate_route route.name funnel.name)
    ▸ if_some collect_required_badges route.required_badges
    ▸ for_each (collect_stage r_key route) route.stages

unfoldable pub collect_funnel : FunnelNode → Validator → Validator
collect_funnel funnel v =
    v
    ▸ declare funnel_kind funnel.name funnel.pos (duplicate_funnel funnel.name)
    ▸ for_each (collect_route funnel) funnel.routes

unfoldable pub collect_site_page : SiteNode → PageNode → Validator → Validator
collect_site_page site pg =
    declare page_kind (key_of site.name pg.name) pg.pos (duplicate_site_page pg.name site.name)

unfoldable pub collect_site : SiteNode → Validator → Validator
collect_site site v =
    v
    ▸ declare site_kind site.name site.pos (duplicate_site site.name)
    ▸ for_each (collect_site_page site) site.pages

unfoldable pub collect_names : ScriptAst → Validator → Validator
collect_names ast v =
    v
    ▸ for_each collect_story ast.stories
    ▸ for_each collect_funnel ast.funnels
    ▸ for_each collect_site ast.sites
