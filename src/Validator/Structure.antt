-- ===== src/Validator/Structure.antt =====
-- scripting/validator.go, pass 3: `validateStructure` and its helpers.
pub mod Words
pub mod Actions
pub mod Orders
pub mod Sound
use Prim.Native.String.{String}
use sentanyl_core_readonly.Ast.{
  DurationNode, ActionFields, ActionNode, action_node, ActionList, no_action, and_action,
  TriggerNode, SceneNode, EnactmentNode, StorylineNode, StoryNode, PageNode, StageNode, RouteNode,
  FunnelNode, SiteNode, ScriptAst,
}
use sentanyl_core_readonly.Diagnostic.Messages.{
  Message, story_without_name, storyline_without_name, enactment_without_name, scene_without_name,
  story_without_storyline, storyline_without_enactment, enactment_without_scene,
  duplicate_storyline_order, duplicate_enactment_level, duplicate_enactment_order,
  scene_without_subject, unknown_trigger_type, invalid_persist_scope,
  negative_trigger_without_within, complete_and_failed, unknown_action_type, retry_without_bound,
  retry_count_not_positive, duration_not_positive, invalid_duration_unit, funnel_without_name,
  route_without_name, stage_without_name, page_without_name, funnel_without_route,
  route_without_stage, stage_without_path, funnel_trigger_type, funnel_action_type,
  site_without_name, site_without_page,
}
use sentanyl_core_readonly.Prelude.Equality.{Map, lookup, insert}
use sentanyl_core_readonly.Prelude.Int.{ℤ, int_instance, not_positive}
use sentanyl_core_readonly.Prelude.{
  Bool, true, false, not, ◌&&◌, has_prefix, ◌||◌, if◌then◌else◌, Option, some, none, List, [], ◌∷◌,
  Str, bytes, str_eq, ◌==◌,
}
use sentanyl_core_readonly.Token.{Pos}
use sentanyl_core_readonly.Validator.{
  Validator, errorf, error_if, warn_if, ◌▸◌, for_each, if_some, is_empty,
}

-- A look-up in one of the sets of words.
unfoldable pub one_of : List String → Str → Bool
one_of [] s = false
one_of (w ∷ ws) s = str_eq (bytes w) s || one_of ws s

abbrev pub is_none {ℓ} : {A : Type ℓ} → Option A → Bool
is_none none = true
is_none (some _) = false

abbrev pub valid_units : List String
valid_units = "d" ∷ "h" ∷ "m" ∷ "s" ∷ "days" ∷ "hours" ∷ "minutes" ∷ "seconds" ∷ []

unfoldable pub validate_duration : DurationNode → Validator → Validator
validate_duration d v =
    v
    ▸ error_if (not_positive d.amount) d.pos (duration_not_positive d.amount)
    ▸ error_if (not (one_of valid_units d.unit)) d.pos (invalid_duration_unit d.unit)

abbrev pub retry_types : List String
retry_types =
    "retry_scene" ∷ "retry_enactment" ∷ "loop_to_enactment" ∷ "loop_to_storyline"
    ∷ "loop_to_start_enactment" ∷ "loop_to_start_storyline" ∷ []

unfoldable pub is_retry_action : Str → Bool
is_retry_action = one_of retry_types

abbrev pub valid_action_types : List String
valid_action_types =
    "next_scene" ∷ "prev_scene" ∷ "jump_to_enactment" ∷ "jump_to_storyline"
    ∷ "advance_to_next_storyline" ∷ "end_story" ∷ "mark_complete" ∷ "mark_failed" ∷ "unsubscribe"
    ∷ "give_badge" ∷ "remove_badge" ∷ "retry_scene" ∷ "retry_enactment" ∷ "loop_to_enactment"
    ∷ "loop_to_storyline" ∷ "loop_to_start_enactment" ∷ "loop_to_start_storyline" ∷ "wait"
    ∷ "send_immediate" ∷ "next_enactment" ∷ "jump_to_stage" ∷ "start_story" ∷ "send_email"
    ∷ "redirect" ∷ "provide_download" ∷ []

unfoldable pub validate_retry_count : ActionFields → ℤ → Validator → Validator
validate_retry_count a n =
    error_if (not_positive n) a.pos (retry_count_not_positive a.action_type n)

unfoldable pub validate_retry : ActionFields → Validator → Validator
validate_retry a v =
    if is_retry_action a.action_type
    then (v
        ▸ warn_if (is_none a.retry_max_count) a.pos (retry_without_bound a.action_type)
        ▸ if_some (validate_retry_count a) a.retry_max_count)
    else v

-- `validateAction` before its loop over the fallback.
unfoldable pub validate_action_fields : ActionFields → Validator → Validator
validate_action_fields a v =
    v
    ▸ error_if (not (one_of valid_action_types a.action_type)) a.pos
        (unknown_action_type a.action_type)
    ▸ validate_retry a
    ▸ if_some validate_duration a.wait

unfoldable mutual
  pub validate_action : ActionNode → Validator → Validator
  validate_action (action_node a fallback) v =
      validate_actions fallback (validate_action_fields a v)

  pub validate_actions : ActionList → Validator → Validator
  validate_actions no_action v = v
  validate_actions (and_action a rest) v = validate_actions rest (validate_action a v)

abbrev pub valid_trigger_types : List String
valid_trigger_types =
    "click" ∷ "not_click" ∷ "open" ∷ "not_open" ∷ "sent" ∷ "webhook" ∷ "nothing" ∷ "else" ∷ "bounce"
    ∷ "spam" ∷ "unsubscribe" ∷ "failure" ∷ "email_validated" ∷ "user_has_tag" ∷ "badge" ∷ "submit"
    ∷ "abandon" ∷ "purchase" ∷ []

abbrev pub valid_scopes : List String
valid_scopes = "scene" ∷ "enactment" ∷ "storyline" ∷ "story" ∷ "forever" ∷ []

unfoldable pub validate_trigger : TriggerNode → Validator → Validator
validate_trigger tr v =
    v
    ▸ error_if (not (one_of valid_trigger_types tr.trigger_type)) tr.pos
        (unknown_trigger_type tr.trigger_type)
    ▸ error_if (not (is_empty tr.persist_scope) && not (one_of valid_scopes tr.persist_scope))
        tr.pos (invalid_persist_scope tr.persist_scope)
    ▸ warn_if (has_prefix tr.trigger_type (bytes "not_") && is_none tr.within) tr.pos
        (negative_trigger_without_within tr.trigger_type)
    ▸ if_some validate_duration tr.within
    ▸ validate_actions tr.actions
    ▸ validate_actions tr.else_actions
    ▸ error_if (tr.mark_complete && tr.mark_failed) tr.pos complete_and_failed

unfoldable pub validate_scene : SceneNode → Validator → Validator
validate_scene sc v =
    v
    ▸ error_if (is_empty sc.name) sc.pos scene_without_name
    ▸ warn_if (is_empty sc.subject && is_empty sc.template_name) sc.pos
        (scene_without_subject sc.name)

-- A map of the numbers that are taken, beside the validator.
pub record OrderScan : Type 0 where
  pub seen : Map ℤ Str
  pub validator : Validator

-- `if existing, ok := seen[n]; ok { v.errorf(…) }; seen[n] = name`.
unfoldable pub check_order : Str → Pos → (ℤ → Str → Message) → ℤ → OrderScan → OrderScan
check_order name p message n s = record {
  seen = insert n name s.seen;
  validator = if_some (λ existing. errorf p (message n existing)) (lookup n s.seen) s.validator;
}

unfoldable pub scan_storyline_order : StorylineNode → OrderScan → OrderScan
scan_storyline_order sl =
    if_some (check_order sl.name sl.pos (duplicate_storyline_order sl.name)) sl.order

unfoldable pub validate_story_orders : StoryNode → Validator → Validator
validate_story_orders story v =
    (for_each scan_storyline_order story.storylines (record { seen = []; validator = v })).validator

-- The two maps of `validateEnactmentOrders`, beside the validator.
pub record LevelScan : Type 0 where
  pub levels : Map ℤ Str
  pub orders : Map ℤ Str
  pub validator : Validator

unfoldable pub scan_level : StorylineNode → EnactmentNode → LevelScan → LevelScan
scan_level sl en s =
    let r =
      if_some
        (check_order en.name en.pos
          (λ n existing. duplicate_enactment_level en.name n existing sl.name))
        en.level (record { seen = s.levels; validator = s.validator }) in
    record s { levels = r.seen; validator = r.validator }

unfoldable pub scan_order : StorylineNode → EnactmentNode → LevelScan → LevelScan
scan_order sl en s =
    let r =
      if_some
        (check_order en.name en.pos
          (λ n existing. duplicate_enactment_order en.name n existing sl.name))
        en.order (record { seen = s.orders; validator = s.validator }) in
    record s { orders = r.seen; validator = r.validator }

unfoldable pub validate_enactment_orders : StorylineNode → Validator → Validator
validate_enactment_orders sl v =
    (for_each (λ en s. s ▸ scan_level sl en ▸ scan_order sl en) sl.enactments
      (record { levels = []; orders = []; validator = v })).validator

unfoldable pub validate_enactment : EnactmentNode → Validator → Validator
validate_enactment en v =
    v
    ▸ error_if (is_empty en.name) en.pos enactment_without_name
    ▸ error_if (is_empty en.scenes) en.pos (enactment_without_scene en.name)
    ▸ for_each validate_scene en.scenes
    ▸ for_each validate_trigger en.triggers

unfoldable pub validate_storyline : StorylineNode → Validator → Validator
validate_storyline sl v =
    v
    ▸ error_if (is_empty sl.name) sl.pos storyline_without_name
    ▸ error_if (is_empty sl.enactments) sl.pos (storyline_without_enactment sl.name)
    ▸ validate_enactment_orders sl
    ▸ for_each validate_enactment sl.enactments

unfoldable pub validate_story : StoryNode → Validator → Validator
validate_story story v =
    v
    ▸ error_if (is_empty story.name) story.pos story_without_name
    ▸ error_if (is_empty story.storylines) story.pos (story_without_storyline story.name)
    ▸ validate_story_orders story
    ▸ for_each validate_storyline story.storylines

abbrev pub funnel_action_types : List String
funnel_action_types =
    "jump_to_stage" ∷ "start_story" ∷ "send_email" ∷ "redirect" ∷ "provide_download" ∷ "give_badge"
    ∷ "remove_badge" ∷ "mark_complete" ∷ []

abbrev pub funnel_trigger_types : List String
funnel_trigger_types =
    "submit" ∷ "abandon" ∷ "purchase" ∷ "click" ∷ "webhook" ∷ "nothing" ∷ "else" ∷ []

unfoldable pub validate_funnel_action : ActionNode → Validator → Validator
validate_funnel_action (action_node a fallback) =
    warn_if (not (one_of funnel_action_types a.action_type)) a.pos
      (funnel_action_type a.action_type)

unfoldable pub validate_funnel_actions : ActionList → Validator → Validator
validate_funnel_actions no_action v = v
validate_funnel_actions (and_action a rest) v =
    validate_funnel_actions rest (validate_funnel_action a v)

unfoldable pub validate_funnel_trigger : TriggerNode → Validator → Validator
validate_funnel_trigger tr v =
    v
    ▸ warn_if (not (one_of funnel_trigger_types tr.trigger_type)) tr.pos
        (funnel_trigger_type tr.trigger_type)
    ▸ validate_funnel_actions tr.actions
    ▸ validate_funnel_actions tr.else_actions

unfoldable pub validate_page : PageNode → Validator → Validator
validate_page pg = error_if (is_empty pg.name) pg.pos page_without_name

unfoldable pub validate_stage : StageNode → Validator → Validator
validate_stage stage v =
    v
    ▸ error_if (is_empty stage.name) stage.pos stage_without_name
    ▸ warn_if (is_empty stage.path) stage.pos (stage_without_path stage.name)
    ▸ for_each validate_page stage.pages
    ▸ for_each validate_funnel_trigger stage.triggers

unfoldable pub validate_route : RouteNode → Validator → Validator
validate_route route v =
    v
    ▸ error_if (is_empty route.name) route.pos route_without_name
    ▸ error_if (is_empty route.stages) route.pos (route_without_stage route.name)
    ▸ for_each validate_stage route.stages

unfoldable pub validate_funnel : FunnelNode → Validator → Validator
validate_funnel funnel v =
    v
    ▸ error_if (is_empty funnel.name) funnel.pos funnel_without_name
    ▸ error_if (is_empty funnel.routes) funnel.pos (funnel_without_route funnel.name)
    ▸ for_each validate_route funnel.routes

unfoldable pub validate_site : SiteNode → Validator → Validator
validate_site site v =
    v
    ▸ error_if (is_empty site.name) site.pos site_without_name
    ▸ warn_if (is_empty site.pages) site.pos (site_without_page site.name)
    ▸ for_each validate_page site.pages

unfoldable pub validate_structure : ScriptAst → Validator → Validator
validate_structure ast v =
    v
    ▸ for_each validate_story ast.stories
    ▸ for_each validate_funnel ast.funnels
    ▸ for_each validate_site ast.sites
