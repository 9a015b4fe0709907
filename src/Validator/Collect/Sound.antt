-- ===== src/Validator/Collect/Sound.antt =====
-- Pass 1 declares the names of the script, and reports an error exactly if two of them are equal.
use sentanyl_core_readonly.Ast.{
  OnCompleteBlock, StorylineCompleteBlock, SceneNode, EnactmentNode, StorylineNode, StoryNode,
  FormNode, PageNode, StageNode, RouteNode, FunnelNode, SiteNode, ScriptAst,
}
use sentanyl_core_readonly.Prelude.{not, [], Str, if_rule}
use sentanyl_core_readonly.Validator.Collect.Aside.{
  add_badge-Collected, add_tag-Collected, add_template-Collected, set_storyline_order-Collected,
  set_enactment_level-Collected, set_enactment_order-Collected, required_badges-Collected,
  badge_transaction-Collected, lifecycle-Collected, trigger-Collected,
}
use sentanyl_core_readonly.Validator.Collect.Rules.{
  Collected, Collected-refl, Collected-seq, Collected-skip, Collected-each, Collected-each_none,
  Collected-if_some, declare-Collected,
}
use sentanyl_core_readonly.Validator.Collect.{
  add_badge, add_tag, collect_required_badges, collect_badge_transaction, collect_lifecycle,
  collect_trigger, set_storyline_order, set_enactment_level, set_enactment_order, collect_scene,
  collect_enactment, collect_storyline_block, collect_storyline, collect_story_block, collect_story,
  collect_form, collect_page, collect_stage, collect_route, collect_funnel, collect_site_page,
  collect_site, collect_names,
}
use sentanyl_core_readonly.Validator.Spec.{
  scene_names, enactment_names, storyline_names, story_names, form_names, page_names, stage_names,
  route_names, funnel_names, site_page_names, site_names, declarations,
}
use sentanyl_core_readonly.Validator.{
  story_kind, storyline_kind, enactment_kind, scene_kind, funnel_kind, route_kind, stage_kind,
  page_kind, form_kind, site_kind, Validator, if_some, is_empty, key_of,
}

scene-Collected :
    (en_key : Str) (en : EnactmentNode) (sc : SceneNode) (v : Validator)
    → Collected (scene_names en_key sc) v (collect_scene en_key en sc v)
unfolding collect_scene
scene-Collected en_key en sc v =
    Collected-skip
      (Collected-skip (declare-Collected scene_kind (key_of en_key sc.name) sc.pos _ v)
        (Collected-each_none add_tag add_tag-Collected sc.tags _))
      (if_rule (Collected [] _) (not (is_empty sc.template_name))
        (λ _. add_template-Collected sc.template_name _) (λ _. Collected-refl _))

enactment-Collected :
    (sl_key : Str) (sl : StorylineNode) (en : EnactmentNode) (v : Validator)
    → Collected (enactment_names sl_key en) v (collect_enactment sl_key sl en v)
unfolding collect_enactment
enactment-Collected sl_key sl en v =
    let en_key = key_of sl_key en.name in
    Collected-skip
      (Collected-seq
        (Collected-skip
          (Collected-skip (declare-Collected enactment_kind en_key en.pos _ v) (
            Collected-if_some (set_enactment_level en_key) (set_enactment_level-Collected en_key)
              en.level _))
          (Collected-if_some (set_enactment_order en_key) (set_enactment_order-Collected en_key)
            en.order _))
        (Collected-each (scene_names en_key) (collect_scene en_key en) (scene-Collected en_key en)
          en.scenes _))
      (Collected-each_none collect_trigger trigger-Collected en.triggers _)

storyline_block-Collected :
    (block : StorylineCompleteBlock) (v : Validator)
    → Collected [] v (collect_storyline_block block v)
unfolding collect_storyline_block
storyline_block-Collected block v =
    Collected-skip
      (Collected-if_some collect_badge_transaction badge_transaction-Collected
        block.badge_transaction v)
      (Collected-each_none (λ cr. if_some collect_required_badges cr.required_badges)
        (λ cr w.
          Collected-if_some collect_required_badges required_badges-Collected cr.required_badges w)
        block.conditional_routes _)

storyline-Collected :
    (story : StoryNode) (sl : StorylineNode) (v : Validator)
    → Collected (storyline_names story sl) v (collect_storyline story sl v)
unfolding collect_storyline
storyline-Collected story sl v =
    let sl_key = key_of story.name sl.name in
    Collected-seq
      (Collected-skip
        (Collected-skip
          (Collected-skip
            (Collected-skip
              (Collected-skip (declare-Collected storyline_kind sl_key sl.pos _ v) (
                Collected-if_some (set_storyline_order sl_key)
                  (set_storyline_order-Collected sl_key) sl.order _))
              (Collected-if_some collect_required_badges required_badges-Collected
                sl.required_badges _))
            (Collected-if_some collect_lifecycle lifecycle-Collected sl.on_begin _))
          (Collected-if_some collect_storyline_block storyline_block-Collected sl.on_complete _))
        (Collected-if_some collect_storyline_block storyline_block-Collected sl.on_fail _))
      (Collected-each (enactment_names sl_key) (collect_enactment sl_key sl)
        (enactment-Collected sl_key sl) sl.enactments _)

story_block-Collected :
    (block : OnCompleteBlock) (v : Validator) → Collected [] v (collect_story_block block v)
unfolding collect_story_block
story_block-Collected block v =
    Collected-if_some collect_badge_transaction badge_transaction-Collected block.badge_transaction
      v

story-Collected :
    (story : StoryNode) (v : Validator) → Collected (story_names story) v (collect_story story v)
unfolding collect_story
story-Collected story v =
    Collected-seq
      (Collected-skip
        (Collected-skip
          (Collected-skip
            (Collected-skip
              (Collected-skip
                (Collected-skip (declare-Collected story_kind story.name story.pos _ v) (
                  Collected-if_some collect_required_badges required_badges-Collected
                    story.required_badges _))
                (Collected-if_some collect_lifecycle lifecycle-Collected story.on_begin _))
              (Collected-if_some collect_story_block story_block-Collected story.on_complete _))
            (Collected-if_some collect_story_block story_block-Collected story.on_fail _))
          (Collected-if_some add_badge add_badge-Collected story.start_trigger _))
        (Collected-if_some add_badge add_badge-Collected story.complete_trigger _))
      (Collected-each (storyline_names story) (collect_storyline story) (storyline-Collected story)
        story.storylines _)

form-Collected :
    (pg_key : Str) (pg : PageNode) (fm : FormNode) (v : Validator)
    → Collected (form_names pg_key fm) v (collect_form pg_key pg fm v)
unfolding collect_form
form-Collected pg_key pg fm v = declare-Collected form_kind _ fm.pos _ v

page-Collected :
    (s_key : Str) (stage : StageNode) (pg : PageNode) (v : Validator)
    → Collected (page_names s_key pg) v (collect_page s_key stage pg v)
unfolding collect_page
page-Collected s_key stage pg v =
    let pg_key = key_of s_key pg.name in
    Collected-seq (declare-Collected page_kind pg_key pg.pos _ v) (
      Collected-each (form_names pg_key) (collect_form pg_key pg) (form-Collected pg_key pg)
        pg.forms _)

stage-Collected :
    (r_key : Str) (route : RouteNode) (stage : StageNode) (v : Validator)
    → Collected (stage_names r_key stage) v (collect_stage r_key route stage v)
unfolding collect_stage
stage-Collected r_key route stage v =
    let s_key = key_of r_key stage.name in
    Collected-skip
      (Collected-seq (declare-Collected stage_kind s_key stage.pos _ v) (
        Collected-each (page_names s_key) (collect_page s_key stage) (page-Collected s_key stage)
          stage.pages _))
      (Collected-each_none collect_trigger trigger-Collected stage.triggers _)

route-Collected :
    (funnel : FunnelNode) (route : RouteNode) (v : Validator)
    → Collected (route_names funnel route) v (collect_route funnel route v)
unfolding collect_route
route-Collected funnel route v =
    let r_key = key_of funnel.name route.name in
    Collected-seq
      (Collected-skip (declare-Collected route_kind r_key route.pos _ v) (
        Collected-if_some collect_required_badges required_badges-Collected route.required_badges
          _))
      (Collected-each (stage_names r_key) (collect_stage r_key route) (stage-Collected r_key route)
        route.stages _)

funnel-Collected :
    (funnel : FunnelNode) (v : Validator)
    → Collected (funnel_names funnel) v (collect_funnel funnel v)
unfolding collect_funnel
funnel-Collected funnel v =
    Collected-seq (declare-Collected funnel_kind funnel.name funnel.pos _ v) (
      Collected-each (route_names funnel) (collect_route funnel) (route-Collected funnel)
        funnel.routes _)

site_page-Collected :
    (site : SiteNode) (pg : PageNode) (v : Validator)
    → Collected (site_page_names site pg) v (collect_site_page site pg v)
unfolding collect_site_page
site_page-Collected site pg v = declare-Collected page_kind _ pg.pos _ v

site-Collected :
    (site : SiteNode) (v : Validator) → Collected (site_names site) v (collect_site site v)
unfolding collect_site
site-Collected site v = Collected-seq (declare-Collected site_kind site.name site.pos _ v) (
    Collected-each (site_page_names site) (collect_site_page site) (site_page-Collected site)
      site.pages _)

-- Pass 1 adds exactly the declared names to the symbols, and adds no error exactly if each name is
-- new when it is declared.
pub collect_names-Collected :
    (ast : ScriptAst) (v : Validator) → Collected (declarations ast) v (collect_names ast v)
unfolding collect_names declarations
collect_names-Collected ast v =
    Collected-seq
      (Collected-seq (Collected-each story_names collect_story story-Collected ast.stories v)
        (Collected-each funnel_names collect_funnel funnel-Collected ast.funnels _))
      (Collected-each site_names collect_site site-Collected ast.sites _)
