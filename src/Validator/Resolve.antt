-- ===== src/Validator/Resolve.antt =====
-- scripting/validator.go, pass 2: `resolveReferences` and its helpers.
pub mod Sound
use sentanyl_core_readonly.Ast.{
  OnCompleteBlock, ConditionalRouteNode, StorylineCompleteBlock, ActionFields, ActionNode,
  action_node, ActionList, no_action, and_action, TriggerNode, EnactmentNode, StorylineNode,
  StoryNode, ScriptAst,
}
use sentanyl_core_readonly.Diagnostic.Messages.{
  Message, complete_unknown_story, fail_unknown_story, complete_unknown_storyline,
  fail_unknown_storyline, route_unknown_storyline, action_unknown_enactment,
  action_unknown_storyline,
}
use sentanyl_core_readonly.Prelude.Equality.{has_key, str_instance}
use sentanyl_core_readonly.Prelude.{
  Bool, true, false, not, ◌&&◌, ◌||◌, if◌then◌else◌, Option, some, none, List, [], ◌∷◌, Str, bytes,
  str_eq,
}
use sentanyl_core_readonly.Token.{Pos}
use sentanyl_core_readonly.Validator.{
  SymbolTable, Kind, story_kind, storyline_kind, names_of, Validator, error_if, ◌▸◌, for_each,
  if_some, is_empty, key_of,
}

-- `_, ok := names[key]; ok`.
unfoldable pub known : Kind → Str → Validator → Bool
known kind key v = has_key key (names_of kind v.symbols)

-- `if name != "" { if _, ok := names[key]; !ok { v.errorf(…) } }`, also with the two tests as one.
unfoldable pub check_ref : Kind → Str → Str → Pos → Message → Validator → Validator
check_ref kind name key p message v =
    error_if (not (is_empty name) && not (known kind key v)) p message v

unfoldable pub resolve_conditional_route : StoryNode → ConditionalRouteNode → Validator → Validator
resolve_conditional_route story cr =
    check_ref storyline_kind cr.next_storyline (key_of story.name cr.next_storyline) cr.pos
      (route_unknown_storyline cr.next_storyline story.name)

-- `resolveStorylineCompleteRef` and `resolveStorylineFailRef`, which differ in one message.
unfoldable pub resolve_storyline_ref :
    (Str → Str → Message) → StoryNode → StorylineCompleteBlock → Validator → Validator
resolve_storyline_ref message story block v =
    v
    ▸ check_ref storyline_kind block.next_storyline (key_of story.name block.next_storyline)
        block.pos (message block.next_storyline story.name)
    ▸ for_each (resolve_conditional_route story) block.conditional_routes

unfoldable pub resolve_story_ref : (Str → Message) → OnCompleteBlock → Validator → Validator
resolve_story_ref message block =
    check_ref story_kind block.next_story block.next_story block.pos (message block.next_story)

-- The loop that looks for an enactment of the given name.
unfoldable pub has_enactment : Str → List EnactmentNode → Bool
has_enactment name [] = false
has_enactment name (en ∷ rest) = str_eq en.name name || has_enactment name rest

abbrev pub targets_enactment : Str → Bool
targets_enactment t =
    str_eq t (bytes "jump_to_enactment")
    || str_eq t (bytes "loop_to_enactment")
    || str_eq t (bytes "next_enactment")

abbrev pub targets_storyline : Str → Bool
targets_storyline t = str_eq t (bytes "jump_to_storyline") || str_eq t (bytes "loop_to_storyline")

-- The switch over the type of an action.
unfoldable pub resolve_target : StoryNode → StorylineNode → ActionFields → Validator → Validator
resolve_target story sl a v =
    if targets_enactment a.action_type
    then error_if (not (has_enactment a.target sl.enactments)) a.pos
        (action_unknown_enactment a.target sl.name) v
    else if targets_storyline a.action_type
    then error_if (not (known storyline_kind (key_of story.name a.target) v)) a.pos
        (action_unknown_storyline a.target story.name) v
    else v

unfoldable mutual
  pub resolve_action : StoryNode → StorylineNode → ActionNode → Validator → Validator
  resolve_action story sl (action_node a fallback) v =
      resolve_trigger_actions story sl fallback (resolve_target story sl a v)

  pub resolve_trigger_actions : StoryNode → StorylineNode → ActionList → Validator → Validator
  resolve_trigger_actions story sl no_action v = v
  resolve_trigger_actions story sl (and_action a rest) v =
      resolve_trigger_actions story sl rest (resolve_action story sl a v)

unfoldable pub resolve_trigger : StoryNode → StorylineNode → TriggerNode → Validator → Validator
resolve_trigger story sl tr v =
    v
    ▸ resolve_trigger_actions story sl tr.actions
    ▸ resolve_trigger_actions story sl tr.else_actions

unfoldable pub resolve_enactment : StoryNode → StorylineNode → EnactmentNode → Validator → Validator
resolve_enactment story sl en = for_each (resolve_trigger story sl) en.triggers

unfoldable pub resolve_storyline : StoryNode → StorylineNode → Validator → Validator
resolve_storyline story sl v =
    v
    ▸ if_some (resolve_storyline_ref complete_unknown_storyline story) sl.on_complete
    ▸ if_some (resolve_storyline_ref fail_unknown_storyline story) sl.on_fail
    ▸ for_each (resolve_enactment story sl) sl.enactments

unfoldable pub resolve_story : StoryNode → Validator → Validator
resolve_story story v =
    v
    ▸ if_some (resolve_story_ref complete_unknown_story) story.on_complete
    ▸ if_some (resolve_story_ref fail_unknown_story) story.on_fail
    ▸ for_each (resolve_storyline story) story.storylines

unfoldable pub resolve_references : ScriptAst → Validator → Validator
resolve_references ast = for_each resolve_story ast.stories
