-- ===== src/Diagnostic/Messages.antt =====
-- The messages of the diagnostics of lexer.go and validator.go: one constructor for each format
-- string, with the values that are put into it.
use sentanyl_core_readonly.Prelude.Int.{ℤ}
use sentanyl_core_readonly.Prelude.{ℕ, Str}
use sentanyl_core_readonly.Token.{Pos}

pub data Message : Type 0 where
  -- lexer.go
  unterminated_block_comment : Message
  unexpected_character : ℕ → Message
  unterminated_string_literal : Message
  unterminated_escape_in_string : Message
  -- validator.go, pass 1: the name, the name of its parent where it has one, the first position
  duplicate_story duplicate_funnel duplicate_site : Str → Pos → Message
  duplicate_storyline duplicate_enactment duplicate_scene : Str → Str → Pos → Message
  duplicate_route duplicate_stage duplicate_page duplicate_form : Str → Str → Pos → Message
  duplicate_site_page : Str → Str → Pos → Message
  -- validator.go, pass 2
  complete_unknown_story fail_unknown_story : Str → Message
  complete_unknown_storyline fail_unknown_storyline route_unknown_storyline : Str → Str → Message
  action_unknown_enactment action_unknown_storyline : Str → Str → Message
  -- validator.go, pass 3
  story_without_name storyline_without_name enactment_without_name scene_without_name : Message
  story_without_storyline storyline_without_enactment enactment_without_scene : Str → Message
  duplicate_storyline_order : Str → ℤ → Str → Message
  duplicate_enactment_level duplicate_enactment_order : Str → ℤ → Str → Str → Message
  scene_without_subject : Str → Message
  unknown_trigger_type invalid_persist_scope negative_trigger_without_within : Str → Message
  complete_and_failed : Message
  unknown_action_type retry_without_bound : Str → Message
  retry_count_not_positive : Str → ℤ → Message
  duration_not_positive : ℤ → Message
  invalid_duration_unit : Str → Message
  funnel_without_name route_without_name stage_without_name page_without_name : Message
  funnel_without_route route_without_stage stage_without_path : Str → Message
  funnel_trigger_type funnel_action_type : Str → Message
  site_without_name : Message
  site_without_page : Str → Message
