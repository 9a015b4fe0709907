-- ===== src/Tests/Data.antt =====
-- Sources, scripts and tables that the tests share.
use sentanyl_core_readonly.Ast.{
  ActionNode, action_node, no_action, and_action, no_condition, TriggerNode, SceneNode,
  EnactmentNode, StorylineNode, StoryNode, PageNode, FunnelNode, ScriptAst,
}
use sentanyl_core_readonly.Prelude.Int.{ℤ, pos}
use sentanyl_core_readonly.Prelude.{true, false, [], ◌∷◌, some, none, Str, bytes}
use sentanyl_core_readonly.Token.{Pos}
use sentanyl_core_readonly.Utf8.{UnicodeTables}

-- No letters and no digits but those of ASCII.
abbrev pub no_tables : UnicodeTables
no_tables = record { wide_letter = λ _. false; wide_digit = λ _. false }

abbrev pub short_source : Str
short_source = bytes "story \"a\\nb\" { 5dx 1h30m 2.5 } // c"

abbrev pub origin : Pos
origin = record { line = 1; col = 1; offset = 0 }

abbrev pub jump_to : Str → ActionNode
jump_to name =
    action_node
      (record {
        pos = origin;
        action_type = bytes "jump_to_enactment";
        target = name;
        send_immediate = none;
        wait =
            some
              (record { pos = origin; amount = pos 2; unit = bytes "d"; raw_value = bytes "2d" });
        badge_transaction = none;
        unsubscribe = false;
        end_story = false;
        mark_complete = false;
        mark_failed = false;
        advance_to_next_storyline = false;
        retry_max_count = none;
      })
      no_action

abbrev pub on_click : Str → TriggerNode
on_click name = record {
  pos = origin;
  trigger_type = bytes "click";
  user_action_value = [];
  within = none;
  priority = none;
  persist_scope = bytes "story";
  mark_complete = true;
  mark_failed = false;
  required_badges = none;
  conditions = no_condition;
  actions = and_action (jump_to name) no_action;
  else_actions = no_action;
  watch_block_id = [];
  watch_operator = [];
  watch_percent = pos 0;
}

abbrev pub scene : Str → SceneNode
scene name = record {
  pos = origin;
  name = name;
  subject = bytes "Hello";
  body = [];
  from_email = [];
  from_name = [];
  reply_to = [];
  template_name = [];
  vars = [];
  tags = bytes "lead" ∷ [];
  context_pack_refs = [];
  subject_gen = [];
  body_gen = [];
}

abbrev pub enactment : Str → ℤ → Str → EnactmentNode
enactment name order target = record {
  pos = origin;
  name = name;
  level = none;
  order = some order;
  skip_to_next_storyline_on_expiry = none;
  scenes = scene (bytes "first") ∷ scene (bytes "second") ∷ [];
  triggers = on_click target ∷ [];
}

abbrev pub storyline : Str → StorylineNode
storyline target = record {
  pos = origin;
  name = bytes "nurture";
  order = some (pos 1);
  required_badges = none;
  on_begin = none;
  on_complete = none;
  on_fail = none;
  enactments =
      enactment (bytes "warm") (pos 1) target ∷ enactment (bytes "hot") (pos 2) target ∷ [];
}

abbrev pub story : Str → StoryNode
story target = record {
  pos = origin;
  name = bytes "welcome";
  priority = none;
  allow_interruption = none;
  on_begin = none;
  on_complete = none;
  on_fail = none;
  required_badges = none;
  start_trigger = some (bytes "lead");
  complete_trigger = none;
  storylines = storyline target ∷ [];
}

abbrev pub page : Str → PageNode
page name = record {
  pos = origin;
  name = name;
  forms = record { pos = origin; name = bytes "form" } ∷ [];
}

abbrev pub funnel : FunnelNode
funnel = record {
  pos = origin;
  name = bytes "sales";
  domain = [];
  routes =
      record {
        pos = origin;
        name = bytes "main";
        order = none;
        required_badges = none;
        stages =
            record {
              pos = origin;
              name = bytes "optin";
              path = bytes "/";
              pages = page (bytes "landing") ∷ [];
              triggers = [];
            }
            ∷ [];
      }
      ∷ [];
}

-- A script whose actions jump to an enactment of that name.
abbrev pub script_to : Str → ScriptAst
script_to target = record {
  stories = story target ∷ [];
  funnels = funnel ∷ [];
  sites = record { pos = origin; name = bytes "home"; domain = []; theme = []; pages = [] } ∷ [];
}

-- The target is an enactment of the storyline.
abbrev pub good_script : ScriptAst
good_script = script_to (bytes "hot")

-- The target is no enactment.
abbrev pub lost_script : ScriptAst
lost_script = script_to (bytes "cold")
