-- ===== src/Tests/World.antt =====
-- A collection in memory, services, a story and a user for runs of the story engine.
use mathlib.Core.Option.{some_inj}
use mathlib.Core.Path.{subst}
use sentanyl_core_readonly.Prelude.Distinct.{All, Has}
use sentanyl_core_readonly.Prelude.Int.{pos}
use sentanyl_core_readonly.Prelude.{
  ℕ, true, false, ◌&&◌, if◌then◌else◌, some, none, List, [], ◌∷◌, ◌++◌, Str, bytes, str_eq, ◌≡◌,
  refl, inl,
}
use sentanyl_core_readonly.StoryEngine.Graph.{Enactment, Graph, Scene, Story, Trigger}
use sentanyl_core_readonly.StoryEngine.Services.{Services, World}
use sentanyl_core_readonly.StoryEngine.Sessions.{Collection, StorySession, changed_all}
use sentanyl_core_readonly.StoryEngine.Start.{Command, Generated}
use sentanyl_core_readonly.Tests.Sorting.{sorting, sorting-SortsTo}
use sentanyl_core_readonly.Tests.Memory.{
  changed_all-ChangedSome, first, inserting, inserting_done, inserting_duplicate, inserting_failed,
  inserting_unique, matching, matching_found, updating, updating_hit, updating_miss,
}

abbrev pub memory : Collection
memory = record {
  State = List StorySession;
  docs = λ ds. ds;
  find_all = λ q ds. some (matching q ds);
  find_one = first;
  insert = inserting;
  update = updating;
  update_all = λ q f ds. (changed_all q f ds, true);
  found =
      λ q ds es e. subst (All (λ d. Has d ds × (q d ≡ true))) (some_inj.0 e) (matching_found q ds);
  insert_done = inserting_done;
  insert_duplicate = inserting_duplicate;
  insert_failed = inserting_failed;
  insert_unique = inserting_unique;
  update_hit = updating_hit;
  update_miss = λ q f ds h. inl (updating_miss q f ds h);
  update_all_done = λ q f ds h. refl;
  update_all_some = changed_all-ChangedSome;
}

abbrev plain_scene : Str → Scene
plain_scene subject = record {
  message = none;
  message_id = none;
  subject = subject;
  body = bytes "<body>Hi</body>";
  from_email = bytes "a@b.co";
  from_name = [];
  reply_to = [];
}

abbrev to_next : Trigger
to_next = record {
  trigger_type = bytes "sent";
  user_action_value = [];
  do_action = some (record {
    action_name = bytes "next_scene";
    when =
        some
          (record { wait_until = some (record { amount = pos 2; time_unit = bytes "minutes" }) });
  });
  do_action_id = none;
}

abbrev on_link : Trigger
on_link = record {
  trigger_type = bytes "click";
  user_action_value = bytes "shop";
  do_action = some (record { action_name = bytes "next_scene"; when = none });
  do_action_id = none;
}

abbrev mail_step : Str → Enactment
mail_step subject = record {
  subscriber_id = bytes "t1";
  natural_order = pos 0;
  send_scene = some (plain_scene subject);
  send_scene_id = none;
  send_scenes = [];
  send_scenes_ids = none;
  on_event = (bytes "sent", to_next ∷ []) ∷ (bytes "click", on_link ∷ []) ∷ [];
  on_event_ids = none;
}

-- A story with one storyline of its own and a reference to another.
abbrev pub sample_story : Story
sample_story = record {
  id = bytes "s1";
  public_id = bytes "story1";
  name = bytes "Welcome";
  subscriber_id = bytes "t1";
  tenant_id = [];
  storylines =
      record {
        public_id = bytes "line1";
        subscriber_id = bytes "t1";
        natural_order = pos 0;
        acts = mail_step (bytes "One") ∷ mail_step (bytes "Two") ∷ [];
        act_ids = none;
      }
      ∷ [];
  storyline_ids = some (bytes "x2" ∷ []);
}

abbrev pub sample_graph : Graph
sample_graph = record {
  storyline = λ id tid.
      if str_eq id (bytes "x2") && str_eq tid (bytes "t1")
      then some (record {
        public_id = bytes "line2";
        subscriber_id = tid;
        natural_order = pos 1;
        acts = [];
        act_ids = none;
      })
      else none;
  enactment = λ id tid. none;
  scene = λ id tid. none;
  message = λ id tid. none;
  trigger = λ id tid. none;
  action = λ id tid. none;
  is_valid = λ id. true;
  sort_acts = sorting;
  sort_storylines = sorting;
  acts_sorted = sorting-SortsTo;
  storylines_sorted = sorting-SortsTo;
}

abbrev pub services : Services
services = record {
  graph = sample_graph;
  events = record { on_sent = bytes "sent"; on_click = bytes "click" };
  stories_named = λ name tid. sample_story ∷ [];
  story_by_id = λ id. some sample_story;
  user_by_id = λ id. some (record { email = bytes "u@v.co"; is_unsubscribed = false });
  is_allowed = λ r. true;
  new_email_send = λ tenant to subject. record {
    public_id = bytes "m1";
    tenant_id = tenant;
    to_email = to;
    subject = subject;
    contact_public_id = [];
    story_public_id = [];
    story_name = [];
    storyline_idx = 0;
    enactment_idx = 0;
    message_id = [];
  };
  is_stored = λ row. true;
  public_base_url = bytes "https://x.co/";
  is_object_id_hex = λ s. false;
  object_id_hex = λ s. s;
  unsub_url = λ base user. base ++ user;
  unsub_headers = λ url. (bytes "List-Unsubscribe", url) ∷ [];
  append_unsub_footer = λ body url address. body ++ url;
  postal_address = λ tid. bytes "Main St";
  reply_correlation = λ id. (id, bytes "r@x.co");
  tracking_token = λ url user send. url;
  replace_links = λ f html. html;
}

abbrev pub fresh : Str → ℕ → Generated
fresh id now = record { id = id; public_id = bytes "p" ++ id; now = now }

abbrev pub start_command : Str → Command
start_command key = record {
  story_name = bytes "Welcome";
  subscriber_id = bytes "t1";
  user_public_id = bytes "u1";
  command_key = key;
}

abbrev pub empty_world : World memory
empty_world = record { sessions = []; sends = []; outbox = [] }
