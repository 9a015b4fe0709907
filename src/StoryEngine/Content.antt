-- ===== src/StoryEngine/Content.antt =====
-- routes/story_engine.go: `getSceneFromEnactment`, `getSceneContent` and `getOnSentWait`.
pub mod Taken
use sentanyl_core_readonly.Prelude.Equality.{lookup, str_instance}
use sentanyl_core_readonly.Prelude.Int.{ℤ, pos, scale}
use sentanyl_core_readonly.Prelude.{
  ℕ, zero, suc, ◌||◌, not, if◌then◌else◌, Option, some, none, List, [], ◌∷◌, Str, bytes, str_eq,
  is_nil,
}
use sentanyl_core_readonly.StoryEngine.Graph.{
  WaitUntil, Action, Trigger, MessageContent, Message, Scene, Enactment,
}

abbrev pub get_elem? {ℓ} : {A : Type ℓ} → List A → ℕ → Option A
get_elem? [] i = none
get_elem? (x ∷ xs) zero = some x
get_elem? (x ∷ xs) (suc i) = get_elem? xs i

-- `getSceneFromEnactment(en, 0)`: every call of the engine asks for the first scene.
unfoldable pub first_scene : Enactment → Option Scene
first_scene en = elim (get_elem? en.send_scenes 0) [ some sc ↦ some sc | none ↦ en.send_scene ]

abbrev direct_content : Scene → MessageContent
direct_content sc = record {
  subject = sc.subject;
  body = sc.body;
  from_email = sc.from_email;
  from_name = sc.from_name;
  reply_to = sc.reply_to;
}

-- The content of the message, where the scene has one.
abbrev message_content : Option Message → Option MessageContent
message_content none = none
message_content (some m) = m.content

unfoldable pub scene_content : Scene → Option MessageContent
scene_content sc = elim (message_content sc.message) [
  | some content ↦ some content
  | none ↦
      if not (is_nil sc.subject) || not (is_nil sc.body) then some (direct_content sc) else none
]

-- `getSceneContent(getSceneFromEnactment(en, 0))`.
unfoldable pub enactment_content : Enactment → Option MessageContent
unfolding first_scene scene_content
enactment_content en = elim (first_scene en) [ none ↦ none | some sc ↦ scene_content sc ]

-- `pkgmodels.OnSent` and `pkgmodels.OnClick` name the events; their text is a parameter.
pub record EventNames : Type 0 where
  pub on_sent : Str
  pub on_click : Str

-- What happens after an enactment's email: the seconds to wait and the action then.
pub record OnSentWait : Type 0 where
  pub wait_seconds : ℤ
  pub next_action : Str

abbrev pub default_wait : OnSentWait
default_wait = record { wait_seconds = pos 30; next_action = bytes "mark_complete" }

-- The switch over the unit.
unfoldable pub unit_seconds : WaitUntil → ℤ
unit_seconds wu =
    if str_eq wu.time_unit (bytes "seconds") || str_eq wu.time_unit (bytes "second")
    then wu.amount
    else if str_eq wu.time_unit (bytes "minutes") || str_eq wu.time_unit (bytes "minute")
    then scale 60 wu.amount
    else if str_eq wu.time_unit (bytes "hours") || str_eq wu.time_unit (bytes "hour")
    then scale 3600 wu.amount
    else scale 60 wu.amount

-- Behind the first trigger of the event.
unfoldable pub action_wait : Option Action → OnSentWait
unfolding unit_seconds
action_wait none = default_wait
action_wait (some act) = elim act.when [
  | none ↦ default_wait
  | some when ↦ elim when.wait_until [
    | none ↦ record default_wait { next_action = act.action_name }
    | some wu ↦ record { wait_seconds = unit_seconds wu; next_action = act.action_name }
  ]
]

unfoldable pub first_trigger_wait : List Trigger → OnSentWait
unfolding action_wait
first_trigger_wait [] = default_wait
first_trigger_wait (tr ∷ _) = action_wait tr.do_action

unfoldable pub on_sent_wait : EventNames → Enactment → OnSentWait
unfolding first_trigger_wait
on_sent_wait names en = elim (lookup names.on_sent en.on_event) [
  | none ↦ default_wait
  | some trs ↦ first_trigger_wait trs
]
