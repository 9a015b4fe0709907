-- ===== src/StoryEngine/Click.antt =====
-- routes/tracking.go: `fireClickTrigger`.
use sentanyl_core_readonly.Prelude.Equality.{Map}
use sentanyl_core_readonly.Prelude.{
  ℕ, Bool, not, ◌&&◌, ◌||◌, if◌then◌else◌, Option, some, none, List, [], ◌∷◌, ◌++◌, Str, bytes,
  str_eq, has_prefix, is_nil,
}
use sentanyl_core_readonly.StoryEngine.Advance.{advance_session, mark_complete}
use sentanyl_core_readonly.StoryEngine.Content.{get_elem?}
use sentanyl_core_readonly.StoryEngine.Graph.{
  Action, Enactment, Story, Trigger, hydrate_story_graph,
}
use sentanyl_core_readonly.StoryEngine.Services.{Services, World}
use sentanyl_core_readonly.StoryEngine.Sessions.{Collection, StorySession, is_active}

-- `strings.Contains(s, part)`.
unfoldable pub contains : Str → Str → Bool
unfolding has_prefix
contains [] part = has_prefix [] part
contains (c ∷ cs) part = has_prefix (c ∷ cs) part || contains cs part

-- The triggers of all events, in the order that the map is read.
unfoldable pub all_triggers : Map Str (List Trigger) → List Trigger
all_triggers [] = []
all_triggers ((_, trs) ∷ events) = trs ++ all_triggers events

unfoldable pub is_clicked : Str → Str → Trigger → Bool
unfolding contains
is_clicked on_click url tr =
    str_eq tr.trigger_type on_click
    && (not (is_nil tr.user_action_value) && contains url tr.user_action_value)

-- The first trigger that the click fires.
unfoldable pub fired : Str → Str → List Trigger → Option Trigger
unfolding is_clicked
fired on_click url [] = none
fired on_click url (tr ∷ trs) =
    if is_clicked on_click url tr then some tr else fired on_click url trs

-- The enactment at which the session stands.
unfoldable pub current_enactment : Story → StorySession → Option Enactment
current_enactment story s = elim (get_elem? story.storylines s.storyline_idx) [
  | none ↦ none
  | some sl ↦ get_elem? sl.acts s.enactment_idx
]

module _ (sv : Services) {c : Collection} where
  -- The switch over the name of the action; each `HasPrefix` includes the equality beside it.
  unfoldable pub run_action : ℕ → StorySession → World c → Option Action → World c
  unfolding has_prefix mark_complete advance_session
  run_action now s w none = w
  run_action now s w (some act) =
      if has_prefix act.action_name (bytes "mark_complete")
      then mark_complete sv s.public_id w
      else if has_prefix act.action_name (bytes "next_scene")
      then advance_session sv now (record s { next_action = bytes "next_scene" }) w
      else w

  unfoldable pub run_trigger : ℕ → StorySession → World c → Option Trigger → World c
  unfolding run_action
  run_trigger now s w none = w
  run_trigger now s w (some tr) = run_action now s w tr.do_action

  unfoldable pub click_at : ℕ → Str → StorySession → World c → Option Enactment → World c
  unfolding run_trigger all_triggers fired
  click_at now url s w none = w
  click_at now url s w (some en) =
      run_trigger now s w (fired sv.events.on_click url (all_triggers en.on_event))

  unfoldable pub click_in : ℕ → Str → StorySession → World c → Option Story → World c
  unfolding click_at current_enactment hydrate_story_graph
  click_in now url s w none = w
  click_in now url s w (some found) =
      click_at now url s w (current_enactment (hydrate_story_graph sv.graph found) s)

  unfoldable pub click_session : ℕ → Str → World c → Option StorySession → World c
  unfolding click_in
  click_session now url w none = w
  click_session now url w (some s) = click_in now url s w (sv.story_by_id s.story_id)

  unfoldable pub fire_click_trigger : ℕ → Str → Str → World c → World c
  unfolding click_session
  fire_click_trigger now user_public_id url w =
      click_session now url w
        (c.find_one (λ d. str_eq d.user_public_id user_public_id && is_active d.status) w.sessions)
