-- ===== src/StoryEngine/Graph.antt =====
-- routes/story_engine.go: the story graph that the engine reads, with the fields that it uses, and
-- `hydrateStoryGraph`, `hydrateEnactment`, `loadScene`. The elements of embedded lists are never
-- nil: they are decoded from documents.
pub mod Loaded
pub mod Ordered
use sentanyl_core_readonly.Prelude.Equality.{Map, lookup, insert, str_instance}
use sentanyl_core_readonly.Prelude.Int.{ℤ, int_lt}
use sentanyl_core_readonly.Prelude.Sorting.{SortsTo}
use sentanyl_core_readonly.Prelude.{
  is_nil, Bool, true, false, if◌then◌else◌, Option, some, none, List, [], ◌∷◌, ◌++◌, Str, str_eq,
}

pub record WaitUntil : Type 0 where
  pub amount : ℤ
  pub time_unit : Str

pub record When : Type 0 where
  pub wait_until : Option WaitUntil

pub record Action : Type 0 where
  pub action_name : Str
  pub when : Option When

pub record Trigger : Type 0 where
  pub trigger_type : Str
  pub user_action_value : Str
  pub do_action : Option Action
  pub do_action_id : Option Str

pub record MessageContent : Type 0 where
  pub subject : Str
  pub body : Str
  pub from_email : Str
  pub from_name : Str
  pub reply_to : Str

pub record Message : Type 0 where
  pub content : Option MessageContent

pub record Scene : Type 0 where
  pub message : Option Message
  pub message_id : Option Str
  pub subject : Str
  pub body : Str
  pub from_email : Str
  pub from_name : Str
  pub reply_to : Str

pub record Enactment : Type 0 where
  pub subscriber_id : Str
  pub natural_order : ℤ
  pub send_scene : Option Scene
  pub send_scene_id : Option Str
  pub send_scenes : List Scene
  pub send_scenes_ids : Option (List Str)
  pub on_event : Map Str (List Trigger)
  pub on_event_ids : Option (List Str)

pub record Storyline : Type 0 where
  pub public_id : Str
  pub subscriber_id : Str
  pub natural_order : ℤ
  pub acts : List Enactment
  pub act_ids : Option (List Str)

pub record Story : Type 0 where
  pub id : Str
  pub public_id : Str
  pub name : Str
  pub subscriber_id : Str
  pub tenant_id : Str
  pub storylines : List Storyline
  pub storyline_ids : Option (List Str)

-- What the engine asks of the database and of the standard library. A look-up is
-- `Find(bson.M{"_id": id, "subscriber_id": tid}).One`, with `none` for an error; the sorts are
-- `sort.Slice`, for a comparison.
pub record Graph : Type 0 where
  pub storyline : Str → Str → Option Storyline
  pub enactment : Str → Str → Option Enactment
  pub scene : Str → Str → Option Scene
  pub message : Str → Str → Option Message
  pub trigger : Str → Str → Option Trigger
  pub action : Str → Str → Option Action
  pub is_valid : Str → Bool
  pub sort_acts : (Enactment → Enactment → Bool) → List Enactment → List Enactment
  pub sort_storylines : (Storyline → Storyline → Bool) → List Storyline → List Storyline
  pub acts_sorted :
      (less : Enactment → Enactment → Bool) (xs : List Enactment)
      → SortsTo less xs (sort_acts less xs)
  pub storylines_sorted :
      (less : Storyline → Storyline → Bool) (xs : List Storyline)
      → SortsTo less xs (sort_storylines less xs)

-- The comparisons of the sorts.
unfoldable pub act_less : Enactment → Enactment → Bool
unfolding int_lt
act_less a b = int_lt a.natural_order b.natural_order

unfoldable pub storyline_less : Storyline → Storyline → Bool
unfolding int_lt
storyline_less a b = int_lt a.natural_order b.natural_order

-- `ids.Ids`, with no ids where the pointer is nil.
abbrev pub ids_of : Option (List Str) → List Str
ids_of none = []
ids_of (some ids) = ids

abbrev pub is_present : Str → List Str → Bool
is_present k [] = false
is_present k (j ∷ js) = if str_eq j k then true else is_present k js

abbrev pub public_ids : List Storyline → List Str
public_ids [] = []
public_ids (sl ∷ sls) = sl.public_id ∷ public_ids sls

module _ (g : Graph) where
  -- A look-up of an id that is there and valid.
  unfoldable pub resolve {ℓ} : {A : Type ℓ} → (Str → Option A) → Option Str → Option A
  resolve find none = none
  resolve find (some id) = if g.is_valid id then find id else none

  -- A field that is set, or else the document that its id refers to.
  unfoldable pub or_resolve {ℓ} : {A : Type ℓ} → (Str → Option A) → Option Str → Option A → Option A
  unfolding resolve
  or_resolve find id (some a) = some a
  or_resolve find id none = resolve find id

  unfoldable pub load_scene : Str → Str → Option Scene
  unfolding or_resolve
  load_scene tid id = elim (g.scene id tid) [
    | none ↦ none
    | some sc ↦
        some (record sc { message = or_resolve (λ m. g.message m tid) sc.message_id sc.message })
  ]

  -- The scenes of the ids that are found.
  unfoldable pub load_scenes : Str → List Str → List Scene
  unfolding load_scene
  load_scenes tid [] = []
  load_scenes tid (id ∷ ids) =
      let rest = load_scenes tid ids in
      elim (load_scene tid id) [ none ↦ rest | some sc ↦ sc ∷ rest ]

  -- `en.OnEvent[tr.TriggerType] = append(en.OnEvent[tr.TriggerType], &tr)`.
  unfoldable pub add_trigger : Trigger → Map Str (List Trigger) → Map Str (List Trigger)
  add_trigger tr events = elim (lookup tr.trigger_type events) [
    | none ↦ insert tr.trigger_type (tr ∷ []) events
    | some trs ↦ insert tr.trigger_type (trs ++ tr ∷ []) events
  ]

  unfoldable pub load_triggers : Str → List Str → Map Str (List Trigger) → Map Str (List Trigger)
  unfolding add_trigger or_resolve
  load_triggers tid [] events = events
  load_triggers tid (id ∷ ids) events = load_triggers tid ids (elim (g.trigger id tid) [
    | none ↦ events
    | some tr ↦
        add_trigger
          (record tr { do_action = or_resolve (λ a. g.action a tid) tr.do_action_id tr.do_action })
          events
  ])

  unfoldable pub hydrate_events :
      Str → Option (List Str) → Map Str (List Trigger) → Map Str (List Trigger)
  unfolding load_triggers
  hydrate_events tid none events = events
  hydrate_events tid (some ids) events = if is_nil events then load_triggers tid ids [] else events

  unfoldable pub hydrate_enactment : Str → Enactment → Enactment
  unfolding or_resolve load_scene load_scenes hydrate_events
  hydrate_enactment tid en = record en {
    send_scene = or_resolve (load_scene tid) en.send_scene_id en.send_scene;
    send_scenes =
        if is_nil en.send_scenes
        then load_scenes tid (ids_of en.send_scenes_ids)
        else en.send_scenes;
    on_event = hydrate_events tid en.on_event_ids en.on_event;
  }

  unfoldable pub load_acts : Str → List Str → List Enactment
  unfolding hydrate_enactment
  load_acts tid [] = []
  load_acts tid (id ∷ ids) =
      let rest = load_acts tid ids in
      elim (g.enactment id tid) [ none ↦ rest | some en ↦ hydrate_enactment tid en ∷ rest ]

  unfoldable pub hydrate_acts : Str → Option (List Str) → Storyline → Storyline
  unfolding load_acts act_less
  hydrate_acts tid none sl = sl
  hydrate_acts tid (some ids) sl =
      if is_nil sl.acts then record sl { acts = g.sort_acts act_less (load_acts tid ids) } else sl

  -- The loop over the ids of a story: the public ids that are present, and what is added.
  unfoldable pub load_storylines : Str → List Str → List Str → List Storyline
  unfolding hydrate_acts
  load_storylines tid [] present = []
  load_storylines tid (id ∷ ids) present = elim (g.storyline id tid) [
    | none ↦ load_storylines tid ids present
    | some sl ↦ elim (is_present sl.public_id present) [
      | true ↦ load_storylines tid ids present
      | false ↦ hydrate_acts tid sl.act_ids sl ∷ load_storylines tid ids (sl.public_id ∷ present)
    ]
  ]

  unfoldable pub hydrate_ids : List Str → Story → Story
  unfolding load_storylines storyline_less
  hydrate_ids [] story = story
  hydrate_ids (id ∷ ids) story = record story {
    storylines = g.sort_storylines storyline_less (
        story.storylines
        ++ load_storylines story.subscriber_id (id ∷ ids) (public_ids story.storylines));
  }

  unfoldable pub hydrate_story_graph : Story → Story
  unfolding hydrate_ids
  hydrate_story_graph story = hydrate_ids (ids_of story.storyline_ids) story
