-- ===== src/StoryEngine/Start.antt =====
-- routes/story_engine.go: `StartStoryForUserCmd`.
pub mod Checks
pub mod Once
pub mod Outcomes
pub mod Replay
use sentanyl_core_readonly.Prelude.{
  ℕ, Bool, true, false, not, ◌&&◌, if◌then◌else◌, Option, some, none, List, [], ◌∷◌, Str, str_eq,
}
use sentanyl_core_readonly.StoryEngine.Advance.{Step, auth_request, deliver}
use sentanyl_core_readonly.StoryEngine.Content.{
  OnSentWait, first_scene, on_sent_wait, scene_content,
}
use sentanyl_core_readonly.StoryEngine.Graph.{
  Enactment, MessageContent, Scene, Story, Storyline, hydrate_story_graph,
}
use sentanyl_core_readonly.StoryEngine.Services.{Services, World}
use sentanyl_core_readonly.StoryEngine.Sessions.{
  Change, Collection, InsertResult, Query, StorySession, active, duplicate, failed, inserted,
  is_active, superseded,
}

pub data StartError : Type 0 where
  story_not_found no_storylines no_enactments no_scene no_content : StartError
  send_refused session_not_created : StartError

pub data Result {ℓ} (A : Type ℓ) : Type ℓ where
  ok : A → Result A
  err : StartError → Result A

infixl 5 ◌>>=◌
abbrev pub ◌>>=◌ {ℓ κ} : {A : Type ℓ} {B : Type κ} → Result A → (A → Result B) → Result B
ok a >>= f = f a
err e >>= f = err e

-- The head of a list, or the error.
abbrev pub first_or {ℓ} : {A : Type ℓ} → StartError → List A → Result A
first_or e [] = err e
first_or e (x ∷ _) = ok x

-- The last of a list, or the error.
abbrev pub last_or {ℓ} : {A : Type ℓ} → StartError → List A → Result A
last_or e [] = err e
last_or e (x ∷ []) = ok x
last_or e (_ ∷ y ∷ ys) = last_or e (y ∷ ys)

abbrev pub some_or {ℓ} : {A : Type ℓ} → StartError → Option A → Result A
some_or e none = err e
some_or e (some a) = ok a

-- The arguments of the command.
pub record Command : Type 0 where
  pub story_name : Str
  pub subscriber_id : Str
  pub user_public_id : Str
  pub command_key : Str

-- What a call generates: the object id and the public id of the session, and the time.
pub record Generated : Type 0 where
  pub id : Str
  pub public_id : Str
  pub now : ℕ

-- What is known before the session is claimed.
pub record Prepared : Type 0 where
  pub story : Story
  pub enactment : Enactment
  pub content : MessageContent

abbrev pub first_step : Command → Str → Step
first_step cmd public_id = record {
  session = public_id;
  user_public_id = cmd.user_public_id;
  subscriber_id = cmd.subscriber_id;
  storyline_idx = 0;
  enactment_idx = 0;
}

-- Another active session of the same user and story.
unfoldable pub supersede_query : Command → Str → Query
supersede_query cmd id d =
    str_eq d.user_public_id cmd.user_public_id
    && (str_eq d.story_name cmd.story_name && (is_active d.status && not (str_eq d.id id)))

abbrev pub supersede : Change
supersede d = record d { status = superseded }

-- The answer of the send authority.
abbrev pub authorized : Bool → Prepared → Result Prepared
authorized true p = ok p
authorized false p = err send_refused

module _ (sv : Services) where
  -- The checks before the claim, in order.
  unfoldable pub prepare : Command → Generated → Result Prepared
  unfolding auth_request hydrate_story_graph first_scene scene_content
  prepare cmd gen = do
    found ← last_or story_not_found (sv.stories_named cmd.story_name cmd.subscriber_id)
    let story = hydrate_story_graph sv.graph found
    sl ← first_or no_storylines story.storylines
    en ← first_or no_enactments sl.acts
    scene ← some_or no_scene (first_scene en)
    content ← some_or no_content (scene_content scene)
    authorized (sv.is_allowed (auth_request sv (first_step cmd gen.public_id)))
        (record { story = story; enactment = en; content = content })

  unfoldable pub new_session : Command → Generated → Prepared → StorySession
  unfolding on_sent_wait
  new_session cmd gen p =
      let wait = on_sent_wait sv.events p.enactment in
      record {
        id = gen.id;
        public_id = gen.public_id;
        user_public_id = cmd.user_public_id;
        subscriber_id = cmd.subscriber_id;
        story_id = p.story.id;
        story_name = cmd.story_name;
        storyline_idx = 0;
        enactment_idx = 0;
        sent_at = gen.now;
        wait_seconds = wait.wait_seconds;
        next_action = wait.next_action;
        status = active;
        command_key = cmd.command_key;
      }

  module _ {c : Collection} where
    -- Behind the insertion: the other sessions are superseded, with no look at the error, and the
    -- first step is sent.
    unfoldable pub claimed : Command → Generated → Prepared → World c → World c
    unfolding deliver supersede_query
    claimed cmd gen p w =
        deliver sv p.story (first_step cmd gen.public_id) p.content (record w {
          sessions = (c.update_all (supersede_query cmd gen.id) supersede w.sessions).0;
        })

    unfoldable pub after_insert :
        Command → Generated → Prepared → World c → InsertResult → World c × Result (Unit {0})
    unfolding claimed
    after_insert cmd gen p w inserted = (claimed cmd gen p w, ok tt)
    after_insert cmd gen p w duplicate = (w, ok tt)
    after_insert cmd gen p w failed = (w, err session_not_created)

    unfoldable pub enroll :
        Command → Generated → World c → Result Prepared → World c × Result (Unit {0})
    unfolding new_session after_insert
    enroll cmd gen w (err e) = (w, err e)
    enroll cmd gen w (ok p) =
        let r = c.insert (new_session cmd gen p) w.sessions in
        after_insert cmd gen p (record w { sessions = r.0 }) r.1

    unfoldable pub start_story : Command → Generated → World c → World c × Result (Unit {0})
    unfolding enroll prepare
    start_story cmd gen w = enroll cmd gen w (prepare cmd gen)
