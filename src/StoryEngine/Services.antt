-- ===== src/StoryEngine/Services.antt =====
-- What the story engine uses of the other packages, of the other collections and of the
-- environment; and the state that it changes.
use sentanyl_core_readonly.Prelude.{ℕ, Bool, Option, List, Str}
use sentanyl_core_readonly.StoryEngine.Content.{EventNames}
use sentanyl_core_readonly.StoryEngine.Graph.{Graph, Story}
use sentanyl_core_readonly.StoryEngine.Mail.{Headers}
use sentanyl_core_readonly.StoryEngine.Sessions.{Collection}

-- The fields of a user that the engine reads.
pub record User : Type 0 where
  pub email : Str
  pub is_unsubscribed : Bool

-- `sendauth.Request`; its class and its purpose are always the same.
pub record AuthRequest : Type 0 where
  pub tenant_id : Str
  pub email : Str
  pub unsub_url : Str

-- The fields of `pkgmodels.EmailSend` that the constructor is given or `recordStoryEmailSend` sets.
pub record EmailSend : Type 0 where
  pub public_id : Str
  pub tenant_id : Str
  pub to_email : Str
  pub subject : Str
  pub contact_public_id : Str
  pub story_public_id : Str
  pub story_name : Str
  pub storyline_idx : ℕ
  pub enactment_idx : ℕ
  pub message_id : Str

pub record Services : Type 0 where
  pub graph : Graph
  pub events : EventNames
  -- `Find(bson.M{"name": …, "subscriber_id": …}).All`, with no story for an error
  pub stories_named : Str → Str → List Story
  -- `FindId(id).One`
  pub story_by_id : Str → Option Story
  pub user_by_id : Str → Option User
  -- `sendauth.Authorize(…).Allowed`
  pub is_allowed : AuthRequest → Bool
  -- `pkgmodels.NewEmailSend`, for a tenant, an address and a subject, and whether the row is stored
  pub new_email_send : Str → Str → Str → EmailSend
  pub is_stored : EmailSend → Bool
  -- `os.Getenv("PUBLIC_BASE_URL")`
  pub public_base_url : Str
  pub is_object_id_hex : Str → Bool
  pub object_id_hex : Str → Str
  -- of package emailer
  pub unsub_url : Str → Str → Str
  pub unsub_headers : Str → Headers
  pub append_unsub_footer : Str → Str → Str → Str
  pub postal_address : Str → Str
  pub reply_correlation : Str → Str × Str
  -- `encodeTrackingToken` and the replacement by `hrefRegex`
  pub tracking_token : Str → Str → Str → Str
  pub replace_links : (Str → Str → Str → Str) → Str → Str

-- A message that is handed to the provider: its envelope and bytes, beside the session and the
-- enactment that it is sent for.
pub record Mail : Type 0 where
  pub session : Str
  pub enactment : ℕ
  pub from_email : Str
  pub to_email : Str
  pub raw : Str

-- The collections that the engine writes, and the messages handed over so far, the last one first.
pub record World (c : Collection) : Type 0 where
  pub sessions : c.State
  pub sends : List EmailSend
  pub outbox : List Mail
