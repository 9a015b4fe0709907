-- ===== src/StoryEngine/Advance.antt =====
-- routes/story_engine.go: `advanceSession`, `markSessionComplete`, `advanceExpiredSessions` and the
-- sending of a step.
pub mod Carries
pub mod Claims
pub mod Once
pub mod Sends
pub mod Sweeps
use sentanyl_core_readonly.Prelude.Int.{ℤ, scale, reached}
use sentanyl_core_readonly.Prelude.{
  ℕ, suc, Bool, false, not, ◌&&◌, ◌||◌, ◌==◌, if◌then◌else◌, Option, some, none, List, [], ◌∷◌,
  ◌++◌, Str, bytes, str_eq, is_nil,
}
use sentanyl_core_readonly.StoryEngine.Content.{
  OnSentWait, enactment_content, on_sent_wait, get_elem?,
}
use sentanyl_core_readonly.StoryEngine.Graph.{
  Enactment, MessageContent, Story, Storyline, hydrate_story_graph,
}
use sentanyl_core_readonly.StoryEngine.Mail.{
  inject_open_pixel, raw_email, reply_address, reply_headers, rewrite_links, sender,
}
use sentanyl_core_readonly.StoryEngine.Services.{
  AuthRequest, EmailSend, Mail, Services, User, World,
}
use sentanyl_core_readonly.StoryEngine.Sessions.{
  Change, Collection, Query, StorySession, active, completed, is_active,
}

-- The e-mail address of a user, or the address that stands for a missing one.
unfoldable pub address_of : Str → Option User → Str
address_of user_public_id none = user_public_id ++ bytes "@story.internal"
address_of user_public_id (some user) =
    if is_nil user.email then user_public_id ++ bytes "@story.internal" else user.email

abbrev pub is_unsubscribed : Option User → Bool
is_unsubscribed none = false
is_unsubscribed (some user) = user.is_unsubscribed

-- Whom a step is sent to, and what it is a step of.
pub record Step : Type 0 where
  pub session : Str
  pub user_public_id : Str
  pub subscriber_id : Str
  pub storyline_idx : ℕ
  pub enactment_idx : ℕ

-- The predicate of the compare-and-set: the state of the session that was read.
unfoldable pub claim_query : StorySession → Query
claim_query s d =
    str_eq d.public_id s.public_id
    && is_active d.status
    && d.enactment_idx == s.enactment_idx
    && d.sent_at == s.sent_at

unfoldable pub claim_change : StorySession → ℕ → OnSentWait → Change
claim_change s now wait d = record d {
  enactment_idx = suc s.enactment_idx;
  sent_at = now;
  wait_seconds = wait.wait_seconds;
  next_action = wait.next_action;
}

abbrev pub next_step : StorySession → Step
next_step s = record {
  session = s.public_id;
  user_public_id = s.user_public_id;
  subscriber_id = s.subscriber_id;
  storyline_idx = s.storyline_idx;
  enactment_idx = suc s.enactment_idx;
}

-- The enactment behind the session's own, with its content.
unfoldable pub next_content : Story → StorySession → Option (Enactment × MessageContent)
unfolding enactment_content
next_content story s = elim (get_elem? story.storylines s.storyline_idx) [
  | none ↦ none
  | some sl ↦ elim (get_elem? sl.acts (suc s.enactment_idx)) [
    | none ↦ none
    | some en ↦ elim (enactment_content en) [ none ↦ none | some content ↦ some (en, content) ]
  ]
]

-- `!now.Before(s.SentAt.Add(time.Duration(s.WaitSeconds) * time.Second))`.
unfoldable pub is_expired : ℕ → StorySession → Bool
unfolding reached scale
is_expired now s = reached s.sent_at (scale 1_000_000_000 s.wait_seconds) now

module _ (sv : Services) where
  unfoldable pub base_url : Str
  base_url = if is_nil sv.public_base_url then bytes "http://localhost" else sv.public_base_url

  unfoldable pub auth_request : Step → AuthRequest
  unfolding address_of base_url
  auth_request st = record {
    tenant_id =
        if sv.is_object_id_hex st.subscriber_id then sv.object_id_hex st.subscriber_id else [];
    email = address_of st.user_public_id (sv.user_by_id st.user_public_id);
    unsub_url = sv.unsub_url base_url st.user_public_id;
  }

  -- The row of `recordStoryEmailSend`.
  unfoldable pub email_send : Story → Step → MessageContent → EmailSend
  unfolding address_of
  email_send story st content =
      let tenant =
        if is_nil story.tenant_id && sv.is_object_id_hex st.subscriber_id
        then sv.object_id_hex st.subscriber_id
        else story.tenant_id in
      let to = address_of st.user_public_id (sv.user_by_id st.user_public_id) in
      let send = sv.new_email_send tenant to content.subject in
      record send {
        contact_public_id = st.user_public_id;
        story_public_id = story.public_id;
        story_name = story.name;
        storyline_idx = st.storyline_idx;
        enactment_idx = st.enactment_idx;
        message_id = (sv.reply_correlation send.public_id).0;
      }

  -- The body of the message, with tracked links, the open pixel and the footer.
  unfoldable pub mail_body : Step → MessageContent → Str → Str
  unfolding base_url inject_open_pixel rewrite_links
  mail_body st content send_id =
      sv.append_unsub_footer
        (inject_open_pixel
          (rewrite_links sv.replace_links (λ url. sv.tracking_token url st.user_public_id send_id)
            content.body st.user_public_id base_url)
          base_url send_id)
        (sv.unsub_url base_url st.user_public_id) (sv.postal_address st.subscriber_id)

  unfoldable pub mail_of : Step → MessageContent → Str → Mail
  unfolding address_of base_url mail_body raw_email reply_address reply_headers sender
  mail_of st content send_id =
      let to = address_of st.user_public_id (sv.user_by_id st.user_public_id) in
      let correlation = sv.reply_correlation send_id in
      record {
        session = st.session;
        enactment = st.enactment_idx;
        from_email = sender content.from_email;
        to_email = to;
        raw =
            raw_email content.from_email to content.subject (mail_body st content send_id)
              (reply_address content.reply_to correlation.1)
              (reply_headers correlation.0
                (sv.unsub_headers (sv.unsub_url base_url st.user_public_id)));
      }

  module _ {c : Collection} where
    -- `recordStoryEmailSend` and `sendStoryEmail`: an error of either is only logged.
    unfoldable pub deliver : Story → Step → MessageContent → World c → World c
    unfolding email_send mail_of
    deliver story st content w =
        let row = email_send story st content in
        record w {
          sends = if sv.is_stored row then row ∷ w.sends else w.sends;
          outbox = mail_of st content row.public_id ∷ w.outbox;
        }

    -- The send authority is asked, and the step is delivered if it allows it.
    unfoldable pub send_step : Story → Step → MessageContent → World c → World c
    unfolding auth_request deliver
    send_step story st content w =
        if sv.is_allowed (auth_request st) then deliver story st content w else w

    -- `markSessionComplete`, the first case and the default of the switch, and `markStorySessionComplete` of routes/tracking.go.
    unfoldable pub mark_complete : Str → World c → World c
    mark_complete public_id w = record w {
      sessions =
          (c.update (λ d. str_eq d.public_id public_id) (λ d. record d { status = completed })
            w.sessions).0;
    }

    -- The claim and, behind it, the sending.
    unfoldable pub claim_and_send :
        ℕ → Story → StorySession → Enactment → MessageContent → World c → World c
    unfolding claim_query claim_change send_step on_sent_wait
    claim_and_send now story s en content w =
        let claimed =
          c.update (claim_query s) (claim_change s now (on_sent_wait sv.events en)) w.sessions in
        let w' = record w { sessions = claimed.0 } in
        if claimed.1 then send_step story (next_step s) content w' else w'

    -- The case "next_scene", behind the look-up of the content.
    unfoldable pub proceed :
        ℕ → Story → StorySession → World c → Option (Enactment × MessageContent) → World c
    unfolding claim_and_send mark_complete
    proceed now story s w none = mark_complete s.public_id w
    proceed now story s w (some (en, content)) =
        if is_unsubscribed (sv.user_by_id s.user_public_id)
        then mark_complete s.public_id w
        else claim_and_send now story s en content w

    -- The case "next_scene", behind the look-up of the story.
    unfoldable pub advance_in : ℕ → StorySession → World c → Option Story → World c
    unfolding next_content proceed hydrate_story_graph
    advance_in now s w none = w
    advance_in now s w (some found) =
        let story = hydrate_story_graph sv.graph found in
        proceed now story s w (next_content story s)

    unfoldable pub next_scene : ℕ → StorySession → World c → World c
    unfolding advance_in
    next_scene now s w = advance_in now s w (sv.story_by_id s.story_id)

    -- `advanceSession`, at the time of its claim: the session is the one that was read before.
    unfoldable pub advance_session : ℕ → StorySession → World c → World c
    unfolding next_scene mark_complete
    advance_session now s w =
        if str_eq s.next_action (bytes "next_scene")
        then next_scene now s w
        else mark_complete s.public_id w

-- Each session of a sweep is advanced with the answers and at the time that its own turn gets.
module _ (answers : StorySession → Services) (clock : StorySession → ℕ) {c : Collection} where
  -- The loop of `advanceExpiredSessions`.
  unfoldable pub sweep : ℕ → List StorySession → World c → World c
  unfolding is_expired advance_session
  sweep now [] w = w
  sweep now (s ∷ ss) w =
      sweep now ss (if is_expired now s then advance_session (answers s) (clock s) s w else w)

  unfoldable pub advance_expired_sessions : ℕ → World c → World c
  unfolding sweep
  advance_expired_sessions now w = elim (c.find_all (λ d. is_active d.status) w.sessions) [
    | none ↦ w
    | some ss ↦ sweep now ss w
  ]
