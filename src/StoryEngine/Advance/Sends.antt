-- ===== src/StoryEngine/Advance/Sends.antt =====
-- routes/story_engine.go: when `advanceSession` sends a message.
use sentanyl_core_readonly.Prelude.Distinct.{Has}
use sentanyl_core_readonly.Prelude.{
  ℕ, suc, true, false, if_rule, Option, some, none, List, ◌∷◌, bytes, str_eq, ◌≡◌, refl, inl, inr,
}
use sentanyl_core_readonly.StoryEngine.Advance.Carries.{
  IsMailOf, IsNext, mail_of-IsMailOf, next_content-IsNext,
}
use sentanyl_core_readonly.StoryEngine.Advance.{
  advance_in, advance_session, auth_request, claim_and_send, claim_change, claim_query, deliver,
  is_unsubscribed, mark_complete, next_content, next_scene, next_step, proceed, send_step,
}
use sentanyl_core_readonly.StoryEngine.Content.{on_sent_wait}
use sentanyl_core_readonly.StoryEngine.Graph.{Enactment, MessageContent, Story, hydrate_story_graph}
use sentanyl_core_readonly.StoryEngine.Services.{Mail, Services, World}
use sentanyl_core_readonly.StoryEngine.Sessions.{
  Change, Collection, Modified, Query, StorySession, here, there,
}

-- The document that an update changed.
pub Modified-Has :
    {q : Query} {f : Change} {ds es : List StorySession}
    → Modified q f ds es
    → (d : StorySession) × Has d ds × (q d ≡ true)
Modified-Has (here {d} h) = (d, inl refl, h)
Modified-Has (there m) = let r = Modified-Has m in (r.0, inr r.1, r.2)

-- What a message means: its story is found, the message is made of the content of the enactment
-- behind that of the session in the story's graph, the session asked for its next scene, the user has not unsubscribed, the
-- send authority allowed it, and a session in the collection was as the one that was read.
pub record IsSent (sv : Services) {c : Collection} (s : StorySession) (w v : World c) : Type 0 where
  pub found : Story
  pub story_found : sv.story_by_id s.story_id ≡ some found
  pub enactment : Enactment
  pub content : MessageContent
  pub next : IsNext (hydrate_story_graph sv.graph found) s enactment content
  pub mail : Mail
  pub sent : v.outbox ≡ mail ∷ w.outbox
  pub for_session : mail.session ≡ s.public_id
  pub for_enactment : mail.enactment ≡ suc s.enactment_idx
  pub carries : IsMailOf sv (next_step s) content mail
  pub asked : str_eq s.next_action (bytes "next_scene") ≡ true
  pub subscribed : is_unsubscribed (sv.user_by_id s.user_public_id) ≡ false
  pub allowed : sv.is_allowed (auth_request sv (next_step s)) ≡ true
  pub claimed : StorySession
  pub claimed_in : Has claimed (c.docs w.sessions)
  pub claimed_as : claim_query s claimed ≡ true

pub data Sends (sv : Services) {c : Collection} (s : StorySession) (w v : World c) : Type 0 where
  quiet : v.outbox ≡ w.outbox → Sends sv s w v
  sent : IsSent sv s w v → Sends sv s w v

module _ (sv : Services) {c : Collection} (now : ℕ) (s : StorySession)
    (asked : str_eq s.next_action (bytes "next_scene") ≡ true) where
  complete-Sends : (w : World c) → Sends sv s w (mark_complete sv s.public_id w)
  unfolding mark_complete
  complete-Sends w = quiet refl

  claim_and_send-Sends :
      (found : Story) (en : Enactment) (content : MessageContent) (w : World c)
      → sv.story_by_id s.story_id ≡ some found
      → IsNext (hydrate_story_graph sv.graph found) s en content
      → is_unsubscribed (sv.user_by_id s.user_public_id) ≡ false
      → Sends sv s w (claim_and_send sv now (hydrate_story_graph sv.graph found) s en content w)
  unfolding claim_and_send send_step
  claim_and_send-Sends found en content w at n u =
      let q = claim_query s in
      let f = claim_change s now (on_sent_wait sv.events en) in
      let claimed = c.update q f w.sessions in
      if_rule (λ (v : World c). Sends sv s w v) claimed.1
        (λ hit.
          if_rule (λ (v : World c). Sends sv s w v) (sv.is_allowed (auth_request sv (next_step s)))
            (λ a.
              let d = Modified-Has (c.update_hit q f w.sessions hit) in
              unfold deliver in
              sent (record {
                found = found;
                story_found = at;
                enactment = en;
                content = content;
                next = n;
                mail = _;
                sent = refl;
                for_session = refl;
                for_enactment = refl;
                carries = mail_of-IsMailOf sv (next_step s) content _;
                asked = asked;
                subscribed = u;
                allowed = a;
                claimed = d.0;
                claimed_in = d.1;
                claimed_as = d.2;
              }))
            λ _. quiet refl)
        λ _. quiet refl

  proceed-Sends :
      (found : Story) (w : World c) (o : Option (Enactment × MessageContent))
      → sv.story_by_id s.story_id ≡ some found
      → next_content (hydrate_story_graph sv.graph found) s ≡ o
      → Sends sv s w (proceed sv now (hydrate_story_graph sv.graph found) s w o)
  unfolding proceed
  proceed-Sends found w none at e = complete-Sends w
  proceed-Sends found w (some (en, content)) at e =
      let n = next_content-IsNext (hydrate_story_graph sv.graph found) s en content e in
      if_rule (λ (v : World c). Sends sv s w v) (is_unsubscribed (sv.user_by_id s.user_public_id))
        (λ _. complete-Sends w) λ u. claim_and_send-Sends found en content w at n u

  advance_in-Sends :
      (w : World c) (o : Option Story)
      → sv.story_by_id s.story_id ≡ o
      → Sends sv s w (advance_in sv now s w o)
  unfolding advance_in
  advance_in-Sends w none at = quiet refl
  advance_in-Sends w (some found) at = proceed-Sends found w _ at refl

pub advance_session-Sends :
    (sv : Services) {c : Collection} (now : ℕ) (s : StorySession) (w : World c)
    → Sends sv s w (advance_session sv now s w)
unfolding advance_session next_scene mark_complete
advance_session-Sends sv {c} now s w =
    if_rule (λ (v : World c). Sends sv s w v) (str_eq s.next_action (bytes "next_scene"))
      (λ asked. advance_in-Sends sv now s asked w (sv.story_by_id s.story_id) refl) λ _. quiet refl
