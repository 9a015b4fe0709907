-- ===== src/StoryEngine/Advance/Carries.antt =====
-- routes/story_engine.go: what the message of a step is made of, and where its content comes from.
use sentanyl_core_readonly.Prelude.{
  ℕ, zero, suc, Option, some, none, List, [], ◌∷◌, ◌++◌, Str, length, ◌≡◌, refl, ap,
}
use sentanyl_core_readonly.StoryEngine.Advance.{
  Step, address_of, base_url, mail_body, mail_of, next_content,
}
use sentanyl_core_readonly.StoryEngine.Content.Taken.{IsContentOf, enactment_content-IsContentOf}
use sentanyl_core_readonly.StoryEngine.Content.{enactment_content, get_elem?}
use sentanyl_core_readonly.StoryEngine.Graph.{Enactment, MessageContent, Story, Storyline}
use sentanyl_core_readonly.StoryEngine.Mail.Headers.{Reads, header_lines, raw_email-header_lines}
use sentanyl_core_readonly.StoryEngine.Mail.{reply_address, reply_headers}
use sentanyl_core_readonly.StoryEngine.Services.{Mail, Services}
use sentanyl_core_readonly.StoryEngine.Sessions.{StorySession}

-- The message of a step with a content: it goes to the user's address, and a reader of mail finds
-- in it the sender, the subject and the reply address of the content, and the content's body with
-- its links, pixel and footer.
pub record IsMailOf (sv : Services) (st : Step) (content : MessageContent) (m : Mail) : Type 0 where
  pub for_session : m.session ≡ st.session
  pub for_enactment : m.enactment ≡ st.enactment_idx
  pub to_user : m.to_email ≡ address_of st.user_public_id (sv.user_by_id st.user_public_id)
  pub send_id : Str
  pub reads :
      Reads m.raw
        (header_lines content.from_email m.to_email content.subject
          (reply_address content.reply_to (sv.reply_correlation send_id).1)
          (reply_headers
            (sv.reply_correlation send_id).0
            (sv.unsub_headers (sv.unsub_url (base_url sv) st.user_public_id))))
        (mail_body sv st content send_id)

pub mail_of-IsMailOf :
    (sv : Services) (st : Step) (content : MessageContent) (send_id : Str)
    → IsMailOf sv st content (mail_of sv st content send_id)
unfolding mail_of
mail_of-IsMailOf sv st content send_id = record {
  for_session = refl;
  for_enactment = refl;
  to_user = refl;
  send_id = send_id;
  reads =
      raw_email-header_lines content.from_email
        (address_of st.user_public_id (sv.user_by_id st.user_public_id)) content.subject
        (mail_body sv st content send_id) _ _;
}

-- The item stands in the list with that many before it.
pub record IsAt (A : Type 0) (xs : List A) (n : ℕ) (x : A) : Type 0 where
  pub before : List A
  pub after : List A
  pub split : xs ≡ before ++ x ∷ after
  pub count : length before ≡ n

get_elem?-IsAt :
    {A : Type 0} (xs : List A) (n : ℕ) (x : A) → get_elem? xs n ≡ some x → IsAt A xs n x
get_elem?-IsAt [] n x h = absurd (cc)
get_elem?-IsAt (y ∷ ys) zero x h = record {
  before = [];
  after = ys;
  split = let e : y ≡ x = cc in ap (λ z. z ∷ ys) e;
  count = refl;
}
get_elem?-IsAt (y ∷ ys) (suc n) x h =
    let r = get_elem?-IsAt ys n x h in
    record {
      before = y ∷ r.before;
      after = r.after;
      split = ap (λ zs. y ∷ zs) r.split;
      count = ap suc r.count;
    }

-- The enactment behind that of the session, in the session's storyline, and its content.
pub record IsNext (story : Story) (s : StorySession) (en : Enactment) (content : MessageContent)
    : Type 0 where
  pub line : Storyline
  pub line_at : IsAt Storyline story.storylines s.storyline_idx line
  pub next_at : IsAt Enactment line.acts (suc s.enactment_idx) en
  pub has_content : IsContentOf en content

pub next_content-IsNext :
    (story : Story) (s : StorySession) (en : Enactment) (content : MessageContent)
    → next_content story s ≡ some (en, content)
    → IsNext story s en content
unfolding next_content
next_content-IsNext story s en content = at_line (get_elem? story.storylines s.storyline_idx) refl
  where
    at_content :
        (sl : Storyline) (x : Enactment) (o : Option MessageContent)
        → get_elem? story.storylines s.storyline_idx ≡ some sl
        → get_elem? sl.acts (suc s.enactment_idx) ≡ some x
        → enactment_content x ≡ o
        → elim o as (λ _. Option (Enactment × MessageContent)) [
          | none ↦ none
          | some k ↦ some (x, k)
        ]
          ≡ some (en, content)
        → IsNext story s en content
    at_content sl x none l e c h = absurd (cc)
    at_content sl x (some k) l e c h =
        let p : x ≡ en = cc in
        let q : k ≡ content = cc in
        record {
          line = sl;
          line_at = get_elem?-IsAt story.storylines s.storyline_idx sl l;
          next_at = get_elem?-IsAt sl.acts (suc s.enactment_idx) en (cc);
          has_content = enactment_content-IsContentOf en content (cc);
        }

    at_act :
        (sl : Storyline) (o : Option Enactment)
        → get_elem? story.storylines s.storyline_idx ≡ some sl
        → get_elem? sl.acts (suc s.enactment_idx) ≡ o
        → elim o as (λ _. Option (Enactment × MessageContent)) [
          | none ↦ none
          | some x ↦ elim (enactment_content x) [ none ↦ none | some k ↦ some (x, k) ]
        ]
          ≡ some (en, content)
        → IsNext story s en content
    at_act sl none l e h = absurd (cc)
    at_act sl (some x) l e h = at_content sl x (enactment_content x) l e refl h

    at_line :
        (o : Option Storyline)
        → get_elem? story.storylines s.storyline_idx ≡ o
        → elim o as (λ _. Option (Enactment × MessageContent)) [
          | none ↦ none
          | some sl ↦ elim (get_elem? sl.acts (suc s.enactment_idx)) [
            | none ↦ none
            | some x ↦ elim (enactment_content x) [ none ↦ none | some k ↦ some (x, k) ]
          ]
        ]
          ≡ some (en, content)
        → IsNext story s en content
    at_line none l h = absurd (cc)
    at_line (some sl) l h = at_act sl (get_elem? sl.acts (suc s.enactment_idx)) l refl h
